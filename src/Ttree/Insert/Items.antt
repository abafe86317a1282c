-- ===== src/Ttree/Insert/Items.antt =====
-- ttree.cxx, `dbTtreeNode::insert`: the items of a node, and the comparisons that follow.
use post.Prelude.{
  ℕ, zero, suc, ◌+◌, ◌-◌, ◌/◌, ◌≤◌, ◌<◌, ◌≡◌, ◌∙◌, refl, sym, ap, List, [], ◌∷◌, ◌++◌, ltb,
  Ordering, lt, eq, gt, length, get_or, take, drop, All, total, total-append, Bool-cases,
  Ordering-cases, is_lt, is_eq, is_gt, inl, inr, arith, ltb→lt, length-append, All-append, All-imp,
}
use post.Ttree.{minus}
use post.Ttree.Insert.{insert_at, push_first, push_last, place}

parts_sum :
    (f : ℕ → ℕ) (k : ℕ) (xs : List ℕ) → total f (take k xs) + total f (drop k xs) ≡ total f xs
parts_sum f zero xs = omega arith
parts_sum f (suc k) [] = refl
parts_sum f (suc k) (x ∷ xs) = omega (arith, parts_sum f k xs)

all_but_last :
    (f : ℕ → ℕ) (m : ℕ) (xs : List ℕ)
    → length xs ≡ suc m
    → total f (take m xs) + f (get_or xs m 0) ≡ total f xs
all_but_last f zero [] h = absurd (omega arith)
all_but_last f zero (x ∷ []) h = omega arith
all_but_last f zero (x ∷ y ∷ xs) h = absurd (omega arith)
all_but_last f (suc m) [] h = absurd (omega arith)
all_but_last f (suc m) (x ∷ xs) h = omega (arith, all_but_last f m xs (omega arith))

succ_sum : (k j : ℕ) → suc (k + j) ≡ suc k + j
succ_sum k j = omega arith

get_or-drop : (k j : ℕ) (xs : List ℕ) → get_or (drop k xs) j 0 ≡ get_or xs (k + j) 0
get_or-drop zero j xs = ap (λ i. get_or xs i 0) (omega arith)
get_or-drop (suc k) j [] = refl
get_or-drop (suc k) j (x ∷ xs) = get_or-drop k j xs ∙ ap (λ i. get_or (x ∷ xs) i 0) (succ_sum k j)

length-drop : (k : ℕ) (xs : List ℕ) → k ≤ length xs → length (drop k xs) + k ≡ length xs
length-drop zero xs h = omega arith
length-drop (suc k) [] h = absurd (omega arith)
length-drop (suc k) (x ∷ xs) h = omega (arith, length-drop k xs (omega arith))

pub total-insert_at :
    (f : ℕ → ℕ) (k obj : ℕ) (xs : List ℕ) → total f (insert_at k obj xs) ≡ total f xs + f obj
total-insert_at f k obj xs =
    omega (arith, total-append f (take k xs) (obj ∷ drop k xs), parts_sum f k xs)

pub total-push_first :
    (f : ℕ → ℕ) (k obj : ℕ) (xs : List ℕ)
    → 1 ≤ k
    → 1 ≤ length xs
    → total f (push_first k obj xs) + f (get_or xs 0 0) ≡ total f xs + f obj
total-push_first f zero obj xs h m = absurd (omega arith)
total-push_first f (suc k) obj [] h m = absurd (omega arith)
total-push_first f (suc k) obj (x ∷ xs) h m =
    omega (arith, total-append f (take k xs) (obj ∷ drop k xs), parts_sum f k xs)

pub total-push_last :
    (f : ℕ → ℕ) (k obj : ℕ) (xs : List ℕ)
    → k < length xs
    → total f (push_last k obj xs) + f (get_or xs (length xs - 1) 0) ≡ total f xs + f obj
total-push_last f k obj xs h =
    let m = length xs - 1 - k in
    let last : k + m ≡ length xs - 1 = omega arith in
    omega (
      arith,
      total-append f (take k xs) (obj ∷ take m (drop k xs)),
      parts_sum f k xs,
      all_but_last f m (drop k xs) (omega (arith, length-drop k xs (omega arith))),
      ap f (get_or-drop k m xs ∙ ap (λ i. get_or xs i 0) last),
    )

-- the index of the binary search stays in its range
pub place_bounds :
    (compare : ℕ → ℕ → Ordering) (fuel obj : ℕ) (items : List ℕ) (l r : ℕ)
    → l ≤ r
    → (l ≤ place compare fuel obj items l r) × (place compare fuel obj items l r ≤ r)
unfolding place
place_bounds compare zero obj items l r h = (h, omega arith)
place_bounds compare (suc fuel) obj items l r h = elim (Bool-cases (ltb l r)) [
  | inr e ↦ rw (place, e) (h, omega arith)
  | inl e ↦
      let m = (l + r) / 2 in
      let less = ltb→lt l r e in
      elim (Ordering-cases (compare obj (get_or items m 0))) [
        | is_gt g ↦
            let (low, high) = place_bounds compare fuel obj items (suc m) r (omega arith) in
            rw (place, e, g) (omega arith, high)
        | is_eq g ↦ rw (place, e, g) (omega arith, omega arith)
        | is_lt g ↦
            let (low, high) = place_bounds compare fuel obj items l m (omega arith) in
            rw (place, e, g) (low, omega arith)
      ]
]

All-take : (P : ℕ → Type 0) (k : ℕ) (xs : List ℕ) → All P xs → All P (take k xs)
All-take P zero xs h = tt
All-take P (suc k) [] h = tt
All-take P (suc k) (x ∷ xs) h = (h.0, All-take P k xs h.1)

All-drop : (P : ℕ → Type 0) (k : ℕ) (xs : List ℕ) → All P xs → All P (drop k xs)
All-drop P zero xs h = h
All-drop P (suc k) [] h = tt
All-drop P (suc k) (x ∷ xs) h = All-drop P k xs h.1

get_or-All : (P : ℕ → Type 0) (i : ℕ) (xs : List ℕ) → i < length xs → All P xs → P (get_or xs i 0)
get_or-All P i [] less h = absurd (omega arith)
get_or-All P zero (x ∷ xs) less h = h.0
get_or-All P (suc i) (x ∷ xs) less h = get_or-All P i xs (omega arith) h.1

module _ (compare : ℕ → ℕ → Ordering) where
  -- In a node the first item is the least, and the last the greatest.
  abbrev pub IsOrdered : List ℕ → Type 0
  IsOrdered items =
      All (λ e. compare (get_or items 0 0) e ≡ gt → ⊥) items
      × All (λ e. compare e (get_or items (length items - 1) 0) ≡ gt → ⊥) items

  -- An insertion of `x` into a node does not go between its items.
  abbrev pub Passes : ℕ → List ℕ → Type 0
  Passes x items =
      compare x (get_or items 0 0) ≡ gt → compare x (get_or items (length items - 1) 0) ≡ lt → ⊥

  module _ (flips : (a b : ℕ) → compare b a ≡ minus (compare a b)) where
    not_both : (o : Ordering) → minus o ≡ lt → (o ≡ gt → ⊥) → ⊥
    not_both lt e h = absurd (ground arith)
    not_both eq e h = absurd (ground arith)
    not_both gt e h = h refl

    pub push_first-Passes :
        (k obj : ℕ) (items : List ℕ)
        → 1 ≤ k
        → 1 ≤ length items
        → compare obj (get_or items 0 0) ≡ gt
        → IsOrdered items
        → Passes (get_or items 0 0) (push_first k obj items)
    push_first-Passes zero obj items h m g order first last = absurd (omega arith)
    push_first-Passes (suc k) obj [] h m g order first last = absurd (omega arith)
    push_first-Passes (suc k) obj (x ∷ xs) h m g order first last =
        get_or-All (λ e. compare x e ≡ gt → ⊥) 0 (take k xs ++ obj ∷ drop k xs)
          (omega (arith, length-append (take k xs) (obj ∷ drop k xs)))
          (All-append _ (take k xs) (obj ∷ drop k xs) (All-take _ k xs order.0.1)
            ((λ e. not_gt e), All-drop _ k xs order.0.1))
          first
      where
        not_gt : compare x obj ≡ gt → ⊥
        not_gt e = let f = flips obj x in let g' = ap minus g in absurd (cc)

    pub push_last-Passes :
        (k obj : ℕ) (items : List ℕ)
        → k < length items
        → compare obj (get_or items (length items - 1) 0) ≡ lt
        → IsOrdered items
        → Passes (get_or items (length items - 1) 0) (push_last k obj items)
    push_last-Passes k obj items h l order first last =
        let m = length items - 1 - k in
        let x = get_or items (length items - 1) 0 in
        let P : ℕ → Type 0 = λ e. compare x e ≡ lt → ⊥ in
        let whole : All P items =
          All-imp (λ e. compare e x ≡ gt → ⊥) P
            (λ e k' less. not_both (compare e x) (sym (flips e x) ∙ less) k') items order.1 in
        let own : P obj = (λ less. let f = flips obj x in let g = ap minus l in (cc)) in
        get_or-All P (length (push_last k obj items) - 1) (push_last k obj items)
          (omega (arith, length-append (take k items) (obj ∷ take m (drop k items))))
          (All-append P (take k items) (obj ∷ take m (drop k items)) (All-take P k items whole)
            (own, All-take P m (drop k items) (All-drop P k items whole)))
          last
