-- ===== src/Text/Reference.antt =====
-- A search that compares each pattern at each place, from the front: no table, no jumps.
use post.Prelude.{
  ℕ, zero, suc, ◌+◌, ◌-◌, ◌≤◌, ◌<◌, ◌≡◌, ◌∙◌, ◌↔◌, refl, sym, ap, Bool, true, false, Option, none,
  some, [], ◌∷◌, if◌then◌else◌, Bool-cases, inl, inr, subst, ltb, ltb→lt, ltb→le, arith, length,
  get_or, drop,
}
use post.Text.{Bytes, Mask, match_back, same_char, Indexed, covers, with_bit}

-- whether the text begins with the pattern
unfoldable pub starts_with : (ℕ → ℕ → Bool) → Bytes → Bytes → Bool
starts_with same [] s = true
starts_with same (a ∷ p) [] = false
starts_with same (a ∷ p) (c ∷ s) =
    let rest = starts_with same p s in if same a c then rest else false

-- the first place at which a test ends the search, which is its answer `none`
unfoldable pub tries : {S : Type 0} → (Bytes → S → Option S) → Bytes → ℕ → S → Option ℕ
tries test [] o t = none
tries test (c ∷ s) o t = elim (test (c ∷ s) t) [ none ↦ some o | some t' ↦ tries test s (suc o) t' ]

unfoldable pub test_one : (ℕ → ℕ → Bool) → Bytes → Bytes → Unit {0} → Option (Unit {0})
unfolding starts_with
test_one same p s u = if starts_with same p s then none else some tt

-- the patterns that have been found so far are a mask; the search ends once it covers `and_mask`
unfoldable pub test_all : (ℕ → ℕ) → Mask → Mask → Indexed → Bytes → Mask → Option Mask
unfolding starts_with
test_all upper exact and_mask [] s matched = some matched
test_all upper exact and_mask ((k, p) ∷ ps) s matched =
    elim (starts_with (same_char upper (exact k)) p s) [
      | false ↦ test_all upper exact and_mask ps s matched
      | true ↦ (elim (covers and_mask (with_bit k matched)) [
        | true ↦ none
        | false ↦ test_all upper exact and_mask ps s (with_bit k matched)
      ])
    ]

pub drop-suc :
    (o : ℕ) (s : Bytes) (c : ℕ) (rest : Bytes) → drop o s ≡ c ∷ rest → drop (suc o) s ≡ rest
drop-suc zero [] c rest e = absurd (cc)
drop-suc zero (x ∷ s) c rest e = cc
drop-suc (suc o) [] c rest e = absurd (cc)
drop-suc (suc o) (x ∷ s) c rest e = drop-suc o s c rest e

pub length-drop : (o : ℕ) (s : Bytes) → length (drop o s) ≡ length s - o
length-drop zero s = omega arith
length-drop (suc o) [] = omega arith
length-drop (suc o) (x ∷ s) = omega (arith, length-drop o s)

get_or-drop : (o j : ℕ) (s : Bytes) → get_or (drop o s) j 0 ≡ get_or s (o + j) 0
get_or-drop zero j s = ap (λ i. get_or s i 0) (omega arith)
get_or-drop (suc o) j [] = refl
get_or-drop (suc o) j (x ∷ s) =
    let next : suc (o + j) ≡ suc o + j = omega arith in
    get_or-drop o j s ∙ ap (λ i. get_or (x ∷ s) i 0) next

if_both : (a b : Bool) → ((if a then b else false) ≡ true) ↔ ((a ≡ true) × (b ≡ true))
if_both true b = (λ h. (refl, h), λ h. h.1)
if_both false b = (λ h. absurd (cc), λ h. absurd (cc))

module _ (same : ℕ → ℕ → Bool) where
  -- the first `n` characters of the pattern agree with those of the text from `o` on
  abbrev pub Agree : Bytes → Bytes → ℕ → ℕ → Type 0
  Agree p s o n = (j : ℕ) → j < n → same (get_or p j 0) (get_or s (o + j) 0) ≡ true

  pub match_back-Agree :
      (p s : Bytes) (o l k : ℕ) → k ≡ o + l → (match_back same p s l k ≡ true) ↔ Agree p s o (suc l)
  unfolding match_back
  match_back-Agree p s o zero k e = (
    λ h j lt.
        let z : j ≡ 0 = omega (arith, lt) in
        subst (λ x. same (get_or p x 0) (get_or s (o + x) 0) ≡ true) (sym z)
          (subst (λ x. same (get_or p 0 0) (get_or s x 0) ≡ true) e h),
    λ h. subst (λ x. same (get_or p 0 0) (get_or s x 0) ≡ true) (sym e) (h 0 (omega arith)),
  )
  match_back-Agree p s o (suc l) k e =
      let before = match_back-Agree p s o l (k - 1) (omega (arith, e)) in
      let split =
        if_both (same (get_or p (suc l) 0) (get_or s k 0)) (match_back same p s l (k - 1)) in
      (
        λ h j lt. elim (Bool-cases (ltb j (suc l))) [
          | inl b ↦ before.0 (split.0 h).1 j (ltb→lt j (suc l) b)
          | inr b ↦
              let z : j ≡ suc l = (let w = ltb→le j (suc l) b in omega (arith, lt, w)) in
              subst (λ x. same (get_or p x 0) (get_or s (o + x) 0) ≡ true) (sym z)
                (subst (λ x. same (get_or p (suc l) 0) (get_or s x 0) ≡ true) e (split.0 h).0)
        ],
        λ h. split.1 (
          subst (λ x. same (get_or p (suc l) 0) (get_or s x 0) ≡ true) (sym e)
              (h (suc l) (omega arith)),
          before.1 (λ j lt. h j (omega (arith, lt))),
        ),
      )

  Starts : Bytes → Bytes → Type 0
  Starts p s =
      (length p ≤ length s) × ((j : ℕ) → j < length p → same (get_or p j 0) (get_or s j 0) ≡ true)

  starts_with-Starts : (p s : Bytes) → (starts_with same p s ≡ true) ↔ Starts p s
  unfolding starts_with Starts
  starts_with-Starts [] s = (λ h. (omega arith, λ j lt. absurd (omega (arith, lt))), λ h. refl)
  starts_with-Starts (a ∷ p) [] = (λ h. absurd (cc), λ h. absurd (let w = h.0 in omega (arith, w)))
  starts_with-Starts (a ∷ p) (c ∷ s) =
      let rest = starts_with-Starts p s in
      let split = if_both (same a c) (starts_with same p s) in
      (
        λ h.
            let (here, more) = split.0 h in
            let (short, each) = rest.0 more in (omega (arith, short), cons_each p s here each),
        λ h.
            let short = h.0 in
            split.1 (
              h.1 0 (omega arith),
              rest.1 (omega (arith, short), λ j lt. h.1 (suc j) (omega (arith, lt))),
            ),
      )
    where
      cons_each :
          (p s : Bytes)
          → same a c ≡ true
          → ((j : ℕ) → j < length p → same (get_or p j 0) (get_or s j 0) ≡ true)
          → (j : ℕ) → j < suc (length p)
          → same (get_or (a ∷ p) j 0) (get_or (c ∷ s) j 0) ≡ true
      cons_each p s here each zero lt = here
      cons_each p s here each (suc j) lt = each j (omega (arith, lt))

  pub starts_with-Agree :
      (p s : Bytes) (o : ℕ)
      → (starts_with same p (drop o s) ≡ true)
        ↔ ((length p ≤ length s - o) × Agree p s o (length p))
  unfolding Starts
  starts_with-Agree p s o =
      let e = starts_with-Starts p (drop o s) in
      let n = length-drop o s in
      (
        λ h.
            let (short, each) = e.0 h in
            (
              omega (arith, short, n),
              λ j lt. subst (λ x. same (get_or p j 0) x ≡ true) (get_or-drop o j s) (each j lt),
            ),
        λ h.
            let short = h.0 in
            e.1 (
              omega (arith, short, n),
              λ j lt.
                  subst (λ x. same (get_or p j 0) x ≡ true) (sym (get_or-drop o j s)) (h.1 j lt),
            ),
      )
