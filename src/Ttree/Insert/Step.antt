-- ===== src/Ttree/Insert/Step.antt =====
-- ttree.cxx, `dbTtreeNode::insert`: one call on a node.
use post.Prelude.{
  ℕ, suc, ◌+◌, ◌-◌, ◌≤◌, ◌≡◌, ◌⊎◌, ◌∙◌, sym, ap, true, false, not, ◌&&◌, List, [], ◌∷◌, ◌++◌, ◌==◌,
  max, Bool-cases, Ordering, lt, gt, Ordering-cases, is_lt, is_eq, is_gt, inl, inr, arith, length,
  get_or, total, total-append, total-one,
}
use post.Balanced.{Balance, node, nodes}
use post.Balanced.Height.{Fits, height}
use post.Ttree.{Ttree, minus}
use post.Ttree.Remove.{is_nil}
use post.Ttree.Remove.Parts.{Fine, IsTtree}
use post.Ttree.Insert.{
  Insertion, fault, endless, inserted, insert_at, push_first, push_last, not_left_high, place,
  into_middle, from_last, visit, left_inserted, right_inserted,
}
use post.Ttree.Insert.Items.{
  total-insert_at, total-push_first, total-push_last, place_bounds, IsOrdered, Passes,
  push_first-Passes, push_last-Passes,
}
use post.Ttree.Insert.Grow.{
  InsertedInto, bag, left_inserted-InsertedInto, right_inserted-InsertedInto, changed-InsertedInto,
  not_full, both,
}

-- an insertion of `x` in place of one of `obj`
swapped :
    (h : ℕ) (es es' : List (ℕ × List ℕ)) (obj x : ℕ) (d : Insertion)
    → ((f : ℕ → ℕ) → bag f es' + f x ≡ bag f es + f obj)
    → InsertedInto h es' x d
    → InsertedInto h es obj d
swapped h es es' obj x fault w k = k
swapped h es es' obj x endless w k = k
swapped h es es' obj x (inserted t grown) w (i, (fine, v)) =
    (i, (fine, λ f. omega (arith, w f, v f)))

module _ (compare : ℕ → ℕ → Ordering) (flips : (a b : ℕ) → compare b a ≡ minus (compare a b))
    (self : ℕ) (l : Ttree) (items : List ℕ) (b : Balance) (r : Ttree) (obj : ℕ)
    (fine : Fine (self, items)) (fits : Fits b (height l) (height r)) (v : IsTtree l)
    (u : IsTtree r) (again : Ttree → ℕ → Insertion) where
  abbrev Answer : Insertion → Type 0
  Answer d =
      InsertedInto (suc (max (height l) (height r))) (nodes l ++ (self, items) ∷ nodes r) obj d

  -- the call for the same node, if it goes to a branch
  abbrev IsAgain : Type 0
  IsAgain =
      (items' : List ℕ) (x : ℕ)
      → Fine (self, items')
      → ((f : ℕ → ℕ) → total f items' + f x ≡ total f items + f obj)
      → Passes compare x items'
      → InsertedInto (suc (max (height l) (height r))) (nodes l ++ (self, items') ∷ nodes r) x
          (again (node self l items' b r) x)

  again-Answer :
      IsAgain
      → (items' : List ℕ) (x : ℕ) → ((f : ℕ → ℕ) → total f items' + f x ≡ total f items + f obj)
      → Passes compare x items'
      → Answer (again (node self l items' b r) x)
  again-Answer next items' x w passes =
      swapped _ (nodes l ++ (self, items) ∷ nodes r) (nodes l ++ (self, items') ∷ nodes r) obj x _
        (λ f. omega (
          arith,
          w f,
          total-append (λ (e : ℕ × List ℕ). total f e.1) (nodes l) ((self, items') ∷ nodes r),
          total-append (λ (e : ℕ × List ℕ). total f e.1) (nodes l) ((self, items) ∷ nodes r),
        ))
        (next items' x
          (
            omega (arith, fine, w (λ _. 1), total-one items, total-one items'),
            omega (arith, fine, w (λ _. 1), total-one items, total-one items'),
          )
          w passes)

  room-Answer :
      (items' : List ℕ)
      → not (length items == 125) ≡ true
      → ((f : ℕ → ℕ) → total f items' ≡ total f items + f obj)
      → Answer (inserted (node self l items' b r) false)
  room-Answer items' room w =
      changed-InsertedInto self l items items' b r obj fits v u (not_full items fine.1 room) w

  into_middle-Answer :
      IsAgain
      → IsOrdered compare items
      → compare obj (get_or items 0 0) ≡ gt
      → compare obj (get_or items (length items - 1) 0) ≡ lt
      → 2 ≤ length items
      → Answer (into_middle compare self l items b r obj again)
  unfolding into_middle
  into_middle-Answer next order g less two =
      let n = length items in
      let k = place compare n obj items 1 (n - 1) in
      let (low, high) = place_bounds compare n obj items 1 (n - 1) (omega arith) in
      elim (Bool-cases (not (n == 125))) [
        | inl room ↦
            rw (into_middle, room)
              (room-Answer (insert_at k obj items) room (λ f. total-insert_at f k obj items))
        | inr full ↦ (elim (Bool-cases (not_left_high b)) [
          | inl e ↦
              rw (into_middle, full, e)
                (again-Answer next (push_first k obj items) (get_or items 0 0)
                  (λ f. total-push_first f k obj items low fine.0)
                  (push_first-Passes compare flips k obj items low fine.0 g order))
          | inr e ↦
              rw (into_middle, full, e)
                (again-Answer next (push_last k obj items) (get_or items (n - 1) 0)
                  (λ f. total-push_last f k obj items (omega arith))
                  (push_last-Passes compare flips k obj items (omega arith) less order))
        ])
      ]

  two_items :
      compare obj (get_or items 0 0) ≡ gt
      → compare obj (get_or items (length items - 1) 0) ≡ lt
      → 2 ≤ length items
  two_items g less = elim (Bool-cases (length items == 1)) [
    | inl e ↦
        let zero_index : length items - 1 ≡ 0 = ground arith in
        absurd (clash (sym g ∙ (ap (λ i. compare obj (get_or items i 0)) (sym zero_index) ∙ less)))
    | inr e ↦ ground (arith, fine)
  ]
    where
      clash : gt ≡ lt → ⊥
      clash e = absurd (ground arith)

  pub visit-Answer :
      (call_left call_right : Insertion)
      → InsertedInto (height l) (nodes l) obj call_left
      → InsertedInto (height r) (nodes r) obj call_right
      → (Passes compare obj items) ⊎ (IsAgain × IsOrdered compare items)
      → Answer (visit compare self l items b r obj call_left call_right again)
  unfolding visit from_last
  visit-Answer call_left call_right hl hr which =
      let left : Answer (left_inserted self items b r call_left) =
        left_inserted-InsertedInto self items b obj fine (height l) (nodes l) r call_left fits u
          hl in
      let right : Answer (right_inserted self l items b call_right) =
        right_inserted-InsertedInto self items b obj fine (height r) (nodes r) l call_right fits v
          hr in
      let room = not (length items == 125) in
      let front : room ≡ true → Answer (inserted (node self l (obj ∷ items) b r) false) =
        λ e. room-Answer (obj ∷ items) e (λ f. omega arith) in
      let end : room ≡ true → Answer (inserted (node self l (items ++ obj ∷ []) b r) false) = λ e.
        room-Answer (items ++ obj ∷ []) e (λ f. omega (arith, total-append f items (obj ∷ []))) in
      elim (Ordering-cases (compare obj (get_or items 0 0))) [
        | is_lt o ↦ (elim (Bool-cases (is_nil l && room)) [
          | inl e ↦ rw (visit, o, e) (front (both (is_nil l) room e))
          | inr e ↦ rw (visit, o, e) left
        ])
        | is_eq o ↦ (elim (Bool-cases room) [
          | inl e ↦ rw (visit, o, e) (front e)
          | inr e ↦ rw (visit, o, e) left
        ])
        | is_gt o ↦ (elim (Ordering-cases (compare obj (get_or items (length items - 1) 0))) [
          | is_gt p ↦ (elim (Bool-cases (is_nil r && room)) [
            | inl e ↦ rw (visit, o, from_last, p, e) (end (both (is_nil r) room e))
            | inr e ↦ rw (visit, o, from_last, p, e) right
          ])
          | is_eq p ↦ (elim (Bool-cases room) [
            | inl e ↦ rw (visit, o, from_last, p, e) (end e)
            | inr e ↦ rw (visit, o, from_last, p, e) right
          ])
          | is_lt p ↦ (elim which [
            | inl passes ↦ absurd (passes o p)
            | inr (next, order) ↦
                rw (visit, o, from_last, p) (into_middle-Answer next order o p (two_items o p))
          ])
        ])
      ]
