-- ===== src/Ttree/Remove/Shape.antt =====
-- ttree.cxx, `dbTtreeNode::remove`: the height of the tree and the number of items of a node.
use post.Prelude.{
  ℕ, zero, suc, ◌-◌, ◌≤◌, ◌≡◌, refl, subst, Bool, true, false, not, ◌&&◌, Option, none, some, List,
  [], ◌∷◌, ◌++◌, if◌then◌else◌, ◌==◌, leb, max, Bool-cases, Ordering, inl, inr, arith, length,
  length-append, get_or, All-append_left, All-append_right,
}
use post.Balanced.{Balance, nil, node, nodes}
use post.Balanced.Height.{Fits, height}
use post.Ttree.{Ttree}
use post.Ttree.Remove.{
  page_items, min_items, not_found, kept, shrunk, Deletion, fault, aborted, returned, take_out,
  to_right, split_item, here_or_right, left_first, node_remove, is_nil, not_right_high, last_item,
  first_item, found_only, remove,
}
use post.Ttree.Remove.Parts.{
  Fine, IsTtree, Deleted, joined, left_removed-Deleted, right_removed-Deleted, Splits,
  split_item-Splits, nil_height, both, negated, left_over, by_order,
}

-- what the removal from a branch promises, for any object
abbrev Removes : Ttree → (ℕ → Deletion) → Type 0
Removes t f = is_nil t ≡ false → (x : ℕ) → Deleted (height t) (f x)

to_right-Deleted :
    (self : ℕ) (items : List ℕ) (b : Balance)
    → Fine (self, items)
    → (l r : Ttree) (d : Deletion) → Fits b (height l) (height r)
    → IsTtree l
    → IsTtree r
    → (is_nil r ≡ false → Deleted (height r) d)
    → Deleted (suc (max (height l) (height r))) (to_right self l items b r d)
unfolding nodes
to_right-Deleted self items b fine l nil d f v w h =
    (((f, v.0, tt), joined self items b fine l nil v.1 tt), refl)
to_right-Deleted self items b fine l (node rs rl ri rb rr) d f v w h =
    right_removed-Deleted self items b fine (height (node rs rl ri rb rr)) l d f v (h refl)

module _ (self : ℕ) (l : Ttree) (b : Balance) (r : Ttree) (fits : Fits b (height l) (height r))
    (left : IsTtree l) (right : IsTtree r) (f g : ℕ → Deletion) (removes_left : Removes l f)
    (removes_right : Removes r g) where
  abbrev whole : ℕ
  whole = suc (max (height l) (height r))

  take_out-Deleted :
      (pre post : List ℕ)
      → suc (length (pre ++ post)) ≤ page_items
      → Deleted whole (take_out self l b r f g pre post)
  unfolding take_out nodes
  take_out-Deleted pre post n =
      let k = suc (length (pre ++ post)) in
      elim (Bool-cases (k == 1 && is_nil r)) [
        | inl e ↦
            rw e (left, let z = nil_height r (both (k == 1) (is_nil r) e).1 in omega (arith, z))
        | inr e ↦ (elim (Bool-cases (k == 1 && is_nil l)) [
          | inl e' ↦
              rw (e, e')
                (right, let z = nil_height l (both (k == 1) (is_nil l) e').1 in omega (arith, z))
          | inr e' ↦ (elim (Bool-cases (leb k min_items && (not (is_nil l) && not_right_high b))) [
            | inl h ↦
                let has_left : is_nil l ≡ false =
                  negated (is_nil l)
                    (both (not (is_nil l)) (not_right_high b)
                      (both (leb k min_items) (not (is_nil l) && not_right_high b) h).1).0 in
                rw (e, e', h)
                  (left_removed-Deleted self (last_item l ∷ (pre ++ post)) b (ground arith, n)
                    (height l) r (f (last_item l)) fits right (removes_left has_left (last_item l)))
            | inr h ↦ (elim (Bool-cases (leb k min_items && not (is_nil r))) [
              | inl h' ↦
                  let has_right : is_nil r ≡ false =
                    negated (is_nil r) (both (leb k min_items) (not (is_nil r)) h').1 in
                  rw (e, e', h, h')
                    (right_removed-Deleted self ((pre ++ post) ++ first_item r ∷ []) b
                      (rw length-append (omega arith), rw length-append (omega (arith, n)))
                      (height r) l (g (first_item r)) fits left
                      (removes_right has_right (first_item r)))
              | inr h' ↦
                  rw (e, e', h, h')
                    (
                      (
                        (fits, left.0, right.0),
                        joined self (pre ++ post) b
                            (left_over (length (pre ++ post)) (is_nil r) e h', omega (arith, n)) l r
                            left.1 right.1,
                      ),
                      refl,
                    )
            ])
          ])
        ])
      ]

  here_or_right-Deleted :
      (compare : ℕ → ℕ → Ordering) (obj : ℕ) (items : List ℕ)
      → Fine (self, items)
      → Deleted whole (here_or_right compare obj self l items b r f g)
  unfolding here_or_right
  here_or_right-Deleted compare obj items fine =
      let past =
        to_right-Deleted self items b fine l r (g obj) fits left right
          (λ ne. removes_right ne obj) in
      let found = part past (split_item obj items) (split_item-Splits obj items) in
      by_order whole (compare obj (get_or items (length items - 1) 0)) _ _ _ past found found
    where
      part :
          Deleted whole (to_right self l items b r (g obj))
          → (o : Option (List ℕ × List ℕ)) → Splits items o
          → Deleted whole (elim o [
            | none ↦ to_right self l items b r (g obj)
            | some (pre, post) ↦ take_out self l b r f g pre post
          ])
      part past none s = past
      part past (some (pre, post)) s = take_out-Deleted pre post (omega (arith, s, fine.1))

module _ (compare : ℕ → ℕ → Ordering) (obj self : ℕ) (items : List ℕ) (b : Balance)
    (r : Ttree) where
  left_first-Deleted :
      (l : Ttree) (same : Bool) (go_on : Ttree → Deletion) (d : Deletion)
      → Fine (self, items)
      → Fits b (height l) (height r)
      → IsTtree r
      → ((left : Ttree)
          → IsTtree left
          → height left ≡ height l
          → Deleted (suc (max (height l) (height r))) (go_on left))
      → Deleted (height l) d
      → Deleted
          (suc (max (height l) (height r)))
          (left_first compare obj same self items b r go_on d)
  unfolding left_first
  left_first-Deleted l same go_on fault fine f v go h = h
  left_first-Deleted l same go_on aborted fine f v go h = tt
  left_first-Deleted l same go_on (returned t shrunk) fine f v go h =
      left_removed-Deleted self items b fine (height l) r (returned t shrunk) f v h
  left_first-Deleted l same go_on (returned t kept) fine f v go h =
      left_removed-Deleted self items b fine (height l) r (returned t kept) f v h
  left_first-Deleted l true go_on (returned t not_found) fine f v go h = go t h.0 h.1
  left_first-Deleted l false go_on (returned t not_found) fine f v go h = tt

  left_part-Deleted :
      (l : Ttree) (same : Bool) (go_on : Ttree → Deletion) (d : Deletion)
      → Fine (self, items)
      → Fits b (height l) (height r)
      → IsTtree r
      → ((left : Ttree)
          → IsTtree left
          → height left ≡ height l
          → Deleted (suc (max (height l) (height r))) (go_on left))
      → (is_nil l ≡ false → Deleted (height l) d)
      → Deleted (suc (max (height l) (height r))) (elim l [
        | nil ↦ if same then go_on nil else aborted
        | node ls ll li lb lr ↦ left_first compare obj same self items b r go_on d
      ])
  unfolding nodes
  left_part-Deleted nil true go_on d fine f v go h = go nil (tt, tt) refl
  left_part-Deleted nil false go_on d fine f v go h = tt
  left_part-Deleted (node ls ll li lb lr) same go_on d fine f v go h =
      left_first-Deleted (node ls ll li lb lr) same go_on d fine f v go (h refl)

-- `remove` from a node of a balanced tree, whose nodes all hold 1 to 125 items, never reads through
-- NULL: it either fails an assertion or leaves a balanced tree whose nodes all hold 1 to 125 items,
-- which is lower by one where the result is 1 and as high as before where it is 0 or -1. The height
-- of the tree is fuel enough, and the relation may be any.
pub node_remove-Deleted :
    (compare : ℕ → ℕ → Ordering) (fuel : ℕ) (t : Ttree) (obj : ℕ)
    → height t ≤ fuel
    → is_nil t ≡ false
    → IsTtree t
    → Deleted (height t) (node_remove compare fuel t obj)
unfolding node_remove nodes
node_remove-Deleted compare fuel nil obj h e v = absurd (cc)
node_remove-Deleted compare zero (node self l items b r) obj h e v = absurd (omega arith)
node_remove-Deleted compare (suc fuel) (node self l items b r) obj h e v =
    let fine = All-append_right Fine (nodes l) ((self, items) ∷ nodes r) v.1 in
    let left : IsTtree l = (v.0.1, All-append_left Fine (nodes l) ((self, items) ∷ nodes r) v.1) in
    let right : IsTtree r = (v.0.2, fine.1) in
    let low : height l ≤ fuel = omega (arith, h) in
    let go : (t : Ttree)
        → IsTtree t
        → height t ≡ height l
        → Deleted (suc (max (height l) (height r))) (
            here_or_right compare obj self t items b r (node_remove compare fuel t)
              (node_remove compare fuel r)) =
      λ t w same.
        let deletion =
          here_or_right compare obj self t items b r (node_remove compare fuel t)
            (node_remove compare fuel r) in
        subst (λ n. Deleted (suc (max n (height r))) deletion) same
          (here_or_right-Deleted self t b r (rw same v.0.0) w right (node_remove compare fuel t)
            (node_remove compare fuel r)
            (λ ne x. node_remove-Deleted compare fuel t x (rw same (omega (arith, h))) ne w)
            (λ ne x. node_remove-Deleted compare fuel r x (omega (arith, h)) ne right) compare obj
            items fine.0) in
    let by_left = λ (same : Bool).
      left_part-Deleted compare obj self items b r l same _ _ fine.0 v.0.0 right go
        (λ ne. node_remove-Deleted compare fuel l obj low ne left) in
    by_order (suc (max (height l) (height r))) (compare obj (get_or items 0 0)) _ _ _
      (go l left refl) (by_left false) (by_left true)

-- `dbTtree::remove` on a tree that is not empty: an assertion fails, or the tree stays balanced with
-- 1 to 125 items in every node, and its height falls by one or stays as the result says.
pub remove-Deleted :
    (compare : ℕ → ℕ → Ordering) (obj : ℕ) (root : Ttree)
    → is_nil root ≡ false
    → IsTtree root
    → Deleted (height root) (remove compare obj root)
unfolding remove
remove-Deleted compare obj root e v =
    only (node_remove compare (height root) root obj)
      (node_remove-Deleted compare (height root) root obj (omega arith) e v)
  where
    only : (d : Deletion) → Deleted (height root) d → Deleted (height root) (found_only d)
    only fault h = h
    only aborted h = tt
    only (returned t not_found) h = tt
    only (returned t kept) h = h
    only (returned t shrunk) h = h
