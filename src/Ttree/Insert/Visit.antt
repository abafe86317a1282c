-- ===== src/Ttree/Insert/Visit.antt =====
-- ttree.cxx, `dbTtreeNode::insert`: a call on a node, and the whole recursion.
use post.Prelude.{
  ℕ, zero, suc, ◌*◌, ◌≤◌, ◌≡◌, ◌⊎◌, List, ◌∷◌, max, Ordering, inl, inr, arith, All, All-append,
  All-append_left, All-append_right,
}
use post.Balanced.{nil, node, nodes}
use post.Balanced.Height.{height}
use post.Ttree.{Ttree, minus}
use post.Ttree.Remove.Parts.{Fine, IsTtree}
use post.Ttree.Insert.{into_branch, node_insert, insert}
use post.Ttree.Insert.Items.{IsOrdered, Passes}
use post.Ttree.Insert.Grow.{InsertedInto, new_node-InsertedInto}
use post.Ttree.Insert.Step.{visit-Answer}

abbrev pub Ordered : (ℕ → ℕ → Ordering) → List (ℕ × List ℕ) → Type 0
Ordered compare es = All (λ (e : ℕ × List ℕ). IsOrdered compare e.1) es

module _ (compare : ℕ → ℕ → Ordering) (flips : (a b : ℕ) → compare b a ≡ minus (compare a b)) where
  -- The nodes are in order and the fuel is enough; a call for the same node needs one less.
  abbrev Ready : ℕ → ℕ → Ttree → Type 0
  Ready fuel obj nil = Unit
  Ready fuel obj (node self l items b r) =
      (Ordered compare (nodes l) × Ordered compare (nodes r))
      × (((2 * suc (max (height l) (height r)) ≤ fuel) × IsOrdered compare items)
          ⊎ ((2 * suc (max (height l) (height r)) ≤ suc fuel) × Passes compare obj items))

  ready :
      (fuel obj : ℕ) (t : Ttree)
      → Ordered compare (nodes t)
      → 2 * height t ≤ fuel
      → Ready fuel obj t
  unfolding nodes
  ready fuel obj nil h enough = tt
  ready fuel obj (node self l items b r) h enough =
      let rest = All-append_right _ (nodes l) ((self, items) ∷ nodes r) h in
      ((All-append_left _ (nodes l) ((self, items) ∷ nodes r) h, rest.1), inl (enough, rest.0))

  node_insert-InsertedInto :
      (fresh fuel : ℕ) (t : Ttree) (obj : ℕ)
      → IsTtree t
      → Ready fuel obj t
      → InsertedInto
          (height t)
          (nodes t)
          obj
          (into_branch fresh obj t (node_insert compare fresh fuel t obj))
  unfolding node_insert nodes
  node_insert-InsertedInto fresh fuel nil obj h k = new_node-InsertedInto fresh obj
  node_insert-InsertedInto fresh zero (node self l items b r) obj h (k, inl e) =
      absurd (omega (arith, e))
  node_insert-InsertedInto fresh zero (node self l items b r) obj h (k, inr e) =
      absurd (omega (arith, e))
  node_insert-InsertedInto fresh (suc fuel) (node self l items b r) obj h (k, which) =
      let rest = All-append_right Fine (nodes l) ((self, items) ∷ nodes r) h.1 in
      let v : IsTtree l = (h.0.1, All-append_left Fine (nodes l) ((self, items) ∷ nodes r) h.1) in
      let u : IsTtree r = (h.0.2, rest.1) in
      visit-Answer compare flips self l items b r obj rest.0 h.0.0 v u
        (node_insert compare fresh fuel) _ _
        (node_insert-InsertedInto fresh fuel l obj v (ready fuel obj l k.0 (left_enough which)))
        (node_insert-InsertedInto fresh fuel r obj u (ready fuel obj r k.1 (right_enough which)))
        (elim which [
          | inr e ↦ inl e.1
          | inl e ↦ inr (
            λ items' x good w passes.
                node_insert-InsertedInto fresh fuel (node self l items' b r) x
                  (h.0, All-append Fine (nodes l) ((self, items') ∷ nodes r) v.1 (good, u.1))
                  (k, inr (e.0, passes)),
            e.1,
          )
        ])
    where
      left_enough :
          ((2 * suc (max (height l) (height r)) ≤ suc fuel) × IsOrdered compare items)
            ⊎ ((2 * suc (max (height l) (height r)) ≤ suc (suc fuel)) × Passes compare obj items)
          → 2 * height l ≤ fuel
      left_enough (inl e) = omega (arith, e)
      left_enough (inr e) = omega (arith, e)

      right_enough :
          ((2 * suc (max (height l) (height r)) ≤ suc fuel) × IsOrdered compare items)
            ⊎ ((2 * suc (max (height l) (height r)) ≤ suc (suc fuel)) × Passes compare obj items)
          → 2 * height r ≤ fuel
      right_enough (inl e) = omega (arith, e)
      right_enough (inr e) = omega (arith, e)

  -- An insertion into a T-tree that is balanced, with 1 to 125 items in each node, the least of them
  -- first and the greatest last, ends without a read through NULL, if the comparison of two objects
  -- the other way round has the other sign. The tree is balanced again, and as high as before or
  -- higher by one as the result tells; its nodes have 1 to 125 items, and the objects are those of
  -- before and the new one, each as often (the sums agree for every weight of an object).
  pub insert-InsertedInto :
      (fresh : ℕ) (t : Ttree) (obj : ℕ)
      → IsTtree t
      → Ordered compare (nodes t)
      → InsertedInto (height t) (nodes t) obj (insert compare fresh t obj)
  unfolding insert nodes
  insert-InsertedInto fresh nil obj h order = new_node-InsertedInto fresh obj
  insert-InsertedInto fresh (node self l items b r) obj h order =
      node_insert-InsertedInto fresh (2 * height (node self l items b r)) (node self l items b r)
        obj h
        (ready (2 * height (node self l items b r)) obj (node self l items b r) order (omega arith))
