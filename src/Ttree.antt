-- ===== src/Ttree.antt =====
-- ttree.h and ttree.cxx: the T-tree, a binary tree whose nodes hold sorted arrays of objects; its
-- search stands here, its insertion in Insert, its removal in Remove, its purge in Purge. A node's
-- items are the list of the first `nItems` elements of `item`; objects are addresses, and NULL is 0.
pub mod Skip
pub mod Find
pub mod Select
pub mod Remove
pub mod Insert
pub mod Purge
mod Tests
use post.Prelude.{
  ℕ, zero, suc, ◌+◌, ◌-◌, ◌/◌, Bool, true, false, Option, none, some, List, [], ◌∷◌, ◌++◌, ◌==◌,
  ltb, if◌then◌else◌, Ordering, lt, eq, gt, length, get_or, drop,
}
use post.Balanced
use post.Balanced.{nil, node}

abbrev pub Ttree : Type 0
Ttree = Balanced.Tree (List ℕ)

-- The fields of `dbSearchContext` that a search reads; the inclusions are 1 and 0 there.
pub record Query : Type 0 where
  pub first_key : Option ℕ
  pub last_key : Option ℕ
  pub first_key_inclusion : Bool
  pub last_key_inclusion : Bool
  pub selection_limit : ℕ

-- the fields that it writes; `buffer` is none for NULL
pub record Found : Type 0 where
  pub buffer : Option (List ℕ)
  pub n_matches : ℕ
  pub last_match : ℕ

-- `diff >= inclusion` for the sign of `diff`, and `-diff >= inclusion`
abbrev pub at_least : Ordering → Bool → Bool
at_least gt inclusion = true
at_least eq inclusion = if inclusion then false else true
at_least lt inclusion = false

abbrev pub minus : Ordering → Ordering
minus lt = gt
minus eq = eq
minus gt = lt

abbrev pub push : ℕ → Option (List ℕ) → Option (List ℕ)
push obj none = none
push obj (some b) = some (b ++ obj ∷ [])

-- an item that satisfies the predicate
unfoldable pub record_match : ℕ → Found → Found
record_match obj s = record {
  buffer = push obj s.buffer;
  n_matches = s.n_matches + 1;
  last_match = obj;
}

-- goes on unless the search is over
abbrev pub continue : Bool × Found → (Found → Bool × Found) → Bool × Found
continue (true, s) f = f s
continue (false, s) f = (false, s)

-- `compare` is the sign of the virtual `dbSearchContext::compare`.
module _ (compare : ℕ → ℕ → Ordering) (predicate : ℕ → Bool) (q : Query) where
  -- `sc.firstKey != NULL && sc.compare(sc.firstKey, obj) >= sc.firstKeyInclusion`
  unfoldable pub too_small : ℕ → Bool
  too_small obj = elim q.first_key [
    | none ↦ false
    | some key ↦ at_least (compare key obj) q.first_key_inclusion
  ]

  -- `sc.lastKey != NULL && -sc.compare(sc.lastKey, obj) >= sc.lastKeyInclusion`
  unfoldable pub too_large : ℕ → Bool
  too_large obj = elim q.last_key [
    | none ↦ false
    | some key ↦ at_least (minus (compare key obj)) q.last_key_inclusion
  ]

  -- The loop over the items of a node, from some index on.
  unfoldable pub scan : List ℕ → Found → Bool × Found
  unfolding record_match
  scan [] s = (true, s)
  scan (x ∷ xs) s = elim (too_large x) [
    | true ↦ (false, s)
    | false ↦ (elim (predicate x) [
      | false ↦ scan xs s
      | true ↦ (elim (suc s.n_matches == q.selection_limit) [
        | true ↦ (false, record_match x s)
        | false ↦ scan xs (record_match x s)
      ])
    ])
  ]

  -- The binary search for the first item that is not too small, between `l` and `r`; each round
  -- makes the range smaller, so its size is fuel enough.
  unfoldable pub lower : ℕ → List ℕ → ℕ → ℕ → ℕ
  lower zero items l r = r
  lower (suc fuel) items l r =
      if ltb l r
      then (let m = (l + r) / 2 in
          elim (too_small (get_or items m 0)) [
            | true ↦ lower fuel items (suc m) r
            | false ↦ lower fuel items l m
          ])
      else r

  -- `dbTtreeNode::find`; a branch that is NULL does not end the search
  unfoldable pub node_find : Ttree → Found → Bool × Found
  unfolding lower
  node_find nil s = (true, s)
  node_find (node self l items b r) s =
      let n = length items in
      elim (too_small (get_or items 0 0)) [
        | true ↦ (elim (too_small (get_or items (n - 1) 0)) [
          | true ↦ node_find r s
          | false ↦ continue (scan (drop (lower n items 0 n) items) s) (node_find r)
        ])
        | false ↦ continue (node_find l s) (λ s'. continue (scan items s') (node_find r))
      ]

  -- `dbTtree::find`; the context keeps its buffer, emptied
  unfoldable pub find : Ttree → Bool → Found
  unfolding node_find
  find t buffered =
      (node_find t
        (record { buffer = if buffered then some [] else none; n_matches = 0; last_match = 0 })).1

-- all objects, from left to right
abbrev pub objects : Ttree → List ℕ
objects nil = []
objects (node self l items b r) = objects l ++ (items ++ objects r)
