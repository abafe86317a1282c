-- ===== src/Ttree/Insert.antt =====
-- ttree.cxx: the insertion of an object into the T-tree. `fresh` is the address of the node that is
-- allocated, if one is; an insertion allocates at most one.
pub mod Items
pub mod Grow
pub mod Step
pub mod Visit
use post.Prelude.{
  ℕ, zero, suc, ◌+◌, ◌-◌, ◌*◌, ◌/◌, Bool, true, false, Option, none, some, List, [], ◌∷◌, ◌++◌,
  ◌==◌, ltb, ◌&&◌, not, if◌then◌else◌, Ordering, lt, eq, gt, length, get_or, take, drop,
}
use post.Balanced
use post.Balanced.{Balance, left_high, right_high, even, nil, node}
use post.Balanced.Height.{height}
use post.Ttree.{Ttree}
use post.Ttree.Remove.{page_items, is_nil}

-- A read through NULL, a recursion that has not ended, or the tree at `p` afterwards with the result.
pub data Insertion : Type 0 where
  fault : Insertion
  endless : Insertion
  inserted : Ttree → Bool → Insertion

-- the constructor of a node
abbrev pub new_node : ℕ → ℕ → Ttree
new_node fresh obj = node fresh nil (obj ∷ []) even nil

-- What follows once a branch has grown: the balances and the turns, spelled out as in the AVL tree.
unfoldable pub left_higher : ℕ → Ttree → List ℕ → Balance → Ttree → Option (Ttree × Bool)
left_higher self l items b r = Balanced.left_grown self l items b r

unfoldable pub right_higher : ℕ → Ttree → List ℕ → Balance → Ttree → Option (Ttree × Bool)
right_higher self l items b r = Balanced.right_grown self l items b r

abbrev pub turned : Option (Ttree × Bool) → Insertion
turned none = fault
turned (some (t, grown)) = inserted t grown

-- `left->insert(left, ...)` has been called
unfoldable pub left_inserted : ℕ → List ℕ → Balance → Ttree → Insertion → Insertion
unfolding left_higher
left_inserted self items b r fault = fault
left_inserted self items b r endless = endless
left_inserted self items b r (inserted l false) = inserted (node self l items b r) false
left_inserted self items b r (inserted l true) = turned (left_higher self l items b r)

unfoldable pub right_inserted : ℕ → Ttree → List ℕ → Balance → Insertion → Insertion
unfolding right_higher
right_inserted self l items b fault = fault
right_inserted self l items b endless = endless
right_inserted self l items b (inserted r false) = inserted (node self l items b r) false
right_inserted self l items b (inserted r true) = turned (right_higher self l items b r)

-- a branch that is NULL is made a new node
abbrev pub into_branch : ℕ → ℕ → Ttree → Insertion → Insertion
into_branch fresh obj nil call = inserted (new_node fresh obj) true
into_branch fresh obj (node self l items b r) call = call

-- an insertion at an index, and those into a full node with the item that goes: the first or the last
abbrev pub insert_at : ℕ → ℕ → List ℕ → List ℕ
insert_at k obj items = take k items ++ obj ∷ drop k items

abbrev pub push_first : ℕ → ℕ → List ℕ → List ℕ
push_first k obj items = drop 1 (take k items) ++ obj ∷ drop k items

abbrev pub push_last : ℕ → ℕ → List ℕ → List ℕ
push_last k obj items = take k items ++ obj ∷ take (length items - 1 - k) (drop k items)

abbrev pub not_left_high : Balance → Bool
not_left_high left_high = false
not_left_high even = true
not_left_high right_high = true

module _ (compare : ℕ → ℕ → Ordering) where
  -- The binary search of `insert` between `l` and `r`; each round makes the range smaller, so its
  -- size is fuel enough.
  unfoldable pub place : ℕ → ℕ → List ℕ → ℕ → ℕ → ℕ
  place zero obj items l r = r
  place (suc fuel) obj items l r =
      if ltb l r
      then (let m = (l + r) / 2 in
          elim (compare obj (get_or items m 0)) [
            | gt ↦ place fuel obj items (suc m) r
            | eq ↦ m
            | lt ↦ place fuel obj items l m
          ])
      else r

  -- An object between the first and the last item; `again` is the call for the same node.
  unfoldable pub into_middle :
      ℕ → Ttree → List ℕ → Balance → Ttree → ℕ → (Ttree → ℕ → Insertion) → Insertion
  unfolding place
  into_middle self l items b r obj again =
      let n = length items in
      let k = place n obj items 1 (n - 1) in
      if not (n == page_items)
      then inserted (node self l (insert_at k obj items) b r) false
      else if not_left_high b
      then again (node self l (push_first k obj items) b r) (get_or items 0 0)
      else again (node self l (push_last k obj items) b r) (get_or items (n - 1) 0)

  -- from the second comparison on
  unfoldable pub from_last :
      ℕ → Ttree → List ℕ → Balance → Ttree → ℕ → Insertion → (Ttree → ℕ → Insertion) → Insertion
  unfolding right_inserted into_middle
  from_last self l items b r obj call again =
      let room = not (length items == page_items) in
      let append = inserted (node self l (items ++ obj ∷ []) b r) false in
      let down = right_inserted self l items b call in
      elim (compare obj (get_or items (length items - 1) 0)) [
        | gt ↦ if is_nil r && room then append else down
        | eq ↦ if room then append else down
        | lt ↦ into_middle self l items b r obj again
      ]

  -- one call on a node; the calls on the branches and on the same node are given
  unfoldable pub visit :
      ℕ
      → Ttree
      → List ℕ
      → Balance
      → Ttree
      → ℕ
      → Insertion
      → Insertion
      → (Ttree → ℕ → Insertion)
      → Insertion
  unfolding left_inserted from_last
  visit self l items b r obj call_left call_right again =
      let room = not (length items == page_items) in
      let prepend = inserted (node self l (obj ∷ items) b r) false in
      let down = left_inserted self items b r call_left in
      elim (compare obj (get_or items 0 0)) [
        | lt ↦ if is_nil l && room then prepend else down
        | eq ↦ if room then prepend else down
        | gt ↦ from_last self l items b r obj call_right again
      ]

  -- `dbTtreeNode::insert`
  unfoldable pub node_insert : ℕ → ℕ → Ttree → ℕ → Insertion
  unfolding visit
  node_insert fresh zero t obj = endless
  node_insert fresh (suc fuel) nil obj = fault
  node_insert fresh (suc fuel) (node self l items b r) obj =
      visit self l items b r obj (into_branch fresh obj l (node_insert fresh fuel l obj))
        (into_branch fresh obj r (node_insert fresh fuel r obj)) (node_insert fresh fuel)

  -- `dbTtree::insert`; a call goes to a branch at the latest when it is repeated for the same node
  unfoldable pub insert : ℕ → Ttree → ℕ → Insertion
  unfolding node_insert
  insert fresh nil obj = inserted (new_node fresh obj) true
  insert fresh (node self l items b r) obj =
      node_insert fresh (2 * height (node self l items b r)) (node self l items b r) obj
