-- ===== src/Ttree/Remove.antt =====
-- ttree.cxx: the removal of an object from the T-tree. What is deleted is not returned here.
pub mod Parts
pub mod Shape
use post.Prelude.{
  ℕ, zero, suc, ◌+◌, ◌-◌, Bool, true, false, ◌&&◌, Option, none, some, List, [], ◌∷◌, ◌++◌, ◌==◌,
  leb, not, if◌then◌else◌, Ordering, lt, eq, gt, length, get_or,
}
use post.Balanced
use post.Balanced.{Balance, left_high, right_high, even, nil, node}
use post.Balanced.Height.{height}
use post.Ttree.{Ttree}

abbrev pub page_items : ℕ
page_items = 125

abbrev pub min_items : ℕ
min_items = page_items - 2

-- the results -1, 0 and 1
pub data Change : Type 0 where
  not_found : Change
  kept : Change
  shrunk : Change

-- A read through NULL, a failed assertion, or the tree at `p` afterwards with the result.
pub data Deletion : Type 0 where
  fault : Deletion
  aborted : Deletion
  returned : Ttree → Change → Deletion

-- `balanceLeftBranch` and `balanceRightBranch` spell the code of the AVL tree out again.
unfoldable pub balance_left : ℕ → Ttree → List ℕ → Balance → Ttree → Option (Ttree × Bool)
balance_left self l items b r = Balanced.balance_left_branch self l items b r

unfoldable pub balance_right : ℕ → Ttree → List ℕ → Balance → Ttree → Option (Ttree × Bool)
balance_right self l items b r = Balanced.balance_right_branch self l items b r

abbrev pub rebalanced : Option (Ttree × Bool) → Deletion
rebalanced none = fault
rebalanced (some (t, true)) = returned t shrunk
rebalanced (some (t, false)) = returned t kept

-- `h = left->remove(left, ...)`, and what is done with `h`
unfoldable pub left_removed : ℕ → List ℕ → Balance → Ttree → Deletion → Deletion
unfolding balance_left
left_removed self items b r fault = fault
left_removed self items b r aborted = aborted
left_removed self items b r (returned l shrunk) = rebalanced (balance_left self l items b r)
left_removed self items b r (returned l kept) = returned (node self l items b r) kept
left_removed self items b r (returned l not_found) = returned (node self l items b r) not_found

unfoldable pub right_removed : ℕ → Ttree → List ℕ → Balance → Deletion → Deletion
unfolding balance_right
right_removed self l items b fault = fault
right_removed self l items b aborted = aborted
right_removed self l items b (returned r shrunk) = rebalanced (balance_right self l items b r)
right_removed self l items b (returned r kept) = returned (node self l items b r) kept
right_removed self l items b (returned r not_found) = returned (node self l items b r) not_found

-- the last item of the rightmost node, and the first of the leftmost
unfoldable pub last_item : Ttree → ℕ
last_item nil = 0
last_item (node self l items b r) =
    let further = last_item r in
    elim r [ nil ↦ get_or items (length items - 1) 0 | node rs rl ri rb rr ↦ further ]

unfoldable pub first_item : Ttree → ℕ
first_item nil = 0
first_item (node self l items b r) =
    let further = first_item l in elim l [ nil ↦ get_or items 0 0 | node ls ll li lb lr ↦ further ]

-- the items before and behind `obj`
unfoldable pub split_item : ℕ → List ℕ → Option (List ℕ × List ℕ)
split_item obj [] = none
split_item obj (x ∷ xs) =
    let further = split_item obj xs in
    if x == obj
    then some ([], xs)
    else (elim further [ none ↦ none | some (pre, post) ↦ some (x ∷ pre, post) ])

abbrev pub is_nil : Ttree → Bool
is_nil nil = true
is_nil (node self l items b r) = false

abbrev pub not_right_high : Balance → Bool
not_right_high left_high = true
not_right_high even = true
not_right_high right_high = false

-- The item between `pre` and `post` goes; the functions remove from the branches.
unfoldable pub take_out :
    ℕ → Ttree → Balance → Ttree → (ℕ → Deletion) → (ℕ → Deletion) → List ℕ → List ℕ → Deletion
unfolding left_removed right_removed last_item first_item
take_out self l b r remove_left remove_right pre post =
    let n = suc (length (pre ++ post)) in
    if n == 1 && is_nil r
    then returned l shrunk
    else if n == 1 && is_nil l
    then returned r shrunk
    else if leb n min_items && (not (is_nil l) && not_right_high b)
    then (let item = last_item l in left_removed self (item ∷ (pre ++ post)) b r (remove_left item))
    else if leb n min_items && not (is_nil r)
    then (let item = first_item r in
        right_removed self l ((pre ++ post) ++ item ∷ []) b (remove_right item))
    else returned (node self l (pre ++ post) b r) kept

-- a branch that is not NULL, or the result -1
abbrev pub to_right : ℕ → Ttree → List ℕ → Balance → Ttree → Deletion → Deletion
to_right self l items b nil d = returned (node self l items b nil) not_found
to_right self l items b (node rs rl ri rb rr) d = right_removed self l items b d

module _ (compare : ℕ → ℕ → Ordering) (obj : ℕ) where
  -- From the second comparison on; the functions remove from the branches as they are then.
  unfoldable pub here_or_right :
      ℕ → Ttree → List ℕ → Balance → Ttree → (ℕ → Deletion) → (ℕ → Deletion) → Deletion
  unfolding take_out split_item right_removed
  here_or_right self l items b r remove_left remove_right =
      let right = to_right self l items b r (remove_right obj) in
      let here : Deletion = elim (split_item obj items) [
        | none ↦ right
        | some (pre, post) ↦ take_out self l b r remove_left remove_right pre post
      ] in
      elim (compare obj (get_or items (length items - 1) 0)) [ gt ↦ right | lt ↦ here | eq ↦ here ]

  -- What follows the removal from the left branch: if that answers -1, the assertion `diff == 0`
  -- and then `go_on` with the branch.
  unfoldable pub left_first :
      Bool → ℕ → List ℕ → Balance → Ttree → (Ttree → Deletion) → Deletion → Deletion
  unfolding left_removed
  left_first same self items b r go_on fault = fault
  left_first same self items b r go_on aborted = aborted
  left_first same self items b r go_on (returned l shrunk) =
      left_removed self items b r (returned l shrunk)
  left_first same self items b r go_on (returned l kept) =
      left_removed self items b r (returned l kept)
  left_first same self items b r go_on (returned l not_found) = if same then go_on l else aborted

-- `dbTtreeNode::remove`. A call goes to a branch, so the height of the tree is fuel enough.
unfoldable pub node_remove : (ℕ → ℕ → Ordering) → ℕ → Ttree → ℕ → Deletion
unfolding here_or_right left_first
node_remove compare zero t obj = fault
node_remove compare (suc fuel) nil obj = fault
node_remove compare (suc fuel) (node self l items b r) obj =
    let go_on = λ (left : Ttree).
      here_or_right compare obj self left items b r (node_remove compare fuel left)
        (node_remove compare fuel r) in
    let from_left = node_remove compare fuel l obj in
    let left : Bool → Deletion = λ same. elim l [
      | nil ↦ if same then go_on nil else aborted
      | node ls ll li lb lr ↦ left_first compare obj same self items b r go_on from_left
    ] in
    elim (compare obj (get_or items 0 0)) [ gt ↦ go_on l | lt ↦ left false | eq ↦ left true ]

-- `assert(h >= 0)`
abbrev pub found_only : Deletion → Deletion
found_only fault = fault
found_only aborted = aborted
found_only (returned t not_found) = aborted
found_only (returned t kept) = returned t kept
found_only (returned t shrunk) = returned t shrunk

-- `dbTtree::remove`: it reads through `root` without a test for NULL.
unfoldable pub remove : (ℕ → ℕ → Ordering) → ℕ → Ttree → Deletion
unfolding node_remove
remove compare obj root = found_only (node_remove compare (height root) root obj)
