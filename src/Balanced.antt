-- ===== src/Balanced.antt =====
-- Binary trees with balance factors: the rotations that avltree.cxx and ttree.cxx both spell out.
-- A pointer to a node is the tree below it, `nil` for NULL; a node carries its own address, so that
-- a rotation is seen to move nodes and not to copy them. The code stores only -1, 0 and 1 in
-- `balance` and tests its sign: `left_high` is -1 and `right_high` is 1. `none` is a read through
-- NULL.
pub mod Height
pub mod Order
use post.Prelude.{ℕ, Bool, true, false, Option, none, some, List, [], ◌∷◌, ◌++◌}

pub data Balance : Type 0 where
  left_high : Balance
  even : Balance
  right_high : Balance

pub data Tree {ℓ} (A : Type ℓ) : Type ℓ where
  nil : Tree A
  node : (self : ℕ) → Tree A → A → Balance → Tree A → Tree A

-- the new tree, and whether its height changed
abbrev pub Changed {ℓ} : Type ℓ → Type ℓ
Changed A = Option (Tree A × Bool)

-- the balances of the two children after a double turn, from that of the node that came up
abbrev pub left_after : Balance → Balance
left_after right_high = left_high
left_after even = even
left_after left_high = even

abbrev pub right_after : Balance → Balance
right_after left_high = right_high
right_after even = even
right_after right_high = even

module _ {ℓ} {A : Type ℓ} where
  -- The end of a double turn: `rp` between `lp` and `p` becomes the root.
  abbrev pub double_turn :
      ℕ → Tree A → A → ℕ → Tree A → A → Balance → Tree A → ℕ → A → Tree A → Tree A
  double_turn ls ll la ms ml ma mb mr rs ra rr =
      node ms (node ls ll la (left_after mb) ml) ma even (node rs mr ra (right_after mb) rr)

  -- The double turn at an insertion into the left branch, and a single one if the left child leans
  -- left.
  abbrev pub turn_right : ℕ → Tree A → A → Tree A → Changed A
  turn_right self nil a r = none
  turn_right self (node ls ll la left_high lr) a r =
      some (node ls ll la even (node self lr a even r), false)
  turn_right self (node ls ll la lb nil) a r = none
  turn_right self (node ls ll la lb (node ms ml ma mb mr)) a r =
      some (double_turn ls ll la ms ml ma mb mr self a r, false)

  abbrev pub turn_left : ℕ → Tree A → A → Tree A → Changed A
  turn_left self l a nil = none
  turn_left self l a (node rs rl ra right_high rr) =
      some (node rs (node self l a even rl) ra even rr, false)
  turn_left self l a (node rs nil ra rb rr) = none
  turn_left self l a (node rs (node ms ml ma mb mr) ra rb rr) =
      some (double_turn self l a ms ml ma mb mr rs ra rr, false)

  -- What `insert` does to a node whose left branch has become higher.
  unfoldable pub left_grown : ℕ → Tree A → A → Balance → Tree A → Changed A
  left_grown self l a right_high r = some (node self l a even r, false)
  left_grown self l a even r = some (node self l a left_high r, true)
  left_grown self l a left_high r = turn_right self l a r

  unfoldable pub right_grown : ℕ → Tree A → A → Balance → Tree A → Changed A
  right_grown self l a left_high r = some (node self l a even r, false)
  right_grown self l a even r = some (node self l a right_high r, true)
  right_grown self l a right_high r = turn_left self l a r

  -- The turns of the two functions below: a single one also if the child is even, and then the
  -- height stays.
  abbrev pub lean_left : ℕ → Tree A → A → Tree A → Changed A
  lean_left self l a nil = none
  lean_left self l a (node rs rl ra even rr) =
      some (node rs (node self l a right_high rl) ra left_high rr, false)
  lean_left self l a (node rs rl ra right_high rr) =
      some (node rs (node self l a even rl) ra even rr, true)
  lean_left self l a (node rs nil ra left_high rr) = none
  lean_left self l a (node rs (node ms ml ma mb mr) ra left_high rr) =
      some (double_turn self l a ms ml ma mb mr rs ra rr, true)

  abbrev pub lean_right : ℕ → Tree A → A → Tree A → Changed A
  lean_right self nil a r = none
  lean_right self (node ls ll la even lr) a r =
      some (node ls ll la right_high (node self lr a left_high r), false)
  lean_right self (node ls ll la left_high lr) a r =
      some (node ls ll la even (node self lr a even r), true)
  lean_right self (node ls ll la right_high nil) a r = none
  lean_right self (node ls ll la right_high (node ms ml ma mb mr)) a r =
      some (double_turn ls ll la ms ml ma mb mr self a r, true)

  -- `balance_left_branch`: the left branch has become lower; true for the code's 1.
  unfoldable pub balance_left_branch : ℕ → Tree A → A → Balance → Tree A → Changed A
  balance_left_branch self l a left_high r = some (node self l a even r, true)
  balance_left_branch self l a even r = some (node self l a right_high r, false)
  balance_left_branch self l a right_high r = lean_left self l a r

  unfoldable pub balance_right_branch : ℕ → Tree A → A → Balance → Tree A → Changed A
  balance_right_branch self l a right_high r = some (node self l a even r, true)
  balance_right_branch self l a even r = some (node self l a left_high r, false)
  balance_right_branch self l a left_high r = lean_right self l a r

  -- the nodes from left to right, with their addresses
  unfoldable pub nodes : Tree A → List (ℕ × A)
  nodes nil = []
  nodes (node self l a b r) = nodes l ++ (self, a) ∷ nodes r
