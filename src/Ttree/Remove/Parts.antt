-- ===== src/Ttree/Remove/Parts.antt =====
-- ttree.cxx, `dbTtreeNode::remove`: the nodes and their items, and a node after a removal from a branch.
use post.Prelude.{
  ℕ, suc, ◌+◌, ◌≤◌, ◌<◌, ◌≡◌, refl, Bool, true, false, not, ◌&&◌, Option, none, some, List, [], ◌∷◌,
  ◌++◌, ◌==◌, leb, max, Bool-cases, Ordering, lt, eq, gt, inl, inr, arith, length, All, All-append,
}
use post.Balanced.{Balance, nil, node, nodes}
use post.Balanced.Height.{
  Fits, height, IsBalanced, Removed, balance_left_branch-Removed, balance_right_branch-Removed,
}
use post.Balanced.Order.{Keeps, balance_left_branch-Keeps, balance_right_branch-Keeps}
use post.Ttree.{Ttree}
use post.Ttree.Remove.{
  page_items, min_items, Change, not_found, kept, shrunk, Deletion, fault, aborted, returned,
  rebalanced, balance_left, balance_right, left_removed, right_removed, split_item, is_nil,
}

-- a node has an item, and its items fit in its array
abbrev pub Fine : ℕ × List ℕ → Type 0
Fine e = (0 < length e.1) × (length e.1 ≤ page_items)

abbrev pub IsTtree : Ttree → Type 0
IsTtree t = IsBalanced t × All Fine (nodes t)

-- The height of a tree after a removal from one of height `h`.
abbrev pub Height : ℕ → Change → ℕ → Type 0
Height h shrunk k = k + 1 ≡ h
Height h kept k = k ≡ h
Height h not_found k = k ≡ h

-- the removal has not failed; it may have been stopped by an assertion
abbrev pub Deleted : ℕ → Deletion → Type 0
Deleted h fault = ⊥
Deleted h aborted = Unit
Deleted h (returned t c) = IsTtree t × Height h c (height t)

rebalanced-Deleted :
    (h : ℕ) (es : List (ℕ × List ℕ)) (o : Option (Ttree × Bool))
    → Removed h o
    → Keeps es o
    → All Fine es
    → Deleted h (rebalanced o)
rebalanced-Deleted h es none r k f = r
rebalanced-Deleted h es (some (t, true)) r k f = ((r.0, rw k f), r.1)
rebalanced-Deleted h es (some (t, false)) r k f = ((r.0, rw k f), r.1)

module _ (self : ℕ) (items : List ℕ) (b : Balance) (fine : Fine (self, items)) where
  pub joined :
      (l r : Ttree)
      → All Fine (nodes l)
      → All Fine (nodes r)
      → All Fine (nodes l ++ (self, items) ∷ nodes r)
  joined l r f g = All-append Fine (nodes l) ((self, items) ∷ nodes r) f (fine, g)

  pub left_removed-Deleted :
      (h : ℕ) (r : Ttree) (d : Deletion)
      → Fits b h (height r)
      → IsTtree r
      → Deleted h d
      → Deleted (suc (max h (height r))) (left_removed self items b r d)
  unfolding left_removed nodes balance_left
  left_removed-Deleted h r fault f v e = e
  left_removed-Deleted h r aborted f v e = tt
  left_removed-Deleted h r (returned l shrunk) f v e =
      rebalanced-Deleted _ _ _ (balance_left_branch-Removed self l items b r h f v.0 e.0.0 e.1)
        (balance_left_branch-Keeps self l items b r) (joined l r e.0.1 v.1)
  left_removed-Deleted h r (returned l kept) f v e =
      (((rw e.1 f, e.0.0, v.0), joined l r e.0.1 v.1), rw e.1 refl)
  left_removed-Deleted h r (returned l not_found) f v e =
      (((rw e.1 f, e.0.0, v.0), joined l r e.0.1 v.1), rw e.1 refl)

  pub right_removed-Deleted :
      (h : ℕ) (l : Ttree) (d : Deletion)
      → Fits b (height l) h
      → IsTtree l
      → Deleted h d
      → Deleted (suc (max (height l) h)) (right_removed self l items b d)
  unfolding right_removed nodes balance_right
  right_removed-Deleted h l fault f v e = e
  right_removed-Deleted h l aborted f v e = tt
  right_removed-Deleted h l (returned r shrunk) f v e =
      rebalanced-Deleted _ _ _ (balance_right_branch-Removed self l items b r h f v.0 e.0.0 e.1)
        (balance_right_branch-Keeps self l items b r) (joined l r v.1 e.0.1)
  right_removed-Deleted h l (returned r kept) f v e =
      (((rw e.1 f, v.0, e.0.0), joined l r v.1 e.0.1), rw e.1 refl)
  right_removed-Deleted h l (returned r not_found) f v e =
      (((rw e.1 f, v.0, e.0.0), joined l r v.1 e.0.1), rw e.1 refl)

-- the parts of a list with one item less
abbrev pub Splits : List ℕ → Option (List ℕ × List ℕ) → Type 0
Splits items none = Unit
Splits items (some (pre, post)) = suc (length (pre ++ post)) ≡ length items

abbrev behind : ℕ → Option (List ℕ × List ℕ) → Option (List ℕ × List ℕ)
behind x none = none
behind x (some (pre, post)) = some (x ∷ pre, post)

behind-Splits :
    (x : ℕ) (xs : List ℕ) (o : Option (List ℕ × List ℕ))
    → Splits xs o
    → Splits (x ∷ xs) (behind x o)
behind-Splits x xs none h = tt
behind-Splits x xs (some (pre, post)) h = omega (arith, h)

pub split_item-Splits : (obj : ℕ) (items : List ℕ) → Splits items (split_item obj items)
unfolding split_item
split_item-Splits obj [] = tt
split_item-Splits obj (x ∷ xs) = elim (Bool-cases (x == obj)) [
  | inl e ↦ rw e refl
  | inr e ↦ rw e (behind-Splits x xs (split_item obj xs) (split_item-Splits obj xs))
]

pub nil_height : (t : Ttree) → is_nil t ≡ true → height t ≡ 0
nil_height nil e = refl
nil_height (node self l items b r) e = absurd (cc)

pub both : (a c : Bool) → (a && c) ≡ true → (a ≡ true) × (c ≡ true)
both a c h = ground arith

pub negated : (a : Bool) → not a ≡ true → a ≡ false
negated a h = ground arith

pub left_over :
    (k : ℕ) (c : Bool)
    → (suc k == 1 && c) ≡ false
    → (leb (suc k) min_items && not c) ≡ false
    → 0 < k
left_over k c h e = ground arith

-- what holds of all three cases of a comparison
pub by_order :
    (h : ℕ) (o : Ordering) (more less same : Deletion)
    → Deleted h more
    → Deleted h less
    → Deleted h same
    → Deleted h (elim o [ gt ↦ more | lt ↦ less | eq ↦ same ])
by_order h gt more less same m l s = m
by_order h lt more less same m l s = l
by_order h eq more less same m l s = s
