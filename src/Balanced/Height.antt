-- ===== src/Balanced/Height.antt =====
-- avltree.cxx, the turns and `balance_left_branch`, `balance_right_branch`: heights.
use post.Prelude.{
  ℕ, suc, ◌+◌, max, ◌⊎◌, inr, ◌≢◌, Bool, true, false, Option, none, some, ◌≡◌, arith,
}
use post.Balanced.{
  Balance, left_high, even, right_high, Tree, nil, node, double_turn, left_grown, right_grown,
  balance_left_branch, balance_right_branch,
}

-- the balance factor tells the difference of the heights
abbrev pub Fits : Balance → ℕ → ℕ → Type 0
Fits left_high l r = l ≡ r + 1
Fits even l r = l ≡ r
Fits right_high l r = r ≡ l + 1

module _ {ℓ} {A : Type ℓ} where
  abbrev pub height : Tree A → ℕ
  height nil = 0
  height (node self l a b r) = suc (max (height l) (height r))

  abbrev pub IsBalanced : Tree A → Type 0
  IsBalanced nil = Unit
  IsBalanced (node self l a b r) = Fits b (height l) (height r) × IsBalanced l × IsBalanced r

  abbrev pub root_balance : Tree A → Balance
  root_balance nil = even
  root_balance (node self l a b r) = b

  -- A tree that has grown from height `h` leans to a side, unless it is a new node.
  abbrev pub Grown : ℕ → Tree A → Type 0
  Grown h t = IsBalanced t × (height t ≡ h + 1) × ((h ≡ 0) ⊎ (root_balance t ≢ even))

  -- the result of an insertion into a tree of height `h`
  abbrev pub Inserted : ℕ → Option (Tree A × Bool) → Type 0
  Inserted h none = ⊥
  Inserted h (some (t, true)) = Grown h t
  Inserted h (some (t, false)) = IsBalanced t × (height t ≡ h)

  -- the result of a removal from a tree of height `h`
  abbrev pub Removed : ℕ → Option (Tree A × Bool) → Type 0
  Removed h none = ⊥
  Removed h (some (t, true)) = IsBalanced t × (height t + 1 ≡ h)
  Removed h (some (t, false)) = IsBalanced t × (height t ≡ h)

  -- A double turn: the outer branches have the height of the node that comes up, less one.
  double :
      (ls : ℕ) (ll : Tree A) (la : A) (ms : ℕ) (ml : Tree A) (ma : A) (mb : Balance) (mr : Tree A)
      (rs : ℕ) (ra : A) (rr : Tree A) (n : ℕ)
      → n ≡ height ll + 2
      → height ll ≡ max (height ml) (height mr)
      → height rr ≡ max (height ml) (height mr)
      → Fits mb (height ml) (height mr)
      → IsBalanced ll
      → IsBalanced ml
      → IsBalanced mr
      → IsBalanced rr
      → IsBalanced (double_turn ls ll la ms ml ma mb mr rs ra rr)
        × (height (double_turn ls ll la ms ml ma mb mr rs ra rr) ≡ n)
  double ls ll la ms ml ma left_high mr rs ra rr n k e f g p q r s =
      ((omega arith, (omega arith, p, q), (omega arith, r, s)), omega arith)
  double ls ll la ms ml ma even mr rs ra rr n k e f g p q r s =
      ((omega arith, (omega arith, p, q), (omega arith, r, s)), omega arith)
  double ls ll la ms ml ma right_high mr rs ra rr n k e f g p q r s =
      ((omega arith, (omega arith, p, q), (omega arith, r, s)), omega arith)

  -- A node whose left branch has grown from height `h`.
  pub left_grown-Inserted :
      (self : ℕ) (l : Tree A) (a : A) (b : Balance) (r : Tree A) (h : ℕ)
      → Fits b h (height r)
      → IsBalanced r
      → Grown h l
      → Inserted (suc (max h (height r))) (left_grown self l a b r)
  unfolding left_grown
  left_grown-Inserted self l a right_high r h f v g = ((omega arith, g.0, v), omega arith)
  left_grown-Inserted self l a even r h f v g =
      ((omega arith, g.0, v), omega arith, inr (ground arith))
  left_grown-Inserted self nil a left_high r h f v g = absurd (omega (arith, g.1))
  left_grown-Inserted self (node ls ll la even lr) a left_high r h f v g =
      absurd (ground (arith, g.2))
  left_grown-Inserted self (node ls ll la left_high lr) a left_high r h f v g =
      ((omega arith, g.0.1, (omega arith, g.0.2, v)), omega arith)
  left_grown-Inserted self (node ls ll la right_high nil) a left_high r h f v g =
      absurd (omega arith)
  left_grown-Inserted self (node ls ll la right_high (node ms ml ma mb mr)) a left_high r h f v g =
      double ls ll la ms ml ma mb mr self a r _ (omega arith) (omega arith) (omega arith) g.0.2.0
        g.0.1 g.0.2.1 g.0.2.2 v

  -- A node whose right branch has grown from height `h`.
  pub right_grown-Inserted :
      (self : ℕ) (l : Tree A) (a : A) (b : Balance) (r : Tree A) (h : ℕ)
      → Fits b (height l) h
      → IsBalanced l
      → Grown h r
      → Inserted (suc (max (height l) h)) (right_grown self l a b r)
  unfolding right_grown
  right_grown-Inserted self l a left_high r h f v g = ((omega arith, v, g.0), omega arith)
  right_grown-Inserted self l a even r h f v g =
      ((omega arith, v, g.0), omega arith, inr (ground arith))
  right_grown-Inserted self l a right_high nil h f v g = absurd (omega (arith, g.1))
  right_grown-Inserted self l a right_high (node rs rl ra even rr) h f v g =
      absurd (ground (arith, g.2))
  right_grown-Inserted self l a right_high (node rs rl ra right_high rr) h f v g =
      ((omega arith, (omega arith, v, g.0.1), g.0.2), omega arith)
  right_grown-Inserted self l a right_high (node rs nil ra left_high rr) h f v g =
      absurd (omega arith)
  right_grown-Inserted self l a right_high (node rs (node ms ml ma mb mr) ra left_high rr) h f v g =
      double self l a ms ml ma mb mr rs ra rr _ (omega arith) (omega arith) (omega arith) g.0.1.0 v
        g.0.1.1 g.0.1.2 g.0.2

  -- A node whose left branch has shrunk from height `h`.
  pub balance_left_branch-Removed :
      (self : ℕ) (l : Tree A) (a : A) (b : Balance) (r : Tree A) (h : ℕ)
      → Fits b h (height r)
      → IsBalanced r
      → IsBalanced l
      → height l + 1 ≡ h
      → Removed (suc (max h (height r))) (balance_left_branch self l a b r)
  unfolding balance_left_branch
  balance_left_branch-Removed self l a left_high r h f v w e = ((omega arith, w, v), omega arith)
  balance_left_branch-Removed self l a even r h f v w e = ((omega arith, w, v), omega arith)
  balance_left_branch-Removed self l a right_high nil h f v w e = absurd (omega arith)
  balance_left_branch-Removed self l a right_high (node rs rl ra even rr) h f v w e =
      ((omega arith, (omega arith, w, v.1), v.2), omega arith)
  balance_left_branch-Removed self l a right_high (node rs rl ra right_high rr) h f v w e =
      ((omega arith, (omega arith, w, v.1), v.2), omega arith)
  balance_left_branch-Removed self l a right_high (node rs nil ra left_high rr) h f v w e =
      absurd (omega arith)
  balance_left_branch-Removed self l a right_high (node rs (node ms ml ma mb mr) ra left_high rr) h
        f v w e =
      let (u, n) =
        double self l a ms ml ma mb mr rs ra rr (h + 1) (omega arith) (omega arith) (omega arith)
          v.1.0 w v.1.1 v.1.2 v.2 in
      (u, omega arith)

  -- A node whose right branch has shrunk from height `h`.
  pub balance_right_branch-Removed :
      (self : ℕ) (l : Tree A) (a : A) (b : Balance) (r : Tree A) (h : ℕ)
      → Fits b (height l) h
      → IsBalanced l
      → IsBalanced r
      → height r + 1 ≡ h
      → Removed (suc (max (height l) h)) (balance_right_branch self l a b r)
  unfolding balance_right_branch
  balance_right_branch-Removed self l a right_high r h f v w e = ((omega arith, v, w), omega arith)
  balance_right_branch-Removed self l a even r h f v w e = ((omega arith, v, w), omega arith)
  balance_right_branch-Removed self nil a left_high r h f v w e = absurd (omega arith)
  balance_right_branch-Removed self (node ls ll la even lr) a left_high r h f v w e =
      ((omega arith, v.1, (omega arith, v.2, w)), omega arith)
  balance_right_branch-Removed self (node ls ll la left_high lr) a left_high r h f v w e =
      ((omega arith, v.1, (omega arith, v.2, w)), omega arith)
  balance_right_branch-Removed self (node ls ll la right_high nil) a left_high r h f v w e =
      absurd (omega arith)
  balance_right_branch-Removed self (node ls ll la right_high (node ms ml ma mb mr)) a left_high r h
        f v w e =
      let (u, n) =
        double ls ll la ms ml ma mb mr self a r (h + 1) (omega arith) (omega arith) (omega arith)
          v.2.0 v.1 v.2.1 v.2.2 w in
      (u, omega arith)
