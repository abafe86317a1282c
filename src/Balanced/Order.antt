-- ===== src/Balanced/Order.antt =====
-- avltree.cxx, the turns and `balance_left_branch`, `balance_right_branch`: the nodes in order.
use post.Prelude.{ℕ, Bool, Option, none, some, some, List, ◌∷◌, ◌++◌, ◌≡◌, refl, append_assoc}
use post.Balanced.{
  Balance, left_high, even, right_high, Tree, nil, node, left_grown, right_grown,
  balance_left_branch, balance_right_branch, nodes,
}

module _ {ℓ} {A : Type ℓ} where
  -- the nodes of a result, where there is one
  abbrev pub Keeps : List (ℕ × A) → Option (Tree A × Bool) → Type ℓ
  Keeps l none = Unit
  Keeps l (some (t, c)) = nodes t ≡ l

  pub left_grown-Keeps :
      (self : ℕ) (l : Tree A) (a : A) (b : Balance) (r : Tree A)
      → Keeps (nodes l ++ (self, a) ∷ nodes r) (left_grown self l a b r)
  unfolding left_grown nodes
  left_grown-Keeps self l a right_high r = refl
  left_grown-Keeps self l a even r = refl
  left_grown-Keeps self nil a left_high r = tt
  left_grown-Keeps self (node ls ll la left_high lr) a left_high r = simp append_assoc
  left_grown-Keeps self (node ls ll la even nil) a left_high r = tt
  left_grown-Keeps self (node ls ll la right_high nil) a left_high r = tt
  left_grown-Keeps self (node ls ll la even (node ms ml ma mb mr)) a left_high r = simp append_assoc
  left_grown-Keeps self (node ls ll la right_high (node ms ml ma mb mr)) a left_high r =
      simp append_assoc

  pub right_grown-Keeps :
      (self : ℕ) (l : Tree A) (a : A) (b : Balance) (r : Tree A)
      → Keeps (nodes l ++ (self, a) ∷ nodes r) (right_grown self l a b r)
  unfolding right_grown nodes
  right_grown-Keeps self l a left_high r = refl
  right_grown-Keeps self l a even r = refl
  right_grown-Keeps self l a right_high nil = tt
  right_grown-Keeps self l a right_high (node rs rl ra right_high rr) = simp append_assoc
  right_grown-Keeps self l a right_high (node rs nil ra even rr) = tt
  right_grown-Keeps self l a right_high (node rs nil ra left_high rr) = tt
  right_grown-Keeps self l a right_high (node rs (node ms ml ma mb mr) ra even rr) =
      simp append_assoc
  right_grown-Keeps self l a right_high (node rs (node ms ml ma mb mr) ra left_high rr) =
      simp append_assoc

  pub balance_left_branch-Keeps :
      (self : ℕ) (l : Tree A) (a : A) (b : Balance) (r : Tree A)
      → Keeps (nodes l ++ (self, a) ∷ nodes r) (balance_left_branch self l a b r)
  unfolding balance_left_branch nodes
  balance_left_branch-Keeps self l a left_high r = refl
  balance_left_branch-Keeps self l a even r = refl
  balance_left_branch-Keeps self l a right_high nil = tt
  balance_left_branch-Keeps self l a right_high (node rs rl ra right_high rr) = simp append_assoc
  balance_left_branch-Keeps self l a right_high (node rs rl ra even rr) = simp append_assoc
  balance_left_branch-Keeps self l a right_high (node rs nil ra left_high rr) = tt
  balance_left_branch-Keeps self l a right_high (node rs (node ms ml ma mb mr) ra left_high rr) =
      simp append_assoc

  pub balance_right_branch-Keeps :
      (self : ℕ) (l : Tree A) (a : A) (b : Balance) (r : Tree A)
      → Keeps (nodes l ++ (self, a) ∷ nodes r) (balance_right_branch self l a b r)
  unfolding balance_right_branch nodes
  balance_right_branch-Keeps self l a right_high r = refl
  balance_right_branch-Keeps self l a even r = refl
  balance_right_branch-Keeps self nil a left_high r = tt
  balance_right_branch-Keeps self (node ls ll la left_high lr) a left_high r = simp append_assoc
  balance_right_branch-Keeps self (node ls ll la even lr) a left_high r = simp append_assoc
  balance_right_branch-Keeps self (node ls ll la right_high nil) a left_high r = tt
  balance_right_branch-Keeps self (node ls ll la right_high (node ms ml ma mb mr)) a left_high r =
      simp append_assoc
