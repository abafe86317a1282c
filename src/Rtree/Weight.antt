-- ===== src/Rtree/Weight.antt =====
-- Sums over lists: two lists with the same sum for every weight have the same elements, each as
-- often. For the branches of an R-tree page.
use post.Prelude.{
  ℕ, zero, suc, ◌+◌, ◌<◌, ◌≡◌, some, List, [], ◌∷◌, length, set, take, All, refl, ap, subst, arith,
}
pub use post.Prelude.{total, total-append, total-one}
use mathlib.Core.Option.{some-injective}
use post.Rtree.Split.{at}

module _ {A : Type 0} where
  pub total-set :
      (f : A → ℕ) (k : ℕ) (xs : List A) (a b : A)
      → at k xs ≡ some a
      → total f (set xs k b) + f a ≡ total f xs + f b
  total-set f k [] a b h = absurd (cc)
  total-set f zero (x ∷ xs) a b h = ground arith
  total-set f (suc k) (x ∷ xs) a b h = omega (arith, total-set f k xs a b h)

  pub at_some : (k : ℕ) (xs : List A) → k < length xs → (x : A) × (at k xs ≡ some x)
  at_some k [] h = absurd (omega arith)
  at_some zero (x ∷ xs) h = (x, refl)
  at_some (suc k) (x ∷ xs) h = at_some k xs (omega arith)

  pub at-All : (P : A → Type 0) (k : ℕ) (xs : List A) (a : A) → at k xs ≡ some a → All P xs → P a
  at-All P k [] a h all = absurd (cc)
  at-All P zero (x ∷ xs) a h all = subst P (some-injective x a h) all.0
  at-All P (suc k) (x ∷ xs) a h all = at-All P k xs a h all.1

  pub set-All : (P : A → Type 0) (k : ℕ) (xs : List A) (b : A) → P b → All P xs → All P (set xs k b)
  set-All P k [] b p all = tt
  set-All P zero (x ∷ xs) b p all = (p, all.1)
  set-All P (suc k) (x ∷ xs) b p all = (all.0, set-All P k xs b p all.1)

  pub take_all : (n : ℕ) (xs : List A) → length xs ≡ n → take n xs ≡ xs
  take_all zero [] h = refl
  take_all zero (x ∷ xs) h = absurd (omega arith)
  take_all (suc n) [] h = refl
  take_all (suc n) (x ∷ xs) h = ap (λ l. x ∷ l) (take_all n xs (omega arith))
