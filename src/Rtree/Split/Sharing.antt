-- ===== src/Rtree/Split/Sharing.antt =====
-- rtree.cxx, `split_page`: the branches that are left are shared out.
use post.Prelude.{
  ℕ, suc, ◌+◌, ◌<◌, ◌≤◌, ◌≡◌, List, [], ◌∷◌, length, All, refl, leb, Bool-cases, inl, inr, arith,
  leb→le, leb→lt,
}
use post.Rtree.Split.{Branch, Taken, untaken, moved, kept, settle, Shared, balance}
use post.Rtree.Split.Cells.{if_kept, if_loose, one}
use post.Rtree.Weight.{total}

module _ {A : Type 0} (P : Branch A → Type 0) where
  -- what the branches `cs`, shared out from the counts `c0` and `c1`, become
  abbrev pub IsShared : List (Taken × Branch A) → ℕ → ℕ → Shared A → Type 0
  IsShared cs c0 c1 s =
      ((f : Branch A → ℕ)
        → total f s.added + total (if_kept f) s.cells
          ≡ total (if_kept f) cs + total (if_loose f) cs)
      × ((s.card_0 ≡ c0 + length s.added)
          × ((s.card_1 + total (if_kept one) cs ≡ c1 + total (if_kept one) s.cells)
              × (All P s.added × All (λ c. P c.1) s.cells)))

  stays-IsShared :
      (b : Branch A) (cs : List (Taken × Branch A)) (c0 c1 : ℕ) (s : Shared A)
      → P b
      → IsShared cs c0 (suc c1) s
      → IsShared ((untaken, b) ∷ cs) c0 c1 (settle kept b [] s)
  stays-IsShared b cs c0 c1 s p h =
      (λ f. omega (arith, h.0 f), (h.1.0, (omega (arith, h.1.1.0), (h.1.1.1.0, (p, h.1.1.1.1)))))

  leaves-IsShared :
      (b : Branch A) (cs : List (Taken × Branch A)) (c0 c1 : ℕ) (s : Shared A)
      → P b
      → IsShared cs (suc c0) c1 s
      → IsShared ((untaken, b) ∷ cs) c0 c1 (settle moved b (b ∷ []) s)
  leaves-IsShared b cs c0 c1 s p h = (
    λ f. omega (arith, h.0 f),
    (omega (arith, h.1.0), (omega (arith, h.1.1.0), ((p, h.1.1.1.0), (p, h.1.1.1.1)))),
  )

  pub balance-IsShared :
      (cs : List (Taken × Branch A)) (c0 c1 : ℕ)
      → All (λ c. P c.1) cs
      → IsShared cs c0 c1 (balance cs c0 c1)
  unfolding balance
  balance-IsShared [] c0 c1 h = (λ f. refl, (omega arith, (omega arith, (tt, tt))))
  balance-IsShared ((untaken, b) ∷ cs) c0 c1 h = elim (Bool-cases (leb c1 c0)) [
    | inl e ↦ rw e (stays-IsShared b cs c0 c1 _ h.0 (balance-IsShared cs c0 (suc c1) h.1))
    | inr e ↦ rw e (leaves-IsShared b cs c0 c1 _ h.0 (balance-IsShared cs (suc c0) c1 h.1))
  ]
  balance-IsShared ((moved, b) ∷ cs) c0 c1 h =
      let k = balance-IsShared cs c0 c1 h.1 in
      (λ f. omega (arith, k.0 f), (k.1.0, (omega (arith, k.1.1.0), (k.1.1.1.0, (h.0, k.1.1.1.1)))))
  balance-IsShared ((kept, b) ∷ cs) c0 c1 h =
      let k = balance-IsShared cs c0 c1 h.1 in
      (λ f. omega (arith, k.0 f), (k.1.0, (omega (arith, k.1.1.0), (k.1.1.1.0, (h.0, k.1.1.1.1)))))

-- the counts stay below a bound `m` if they are and all branches give less than twice that
pub balance-bounds :
    {A : Type 0} (m : ℕ) (cs : List (Taken × Branch A)) (c0 c1 : ℕ)
    → c0 ≤ m
    → c1 ≤ m
    → c0 + (c1 + total (if_loose one) cs) < m + m
    → let s = balance cs c0 c1 in
      (s.card_0 ≤ m)
      × ((s.card_1 ≤ m) × (s.card_0 + s.card_1 ≡ c0 + (c1 + total (if_loose one) cs)))
unfolding balance
balance-bounds m [] c0 c1 h k sum = (h, (k, omega arith))
balance-bounds m ((untaken, b) ∷ cs) c0 c1 h k sum = elim (Bool-cases (leb c1 c0)) [
  | inl e ↦ rw e (
      let (x, (y, z)) =
        balance-bounds m cs c0 (suc c1) h (omega (arith, leb→le _ _ e)) (omega arith) in
      (x, (y, omega arith)))
  | inr e ↦ rw e (
      let (x, (y, z)) =
        balance-bounds m cs (suc c0) c1 (omega (arith, leb→lt _ _ e)) k (omega arith) in
      (x, (y, omega arith)))
]
balance-bounds m ((moved, b) ∷ cs) c0 c1 h k sum =
    let (x, (y, z)) = balance-bounds m cs c0 c1 h k (omega arith) in (x, (y, omega arith))
balance-bounds m ((kept, b) ∷ cs) c0 c1 h k sum =
    let (x, (y, z)) = balance-bounds m cs c0 c1 h k (omega arith) in (x, (y, omega arith))
