-- ===== src/Rtree/Split/Seeds.antt =====
-- rtree.cxx, `split_page`: the indices of the seeds, and the groups that they start.
use post.Prelude.{
  ℕ, suc, ◌+◌, ◌-◌, ◌<◌, ◌≤◌, ◌≡◌, Option, none, some, List, [], ◌∷◌, length, set, All, refl, ◌==◌,
  Bool-cases, inl, inr, arith, length-set,
}
use post.Rtree.{Rectangle}
use post.Rtree.Area.{less_int, int_min}
use post.Rtree.Split.{
  Branch, Worst, wasted, worse, seed_row, seed_rows, seeds, seeded, start, at, Result, done, failed,
  Groups,
}
use post.Rtree.Split.Cells.{one, mark_kept-kept, mark_kept-loose, mark_kept-All}
use post.Rtree.Split.Halves.{IsGroups}
use post.Rtree.Weight.{total, total-set, at_some, at-All, set-All}

-- two seeds among the first `n` branches, in their order
abbrev pub InOrder : ℕ → Option (ℕ × ℕ) → Type 0
InOrder n none = Unit
InOrder n (some (s, t)) = (s < t) × (t < n)

worse-InOrder :
    (n i j waste : ℕ) (w : Worst)
    → i < j
    → j < n
    → InOrder n w.seed
    → InOrder n (worse i j waste w).seed
unfolding worse
worse-InOrder n i j waste w less below h = elim (Bool-cases (less_int w.waste waste)) [
  | inl e ↦ rw e (less, below)
  | inr e ↦ rw e h
]

seed_row-InOrder :
    {A : Type 0} (n : ℕ) (r : Rectangle) (i j : ℕ) (bs : List (Branch A)) (w : Worst)
    → i < j
    → j + length bs ≤ n
    → InOrder n w.seed
    → InOrder n (seed_row r i j bs w).seed
unfolding seed_row
seed_row-InOrder n r i j [] w less below h = h
seed_row-InOrder n r i j (b ∷ bs) w less below h =
    seed_row-InOrder n r i (suc j) bs _ (omega arith) (omega arith)
      (worse-InOrder n i j (wasted r b.0) w less (omega arith) h)

seed_rows-InOrder :
    {A : Type 0} (n i : ℕ) (bs : List (Branch A)) (w : Worst)
    → i + length bs ≤ n
    → InOrder n w.seed
    → InOrder n (seed_rows i bs w).seed
unfolding seed_rows
seed_rows-InOrder n i [] w below h = h
seed_rows-InOrder n i (b ∷ bs) w below h =
    seed_rows-InOrder n (suc i) bs _ (omega arith)
      (seed_row-InOrder n b.0 i (suc i) bs w (omega arith) (omega arith) h)

pub seeds-InOrder :
    {A : Type 0} (br : Branch A) (bs : List (Branch A)) → InOrder (suc (length bs)) (seeds br bs)
unfolding seeds
seeds-InOrder br bs =
    seed_rows-InOrder (suc (length bs)) 0 (br ∷ bs) (record { waste = int_min; seed = none })
      (omega arith) tt

module _ {A : Type 0} (P : Branch A → Type 0) (br : Branch A) (bs : List (Branch A)) where
  -- the groups that two seeds start
  abbrev pub IsStart : Result (Groups A) → Type 0
  IsStart (failed f) = ⊥
  IsStart (done g) = IsGroups P br bs g × (2 ≤ g.card_0 + g.card_1)

  -- `after` is the page once the new branch stands where the first seed was
  seeded-IsGroups :
      (t : ℕ) (a c b : Branch A) (after : List (Branch A))
      → ((f : Branch A → ℕ) → f a + total f after ≡ f br + total f bs)
      → at (t - 1) after ≡ some b
      → P a
      → All P after
      → IsGroups P br bs (seeded t a c after)
  seeded-IsGroups t a c b after w e p all = record {
    weights = λ f.
        omega (arith, w f, mark_kept-kept f (t - 1) after b e, mark_kept-loose f (t - 1) after b e);
    new_length = omega arith;
    kept_length = mark_kept-kept one (t - 1) after b e;
    first_bound = omega arith;
    second_bound = omega arith;
    new_All = (p, tt);
    cells_All = mark_kept-All P (t - 1) after all;
  }

  pub start-IsStart :
      (s t : ℕ) → s < t → t < suc (length bs) → P br → All P bs → IsStart (start s t br bs)
  unfolding start
  start-IsStart s t less below p all =
      let (c, e) = at_some (t - 1) bs (omega arith) in
      elim (Bool-cases (s == 0)) [
        | inl z ↦ rw (start, e, z) (seeded-IsGroups t br c c bs (λ f. refl) e p all, omega arith)
        | inr z ↦
            let (a, k) = at_some (s - 1) bs (omega arith) in
            let (b, l) =
              at_some (t - 1) (set bs (s - 1) br) (omega (arith, length-set bs (s - 1) br)) in
            rw (start, e, z, k)
              (
                seeded-IsGroups t a c b (set bs (s - 1) br)
                    (λ f. omega (arith, total-set f (s - 1) bs a br k)) l
                    (at-All P (s - 1) bs a k all) (set-All P (s - 1) bs br p all),
                omega arith,
              )
      ]
