-- ===== src/Rtree/Split/Choices.antt =====
-- rtree.cxx, `split_page` on rectangles in a small box: the choice of the seeds and of a branch.
use post.Prelude.{
  ℕ, suc, ◌≤◌, ◌≡◌, true, Option, none, some, List, [], ◌∷◌, length, All, arith, ◌||◌, Bool-cases,
  inl, inr,
}
use post.Rtree.{Rectangle}
use post.Rtree.Area.{less_int, sub_int, minus_one}
use post.Rtree.Weight.{total}
use post.Rtree.Split.{
  Branch, Worst, wasted, worse, seed_row, seed_rows, seeds, Groups, Chosen, difference, better,
  choose, Taken, untaken, moved, kept,
}
use post.Rtree.Split.Cells.{if_loose, one}
use post.Rtree.Split.Total.{IsSmall, IsWithin, IsGroup, wasted_bound, difference_bound}

abbrev pub IsSome : {A : Type 0} → Option A → Type 0
IsSome none = ⊥
IsSome (some a) = Unit

worse-IsSome : (i j waste : ℕ) (w : Worst) → IsSome w.seed → IsSome (worse i j waste w).seed
unfolding worse
worse-IsSome i j waste w h = elim (Bool-cases (less_int w.waste waste)) [
  | inl e ↦ rw e tt
  | inr e ↦ rw e h
]

seed_row-IsSome :
    {A : Type 0} (r : Rectangle) (i j : ℕ) (bs : List (Branch A)) (w : Worst)
    → IsSome w.seed
    → IsSome (seed_row r i j bs w).seed
unfolding seed_row
seed_row-IsSome r i j [] w h = h
seed_row-IsSome r i j (b ∷ bs) w h =
    seed_row-IsSome r i (suc j) bs _ (worse-IsSome i j (wasted r b.0) w h)

seed_rows-IsSome :
    {A : Type 0} (i : ℕ) (bs : List (Branch A)) (w : Worst)
    → IsSome w.seed
    → IsSome (seed_rows i bs w).seed
unfolding seed_rows
seed_rows-IsSome i [] w h = h
seed_rows-IsSome i (b ∷ bs) w h =
    seed_rows-IsSome (suc i) bs _ (seed_row-IsSome b.0 i (suc i) bs w h)

-- the first pair of branches sets the seeds
pub seeds-IsSome :
    {A : Type 0} (box : Rectangle) (br : Branch A) (bs : List (Branch A))
    → IsSmall box
    → IsWithin box br.0
    → All (λ b. IsWithin box b.0) bs
    → 1 ≤ length bs
    → IsSome (seeds br bs)
unfolding seeds seed_rows seed_row
seeds-IsSome box br [] small h all least = absurd (omega arith)
seeds-IsSome box br (b ∷ bs) small h all least =
    seed_rows-IsSome 1 (b ∷ bs) _
      (seed_row-IsSome br.0 0 2 bs _ (rw (worse, wasted_bound box br.0 b.0 small h all.0) tt))

better-IsSome :
    {A : Type 0} (g : Groups A) (i : ℕ) (rect : Rectangle) (c : Chosen)
    → IsSome c.chosen
    → IsSome (better g i rect c).chosen
unfolding better
better-IsSome g i rect c h =
    let diff = difference g rect in
    elim (Bool-cases (less_int c.diff diff || less_int c.diff (sub_int 0 diff))) [
      | inl e ↦ (elim (Bool-cases (less_int diff 0)) [
        | inl l ↦ rw (better, e, l) tt
        | inr l ↦ rw (better, e, l) tt
      ])
      | inr e ↦ rw (better, e) h
    ]

choose_keeps :
    {A : Type 0} (g : Groups A) (i : ℕ) (cs : List (Taken × Branch A)) (c : Chosen)
    → IsSome c.chosen
    → IsSome (choose g i cs c).chosen
unfolding choose
choose_keeps g i [] c h = h
choose_keeps g i ((untaken, b) ∷ cs) c h =
    choose_keeps g (suc i) cs (better g i b.0 c) (better-IsSome g i b.0 c h)
choose_keeps g i ((moved, b) ∷ cs) c h = choose_keeps g (suc i) cs c h
choose_keeps g i ((kept, b) ∷ cs) c h = choose_keeps g (suc i) cs c h

-- the first branch that is left is chosen, if no other is
pub choose-IsSome :
    {A : Type 0} (box : Rectangle) (g : Groups A) (i : ℕ) (cs : List (Taken × Branch A))
    (c : Chosen)
    → IsSmall box
    → IsGroup box g
    → All (λ c. IsWithin box c.1.0) cs
    → 1 ≤ total (if_loose one) cs
    → c.diff ≡ minus_one
    → IsSome (choose g i cs c).chosen
unfolding choose better
choose-IsSome box g i [] c small h all least e = absurd (omega arith)
choose-IsSome box g i ((untaken, b) ∷ cs) c small h all least e =
    choose_keeps g (suc i) cs (better g i b.0 c)
      (first b.0 (rw e (difference_bound box g b.0 small h all.0)))
  where
    first :
        (rect : Rectangle)
        → (less_int c.diff (difference g rect) || less_int c.diff (sub_int 0 (difference g rect)))
          ≡ true
        → IsSome (better g i rect c).chosen
    first rect k = elim (Bool-cases (less_int (difference g rect) 0)) [
      | inl l ↦ rw (better, k, l) tt
      | inr l ↦ rw (better, k, l) tt
    ]
choose-IsSome box g i ((moved, b) ∷ cs) c small h all least e =
    choose-IsSome box g (suc i) cs c small h all.1 (omega arith) e
choose-IsSome box g i ((kept, b) ∷ cs) c small h all least e =
    choose-IsSome box g (suc i) cs c small h all.1 (omega arith) e
