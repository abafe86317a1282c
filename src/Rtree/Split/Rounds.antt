-- ===== src/Rtree/Split/Rounds.antt =====
-- rtree.cxx, `split_page`: the rounds of the loop on the groups, and the whole of the split.
use post.Prelude.{
  ℕ, zero, suc, ◌+◌, ◌<◌, ◌≡◌, ◌⊎◌, Option, none, some, List, [], ◌∷◌, length, All, All-append,
  refl, ap, ◌∙◌, true, false, Bool, Bool-cases, inl, inr, arith, length-append, ◌||◌,
}
use mathlib.Core.Option.{some-injective}
use post.Rtree.Area.{less_int, sub_int, minus_one}
use post.Rtree.Split.{
  Branch, Taken, untaken, moved, kept, Chosen, difference, better, choose, join, undecided,
  round_at, round, grow, finish, split_with, split_page, start, seeds, at, Result, done, failed,
  and_then, Groups, not_chosen, card,
}
use post.Rtree.Split.Cells.{if_kept, if_loose, one, total-mark, mark-All}
use post.Rtree.Split.Halves.{IsGroups, SplitAnswer, finish-SplitAnswer, loose_count}
use post.Rtree.Split.Seeds.{InOrder, seeds-InOrder, start-IsStart, IsStart}
use post.Rtree.Weight.{total, total-append, at-All}

module _ {A : Type 0} where
  -- the branch of index `k` in `cs` is not taken, if the index is given at all
  abbrev IsFree : List (Taken × Branch A) → Option ℕ → Type 0
  IsFree cs none = Unit
  IsFree cs (some k) = (b : Branch A) × (at k cs ≡ some (untaken, b))

  -- what a choice among `cs`, the branches from index `i` on, leaves of the choice before
  abbrev pub IsChoice : ℕ → List (Taken × Branch A) → Option ℕ → Option ℕ → Type 0
  IsChoice i cs before after =
      (after ≡ before)
      ⊎ ((k : ℕ) × ((b : Branch A) × ((at k cs ≡ some (untaken, b)) × (after ≡ some (i + k)))))

  later :
      (i : ℕ) (c : Taken × Branch A) (cs : List (Taken × Branch A)) (before after : Option ℕ)
      → IsChoice (suc i) cs before after
      → IsChoice i (c ∷ cs) before after
  later i c cs before after (inl e) = inl e
  later i c cs before after (inr (k, (b, (e, l)))) =
      inr (suc k, (b, (e, l ∙ ap some (omega arith))))

  better-IsChoice :
      (g : Groups A) (i : ℕ) (b : Branch A) (cs : List (Taken × Branch A)) (c : Chosen)
      → IsChoice i ((untaken, b) ∷ cs) c.chosen (better g i b.0 c).chosen
  unfolding better
  better-IsChoice g i b cs c =
      let diff = difference g b.0 in
      elim (Bool-cases (less_int c.diff diff || less_int c.diff (sub_int 0 diff))) [
        | inl e ↦ (elim (Bool-cases (less_int diff 0)) [
          | inl l ↦ rw (better, e, l) (inr (0, (b, (refl, ap some (omega arith)))))
          | inr l ↦ rw (better, e, l) (inr (0, (b, (refl, ap some (omega arith)))))
        ])
        | inr e ↦ rw (better, e) (inl refl)
      ]

  pub choose-IsChoice :
      (g : Groups A) (i : ℕ) (cs : List (Taken × Branch A)) (c : Chosen)
      → IsChoice i cs c.chosen (choose g i cs c).chosen
  unfolding choose
  choose-IsChoice g i [] c = inl refl
  choose-IsChoice g i ((untaken, b) ∷ cs) c =
      elim (choose-IsChoice g (suc i) cs (better g i b.0 c)) [
        | inl e ↦ rw e (better-IsChoice g i b cs c)
        | inr w ↦ later i (untaken, b) cs _ _ (inr w)
      ]
  choose-IsChoice g i ((moved, b) ∷ cs) c =
      later i (moved, b) cs _ _ (choose-IsChoice g (suc i) cs c)
  choose-IsChoice g i ((kept, b) ∷ cs) c = later i (kept, b) cs _ _ (choose-IsChoice g (suc i) cs c)

  -- what a round does to groups that are undecided
  abbrev pub IsRound : Groups A → Result (Groups A) → Type 0
  IsRound g (failed f) = f ≡ not_chosen
  IsRound g (done h) =
      (first : Bool) × ((k : ℕ) × ((b : Branch A) × ((at k g.cells ≡ some (untaken, b))
            × (h ≡ join first k b g))))

  round_at-IsRound :
      (g : Groups A) (first : Bool) (o : Option ℕ)
      → IsChoice 0 g.cells none o
      → IsRound g (round_at g first o)
  unfolding round_at
  round_at-IsRound g first none c = refl
  round_at-IsRound g first (some k) (inl e) = absurd (cc)
  round_at-IsRound g first (some k) (inr (j, (b, (e, l)))) =
      let same : k ≡ j = some-injective k (0 + j) l ∙ omega arith in
      let found : at k g.cells ≡ some (untaken, b) = rw same e in
      rw (round_at, found) (first, (k, (b, (found, refl))))

  pub round-IsRound : (g : Groups A) → IsRound g (round g)
  unfolding round
  round-IsRound g =
      round_at-IsRound g _ _
        (choose-IsChoice g 0 g.cells (record { first = false; chosen = none; diff = minus_one }))

module _ {A : Type 0} (P : Branch A → Type 0) (br : Branch A) (bs : List (Branch A)) where
  -- a round on groups that are undecided leaves one branch less
  pub join-IsGroups :
      (first : Bool) (k : ℕ) (b : Branch A) (g : Groups A)
      → at k g.cells ≡ some (untaken, b)
      → g.card_0 < 94
      → g.card_1 < 94
      → IsGroups P br bs g
      → IsGroups P br bs (join first k b g)
  unfolding join
  join-IsGroups true k b g e low high h = record {
    weights = λ f. omega (
      arith,
      h.weights f,
      total-mark (if_kept f) moved k g.cells (untaken, b) e,
      total-mark (if_loose f) moved k g.cells (untaken, b) e,
      total-append f g.page (b ∷ []),
    );
    new_length = omega (arith, h.new_length, length-append g.page (b ∷ []));
    kept_length =
        omega (arith, h.kept_length, total-mark (if_kept one) moved k g.cells (untaken, b) e);
    first_bound = omega arith;
    second_bound = omega arith;
    new_All =
        All-append P g.page (b ∷ []) h.new_All
          (at-All (λ c. P c.1) k g.cells (untaken, b) e h.cells_All, tt);
    cells_All = mark-All P moved k g.cells h.cells_All;
  }
  join-IsGroups false k b g e low high h = record {
    weights = λ f. omega (
      arith,
      h.weights f,
      total-mark (if_kept f) kept k g.cells (untaken, b) e,
      total-mark (if_loose f) kept k g.cells (untaken, b) e,
    );
    new_length = h.new_length;
    kept_length =
        omega (arith, h.kept_length, total-mark (if_kept one) kept k g.cells (untaken, b) e);
    first_bound = omega arith;
    second_bound = omega arith;
    new_All = h.new_All;
    cells_All = mark-All P kept k g.cells h.cells_All;
  }

  pub join_fewer :
      (first : Bool) (k : ℕ) (b : Branch A) (g : Groups A)
      → at k g.cells ≡ some (untaken, b)
      → suc (total (if_loose one) (join first k b g).cells) ≡ total (if_loose one) g.cells
  unfolding join
  join_fewer true k b g e = omega (arith, total-mark (if_loose one) moved k g.cells (untaken, b) e)
  join_fewer false k b g e = omega (arith, total-mark (if_loose one) kept k g.cells (untaken, b) e)

  pub undecided_bounds : (g : Groups A) → undecided g ≡ true → (g.card_0 < 94) × (g.card_1 < 94)
  undecided_bounds g h = (ground arith, ground arith)

  round-SplitAnswer :
      (fuel : ℕ) (g : Groups A) (r : Result (Groups A))
      → IsRound g r
      → (g.card_0 < 94) × (g.card_1 < 94)
      → total (if_loose one) g.cells < suc fuel
      → IsGroups P br bs g
      → ((g' : Groups A)
          → total (if_loose one) g'.cells < fuel
          → IsGroups P br bs g'
          → SplitAnswer P br bs (and_then (grow fuel g') finish))
      → SplitAnswer P br bs (and_then (and_then r (grow fuel)) finish)
  round-SplitAnswer fuel g (failed f) k bounds less h more = inr k
  round-SplitAnswer fuel g (done g') (first, (k, (b, (e, same)))) bounds less h more = rw same (
      more (join first k b g) (omega (arith, join_fewer first k b g e))
        (join-IsGroups first k b g e bounds.0 bounds.1 h))

  -- with a round for each branch that is left and one more, the loop ends and the split with it
  grow-SplitAnswer :
      (fuel : ℕ) (g : Groups A)
      → length bs ≡ 186
      → total (if_loose one) g.cells < fuel
      → IsGroups P br bs g
      → SplitAnswer P br bs (and_then (grow fuel g) finish)
  unfolding grow
  grow-SplitAnswer zero g full less h = absurd (omega arith)
  grow-SplitAnswer (suc fuel) g full less h = elim (Bool-cases (undecided g)) [
    | inl e ↦
        rw (grow, e)
          (round-SplitAnswer fuel g (round g) (round-IsRound g) (undecided_bounds g e) less h
            (λ g' l k. grow-SplitAnswer fuel g' full l k))
    | inr e ↦ rw (grow, e) (finish-SplitAnswer P br bs g full h)
  ]

  started-SplitAnswer :
      (r : Result (Groups A))
      → length bs ≡ 186
      → IsStart P br bs r
      → SplitAnswer P br bs (and_then r (λ g. and_then (grow card g) finish))
  started-SplitAnswer (failed f) full h = absurd h
  started-SplitAnswer (done g) full h =
      grow-SplitAnswer card g full (omega (arith, loose_count P br bs g full h.0, h.1)) h.0

  split_with-SplitAnswer :
      (o : Option (ℕ × ℕ))
      → length bs ≡ 186
      → InOrder (suc (length bs)) o
      → P br
      → All P bs
      → SplitAnswer P br bs (split_with br bs o)
  split_with-SplitAnswer none full order p all = inl refl
  split_with-SplitAnswer (some (s, t)) full (less, below) p all =
      started-SplitAnswer (start s t br bs) full (start-IsStart P br bs s t less below p all)

  -- A split of a full page ends with two pages of the same branches, or with a failure: the seeds are
  -- not set, or the assertion on the chosen branch fails.
  pub split_page-SplitAnswer :
      length bs ≡ 186 → P br → All P bs → SplitAnswer P br bs (split_page br bs)
  unfolding split_page
  split_page-SplitAnswer full p all =
      split_with-SplitAnswer (seeds br bs) full (seeds-InOrder br bs) p all
