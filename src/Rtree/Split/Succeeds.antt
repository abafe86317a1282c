-- ===== src/Rtree/Split/Succeeds.antt =====
-- rtree.cxx, `split_page` on rectangles in a small box: the rounds of the loop, and the whole split.
use post.Prelude.{
  ℕ, zero, suc, ◌+◌, ◌≤◌, ◌<◌, ◌≡◌, ◌∙◌, refl, true, false, Bool, Option, none, some, List, length,
  set, All, ◌==◌, ◌-◌, arith, Bool-cases, inl, inr,
}
use mathlib.Core.Option.{some-injective}
use post.Rtree.{Rectangle, plus}
use post.Rtree.Area.{area, minus_one}
use post.Rtree.Weight.{total, at_some, at-All}
use post.Rtree.Split.{
  Branch, seeds, Groups, untaken, Result, done, failed, round_at, round, join, seeded, start, at,
  grow, finish, undecided, and_then, card, split_with, split_page,
}
use post.Rtree.Split.Cells.{if_loose, one}
use post.Rtree.Split.Halves.{SplitAnswer, IsSplit, IsGroups, loose_count, finish-done}
use post.Rtree.Split.Seeds.{InOrder, seeds-InOrder, IsStart, start-IsStart}
use post.Rtree.Split.Rounds.{
  split_page-SplitAnswer, IsRound, round-IsRound, IsChoice, choose-IsChoice, join-IsGroups,
  join_fewer, undecided_bounds,
}
use post.Rtree.Split.Total.{IsSmall, IsWithin, IsGroup, plus-IsWithin, to_int_small, area_bound}
use post.Rtree.Split.Choices.{IsSome, seeds-IsSome, choose-IsSome}

abbrev pub IsDone : {S : Type 0} → Result S → Type 0
IsDone (failed f) = ⊥
IsDone (done s) = Unit

round_at-IsDone :
    {A : Type 0} (g : Groups A) (first : Bool) (o : Option ℕ)
    → IsSome o
    → IsChoice 0 g.cells none o
    → IsDone (round_at g first o)
unfolding round_at
round_at-IsDone g first none h k = absurd h
round_at-IsDone g first (some j) h (inl e) = absurd (cc)
round_at-IsDone g first (some j) h (inr (i, (b, (e, l)))) =
    let same : j ≡ i = some-injective j (0 + i) l ∙ omega arith in
    let found : at j g.cells ≡ some (untaken, b) = rw same e in rw (round_at, found) tt

round-IsDone :
    {A : Type 0} (box : Rectangle) (g : Groups A)
    → IsSmall box
    → IsGroup box g
    → All (λ c. IsWithin box c.1.0) g.cells
    → 1 ≤ total (if_loose one) g.cells
    → IsDone (round g)
unfolding round
round-IsDone box g small h all least =
    round_at-IsDone g _ _
      (choose-IsSome box g 0 g.cells (record { first = false; chosen = none; diff = minus_one })
        small h all least refl)
      (choose-IsChoice g 0 g.cells (record { first = false; chosen = none; diff = minus_one }))

join-IsGroup :
    {A : Type 0} (box : Rectangle) (first : Bool) (k : ℕ) (b : Branch A) (g : Groups A)
    → IsSmall box
    → IsWithin box b.0
    → IsGroup box g
    → IsGroup box (join first k b g)
unfolding join
join-IsGroup box true k b g small h group =
    let whole = plus-IsWithin box g.group_0 b.0 group.within_0 h in
    record {
      within_0 = whole;
      within_1 = group.within_1;
      stored_0 =
          to_int_small (area (plus g.group_0 b.0))
            (area_bound box (plus g.group_0 b.0) small whole);
      stored_1 = group.stored_1;
    }
join-IsGroup box false k b g small h group =
    let whole = plus-IsWithin box g.group_1 b.0 group.within_1 h in
    record {
      within_0 = group.within_0;
      within_1 = whole;
      stored_0 = group.stored_0;
      stored_1 =
          to_int_small (area (plus g.group_1 b.0))
            (area_bound box (plus g.group_1 b.0) small whole);
    }

-- the groups that the seeds start
abbrev IsStarted : {A : Type 0} → Rectangle → Result (Groups A) → Type 0
IsStarted box (failed f) = ⊥
IsStarted box (done g) = IsGroup box g

seeded-IsGroup :
    {A : Type 0} (box : Rectangle) (t : ℕ) (a c : Branch A) (bs : List (Branch A))
    → IsSmall box
    → IsWithin box a.0
    → IsWithin box c.0
    → IsGroup box (seeded t a c bs)
seeded-IsGroup box t a c bs small h k = record {
  within_0 = h;
  within_1 = k;
  stored_0 = to_int_small (area a.0) (area_bound box a.0 small h);
  stored_1 = to_int_small (area c.0) (area_bound box c.0 small k);
}

start-IsStarted :
    {A : Type 0} (box : Rectangle) (s t : ℕ) (br : Branch A) (bs : List (Branch A))
    → IsSmall box
    → s < t
    → t < suc (length bs)
    → IsWithin box br.0
    → All (λ b. IsWithin box b.0) bs
    → IsStarted box (start s t br bs)
unfolding start
start-IsStarted box s t br bs small less below h all =
    let (c, e) = at_some (t - 1) bs (omega arith) in
    let k = at-All (λ b. IsWithin box b.0) (t - 1) bs c e all in
    elim (Bool-cases (s == 0)) [
      | inl z ↦ rw (start, e, z) (seeded-IsGroup box t br c bs small h k)
      | inr z ↦
          let (a, l) = at_some (s - 1) bs (omega arith) in
          rw (start, e, z, l)
            (seeded-IsGroup box t a c (set bs (s - 1) br) small
              (at-All (λ b. IsWithin box b.0) (s - 1) bs a l all) k)
    ]

module _ {A : Type 0} (box : Rectangle) (small : IsSmall box) (br : Branch A) (bs : List (Branch A))
    (full : length bs ≡ 186) where
  abbrev InBox : Branch A → Type 0
  InBox b = IsWithin box b.0

  finish-IsDone : (g : Groups A) → IsGroups InBox br bs g → IsDone (finish g)
  finish-IsDone g h = let (pages, e) = finish-done InBox br bs g full h in rw e tt

  next-IsDone :
      (fuel : ℕ) (g : Groups A) (r : Result (Groups A))
      → IsDone r
      → IsRound g r
      → undecided g ≡ true
      → IsGroups InBox br bs g
      → IsGroup box g
      → total (if_loose one) g.cells < suc fuel
      → ((g' : Groups A)
          → IsGroups InBox br bs g'
          → IsGroup box g'
          → total (if_loose one) g'.cells < fuel
          → IsDone (and_then (grow fuel g') finish))
      → IsDone (and_then (and_then r (grow fuel)) finish)
  next-IsDone fuel g (failed f) d k e h group less more = absurd d
  next-IsDone fuel g (done g') d (first, (k, (b, (found, same)))) e h group less more =
      let bounds = undecided_bounds InBox br bs g e in
      rw same (
        more (join first k b g) (join-IsGroups InBox br bs first k b g found bounds.0 bounds.1 h)
          (join-IsGroup box first k b g small
            (at-All (λ c. IsWithin box c.1.0) k g.cells (untaken, b) found h.cells_All) group)
          (omega (arith, join_fewer InBox br bs first k b g found)))

  undecided_sum : (g : Groups A) → undecided g ≡ true → g.card_0 + g.card_1 < 187
  undecided_sum g e = ground arith

  grow-IsDone :
      (fuel : ℕ) (g : Groups A)
      → IsGroups InBox br bs g
      → IsGroup box g
      → total (if_loose one) g.cells < fuel
      → IsDone (and_then (grow fuel g) finish)
  unfolding grow
  grow-IsDone zero g h group less = absurd (omega arith)
  grow-IsDone (suc fuel) g h group less = elim (Bool-cases (undecided g)) [
    | inl e ↦
        rw (grow, e)
          (next-IsDone fuel g (round g)
            (round-IsDone box g small group h.cells_All
              (omega (arith, loose_count InBox br bs g full h, undecided_sum g e)))
            (round-IsRound g) e h group less (λ g' k k' l. grow-IsDone fuel g' k k' l))
    | inr e ↦ rw (grow, e) (finish-IsDone g h)
  ]

  started-IsDone :
      (r : Result (Groups A))
      → IsStart InBox br bs r
      → IsStarted box r
      → IsDone (and_then r (λ g. and_then (grow card g) finish))
  started-IsDone (failed f) h k = absurd h
  started-IsDone (done g) h k =
      grow-IsDone card g h.0 k (omega (arith, loose_count InBox br bs g full h.0, h.1))

  split_with-IsDone :
      (o : Option (ℕ × ℕ))
      → IsSome o
      → InOrder (suc (length bs)) o
      → IsWithin box br.0
      → All InBox bs
      → IsDone (split_with br bs o)
  split_with-IsDone none h order p all = absurd h
  split_with-IsDone (some (s, t)) h (less, below) p all =
      started-IsDone (start s t br bs) (start-IsStart InBox br bs s t less below p all)
        (start-IsStarted box s t br bs small less below p all)

  pub split_page-IsDone : IsWithin box br.0 → All InBox bs → IsDone (split_page br bs)
  unfolding split_page
  split_page-IsDone p all =
      split_with-IsDone (seeds br bs) (seeds-IsSome box br bs small p all (omega (arith, full)))
        (seeds-InOrder br bs) p all

  pages_made :
      (P : Branch A → Type 0) (o : Result (List (Branch A) × List (Branch A)))
      → IsDone o
      → SplitAnswer P br bs o
      → (pages : List (Branch A) × List (Branch A)) × ((o ≡ done pages) × IsSplit P br bs pages)
  pages_made P (failed f) d h = absurd d
  pages_made P (done pages) d h = (pages, (refl, h))

  -- A page that is full and one more branch, whose rectangles are proper and lie in a box whose sides
  -- and whose area are below 2 ^ 31, are split into two pages, each of 93 to 94 branches. The two
  -- together hold exactly the branches of the page and the new one, each as often (the sums agree for
  -- every weight of a branch), and what holds of all these branches holds of those of both pages.
  pub split_page-IsSplit :
      (P : Branch A → Type 0)
      → IsWithin box br.0
      → All InBox bs
      → P br
      → All P bs
      → (pages : List (Branch A) × List (Branch A)) × ((split_page br bs ≡ done pages)
          × IsSplit P br bs pages)
  split_page-IsSplit P p all q every =
      pages_made P (split_page br bs) (split_page-IsDone p all)
        (split_page-SplitAnswer P br bs full q every)
