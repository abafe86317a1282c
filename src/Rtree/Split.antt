-- ===== src/Rtree/Split.antt =====
-- rtree.cxx, `R_page::split_page`: a full page and one branch more become two pages.
pub mod Cells
pub mod Sharing
pub mod Halves
pub mod Seeds
pub mod Rounds
pub mod Total
pub mod Choices
pub mod Succeeds
use post.Prelude.{
  ℕ, zero, suc, ◌+◌, ◌-◌, Bool, true, false, ◌&&◌, ◌||◌, Option, none, some, List, [], ◌∷◌, ◌++◌,
  ltb, leb, ◌==◌, if◌then◌else◌, set, map, take,
}
use mathlib.Core.Option
use post.Rtree.{Rectangle, plus}
use post.Rtree.Area.{area, sub_size, sub_int, to_int, to_size, less_int, int_min, minus_one}

-- `card` and `min_fill`
abbrev pub card : ℕ
card = 186

abbrev pub min_fill : ℕ
min_fill = 93

abbrev pub Branch : Type 0 → Type 0
Branch A = Rectangle × A

-- The search for the seeds: `worst_waste`, and `seed` once it is set.
pub record Worst : Type 0 where
  pub waste : ℕ
  pub seed : Option (ℕ × ℕ)

-- what two rectangles waste if a single one covers them
unfoldable pub wasted : Rectangle → Rectangle → ℕ
unfolding area plus sub_size to_int to_size
wasted a b =
    let area_a = to_int (area a) in
    let area_b = to_int (area b) in
    to_int (sub_size (sub_size (area (plus a b)) (to_size area_a)) (to_size area_b))

unfoldable pub worse : ℕ → ℕ → ℕ → Worst → Worst
unfolding less_int
worse i j waste w =
    if less_int w.waste waste then record { waste = waste; seed = some (i, j) } else w

-- The loops over `j`, and over `i`, with the new branch first.
unfoldable pub seed_row : {A : Type 0} → Rectangle → ℕ → ℕ → List (Branch A) → Worst → Worst
unfolding worse wasted
seed_row r i j [] w = w
seed_row r i j (b ∷ bs) w = seed_row r i (suc j) bs (worse i j (wasted r b.0) w)

unfoldable pub seed_rows : {A : Type 0} → ℕ → List (Branch A) → Worst → Worst
unfolding seed_row
seed_rows i [] w = w
seed_rows i (b ∷ bs) w = seed_rows (suc i) bs (seed_row b.0 i (suc i) bs w)

unfoldable pub seeds : {A : Type 0} → Branch A → List (Branch A) → Option (ℕ × ℕ)
unfolding seed_rows
seeds br bs = (seed_rows 0 (br ∷ bs) (record { waste = int_min; seed = none })).seed

-- `taken` of a branch of the page: 0, 1 or 2
pub data Taken : Type 0 where
  untaken : Taken
  moved : Taken
  kept : Taken

-- The branches `b` with `taken`, the new page `p`, and the two groups.
pub record Groups (A : Type 0) : Type 0 where
  pub cells : List (Taken × Branch A)
  pub page : List (Branch A)
  pub card_0 : ℕ
  pub card_1 : ℕ
  pub group_0 : Rectangle
  pub group_1 : Rectangle
  pub area_0 : ℕ
  pub area_1 : ℕ

-- why a split has no result: the seeds are not set, the assertion on `chosen` fails, an index is
-- out of range, or the rounds have run out
pub data Failure : Type 0 where
  no_seed : Failure
  not_chosen : Failure
  out_of_range : Failure
  out_of_fuel : Failure

pub data Result (S : Type 0) : Type 0 where
  done : S → Result S
  failed : Failure → Result S

abbrev pub and_then : {S T : Type 0} → Result S → (S → Result T) → Result T
and_then (failed f) k = failed f
and_then (done s) k = k s

-- `b[k]`; none behind the branches
abbrev pub at : {B : Type 0} → ℕ → List B → Option B
at k [] = none
at zero (x ∷ xs) = some x
at (suc k) (x ∷ xs) = at k xs

-- `better_group` (true for 0), `chosen` and `biggest_diff`
pub record Chosen : Type 0 where
  pub first : Bool
  pub chosen : Option ℕ
  pub diff : ℕ

-- how the rest is shared out: the branches with `taken`, those added to the new page, the counts
pub record Shared (A : Type 0) : Type 0 where
  pub cells : List (Taken × Branch A)
  pub added : List (Branch A)
  pub card_0 : ℕ
  pub card_1 : ℕ

module _ {A : Type 0} where
  -- the page with no branch taken, but that of index `k`, which is kept
  abbrev pub mark_kept : ℕ → List (Branch A) → List (Taken × Branch A)
  mark_kept k [] = []
  mark_kept zero (b ∷ bs) = (kept, b) ∷ map (λ c. (untaken, c)) bs
  mark_kept (suc k) (b ∷ bs) = (untaken, b) ∷ mark_kept k bs

  -- The groups with the seeds `s` and `t`: the branches `a` and `c`, in the page `bs`.
  abbrev pub seeded : ℕ → Branch A → Branch A → List (Branch A) → Groups A
  seeded t a c bs = record {
    cells = mark_kept (t - 1) bs;
    page = a ∷ [];
    card_0 = 1;
    card_1 = 1;
    group_0 = a.0;
    group_1 = c.0;
    area_0 = to_int (area a.0);
    area_1 = to_int (area c.0);
  }

  -- the statements before the first loop on the groups
  unfoldable pub start : ℕ → ℕ → Branch A → List (Branch A) → Result (Groups A)
  unfolding to_int area
  start s t br bs = elim (at (t - 1) bs) [
    | none ↦ failed out_of_range
    | some c ↦ if s == 0 then done (seeded t br c bs) else (elim (at (s - 1) bs) [
      | none ↦ failed out_of_range
      | some a ↦ done (seeded t a c (set bs (s - 1) br))
    ])
  ]

  unfoldable pub difference : Groups A → Rectangle → ℕ
  unfolding area plus sub_size to_int to_size
  difference g rect = to_int (
      sub_size (sub_size (area (plus g.group_0 rect)) (to_size g.area_0))
        (sub_size (area (plus g.group_1 rect)) (to_size g.area_1)))

  -- One round of the loop that chooses, at the branch of index `i`, which is not taken.
  unfoldable pub better : Groups A → ℕ → Rectangle → Chosen → Chosen
  unfolding difference less_int sub_int
  better g i rect c =
      let diff = difference g rect in
      let opposite = sub_int 0 diff in
      if less_int c.diff diff || less_int c.diff opposite
      then if less_int diff 0
        then record { first = true; chosen = some i; diff = opposite }
        else record { first = false; chosen = some i; diff = diff }
      else c

  unfoldable pub choose : Groups A → ℕ → List (Taken × Branch A) → Chosen → Chosen
  unfolding better
  choose g i [] c = c
  choose g i ((untaken, b) ∷ cs) c = choose g (suc i) cs (better g i b.0 c)
  choose g i ((moved, b) ∷ cs) c = choose g (suc i) cs c
  choose g i ((kept, b) ∷ cs) c = choose g (suc i) cs c

  -- `taken[k] = v`
  abbrev pub mark : Taken → ℕ → List (Taken × Branch A) → List (Taken × Branch A)
  mark v k [] = []
  mark v zero (c ∷ cs) = (v, c.1) ∷ cs
  mark v (suc k) (c ∷ cs) = c ∷ mark v k cs

  -- The chosen branch joins its group; the first is stored at the end of the new page.
  unfoldable pub join : Bool → ℕ → Branch A → Groups A → Groups A
  unfolding plus area to_int
  join true k b g =
      let group = plus g.group_0 b.0 in
      record g {
        cells = mark moved k g.cells;
        page = g.page ++ (b ∷ []);
        card_0 = suc g.card_0;
        group_0 = group;
        area_0 = to_int (area group);
      }
  join false k b g =
      let group = plus g.group_1 b.0 in
      record g {
        cells = mark kept k g.cells;
        card_1 = suc g.card_1;
        group_1 = group;
        area_1 = to_int (area group);
      }

  -- the condition of the loop
  abbrev pub undecided : Groups A → Bool
  undecided g =
      ltb (g.card_0 + g.card_1) (card + 1)
      && (ltb g.card_0 (card + 1 - min_fill) && ltb g.card_1 (card + 1 - min_fill))

  -- its body
  unfoldable pub round_at : Groups A → Bool → Option ℕ → Result (Groups A)
  unfolding join
  round_at g first none = failed not_chosen
  round_at g first (some k) = elim (at k g.cells) [
    | none ↦ failed out_of_range
    | some c ↦ done (join first k c.1 g)
  ]

  unfoldable pub round : Groups A → Result (Groups A)
  unfolding choose round_at
  round g =
      let c = choose g 0 g.cells (record { first = false; chosen = none; diff = minus_one }) in
      round_at g c.first c.chosen

  unfoldable pub grow : ℕ → Groups A → Result (Groups A)
  unfolding round
  grow zero g = failed out_of_fuel
  grow (suc fuel) g = if undecided g then and_then (round g) (grow fuel) else done g

  abbrev pub settle : Taken → Branch A → List (Branch A) → Shared A → Shared A
  settle v b new s = record s { cells = (v, b) ∷ s.cells; added = new ++ s.added }

  -- The loop over the branches that are not taken.
  unfoldable pub balance : List (Taken × Branch A) → ℕ → ℕ → Shared A
  balance [] c0 c1 = record { cells = []; added = []; card_0 = c0; card_1 = c1 }
  balance ((untaken, b) ∷ cs) c0 c1 =
      let stay = leb c1 c0 in
      let rest = balance cs (if stay then c0 else suc c0) (if stay then suc c1 else c1) in
      if stay then settle kept b [] rest else settle moved b (b ∷ []) rest
  balance ((moved, b) ∷ cs) c0 c1 = settle moved b [] (balance cs c0 c1)
  balance ((kept, b) ∷ cs) c0 c1 = settle kept b [] (balance cs c0 c1)

  unfoldable pub share : Groups A → Shared A
  unfolding balance
  share g =
      if ltb (g.card_0 + g.card_1) (card + 1)
      then balance g.cells g.card_0 g.card_1
      else record { cells = g.cells; added = []; card_0 = g.card_0; card_1 = g.card_1 }

  -- The loop that moves the `n` branches with `taken` 2 to the front.
  unfoldable pub compact : ℕ → List (Taken × Branch A) → Option (List (Branch A))
  compact zero cs = some []
  compact (suc n) [] = none
  compact (suc n) ((untaken, b) ∷ cs) = compact (suc n) cs
  compact (suc n) ((moved, b) ∷ cs) = compact (suc n) cs
  compact (suc n) ((kept, b) ∷ cs) = Option.map (λ l. b ∷ l) (compact n cs)

  -- The statements after the first loop on the groups: the page that stays, and the new one.
  abbrev pub pages_of :
      Groups A → Shared A → Option (List (Branch A)) → Result (List (Branch A) × List (Branch A))
  pages_of g s none = failed out_of_range
  pages_of g s (some stays) = done (stays, take s.card_0 (g.page ++ s.added))

  unfoldable pub finish : Groups A → Result (List (Branch A) × List (Branch A))
  unfolding share compact
  finish g = pages_of g (share g) (compact (share g).card_1 (share g).cells)

  -- `R_page::split_page`; the first loop on the groups has at most `card` rounds
  abbrev pub split_with :
      Branch A → List (Branch A) → Option (ℕ × ℕ) → Result (List (Branch A) × List (Branch A))
  split_with br bs none = failed no_seed
  split_with br bs (some s) = and_then (start s.0 s.1 br bs) (λ g. and_then (grow card g) finish)

  unfoldable pub split_page :
      Branch A → List (Branch A) → Result (List (Branch A) × List (Branch A))
  unfolding seeds start grow finish
  split_page br bs = split_with br bs (seeds br bs)
