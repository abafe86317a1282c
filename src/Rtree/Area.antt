-- ===== src/Rtree/Area.antt =====
-- rtree.h and rtree.cxx: `area` with its machine numbers, and the branch that `R_page::insert`
-- descends to. A `size_t` has 64 bits and is its value; an `int` has 32 and is its two's complement.
use post.Prelude.{ℕ, suc, ◌+◌, ◌-◌, ◌*◌, ◌%◌, Bool, ltb, ◌==◌, ◌&&◌, List, [], ◌∷◌, if◌then◌else◌}
use post.Rtree.{Rectangle, plus}

-- `size_t` and `int` operations
unfoldable pub sub_size : ℕ → ℕ → ℕ
sub_size a b = (a + 18446744073709551616 - b) % 18446744073709551616

unfoldable pub sub_int : ℕ → ℕ → ℕ
sub_int a b = (a + 4294967296 - b) % 4294967296

unfoldable pub to_int : ℕ → ℕ
to_int a = a % 4294967296

unfoldable pub to_size : ℕ → ℕ
to_size a = if ltb a 2147483648 then a else a + 18446744069414584320

-- a signed comparison: with the least `int` added
unfoldable pub less_int : ℕ → ℕ → Bool
less_int a b = ltb ((a + 2147483648) % 4294967296) ((b + 2147483648) % 4294967296)

-- INT_MIN, INT_MAX and -1
abbrev pub int_min : ℕ
int_min = 2147483648

abbrev pub int_max : ℕ
int_max = 2147483647

abbrev pub minus_one : ℕ
minus_one = 4294967295

-- `area`
unfoldable pub area : Rectangle → ℕ
unfolding sub_int to_size
area r =
    let tall = to_size (sub_int r.y_high r.y_low) in
    let wide = to_size (sub_int r.x_high r.x_low) in (tall * wide) % 18446744073709551616

-- the state of the loop that chooses a branch
pub record Choice : Type 0 where
  pub mini : ℕ
  pub min_incr : ℕ
  pub best_area : ℕ

-- One round of it, at the branch of index `i`.
unfoldable pub consider : Rectangle → ℕ → Rectangle → Choice → Choice
unfolding sub_size area plus
consider r i rect c =
    let r_area = area rect in
    let incr = sub_size (area (plus rect r)) r_area in
    if ltb incr c.min_incr
    then record { mini = i; min_incr = incr; best_area = r_area }
    else if (incr == c.min_incr) && ltb r_area c.best_area
    then record c { mini = i; best_area = r_area }
    else c

unfoldable pub choose_from : {A : Type 0} → Rectangle → ℕ → List (Rectangle × A) → Choice → Choice
unfolding consider
choose_from r i [] c = c
choose_from r i (b ∷ bs) c = choose_from r (suc i) bs (consider r i b.0 c)

-- the index `mini` after the loop
unfoldable pub choose_branch : {A : Type 0} → Rectangle → List (Rectangle × A) → ℕ
unfolding choose_from
choose_branch r bs =
    (choose_from r 0 bs (record { mini = 0; min_incr = int_max; best_area = int_max })).mini
