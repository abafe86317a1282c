-- ===== src/Text.antt =====
-- textobj.h and textobj.cxx: the search of a text object for one or several patterns, after Boyer
-- and Moore. Patterns and texts are lists of bytes; a mask is the function that tells its bits.
-- `toupper` and `tolower` of the C library are the parameters `upper` and `lower`, and the bytes in
-- front of the patterns and of the text are the parameter `mem`.
pub mod Loop
pub mod Reference
pub mod Shift
pub mod Search
pub mod Outcome
pub mod Found
pub mod Ready
mod Tests
use post.Prelude.{
  ℕ, zero, suc, ◌+◌, ◌-◌, ◌^◌, Bool, true, false, ◌&&◌, ◌||◌, not, Option, none, some, List, [],
  ◌∷◌, ◌++◌, map, ltb, leb, ◌==◌, min, max, if◌then◌else◌, get_or, length, drop,
}

abbrev pub Bytes : Type 0
Bytes = List ℕ

abbrev pub Mask : Type 0
Mask = ℕ → Bool

-- `search_ctx`; `start` is `position + 1`
pub record SearchCtx : Type 0 where
  pub shift : ℕ → ℕ
  pub min_length : ℕ
  pub diff : ℕ
  pub patterns : List Bytes
  pub exact_mask : Mask
  pub and_mask : Mask
  pub start : ℕ

-- `reset`
unfoldable pub reset : SearchCtx → SearchCtx
reset ctx = record ctx { start = 0 }

abbrev pub max_patterns : ℕ
max_patterns = 32

-- a test of the first 32 bits of a mask
abbrev pub any_bit : ℕ → Mask → Bool
any_bit zero mask = false
any_bit (suc k) mask = mask k || any_bit k mask

-- `shift[c] = v`, and that if it makes `shift[c]` smaller
abbrev pub put : (ℕ → ℕ) → ℕ → ℕ → ℕ → ℕ
put shift c v x = if x == c then v else shift x

abbrev pub put_min : (ℕ → ℕ) → ℕ → ℕ → ℕ → ℕ
put_min shift c v x = if ltb v (shift c) then put shift c v x else shift x

-- How one character of a pattern changes the table.
abbrev pub Fill : Type 0
Fill = (ℕ → ℕ) → ℕ → ℕ → ℕ → ℕ

-- The loops `for (j = 0; j < min_len; j++)`; the number of rounds left is `min_len - j`.
unfoldable pub fill : Fill → (ℕ → ℕ) → Bytes → ℕ → ℕ → ℕ
fill step shift [] left = shift
fill step shift (c ∷ p) zero = shift
fill step shift (c ∷ p) (suc left) = fill step (step shift c (suc left)) p left

-- the shortest and the longest pattern, by the last index
abbrev pub min_len : List Bytes → ℕ
min_len [] = 1000000000
min_len (p ∷ ps) = min (length p - 1) (min_len ps)

abbrev pub max_len : List Bytes → ℕ
max_len [] = 0
max_len (p ∷ ps) = max (length p - 1) (max_len ps)

abbrev pub some_empty : List Bytes → Bool
some_empty [] = false
some_empty ([] ∷ ps) = true
some_empty ((c ∷ p) ∷ ps) = some_empty ps

module _ (upper lower : ℕ → ℕ) where
  -- Patterns that ignore case are stored in upper case; `k` is the index of the first.
  unfoldable pub converted : Mask → ℕ → List Bytes → List Bytes
  converted exact k [] = []
  converted exact k (p ∷ ps) = (if exact k then p else map upper p) ∷ converted exact (suc k) ps

  abbrev pub put_both : Fill
  put_both shift c v = put (put shift (lower c) v) c v

  abbrev pub put_min_both : Fill
  put_min_both shift c v = put_min (put_min shift c v) (lower c) v

  -- the table after the patterns from the second on
  unfoldable pub fill_more : Mask → ℕ → ℕ → (ℕ → ℕ) → List Bytes → ℕ → ℕ
  unfolding fill
  fill_more exact m k shift [] = shift
  fill_more exact m k shift (p ∷ ps) =
      fill_more exact m (suc k) (fill (if exact k then put_min else put_min_both) shift p m) ps

  -- the whole table; the patterns are those converted
  unfoldable pub shifts : Mask → ℕ → List Bytes → ℕ → ℕ
  unfolding fill_more
  shifts exact m [] = λ c. m + 1
  shifts exact m (p ∷ ps) =
      fill_more exact m 1 (fill (if exact 0 then put else put_both) (λ c. m + 1) p m) ps

  -- The constructor; `none` is a failed assertion.
  unfoldable pub create : List Bytes → Mask → Mask → Option SearchCtx
  unfolding converted shifts
  create patterns and_mask exact =
      let n = length patterns in
      let ps = converted exact 0 patterns in
      let m = min_len patterns in
      if n == 0 || (ltb max_patterns n || some_empty patterns)
      then none
      else some (record {
        shift = shifts exact m ps;
        min_length = m;
        diff = max_len patterns - m;
        patterns = ps;
        exact_mask = exact;
        and_mask = and_mask;
        start = 0;
      })

-- the comparison of a character of a pattern with one of the text
abbrev pub same_char : (ℕ → ℕ) → Bool → ℕ → ℕ → Bool
same_char upper exact p c = if exact then p == c else p == upper c

-- The loop `while (p[l] == s[k])` down to `l < 0`; `k` is at least `l`.
unfoldable pub match_back : (ℕ → ℕ → Bool) → Bytes → Bytes → ℕ → ℕ → Bool
match_back same p s zero k = same (get_or p 0 0) (get_or s k 0)
match_back same p s (suc l) k =
    let rest = match_back same p s l (k - 1) in
    if same (get_or p (suc l) 0) (get_or s k 0) then rest else false

-- One round of a search: the search ends, goes on in a new state, or reads beyond the memory.
pub data Round (S : Type 0) : Type 0 where
  found : Round S
  onward : S → Round S
  overran : Round S

-- The end of a loop: the index `i` at which a round has ended the search, or that is not below the
-- bound.
pub data End (S : Type 0) : Type 0 where
  stopped : ℕ → End S
  ended : ℕ → S → End S
  overrun : End S
  out_of_fuel : End S

-- The loops `for (i = ...; i < n; i += d[s[i]])`.
unfoldable pub loop : {S : Type 0} → (ℕ → S → Round S) → (ℕ → ℕ) → ℕ → ℕ → ℕ → S → End S
loop round jump n zero i s = out_of_fuel
loop round jump n (suc fuel) i s =
    if ltb i n
    then (elim (round i s) [
      | found ↦ stopped i
      | onward s' ↦ loop round jump n fuel (i + jump i) s'
      | overran ↦ overrun
    ])
    else ended i s

-- the second of two loops goes on where the first has ended
abbrev pub then_loop : {S : Type 0} → End S → (ℕ → S → End S) → End S
then_loop (stopped i) f = stopped i
then_loop (ended i s) f = f i s
then_loop overrun f = overrun
then_loop out_of_fuel f = out_of_fuel

-- the patterns with their indices, upwards and downwards
abbrev pub Indexed : Type 0
Indexed = List (ℕ × Bytes)

abbrev pub upwards : ℕ → List Bytes → Indexed
upwards k [] = []
upwards k (p ∷ ps) = (k, p) ∷ upwards (suc k) ps

abbrev pub downwards : ℕ → List Bytes → Indexed
downwards k [] = []
downwards k (p ∷ ps) = downwards (suc k) ps ++ (k, p) ∷ []

-- `(and_mask & ~matched_mask) == 0`
abbrev pub covers : Mask → Mask → Bool
covers and_mask matched = not (any_bit max_patterns (λ k. and_mask k && not (matched k)))

abbrev pub with_bit : ℕ → Mask → Mask
with_bit k mask j = if j == k then true else mask j

-- The readable bytes in front of the buffer of each pattern and in front of the text, the nearest
-- first; where they end is the end of what can be read.
pub record Memory : Type 0 where
  pub before_pattern : ℕ → Bytes
  pub before_text : Bytes

-- The loop `while (p[l] == s[k])` below `l = 0`: it stops at a byte that differs, or runs out of the
-- readable memory.
unfoldable pub escapes : (ℕ → ℕ → Bool) → Bytes → Bytes → Bool
escapes same [] t = true
escapes same (a ∷ p) [] = true
escapes same (a ∷ p) (c ∷ t) = let rest = escapes same p t in if same a c then rest else false

-- what can be read in front of place `o` of a text, by what can be read in front of the text
abbrev pub in_front : Bytes → ℕ → Bytes → Bytes
in_front [] o before = before
in_front (c ∷ s) zero before = before
in_front (c ∷ s) (suc o) before = in_front s o (c ∷ before)

-- the results of `search`: an answer with the context afterwards, a read beyond the memory, or no
-- end
pub data Answer : Type 0 where
  answered : Bool → SearchCtx → Answer
  astray : Answer
  endless : Answer

module _ (upper : ℕ → ℕ) (ctx : SearchCtx) (s : Bytes) where
  -- A pattern compared at `i`; `checked` is whether `k < n` is tested.
  unfoldable pub hit : Bool → ℕ → ℕ → ℕ × Bytes → Bool
  unfolding match_back
  hit checked n i (k, p) =
      let same = same_char upper (ctx.exact_mask k) in
      let l = length p - 1 in
      let e = i + l - ctx.min_length in
      same (get_or p ctx.min_length 0) (get_or s i 0)
      && ((not checked || ltb e n) && match_back same p s l e)

  -- The loop over the patterns. Behind a full match that does not end the search the comparison
  -- is not left: it goes on in front of the pattern and of the place. As long as the bytes agree,
  -- the code sets the same bit and tests the same mask again.
  unfoldable pub visit : Memory → Bool → ℕ → ℕ → Indexed → Mask → Round Mask
  unfolding hit escapes
  visit mem checked n i [] matched = onward matched
  visit mem checked n i ((k, p) ∷ ps) matched = elim (hit checked n i (k, p)) [
    | false ↦ visit mem checked n i ps matched
    | true ↦ (elim (covers ctx.and_mask (with_bit k matched)) [
      | true ↦ found
      | false ↦
          (elim (escapes (same_char upper (ctx.exact_mask k)) (mem.before_pattern k)
            (in_front s (i - ctx.min_length) mem.before_text)) [
              | true ↦ overran
              | false ↦ visit mem checked n i ps (with_bit k matched)
            ])
    ])
  ]

  -- The search for a single pattern: `p[j] == s[k]` from `m` and `i` downwards.
  unfoldable pub visit_one : Bytes → ℕ → Unit {0} → Round (Unit {0})
  unfolding match_back
  visit_one p i u =
      if match_back (same_char upper (ctx.exact_mask 0)) p s ctx.min_length i
      then found
      else onward tt

  unfoldable pub search_one : Bytes → ℕ → End (Unit {0})
  unfolding loop visit_one
  search_one p n = loop (visit_one p) (λ i. ctx.shift (get_or s i 0)) n (suc n) ctx.min_length tt

  -- All patterns ignore case: the first loop stops early, so that it need not test `k < n`.
  unfoldable pub search_folded : Memory → ℕ → End Mask
  unfolding loop visit
  search_folded mem n =
      let jump = λ (i : ℕ). ctx.shift (get_or s i 0) in
      let ps = downwards 0 ctx.patterns in
      then_loop
        (loop (λ i. visit mem false n i ps) jump (n - ctx.diff) (suc n) ctx.min_length (λ k. false))
        (loop (λ i. visit mem true n i ps) jump n (suc n))

  unfoldable pub search_mixed : Memory → ℕ → End Mask
  unfolding loop visit
  search_mixed mem n =
      loop (λ i. visit mem true n i (upwards 0 ctx.patterns)) (λ i. ctx.shift (get_or s i 0)) n
        (suc n) ctx.min_length (λ k. false)

  -- what `search` returns, with the context afterwards
  unfoldable pub answer : {S : Type 0} → End S → Answer
  answer (stopped i) = answered true (record ctx { start = ctx.start + (i - ctx.min_length) + 1 })
  answer (ended i t) = answered false (record ctx { start = 0 })
  answer overrun = astray
  answer out_of_fuel = endless

-- the branches of `search` by the number of patterns and the mask
unfoldable pub search_patterns : (ℕ → ℕ) → Memory → SearchCtx → Bytes → ℕ → List Bytes → Answer
unfolding search_one search_folded search_mixed answer
search_patterns upper mem ctx s n [] = answer upper ctx s (search_mixed upper ctx s mem n)
search_patterns upper mem ctx s n (p ∷ []) = answer upper ctx s (search_one upper ctx s p n)
search_patterns upper mem ctx s n (p ∷ q ∷ ps) = answer upper ctx s (
    if any_bit max_patterns ctx.exact_mask
    then search_mixed upper ctx s mem n
    else search_folded upper ctx s mem n)

-- the memory beside the text from `start` on: what is skipped of the text stands in front of it
abbrev pub skipped : Memory → ℕ → Bytes → Memory
skipped mem start p_text = record mem { before_text = in_front p_text start mem.before_text }

-- `search_ctx::search`; the text is read from `position + 1` on
unfoldable pub search : (ℕ → ℕ) → Memory → SearchCtx → Bytes → Answer
unfolding search_patterns
search upper mem ctx p_text =
    search_patterns upper (skipped mem ctx.start p_text) ctx (drop ctx.start p_text)
      (length p_text - ctx.start) ctx.patterns
