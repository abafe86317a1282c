-- ===== src/Text/Outcome.antt =====
-- textobj.cxx, `search_ctx::search`: where a search ends, for one pattern and for several.
use post.Prelude.{
  ℕ, suc, ◌+◌, ◌-◌, ◌≤◌, ◌<◌, ◌≡◌, ◌∙◌, refl, sym, ap, Bool, true, false, not, ◌&&◌, ◌||◌, none,
  some, List, [], ◌∷◌, if◌then◌else◌, ltb, lt→ltb, Bool-cases, inl, inr, arith, length, get_or,
  drop, All, All-append,
}
use post.Text.{
  Bytes, Mask, SearchCtx, found, onward, End, stopped, ended, overrun, out_of_fuel, loop, Memory,
  escapes, in_front, Answer, match_back, same_char, Indexed, upwards, downwards, covers, with_bit,
  hit, visit, visit_one, answer, search_one, search_mixed, search_folded, then_loop, min_len,
  max_len,
}
use post.Text.Loop.{by_one, outcome, loop-by_one, two_loops-by_one}
use post.Text.Shift.{Safe}
use post.Text.Reference.{
  starts_with, tries, test_one, test_all, match_back-Agree, starts_with-Agree,
}
use post.Text.Search.{
  no_match, Long, Stops, as_round, visit-test_all, test_all-short, placed, loop-tries, too_short,
  same_truth,
}

-- the patterns of a context agree with its table and its lengths
abbrev pub Fits : (ℕ → ℕ) → SearchCtx → ℕ × Bytes → Type 0
Fits upper ctx e =
    Safe (same_char upper (ctx.exact_mask e.0)) ctx.min_length ctx.shift e.1
    × ((ctx.min_length < length e.1) × (length e.1 ≤ ctx.min_length + ctx.diff + 1))

pub record IsReady (upper : ℕ → ℕ) (ctx : SearchCtx) : Type 0 where
  pub patterns_fit : All (Fits upper ctx) (upwards 0 ctx.patterns)
  pub jump_le : (c : ℕ) → ctx.shift c ≤ ctx.min_length + 1
  pub jump_pos : (c : ℕ) → 0 < ctx.shift c
  pub shortest : ctx.min_length ≡ min_len ctx.patterns
  pub longest : max_len ctx.patterns < 1000000000

All-downwards :
    (P : ℕ × Bytes → Type 0) (k : ℕ) (ps : List Bytes)
    → All P (upwards k ps)
    → All P (downwards k ps)
All-downwards P k [] h = tt
All-downwards P k (p ∷ ps) h =
    All-append P (downwards (suc k) ps) ((k, p) ∷ []) (All-downwards P (suc k) ps h.1) (h.0, tt)

module _ (upper : ℕ → ℕ) (ctx : SearchCtx) (s : Bytes) (ready : IsReady upper ctx) (mem : Memory)
    (guard : All (Stops upper ctx s mem) (upwards 0 ctx.patterns)) where
  abbrev jump : ℕ → ℕ
  jump i = ctx.shift (get_or s i 0)

  as_round-if :
      (b : Bool) → (if b then found else onward tt) ≡ as_round (if b then none else some (tt {0}))
  as_round-if true = refl
  as_round-if false = refl

  Fits-Long : (ps : Indexed) → All (Fits upper ctx) ps → All (Long upper ctx s) ps
  Fits-Long [] h = tt
  Fits-Long (e ∷ ps) h = (h.0.1.0, Fits-Long ps h.1)

  visit-quiet :
      (checked : Bool) (n i e : ℕ) (ps : Indexed) (t : Mask)
      → All (Fits upper ctx) ps
      → ctx.min_length ≤ i
      → i < e
      → e < i + jump i
      → visit upper ctx s mem checked n e ps t ≡ onward t
  unfolding visit hit
  visit-quiet checked n i e [] t h mi ie short = refl
  visit-quiet checked n i e ((k, p) ∷ ps) t h mi ie short =
      let (safe, (long, most)) = h.0 in
      let same = same_char upper (ctx.exact_mask k) in
      let l = length p - 1 in
      let none_here =
        no_match same ctx.min_length ctx.shift p s safe ready.jump_le l i e (e + l - ctx.min_length)
          (omega (arith, long)) (omega (arith, long)) refl mi ie short in
      let quiet : hit upper ctx s checked n e (k, p) ≡ false =
        missed (same (get_or p ctx.min_length 0) (get_or s e 0))
          (not checked || ltb (e + l - ctx.min_length) n)
          (match_back same p s l (e + l - ctx.min_length)) none_here in
      rw (quiet, visit) (visit-quiet checked n i e ps t h.1 mi ie short)
    where
      missed : (a b c : Bool) → c ≡ false → (a && (b && c)) ≡ false
      missed a b c e = ground arith

  answer-outcome : {S : Type 0} (r : End S) → answer upper ctx s r ≡ answer upper ctx s (outcome r)
  unfolding answer
  answer-outcome (stopped i) = refl
  answer-outcome (ended i t) = refl
  answer-outcome overrun = refl
  answer-outcome out_of_fuel = refl

  same_answer :
      {S : Type 0} (r q : End S)
      → outcome r ≡ outcome q
      → answer upper ctx s r ≡ answer upper ctx s q
  same_answer r q e = answer-outcome r ∙ ap (answer upper ctx s) e ∙ sym (answer-outcome q)

  abbrev nothing : Mask
  nothing k = false

  -- the reference search for all patterns, in some order
  abbrev pub reference : Indexed → Answer
  reference ps =
      placed upper ctx s (tries (test_all upper ctx.exact_mask ctx.and_mask ps) s 0 nothing)

  by_one-reference :
      (ps : Indexed)
      → All (Fits upper ctx) ps
      → All (Stops upper ctx s mem) ps
      → answer upper ctx s (
          loop
            (λ i. visit upper ctx s mem true (length s) i ps)
            by_one
            (length s)
            (suc (length s))
            ctx.min_length
            nothing)
        ≡ reference ps
  by_one-reference ps h stops =
      let round = λ (i : ℕ). visit upper ctx s mem true (length s) i ps in
      ap (λ i. answer upper ctx s (loop round by_one (length s) (suc (length s)) i nothing))
        (omega arith)
      ∙ loop-tries upper ctx s round (test_all upper ctx.exact_mask ctx.and_mask ps)
          (λ o t inside. visit-test_all upper ctx s mem o ps t stops (Fits-Long ps h) inside)
          (λ o t short. test_all-short upper ctx s o ps t (Fits-Long ps h) short) s 0 nothing refl

  pub search_mixed-reference :
      answer upper ctx s (search_mixed upper ctx s mem (length s))
      ≡ reference (upwards 0 ctx.patterns)
  unfolding search_mixed
  search_mixed-reference =
      let ps = upwards 0 ctx.patterns in
      same_answer _ _ (
        loop-by_one (λ i. visit upper ctx s mem true (length s) i ps) (length s) jump ctx.min_length
          (λ i. ready.jump_pos (get_or s i 0))
          (λ i e t mi ie short inside.
            visit-quiet true (length s) i e ps t ready.patterns_fit mi ie short)
          (suc (length s)) ctx.min_length nothing (omega arith) (omega arith) (omega arith))
      ∙ by_one-reference ps ready.patterns_fit guard

  hit-unchecked :
      (n i k : ℕ) (p : Bytes)
      → Fits upper ctx (k, p)
      → i < n - ctx.diff
      → hit upper ctx s false n i (k, p) ≡ hit upper ctx s true n i (k, p)
  unfolding hit
  hit-unchecked n i k p h inside =
      let (long, most) = h.1 in
      rw (lt→ltb (i + (length p - 1) - ctx.min_length) n (omega (arith, long, most, inside))) refl

  -- whether `visit` leaves the memory behind a match of pattern `k` at `i`
  abbrev leaves : ℕ → ℕ → Bool
  leaves k i =
      escapes (same_char upper (ctx.exact_mask k)) (mem.before_pattern k)
        (in_front s (i - ctx.min_length) mem.before_text)

  visit-unchecked :
      (n i : ℕ) (ps : Indexed) (t : Mask)
      → All (Fits upper ctx) ps
      → i < n - ctx.diff
      → visit upper ctx s mem false n i ps t ≡ visit upper ctx s mem true n i ps t
  unfolding visit
  visit-unchecked n i [] t h inside = refl
  visit-unchecked n i ((k, p) ∷ ps) t h inside =
      let same = hit-unchecked n i k p h.0 inside in
      elim (Bool-cases (hit upper ctx s true n i (k, p))) [
        | inr e ↦ rw (same, e, visit) (visit-unchecked n i ps t h.1 inside)
        | inl e ↦ (elim (Bool-cases (covers ctx.and_mask (with_bit k t))) [
          | inl c ↦ rw (same, e, c, visit) refl
          | inr c ↦ (elim (Bool-cases (leaves k i)) [
            | inl d ↦ rw (same, e, c, d, visit) refl
            | inr d ↦ rw (same, e, c, d, visit) (visit-unchecked n i ps (with_bit k t) h.1 inside)
          ])
        ])
      ]

  pub search_folded-reference :
      answer upper ctx s (search_folded upper ctx s mem (length s))
      ≡ reference (downwards 0 ctx.patterns)
  unfolding search_folded
  search_folded-reference =
      let ps = downwards 0 ctx.patterns in
      let fit = All-downwards (Fits upper ctx) 0 ctx.patterns ready.patterns_fit in
      let n = length s in
      same_answer
        (then_loop
          (loop (λ i. visit upper ctx s mem false n i ps) jump (n - ctx.diff) (suc n) ctx.min_length
            nothing)
          (loop (λ i. visit upper ctx s mem true n i ps) jump n (suc n)))
        _
        (two_loops-by_one (λ i. visit upper ctx s mem false n i ps)
          (λ i. visit upper ctx s mem true n i ps) jump ctx.min_length (n - ctx.diff) n
          (omega arith) (λ i t inside. visit-unchecked n i ps t fit inside)
          (λ i. ready.jump_pos (get_or s i 0))
          (λ i e t mi ie short inside. visit-quiet true n i e ps t fit mi ie short) (suc n)
          ctx.min_length nothing (omega arith) (omega arith) (omega arith))
      ∙ by_one-reference ps fit (All-downwards (Stops upper ctx s mem) 0 ctx.patterns guard)

  module _ (p : Bytes) (fit : Fits upper ctx (0, p)) (whole : length p ≡ ctx.min_length + 1) where
    abbrev same : ℕ → ℕ → Bool
    same = same_char upper (ctx.exact_mask 0)

    visit_one-test_one :
        (o : ℕ) (u : Unit {0})
        → o + ctx.min_length < length s
        → visit_one upper ctx s p (o + ctx.min_length) u ≡ as_round (test_one same p (drop o s) u)
    unfolding visit_one test_one
    visit_one-test_one o u inside =
        let m = ctx.min_length in
        let back = match_back-Agree same p s o m (o + m) refl in
        let front = starts_with-Agree same p s o in
        let same_tests : match_back same p s m (o + m) ≡ starts_with same p (drop o s) =
          same_truth _ _
            (λ h.
              front.1 (omega (arith, inside, whole), λ j lt. back.0 h j (omega (arith, lt, whole))))
            (λ h. back.1 (λ j lt. (front.0 h).1 j (omega (arith, lt, whole)))) in
        ap (λ b. if b then found else onward tt) same_tests
        ∙ as_round-if (starts_with same p (drop o s))

    test_one-short :
        (o : ℕ) (u : Unit {0})
        → length s ≤ o + ctx.min_length
        → test_one same p (drop o s) u ≡ some u
    unfolding test_one
    test_one-short o u short = rw (too_short upper ctx s same p o fit.1.0 short) refl

    visit_one-quiet :
        (i e : ℕ) (u : Unit {0})
        → ctx.min_length ≤ i
        → i < e
        → e < i + jump i
        → visit_one upper ctx s p e u ≡ onward u
    unfolding visit_one
    visit_one-quiet i e u mi ie short =
        let none_here =
          no_match same ctx.min_length ctx.shift p s fit.0 ready.jump_le ctx.min_length i e e
            (omega arith) (omega (arith, whole)) (omega (arith)) mi ie short in
        rw none_here refl

    pub search_one-reference :
        answer upper ctx s (search_one upper ctx s p (length s))
        ≡ placed upper ctx s (tries (test_one same p) s 0 tt)
    unfolding search_one
    search_one-reference =
        let n = length s in
        same_answer _ _ (
          loop-by_one (visit_one upper ctx s p) n jump ctx.min_length
            (λ i. ready.jump_pos (get_or s i 0))
            (λ i e u mi ie short inside. visit_one-quiet i e u mi ie short) (suc n) ctx.min_length
            tt (omega arith) (omega arith) (omega arith))
        ∙ ap (λ i. answer upper ctx s (loop (visit_one upper ctx s p) by_one n (suc n) i tt))
            (omega arith)
        ∙ loop-tries upper ctx s (visit_one upper ctx s p) (test_one same p) visit_one-test_one
            test_one-short s 0 tt refl
