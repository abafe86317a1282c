-- ===== src/Text/Ready.antt =====
-- textobj.cxx: the contexts that the constructor makes.
use post.Prelude.{
  ℕ, suc, ◌+◌, ◌-◌, ◌≤◌, ◌<◌, ◌≡◌, refl, sym, ap, Bool, true, false, ◌||◌, Option, none, some, List,
  [], ◌∷◌, map, if◌then◌else◌, ltb, ◌==◌, arith, length, All,
}
use post.Text.{
  Bytes, Mask, SearchCtx, upwards, converted, shifts, create, min_len, max_len, some_empty,
  max_patterns, same_char,
}
use post.Text.Shift.{Safe, CaseFold, shifts-Safe, shifts-pos, shifts-le}
use post.Text.Outcome.{IsReady}

length-map : (f : ℕ → ℕ) (p : Bytes) → length (map f p) ≡ length p
length-map f [] = refl
length-map f (c ∷ p) = ap suc (length-map f p)

module _ (upper lower : ℕ → ℕ) (exact : Mask) where
  length-converted : (b : Bool) (p : Bytes) → length (if b then p else map upper p) ≡ length p
  length-converted true p = refl
  length-converted false p = length-map upper p

  min_len-converted :
      (k : ℕ) (ps : List Bytes) → min_len (converted upper lower exact k ps) ≡ min_len ps
  unfolding converted
  min_len-converted k [] = refl
  min_len-converted k (p ∷ ps) =
      rw (length-converted (exact k) p, min_len-converted (suc k) ps) refl

  max_len-converted :
      (k : ℕ) (ps : List Bytes) → max_len (converted upper lower exact k ps) ≡ max_len ps
  unfolding converted
  max_len-converted k [] = refl
  max_len-converted k (p ∷ ps) =
      rw (length-converted (exact k) p, max_len-converted (suc k) ps) refl

  -- the lengths of the converted patterns lie between the shortest and the longest
  lengths :
      (m d k : ℕ) (shift : ℕ → ℕ) (ps : List Bytes)
      → some_empty ps ≡ false
      → m ≤ min_len ps
      → max_len ps ≤ m + d
      → All
          (λ e. Safe (same_char upper (exact e.0)) m shift e.1)
          (upwards k (converted upper lower exact k ps))
      → All
          (λ e.
            Safe (same_char upper (exact e.0)) m shift e.1
            × ((m < length e.1) × (length e.1 ≤ m + d + 1)))
          (upwards k (converted upper lower exact k ps))
  unfolding converted
  lengths m d k shift [] full low high safe = tt
  lengths m d k shift ([] ∷ ps) full low high safe = absurd (cc)
  lengths m d k shift ((c ∷ p) ∷ ps) full low high safe =
      let same = length-converted (exact k) (c ∷ p) in
      (
        (safe.0, (omega (arith, same, low), omega (arith, same, high))),
        lengths m d (suc k) shift ps full (omega (arith, low)) (omega (arith, high)) safe.1,
      )

-- the assertions of the constructor
unfoldable pub refuses : List Bytes → Bool
refuses patterns =
    length patterns == 0 || (ltb max_patterns (length patterns) || some_empty patterns)

-- what the constructor answers
abbrev pub CreateAnswer : (ℕ → ℕ) → (ℕ → ℕ) → List Bytes → Mask → Mask → Option SearchCtx → Type 0
CreateAnswer upper lower patterns and_mask exact none = refuses patterns ≡ true
CreateAnswer upper lower patterns and_mask exact (some ctx) =
    (refuses patterns ≡ false)
    × (IsReady upper ctx
        × ((ctx.patterns ≡ converted upper lower exact 0 patterns)
            × ((ctx.exact_mask ≡ exact) × ((ctx.and_mask ≡ and_mask) × (ctx.start ≡ 0)))))

module _ (upper lower : ℕ → ℕ) (patterns : List Bytes) (and_mask exact : Mask)
    (fold : CaseFold upper lower) (short : max_len patterns < 1000000000) where
  unfoldable pub context : SearchCtx
  context = record {
    shift = shifts upper lower exact (min_len patterns) (converted upper lower exact 0 patterns);
    min_length = min_len patterns;
    diff = max_len patterns - min_len patterns;
    patterns = converted upper lower exact 0 patterns;
    exact_mask = exact;
    and_mask = and_mask;
    start = 0;
  }

  pub context-IsReady : refuses patterns ≡ false → IsReady upper context
  unfolding context refuses
  context-IsReady e =
      let m = min_len patterns in
      let ps = converted upper lower exact 0 patterns in
      let full : some_empty patterns ≡ false = ground (arith, e) in
      record {
        patterns_fit =
            lengths upper lower exact m (max_len patterns - m) 0 (shifts upper lower exact m ps)
              patterns full (omega arith) (omega arith) (shifts-Safe upper lower fold exact m ps);
        jump_le = shifts-le upper lower fold exact m ps;
        jump_pos = shifts-pos upper lower fold exact m ps;
        shortest = sym (min_len-converted upper lower exact 0 patterns);
        longest = rw (max_len-converted upper lower exact 0 patterns) short;
      }

  chosen :
      (b : Bool)
      → refuses patterns ≡ b
      → CreateAnswer upper lower patterns and_mask exact (if b then none else some context)
  unfolding context
  chosen true e = e
  chosen false e = (e, (context-IsReady e, (refl, (refl, (refl, refl)))))

  -- For patterns shorter than 10^9 characters, and case conversions such that every character is its
  -- upper case or the lower case of that, the constructor fails an assertion exactly if there are no
  -- patterns, more than 32, or an empty one. Otherwise the context holds the converted patterns and
  -- the masks and starts at the beginning; no jump of its table passes the end of a pattern that
  -- could still match, and every jump is by 1 up to the length of the shortest pattern.
  pub create-IsReady :
      CreateAnswer upper lower patterns and_mask exact (create upper lower patterns and_mask exact)
  unfolding create context refuses
  create-IsReady = chosen (refuses patterns) refl
