-- ===== src/Text/Shift.antt =====
-- textobj.cxx, `search_ctx::search_ctx`: what the table `shift` says of each pattern.
use post.Prelude.{
  ℕ, zero, suc, ◌+◌, ◌≤◌, ◌<◌, ◌≡◌, Bool, true, false, ◌⊎◌, inl, inr, List, [], ◌∷◌, if◌then◌else◌,
  arith, length, get_or, All,
}
use post.Text.{
  Bytes, Mask, Fill, put, put_min, put_both, put_min_both, fill, fill_more, shifts, same_char,
  Indexed, upwards,
}

-- Behind a character that pattern `p` has at `j`, the table goes on by no more than to where that
-- place of the pattern meets it.
abbrev pub Safe : (ℕ → ℕ → Bool) → ℕ → (ℕ → ℕ) → Bytes → Type 0
Safe same m shift p =
    (j c : ℕ) → j < m → j < length p → same (get_or p j 0) c ≡ true → j + shift c ≤ m

-- what a change of the table for one character does
record Steps (same : ℕ → ℕ → Bool) (step : Fill) : Type 0 where
  lowers : (shift : ℕ → ℕ) (c v x : ℕ) → same c x ≡ true → step shift c v x ≤ v
  bounded : (shift : ℕ → ℕ) (c v x b : ℕ) → shift x ≤ b → v ≤ b → step shift c v x ≤ b
  positive : (shift : ℕ → ℕ) (c v x : ℕ) → 0 < shift x → 0 < v → 0 < step shift c v x

-- a change that makes no entry larger
Lowers : Fill → Type 0
Lowers step = (shift : ℕ → ℕ) (c v x : ℕ) → step shift c v x ≤ shift x

module _ (same : ℕ → ℕ → Bool) (step : Fill) (s : Steps same step) where
  fill-le :
      (p : Bytes) (shift : ℕ → ℕ) (left x b : ℕ)
      → shift x ≤ b
      → left ≤ b
      → fill step shift p left x ≤ b
  unfolding fill
  fill-le [] shift left x b h k = h
  fill-le (c ∷ p) shift zero x b h k = h
  fill-le (c ∷ p) shift (suc left) x b h k =
      fill-le p (step shift c (suc left)) left x b (s.bounded shift c (suc left) x b h k)
        (omega (arith, k))

  fill-pos : (p : Bytes) (shift : ℕ → ℕ) (left x : ℕ) → 0 < shift x → 0 < fill step shift p left x
  unfolding fill
  fill-pos [] shift left x h = h
  fill-pos (c ∷ p) shift zero x h = h
  fill-pos (c ∷ p) shift (suc left) x h =
      fill-pos p (step shift c (suc left)) left x (s.positive shift c (suc left) x h (omega arith))

  fill-Safe : (p : Bytes) (shift : ℕ → ℕ) (left : ℕ) → Safe same left (fill step shift p left) p
  unfolding fill
  fill-Safe [] shift left j c h k e = absurd (omega (arith, k))
  fill-Safe (a ∷ p) shift zero j c h k e = absurd (omega (arith, h))
  fill-Safe (a ∷ p) shift (suc left) zero c h k e =
      let first = s.lowers shift a (suc left) c e in
      let low = fill-le p (step shift a (suc left)) left c (suc left) first (omega arith) in
      omega (arith, low)
  fill-Safe (a ∷ p) shift (suc left) (suc j) c h k e =
      let rest =
        fill-Safe p (step shift a (suc left)) left j c (omega (arith, h)) (omega (arith, k)) e in
      omega (arith, rest)

fill-lower :
    (step : Fill)
    → Lowers step
    → (p : Bytes) (shift : ℕ → ℕ) (left x : ℕ) → fill step shift p left x ≤ shift x
unfolding fill Lowers
fill-lower step low [] shift left x = omega arith
fill-lower step low (c ∷ p) shift zero x = omega arith
fill-lower step low (c ∷ p) shift (suc left) x =
    let rest = fill-lower step low p (step shift c (suc left)) left x in
    let here = low shift c (suc left) x in omega (arith, rest, here)

-- what is needed of `toupper` and `tolower`: a character is its upper case, or the lower case of it
abbrev pub CaseFold : (ℕ → ℕ) → (ℕ → ℕ) → Type 0
CaseFold upper lower = (c : ℕ) → (c ≡ upper c) ⊎ (c ≡ lower (upper c))

module _ (upper lower : ℕ → ℕ) (fold : CaseFold upper lower) where
  put-Steps : Steps (same_char upper true) put
  put-Steps = record {
    lowers = λ shift c v x e. ground (arith, e);
    bounded = λ shift c v x b h k. ground (arith, h, k);
    positive = λ shift c v x h k. ground (arith, h, k);
  }

  put_min-Steps : Steps (same_char upper true) put_min
  put_min-Steps = record {
    lowers = λ shift c v x e. ground (arith, e);
    bounded = λ shift c v x b h k. ground (arith, h, k);
    positive = λ shift c v x h k. ground (arith, h, k);
  }

  put_both-Steps : Steps (same_char upper false) (put_both upper lower)
  put_both-Steps = record {
    lowers = λ shift c v x e. elim (fold x) [
      | inl w ↦ ground (arith, e, w)
      | inr w ↦ ground (arith, e, w)
    ];
    bounded = λ shift c v x b h k. ground (arith, h, k);
    positive = λ shift c v x h k. ground (arith, h, k);
  }

  put_min_both-Steps : Steps (same_char upper false) (put_min_both upper lower)
  put_min_both-Steps = record {
    lowers = λ shift c v x e. elim (fold x) [
      | inl w ↦ ground (arith, e, w)
      | inr w ↦ ground (arith, e, w)
    ];
    bounded = λ shift c v x b h k. ground (arith, h, k);
    positive = λ shift c v x h k. ground (arith, h, k);
  }

  step_of : Bool → Fill
  step_of exact = if exact then put else put_both upper lower

  more_step_of : Bool → Fill
  more_step_of exact = if exact then put_min else put_min_both upper lower

  step_of-Steps : (exact : Bool) → Steps (same_char upper exact) (step_of exact)
  unfolding step_of
  step_of-Steps true = put-Steps
  step_of-Steps false = put_both-Steps

  more_step_of-Steps : (exact : Bool) → Steps (same_char upper exact) (more_step_of exact)
  unfolding more_step_of
  more_step_of-Steps true = put_min-Steps
  more_step_of-Steps false = put_min_both-Steps

  more_step_of-Lowers : (exact : Bool) → Lowers (more_step_of exact)
  unfolding more_step_of Lowers
  more_step_of-Lowers true shift c v x = ground arith
  more_step_of-Lowers false shift c v x = ground arith

  Safe-le :
      (same : ℕ → ℕ → Bool) (m : ℕ) (shift low : ℕ → ℕ) (p : Bytes)
      → ((x : ℕ) → low x ≤ shift x)
      → Safe same m shift p
      → Safe same m low p
  Safe-le same m shift low p le s j c h k e =
      let a = le c in let b = s j c h k e in omega (arith, a, b)

  module _ (exact : Mask) (m : ℕ) where
    abbrev pub AllSafe : (ℕ → ℕ) → Indexed → Type 0
    AllSafe shift es = All (λ e. Safe (same_char upper (exact e.0)) m shift e.1) es

    fill_more-lower :
        (k : ℕ) (ps : List Bytes) (shift : ℕ → ℕ) (x : ℕ)
        → fill_more upper lower exact m k shift ps x ≤ shift x
    unfolding fill_more more_step_of
    fill_more-lower k [] shift x = omega arith
    fill_more-lower k (p ∷ ps) shift x =
        let now = fill (more_step_of (exact k)) shift p m in
        let rest = fill_more-lower (suc k) ps now x in
        let here =
          fill-lower (more_step_of (exact k)) (more_step_of-Lowers (exact k)) p shift m x in
        omega (arith, rest, here)

    fill_more-Safe :
        (k : ℕ) (ps : List Bytes) (shift : ℕ → ℕ)
        → AllSafe (fill_more upper lower exact m k shift ps) (upwards k ps)
    unfolding fill_more more_step_of
    fill_more-Safe k [] shift = tt
    fill_more-Safe k (p ∷ ps) shift =
        let now = fill (more_step_of (exact k)) shift p m in
        (
          Safe-le (same_char upper (exact k)) m now (fill_more upper lower exact m (suc k) now ps) p
              (fill_more-lower (suc k) ps now)
              (fill-Safe (same_char upper (exact k)) (more_step_of (exact k))
                (more_step_of-Steps (exact k)) p shift m),
          fill_more-Safe (suc k) ps now,
        )

    fill_more-pos :
        (k : ℕ) (ps : List Bytes) (shift : ℕ → ℕ) (x : ℕ)
        → 0 < shift x
        → 0 < fill_more upper lower exact m k shift ps x
    unfolding fill_more more_step_of
    fill_more-pos k [] shift x h = h
    fill_more-pos k (p ∷ ps) shift x h =
        fill_more-pos (suc k) ps (fill (more_step_of (exact k)) shift p m) x (
          fill-pos (same_char upper (exact k)) (more_step_of (exact k))
            (more_step_of-Steps (exact k)) p shift m x h)

    pub shifts-Safe : (ps : List Bytes) → AllSafe (shifts upper lower exact m ps) (upwards 0 ps)
    unfolding shifts step_of
    shifts-Safe [] = tt
    shifts-Safe (p ∷ ps) =
        let now = fill (step_of (exact 0)) (λ c. m + 1) p m in
        (
          Safe-le (same_char upper (exact 0)) m now (fill_more upper lower exact m 1 now ps) p
              (fill_more-lower 1 ps now)
              (fill-Safe (same_char upper (exact 0)) (step_of (exact 0)) (step_of-Steps (exact 0)) p
                (λ c. m + 1) m),
          fill_more-Safe 1 ps now,
        )

    pub shifts-pos : (ps : List Bytes) (x : ℕ) → 0 < shifts upper lower exact m ps x
    unfolding shifts step_of
    shifts-pos [] x = omega arith
    shifts-pos (p ∷ ps) x = fill_more-pos 1 ps (fill (step_of (exact 0)) (λ c. m + 1) p m) x (
        fill-pos (same_char upper (exact 0)) (step_of (exact 0)) (step_of-Steps (exact 0)) p
          (λ c. m + 1) m x (omega arith))

    pub shifts-le : (ps : List Bytes) (x : ℕ) → shifts upper lower exact m ps x ≤ m + 1
    unfolding shifts step_of
    shifts-le [] x = omega arith
    shifts-le (p ∷ ps) x =
        let now = fill (step_of (exact 0)) (λ c. m + 1) p m in
        let rest = fill_more-lower 1 ps now x in
        let here =
          fill-le (same_char upper (exact 0)) (step_of (exact 0)) (step_of-Steps (exact 0)) p
            (λ c. m + 1) m x (m + 1) (omega arith) (omega arith) in
        omega (arith, rest, here)
