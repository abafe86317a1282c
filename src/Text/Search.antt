-- ===== src/Text/Search.antt =====
-- textobj.cxx, `search_ctx::search` beside the reference search.
use post.Prelude.{
  ℕ, zero, suc, not, if◌then◌else◌, ◌==◌, ◌+◌, ◌-◌, ◌≤◌, ◌<◌, ◌≡◌, ◌∙◌, refl, sym, ap, subst, Bool,
  true, false, ◌&&◌, ◌||◌, Option, none, some, [], ◌∷◌, ltb, ltb→lt, ltb→le, lt→ltb, Bool-cases,
  Option-cases, inl, inr, arith, length, get_or, drop, All,
}
use post.Text.{
  Bytes, Mask, SearchCtx, Round, found, onward, loop, match_back, same_char, Indexed, any_bit,
  max_patterns, covers, with_bit, hit, visit, answer, Memory, escapes, in_front, Answer, answered,
}
use post.Text.Loop.{by_one, onward_full, loop_over, loop_found}
use post.Text.Shift.{Safe}
use post.Text.Reference.{
  starts_with, tries, test_all, length-drop, drop-suc, match_back-Agree, starts_with-Agree,
}

pub same_truth : (a b : Bool) → (a ≡ true → b ≡ true) → (b ≡ true → a ≡ true) → a ≡ b
same_truth true b f g = sym (f refl)
same_truth false true f g = g refl
same_truth false false f g = refl

-- a test of the reference search as a round
abbrev pub as_round : {S : Type 0} → Option S → Round S
as_round none = found
as_round (some t) = onward t

never : (a : Bool) → (a ≡ true → ⊥) → a ≡ false
never true f = absurd (f refl)
never false f = refl

any_bit_none :
    (f g : Mask) (n : ℕ)
    → ((j : ℕ) → f j ≡ false → g j ≡ false)
    → any_bit n f ≡ false
    → any_bit n g ≡ false
any_bit_none f g zero fewer h = refl
any_bit_none f g (suc n) fewer h =
    let both = neither (f n) (any_bit n f) h in
    rw (fewer n both.0) (any_bit_none f g n fewer both.1)
  where
    neither : (a b : Bool) → (a || b) ≡ false → (a ≡ false) × (b ≡ false)
    neither a b h = ground arith

-- What one pattern covers on its own, it covers with those found before it.
pub covers-alone :
    (and_mask t : Mask) (k : ℕ)
    → covers and_mask (with_bit k t) ≡ false
    → covers and_mask (with_bit k (λ j. false)) ≡ false
covers-alone and_mask t k h = never (covers and_mask (with_bit k (λ j. false))) λ alone.
    let fewer =
      any_bit_none (λ j. and_mask j && not (with_bit k (λ i. false) j))
        (λ j. and_mask j && not (with_bit k t j)) max_patterns
        (λ j. still (and_mask j) (j == k) (t j)) (not_true _ alone) in
    clash (covers and_mask (with_bit k t)) h (ap not fewer)
  where
    still :
        (a b c : Bool)
        → (a && not (if b then true else false)) ≡ false
        → (a && not (if b then true else c)) ≡ false
    still a b c h = ground arith

    not_true : (a : Bool) → not a ≡ true → a ≡ false
    not_true a h = ground arith

    clash : (a : Bool) → a ≡ false → a ≡ true → ⊥
    clash a h k = absurd (cc)

-- A pattern of a safe table does not match where the table jumps over.
module _ (same : ℕ → ℕ → Bool) (m : ℕ) (shift : ℕ → ℕ) (p s : Bytes) (safe : Safe same m shift p)
    (jump_le : (c : ℕ) → shift c ≤ m + 1) where
  pub no_match :
      (l i e k : ℕ)
      → m ≤ l
      → l < length p
      → k ≡ e + l - m
      → m ≤ i
      → i < e
      → e < i + shift (get_or s i 0)
      → match_back same p s l k ≡ false
  no_match l i e k ml lp ke mi ie short = never (match_back same p s l k) λ h.
      let near = jump_le (get_or s i 0) in
      let o : k ≡ (e - m) + l = omega (arith, ke, mi, ie) in
      let agree = (match_back-Agree same p s (e - m) l k o).0 h in
      let at : (e - m) + (m + i - e) ≡ i = omega (arith, ie, mi, short, near) in
      let here =
        subst (λ x. same (get_or p (m + i - e) 0) (get_or s x 0) ≡ true) at
          (agree (m + i - e) (omega (arith, ie, ml))) in
      let far =
        safe (m + i - e) (get_or s i 0) (omega (arith, ie, short, near)) (omega (arith, ie, ml, lp))
          here in
      omega (arith, far, short, near, ie)

module _ (upper : ℕ → ℕ) (ctx : SearchCtx) (s : Bytes) where
  abbrev pub m : ℕ
  m = ctx.min_length

  abbrev pub Long : ℕ × Bytes → Type 0
  Long e = m < length e.1

  same_of : ℕ → ℕ → ℕ → Bool
  same_of k = same_char upper (ctx.exact_mask k)

  hit-starts_with :
      (o k : ℕ) (p : Bytes)
      → m < length p
      → o + m < length s
      → hit upper ctx s true (length s) (o + m) (k, p)
        ≡ starts_with (same_char upper (ctx.exact_mask k)) p (drop o s)
  unfolding hit
  hit-starts_with o k p long inside =
      let same = same_char upper (ctx.exact_mask k) in
      let l = length p - 1 in
      let e = o + m + l - m in
      let place : e ≡ o + l = omega arith in
      let by_back = match_back-Agree same p s o l e place in
      let by_front = starts_with-Agree same p s o in
      let whole : suc l ≡ length p = omega (arith, long) in
      same_truth _ _
        (λ h.
          let (a, b) =
            both3 (same (get_or p m 0) (get_or s (o + m) 0)) (ltb e (length s))
              (match_back same p s l e) h in
          let fits = ltb→lt e (length s) b.0 in
          by_front.1
            (omega (arith, fits, place, long), λ j lt. by_back.0 b.1 j (omega (arith, lt, whole))))
        (λ h.
          let (short, agree) = by_front.0 h in
          all3 (same (get_or p m 0) (get_or s (o + m) 0)) (ltb e (length s))
            (match_back same p s l e) (agree m long)
            (lt→ltb e (length s) (omega (arith, short, place, long, inside)))
            (by_back.1 (λ j lt. agree j (omega (arith, lt, whole)))))
    where
      both3 :
          (a b c : Bool)
          → (a && ((false || b) && c)) ≡ true
          → (a ≡ true) × ((b ≡ true) × (c ≡ true))
      both3 a b c h = ground arith

      all3 : (a b c : Bool) → a ≡ true → b ≡ true → c ≡ true → (a && ((false || b) && c)) ≡ true
      all3 a b c x y z = ground arith

  -- Where a pattern matches that does not cover the mask on its own, the comparison that goes on in
  -- front of it and of the place stops in the readable memory.
  abbrev pub Stops : Memory → ℕ × Bytes → Type 0
  Stops mem e =
      (o : ℕ)
      → covers ctx.and_mask (with_bit e.0 (λ j. false)) ≡ false
      → starts_with (same_char upper (ctx.exact_mask e.0)) e.1 (drop o s) ≡ true
      → escapes (same_char upper (ctx.exact_mask e.0)) (mem.before_pattern e.0)
          (in_front s o mem.before_text)
        ≡ false

  pub visit-test_all :
      (mem : Memory) (o : ℕ) (ps : Indexed) (t : Mask)
      → All (Stops mem) ps
      → All Long ps
      → o + m < length s
      → visit upper ctx s mem true (length s) (o + m) ps t
        ≡ as_round (test_all upper ctx.exact_mask ctx.and_mask ps (drop o s) t)
  unfolding visit test_all
  visit-test_all mem o [] t guard long inside = refl
  visit-test_all mem o ((k, p) ∷ ps) t guard long inside =
      let same = hit-starts_with o k p long.0 inside in
      elim (Bool-cases (starts_with (same_char upper (ctx.exact_mask k)) p (drop o s))) [
        | inr e ↦ rw (same, e, visit, test_all) (visit-test_all mem o ps t guard.1 long.1 inside)
        | inl e ↦ (elim (Bool-cases (covers ctx.and_mask (with_bit k t))) [
          | inl c ↦ rw (same, e, c, visit, test_all) refl
          | inr c ↦
              let place : o + m - m ≡ o = omega arith in
              let stop = guard.0 o (covers-alone ctx.and_mask t k c) e in
              rw (same, e, c, place, stop, visit, test_all)
                (visit-test_all mem o ps (with_bit k t) guard.1 long.1 inside)
        ])
      ]

  -- Behind the last place with room for the shortest pattern no pattern begins.
  pub too_short :
      (same : ℕ → ℕ → Bool) (p : Bytes) (o : ℕ)
      → m < length p
      → length s ≤ o + m
      → starts_with same p (drop o s) ≡ false
  too_short same p o long short =
      never (starts_with same p (drop o s)) λ h.
        let (fits, each) = (starts_with-Agree same p s o).0 h in omega (arith, fits, long, short)

  pub test_all-short :
      (o : ℕ) (ps : Indexed) (t : Mask)
      → All Long ps
      → length s ≤ o + m
      → test_all upper ctx.exact_mask ctx.and_mask ps (drop o s) t ≡ some t
  unfolding test_all
  test_all-short o [] t long short = refl
  test_all-short o ((k, p) ∷ ps) t long short =
      rw (too_short (same_char upper (ctx.exact_mask k)) p o long.0 short, test_all)
        (test_all-short o ps t long.1 short)

  -- the answer that belongs to a place
  abbrev pub placed : Option ℕ → Answer
  placed none = answered false (record ctx { start = 0 })
  placed (some o) = answered true (record ctx { start = ctx.start + o + 1 })

  -- The loop that goes on by one is the reference search.
  module _ {S : Type 0} (round : ℕ → S → Round S) (test : Bytes → S → Option S)
      (agree : (o : ℕ) (t : S) → o + m < length s → round (o + m) t ≡ as_round (test (drop o s) t))
      (short : (o : ℕ) (t : S) → length s ≤ o + m → test (drop o s) t ≡ some t) where
    tries_onward :
        (c : ℕ) (rest : Bytes) (o : ℕ) (t t' : S)
        → test (c ∷ rest) t ≡ some t'
        → tries test (c ∷ rest) o t ≡ tries test rest (suc o) t'
    unfolding tries
    tries_onward c rest o t t' e = rw (e, tries) refl

    tries_found :
        (c : ℕ) (rest : Bytes) (o : ℕ) (t : S)
        → test (c ∷ rest) t ≡ none
        → tries test (c ∷ rest) o t ≡ some o
    unfolding tries
    tries_found c rest o t e = rw (e, tries) refl

    pub loop-tries :
        (rest : Bytes) (o : ℕ) (t : S)
        → drop o s ≡ rest
        → answer upper ctx s (loop round by_one (length s) (suc (length s)) (o + m) t)
          ≡ placed (tries test rest o t)
    unfolding tries answer
    loop-tries [] o t e =
        let n : length s ≤ o + m =
          (let w = length-drop o s in let z = ap length e in omega (arith, w, z)) in
        ap (answer upper ctx s) (loop_over round (length s) by_one (length s) (o + m) t n)
    loop-tries (c ∷ rest) o t e = elim (Bool-cases (ltb (o + m) (length s))) [
      | inr b ↦
          let over = ltb→le (o + m) (length s) b in
          let quiet : test (c ∷ rest) t ≡ some t =
            subst (λ x. test x t ≡ some t) e (short o t over) in
          ap (answer upper ctx s) (loop_over round (length s) by_one (length s) (o + m) t over)
          ∙ sym (
              ap (answer upper ctx s)
                (loop_over round (length s) by_one (length s) (suc o + m) t (omega (arith, over))))
          ∙ loop-tries rest (suc o) t (drop-suc o s c rest e)
          ∙ sym (ap placed (tries_onward c rest o t t quiet))
      | inl b ↦
          let inside = ltb→lt (o + m) (length s) b in
          let same : round (o + m) t ≡ as_round (test (c ∷ rest) t) =
            agree o t inside ∙ ap (λ x. as_round (test x t)) e in
          (elim (Option-cases (test (c ∷ rest) t)) [
            | inl r ↦
                ap (answer upper ctx s) (
                  loop_found round (length s) by_one (length s) (o + m) t inside
                    (same ∙ ap as_round r))
                ∙ ap (λ k. answered true (record ctx { start = ctx.start + k + 1 })) (omega arith)
                ∙ sym (ap placed (tries_found c rest o t r))
            | inr (t', r) ↦
                ap (answer upper ctx s) (
                  onward_full round (length s) (o + m) t t' inside (same ∙ ap as_round r)
                  ∙ ap (λ k. loop round by_one (length s) (suc (length s)) k t') (omega arith))
                ∙ loop-tries rest (suc o) t' (drop-suc o s c rest e)
                ∙ sym (ap placed (tries_onward c rest o t t' r))
          ])
    ]
