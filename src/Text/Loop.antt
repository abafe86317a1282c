-- ===== src/Text/Loop.antt =====
-- textobj.cxx, the loops `for (i = ...; i < n; i += d[s[i]])` beside those that go on by one.
use post.Prelude.{
  ℕ, zero, suc, ◌+◌, ◌-◌, ◌≤◌, ◌<◌, ◌≡◌, ◌∙◌, refl, sym, ap, ltb, Bool-cases, inl, inr, ◌⊎◌, arith,
  ltb→lt, ltb→le, lt→ltb, le→ltb,
}
use post.Text.{
  Round, found, onward, End, stopped, ended, out_of_fuel, overran, overrun, loop, then_loop,
}

abbrev pub by_one : ℕ → ℕ
by_one i = 1

-- how a search has ended, without the index at which it has found nothing
abbrev pub outcome : {S : Type 0} → End S → End S
outcome (stopped i) = stopped i
outcome (ended i s) = ended 0 s
outcome overrun = overrun
outcome out_of_fuel = out_of_fuel

module _ {S : Type 0} (round : ℕ → S → Round S) (n : ℕ) where
  module _ (jump : ℕ → ℕ) (f i : ℕ) (s : S) where
    pub loop_over : n ≤ i → loop round jump n (suc f) i s ≡ ended i s
    unfolding loop
    loop_over h = rw (le→ltb i n h) refl

    pub loop_onward :
        (t : S)
        → i < n
        → round i s ≡ onward t
        → loop round jump n (suc f) i s ≡ loop round jump n f (i + jump i) t
    unfolding loop
    loop_onward t h e = rw (lt→ltb i n h, e) refl

    pub loop_found : i < n → round i s ≡ found → loop round jump n (suc f) i s ≡ stopped i
    unfolding loop
    loop_found h e = rw (lt→ltb i n h, e) refl

    pub loop_overran : i < n → round i s ≡ overran → loop round jump n (suc f) i s ≡ overrun
    unfolding loop
    loop_overran h e = rw (lt→ltb i n h, e) refl

  pub Round-cases : (r : Round S) → (r ≡ found) ⊎ (((t : S) × (r ≡ onward t)) ⊎ (r ≡ overran))
  Round-cases found = inl refl
  Round-cases (onward t) = inr (inl (t, refl))
  Round-cases overran = inr (inr refl)

  -- any two amounts of fuel that are enough
  pub same_fuel :
      (f f' i : ℕ) (s : S)
      → 0 < f
      → n < i + f
      → 0 < f'
      → n < i + f'
      → loop round by_one n f i s ≡ loop round by_one n f' i s
  same_fuel zero f' i s h k h' k' = absurd (omega arith)
  same_fuel (suc f) zero i s h k h' k' = absurd (omega arith)
  same_fuel (suc f) (suc f') i s h k h' k' = elim (Bool-cases (ltb i n)) [
    | inr e ↦
        let over = ltb→le i n e in loop_over by_one f i s over ∙ sym (loop_over by_one f' i s over)
    | inl e ↦
        let lt = ltb→lt i n e in
        (elim (Round-cases (round i s)) [
          | inl r ↦ loop_found by_one f i s lt r ∙ sym (loop_found by_one f' i s lt r)
          | inr (inr r) ↦ loop_overran by_one f i s lt r ∙ sym (loop_overran by_one f' i s lt r)
          | inr (inl (t, r)) ↦
              loop_onward by_one f i s t lt r
              ∙ same_fuel f f' (i + 1) t (omega (arith, lt, k)) (omega (arith, k))
                  (omega (arith, lt, k')) (omega (arith, k'))
              ∙ sym (loop_onward by_one f' i s t lt r)
        ])
  ]

  -- one round that goes on, at the full fuel
  pub onward_full :
      (i : ℕ) (s t : S)
      → i < n
      → round i s ≡ onward t
      → loop round by_one n (suc n) i s ≡ loop round by_one n (suc n) (i + 1) t
  onward_full i s t lt r =
      loop_onward by_one n i s t lt r
      ∙ same_fuel n (suc n) (i + 1) t (omega (arith, lt)) (omega arith) (omega arith) (omega arith)

  -- rounds that change nothing
  idle :
      (d i : ℕ) (s : S)
      → ((e : ℕ) → i ≤ e → e < i + d → e < n → round e s ≡ onward s)
      → outcome (loop round by_one n (suc n) i s) ≡ outcome (loop round by_one n (suc n) (i + d) s)
  idle zero i s quiet = ap (λ j. outcome (loop round by_one n (suc n) j s)) (omega arith)
  idle (suc d) i s quiet = elim (Bool-cases (ltb i n)) [
    | inr e ↦
        let over = ltb→le i n e in
        ap outcome (loop_over by_one n i s over)
        ∙ sym (ap outcome (loop_over by_one n (i + suc d) s (omega (arith, over))))
    | inl e ↦
        let lt = ltb→lt i n e in
        ap outcome (onward_full i s s lt (quiet i (omega arith) (omega arith) lt))
        ∙ idle d (i + 1) s (λ k a b. quiet k (omega (arith, a)) (omega (arith, b)))
        ∙ ap (λ j. outcome (loop round by_one n (suc n) j s)) (omega arith)
  ]

  -- A loop that leaves out only rounds that change nothing ends as the one that goes on by one.
  pub loop-by_one :
      (jump : ℕ → ℕ) (low : ℕ)
      → ((i : ℕ) → 0 < jump i)
      → ((i e : ℕ) (s : S) → low ≤ i → i < e → e < i + jump i → e < n → round e s ≡ onward s)
      → (fuel i : ℕ) (s : S) → low ≤ i
      → 0 < fuel
      → n < i + fuel
      → outcome (loop round jump n fuel i s) ≡ outcome (loop round by_one n (suc n) i s)
  loop-by_one jump low pos quiet zero i s b h k = absurd (omega arith)
  loop-by_one jump low pos quiet (suc fuel) i s above h k = elim (Bool-cases (ltb i n)) [
    | inr e ↦
        let over = ltb→le i n e in
        ap outcome (loop_over jump fuel i s over ∙ sym (loop_over by_one n i s over))
    | inl e ↦
        let lt = ltb→lt i n e in
        let forward = pos i in
        (elim (Round-cases (round i s)) [
          | inl r ↦ ap outcome (loop_found jump fuel i s lt r ∙ sym (loop_found by_one n i s lt r))
          | inr (inr r) ↦
              ap outcome (loop_overran jump fuel i s lt r ∙ sym (loop_overran by_one n i s lt r))
          | inr (inl (t, r)) ↦
              ap outcome (loop_onward jump fuel i s t lt r)
              ∙ loop-by_one jump low pos quiet fuel (i + jump i) t (omega (arith, above))
                  (omega (arith, lt, k)) (omega (arith, k, forward))
              ∙ ap (λ j. outcome (loop round by_one n (suc n) j t)) (omega (arith, forward))
              ∙ sym (
                  idle (jump i - 1) (i + 1) t
                    (λ e a b c. quiet i e t above (omega (arith, a)) (omega (arith, b, forward)) c))
              ∙ sym (ap outcome (onward_full i s t lt r))
        ])
  ]

module _ {S : Type 0} (first round : ℕ → S → Round S) (jump : ℕ → ℕ) (low n₁ n : ℕ)
    (shorter : n₁ ≤ n) (same : (i : ℕ) (s : S) → i < n₁ → first i s ≡ round i s)
    (pos : (i : ℕ) → 0 < jump i)
    (quiet : (i e : ℕ) (s : S)
      → low ≤ i
      → i < e
      → e < i + jump i
      → e < n
      → round e s ≡ onward s) where
  -- Two loops in a row, the first with other rounds that do the same, end as the one that goes on
  -- by one.
  pub two_loops-by_one :
      (fuel i : ℕ) (s : S)
      → low ≤ i
      → 0 < fuel
      → n₁ < i + fuel
      → outcome (then_loop (loop first jump n₁ fuel i s) (loop round jump n (suc n)))
        ≡ outcome (loop round by_one n (suc n) i s)
  two_loops-by_one zero i s above h k = absurd (omega arith)
  two_loops-by_one (suc fuel) i s above h k = elim (Bool-cases (ltb i n₁)) [
    | inr e ↦
        ap (λ r. outcome (then_loop r (loop round jump n (suc n))))
          (loop_over first n₁ jump fuel i s (ltb→le i n₁ e))
        ∙ loop-by_one round n jump low pos quiet (suc n) i s above (omega arith) (omega arith)
    | inl e ↦
        let lt = ltb→lt i n₁ e in
        let inside : i < n = omega (arith, lt, shorter) in
        let forward = pos i in
        let go_on = λ (r : End S). outcome (then_loop r (loop round jump n (suc n))) in
        (elim (Round-cases first n₁ (first i s)) [
          | inl r ↦
              ap go_on (loop_found first n₁ jump fuel i s lt r)
              ∙ sym (ap outcome (loop_found round n by_one n i s inside (sym (same i s lt) ∙ r)))
          | inr (inr r) ↦
              ap go_on (loop_overran first n₁ jump fuel i s lt r)
              ∙ sym (ap outcome (loop_overran round n by_one n i s inside (sym (same i s lt) ∙ r)))
          | inr (inl (t, r)) ↦
              ap go_on (loop_onward first n₁ jump fuel i s t lt r)
              ∙ two_loops-by_one fuel (i + jump i) t (omega (arith, above)) (omega (arith, lt, k))
                  (omega (arith, k, forward))
              ∙ ap (λ j. outcome (loop round by_one n (suc n) j t)) (omega (arith, forward))
              ∙ sym (
                  idle round n (jump i - 1) (i + 1) t
                    (λ e a b c. quiet i e t above (omega (arith, a)) (omega (arith, b, forward)) c))
              ∙ sym (ap outcome (onward_full round n i s t inside (sym (same i s lt) ∙ r)))
        ])
  ]
