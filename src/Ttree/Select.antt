-- ===== src/Ttree/Select.antt =====
-- ttree.cxx, `dbTtree::find`: what a search selects.
use post.Prelude.{
  ℕ, zero, suc, ◌+◌, ◌≡◌, ◌∙◌, refl, sym, ap, Bool, true, false, not, ◌&&◌, Option, none, some,
  List, [], ◌∷◌, ◌++◌, append_assoc, append-nil, if◌then◌else◌, ◌==◌, Bool-cases, inl, inr, ◌⊎◌,
  arith, length, take, Ordering, ne→==,
}
use post.Ttree.{Ttree, Query, Found, record_match, push, too_small, too_large, scan, find, objects}
use post.Ttree.Skip.{Falls, skip, Fails, Fails-behind}
use post.Ttree.Find.{Full, node_find-walk}

unfoldable pub select : (ℕ → Bool) → List ℕ → List ℕ
select test [] = []
select test (x ∷ xs) = let rest = select test xs in if test x then x ∷ rest else rest

-- the first matches up to a limit; 0 is no limit
abbrev pub cut : ℕ → List ℕ → List ℕ
cut zero xs = xs
cut (suc n) xs = take (suc n) xs

abbrev last_or : ℕ → List ℕ → ℕ
last_or d [] = d
last_or d (x ∷ xs) = last_or x xs

-- the search context after the matches `xs`
abbrev pub result : Bool → List ℕ → Found
result buffered xs = record {
  buffer = if buffered then some xs else none;
  n_matches = length xs;
  last_match = last_or 0 xs;
}

-- each match recorded in turn
report : List ℕ → Found → Found
report [] s = s
report (x ∷ xs) s = report xs (record_match x s)

abbrev appended : Option (List ℕ) → List ℕ → Option (List ℕ)
appended none xs = none
appended (some b) xs = some (b ++ xs)

report_lem :
    (xs : List ℕ) (s : Found)
    → report xs s ≡ record {
      buffer = appended s.buffer xs;
      n_matches = s.n_matches + length xs;
      last_match = last_or s.last_match xs;
    }
unfolding report record_match
report_lem [] s =
    λ i. record { buffer = kept s.buffer i; n_matches = same i; last_match = s.last_match }
  where
    same : s.n_matches ≡ s.n_matches + 0
    same = omega arith

    kept : (b : Option (List ℕ)) → b ≡ appended b []
    kept none = refl
    kept (some b) = ap some (sym (append-nil b))
report_lem (x ∷ xs) s =
    report_lem xs (record_match x s)
    ∙ (λ i. record { buffer = pushed s.buffer i; n_matches = same i; last_match = last_or x xs })
  where
    same : s.n_matches + 1 + length xs ≡ s.n_matches + suc (length xs)
    same = omega arith

    pushed : (b : Option (List ℕ)) → appended (push x b) xs ≡ appended b (x ∷ xs)
    pushed none = refl
    pushed (some b) = ap some (append_assoc b (x ∷ []) xs)

zero-or-suc : (n : ℕ) → (n ≡ 0) ⊎ ((m : ℕ) × (n ≡ suc m))
zero-or-suc zero = inl refl
zero-or-suc (suc n) = inr (n, refl)

report-result :
    (buffered : Bool) (xs : List ℕ) → report xs (result buffered []) ≡ result buffered xs
report-result buffered xs =
    report_lem xs (result buffered [])
    ∙ (λ i. record { buffer = emptied buffered i; n_matches = same i; last_match = last_or 0 xs })
  where
    same : 0 + length xs ≡ length xs
    same = omega arith

    emptied : (b : Bool) → appended (if b then some [] else none) xs ≡ (if b then some xs else none)
    emptied true = refl
    emptied false = refl

module _ (compare : ℕ → ℕ → Ordering) (predicate : ℕ → Bool) (q : Query) where
  abbrev pub low : ℕ → Bool
  low = too_small compare predicate q

  -- not behind the last key
  abbrev pub early : ℕ → Bool
  early x = not (too_large compare predicate q x)

  abbrev fine : ℕ → Bool
  fine x = early x && predicate x

  -- between the keys, and the predicate holds
  abbrev pub wanted : ℕ → Bool
  wanted x = not (low x) && fine x

  select-none : (xs : List ℕ) → Fails early xs → select fine xs ≡ []
  unfolding select
  select-none [] h = refl
  select-none (x ∷ xs) h = rw h.0 (select-none xs h.1)

  scan-unlimited :
      (xs : List ℕ) (s : Found)
      → q.selection_limit ≡ 0
      → Falls early xs
      → (scan compare predicate q xs s).1 ≡ report (select fine xs) s
  unfolding scan select report
  scan-unlimited [] s n f = refl
  scan-unlimited (x ∷ xs) s n f = elim (Bool-cases (too_large compare predicate q x)) [
    | inl e ↦
        rw (e, scan)
          (sym (ap (λ l. report l s) (select-none xs (Fails-behind early x xs (rw e refl) f))))
    | inr e ↦ (elim (Bool-cases (predicate x)) [
      | inr g ↦ rw (e, g, scan) (scan-unlimited xs s n f.1)
      | inl g ↦
          let free : (suc s.n_matches == q.selection_limit) ≡ false =
            ne→== _ _ (omega (arith, n)) in
          rw (e, g, free, scan) (scan-unlimited xs (record_match x s) n f.1)
    ])
  ]

  scan-limited :
      (xs : List ℕ) (s : Found) (room : ℕ)
      → q.selection_limit ≡ s.n_matches + suc room
      → Falls early xs
      → (scan compare predicate q xs s).1 ≡ report (take (suc room) (select fine xs)) s
  unfolding scan select report
  scan-limited [] s room n f = refl
  scan-limited (x ∷ xs) s room n f = elim (Bool-cases (too_large compare predicate q x)) [
    | inl e ↦
        rw (e, scan)
          (sym (
            ap (λ l. report (take (suc room) l) s)
              (select-none xs (Fails-behind early x xs (rw e refl) f))))
    | inr e ↦ (elim (Bool-cases (predicate x)) [
      | inr g ↦ rw (e, g, scan) (scan-limited xs s room n f.1)
      | inl g ↦
          rw (e, g, scan)
            (elim (zero-or-suc room) [
              | inl z ↦
                  let last : (suc s.n_matches == q.selection_limit) ≡ true =
                    (rw (n, z) (ground arith)) in
                  rw (last, z) refl
              | inr (r, k) ↦
                  let more : (suc s.n_matches == q.selection_limit) ≡ false =
                    ne→== _ _ (omega (arith, n, k)) in
                  rw (more, k) (scan-limited xs (record_match x s) r (rw (n, k) (omega arith)) f.1)
            ])
    ])
  ]

  agrees : (xs : List ℕ) → Fails low xs → select wanted xs ≡ select fine xs
  unfolding select
  agrees [] h = refl
  agrees (x ∷ xs) h = rw (h.0, agrees xs h.1) refl

  select-skip : (xs : List ℕ) → Falls low xs → select wanted xs ≡ select fine (skip low xs)
  unfolding select skip
  select-skip [] f = refl
  select-skip (x ∷ xs) f = elim (Bool-cases (low x)) [
    | inl e ↦ rw e (select-skip xs f.1)
    | inr e ↦ rw (e, agrees xs (Fails-behind low x xs e f)) refl
  ]

  Falls-skip : (xs : List ℕ) → Falls early xs → Falls early (skip low xs)
  unfolding skip
  Falls-skip [] f = tt
  Falls-skip (x ∷ xs) f = elim (Bool-cases (low x)) [
    | inl e ↦ rw e (Falls-skip xs f.1)
    | inr e ↦ rw e f
  ]

  scan-cut :
      (xs : List ℕ) (buffered : Bool)
      → Falls early xs
      → (scan compare predicate q xs (result buffered [])).1
        ≡ report (cut q.selection_limit (select fine xs)) (result buffered [])
  scan-cut xs buffered f =
      let reported = λ (n : ℕ). report (cut n (select fine xs)) (result buffered []) in
      elim (zero-or-suc q.selection_limit) [
        | inl z ↦ scan-unlimited xs (result buffered []) z f ∙ sym (ap reported z)
        | inr (r, k) ↦
            scan-limited xs (result buffered []) r (omega (arith, k)) f ∙ sym (ap reported k)
      ]

  -- A search of a tree whose nodes hold items, in an order that agrees with the search keys (behind
  -- an item that is not too small none is too small, and behind one that is too large all are),
  -- returns in order exactly the objects between the keys that satisfy the predicate, up to the
  -- limit if there is one, with their number and the last of them.
  pub find-select :
      (t : Ttree) (buffered : Bool)
      → Full t
      → Falls low (objects t)
      → Falls early (objects t)
      → find compare predicate q t buffered
        ≡ result buffered (cut q.selection_limit (select wanted (objects t)))
  unfolding find
  find-select t buffered full f g =
      let rest = skip low (objects t) in
      let selected = λ (xs : List ℕ). result buffered (cut q.selection_limit xs) in
      ap (λ o. o.1) (node_find-walk compare predicate q t (result buffered []) full f)
      ∙ scan-cut rest buffered (Falls-skip (objects t) g)
      ∙ report-result buffered (cut q.selection_limit (select fine rest))
      ∙ sym (ap selected (select-skip (objects t) f))
