-- ===== src/Ttree/Skip.antt =====
-- Lists on which a test falls from true to false once: what is skipped, and how the binary search
-- finds the place.
use post.Prelude.{
  ℕ, zero, suc, ◌≤◌, ◌<◌, ◌≡◌, refl, Bool, true, false, not, ◌||◌, List, [], ◌∷◌, ◌++◌,
  if◌then◌else◌, Bool-cases, inl, inr, arith, length, get_or, drop, All, All-append_left,
  All-append_right,
}

refuted : (a b : Bool) → (not b || a) ≡ true → a ≡ false → b ≡ false
refuted a b h e = ground arith

implied : (a b : Bool) → (not b || a) ≡ true → b ≡ true → a ≡ true
implied a b h e = ground arith

module _ (p : ℕ → Bool) where
  -- where the test holds for an element, it holds for all before it
  abbrev pub Falls : List ℕ → Type 0
  Falls [] = Unit
  Falls (x ∷ xs) = All (λ y. (not (p y) || p x) ≡ true) xs × Falls xs

  unfoldable pub skip : List ℕ → List ℕ
  skip [] = []
  skip (x ∷ xs) = let rest = skip xs in if p x then rest else x ∷ xs

  abbrev pub Holds : List ℕ → Type 0
  Holds xs = All (λ y. p y ≡ true) xs

  abbrev pub Fails : List ℕ → Type 0
  Fails xs = All (λ y. p y ≡ false) xs

  pub skip-append : (xs ys : List ℕ) → Holds xs → skip (xs ++ ys) ≡ skip ys
  unfolding skip
  skip-append [] ys h = refl
  skip-append (x ∷ xs) ys h = rw h.0 (skip-append xs ys h.1)

  pub skip-Fails : (xs : List ℕ) → Fails xs → skip xs ≡ xs
  unfolding skip
  skip-Fails [] h = refl
  skip-Fails (x ∷ xs) h = rw h.0 refl

  pub skip-front : (xs ys : List ℕ) → Fails ys → skip (xs ++ ys) ≡ skip xs ++ ys
  unfolding skip
  skip-front [] ys h = skip-Fails ys h
  skip-front (x ∷ xs) ys h = elim (Bool-cases (p x)) [
    | inl e ↦ rw e (skip-front xs ys h)
    | inr e ↦ rw e refl
  ]

  pub Falls-left : (xs ys : List ℕ) → Falls (xs ++ ys) → Falls xs
  Falls-left [] ys f = tt
  Falls-left (x ∷ xs) ys f = (All-append_left _ xs ys f.0, Falls-left xs ys f.1)

  pub Falls-right : (xs ys : List ℕ) → Falls (xs ++ ys) → Falls ys
  Falls-right [] ys f = f
  Falls-right (x ∷ xs) ys f = Falls-right xs ys f.1

  -- elements behind one at which the test fails
  pub Fails-behind : (x : ℕ) (xs : List ℕ) → p x ≡ false → Falls (x ∷ xs) → Fails xs
  Fails-behind x [] e f = tt
  Fails-behind x (y ∷ ys) e f = (refuted _ _ f.0.0 e, Fails-behind x ys e (f.0.1, f.1.1))

  -- elements before one at which the test holds
  pub Holds-before :
      (xs : List ℕ) (x : ℕ) (ys : List ℕ) → p x ≡ true → Falls (xs ++ x ∷ ys) → Holds xs
  Holds-before [] x ys e f = tt
  Holds-before (z ∷ xs) x ys e f =
      let here = (All-append_right _ xs (x ∷ ys) f.0).0 in
      (implied _ _ here e, Holds-before xs x ys e f.1)

  All-get_or : (P : ℕ → Type 0) (xs : List ℕ) (i : ℕ) → All P xs → i < length xs → P (get_or xs i 0)
  All-get_or P [] i h k = elim k [ ]
  All-get_or P (x ∷ xs) zero h k = h.0
  All-get_or P (x ∷ xs) (suc i) h k = All-get_or P xs i h.1 (omega arith)

  Falls-get_or :
      (xs : List ℕ) (i j : ℕ)
      → Falls xs
      → i ≤ j
      → j < length xs
      → p (get_or xs j 0) ≡ true
      → p (get_or xs i 0) ≡ true
  Falls-get_or [] i j f h k e = elim k [ ]
  Falls-get_or (x ∷ xs) zero zero f h k e = e
  Falls-get_or (x ∷ xs) zero (suc j) f h k e =
      let here = All-get_or _ xs j f.0 (omega arith) in implied _ _ here e
  Falls-get_or (x ∷ xs) (suc i) zero f h k e = absurd (omega arith)
  Falls-get_or (x ∷ xs) (suc i) (suc j) f h k e =
      Falls-get_or xs i j f.1 (omega arith) (omega arith) e

  -- the element at the end of the skipped part
  pub drop-skip :
      (xs : List ℕ) (k : ℕ)
      → k ≤ length xs
      → ((i : ℕ) → i < k → p (get_or xs i 0) ≡ true)
      → ((i : ℕ) → k ≤ i → i < length xs → p (get_or xs i 0) ≡ false)
      → drop k xs ≡ skip xs
  unfolding skip
  drop-skip [] zero h t f = refl
  drop-skip [] (suc k) h t f = refl
  drop-skip (x ∷ xs) zero h t f = rw (f 0 (omega arith) (omega arith)) refl
  drop-skip (x ∷ xs) (suc k) h t f = rw (t 0 (omega arith)) (
      drop-skip xs k (omega arith) (λ i g. t (suc i) (omega arith))
        (λ i g l. f (suc i) (omega arith) (omega arith)))

  -- the test at one index decides it at all indices before, or at all from there on
  pub decided :
      (xs : List ℕ) (m : ℕ)
      → Falls xs
      → m < length xs
      → ((i : ℕ) → i < suc m → p (get_or xs m 0) ≡ true → p (get_or xs i 0) ≡ true)
        × ((i : ℕ) → m ≤ i → i < length xs → p (get_or xs m 0) ≡ false → p (get_or xs i 0) ≡ false)
  decided xs m f h = (
    λ i g e. Falls-get_or xs i m f (omega arith) h e,
    λ i g l e. elim (Bool-cases (p (get_or xs i 0))) [
      | inr n ↦ n
      | inl y ↦ absurd (let z = Falls-get_or xs m i f g l y in cc)
    ],
  )

  -- the last element decides what is behind it, or all up to it
  pub Fails-behind_last :
      (x : ℕ) (xs ys : List ℕ)
      → p (get_or (x ∷ xs) (length xs) 0) ≡ false
      → Falls ((x ∷ xs) ++ ys)
      → Fails ys
  Fails-behind_last x [] ys e f = Fails-behind x ys e f
  Fails-behind_last x (z ∷ xs) ys e f = Fails-behind_last z xs ys e f.1

  pub Holds-last :
      (x : ℕ) (xs : List ℕ)
      → p (get_or (x ∷ xs) (length xs) 0) ≡ true
      → Falls (x ∷ xs)
      → Holds (x ∷ xs)
  Holds-last x [] e f = (e, tt)
  Holds-last x (z ∷ xs) e f = let h = Holds-last z xs e f.1 in (implied _ _ f.0.0 h.0, h)
