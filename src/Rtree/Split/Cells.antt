-- ===== src/Rtree/Split/Cells.antt =====
-- rtree.cxx, `split_page`: the branches of the page with `taken`, as the loops on the groups change
-- them.
use post.Prelude.{
  ℕ, zero, suc, ◌+◌, ◌≡◌, Option, none, some, List, [], ◌∷◌, map, All, refl, ap, arith,
}
use mathlib.Core.Option
use mathlib.Core.Option.{some-injective}
use post.Rtree.Split.{at, Branch, Taken, untaken, moved, kept, mark, mark_kept, compact}
use post.Rtree.Weight.{total}

module _ {A : Type 0} where
  -- the weight of a branch if it is kept, and if it is not taken
  abbrev pub if_kept : (Branch A → ℕ) → Taken × Branch A → ℕ
  if_kept f (untaken, b) = 0
  if_kept f (moved, b) = 0
  if_kept f (kept, b) = f b

  abbrev pub if_loose : (Branch A → ℕ) → Taken × Branch A → ℕ
  if_loose f (untaken, b) = f b
  if_loose f (moved, b) = 0
  if_loose f (kept, b) = 0

  abbrev pub one : Branch A → ℕ
  one b = 1

  pub total-mark :
      (g : Taken × Branch A → ℕ) (v : Taken) (k : ℕ) (cs : List (Taken × Branch A))
      (c : Taken × Branch A)
      → at k cs ≡ some c
      → total g (mark v k cs) + g c ≡ total g cs + g (v, c.1)
  total-mark g v k [] c h = absurd (cc)
  total-mark g v zero (x ∷ xs) c h = rw (some-injective x c h) (omega arith)
  total-mark g v (suc k) (x ∷ xs) c h = omega (arith, total-mark g v k xs c h)

  pub mark-All :
      (P : Branch A → Type 0) (v : Taken) (k : ℕ) (cs : List (Taken × Branch A))
      → All (λ c. P c.1) cs
      → All (λ c. P c.1) (mark v k cs)
  mark-All P v k [] h = tt
  mark-All P v zero (x ∷ xs) h = h
  mark-All P v (suc k) (x ∷ xs) h = (h.0, mark-All P v k xs h.1)

  -- the page with no branch taken
  abbrev pub fresh : List (Branch A) → List (Taken × Branch A)
  fresh bs = map (λ c. (untaken, c)) bs

  fresh-kept : (f : Branch A → ℕ) (bs : List (Branch A)) → total (if_kept f) (fresh bs) ≡ 0
  fresh-kept f [] = refl
  fresh-kept f (b ∷ bs) = omega (arith, fresh-kept f bs)

  fresh-loose :
      (f : Branch A → ℕ) (bs : List (Branch A)) → total (if_loose f) (fresh bs) ≡ total f bs
  fresh-loose f [] = refl
  fresh-loose f (b ∷ bs) = ap (λ n. f b + n) (fresh-loose f bs)

  fresh-All :
      (P : Branch A → Type 0) (bs : List (Branch A)) → All P bs → All (λ c. P c.1) (fresh bs)
  fresh-All P [] h = tt
  fresh-All P (b ∷ bs) h = (h.0, fresh-All P bs h.1)

  pub mark_kept-kept :
      (f : Branch A → ℕ) (k : ℕ) (bs : List (Branch A)) (b : Branch A)
      → at k bs ≡ some b
      → total (if_kept f) (mark_kept k bs) ≡ f b
  mark_kept-kept f k [] b h = absurd (cc)
  mark_kept-kept f zero (x ∷ xs) b h = rw (some-injective x b h) (omega (arith, fresh-kept f xs))
  mark_kept-kept f (suc k) (x ∷ xs) b h = omega (arith, mark_kept-kept f k xs b h)

  pub mark_kept-loose :
      (f : Branch A → ℕ) (k : ℕ) (bs : List (Branch A)) (b : Branch A)
      → at k bs ≡ some b
      → total (if_loose f) (mark_kept k bs) + f b ≡ total f bs
  mark_kept-loose f k [] b h = absurd (cc)
  mark_kept-loose f zero (x ∷ xs) b h = rw (some-injective x b h) (omega (arith, fresh-loose f xs))
  mark_kept-loose f (suc k) (x ∷ xs) b h = omega (arith, mark_kept-loose f k xs b h)

  pub mark_kept-All :
      (P : Branch A → Type 0) (k : ℕ) (bs : List (Branch A))
      → All P bs
      → All (λ c. P c.1) (mark_kept k bs)
  mark_kept-All P k [] h = tt
  mark_kept-All P zero (x ∷ xs) h = (h.0, fresh-All P xs h.1)
  mark_kept-All P (suc k) (x ∷ xs) h = (h.0, mark_kept-All P k xs h.1)

  -- if no branch is left, none has a weight
  pub none_loose :
      (f : Branch A → ℕ) (cs : List (Taken × Branch A))
      → total (if_loose one) cs ≡ 0
      → total (if_loose f) cs ≡ 0
  none_loose f [] h = refl
  none_loose f ((untaken, b) ∷ cs) h = absurd (omega arith)
  none_loose f ((moved, b) ∷ cs) h = omega (arith, none_loose f cs (omega arith))
  none_loose f ((kept, b) ∷ cs) h = omega (arith, none_loose f cs (omega arith))

  none_kept :
      (f : Branch A → ℕ) (cs : List (Taken × Branch A))
      → total (if_kept one) cs ≡ 0
      → total (if_kept f) cs ≡ 0
  none_kept f [] h = refl
  none_kept f ((untaken, b) ∷ cs) h = omega (arith, none_kept f cs (omega arith))
  none_kept f ((moved, b) ∷ cs) h = omega (arith, none_kept f cs (omega arith))
  none_kept f ((kept, b) ∷ cs) h = absurd (omega arith)

  -- the list that the moving of the kept branches to the front has to leave there
  abbrev pub Compacted :
      (P : Branch A → Type 0) → List (Taken × Branch A) → Option (List (Branch A)) → Type 0
  Compacted P cs none = ⊥
  Compacted P cs (some l) = ((f : Branch A → ℕ) → total f l ≡ total (if_kept f) cs) × All P l

  skipped :
      (P : Branch A → Type 0) (cs : List (Taken × Branch A)) (o : Option (List (Branch A)))
      (c : Taken × Branch A)
      → ((f : Branch A → ℕ) → if_kept f c ≡ 0)
      → Compacted P cs o
      → Compacted P (c ∷ cs) o
  skipped P cs none c h k = k
  skipped P cs (some l) c h k = (λ f. omega (arith, k.0 f, h f), k.1)

  stored :
      (P : Branch A → Type 0) (cs : List (Taken × Branch A)) (o : Option (List (Branch A)))
      (b : Branch A)
      → P b
      → Compacted P cs o
      → Compacted P ((kept, b) ∷ cs) (Option.map (λ l. b ∷ l) o)
  stored P cs none b p k = k
  stored P cs (some l) b p k = (λ f. omega (arith, k.0 f), (p, k.1))

  pub compact-Compacted :
      (P : Branch A → Type 0) (n : ℕ) (cs : List (Taken × Branch A))
      → total (if_kept one) cs ≡ n
      → All (λ c. P c.1) cs
      → Compacted P cs (compact n cs)
  unfolding compact
  compact-Compacted P zero cs h all = (λ f. omega (arith, none_kept f cs h), tt)
  compact-Compacted P (suc n) [] h all = absurd (omega arith)
  compact-Compacted P (suc n) ((untaken, b) ∷ cs) h all =
      skipped P cs (compact (suc n) cs) (untaken, b) (λ f. omega arith)
        (compact-Compacted P (suc n) cs (omega arith) all.1)
  compact-Compacted P (suc n) ((moved, b) ∷ cs) h all =
      skipped P cs (compact (suc n) cs) (moved, b) (λ f. omega arith)
        (compact-Compacted P (suc n) cs (omega arith) all.1)
  compact-Compacted P (suc n) ((kept, b) ∷ cs) h all =
      stored P cs (compact n cs) b all.0 (compact-Compacted P n cs (omega arith) all.1)
