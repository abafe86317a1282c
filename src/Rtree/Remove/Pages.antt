-- ===== src/Rtree/Remove/Pages.antt =====
-- rtree.cxx, `R_page::remove`: the page, the list of pages to reinsert, and the object.
use post.Prelude.{
  ℕ, zero, suc, ◌≤◌, ◌≡◌, ◌⊎◌, [], ◌∷◌, length, All, All-imp, All-append, refl, ap, true, false,
  leb, ◌==◌, Bool-cases, inl, inr, arith, leb→le, leb→lt, ==_iff,
}
use post.Rtree.{Rectangle, inside, overlaps, Page}
use post.Rtree.Search.{records, flat, inside_trans, records-inside}
use post.Rtree.Split.{min_fill}
use post.Rtree.Insert.Pages.{IsBranch, IsIn, heft-suc, heft-zero, covers}
use post.Rtree.Insert.Answer.{in_order, within}
use post.Rtree.Insert.Tree.{in_all}
use post.Rtree.Insert.Found.{branch-Covered}
use post.Rtree.Remove.{
  ReinsertList, Removal, absent, removed, broken, behind, leaf_remove, refilled, visited,
  branches_remove, page_remove,
}
use post.Rtree.Remove.Chain.{Reaches, RemoveAnswer, map-heft, map-IsChain, clash, below_it}

module _ (big : Rectangle) (level : ℕ) (r : Rectangle) (obj : ℕ) where
  -- the object is not below a branch, or its rectangle is none that is looked for
  abbrev IsMissing : Rectangle × Page level → Type 0
  IsMissing b = All (λ e. overlaps e.0 r ≡ true → e.1 ≡ obj → ⊥) (records level b)

  behind-RemoveAnswer :
      (b : Rectangle × Page level) (bs : Page (suc level)) (o : Removal level)
      → IsIn big level b
      → IsMissing b
      → RemoveAnswer big level r obj bs o
      → RemoveAnswer big level r obj (b ∷ bs) (behind b o)
  unfolding flat
  behind-RemoveAnswer b bs absent h m k =
      All-append _ (records level b) (flat (records level) bs) m k
  behind-RemoveAnswer b bs (removed p l) h m ((rect, w), (inl e, (c, all))) =
      ((rect, λ f. omega (arith, w f)), (inl (ap suc e), (c, (h, all))))
  behind-RemoveAnswer b bs (removed p l) h m ((rect, w), (inr (e, d), (c, all))) =
      ((rect, λ f. omega (arith, w f)), (inr (ap suc e, d), (c, (h, all))))
  behind-RemoveAnswer b bs broken h m k = k

  -- what does not overlap a rectangle is not below it
  apart-IsMissing :
      (b : Rectangle × Page level) → IsBranch level b → overlaps b.0 r ≡ false → IsMissing b
  apart-IsMissing b h apart =
      All-imp (λ e. inside e.0 b.0 ≡ true) (λ e. overlaps e.0 r ≡ true → e.1 ≡ obj → ⊥)
        (λ e i o same. clash e.0 b.0 r i o apart) (records level b)
        (records-inside level b (branch-Covered level b h))

-- A page that has lost the object, below the branch `b`.
refilled-RemoveAnswer :
    (big : Rectangle) (level : ℕ) (r : Rectangle) (obj : ℕ) (b : Rectangle × Page (suc level))
    (bs : Page (suc (suc level))) (p : Page (suc level)) (l : ReinsertList level)
    → IsIn big (suc level) b
    → All (IsIn big (suc level)) bs
    → RemoveAnswer b.0 level r obj b.1 (removed p l)
    → RemoveAnswer big (suc level) r obj (b ∷ bs) (refilled p bs l)
unfolding refilled
refilled-RemoveAnswer big level r obj b bs p l h all ((rect, w), (size, (c, good))) =
    elim (Bool-cases (leb min_fill (length p))) [
      | inl e ↦
          let (cov, (reads, (below, over))) =
            covers b.0 p (omega (arith, leb→le _ _ e)) (within b.0 level p good) in
          rw (refilled, e, reads)
            (
              (
                rect,
                λ f. omega (
                  arith,
                  w f,
                  heft-suc level f cov p,
                  heft-suc level f b.0 b.1,
                  map-heft level f l.chain,
                ),
              ),
              (
                inl refl,
                (
                  map-IsChain level l.level l.chain c,
                  (
                    (
                      (
                        over,
                        (
                          (leb→le _ _ e, omega (arith, shorter size, h.0.1.0.1)),
                          in_order b.0 level p good,
                        ),
                      ),
                      inside_trans cov b.0 big below h.1,
                    ),
                    all,
                  ),
                ),
              ),
            )
      | inr e ↦
          rw (refilled, e)
            (
              (rect, λ f. omega (arith, w f, heft-suc level f b.0 b.1, map-heft level f l.chain)),
              (
                inr (refl, refl),
                (
                  (
                    refl,
                    (in_order b.0 level p good, below_it level l (reaches size e h.0.1.0.0) c),
                  ),
                  all,
                ),
              ),
            )
    ]
  where
    shorter :
        (length p ≡ length b.1) ⊎ ((suc (length p) ≡ length b.1) × Reaches level l)
        → length p ≤ length b.1
    shorter (inl e) = omega arith
    shorter (inr (e, k)) = omega arith

    reaches :
        (length p ≡ length b.1) ⊎ ((suc (length p) ≡ length b.1) × Reaches level l)
        → leb min_fill (length p) ≡ false
        → 93 ≤ length b.1
        → Reaches level l
    reaches (inl e) few least = absurd (omega (arith, leb→lt _ _ few))
    reaches (inr (e, k)) few least = k

visited-RemoveAnswer :
    (big : Rectangle) (level : ℕ) (r : Rectangle) (obj : ℕ) (b : Rectangle × Page (suc level))
    (bs : Page (suc (suc level))) (o : Removal level) (others : Removal (suc level))
    → IsIn big (suc level) b
    → All (IsIn big (suc level)) bs
    → RemoveAnswer b.0 level r obj b.1 o
    → RemoveAnswer big (suc level) r obj bs others
    → RemoveAnswer big (suc level) r obj (b ∷ bs) (visited b bs o others)
unfolding visited records
visited-RemoveAnswer big level r obj b bs absent others h all k rest =
    behind-RemoveAnswer big (suc level) r obj b bs others h k rest
visited-RemoveAnswer big level r obj b bs (removed p l) others h all k rest =
    refilled-RemoveAnswer big level r obj b bs p l h all k
visited-RemoveAnswer big level r obj b bs broken others h all k rest = absurd k

branches-RemoveAnswer :
    (big : Rectangle) (level : ℕ) (r : Rectangle) (obj : ℕ)
    (call : Page (suc level) → Removal level) (bs : Page (suc (suc level)))
    → ((b : Rectangle × Page (suc level))
        → IsBranch (suc level) b
        → RemoveAnswer b.0 level r obj b.1 (call b.1))
    → All (IsIn big (suc level)) bs
    → RemoveAnswer big (suc level) r obj bs (branches_remove r call bs)
unfolding branches_remove flat
branches-RemoveAnswer big level r obj call [] each all = tt
branches-RemoveAnswer big level r obj call (b ∷ bs) each all =
    let rest = branches-RemoveAnswer big level r obj call bs each all.1 in
    elim (Bool-cases (overlaps b.0 r)) [
      | inl e ↦
          rw (branches_remove, e)
            (visited-RemoveAnswer big level r obj b bs (call b.1) _ all.0 all.1 (each b all.0.0)
              rest)
      | inr e ↦
          rw (branches_remove, e)
            (behind-RemoveAnswer big (suc level) r obj b bs _ all.0
              (apart-IsMissing big (suc level) r obj b all.0.0 e) rest)
    ]

leaf-RemoveAnswer :
    (big r : Rectangle) (obj : ℕ) (bs : Page 1)
    → All (IsIn big zero) bs
    → RemoveAnswer big zero r obj bs (leaf_remove obj bs)
unfolding leaf_remove flat records
leaf-RemoveAnswer big r obj [] all = tt
leaf-RemoveAnswer big r obj (b ∷ bs) all = elim (Bool-cases (b.1 == obj)) [
  | inl e ↦
      rw (leaf_remove, e)
        (
          (
            b.0,
            λ f. omega (arith, heft-zero f b.0 b.1, ap (λ x. f (b.0, x)) ((==_iff b.1 obj).0 e)),
          ),
          (inr (refl, refl), (tt, all.1)),
        )
  | inr e ↦
      rw (leaf_remove, e)
        (behind-RemoveAnswer big zero r obj b bs _ all.0
          ((λ o same. let w = (==_iff b.1 obj).1 same in (cc)), tt)
          (leaf-RemoveAnswer big r obj bs all.1))
]

-- If the removal of an object below a page, whose branches are in order, answers false, no record of
-- the object has a rectangle that overlaps the given one. Otherwise the page and the pages to
-- reinsert hold all the records of before but one of the object (the sums agree for every weight of
-- a record), their branches are in order, and the levels of the pages to reinsert go down by one
-- from the level of the list. No cover of an empty page is read.
pub page_remove-RemoveAnswer :
    (big : Rectangle) (level : ℕ) (r : Rectangle) (obj : ℕ) (bs : Page (suc level))
    → All (IsIn big level) bs
    → RemoveAnswer big level r obj bs (page_remove level r obj bs)
unfolding page_remove
page_remove-RemoveAnswer big zero r obj bs all = leaf-RemoveAnswer big r obj bs all
page_remove-RemoveAnswer big (suc level) r obj bs all =
    branches-RemoveAnswer big level r obj (page_remove level r obj) bs
      (λ b h. page_remove-RemoveAnswer b.0 level r obj b.1 (in_all b.0 level b.1 h.0 h.1.1)) all
