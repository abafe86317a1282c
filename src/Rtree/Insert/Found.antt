-- ===== src/Rtree/Insert/Found.antt =====
-- rtree.cxx: `R_tree::search` of a tree in order, before and after `R_tree::insert`.
use post.Prelude.{
  ℕ, zero, suc, ◌+◌, ◌<◌, ◌≡◌, Option, none, some, List, [], ◌∷◌, length, All-imp, refl, ap, sym,
  ◌∙◌, subst, inl, inr, arith, ◌==◌, if◌then◌else◌, Bool-cases, ==_iff,
}
use post.Rtree.{Rectangle, overlaps, Page, Rtree, search}
use post.Rtree.Search.{Records, records, flat, hits, Covered, page_search-hits}
use post.Rtree.Split.{done}
use post.Rtree.Weight.{total, total-one}
use post.Rtree.Insert.{insert}
use post.Rtree.Insert.Pages.{IsBranch}
use post.Rtree.Insert.Tree.{
  IsRtree, InOrder, root_objects, objects, TreeAnswer, insert-TreeAnswer, root_branches,
}

pub branch-Covered : (level : ℕ) (b : Rectangle × Page level) → IsBranch level b → Covered level b
branch-Covered zero b h = tt
branch-Covered (suc level) (rect, bs) h =
    (h.0, All-imp (IsBranch level) (Covered level) (branch-Covered level) bs h.1.1)

no_records : (rs : Records) → length rs ≡ 0 → rs ≡ []
no_records [] h = refl
no_records (e ∷ rs) h = absurd (omega arith)

root_search :
    (r : Rectangle) (n height : ℕ) (root : Option (Page height))
    → InOrder height root
    → n ≡ length (root_objects height root)
    → search r (record { n_records = n; height = height; root = root })
      ≡ some (hits r (root_objects height root))
unfolding search root_objects hits
root_search r n height none h c = rw c refl
root_search r n zero (some p) h c = absurd h
root_search r n (suc level) (some bs) h c = elim (Bool-cases (n == 0)) [
  | inl e ↦ rw (search, e, no_records (flat (records level) bs) (sym c ∙ (==_iff n 0).0 e)) refl
  | inr e ↦
      rw (search, e)
        (ap some (
          page_search-hits level r bs (
            All-imp (IsBranch level) (Covered level) (branch-Covered level) bs
              (root_branches level bs h))))
]

-- A search of a tree in order, with fewer than 2 ^ 32 objects, reports exactly the objects whose
-- rectangles overlap the given one.
pub search-hits :
    (r : Rectangle) (t : Rtree)
    → IsRtree t
    → length (objects t) < 4294967296
    → search r t ≡ some (hits r (objects t))
unfolding objects
search-hits r t h below = root_search r t.n_records t.height t.root h.0 (omega (arith, h.1))

-- the weight of what is reported is that of the objects that overlap
total-hits :
    (r : Rectangle) (g : ℕ → ℕ) (rs : Records)
    → total g (hits r rs) ≡ total (λ e. if overlaps r e.0 then g e.1 else 0) rs
unfolding hits
total-hits r g [] = refl
total-hits r g (e ∷ rs) = elim (Bool-cases (overlaps r e.0)) [
  | inl o ↦ rw o (omega (arith, total-hits r g rs))
  | inr o ↦ rw o (omega (arith, total-hits r g rs))
]

-- After an insertion into a tree in order, with room for one more record in 32 bits, a search
-- reports what it has reported before, and the new object as well if the rectangles overlap: both
-- searches succeed, and the sums over the reports agree for every weight of an object.
pub search-insert :
    (r r' : Rectangle) (obj : ℕ) (t t' : Rtree)
    → IsRtree t
    → suc (length (objects t)) < 4294967296
    → insert r obj t ≡ done t'
    → (found : List ℕ) × ((found' : List ℕ) × ((search r' t ≡ some found)
          × ((search r' t' ≡ some found')
              × ((g : ℕ → ℕ)
                  → total g found' ≡ total g found + (if overlaps r' r then g obj else 0)))))
search-insert r r' obj t t' h room e =
    let (good, w) = subst (TreeAnswer r obj (objects t)) e (insert-TreeAnswer r obj t h) in
    (
      hits r' (objects t),
      (
        hits r' (objects t'),
        (
          search-hits r' t h (omega arith),
          (
            search-hits r' t' good
                (omega (arith, w (λ _. 1), total-one (objects t), total-one (objects t'))),
            λ g. omega (
              arith,
              total-hits r' g (objects t),
              total-hits r' g (objects t'),
              w (λ e. if overlaps r' e.0 then g e.1 else 0),
            ),
          ),
        ),
      ),
    )
