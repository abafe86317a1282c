-- ===== src/Rtree/Remove/Tree.antt =====
-- rtree.cxx, `R_tree::remove`: the whole tree.
use post.Prelude.{
  ℕ, zero, suc, ◌+◌, ◌%◌, ◌≡◌, ◌⊎◌, Bool, true, false, Option, none, some, List, [], ◌∷◌, length,
  All, refl, inl, inr, arith,
}
use post.Rtree.{Rectangle, inside, overlaps, Page, Rtree, cover_from}
use post.Rtree.Search.{cover_from-inside}
use post.Rtree.Split.{Result, done, failed, no_seed, not_chosen, and_then}
use post.Rtree.Weight.{total, total-one}
use post.Rtree.Insert.Pages.{IsBranch, IsIn, heft, heft-suc}
use post.Rtree.Insert.Answer.{in_order}
use post.Rtree.Insert.Tree.{
  IsRoot, IsRtree, InOrder, objects, root_objects, objects-heft, in_all, root_branches,
}
use post.Rtree.Remove.{
  ReinsertList, Removal, absent, removed, broken, Root, above, lowered, finished, removed_from,
  root_remove, remove,
}
use post.Rtree.Remove.Chain.{RemoveAnswer, Reaches, orphan_heft}
use post.Rtree.Remove.Pages.{page_remove-RemoveAnswer}
use post.Rtree.Remove.Again.{IsTop, RootAnswer, root_heft}
use post.Rtree.Remove.Reinsert.{reinsert_chain-RootAnswer}

-- The outcome of a removal of `obj` under `r` from a tree.
abbrev pub Removed : Rectangle → ℕ → Rtree → Result (Bool × Rtree) → Type 0
Removed r obj t (failed f) = (f ≡ no_seed) ⊎ (f ≡ not_chosen)
Removed r obj t (done (false, after)) =
    (after ≡ t) × All (λ e. overlaps e.0 r ≡ true → e.1 ≡ obj → ⊥) (objects t)
Removed r obj t (done (true, after)) =
    IsRtree after
    × ((rect : Rectangle) × ((f : _)
          → total f (objects after) + f (rect, obj) ≡ total f (objects t)))

-- a tree with the given root page, or with the only page below it
abbrev pub IsLowered : ℕ → (level : ℕ) → Page (suc level) → Rtree → Type 0
IsLowered n level bs t =
    InOrder t.height t.root
    × ((t.n_records ≡ n) × ((f : _) → total f (objects t) ≡ total (heft level f) bs))

branch-IsRoot :
    (level : ℕ) (rect : Rectangle) (p : Page (suc level))
    → IsBranch (suc level) (rect, p)
    → IsRoot (suc level) p
branch-IsRoot zero rect p h = h.1.0.1
branch-IsRoot (suc level) rect p h = ((omega (arith, h.1.0.0), h.1.0.1), h.1.1)

lowered-IsLowered :
    (n level : ℕ) (bs : Page (suc level))
    → IsTop level bs
    → IsLowered n level bs (lowered n level bs)
unfolding lowered objects
lowered-IsLowered n zero bs h = (h.1.0, (refl, λ f. objects-heft f zero bs))
lowered-IsLowered n (suc level) [] h = absurd (omega (arith, h.0))
lowered-IsLowered n (suc level) ((rect, p) ∷ []) h = (
  branch-IsRoot level rect p h.1.1.0,
  (refl, λ f. omega (arith, objects-heft f level p, heft-suc level f rect p)),
)
lowered-IsLowered n (suc level) (b ∷ c ∷ bs) h =
    (((omega arith, h.1.0), h.1.1), (refl, λ f. objects-heft f (suc level) (b ∷ c ∷ bs)))

-- the tree after the pages of the list have been inserted again
finished-Removed :
    (r rect : Rectangle) (obj level : ℕ) (t : Rtree) (root : Root level)
    (w : (Rectangle × ℕ → ℕ) → ℕ) (o : Result (Root level))
    → t.n_records ≡ length (objects t) % 4294967296
    → ((f : _) → root_heft level f root + (w f + f (rect, obj)) ≡ total f (objects t))
    → RootAnswer level root w o
    → Removed r obj t (and_then o (finished ((t.n_records + 4294967295) % 4294967296)))
finished-Removed r rect obj level t root w (failed f) count total_of h = h
finished-Removed r rect obj level t root w (done after) count total_of h =
    let n = (t.n_records + 4294967295) % 4294967296 in
    let smaller = lowered n (above after.g level) after.page in
    let (order, (number, v)) = lowered-IsLowered n (above after.g level) after.page h.0 in
    let same : (f : Rectangle × ℕ → ℕ)
        → total f (objects smaller) + f (rect, obj) ≡ total f (objects t) =
      λ f. omega (arith, v f, h.1 f, total_of f) in
    (
      (
        order,
        omega (
          arith,
          number,
          count,
          same (λ _. 1),
          total-one (objects smaller),
          total-one (objects t),
        ),
      ),
      (rect, same),
    )

-- the page that is left is a root to insert into
left-IsTop :
    (level : ℕ) (big : Rectangle) (bs p : Page (suc level)) (l : ReinsertList level)
    → IsRoot (suc level) bs
    → (length p ≡ length bs) ⊎ ((suc (length p) ≡ length bs) × Reaches level l)
    → All (IsIn big level) p
    → IsTop level p
left-IsTop zero big bs p l h (inl e) all = (tt, (omega (arith, h), in_order big zero p all))
left-IsTop zero big bs p l h (inr (e, k)) all = (tt, (omega (arith, h), in_order big zero p all))
left-IsTop (suc level) big bs p l h (inl e) all =
    (omega (arith, h.0.0), (omega (arith, h.0.1), in_order big (suc level) p all))
left-IsTop (suc level) big bs p l h (inr (e, k)) all =
    (omega (arith, h.0.0), (omega (arith, h.0.1), in_order big (suc level) p all))

removed_from-Removed :
    (r : Rectangle) (obj n level : ℕ) (big : Rectangle) (bs : Page (suc level)) (o : Removal level)
    → IsRoot (suc level) bs
    → n ≡ length (root_objects (suc level) (some bs)) % 4294967296
    → RemoveAnswer big level r obj bs o
    → let t : Rtree = record { n_records = n; height = suc level; root = some bs } in
      Removed r obj t (removed_from ((n + 4294967295) % 4294967296) t level o)
unfolding objects root_objects
removed_from-Removed r obj n level big bs absent h count k = (refl, k)
removed_from-Removed r obj n level big bs (removed p l) h count ((rect, w), (size, (c, all))) =
    finished-Removed r rect obj level (record { n_records = n; height = suc level; root = some bs })
      (record { g = 0; page = p }) (λ f. total (orphan_heft level f) l.chain) _ count
      (λ f. omega (arith, w f, objects-heft f level bs))
      (reinsert_chain-RootAnswer level l.level l.chain (record { g = 0; page = p }) c
        (left-IsTop level big bs p l h size all))
removed_from-Removed r obj n level big bs broken h count k = absurd k

-- a rectangle over the branches of a page
whole :
    {A : Type 0} (bs : List (Rectangle × A))
    → (big : Rectangle) × All (λ b. inside b.0 big ≡ true) bs
whole [] = (record { x_low = 0; y_low = 0; x_high = 0; y_high = 0 }, tt)
whole (b ∷ bs) = (cover_from b.0 bs, cover_from-inside b.0 bs)

root_remove-Removed :
    (r : Rectangle) (obj n height : ℕ) (root : Option (Page height))
    → InOrder height root
    → n ≡ length (root_objects height root) % 4294967296
    → let t : Rtree = record { n_records = n; height = height; root = root } in
      Removed r obj t (root_remove ((n + 4294967295) % 4294967296) t r obj height root)
unfolding objects root_objects
root_remove-Removed r obj n zero none h count = (refl, tt)
root_remove-Removed r obj n zero (some p) h count = absurd h
root_remove-Removed r obj n (suc level) none h count = absurd (omega (arith, h))
root_remove-Removed r obj n (suc level) (some bs) h count =
    let (big, inside_big) = whole bs in
    removed_from-Removed r obj n level big bs _ h count (
      page_remove-RemoveAnswer big level r obj bs
        (in_all big level bs inside_big (root_branches level bs h)))

-- A removal from a tree in order that answers false changes nothing, and then no record of the
-- object has a rectangle that overlaps the given one. One that answers true leaves a tree in order,
-- with one record less: one of the object (the sums agree for every weight of a record). Otherwise a
-- branch that is inserted again has met the failure of a split. No page is reinserted at a wrong
-- level.
pub remove-Removed :
    (r : Rectangle) (obj : ℕ) (t : Rtree) → IsRtree t → Removed r obj t (remove r obj t)
unfolding remove objects
remove-Removed r obj t h = root_remove-Removed r obj t.n_records t.height t.root h.0 h.1
