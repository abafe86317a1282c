-- ===== src/Rtree/Insert/Tree.antt =====
-- rtree.cxx, `R_tree::insert`: the whole tree.
use post.Prelude.{
  ℕ, zero, suc, ◌+◌, ◌%◌, ◌≤◌, ◌≡◌, ◌⊎◌, Option, none, some, [], ◌∷◌, length, All, refl, subst,
  fun_ext, arith, true,
}
use post.Rtree.{Rectangle, inside, Page, Rtree, cover_from, new_root}
use post.Rtree.Search.{Records, records, flat, cover_from-inside}
use post.Rtree.Split.{Result, done, failed, no_seed, not_chosen, and_then}
use post.Rtree.Weight.{total, total-one}
use post.Rtree.Insert.{Split, object, page_insert, grown, root_insert, insert}
use post.Rtree.Insert.Pages.{
  IsBranch, IsIn, heft, item_heft, IsItem, InsertAnswer, heft-suc, covers, total-flat,
}
use post.Rtree.Insert.Answer.{Enough, page_insert-InsertAnswer, in_order, within}

-- A root in order: at most 186 branches, and at least 2 if it is no leaf, all in order.
abbrev pub IsRoot : (height : ℕ) → Page height → Type 0
IsRoot zero p = ⊥
IsRoot (suc zero) bs = length bs ≤ 186
IsRoot (suc (suc level)) bs = ((2 ≤ length bs) × (length bs ≤ 186)) × All (IsBranch (suc level)) bs

-- the objects below a root
unfoldable pub root_objects : (height : ℕ) → Option (Page height) → Records
unfolding flat records
root_objects height none = []
root_objects zero (some p) = []
root_objects (suc level) (some bs) = flat (records level) bs

unfoldable pub objects : Rtree → Records
unfolding root_objects
objects t = root_objects t.height t.root

abbrev pub InOrder : (height : ℕ) → Option (Page height) → Type 0
InOrder height none = height ≡ 0
InOrder height (some p) = IsRoot height p

-- A tree in order: its root is, and the number of records is that of the objects, in 32 bits.
abbrev pub IsRtree : Rtree → Type 0
IsRtree t = InOrder t.height t.root × (t.n_records ≡ length (objects t) % 4294967296)

-- the outcome of an insertion into a tree with the objects `before`
abbrev pub TreeAnswer : Rectangle → ℕ → Records → Result Rtree → Type 0
TreeAnswer r obj before (failed f) = (f ≡ no_seed) ⊎ (f ≡ not_chosen)
TreeAnswer r obj before (done t) =
    IsRtree t × ((f : Rectangle × ℕ → ℕ) → total f (objects t) ≡ total f before + f (r, obj))

pub all_leaves : (bs : Page 1) → All (IsBranch zero) bs
all_leaves [] = tt
all_leaves (b ∷ bs) = (tt, all_leaves bs)

pub root_branches :
    (level : ℕ) (bs : Page (suc level)) → IsRoot (suc level) bs → All (IsBranch level) bs
root_branches zero bs h = all_leaves bs
root_branches (suc level) bs h = h.1

pub root_room : (level : ℕ) (bs : Page (suc level)) → IsRoot (suc level) bs → length bs ≤ 186
root_room zero bs h = h
root_room (suc level) bs h = h.0.1

pub root-Enough : (level : ℕ) (bs : Page (suc level)) → IsRoot (suc level) bs → Enough level bs
root-Enough zero bs h = tt
root-Enough (suc level) bs h = omega (arith, h.0.0)

object-IsItem : (level : ℕ) (r : Rectangle) (obj : ℕ) → IsItem level r (object level obj)
object-IsItem zero r obj = tt
object-IsItem (suc level) r obj = object-IsItem level r obj

object_heft :
    (level : ℕ) (f : Rectangle × ℕ → ℕ) (r : Rectangle) (obj : ℕ)
    → item_heft level f r (object level obj) ≡ f (r, obj)
object_heft zero f r obj = refl
object_heft (suc level) f r obj = object_heft level f r obj

-- a larger page is a root as the one before was
still-IsRoot :
    (level : ℕ) (bs p : Page (suc level))
    → IsRoot (suc level) bs
    → length bs ≤ length p
    → length p ≤ 186
    → All (IsBranch level) p
    → IsRoot (suc level) p
still-IsRoot zero bs p h m n all = n
still-IsRoot (suc level) bs p h m n all = ((omega (arith, h.0.0), n), all)

pub in_all :
    (big : Rectangle) (level : ℕ) (bs : Page (suc level))
    → All (λ b. inside b.0 big ≡ true) bs
    → All (IsBranch level) bs
    → All (IsIn big level) bs
in_all big level [] h all = tt
in_all big level (b ∷ bs) h all = ((all.0, h.0), in_all big level bs h.1 all.1)

pub objects-heft :
    (f : Rectangle × ℕ → ℕ) (level : ℕ) (bs : Page (suc level))
    → total f (root_objects (suc level) (some bs)) ≡ total (heft level f) bs
unfolding root_objects
objects-heft f level bs = total-flat f (records level) bs

-- the count after one object more
tree-TreeAnswer :
    (r : Rectangle) (obj n : ℕ) (before : Records) (t : Rtree)
    → n ≡ length before % 4294967296
    → t.n_records ≡ (n + 1) % 4294967296
    → InOrder t.height t.root
    → ((f : Rectangle × ℕ → ℕ) → total f (objects t) ≡ total f before + f (r, obj))
    → TreeAnswer r obj before (done t)
tree-TreeAnswer r obj n before t c d h w =
    ((h, omega (arith, w (λ _. 1), total-one before, total-one (objects t))), w)

-- the root over two pages in order
pub new_root-IsRoot :
    (big : Rectangle) (level : ℕ) (p q : Page (suc level))
    → (93 ≤ length p) × (length p ≤ 186)
    → (93 ≤ length q) × (length q ≤ 186)
    → All (IsIn big level) p
    → All (IsIn big level) q
    → (root : Page (suc (suc level))) × ((new_root level p q ≡ some root)
        × (IsRoot (suc (suc level)) root
            × ((f : Rectangle × ℕ → ℕ)
                → total (heft (suc level) f) root
                  ≡ total (heft level f) p + total (heft level f) q)))
unfolding new_root
new_root-IsRoot big level p q m l good fine =
    let (a, (reads, (below, over))) = covers big p (omega arith) (within big level p good) in
    let (b, (reads', (below', over'))) = covers big q (omega arith) (within big level q fine) in
    (
      (a, p) ∷ (b, q) ∷ [],
      (
        rw (new_root, reads, reads') refl,
        (
          (
            (omega arith, omega arith),
            ((over, (m, in_order big level p good)), ((over', (l, in_order big level q fine)), tt)),
          ),
          λ f. omega (arith, heft-suc level f a p, heft-suc level f b q),
        ),
      ),
    )

grown-TreeAnswer :
    (r : Rectangle) (obj n level : ℕ) (big : Rectangle) (bs : Page (suc level))
    (o : Result (Split (Page level)))
    → IsRoot (suc level) bs
    → n ≡ length (root_objects (suc level) (some bs)) % 4294967296
    → InsertAnswer big level bs (λ f. f (r, obj)) o
    → TreeAnswer r obj
        (root_objects (suc level) (some bs))
        (and_then o (grown ((n + 1) % 4294967296) level))
unfolding grown objects
grown-TreeAnswer r obj n level big bs (failed f) h c k = k
grown-TreeAnswer r obj n level big bs (done (p, none)) h c (k, ((m, l), good)) =
    tree-TreeAnswer r obj n _
      (record { n_records = (n + 1) % 4294967296; height = suc level; root = some p }) c refl
      (still-IsRoot level bs p h m l (in_order big level p good))
      (λ f. omega (arith, k f, objects-heft f level p, objects-heft f level bs))
grown-TreeAnswer r obj n level big bs (done (p, some q)) h c (k, (m, (l, (good, fine)))) =
    let (root, (e, (top, w))) = new_root-IsRoot big level p q m l good fine in
    rw (grown, e)
      (tree-TreeAnswer r obj n _
        (record { n_records = (n + 1) % 4294967296; height = suc (suc level); root = some root }) c
        refl top
        (λ f. omega (arith, k f, w f, objects-heft f (suc level) root, objects-heft f level bs)))

root_insert-TreeAnswer :
    (r : Rectangle) (obj n height : ℕ) (root : Option (Page height))
    → InOrder height root
    → n ≡ length (root_objects height root) % 4294967296
    → TreeAnswer r obj
        (root_objects height root)
        (root_insert ((n + 1) % 4294967296) r obj height root)
unfolding root_insert objects root_objects records flat
root_insert-TreeAnswer r obj n height none h c =
    tree-TreeAnswer r obj n []
      (record { n_records = (n + 1) % 4294967296; height = 1; root = some ((r, obj) ∷ []) }) c refl
      (omega arith) (λ f. omega arith)
root_insert-TreeAnswer r obj n zero (some p) h c = absurd h
root_insert-TreeAnswer r obj n (suc level) (some bs) h c =
    let big = cover_from r bs in
    let (own, others) = cover_from-inside r bs in
    grown-TreeAnswer r obj n level big bs _ h c (
      subst (λ w. InsertAnswer big level bs w (page_insert level r (object level obj) bs))
        (fun_ext (λ f. object_heft level f r obj))
        (page_insert-InsertAnswer big level r (object level obj) bs (root-Enough level bs h)
          (root_room level bs h) own (object-IsItem level r obj)
          (in_all big level bs others (root_branches level bs h))))

-- An insertion into a tree in order leaves a tree in order, with the objects of before and the new
-- one under its rectangle, each as often (the sums agree for every weight of an object); or, in a
-- split, the seeds are not set, or the assertion on the chosen branch fails.
pub insert-TreeAnswer :
    (r : Rectangle) (obj : ℕ) (t : Rtree)
    → IsRtree t
    → TreeAnswer r obj (objects t) (insert r obj t)
unfolding insert objects
insert-TreeAnswer r obj t h = root_insert-TreeAnswer r obj t.n_records t.height t.root h.0 h.1
