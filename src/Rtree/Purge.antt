-- ===== src/Rtree/Purge.antt =====
-- rtree.cxx: `R_page::purge` and `R_tree::purge`. The result are the objects that are deleted; the
-- pages all are.
use post.Prelude.{
  ℕ, zero, suc, ◌%◌, ◌≡◌, ◌≢◌, ◌∙◌, Bool, true, false, Option, none, some, List, [], ◌∷◌, ◌++◌, map,
  refl, sym, ap, arith, length, if◌then◌else◌,
}
use post.Rtree.{Rectangle, Page, Rtree, search}
use post.Rtree.Search.{Records, records, flat}
use post.Rtree.Split.{done, failed, out_of_range}
use post.Rtree.Insert.{insert}
use post.Rtree.Insert.Tree.{objects, root_objects, IsRtree}
use post.Rtree.Remove.{remove}

-- the loop over the branches, with what the call of a child deletes
unfoldable pub purge_branches : {A : Type 0} → (A → List ℕ) → List (Rectangle × A) → List ℕ
purge_branches call [] = []
purge_branches call (b ∷ bs) = call b.1 ++ purge_branches call bs

-- `R_page::purge`
unfoldable pub page_purge : (level : ℕ) → Bool → Page (suc level) → List ℕ
unfolding purge_branches
page_purge zero remove_leaves bs = if remove_leaves then purge_branches (λ obj. obj ∷ []) bs else []
page_purge (suc level) remove_leaves bs = purge_branches (page_purge level remove_leaves) bs

-- the call of it on the root
abbrev pub root_purge : (height : ℕ) → Bool → Page height → List ℕ
root_purge zero delete_leaves p = []
root_purge (suc level) delete_leaves bs = page_purge level delete_leaves bs

-- `R_tree::purge`
unfoldable pub purge : Bool → Rtree → Rtree × List ℕ
unfolding page_purge
purge delete_leaves t = elim t.root [
  | none ↦ (t, [])
  | some p ↦ (
    record { n_records = 0; height = t.height; root = none },
    root_purge t.height delete_leaves p,
  )
]

abbrev pub addresses : Records → List ℕ
addresses rs = map (λ (e : Rectangle × ℕ). e.1) rs

addresses-append : (xs ys : Records) → addresses (xs ++ ys) ≡ addresses xs ++ addresses ys
addresses-append [] ys = refl
addresses-append (x ∷ xs) ys = ap (λ l. x.1 ∷ l) (addresses-append xs ys)

branches_addresses :
    {A : Type 0} (call : A → List ℕ) (f : Rectangle × A → Records)
    → ((b : Rectangle × A) → call b.1 ≡ addresses (f b))
    → (bs : List (Rectangle × A)) → purge_branches call bs ≡ addresses (flat f bs)
unfolding purge_branches flat
branches_addresses call f each [] = refl
branches_addresses call f each (b ∷ bs) =
    rw (each b, branches_addresses call f each bs) (sym (addresses-append (f b) (flat f bs)))

page_addresses :
    (level : ℕ) (bs : Page (suc level))
    → page_purge level true bs ≡ addresses (flat (records level) bs)
unfolding page_purge records
page_addresses zero bs = branches_addresses (λ obj. obj ∷ []) (records zero) (λ b. refl) bs
page_addresses (suc level) bs =
    branches_addresses (page_purge level true) (records (suc level)) (λ b. page_addresses level b.1)
      bs

no_addresses :
    {A : Type 0} (call : A → List ℕ)
    → ((a : A) → call a ≡ [])
    → (bs : List (Rectangle × A)) → purge_branches call bs ≡ []
unfolding purge_branches
no_addresses call each [] = refl
no_addresses call each (b ∷ bs) = rw (each b.1) (no_addresses call each bs)

page_keeps : (level : ℕ) (bs : Page (suc level)) → page_purge level false bs ≡ []
unfolding page_purge
page_keeps zero bs = refl
page_keeps (suc level) bs = no_addresses (page_purge level false) (page_keeps level) bs

root_addresses :
    (delete_leaves : Bool) (height : ℕ) (p : Page height)
    → root_purge height delete_leaves p
      ≡ (if delete_leaves then addresses (root_objects height (some p)) else [])
unfolding root_objects
root_addresses true zero p = refl
root_addresses false zero p = refl
root_addresses true (suc level) bs = page_addresses level bs
root_addresses false (suc level) bs = page_keeps level bs

-- the tree that a purge leaves, if it had a root or no records
purged :
    (delete_leaves : Bool) (n height : ℕ) (root : Option (Page height))
    → n ≡ length (root_objects height root) % 4294967296
    → (purge delete_leaves (record { n_records = n; height = height; root = root })).0
      ≡ record { n_records = 0; height = height; root = none }
unfolding purge root_objects
purged delete_leaves n height none count =
    ap (λ m. record { n_records = m; height = height; root = none }) (count ∙ omega arith)
purged delete_leaves n height (some p) count = refl

deleted :
    (delete_leaves : Bool) (n height : ℕ) (root : Option (Page height))
    → (purge delete_leaves (record { n_records = n; height = height; root = root })).1
      ≡ (if delete_leaves then addresses (root_objects height root) else [])
unfolding purge root_objects
deleted true n height none = refl
deleted false n height none = refl
deleted delete_leaves n height (some p) = root_addresses delete_leaves height p

-- A purge of a tree in order deletes exactly the objects of the tree, in the order of the leaves and
-- each as often as it is stored, or none if the leaves are to be kept; and a search of the tree that
-- is left finds nothing.
pub purge-objects :
    (delete_leaves : Bool) (r : Rectangle) (t : Rtree)
    → IsRtree t
    → ((purge delete_leaves t).1 ≡ (if delete_leaves then addresses (objects t) else []))
      × (search r (purge delete_leaves t).0 ≡ some [])
unfolding search objects
purge-objects delete_leaves r t h = (
  deleted delete_leaves t.n_records t.height t.root,
  ap (search r) (purged delete_leaves t.n_records t.height t.root h.1),
)

-- An insertion into a tree that was in order and has been purged succeeds, and makes a tree in order
-- whose only object is the new one, under its rectangle, whatever the height was.
pub insert-purge :
    (delete_leaves : Bool) (r : Rectangle) (obj : ℕ) (t : Rtree)
    → IsRtree t
    → (after : Rtree) × ((insert r obj (purge delete_leaves t).0 ≡ done after)
        × (IsRtree after × (objects after ≡ (r, obj) ∷ [])))
unfolding insert objects root_objects records flat
insert-purge delete_leaves r obj t h = (
  record { n_records = 1; height = 1; root = some ((r, obj) ∷ []) },
  (
    ap (insert r obj) (purged delete_leaves t.n_records t.height t.root h.1),
    ((omega arith, refl), refl),
  ),
)

-- A removal from a tree of a height other than 0, in order until it has been purged, calls a method
-- through NULL: a purge leaves the height as it was.
pub remove-purge :
    (delete_leaves : Bool) (r : Rectangle) (obj : ℕ) (t : Rtree)
    → IsRtree t
    → t.height ≢ 0
    → remove r obj (purge delete_leaves t).0 ≡ failed out_of_range
unfolding remove objects
remove-purge delete_leaves r obj t h tall =
    rw (purged delete_leaves t.n_records t.height t.root h.1) (through_null t.height tall)
  where
    through_null :
        (height : ℕ)
        → height ≢ 0
        → remove r obj (record { n_records = 0; height = height; root = none })
          ≡ failed out_of_range
    through_null zero k = absurd (k refl)
    through_null (suc height) k = refl
