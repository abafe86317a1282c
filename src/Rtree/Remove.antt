-- ===== src/Rtree/Remove.antt =====
-- rtree.cxx: `R_page::remove` and `R_tree::remove`, with the list of the pages to reinsert.
pub mod Chain
pub mod Pages
pub mod Again
pub mod Reinsert
pub mod Tree
use post.Prelude.{
  ℕ, zero, suc, ◌+◌, ◌-◌, ◌%◌, Bool, true, false, ◌&&◌, not, Option, none, some, List, [], ◌∷◌, map,
  length, leb, ltb, ◌==◌, if◌then◌else◌, ◌⊎◌, inl, inr,
}
use post.Rtree.{Rectangle, Page, Rtree, overlaps, cover, new_root}
use post.Rtree.Split.{Branch, Result, done, failed, out_of_range, and_then, min_fill}
use post.Rtree.Insert.{Split, Item, page_insert}

-- A page to reinsert, of a level that is at most the given one.
abbrev pub Orphan : ℕ → Type 0
Orphan zero = ⊥
Orphan (suc level) = Page (suc level) ⊎ Orphan level

-- `reinsert_list`; `level` is 0 before it is set
pub record ReinsertList (top : ℕ) : Type 0 where
  pub chain : List (Orphan top)
  pub level : ℕ

abbrev pub no_orphans : {level : ℕ} → ReinsertList level
no_orphans = record { chain = []; level = 0 }

abbrev pub raised : (level : ℕ) → List (Orphan level) → List (Orphan (suc level))
raised level os = map inr os

-- the same list, seen from the level above
abbrev pub from_above : {level : ℕ} → ReinsertList level → ReinsertList (suc level)
from_above {level} l = record { chain = raised level l.chain; level = l.level }

-- The result of `R_page::remove`: false, with nothing changed; true, with the page and the list; or
-- a cover of an empty page.
pub data Removal (level : ℕ) : Type 0 where
  absent : Removal level
  removed : Page (suc level) → ReinsertList level → Removal level
  broken : Removal level

abbrev pub behind : {level : ℕ} → Rectangle × Page level → Removal level → Removal level
behind b absent = absent
behind b (removed p l) = removed (b ∷ p) l
behind b broken = broken

-- the loop over the branches of a leaf
unfoldable pub leaf_remove : ℕ → Page 1 → Removal zero
leaf_remove obj [] = absent
leaf_remove obj (b ∷ bs) =
    let rest = leaf_remove obj bs in if b.1 == obj then removed bs no_orphans else behind b rest

-- a branch whose page has lost the object; `rest` are the branches behind it
abbrev pub covered :
    {level : ℕ}
    → Page (suc level)
    → List (Branch (Page (suc level)))
    → ReinsertList level
    → Option Rectangle
    → Removal (suc level)
covered p rest l none = broken
covered p rest l (some rect) = removed ((rect, p) ∷ rest) (from_above l)

unfoldable pub refilled :
    {level : ℕ}
    → Page (suc level)
    → List (Branch (Page (suc level)))
    → ReinsertList level
    → Removal (suc level)
unfolding cover
refilled {level} p rest l =
    if leb min_fill (length p)
    then covered p rest l (cover p)
    else removed rest (record { chain = inl p ∷ raised level l.chain; level = level })

-- One round of the loop over the branches: the call of the child has the given result, and `others`
-- is that of the rounds that follow.
unfoldable pub visited :
    {level : ℕ}
    → Branch (Page (suc level))
    → List (Branch (Page (suc level)))
    → Removal level
    → Removal (suc level)
    → Removal (suc level)
unfolding refilled
visited b rest absent others = behind b others
visited b rest (removed p l) others = refilled p rest l
visited b rest broken others = broken

unfoldable pub branches_remove :
    {level : ℕ}
    → Rectangle
    → (Page (suc level) → Removal level)
    → Page (suc (suc level))
    → Removal (suc level)
unfolding visited overlaps
branches_remove r call [] = absent
branches_remove r call (b ∷ bs) =
    let others = branches_remove r call bs in
    if overlaps b.0 r then visited b bs (call b.1) others else behind b others

-- `R_page::remove`
unfoldable pub page_remove : (level : ℕ) → Rectangle → ℕ → Page (suc level) → Removal level
unfolding leaf_remove branches_remove
page_remove zero r obj bs = leaf_remove obj bs
page_remove (suc level) r obj bs = branches_remove r (page_remove level r obj) bs

-- The branches of a page to reinsert, as items to insert.
abbrev pub item_here : (level : ℕ) → Page level → Item level
item_here zero p = p
item_here (suc level) p = inl p

abbrev pub entries : (level : ℕ) → Orphan level → List (Rectangle × Item level)
entries zero o = absurd o
entries (suc level) (inl p) = map (λ b. (b.0, inr (item_here level b.1))) p
entries (suc level) (inr o) = map (λ b. (b.0, inr b.1)) (entries level o)

-- the level of the call of `R_page::insert` that stores an item
abbrev pub stored_at : (level : ℕ) → Item level → ℕ
stored_at zero obj = 1
stored_at (suc level) (inl p) = 1
stored_at (suc level) (inr item) = suc (stored_at level item)

-- a level with `g` levels more, and an item seen from there
abbrev pub above : ℕ → ℕ → ℕ
above zero level = level
above (suc g) level = suc (above g level)

abbrev pub lift : (g level : ℕ) → Item level → Item (above g level)
lift zero level item = item
lift (suc g) level item = inr (lift g level item)

-- the root of a tree whose height was `suc level` and has grown by `g`
pub record Root (level : ℕ) : Type 0 where
  pub g : ℕ
  pub page : Page (suc (above g level))

abbrev pub grow_root :
    {level : ℕ} (g : ℕ)
    → Page (suc (above g level))
    → Option (Page (suc (suc (above g level))))
    → Result (Root level)
grow_root g p none = failed out_of_range
grow_root g p (some root) = done (record { g = suc g; page = root })

unfoldable pub root_after : {level : ℕ} (g : ℕ) → Split (Page (above g level)) → Result (Root level)
unfolding new_root
root_after g (p, none) = done (record { g = g; page = p })
root_after {level} g (p, some q) = grow_root g p (new_root (above g level) p q)

-- One round of the inner loop. The level that is passed has to be the one that stores the branch in
-- a page of its own level; otherwise pages and objects are mixed.
unfoldable pub reinsert :
    {level : ℕ} → ℕ → Rectangle × Item level → Root level → Result (Root level)
unfolding page_insert root_after
reinsert {level} n b root =
    let item = lift root.g level b.1 in
    if suc (above root.g level) - n == stored_at (above root.g level) item
    then and_then (page_insert (above root.g level) b.0 item root.page) (root_after root.g)
    else failed out_of_range

unfoldable pub reinsert_all :
    {level : ℕ} → ℕ → List (Rectangle × Item level) → Root level → Result (Root level)
unfolding reinsert
reinsert_all n [] root = done root
reinsert_all n (b ∷ bs) root = and_then (reinsert n b root) (reinsert_all n bs)

-- the loop over the chain
unfoldable pub reinsert_chain :
    {level : ℕ} → ℕ → List (Orphan level) → Root level → Result (Root level)
unfolding reinsert_all
reinsert_chain n [] root = done root
reinsert_chain {level} n (o ∷ os) root =
    and_then (reinsert_all n (entries level o) root) (reinsert_chain (n - 1) os)

-- a root above the leaves with a single branch is replaced by the page of that branch
unfoldable pub lowered : ℕ → (level : ℕ) → Page (suc level) → Rtree
lowered n (suc level) ((rect, p) ∷ []) = record { n_records = n; height = suc level; root = some p }
lowered n level bs = record { n_records = n; height = suc level; root = some bs }

abbrev pub finished : {level : ℕ} → ℕ → Root level → Result (Bool × Rtree)
finished {level} n root = done (true, lowered n (above root.g level) root.page)

abbrev pub removed_from : ℕ → Rtree → (level : ℕ) → Removal level → Result (Bool × Rtree)
removed_from n t level absent = done (false, t)
removed_from n t level (removed p l) =
    and_then (reinsert_chain l.level l.chain (record { g = 0; page = p })) (finished n)
removed_from n t level broken = failed out_of_range

abbrev pub root_remove :
    ℕ → Rtree → Rectangle → ℕ → (height : ℕ) → Option (Page height) → Result (Bool × Rtree)
root_remove n t r obj zero root = done (false, t)
root_remove n t r obj (suc level) none = failed out_of_range
root_remove n t r obj (suc level) (some bs) = removed_from n t level (page_remove level r obj bs)

-- `R_tree::remove`
unfoldable pub remove : Rectangle → ℕ → Rtree → Result (Bool × Rtree)
unfolding page_remove reinsert_chain lowered
remove r obj t = root_remove ((t.n_records + 4294967295) % 4294967296) t r obj t.height t.root
