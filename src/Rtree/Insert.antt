-- ===== src/Rtree/Insert.antt =====
-- rtree.cxx and rtree.h: `add_branch`, `R_page::insert` and `R_tree::insert`. The result of a call
-- on a page is the page as the call leaves it, and the page returned, if it is not NULL.
pub mod Pages
pub mod Answer
pub mod Tree
pub mod Found
use post.Prelude.{
  ℕ, zero, suc, ◌+◌, ◌%◌, Option, none, some, List, [], ◌∷◌, ◌++◌, length, ltb, if◌then◌else◌, set,
  ◌⊎◌, inl, inr,
}
use post.Rtree.{Rectangle, Page, Rtree, plus, cover, new_root}
use post.Rtree.Area.{choose_branch}
use post.Rtree.Split.{Branch, Result, done, failed, out_of_range, and_then, at, card, split_page}

abbrev pub Split : Type 0 → Type 0
Split A = List (Branch A) × Option (List (Branch A))

-- `R_page::add_branch`
unfoldable pub add_branch : {A : Type 0} → Branch A → List (Branch A) → Result (Split A)
unfolding split_page
add_branch br bs =
    if ltb (length bs) card
    then done (bs ++ (br ∷ []), none)
    else and_then (split_page br bs) (λ pages. done (pages.0, some pages.1))

-- a use of a `cover`, for which the first branch of the page is read
abbrev pub with_cover : {B : Type 0} → Option Rectangle → (Rectangle → Result B) → Result B
with_cover none k = failed out_of_range
with_cover (some rect) k = k rect

-- What is done once the child of the branch `b` of index `i` has been inserted into.
unfoldable pub placed :
    {A : Type 0}
    → Rectangle
    → ℕ
    → Branch (List (Branch A))
    → List (Branch (List (Branch A)))
    → Split A
    → Result (Split (List (Branch A)))
unfolding add_branch cover plus
placed r i b bs (p, none) = done (set bs i (plus b.0 r, p), none)
placed r i b bs (p, some q) =
    with_cover (cover p)
      (λ rect. with_cover (cover q) (λ rect'. add_branch (rect', q) (set bs i (rect, p))))

abbrev pub descend :
    {A : Type 0}
    → Rectangle
    → ℕ
    → List (Branch (List (Branch A)))
    → (List (Branch A) → Result (Split A))
    → Option (Branch (List (Branch A)))
    → Result (Split (List (Branch A)))
descend r i bs call none = failed out_of_range
descend r i bs call (some b) = and_then (call b.1) (placed r i b bs)

-- What can be inserted into a page of a level: an object, or a page of some level below.
abbrev pub Item : ℕ → Type 0
Item zero = ℕ
Item (suc level) = Page (suc level) ⊎ Item level

abbrev pub object : (level : ℕ) → ℕ → Item level
object zero obj = obj
object (suc level) obj = inr (object level obj)

-- `R_page::insert`; the item tells how many levels the call descends
unfoldable pub page_insert :
    (level : ℕ) → Rectangle → Item level → Page (suc level) → Result (Split (Page level))
unfolding add_branch placed choose_branch
page_insert zero r obj bs = add_branch (r, obj) bs
page_insert (suc level) r (inl p) bs = add_branch (r, p) bs
page_insert (suc level) r (inr item) bs =
    let mini = choose_branch r bs in descend r mini bs (page_insert level r item) (at mini bs)

-- the tree after its root has been inserted into
unfoldable pub grown : ℕ → (height : ℕ) → Split (Page height) → Result Rtree
unfolding new_root
grown n height (p, none) = done (record { n_records = n; height = suc height; root = some p })
grown n height (p, some q) = elim (new_root height p q) [
  | none ↦ failed out_of_range
  | some root ↦ done (record { n_records = n; height = suc (suc height); root = some root })
]

-- an insertion into the root, of a height
unfoldable pub root_insert : ℕ → Rectangle → ℕ → (height : ℕ) → Option (Page height) → Result Rtree
unfolding page_insert grown
root_insert n r obj height none =
    done (record { n_records = n; height = 1; root = some ((r, obj) ∷ []) })
root_insert n r obj zero (some p) = failed out_of_range
root_insert n r obj (suc height) (some p) =
    and_then (page_insert height r (object height obj) p) (grown n height)

-- `R_tree::insert`
unfoldable pub insert : Rectangle → ℕ → Rtree → Result Rtree
unfolding root_insert
insert r obj t = root_insert ((t.n_records + 1) % 4294967296) r obj t.height t.root
