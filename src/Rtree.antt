-- ===== src/Rtree.antt =====
-- rtree.h and rtree.cxx: rectangles, the pages of the R-tree and its search. A coordinate is kept
-- as its distance from the least `int`, which keeps the order, all that is used here.
pub mod Search
pub mod Area
pub mod Split
pub mod Weight
pub mod Insert
pub mod Remove
pub mod Purge
mod Tests
use post.Prelude.{
  ℕ, zero, suc, Bool, true, false, ◌&&◌, not, Option, none, some, List, [], ◌∷◌, ◌++◌, leb, ltb,
  min, max, ◌==◌, if◌then◌else◌, length,
}

-- `rectangle`, with `boundary` in its order
pub record Rectangle : Type 0 where
  pub x_low : ℕ
  pub y_low : ℕ
  pub x_high : ℕ
  pub y_high : ℕ

-- `operator +`, and `operator +=`
unfoldable pub plus : Rectangle → Rectangle → Rectangle
plus a b = record {
  x_low = if leb a.x_low b.x_low then a.x_low else b.x_low;
  y_low = if leb a.y_low b.y_low then a.y_low else b.y_low;
  x_high = if leb b.x_high a.x_high then a.x_high else b.x_high;
  y_high = if leb b.y_high a.y_high then a.y_high else b.y_high;
}

-- `operator &`
unfoldable pub overlaps : Rectangle → Rectangle → Bool
overlaps a b =
    if ltb b.y_high a.y_low
    then false
    else if ltb a.y_high b.y_low
    then false
    else if ltb b.x_high a.x_low
    then false
    else if ltb a.x_high b.x_low
    then false
    else true

-- `operator <=`
unfoldable pub inside : Rectangle → Rectangle → Bool
inside a b =
    if ltb a.y_low b.y_low
    then false
    else if ltb b.y_high a.y_high
    then false
    else if ltb a.x_low b.x_low
    then false
    else if ltb b.x_high a.x_high
    then false
    else true

-- What a branch points to at a level: at level 0 an object, above it a page of branches.
abbrev pub Page : ℕ → Type 0
Page zero = ℕ
Page (suc level) = List (Rectangle × Page level)

-- The loop over the branches of a page that overlap `r`.
unfoldable pub gather : {A : Type 0} → Rectangle → (A → List ℕ) → List (Rectangle × A) → List ℕ
gather r found [] = []
gather r found ((rect, p) ∷ bs) =
    let rest = gather r found bs in if overlaps r rect then found p ++ rest else rest

-- `R_page::search` with a search buffer: the objects pushed, whose number is the result.
unfoldable pub page_search : (level : ℕ) → Rectangle → Page level → List ℕ
unfolding gather
page_search zero r obj = obj ∷ []
page_search (suc level) r bs = gather r (page_search level r) bs

-- `R_page::cover`; a page has a branch
unfoldable pub cover_from : {A : Type 0} → Rectangle → List (Rectangle × A) → Rectangle
unfolding plus
cover_from rect [] = rect
cover_from rect ((rect', p) ∷ bs) = cover_from (plus rect rect') bs

unfoldable pub cover : {A : Type 0} → List (Rectangle × A) → Option Rectangle
unfolding cover_from
cover [] = none
cover ((rect, p) ∷ bs) = some (cover_from rect bs)

-- the constructor of a root page over two pages
unfoldable pub new_root :
    (level : ℕ) → Page (suc level) → Page (suc level) → Option (Page (suc (suc level)))
unfolding cover
new_root level old_root new_page = elim (cover old_root) [
  | none ↦ none
  | some a ↦ (elim (cover new_page) [
    | none ↦ none
    | some b ↦ some ((a, old_root) ∷ (b, new_page) ∷ [])
  ])
]

-- `R_tree`; `root` is none for NULL
pub record Rtree : Type 0 where
  pub n_records : ℕ
  pub height : ℕ
  pub root : Option (Page height)

-- `R_tree::search`; `none` is a call through NULL
unfoldable pub search : Rectangle → Rtree → Option (List ℕ)
unfolding page_search
search r t =
    if not (t.n_records == 0)
    then (elim t.root [ none ↦ none | some p ↦ some (page_search t.height r p) ])
    else some []
