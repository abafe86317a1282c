-- ===== src/Rtree/Tests.antt =====
-- The R-tree at concrete pages: runs, and the theorems at them.
use post.Prelude.{
  ◌≤◌, ℕ, zero, suc, ◌+◌, ◌*◌, ◌<◌, ◌≡◌, refl, some, List, [], ◌∷◌, All, arith, length,
  if◌then◌else◌, Bool, true, false, ◌≢◌,
}
use post.Rtree.{
  Rectangle, Page, Rtree, cover_from, overlaps, inside, plus, page_search, new_root, search,
}
use post.Rtree.Split.{Branch, Result, done, failed, out_of_range, split_page}
use post.Rtree.Split.Halves.{IsSplit}
use post.Rtree.Split.Total.{IsSmall, IsWithin}
use post.Rtree.Split.Succeeds.{split_page-IsSplit}
use post.Rtree.Insert.{page_insert, insert}
use post.Rtree.Insert.Pages.{InsertAnswer, item_heft}
use post.Rtree.Insert.Answer.{page_insert-InsertAnswer}
use post.Rtree.Insert.Tree.{IsRtree, objects, TreeAnswer, insert-TreeAnswer}
use post.Rtree.Insert.Found.{search-insert}
use post.Rtree.Weight.{total}
use post.Rtree.Remove.{remove}
use post.Rtree.Remove.Tree.{Removed, remove-Removed}
use post.Rtree.Purge.{purge, purge-objects, insert-purge, remove-purge, addresses}
use post.Rtree.Search.{Covered, hits, flat, records, RootAnswer, page_search-hits, new_root-Covered}

abbrev square : ℕ → ℕ → Rectangle
square at side = record { x_low = at; y_low = at; x_high = at + side; y_high = at + side }

abbrev left_page : Page 1
left_page = (square 10 5, 1000) ∷ (square 20 5, 2000) ∷ []

abbrev right_page : Page 1
right_page = (square 100 50, 3000) ∷ []

abbrev root : Page 2
root = (square 10 15, left_page) ∷ (square 100 50, right_page) ∷ []

root_run : new_root 0 left_page right_page ≡ some root
unfolding new_root plus
root_run = refl

search_run :
    search (square 22 100) (record { n_records = 3; height = 2; root = some root })
    ≡ some (2000 ∷ 3000 ∷ [])
unfolding search overlaps
search_run = refl

root-Covered : All (Covered 1) root
unfolding inside
root-Covered = ground arith

page_search-hits_example :
    page_search 2 (square 22 100) root ≡ hits (square 22 100) (flat (records 1) root)
page_search-hits_example = page_search-hits 1 (square 22 100) root root-Covered

new_root-Covered_example : RootAnswer 0 left_page right_page (new_root 0 left_page right_page)
new_root-Covered_example = new_root-Covered 0 left_page right_page (tt, (tt, tt)) (tt, tt)

-- a page of squares side by side
abbrev squares : ℕ → Page 1
squares zero = []
squares (suc n) = (square (10 * n) 7, n) ∷ squares n

all_squares : (bs : Page 1) → All (λ _. Unit {0}) bs
all_squares [] = tt
all_squares (b ∷ bs) = (tt, all_squares bs)

page_insert-InsertAnswer_example :
    InsertAnswer
      (square 0 100)
      0
      left_page
      (λ f. item_heft 0 f (square 17 9) 7000)
      (page_insert 0 (square 17 9) 7000 left_page)
unfolding inside
page_insert-InsertAnswer_example =
    page_insert-InsertAnswer (square 0 100) 0 (square 17 9) 7000 left_page tt (omega arith) refl tt
      ((tt, refl), ((tt, refl), tt))

abbrev full_tree : Rtree
full_tree = record { n_records = 186; height = 1; root = some (squares 186) }

full_tree-IsRtree : IsRtree full_tree
unfolding objects
full_tree-IsRtree = (omega arith, refl)

insert-TreeAnswer_example :
    TreeAnswer (square 3 4) 7000 (objects full_tree) (insert (square 3 4) 7000 full_tree)
insert-TreeAnswer_example = insert-TreeAnswer (square 3 4) 7000 full_tree full_tree-IsRtree

abbrev height_of : Result Rtree → ℕ
height_of (failed f) = 0
height_of (done t) = t.height

split_run : height_of (insert (square 3 4) 7000 full_tree) ≡ 2
unfolding insert
split_run = refl

abbrev left_tree : Rtree
left_tree = record { n_records = 2; height = 1; root = some left_page }

abbrev larger_tree : Rtree
larger_tree = record {
  n_records = 3;
  height = 1;
  root = some ((square 10 5, 1000) ∷ (square 20 5, 2000) ∷ (square 17 9, 7000) ∷ []);
}

left_tree-IsRtree : IsRtree left_tree
unfolding objects
left_tree-IsRtree = (omega arith, refl)

insert_run : insert (square 17 9) 7000 left_tree ≡ done larger_tree
unfolding insert
insert_run = refl

left_tree_room : suc (length (objects left_tree)) < 4294967296
unfolding objects
left_tree_room = omega arith

search-insert_example :
    (found : List ℕ) × ((found' : List ℕ) × ((search (square 22 3) left_tree ≡ some found)
        × ((search (square 22 3) larger_tree ≡ some found')
            × ((g : ℕ → ℕ)
                → total g found'
                  ≡ total g found + (if overlaps (square 22 3) (square 17 9) then g 7000 else 0)))))
search-insert_example =
    search-insert (square 17 9) (square 22 3) 7000 left_tree larger_tree left_tree-IsRtree
      left_tree_room insert_run

-- a tree of two pages of the fewest branches: a removal merges them
abbrev far_squares : ℕ → Page 1
far_squares zero = []
far_squares (suc n) = (square (10 * n + 5000) 7, n + 500) ∷ far_squares n

abbrev two_pages : Rtree
two_pages = record {
  n_records = 186;
  height = 2;
  root = some (
      (cover_from (square 0 1) (squares 93), squares 93)
      ∷ (cover_from (square 5000 1) (far_squares 93), far_squares 93)
      ∷ []);
}

abbrev after_removal : Result (Bool × Rtree) → ℕ × ℕ
after_removal (failed f) = (0, 0)
after_removal (done (found, t)) = (t.height, t.n_records)

merge_run : after_removal (remove (square 100 5) 10 two_pages) ≡ (1, 185)
unfolding remove cover_from
merge_run = refl

remove-Removed_example : Removed (square 12 1) 2000 full_tree (remove (square 12 1) 2000 full_tree)
remove-Removed_example = remove-Removed (square 12 1) 2000 full_tree full_tree-IsRtree

purge-objects_example :
    ((purge true left_tree).1 ≡ (if true then addresses (objects left_tree) else []))
    × (search (square 22 3) (purge true left_tree).0 ≡ some [])
purge-objects_example = purge-objects true (square 22 3) left_tree left_tree-IsRtree

insert-purge_example :
    (after : Rtree) × ((insert (square 17 9) 7000 (purge false left_tree).0 ≡ done after)
      × (IsRtree after × (objects after ≡ (square 17 9, 7000) ∷ [])))
insert-purge_example = insert-purge false (square 17 9) 7000 left_tree left_tree-IsRtree

left_tree_tall : left_tree.height ≢ 0
left_tree_tall h = absurd (omega arith)

remove-purge_example : remove (square 10 5) 1000 (purge false left_tree).0 ≡ failed out_of_range
remove-purge_example =
    remove-purge false (square 10 5) 1000 left_tree left_tree-IsRtree left_tree_tall

squares-IsWithin :
    (n : ℕ) → n ≤ 186 → All (λ (b : Branch ℕ). IsWithin (square 0 2000) b.0) (squares n)
unfolding inside
squares-IsWithin zero h = tt
squares-IsWithin (suc n) h =
    (((omega arith, omega arith), ground arith), squares-IsWithin n (omega arith))

square-IsSmall : IsSmall (square 0 2000)
square-IsSmall = ((omega arith, omega arith), ((omega arith, omega arith), omega arith))

square-IsWithin : IsWithin (square 0 2000) (square 3 4)
unfolding inside
square-IsWithin = ((omega arith, omega arith), refl)

split_page-IsSplit_example :
    (pages : Page 1 × Page 1) × ((split_page (square 3 4, 7000) (squares 186) ≡ done pages)
      × IsSplit (λ _. Unit {0}) (square 3 4, 7000) (squares 186) pages)
split_page-IsSplit_example =
    split_page-IsSplit (square 0 2000) square-IsSmall (square 3 4, 7000) (squares 186) refl
      (λ _. Unit {0}) square-IsWithin (squares-IsWithin 186 (omega arith)) tt
      (all_squares (squares 186))
