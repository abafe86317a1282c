-- ===== src/Ttree/Tests.antt =====
-- The T-tree at concrete trees: a run of the search, and the theorem at it. Keys are the objects
-- themselves here.
use post.Prelude.{
  ℕ, ◌≡◌, refl, Bool, true, false, some, [], ◌+◌, ◌∷◌, Ordering, lt, eq, gt, arith, ltb, ◌==◌,
  if◌then◌else◌, suc, zero, length, total, List,
}
use post.Balanced.{left_grown, even, nil, node, nodes}
use post.Ttree.Remove.{returned, kept, node_remove, remove}
use post.Ttree.Remove.Parts.{IsTtree, Deleted}
use post.Ttree.Remove.Shape.{node_remove-Deleted, remove-Deleted}
use post.Ttree.Insert.{Insertion, fault, endless, inserted, insert}
use post.Ttree.Insert.Grow.{InsertedInto}
use post.Ttree.Insert.Visit.{Ordered, insert-InsertedInto}
use post.Ttree.Purge.{purge, purge-nodes}
use post.Ttree.{minus, Ttree, Query, find, objects, too_small, too_large, scan}
use post.Ttree.Skip.{Falls}
use post.Ttree.Find.{Full}
use post.Ttree.Select.{low, early, wanted, cut, result, select, find-select}

abbrev compare : ℕ → ℕ → Ordering
compare a b = if a == b then eq else if ltb a b then lt else gt

abbrev odd_number : ℕ → Bool
odd_number n = if n == 7 then false else true

-- from 3, included, to 9, not included, at most 2
abbrev query : Query
query = record {
  first_key = some 3;
  last_key = some 9;
  first_key_inclusion = true;
  last_key_inclusion = false;
  selection_limit = 2;
}

abbrev tree : Ttree
tree =
    node 200 (node 201 nil (1 ∷ 2 ∷ 3 ∷ []) even nil) (4 ∷ 5 ∷ 7 ∷ []) even
      (node 202 nil (8 ∷ 9 ∷ []) even nil)

run :
    find compare odd_number query tree true
    ≡ record { buffer = some (3 ∷ 4 ∷ []); n_matches = 2; last_match = 4 }
unfolding find too_small too_large scan
run = refl

find-select_example :
    find compare odd_number query tree true
    ≡ result true (cut 2 (select (wanted compare odd_number query) (objects tree)))
find-select_example = find-select compare odd_number query tree true full falls_low falls_early
  where
    full : Full tree
    full = ground arith

    falls_low : Falls (low compare odd_number query) (objects tree)
    falls_low = unfold too_small in (ground arith)

    falls_early : Falls (early compare odd_number query) (objects tree)
    falls_early = unfold too_large in (ground arith)

tree-IsTtree : IsTtree tree
unfolding nodes
tree-IsTtree = ground arith

-- The middle node takes the last item of its left branch over.
remove_run :
    remove compare 5 tree
    ≡ returned
        (node 200
          (node 201 nil (1 ∷ 2 ∷ []) even nil)
          (3 ∷ 4 ∷ 7 ∷ [])
          even
          (node 202 nil (8 ∷ 9 ∷ []) even nil))
        kept
unfolding remove
remove_run = refl

node_remove-Deleted_example : Deleted 2 (node_remove compare 2 tree 5)
node_remove-Deleted_example = node_remove-Deleted compare 2 tree 5 (omega arith) refl tree-IsTtree

remove-Deleted_example : Deleted 2 (remove compare 5 tree)
remove-Deleted_example = remove-Deleted compare 5 tree refl tree-IsTtree

-- 6 goes between the items of the middle node
insert_run :
    insert compare 203 tree 6
    ≡ inserted
        (node 200
          (node 201 nil (1 ∷ 2 ∷ 3 ∷ []) even nil)
          (4 ∷ 5 ∷ 6 ∷ 7 ∷ [])
          even
          (node 202 nil (8 ∷ 9 ∷ []) even nil))
        false
unfolding insert
insert_run = refl

-- the numbers up to 125, from 300 on
abbrev numbers : ℕ → ℕ → List ℕ
numbers zero start = []
numbers (suc n) start = start ∷ numbers n (start + 2)

abbrev full_node : Ttree
full_node = node 200 nil (numbers 125 300) even nil

abbrev heights : Ttree → ℕ × ℕ
heights nil = (0, 0)
heights (node self l items b r) = (length items, length (objects l))

abbrev outcome : Insertion → ℕ × ℕ
outcome fault = (0, 0)
outcome endless = (0, 0)
outcome (inserted t grown) = heights t

-- an insertion between the items of a full node puts the first into a new node on the left
full_run : outcome (insert compare 203 full_node 333) ≡ (125, 1)
unfolding insert left_grown
full_run = refl

compare-minus : (a b : ℕ) → compare b a ≡ minus (compare a b)
compare-minus a b = ground arith

tree-Ordered : Ordered compare (nodes tree)
unfolding nodes
tree-Ordered = ground arith

insert-InsertedInto_example : InsertedInto 2 (nodes tree) 6 (insert compare 203 tree 6)
insert-InsertedInto_example =
    insert-InsertedInto compare compare-minus 203 tree 6 tree-IsTtree tree-Ordered

purge-nodes_example :
    ((purge tree).0 ≡ nil)
    × ((f : ℕ → ℕ) → total f (purge tree).1 ≡ total (λ (e : ℕ × List ℕ). f e.0) (nodes tree))
purge-nodes_example = purge-nodes tree
