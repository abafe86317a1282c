-- ===== src/Avl/Tests.antt =====
-- The AVL tree at concrete keys: runs of the code, and the theorems at them. Keys are ordered by
-- their addresses here.
use post.Prelude.{
  ℕ, ◌≡◌, ◌≢◌, refl, Option, none, some, List, [], ◌∷◌, ◌++◌, ◌⊎◌, All, Ordering, lt, eq, gt, arith,
  ltb, ◌==◌, if◌then◌else◌,
}
use post.Balanced.{even, nil, node, nodes, left_grown, right_grown}
use post.Avl.{Links, KeyTree, AvlTree, insert, remove, search, link_after, link_before, unlink}
use post.Avl.Ring.{IsRing, Distinct, link-IsRing, unlink-IsRing}
use post.Avl.Insert.{IsOrder}
use post.Avl.Takes.{keys}
use post.Avl.Remove.{search_lem}
use post.Avl.Methods.{IsValid, InsertAnswer, RemoveAnswer, insert-IsValid, remove-IsValid}

abbrev compare : ℕ → ℕ → Ordering
compare a b = if a == b then eq else if ltb a b then lt else gt

compare-IsOrder : IsOrder compare
compare-IsOrder = record {
  eq_refl = λ a. ground arith;
  gt_of_lt = λ a b h. ground (arith, h);
  lt_of_gt = λ a b h. ground (arith, h);
  lt_trans = λ a b c h k. ground (arith, h, k);
}

-- the ring 1, 10, 20, 30 of the tree at 1
abbrev ring : Links
ring = record {
  next = λ x.
      if x == 1
      then 10
      else if x == 10
      then 20
      else if x == 20
      then 30
      else if x == 30
      then 1
      else 0;
  prev = λ x.
      if x == 1
      then 30
      else if x == 10
      then 1
      else if x == 20
      then 10
      else if x == 30
      then 20
      else 0;
}

-- the three keys, in nodes at 201, 202 and 203
abbrev three : AvlTree
three = record {
  self = 1;
  root = node 202 (node 201 nil 10 even nil) 20 even (node 203 nil 30 even nil);
  links = ring;
}

three-Distinct : Distinct (1 ∷ 10 ∷ 20 ∷ 30 ∷ [])
three-Distinct = ground arith

three-IsRing : IsRing ring 1 (10 ∷ 20 ∷ 30 ∷ [])
three-IsRing = ground arith

three-IsValid : IsValid compare three
unfolding nodes
three-IsValid = record {
  balanced = ground arith;
  sorted = ground arith;
  ring = three-IsRing;
  distinct = three-Distinct;
}

-- the order of the keys after `insert` of 25
abbrev keys_after : Option (ℕ × AvlTree) → List ℕ
keys_after none = []
keys_after (some (k, t)) = keys t.root

insert_run : keys_after (insert compare 25 204 three) ≡ 10 ∷ 20 ∷ 25 ∷ 30 ∷ []
unfolding insert nodes left_grown right_grown
insert_run = refl

insert-IsValid_example : InsertAnswer compare compare-IsOrder 25 three (insert compare 25 204 three)
insert-IsValid_example =
    insert-IsValid compare compare-IsOrder 25 204 three (omega arith) three-IsValid

remove-IsValid_example : RemoveAnswer compare compare-IsOrder 20 three (remove compare 20 three)
remove-IsValid_example = remove-IsValid compare compare-IsOrder 20 three three-IsValid

abbrev Found : KeyTree → ℕ → Type 0
Found t key =
    ((search compare t key ≡ none) × All (λ k. compare key k ≢ eq) (keys t))
    ⊎ ((k : ℕ) × (pre : List ℕ) × (post : List ℕ) × (search compare t key ≡ some k)
        × (compare key k ≡ eq)
        × (keys t ≡ pre ++ k ∷ post))

search_lem_example : Found three.root 30
search_lem_example = search_lem compare compare-IsOrder three.root 30 three-IsValid.sorted

link-IsRing_example :
    IsRing (link_after 25 20 ring) 1 (10 ∷ 20 ∷ 25 ∷ 30 ∷ [])
    × IsRing (link_before 25 30 ring) 1 (10 ∷ 20 ∷ 25 ∷ 30 ∷ [])
link-IsRing_example =
    link-IsRing ring 25 1 (10 ∷ 20 ∷ []) (30 ∷ []) (omega arith) (ground arith) three-Distinct
      three-IsRing

unlink-IsRing_example : IsRing (unlink 20 ring) 1 (10 ∷ 30 ∷ [])
unlink-IsRing_example = unlink-IsRing ring 20 1 (10 ∷ []) (30 ∷ []) three-Distinct three-IsRing
