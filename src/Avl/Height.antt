-- ===== src/Avl/Height.antt =====
-- avltree.cxx, `avl_tree_node::insert` and `remove`: the height of the tree and NULL.
use post.Prelude.{
  ℕ, suc, ◌+◌, max, ◌≡◌, refl, Bool, true, false, Option, none, some, if◌then◌else◌, Ordering,
  arith, Bool-cases, is_lt, is_eq, is_gt, Ordering-cases, inl, inr, ◌==◌,
}
use post.Balanced.{
  Balance, left_high, even, right_high, nil, node, Changed, balance_left_branch,
  balance_right_branch,
}
use post.Balanced.Height.{
  height, Fits, IsBalanced, Grown, Inserted, Removed, left_grown-Inserted, right_grown-Inserted,
  balance_left_branch-Removed, balance_right_branch-Removed,
}
use post.Avl.{
  Links, Place, before, after, KeyTree, Insertion, rebalanced, grown_branch, Removal, fault,
  not_found, removed, shrunk, shrunk_branch, Last, last_branch, remove_last, replace_key,
  remove_here, node_insert, node_remove,
}

-- the result of `insert` on a tree of height `h`
abbrev pub Grows : ℕ → Option Insertion → Type 0
Grows h none = ⊥
Grows h (some i) = Inserted h (some (i.tree, i.grew))

-- the result of `remove`
abbrev pub Shrinks : ℕ → Removal → Type 0
Shrinks h fault = ⊥
Shrinks h not_found = Unit
Shrinks h (removed t s q) = Removed h (some (t, s))

rebalanced-Grows :
    (h : ℕ) (o : Option (KeyTree × Bool)) (key : ℕ) (links : Links)
    → Inserted h o
    → Grows h (rebalanced o key links)
rebalanced-Grows h none key links g = g
rebalanced-Grows h (some (t, c)) key links g = g

grown_branch-Grows :
    (h n : ℕ) (rebalance : KeyTree → Changed ℕ) (keep : KeyTree → KeyTree) (o : Option Insertion)
    → ((t : KeyTree) → Grown n t → Inserted h (rebalance t))
    → ((t : KeyTree) → IsBalanced t → height t ≡ n → IsBalanced (keep t) × (height (keep t) ≡ h))
    → Grows n o
    → Grows h (grown_branch rebalance keep o)
grown_branch-Grows h n rebalance keep none up same g = absurd g
grown_branch-Grows h n rebalance keep (some i) up same g = go i.grew g
  where
    go :
        (b : Bool)
        → Inserted n (some (i.tree, b))
        → Grows h (
            if b
            then rebalanced (rebalance i.tree) i.key i.links
            else some (record i { tree = keep i.tree; grew = false }))
    go true g = rebalanced-Grows h (rebalance i.tree) i.key i.links (up i.tree g)
    go false g = same i.tree g.0 g.1

module _ (compare : ℕ → ℕ → Ordering) where
  -- Inserting into a balanced tree succeeds, leaves it balanced, and reports whether it has grown by
  -- one; otherwise the height is as before.
  pub node_insert-Grows :
      (place : Place) (t : KeyTree) (key fresh : ℕ) (links : Links)
      → IsBalanced t
      → Grows (height t) (node_insert compare place t key fresh links)
  unfolding node_insert
  node_insert-Grows place nil key fresh links v = ((refl, tt, tt), refl, inl refl)
  node_insert-Grows place (node self l k b r) key fresh links v =
      elim (Ordering-cases (compare key k)) [
        | is_eq e ↦ rw (e, node_insert) (v, refl)
        | is_lt e ↦
            rw (e, node_insert)
              (grown_branch-Grows (height (node self l k b r)) (height l) _ _ _
                (λ t g. left_grown-Inserted self t k b r (height l) v.0 v.2 g)
                (λ t w n. ((rw n v.0, w, v.2), rw n))
                (node_insert-Grows (before k) l key fresh links v.1))
        | is_gt e ↦
            rw (e, node_insert)
              (grown_branch-Grows (height (node self l k b r)) (height r) _ _ _
                (λ t g. right_grown-Inserted self l k b t (height r) v.0 v.1 g)
                (λ t w n. ((rw n v.0, v.1, w), rw n))
                (node_insert-Grows (after k) r key fresh links v.2))
      ]

shrunk-Shrinks : (h q : ℕ) (o : Option (KeyTree × Bool)) → Removed h o → Shrinks h (shrunk q o)
shrunk-Shrinks h q none g = g
shrunk-Shrinks h q (some (t, c)) g = g

shrunk_branch-Shrinks :
    (h n : ℕ) (rebalance : KeyTree → Changed ℕ) (keep : KeyTree → KeyTree) (o : Removal)
    → ((t : KeyTree) → IsBalanced t → height t + 1 ≡ n → Removed h (rebalance t))
    → ((t : KeyTree) → IsBalanced t → height t ≡ n → IsBalanced (keep t) × (height (keep t) ≡ h))
    → Shrinks n o
    → Shrinks h (shrunk_branch rebalance keep o)
shrunk_branch-Shrinks h n rebalance keep fault down same g = g
shrunk_branch-Shrinks h n rebalance keep not_found down same g = g
shrunk_branch-Shrinks h n rebalance keep (removed t true q) down same g =
    shrunk-Shrinks h q (rebalance t) (down t g.0 g.1)
shrunk_branch-Shrinks h n rebalance keep (removed t false q) down same g = same t g.0 g.1

-- the result of `remove(p, q)`
abbrev LastShrinks : ℕ → Option Last → Type 0
LastShrinks h none = ⊥
LastShrinks h (some r) = Removed h (some (r.tree, r.shrank))

last_branch-LastShrinks :
    (self : ℕ) (l : KeyTree) (k : ℕ) (b : Balance) (r : KeyTree) (o : Option Last)
    → IsBalanced (node self l k b r)
    → LastShrinks (height r) o
    → LastShrinks (height (node self l k b r)) (last_branch self l k b o)
last_branch-LastShrinks self l k b r none v g = g
last_branch-LastShrinks self l k b r (some q) v g = go q.shrank g
  where
    wrap :
        (o : Option (KeyTree × Bool))
        → Removed (height (node self l k b r)) o
        → LastShrinks
            (height (node self l k b r))
            (elim o [ none ↦ none | some (t, h) ↦ some (record q { tree = t; shrank = h }) ])
    wrap none g = g
    wrap (some (t, h)) g = g

    go :
        (c : Bool)
        → Removed (height r) (some (q.tree, c))
        → LastShrinks (height (node self l k b r)) (
            if c
            then (elim (balance_right_branch self l k b q.tree) [
              | none ↦ none
              | some (t, h) ↦ some (record q { tree = t; shrank = h })
            ])
            else some (record q { tree = node self l k b q.tree; shrank = false }))
    go true g = wrap _ (balance_right_branch-Removed self l k b q.tree (height r) v.0 v.1 g.0 g.1)
    go false g = ((rw g.1 v.0, v.1, g.0), rw g.1)

remove_last-LastShrinks :
    (self : ℕ) (l : KeyTree) (k : ℕ) (b : Balance) (r : KeyTree)
    → IsBalanced (node self l k b r)
    → LastShrinks (height (node self l k b r)) (remove_last (node self l k b r))
unfolding remove_last
remove_last-LastShrinks self l k b nil v = (v.1, lower b v.0)
  where
    lower : (b : Balance) → Fits b (height l) 0 → height l + 1 ≡ suc (max (height l) 0)
    lower left_high f = omega arith
    lower even f = omega arith
    lower right_high f = omega arith
remove_last-LastShrinks self l k b (node rs rl rk rb rr) v =
    last_branch-LastShrinks self l k b (node rs rl rk rb rr) _ v
      (remove_last-LastShrinks rs rl rk rb rr v.2)

replace_key-Shrinks :
    (self : ℕ) (l : KeyTree) (k : ℕ) (b : Balance) (r : KeyTree) (o : Option Last)
    → IsBalanced (node self l k b r)
    → LastShrinks (height l) o
    → Shrinks (height (node self l k b r)) (replace_key self b r o)
replace_key-Shrinks self l k b r none v g = g
replace_key-Shrinks self l k b r (some q) v g = go q.shrank g
  where
    go :
        (c : Bool)
        → Removed (height l) (some (q.tree, c))
        → Shrinks (height (node self l k b r)) (
            if c
            then shrunk q.self (balance_left_branch self q.tree q.key b r)
            else removed (node self q.tree q.key b r) false q.self)
    go true g =
        shrunk-Shrinks _ q.self _
          (balance_left_branch-Removed self q.tree q.key b r (height l) v.0 v.2 g.0 g.1)
    go false g = ((rw g.1 v.0, g.0, v.2), rw g.1)

remove_here-Shrinks :
    (self : ℕ) (l : KeyTree) (k : ℕ) (b : Balance) (r : KeyTree)
    → IsBalanced (node self l k b r)
    → Shrinks (height (node self l k b r)) (remove_here self l b r)
unfolding remove_here
remove_here-Shrinks self l k left_high nil v = (v.1, omega arith)
remove_here-Shrinks self l k even nil v = (v.1, omega arith)
remove_here-Shrinks self l k right_high nil v = (v.1, omega arith)
remove_here-Shrinks self nil k left_high (node rs rl rk rb rr) v = (v.2, omega arith)
remove_here-Shrinks self nil k even (node rs rl rk rb rr) v = (v.2, omega arith)
remove_here-Shrinks self nil k right_high (node rs rl rk rb rr) v = (v.2, omega arith)
remove_here-Shrinks self (node ls ll lk lb lr) k b (node rs rl rk rb rr) v =
    replace_key-Shrinks self (node ls ll lk lb lr) k b (node rs rl rk rb rr) _ v
      (remove_last-LastShrinks ls ll lk lb lr v.1)

module _ (compare : ℕ → ℕ → Ordering) where
  -- Removing from a balanced tree never reads through NULL; where the key is found, the tree left is
  -- balanced and its height has shrunk by one exactly if the result is 1.
  pub node_remove-Shrinks :
      (t : KeyTree) (key : ℕ) → IsBalanced t → Shrinks (height t) (node_remove compare t key)
  unfolding node_remove
  node_remove-Shrinks nil key v = tt
  node_remove-Shrinks (node self l k b r) key v = elim (Ordering-cases (compare key k)) [
    | is_lt e ↦
        rw (e, node_remove)
          (shrunk_branch-Shrinks (height (node self l k b r)) (height l) _ _ _
            (λ t w n. balance_left_branch-Removed self t k b r (height l) v.0 v.2 w n)
            (λ t w n. ((rw n v.0, w, v.2), rw n)) (node_remove-Shrinks l key v.1))
    | is_gt e ↦
        rw (e, node_remove)
          (shrunk_branch-Shrinks (height (node self l k b r)) (height r) _ _ _
            (λ t w n. balance_right_branch-Removed self l k b t (height r) v.0 v.1 w n)
            (λ t w n. ((rw n v.0, v.1, w), rw n)) (node_remove-Shrinks r key v.2))
    | is_eq e ↦
        rw (e, node_remove)
          (elim (Bool-cases (k == key)) [
            | inl f ↦ rw f (remove_here-Shrinks self l k b r v)
            | inr f ↦ rw f tt
          ])
  ]
