-- ===== src/Avl/Takes.antt =====
-- avltree.cxx, `avl_tree_node::remove`: the keys without the one that is removed.
use post.Prelude.{
  ℕ, ◌≡◌, ◌≢◌, refl, sym, Bool, true, false, Option, none, some, List, [], ◌∷◌, ◌++◌, map,
  append_assoc, append-nil, All, All-append, if◌then◌else◌,
}
use mathlib.Core.List.{map-append}
use post.Balanced.{Balance, nil, node, Changed, balance_left_branch, balance_right_branch, nodes}
use post.Balanced.Order.{Keeps, balance_left_branch-Keeps, balance_right_branch-Keeps}
use post.Avl.{
  KeyTree, Removal, fault, not_found, removed, shrunk, shrunk_branch, Last, last_branch,
  remove_last, replace_key, remove_here,
}
use post.Avl.Insert.{Entries}

abbrev pub key_of : ℕ × ℕ → ℕ
key_of e = e.1

abbrev pub self_of : ℕ × ℕ → ℕ
self_of e = e.0

-- the keys of a tree in order, and the addresses of its nodes
abbrev pub keys : KeyTree → List ℕ
keys t = map key_of (nodes t)

abbrev pub selfs : KeyTree → List ℕ
selfs t = map self_of (nodes t)

-- `ys` is `xs` without one occurrence of `x`
abbrev pub Without : ℕ → List ℕ → List ℕ → Type 0
Without x xs ys = (pre : List ℕ) × (post : List ℕ) × (xs ≡ pre ++ x ∷ post) × (ys ≡ pre ++ post)

-- the answers of `remove`: the key and one node are gone, or the key is not in the tree
abbrev pub Takes : KeyTree → ℕ → Removal → Type 0
Takes t key fault = Unit
Takes t key not_found = All (λ k. k ≢ key) (keys t)
Takes t key (removed u c q) = Without key (keys t) (keys u) × Without q (selfs t) (selfs u)

Without-context :
    (f : ℕ × ℕ → ℕ) (front xs ys back : Entries) (x : ℕ)
    → Without x (map f xs) (map f ys)
    → Without x (map f (front ++ (xs ++ back))) (map f (front ++ (ys ++ back)))
Without-context f front xs ys back x (pre, post, p, q) = (
  map f front ++ pre,
  post ++ map f back,
  (simp map-append (rw p (simp append_assoc))),
  (simp map-append (rw q (simp append_assoc))),
)

-- A branch stands between `front` and `back` in the tree above it.
module _ (front back : Entries) (t l : KeyTree) (keep : KeyTree → KeyTree)
    (rebalance : KeyTree → Changed ℕ) (whole : nodes t ≡ front ++ (nodes l ++ back))
    (same : (u : KeyTree) → nodes (keep u) ≡ front ++ (nodes u ++ back))
    (up : (u : KeyTree) → Keeps (front ++ (nodes u ++ back)) (rebalance u)) (key : ℕ)
    (absent_front : All (λ e. key_of e ≢ key) front)
    (absent_back : All (λ e. key_of e ≢ key) back) where
  lift_removed :
      (u v : KeyTree) (c d : Bool) (q : ℕ)
      → Takes l key (removed u c q)
      → nodes v ≡ front ++ (nodes u ++ back)
      → Takes t key (removed v d q)
  lift_removed u v c d q (k, s) e = (
    rw (whole, e) (Without-context key_of front (nodes l) (nodes u) back key k),
    rw (whole, e) (Without-context self_of front (nodes l) (nodes u) back q s),
  )

  shrunk-Takes :
      (u : KeyTree) (q : ℕ) (o : Option (KeyTree × Bool))
      → Takes l key (removed u true q)
      → Keeps (front ++ (nodes u ++ back)) o
      → Takes t key (shrunk q o)
  shrunk-Takes u q none k e = tt
  shrunk-Takes u q (some (v, d)) k e = lift_removed u v true d q k e

  All-map : (es : Entries) → All (λ e. key_of e ≢ key) es → All (λ k. k ≢ key) (map key_of es)
  All-map [] h = tt
  All-map (e ∷ es) h = (h.0, All-map es h.1)

  pub shrunk_branch-Takes :
      (o : Removal) → Takes l key o → Takes t key (shrunk_branch rebalance keep o)
  shrunk_branch-Takes fault k = tt
  shrunk_branch-Takes not_found k =
      rw (whole, map-append, map-append)
        (All-append _ (map key_of front) _ (All-map front absent_front)
          (All-append _ (map key_of (nodes l)) _ k (All-map back absent_back)))
  shrunk_branch-Takes (removed u true q) k = shrunk-Takes u q (rebalance u) k (up u)
  shrunk_branch-Takes (removed u false q) k = lift_removed u (keep u) false false q k (same u)

-- the last node of a tree, taken off
abbrev TakesLast : KeyTree → Option Last → Type 0
TakesLast t none = Unit
TakesLast t (some r) = nodes t ≡ nodes r.tree ++ (r.self, r.key) ∷ []

last_branch-TakesLast :
    (self : ℕ) (l : KeyTree) (k : ℕ) (b : Balance) (r : KeyTree) (o : Option Last)
    → TakesLast r o
    → TakesLast (node self l k b r) (last_branch self l k b o)
unfolding nodes
last_branch-TakesLast self l k b r none e = tt
last_branch-TakesLast self l k b r (some q) e = go q.shrank
  where
    moved :
        (u : KeyTree)
        → nodes u ≡ nodes l ++ (self, k) ∷ nodes q.tree
        → nodes l ++ (self, k) ∷ nodes r ≡ nodes u ++ (q.self, q.key) ∷ []
    moved u n = rw (n, e) (simp append_assoc)

    wrap :
        (o : Option (KeyTree × Bool))
        → Keeps (nodes l ++ (self, k) ∷ nodes q.tree) o
        → TakesLast
            (node self l k b r)
            (elim o [ none ↦ none | some (t, h) ↦ some (record q { tree = t; shrank = h }) ])
    wrap none n = tt
    wrap (some (t, h)) n = moved t n

    go :
        (c : Bool)
        → TakesLast (node self l k b r) (
            if c
            then (elim (balance_right_branch self l k b q.tree) [
              | none ↦ none
              | some (t, h) ↦ some (record q { tree = t; shrank = h })
            ])
            else some (record q { tree = node self l k b q.tree; shrank = false }))
    go true = wrap _ (balance_right_branch-Keeps self l k b q.tree)
    go false = moved (node self l k b q.tree) refl

remove_last-TakesLast :
    (self : ℕ) (l : KeyTree) (k : ℕ) (b : Balance) (r : KeyTree)
    → TakesLast (node self l k b r) (remove_last (node self l k b r))
unfolding remove_last nodes
remove_last-TakesLast self l k b nil = refl
remove_last-TakesLast self l k b (node rs rl rk rb rr) =
    last_branch-TakesLast self l k b (node rs rl rk rb rr) _ (remove_last-TakesLast rs rl rk rb rr)

replaced-Takes :
    (self : ℕ) (l : KeyTree) (k : ℕ) (b : Balance) (r : KeyTree) (q : Last) (v : KeyTree) (c : Bool)
    → TakesLast l (some q)
    → nodes v ≡ nodes q.tree ++ (self, q.key) ∷ nodes r
    → Takes (node self l k b r) k (removed v c q.self)
unfolding nodes
replaced-Takes self l k b r q v c e n = (
  (
    map key_of (nodes q.tree) ++ q.key ∷ [],
    map key_of (nodes r),
    rw e (simp (map-append, append_assoc)),
    rw n (simp (map-append, append_assoc)),
  ),
  (
    map self_of (nodes q.tree),
    self ∷ map self_of (nodes r),
    rw e (simp (map-append, append_assoc)),
    rw (n, map-append),
  ),
)

replace_key-Takes :
    (self : ℕ) (l : KeyTree) (k : ℕ) (b : Balance) (r : KeyTree) (o : Option Last)
    → TakesLast l o
    → Takes (node self l k b r) k (replace_key self b r o)
unfolding nodes
replace_key-Takes self l k b r none e = tt
replace_key-Takes self l k b r (some q) e = go q.shrank
  where
    wrap :
        (o : Option (KeyTree × Bool))
        → Keeps (nodes q.tree ++ (self, q.key) ∷ nodes r) o
        → Takes (node self l k b r) k (shrunk q.self o)
    wrap none n = tt
    wrap (some (v, c)) n = replaced-Takes self l k b r q v true e n

    go :
        (c : Bool)
        → Takes (node self l k b r) k (
            if c
            then shrunk q.self (balance_left_branch self q.tree q.key b r)
            else removed (node self q.tree q.key b r) false q.self)
    go true = wrap _ (balance_left_branch-Keeps self q.tree q.key b r)
    go false = replaced-Takes self l k b r q (node self q.tree q.key b r) false e refl

pub remove_here-Takes :
    (self : ℕ) (l : KeyTree) (k : ℕ) (b : Balance) (r : KeyTree)
    → Takes (node self l k b r) k (remove_here self l b r)
unfolding remove_here nodes
remove_here-Takes self l k b nil = (
  (map key_of (nodes l), [], simp map-append, sym (append-nil (map key_of (nodes l)))),
  (map self_of (nodes l), [], simp map-append, sym (append-nil (map self_of (nodes l)))),
)
remove_here-Takes self nil k b (node rs rl rk rb rr) = (([], _, refl, refl), ([], _, refl, refl))
remove_here-Takes self (node ls ll lk lb lr) k b (node rs rl rk rb rr) =
    replace_key-Takes self (node ls ll lk lb lr) k b (node rs rl rk rb rr) _
      (remove_last-TakesLast ls ll lk lb lr)
