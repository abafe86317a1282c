-- ===== src/Avl.antt =====
-- avltree.h and avltree.cxx: an AVL tree of keys that are also linked into a ring, in order. A key
-- is the address of an `avl_tree_key`; the virtual `compare` is a parameter that tells the sign of
-- what it returns. The `l2elem` part of every key and of the tree itself is the pair of functions
-- `Links`. `new` returns the address `fresh`; what is deleted is returned.
pub mod Ring
pub mod Height
pub mod Insert
pub mod Takes
pub mod Remove
pub mod Methods
mod Tests
use post.Prelude.{
  ℕ, Bool, true, false, Option, none, some, List, [], ◌∷◌, ◌++◌, ◌==◌, if◌then◌else◌, Ordering, lt,
  eq, gt,
}
use post.Balanced
use post.Balanced.{
  Balance, even, nil, node, Changed, left_grown, right_grown, balance_left_branch,
  balance_right_branch,
}

-- `l2elem`: the fields `next` and `prev` by address
pub record Links : Type 0 where
  pub next : ℕ → ℕ
  pub prev : ℕ → ℕ

abbrev pub write : (ℕ → ℕ) → ℕ → ℕ → ℕ → ℕ
write f a v b = if b == a then v else f b

abbrev pub set_next : ℕ → ℕ → Links → Links
set_next a v s = record s { next = write s.next a v }

abbrev pub set_prev : ℕ → ℕ → Links → Links
set_prev a v s = record s { prev = write s.prev a v }

-- the four assignments of each, in the order of the code
unfoldable pub link_after : ℕ → ℕ → Links → Links
link_after self after s₀ =
    let s₁ = set_next self (s₀.next after) s₀ in
    let s₂ = set_prev (s₁.next self) self s₁ in
    let s₃ = set_prev self after s₂ in set_next (s₃.prev self) self s₃

unfoldable pub link_before : ℕ → ℕ → Links → Links
link_before self before s₀ =
    let s₁ = set_prev self (s₀.prev before) s₀ in
    let s₂ = set_next (s₁.prev self) self s₁ in
    let s₃ = set_next self before s₂ in set_prev (s₃.next self) self s₃

unfoldable pub unlink : ℕ → Links → Links
unlink self s =
    let s' = set_next (s.prev self) (s.next self) s in set_prev (s'.next self) (s'.prev self) s'

unfoldable pub prune : ℕ → Links → Links
prune self s = set_prev self self (set_next self self s)

-- where a new key is linked
pub data Place : Type 0 where
  before : ℕ → Place
  after : ℕ → Place

unfoldable pub link : Place → ℕ → Links → Links
unfolding link_after link_before
link (before k) self s = link_before self k s
link (after k) self s = link_after self k s

abbrev pub KeyTree : Type 0
KeyTree = Balanced.Tree ℕ

-- `insert` of a node: its reference parameters `p` and `ins_key` afterwards, and its result
pub record Insertion : Type 0 where
  pub tree : KeyTree
  pub grew : Bool
  pub key : ℕ
  pub links : Links

abbrev pub rebalanced : Option (KeyTree × Bool) → ℕ → Links → Option Insertion
rebalanced none key links = none
rebalanced (some (t, grew)) key links =
    some (record { tree = t; grew = grew; key = key; links = links })

-- `left_grown` or `right_grown` where the branch has grown, and the new branch alone where not
abbrev pub grown_branch :
    (KeyTree → Changed ℕ) → (KeyTree → KeyTree) → Option Insertion → Option Insertion
grown_branch rebalance keep none = none
grown_branch rebalance keep (some i) =
    if i.grew
    then rebalanced (rebalance i.tree) i.key i.links
    else some (record i { tree = keep i.tree; grew = false })

-- `avl_tree_node::remove`: -1, or the new tree, whether the result is 1, and the node to delete
pub data Removal : Type 0 where
  fault : Removal
  not_found : Removal
  removed : KeyTree → Bool → ℕ → Removal

abbrev pub shrunk : ℕ → Option (KeyTree × Bool) → Removal
shrunk q none = fault
shrunk q (some (t, h)) = removed t h q

-- a balance function where the branch has shrunk, and the new branch alone where not
abbrev pub shrunk_branch : (KeyTree → Changed ℕ) → (KeyTree → KeyTree) → Removal → Removal
shrunk_branch rebalance keep fault = fault
shrunk_branch rebalance keep not_found = not_found
shrunk_branch rebalance keep (removed t h q) =
    if h then shrunk q (rebalance t) else removed (keep t) false q

-- What `remove(p, q)` hands over: the tree without its last node, whether it shrank, the last
-- node's key and its address.
pub record Last : Type 0 where
  pub tree : KeyTree
  pub shrank : Bool
  pub key : ℕ
  pub self : ℕ

abbrev pub last_branch : ℕ → KeyTree → ℕ → Balance → Option Last → Option Last
last_branch self l k b none = none
last_branch self l k b (some r) =
    if r.shrank
    then (elim (balance_right_branch self l k b r.tree) [
      | none ↦ none
      | some (t, h) ↦ some (record r { tree = t; shrank = h })
    ])
    else some (record r { tree = node self l k b r.tree; shrank = false })

-- `avl_tree_node::remove(p, q)`; it is not called on NULL
unfoldable pub remove_last : KeyTree → Option Last
remove_last nil = none
remove_last (node self l k b r) =
    let rest = remove_last r in
    elim r [
      | nil ↦ some (record { tree = l; shrank = true; key = k; self = self })
      | node rs rl rk rb rr ↦ last_branch self l k b rest
    ]

-- the node `self` takes over the last key of its left branch
abbrev pub replace_key : ℕ → Balance → KeyTree → Option Last → Removal
replace_key self b r none = fault
replace_key self b r (some q) =
    if q.shrank
    then shrunk q.self (balance_left_branch self q.tree q.key b r)
    else removed (node self q.tree q.key b r) false q.self

-- The node `self` is the one to remove.
unfoldable pub remove_here : ℕ → KeyTree → Balance → KeyTree → Removal
unfolding remove_last
remove_here self l b nil = removed l true self
remove_here self nil b (node rs rl rk rb rr) = removed (node rs rl rk rb rr) true self
remove_here self (node ls ll lk lb lr) b (node rs rl rk rb rr) =
    replace_key self b (node rs rl rk rb rr) (remove_last (node ls ll lk lb lr))

module _ (compare : ℕ → ℕ → Ordering) where
  -- `avl_tree_node::insert`. A branch that is NULL becomes a new node, linked at `place`.
  unfoldable pub node_insert : Place → KeyTree → ℕ → ℕ → Links → Option Insertion
  node_insert place nil key fresh links = some (record {
    tree = node fresh nil key even nil;
    grew = true;
    key = key;
    links = link place key links;
  })
  node_insert place (node self l k b r) key fresh links = elim (compare key k) [
    | lt ↦
        grown_branch (λ t. left_grown self t k b r) (λ t. node self t k b r)
          (node_insert (before k) l key fresh links)
    | gt ↦
        grown_branch (λ t. right_grown self l k b t) (λ t. node self l k b t)
          (node_insert (after k) r key fresh links)
    | eq ↦ some (record { tree = node self l k b r; grew = false; key = k; links = links })
  ]

  -- `avl_tree::search`; NULL is `none`
  unfoldable pub search : KeyTree → ℕ → Option ℕ
  search nil key = none
  search (node self l k b r) key = elim (compare key k) [
    | lt ↦ search l key
    | gt ↦ search r key
    | eq ↦ some k
  ]

  -- `avl_tree_node::remove(p, del_key)`, up to `unlink` and `delete`; NULL answers -1
  unfoldable pub node_remove : KeyTree → ℕ → Removal
  unfolding remove_here
  node_remove nil key = not_found
  node_remove (node self l k b r) key = elim (compare key k) [
    | lt ↦
        shrunk_branch (λ t. balance_left_branch self t k b r) (λ t. node self t k b r)
          (node_remove l key)
    | gt ↦
        shrunk_branch (λ t. balance_right_branch self l k b t) (λ t. node self l k b t)
          (node_remove r key)
    | eq ↦ if k == key then remove_here self l b r else not_found
  ]

-- `avl_tree`: its own address as an element of the ring, the root, and the links of the ring
pub record AvlTree : Type 0 where
  pub self : ℕ
  pub root : KeyTree
  pub links : Links

-- the constructor of an empty tree
unfoldable pub create : ℕ → Links → AvlTree
unfolding prune
create self links = record { self = self; root = nil; links = prune self links }

module _ (compare : ℕ → ℕ → Ordering) where
  -- `avl_tree::insert`: the key that is in the tree afterwards. An empty tree links its first key
  -- behind itself, as `node_insert` at a NULL root does.
  unfoldable pub insert : ℕ → ℕ → AvlTree → Option (ℕ × AvlTree)
  unfolding node_insert
  insert key fresh t = elim (node_insert compare (after t.self) t.root key fresh t.links) [
    | none ↦ none
    | some i ↦ some (i.key, record t { root = i.tree; links = i.links })
  ]

  -- `avl_tree::remove`, with the `unlink` of the key; the address is that of the deleted node
  unfoldable pub remove : ℕ → AvlTree → Option (Bool × Option ℕ × AvlTree)
  unfolding node_remove unlink
  remove key t = elim (node_remove compare t.root key) [
    | fault ↦ none
    | not_found ↦ some (false, none, t)
    | removed u h q ↦ some (true, some q, record t { root = u; links = unlink key t.links })
  ]
