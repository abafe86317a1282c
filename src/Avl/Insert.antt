-- ===== src/Avl/Insert.antt =====
-- avltree.cxx, `avl_tree_node::insert`: the order of keys, and the place of a new one.
use post.Prelude.{
  ℕ, ◌≡◌, ◌∙◌, refl, sym, ap, subst, ◌⊎◌, inl, inr, Bool, true, false, Option, none, some, List, [],
  ◌∷◌, ◌++◌, append_assoc, append-nil, All, All-append, All-append_left, All-append_right, All-imp,
  if◌then◌else◌, Ordering, lt, eq, gt, is_lt, is_eq, is_gt, Ordering-cases,
}
use post.Balanced.{nil, node, Changed, left_grown, right_grown, nodes}
use post.Balanced.Order.{Keeps, left_grown-Keeps, right_grown-Keeps}
use post.Avl.{
  Links, Place, before, after, link, KeyTree, Insertion, rebalanced, grown_branch, node_insert,
}

-- What the virtual `compare` is to be: the sign of an order of values, which different keys may
-- share.
pub record IsOrder (compare : ℕ → ℕ → Ordering) : Type 0 where
  pub eq_refl : (a : ℕ) → compare a a ≡ eq
  pub gt_of_lt : (a b : ℕ) → compare a b ≡ lt → compare b a ≡ gt
  pub lt_of_gt : (a b : ℕ) → compare a b ≡ gt → compare b a ≡ lt
  pub lt_trans : (a b c : ℕ) → compare a b ≡ lt → compare b c ≡ lt → compare a c ≡ lt

-- nodes with the addresses of their keys
abbrev pub Entries : Type 0
Entries = List (ℕ × ℕ)

-- `q` is where a key is linked to stand between `pre` and `post`; only in an empty tree is that the
-- place given from outside.
abbrev pub Adjacent : Place → Place → Entries → Entries → Type 0
Adjacent place q pre post =
    ((q ≡ place) × (pre ≡ []) × (post ≡ []))
    ⊎ (((s : ℕ) × (k : ℕ) × (rest : Entries) × (q ≡ before k) × (post ≡ (s, k) ∷ rest))
        ⊎ ((s : ℕ) × (k : ℕ) × (front : Entries) × (q ≡ after k) × (pre ≡ front ++ (s, k) ∷ [])))

joined_right :
    (xs : Entries) (e : ℕ × ℕ) (ys : Entries) → xs ++ e ∷ ys ≡ (xs ++ e ∷ []) ++ (ys ++ [])
joined_right xs e ys = simp (append_assoc, append-nil)

module _ (compare : ℕ → ℕ → Ordering) where
  abbrev pub Greater : ℕ → Entries → Type 0
  Greater key es = All (λ e. compare key e.1 ≡ gt) es

  abbrev pub Less : ℕ → Entries → Type 0
  Less key es = All (λ e. compare key e.1 ≡ lt) es

  -- each key is less than all behind it
  abbrev pub Sorted : Entries → Type 0
  Sorted [] = Unit
  Sorted (e ∷ es) = Less e.1 es × Sorted es

  -- a key of the same value was there: nothing changes, and it is returned
  pub record Present (t : KeyTree) (key : ℕ) (links : Links) (i : Insertion) : Type 0 where
    pub tree : i.tree ≡ t
    pub grew : i.grew ≡ false
    pub unlinked : i.links ≡ links
    pub equal : compare key i.key ≡ eq
    pub pre : Entries
    pub post : Entries
    pub self : ℕ
    pub split : nodes t ≡ pre ++ (self, i.key) ∷ post

  -- the key is new: it stands behind all smaller ones and before all larger ones, in the tree and
  -- in the ring
  pub record Added (place : Place) (t : KeyTree) (key fresh : ℕ) (links : Links) (i : Insertion)
      : Type 0 where
    pub key_same : i.key ≡ key
    pub pre : Entries
    pub post : Entries
    pub at : Place
    pub split : nodes t ≡ pre ++ post
    pub joined : nodes i.tree ≡ pre ++ (fresh, key) ∷ post
    pub linked : i.links ≡ link at key links
    pub adjacent : Adjacent place at pre post
    pub smaller : Greater key pre
    pub larger : Less key post

  abbrev pub Position : Place → KeyTree → ℕ → ℕ → Links → Option Insertion → Type 0
  Position place t key fresh links none = Unit
  Position place t key fresh links (some i) =
      Present t key links i ⊎ Added place t key fresh links i

  -- A branch stands between `front` and `back` in the tree above it.
  module _ (front back : Entries) (t l : KeyTree) (keep : KeyTree → KeyTree)
      (rebalance : KeyTree → Changed ℕ)
      (same : (u : KeyTree) → nodes (keep u) ≡ front ++ (nodes u ++ back))
      (up : (u : KeyTree) → Keeps (front ++ (nodes u ++ back)) (rebalance u)) (whole : keep l ≡ t)
      (place inner : Place) (near : Adjacent place inner front back) (key fresh : ℕ) (links : Links)
      (smaller : Greater key front) (larger : Less key back) where
    outer : nodes t ≡ front ++ (nodes l ++ back)
    outer = subst (λ u. nodes u ≡ front ++ (nodes l ++ back)) whole (same l)

    lift-Adjacent :
        (at : Place) (pre post : Entries)
        → Adjacent inner at pre post
        → Adjacent place at (front ++ pre) (post ++ back)
    lift-Adjacent at pre post (inl (e, p, q)) = rw (e, p, q, append-nil) near
    lift-Adjacent at pre post (inr (inl (s, k, rest, e, q))) =
        inr (inl (s, k, rest ++ back, e, ap (λ l. l ++ back) q))
    lift-Adjacent at pre post (inr (inr (s, k, f, e, p))) =
        inr (inr (s, k, front ++ f, e, rw p (sym (append_assoc front f _))))

    -- what the branch's nodes are in the tree
    around :
        (pre post : Entries) → front ++ ((pre ++ post) ++ back) ≡ (front ++ pre) ++ (post ++ back)
    around pre post = simp append_assoc

    lift-Added :
        (i : Insertion) (u : KeyTree) (c : Bool)
        → Added inner l key fresh links i
        → nodes u ≡ front ++ (nodes i.tree ++ back)
        → Added place t key fresh links
            (record { tree = u; grew = c; key = i.key; links = i.links })
    lift-Added i u c a n = record {
      key_same = a.key_same;
      pre = front ++ a.pre;
      post = a.post ++ back;
      at = a.at;
      split = outer ∙ rw a.split (around a.pre a.post);
      joined = n ∙ rw a.joined (around a.pre ((fresh, key) ∷ a.post));
      linked = a.linked;
      adjacent = lift-Adjacent a.at a.pre a.post a.adjacent;
      smaller = All-append _ front a.pre smaller a.smaller;
      larger = All-append _ a.post back a.larger larger;
    }

    rebalanced-Position :
        (i : Insertion) (o : Option (KeyTree × Bool))
        → Added inner l key fresh links i
        → Keeps (front ++ (nodes i.tree ++ back)) o
        → Position place t key fresh links (rebalanced o i.key i.links)
    rebalanced-Position i none a k = tt
    rebalanced-Position i (some (u, c)) a k = inr (lift-Added i u c a k)

    grown_branch-Position :
        (o : Option Insertion)
        → Position inner l key fresh links o
        → Position place t key fresh links (grown_branch rebalance keep o)
    grown_branch-Position none p = tt
    grown_branch-Position (some i) (inl p) = rw p.grew (
        inl (record {
          tree = ap keep p.tree ∙ whole;
          grew = refl;
          unlinked = p.unlinked;
          equal = p.equal;
          pre = front ++ p.pre;
          post = p.post ++ back;
          self = p.self;
          split = outer ∙ rw p.split (around p.pre _);
        }))
    grown_branch-Position (some i) (inr a) = by i.grew
      where
        by :
            (c : Bool)
            → Position place t key fresh links (
                if c
                then rebalanced (rebalance i.tree) i.key i.links
                else some (record i { tree = keep i.tree; grew = false }))
        by true = rebalanced-Position i (rebalance i.tree) a (up i.tree)
        by false = inr (lift-Added i (keep i.tree) false a (same i.tree))

  module _ (order : IsOrder compare) where
    pub Sorted-left : (xs ys : Entries) → Sorted (xs ++ ys) → Sorted xs
    Sorted-left [] ys s = tt
    Sorted-left (x ∷ xs) ys s = (All-append_left _ xs ys s.0, Sorted-left xs ys s.1)

    pub Sorted-right : (xs ys : Entries) → Sorted (xs ++ ys) → Sorted ys
    Sorted-right [] ys s = s
    Sorted-right (x ∷ xs) ys s = Sorted-right xs ys s.1

    -- a key greater than one in the middle is greater than all before it
    pub Greater-left :
        (key : ℕ) (xs : Entries) (e : ℕ × ℕ) (ys : Entries)
        → Sorted (xs ++ e ∷ ys)
        → compare key e.1 ≡ gt
        → Greater key xs
    Greater-left key [] e ys s g = tt
    Greater-left key (x ∷ xs) e ys s g = (
      order.gt_of_lt x.1 key (
          order.lt_trans x.1 e.1 key (All-append_right _ xs (e ∷ ys) s.0).0
            (order.lt_of_gt key e.1 g)),
      Greater-left key xs e ys s.1 g,
    )

    pub Less-right : (key k : ℕ) (ys : Entries) → Less k ys → compare key k ≡ lt → Less key ys
    Less-right key k ys s g = All-imp _ _ (λ e h. order.lt_trans key k e.1 g h) ys s

    pub node_insert-Position :
        (place : Place) (t : KeyTree) (key fresh : ℕ) (links : Links)
        → Sorted (nodes t)
        → Position place t key fresh links (node_insert compare place t key fresh links)
    unfolding node_insert nodes
    node_insert-Position place nil key fresh links s = inr (record {
      key_same = refl;
      pre = [];
      post = [];
      at = place;
      split = refl;
      joined = refl;
      linked = refl;
      adjacent = inl (refl, refl, refl);
      smaller = tt;
      larger = tt;
    })
    node_insert-Position place (node self l k b r) key fresh links s =
        elim (Ordering-cases (compare key k)) [
          | is_eq e ↦
              rw (e, node_insert)
                (inl (record {
                  tree = refl;
                  grew = refl;
                  unlinked = refl;
                  equal = e;
                  pre = nodes l;
                  post = nodes r;
                  self = self;
                  split = refl;
                }))
          | is_lt e ↦
              let back = (Sorted-right (nodes l) ((self, k) ∷ nodes r) s).0 in
              rw (e, node_insert)
                (grown_branch-Position [] ((self, k) ∷ nodes r) (node self l k b r) l
                  (λ u. node self u k b r) (λ u. left_grown self u k b r) (λ u. refl)
                  (λ u. left_grown-Keeps self u k b r) refl place (before k)
                  (inr (inl (self, k, nodes r, refl, refl))) key fresh links tt
                  (e, Less-right key k (nodes r) back e) _
                  (node_insert-Position (before k) l key fresh links
                    (Sorted-left (nodes l) ((self, k) ∷ nodes r) s)))
          | is_gt e ↦
              let right = λ (u : KeyTree). joined_right (nodes l) (self, k) (nodes u) in
              rw (e, node_insert)
                (grown_branch-Position (nodes l ++ (self, k) ∷ []) [] (node self l k b r) r
                  (λ u. node self l k b u) (λ u. right_grown self l k b u) right
                  (λ u.
                    subst (λ es. Keeps es (right_grown self l k b u)) (right u)
                      (right_grown-Keeps self l k b u))
                  refl place (after k) (inr (inr (self, k, nodes l, refl, refl))) key fresh links
                  (All-append _ (nodes l) ((self, k) ∷ [])
                    (Greater-left key (nodes l) (self, k) (nodes r) s e) (e, tt))
                  tt _
                  (node_insert-Position (after k) r key fresh links
                    (Sorted-right (nodes l) ((self, k) ∷ nodes r) s).1))
        ]
