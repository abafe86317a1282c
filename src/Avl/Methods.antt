-- ===== src/Avl/Methods.antt =====
-- avltree.cxx, the methods of `avl_tree`: its invariant, of nodes and ring together.
use post.Prelude.{
  ℕ, ◌≡◌, ◌≢◌, ◌∙◌, refl, sym, ap, subst, ◌⊎◌, inl, inr, Bool, true, false, Option, none, some,
  List, [], ◌∷◌, ◌++◌, map, All, All-append, All-append_left, All-append_right, Ordering, lt, eq,
  gt,
}
use mathlib.Core.List.{map-append}
use post.Balanced.{nodes}
use post.Balanced.Height.{IsBalanced, height, Inserted, Removed}
use post.Avl.{
  Links, Place, before, after, link, Insertion, Removal, fault, not_found, removed, AvlTree, create,
  insert, remove, unlink,
}
use post.Avl.Ring.{IsRing, Distinct, last_of, first_of, prune-IsRing, link-IsRing, unlink-IsRing}
use post.Avl.Height.{Grows, Shrinks, node_insert-Grows, node_remove-Shrinks}
use post.Avl.Insert.{
  IsOrder, Entries, Adjacent, Greater, Less, Sorted, Position, node_insert-Position,
}
use post.Avl.Takes.{key_of, keys, selfs, Without, Takes}
use post.Avl.Remove.{node_remove-Takes}

All-drop : (P : ℕ → Type 0) (x : ℕ) (xs ys : List ℕ) → All P (xs ++ x ∷ ys) → All P (xs ++ ys)
All-drop P x [] ys h = h.1
All-drop P x (y ∷ xs) ys h = (h.0, All-drop P x xs ys h.1)

Distinct-drop : (x : ℕ) (xs ys : List ℕ) → Distinct (xs ++ x ∷ ys) → Distinct (xs ++ ys)
Distinct-drop x [] ys d = d.1
Distinct-drop x (y ∷ xs) ys d = (All-drop _ x xs ys d.0, Distinct-drop x xs ys d.1)

module _ (compare : ℕ → ℕ → Ordering) where
  pub record IsValid (t : AvlTree) : Type 0 where
    pub balanced : IsBalanced t.root
    pub sorted : Sorted compare (nodes t.root)
    pub ring : IsRing t.links t.self (keys t.root)
    pub distinct : Distinct (t.self ∷ keys t.root)

  pub create-IsValid : (self : ℕ) (links : Links) → IsValid (create self links)
  unfolding create nodes
  create-IsValid self links = record {
    balanced = tt;
    sorted = tt;
    ring = prune-IsRing links self;
    distinct = (tt, tt);
  }

  module _ (order : IsOrder compare) where
    Sorted-add :
        (key fresh : ℕ) (pre post : Entries)
        → Sorted compare (pre ++ post)
        → Greater compare key pre
        → Less compare key post
        → Sorted compare (pre ++ (fresh, key) ∷ post)
    Sorted-add key fresh [] post s g l = (l, s)
    Sorted-add key fresh (e ∷ pre) post s g l = (
      All-append _ pre ((fresh, key) ∷ post) (All-append_left _ pre post s.0)
          (order.lt_of_gt key e.1 g.0, All-append_right _ pre post s.0),
      Sorted-add key fresh pre post s.1 g.1 l,
    )

    last_of-append : (a : ℕ) (xs : List ℕ) (x : ℕ) → last_of a (xs ++ x ∷ []) ≡ x
    last_of-append a [] x = refl
    last_of-append a (y ∷ xs) x = last_of-append y xs x

    -- The ring with a new key at its place.
    ring_added :
        (s : Links) (h key : ℕ) (at : Place) (pre post : Entries)
        → Adjacent (after h) at pre post
        → key ≢ h
        → All (λ y. key ≢ y) (map key_of pre ++ map key_of post)
        → Distinct (h ∷ (map key_of pre ++ map key_of post))
        → IsRing s h (map key_of pre ++ map key_of post)
        → IsRing (link at key s) h (map key_of pre ++ key ∷ map key_of post)
    unfolding link
    ring_added s h key at pre post a ne miss d c =
        let (behind, in_front) =
          link-IsRing s key h (map key_of pre) (map key_of post) ne miss d c in
        elim (place a) [ inl e ↦ rw e behind | inr e ↦ rw e in_front ]
      where
        place :
            Adjacent (after h) at pre post
            → (at ≡ after (last_of h (map key_of pre)))
              ⊎ (at ≡ before (first_of (map key_of post) h))
        place (inl (e, p, q)) = inl (rw (e, p))
        place (inr (inl (n, k, rest, e, q))) = inr (rw (e, q))
        place (inr (inr (n, k, front, e, p))) =
            inl (rw (e, p, map-append) (ap after (sym (last_of-append h (map key_of front) k))))

    -- keys that compare as different are different
    misses :
        (key : ℕ) (o : Ordering)
        → (o ≡ eq → ⊥)
        → (es : Entries) → All (λ e. compare key e.1 ≡ o) es
        → All (λ y. key ≢ y) (map key_of es)
    misses key o ne [] h = tt
    misses key o ne (e ∷ es) h = (
      λ same. ne (sym h.0 ∙ subst (λ y. compare key y ≡ eq) same (order.eq_refl key)),
      misses key o ne es h.1,
    )

    Distinct-add :
        (key : ℕ) (xs ys : List ℕ)
        → All (λ y. key ≢ y) (xs ++ ys)
        → Distinct (xs ++ ys)
        → Distinct (xs ++ key ∷ ys)
    Distinct-add key [] ys m d = (m, d)
    Distinct-add key (x ∷ xs) ys m d = (
      All-append _ xs (key ∷ ys) (All-append_left _ xs ys d.0)
          (λ e. m.0 (sym e), All-append_right _ xs ys d.0),
      Distinct-add key xs ys m.1 d.1,
    )

    -- what `insert` answers
    abbrev pub InsertAnswer : ℕ → AvlTree → Option (ℕ × AvlTree) → Type 0
    InsertAnswer key t none = ⊥
    InsertAnswer key t (some (k, t')) =
        IsValid t'
        × (((k ≡ key)
              × ((pre : List ℕ) × (post : List ℕ) × (keys t.root ≡ pre ++ post)
                  × (keys t'.root ≡ pre ++ key ∷ post)))
            ⊎ ((compare key k ≡ eq)
                × (t' ≡ t)
                × ((pre : List ℕ) × (post : List ℕ) × (keys t.root ≡ pre ++ k ∷ post))))

    answer :
        (key fresh : ℕ) (t : AvlTree) (o : Option Insertion)
        → key ≢ t.self
        → IsValid t
        → Grows (height t.root) o
        → Position compare (after t.self) t.root key fresh t.links o
        → InsertAnswer key t (elim o [
          | none ↦ none
          | some i ↦ some (i.key, record t { root = i.tree; links = i.links })
        ])
    answer key fresh t none ne v g p = g
    answer key fresh t (some i) ne v g (inl p) =
        let back : record t { root = i.tree; links = i.links } ≡ t =
          λ j. record t { root = p.tree j; links = p.unlinked j } in
        (
          subst (λ u. IsValid u) (sym back) v,
          inr (p.equal, back, (map key_of p.pre, map key_of p.post, rw (p.split, map-append))),
        )
    answer key fresh t (some i) ne v g (inr a) =
        let xs = map key_of a.pre in
        let ys = map key_of a.post in
        let old : keys t.root ≡ xs ++ ys = rw (a.split, map-append) in
        let new : keys i.tree ≡ xs ++ key ∷ ys = rw (a.joined, map-append) in
        let miss =
          All-append (λ y. key ≢ y) xs ys (misses key gt (cc) a.pre a.smaller)
            (misses key lt (cc) a.post a.larger) in
        let d = subst (λ l. Distinct (t.self ∷ l)) old v.distinct in
        let c = subst (λ l. IsRing t.links t.self l) old v.ring in
        (
          record {
            balanced = grown i.grew g;
            sorted = rw a.joined (
                Sorted-add key fresh a.pre a.post (subst (λ l. Sorted compare l) a.split v.sorted)
                  a.smaller a.larger);
            ring =
                rw (new, a.linked)
                  (ring_added t.links t.self key a.at a.pre a.post a.adjacent ne miss d c);
            distinct = rw new (
              All-append _ xs (key ∷ ys) (All-append_left _ xs ys d.0)
                  (λ e. ne (sym e), All-append_right _ xs ys d.0),
              Distinct-add key xs ys miss d.1,
            );
          },
          inl (a.key_same, (xs, ys, old, new)),
        )
      where
        grown : (c : Bool) → Inserted (height t.root) (some (i.tree, c)) → IsBalanced i.tree
        grown true g = g.0
        grown false g = g.0

    -- `insert` of a key other than the tree itself succeeds and keeps the tree balanced, sorted and
    -- threaded in order by its ring. Either the key stands at its place among the others and is
    -- returned, or the tree is as before and the returned key of the tree compares as equal to it.
    pub insert-IsValid :
        (key fresh : ℕ) (t : AvlTree)
        → key ≢ t.self
        → IsValid t
        → InsertAnswer key t (insert compare key fresh t)
    unfolding insert
    insert-IsValid key fresh t ne v =
        answer key fresh t _ ne v
          (node_insert-Grows compare (after t.self) t.root key fresh t.links v.balanced)
          (node_insert-Position compare order (after t.self) t.root key fresh t.links v.sorted)

    -- the order of the keys alone
    abbrev SortedKeys : List ℕ → Type 0
    SortedKeys [] = Unit
    SortedKeys (x ∷ xs) = All (λ y. compare x y ≡ lt) xs × SortedKeys xs

    Less-keys :
        (x : ℕ) (es : Entries)
        → (Less compare x es → All (λ y. compare x y ≡ lt) (map key_of es))
          × (All (λ y. compare x y ≡ lt) (map key_of es) → Less compare x es)
    Less-keys x [] = (λ h. tt, λ h. tt)
    Less-keys x (e ∷ es) = (λ h. (h.0, (Less-keys x es).0 h.1), λ h. (h.0, (Less-keys x es).1 h.1))

    Sorted-keys :
        (es : Entries)
        → (Sorted compare es → SortedKeys (map key_of es))
          × (SortedKeys (map key_of es) → Sorted compare es)
    Sorted-keys [] = (λ h. tt, λ h. tt)
    Sorted-keys (e ∷ es) = (
      λ h. ((Less-keys e.1 es).0 h.0, (Sorted-keys es).0 h.1),
      λ h. ((Less-keys e.1 es).1 h.0, (Sorted-keys es).1 h.1),
    )

    SortedKeys-drop : (x : ℕ) (xs ys : List ℕ) → SortedKeys (xs ++ x ∷ ys) → SortedKeys (xs ++ ys)
    SortedKeys-drop x [] ys s = s.1
    SortedKeys-drop x (y ∷ xs) ys s = (All-drop _ x xs ys s.0, SortedKeys-drop x xs ys s.1)

    -- what `remove` answers
    abbrev pub RemoveAnswer : ℕ → AvlTree → Option (Bool × Option ℕ × AvlTree) → Type 0
    RemoveAnswer key t none = ⊥
    RemoveAnswer key t (some (true, q, t')) =
        IsValid t'
        × Without key (keys t.root) (keys t'.root)
        × ((n : ℕ) × (q ≡ some n) × Without n (selfs t.root) (selfs t'.root))
    RemoveAnswer key t (some (false, q, t')) =
        (t' ≡ t) × (q ≡ none) × All (λ k. k ≢ key) (keys t.root)

    removal_answer :
        (key : ℕ) (t : AvlTree) (o : Removal)
        → IsValid t
        → Shrinks (height t.root) o
        → Takes t.root key o
        → RemoveAnswer key t (elim o [
          | fault ↦ none
          | not_found ↦ some (false, none, t)
          | removed u h q ↦ some (true, some q, record t { root = u; links = unlink key t.links })
        ])
    removal_answer key t fault v g p = g
    removal_answer key t not_found v g p = (refl, refl, p)
    removal_answer key t (removed u c q) v g ((pre, post, old, new), s) =
        let d = subst (λ l. Distinct (t.self ∷ l)) old v.distinct in
        (
          record {
            balanced = shrunk c g;
            sorted = (Sorted-keys (nodes u)).1 (
                rw new (
                  SortedKeys-drop key pre post
                    (subst (λ l. SortedKeys l) old ((Sorted-keys (nodes t.root)).0 v.sorted))));
            ring = rw new (
                unlink-IsRing t.links key t.self pre post d
                  (subst (λ l. IsRing t.links t.self l) old v.ring));
            distinct = rw new (All-drop _ key pre post d.0, Distinct-drop key pre post d.1);
          },
          (pre, post, old, new),
          (q, refl, s),
        )
      where
        shrunk : (c : Bool) → Removed (height t.root) (some (u, c)) → IsBalanced u
        shrunk true g = g.0
        shrunk false g = g.0

    -- `remove` succeeds on a valid tree and keeps it valid. If the key is in the tree it answers
    -- true, and exactly this key has left the tree and its ring, and exactly one node is deleted;
    -- otherwise it answers false, deletes nothing and changes nothing.
    pub remove-IsValid :
        (key : ℕ) (t : AvlTree) → IsValid t → RemoveAnswer key t (remove compare key t)
    unfolding remove
    remove-IsValid key t v =
        removal_answer key t _ v (node_remove-Shrinks compare t.root key v.balanced)
          (node_remove-Takes compare order t.root key v.sorted)
