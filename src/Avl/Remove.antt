-- ===== src/Avl/Remove.antt =====
-- avltree.cxx, `remove` and `search`: the keys and nodes of the tree before and after.
use post.Prelude.{
  ℕ, ◌≡◌, ◌≢◌, ◌∙◌, refl, sym, subst, ◌⊎◌, inl, inr, none, some, List, [], ◌∷◌, ◌++◌, map,
  append_assoc, append-nil, All, All-append, All-append_right, All-imp, ◌==◌, Bool-cases, Ordering,
  lt, eq, gt, arith, is_lt, is_eq, is_gt, Ordering-cases,
}
use mathlib.Core.List.{map-append}
use post.Balanced.{nil, node, balance_left_branch, balance_right_branch, nodes}
use post.Balanced.Order.{Keeps, balance_left_branch-Keeps, balance_right_branch-Keeps}
use post.Avl.{KeyTree, node_remove, search}
use post.Avl.Insert.{
  IsOrder, Entries, Less, Sorted, Sorted-left, Sorted-right, Greater-left, Less-right,
}
use post.Avl.Takes.{key_of, keys, Takes, shrunk_branch-Takes, remove_here-Takes}

module _ (compare : ℕ → ℕ → Ordering) (order : IsOrder compare) where
  -- a key that compares as different is another key
  differs : (a b : ℕ) (o : Ordering) → o ≢ eq → compare a b ≡ o → b ≢ a
  differs a b o ne e same = ne (sym e ∙ rw same (order.eq_refl a))

  All-differs :
      (key : ℕ) (o : Ordering)
      → o ≢ eq
      → (es : Entries) → All (λ e. compare key (key_of e) ≡ o) es
      → All (λ e. key_of e ≢ key) es
  All-differs key o ne es h = All-imp _ _ (λ e c. differs key e.1 o ne c) es h

  joined_right' :
      (xs : Entries) (e : ℕ × ℕ) (ys : Entries) → xs ++ e ∷ ys ≡ (xs ++ e ∷ []) ++ (ys ++ [])
  joined_right' xs e ys = simp (append_assoc, append-nil)

  -- `remove` takes exactly the key, and one node with it; it answers -1 only if the key is not in
  -- the tree.
  pub node_remove-Takes :
      (t : KeyTree) (key : ℕ) → Sorted compare (nodes t) → Takes t key (node_remove compare t key)
  unfolding node_remove nodes
  node_remove-Takes nil key s = tt
  node_remove-Takes (node self l k b r) key s = elim (Ordering-cases (compare key k)) [
    | is_lt e ↦
        let back = (Sorted-right compare order (nodes l) ((self, k) ∷ nodes r) s).0 in
        rw (e, node_remove)
          (shrunk_branch-Takes [] ((self, k) ∷ nodes r) (node self l k b r) l
            (λ u. node self u k b r) (λ u. balance_left_branch self u k b r) refl (λ u. refl)
            (λ u. balance_left_branch-Keeps self u k b r) key tt
            (All-differs key lt (cc) ((self, k) ∷ nodes r)
              (e, Less-right compare order key k (nodes r) back e))
            _
            (node_remove-Takes l key (Sorted-left compare order (nodes l) ((self, k) ∷ nodes r) s)))
    | is_gt e ↦
        let right = λ (u : KeyTree). joined_right' (nodes l) (self, k) (nodes u) in
        rw (e, node_remove)
          (shrunk_branch-Takes (nodes l ++ (self, k) ∷ []) [] (node self l k b r) r
            (λ u. node self l k b u) (λ u. balance_right_branch self l k b u) (right r) right
            (λ u.
              subst (λ es. Keeps es (balance_right_branch self l k b u)) (right u)
                (balance_right_branch-Keeps self l k b u))
            key
            (All-differs key gt (cc) (nodes l ++ (self, k) ∷ []) (
              All-append _ (nodes l) ((self, k) ∷ [])
                (Greater-left compare order key (nodes l) (self, k) (nodes r) s e) (e, tt)))
            tt _
            (node_remove-Takes r key
              (Sorted-right compare order (nodes l) ((self, k) ∷ nodes r) s).1))
    | is_eq e ↦
        rw (e, node_remove)
          (elim (Bool-cases (k == key)) [
            | inl f ↦
                let same : key ≡ k = ground arith in rw (f, same) (remove_here-Takes self l k b r)
            | inr f ↦ rw f (absent e (ground arith))
          ])
  ]
    where
      absent : compare key k ≡ eq → k ≢ key → All (λ k. k ≢ key) (keys (node self l k b r))
      absent e ne = rw map-append (
          All-append _ (map key_of (nodes l)) (k ∷ map key_of (nodes r)) (left (nodes l) s)
            (ne, right (nodes r) (Sorted-right compare order (nodes l) _ s).0))
        where
          lt-ne-eq : (o : Ordering) → o ≡ lt → o ≡ eq → ⊥
          lt-ne-eq o p q = cc

          gt-ne-eq : (o : Ordering) → o ≡ gt → o ≡ eq → ⊥
          gt-ne-eq o p q = cc

          left :
              (es : Entries)
              → Sorted compare (es ++ (self, k) ∷ nodes r)
              → All (λ x. x ≢ key) (map key_of es)
          left [] s = tt
          left (x ∷ es) s = (
            λ same.
                lt-ne-eq (compare key k)
                  (subst (λ y. compare y k ≡ lt) same
                    (All-append_right _ es ((self, k) ∷ nodes r) s.0).0)
                  e,
            left es s.1,
          )

          right : (es : Entries) → Less compare k es → All (λ x. x ≢ key) (map key_of es)
          right [] h = tt
          right (x ∷ es) h = (
            λ same.
                gt-ne-eq (compare key k)
                  (order.gt_of_lt k key (subst (λ y. compare k y ≡ lt) same h.0)) e,
            right es h.1,
          )

  -- `search` returns a key of the tree that compares as equal, and NULL only if there is none.
  pub search_lem :
      (t : KeyTree) (key : ℕ)
      → Sorted compare (nodes t)
      → ((search compare t key ≡ none) × All (λ k. compare key k ≢ eq) (keys t))
        ⊎ ((k : ℕ) × (pre : List ℕ) × (post : List ℕ) × (search compare t key ≡ some k)
            × (compare key k ≡ eq)
            × (keys t ≡ pre ++ k ∷ post))
  unfolding search nodes
  search_lem nil key s = inl (refl, tt)
  search_lem (node self l k b r) key s = elim (Ordering-cases (compare key k)) [
    | is_eq e ↦
        inr (k, map key_of (nodes l), map key_of (nodes r), rw (e, search), e, rw map-append)
    | is_lt e ↦
        let back = (Sorted-right compare order (nodes l) ((self, k) ∷ nodes r) s).0 in
        elim (search_lem l key (Sorted-left compare order (nodes l) ((self, k) ∷ nodes r) s)) [
          | inl (n, a) ↦ inl (
            rw (e, search) n,
            rw map-append (
                All-append _ (keys l) _ a (
                  unequal lt (cc) ((self, k) ∷ nodes r)
                    (e, Less-right compare order key k (nodes r) back e))),
          )
          | inr (k', pre, post, f, g, h) ↦ inr (
            k',
            pre,
            post ++ k ∷ keys r,
            rw (e, search) f,
            g,
            rw (map-append, h) (append_assoc pre (k' ∷ post) (k ∷ keys r)),
          )
        ]
    | is_gt e ↦
        elim (search_lem r key (Sorted-right compare order (nodes l) ((self, k) ∷ nodes r) s).1) [
          | inl (n, a) ↦ inl (
            rw (e, search) n,
            rw map-append (
                All-append _ (keys l) _
                  (unequal gt (cc) (nodes l)
                    (Greater-left compare order key (nodes l) (self, k) (nodes r) s e))
                  (λ c. gt-ne-eq (compare key k) e c, a)),
          )
          | inr (k', pre, post, f, g, h) ↦ inr (
            k',
            keys l ++ k ∷ pre,
            post,
            rw (e, search) f,
            g,
            rw (map-append, h) (sym (append_assoc (keys l) (k ∷ pre) (k' ∷ post))),
          )
        ]
  ]
    where
      gt-ne-eq : (o : Ordering) → o ≡ gt → o ≡ eq → ⊥
      gt-ne-eq o p q = cc

      unequal :
          (o : Ordering)
          → (o ≡ eq → ⊥)
          → (es : Entries) → All (λ x. compare key (key_of x) ≡ o) es
          → All (λ k. compare key k ≢ eq) (map key_of es)
      unequal o ne [] h = tt
      unequal o ne (x ∷ es) h = (λ c. ne (sym h.0 ∙ c), unequal o ne es h.1)
