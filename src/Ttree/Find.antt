-- ===== src/Ttree/Find.antt =====
-- ttree.cxx, `dbTtreeNode::find` beside a scan of the objects in order.
use post.Prelude.{
  ℕ, zero, suc, ◌+◌, ◌-◌, ◌/◌, ◌≤◌, ◌<◌, ◌≡◌, ◌∙◌, refl, sym, ap, fun_ext, Bool, true, false, List,
  [], ◌∷◌, ◌++◌, ◌==◌, ltb, Bool-cases, inl, inr, arith, length, get_or, drop, All-append_right,
  Ordering,
}
use post.Balanced.{nil, node}
use post.Ttree.{
  Ttree, Query, Found, record_match, continue, too_small, too_large, scan, lower, node_find,
  objects,
}
use post.Ttree.Skip.{
  Falls, skip, Fails, skip-append, skip-Fails, skip-front, Falls-left, Falls-right, Fails-behind,
  Holds-before, drop-skip, decided, Fails-behind_last, Holds-last,
}

-- no node of the tree is without items
abbrev pub Full : Ttree → Type 0
Full nil = Unit
Full (node self l items b r) = (0 < length items) × Full l × Full r

module _ (compare : ℕ → ℕ → Ordering) (predicate : ℕ → Bool) (q : Query) where
  abbrev pub low : ℕ → Bool
  low = too_small compare predicate q

  abbrev pub walk : List ℕ → Found → Bool × Found
  walk = scan compare predicate q

  lower-skip :
      (fuel : ℕ) (items : List ℕ) (l r : ℕ)
      → Falls low items
      → r ≤ l + fuel
      → l ≤ r
      → r ≤ length items
      → ((i : ℕ) → i < l → low (get_or items i 0) ≡ true)
      → ((i : ℕ) → r ≤ i → i < length items → low (get_or items i 0) ≡ false)
      → drop (lower compare predicate q fuel items l r) items ≡ skip low items
  unfolding lower
  lower-skip zero items l r f enough lr rn t h =
      drop-skip low items r rn (λ i g. t i (omega arith)) h
  lower-skip (suc fuel) items l r f enough lr rn t h = elim (Bool-cases (ltb l r)) [
    | inr e ↦ rw e (drop-skip low items r rn (λ i g. t i (ground arith)) h)
    | inl e ↦
        let m = (l + r) / 2 in
        let inside : l < r = ground arith in
        let d = decided low items m f (omega arith) in
        (elim (Bool-cases (low (get_or items m 0))) [
          | inl y ↦
              rw (e, y)
                (lower-skip fuel items (suc m) r f (omega arith) (omega arith) rn (λ i g. d.0 i g y)
                  h)
          | inr n ↦
              rw (e, n)
                (lower-skip fuel items l m f (omega arith) (omega arith) (omega arith) t
                  (λ i g k. d.1 i g k n))
        ])
  ]

  scan-append : (xs ys : List ℕ) (s : Found) → walk (xs ++ ys) s ≡ continue (walk xs s) (walk ys)
  unfolding scan
  scan-append [] ys s = refl
  scan-append (x ∷ xs) ys s = elim (Bool-cases (too_large compare predicate q x)) [
    | inl e ↦ rw (e, scan) refl
    | inr e ↦ (elim (Bool-cases (predicate x)) [
      | inr g ↦ rw (e, g, scan) (scan-append xs ys s)
      | inl g ↦ (elim (Bool-cases (suc s.n_matches == q.selection_limit)) [
        | inl h ↦ rw (e, g, h, scan) refl
        | inr h ↦ rw (e, g, h, scan) (scan-append xs ys (record_match x s))
      ])
    ])
  ]

  -- the search below a node, by how its first and its last item compare with the first key
  pub node_find-walk :
      (t : Ttree) (s : Found)
      → Full t
      → Falls low (objects t)
      → node_find compare predicate q t s ≡ walk (skip low (objects t)) s
  unfolding node_find skip scan
  node_find-walk nil s full f = refl
  node_find-walk (node self l [] b r) s full f = elim full.0 [ ]
  node_find-walk (node self l (x ∷ xs) b r) s full f =
      let behind = λ (fails : Fails low (objects r)) (s' : Found).
        node_find-walk r s' full.2 (Falls-right low (x ∷ xs) (objects r) right)
        ∙ ap (λ ys. walk ys s') (skip-Fails low (objects r) fails) in
      let end : length (x ∷ xs) - 1 ≡ length xs = omega arith in
      elim (Bool-cases (low x)) [
        | inr e ↦
            let all : Fails low ((x ∷ xs) ++ objects r) =
              (e, Fails-behind low x (xs ++ objects r) e right) in
            rw
              (
                e,
                node_find,
                skip-front low (objects l) ((x ∷ xs) ++ objects r) all,
                node_find-walk l s full.1 (Falls-left low (objects l) ((x ∷ xs) ++ objects r) f),
                scan-append (skip low (objects l)) ((x ∷ xs) ++ objects r) s,
              )
              (ap (continue (walk (skip low (objects l)) s)) (
                fun_ext (λ s'.
                  ap (continue (walk (x ∷ xs) s'))
                    (fun_ext (behind (All-append_right _ xs _ all.1)))
                  ∙ sym (scan-append (x ∷ xs) (objects r) s'))))
        | inl e ↦
            let front = Holds-before low (objects l) x (xs ++ objects r) e f in
            (elim (Bool-cases (low (get_or (x ∷ xs) (length xs) 0))) [
              | inl h ↦
                  rw
                    (
                      e,
                      node_find,
                      end,
                      h,
                      skip-append low (objects l) ((x ∷ xs) ++ objects r) front,
                      skip-append low (x ∷ xs) (objects r) (Holds-last low x xs h items_fall),
                    )
                    (node_find-walk r s full.2 (Falls-right low (x ∷ xs) (objects r) right))
              | inr h ↦
                  let rest = Fails-behind_last low x xs (objects r) h right in
                  rw
                    (
                      e,
                      node_find,
                      end,
                      h,
                      skip-append low (objects l) ((x ∷ xs) ++ objects r) front,
                      skip-front low (x ∷ xs) (objects r) rest,
                      found_place,
                      scan-append (skip low (x ∷ xs)) (objects r) s,
                    )
                    (ap (continue (walk (skip low (x ∷ xs)) s)) (fun_ext (behind rest)))
            ])
      ]
    where
      right : Falls low ((x ∷ xs) ++ objects r)
      right = Falls-right low (objects l) ((x ∷ xs) ++ objects r) f

      items_fall : Falls low (x ∷ xs)
      items_fall = Falls-left low (x ∷ xs) (objects r) right

      found_place :
          drop (lower compare predicate q (suc (length xs)) (x ∷ xs) 0 (suc (length xs))) (x ∷ xs)
          ≡ skip low (x ∷ xs)
      found_place =
          lower-skip (suc (length xs)) (x ∷ xs) 0 (suc (length xs)) items_fall (omega arith)
            (omega arith) (omega arith) (λ i g. absurd (omega arith))
            (λ i g k. absurd (omega arith))
