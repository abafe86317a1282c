-- ===== src/Ttree/Insert/Grow.antt =====
-- ttree.cxx, `dbTtreeNode::insert`: the height of the tree, the number of items of a node, and the
-- objects.
use post.Prelude.{
  ℕ, suc, ◌+◌, ◌≤◌, ◌<◌, ◌≡◌, refl, Bool, true, false, not, ◌&&◌, Option, none, some, List, [], ◌∷◌,
  ◌++◌, ◌==◌, max, inl, arith, length, All, All-append, total, total-append, total-one,
}
use post.Balanced.{Balance, node, nodes}
use post.Balanced.Height.{Fits, height, Inserted, left_grown-Inserted, right_grown-Inserted}
use post.Balanced.Order.{Keeps, left_grown-Keeps, right_grown-Keeps}
use post.Ttree.{Ttree}
use post.Ttree.Remove.Parts.{Fine, IsTtree}
use post.Ttree.Insert.{
  Insertion, fault, endless, inserted, new_node, left_higher, right_higher, turned, left_inserted,
  right_inserted,
}

-- the weight of the objects of nodes
abbrev pub bag : (ℕ → ℕ) → List (ℕ × List ℕ) → ℕ
bag f es = total (λ (e : ℕ × List ℕ). total f e.1) es

-- The outcome of an insertion of `obj` into a tree of height `h` with the nodes `es`.
abbrev pub InsertedInto : ℕ → List (ℕ × List ℕ) → ℕ → Insertion → Type 0
InsertedInto h es obj fault = ⊥
InsertedInto h es obj endless = ⊥
InsertedInto h es obj (inserted t grown) =
    Inserted h (some (t, grown))
    × (All Fine (nodes t) × ((f : ℕ → ℕ) → bag f (nodes t) ≡ bag f es + f obj))

turned-InsertedInto :
    (h : ℕ) (es es' : List (ℕ × List ℕ)) (obj : ℕ) (o : Option (Ttree × Bool))
    → Inserted h o
    → Keeps es' o
    → All Fine es'
    → ((f : ℕ → ℕ) → bag f es' ≡ bag f es + f obj)
    → InsertedInto h es obj (turned o)
turned-InsertedInto h es es' obj none i k fine w = i
turned-InsertedInto h es es' obj (some (t, grown)) i k fine w = (i, (rw k fine, λ f. rw k (w f)))

module _ (self : ℕ) (items : List ℕ) (b : Balance) (obj : ℕ) (fine : Fine (self, items)) where
  joined :
      (l r : Ttree)
      → All Fine (nodes l)
      → All Fine (nodes r)
      → All Fine (nodes l ++ (self, items) ∷ nodes r)
  joined l r f g = All-append Fine (nodes l) ((self, items) ∷ nodes r) f (fine, g)

  bag_node :
      (f : ℕ → ℕ) (xs ys : List (ℕ × List ℕ))
      → bag f (xs ++ (self, items) ∷ ys) ≡ bag f xs + (total f items + bag f ys)
  bag_node f xs ys = total-append (λ (e : ℕ × List ℕ). total f e.1) xs ((self, items) ∷ ys)

  pub left_inserted-InsertedInto :
      (h : ℕ) (es : List (ℕ × List ℕ)) (r : Ttree) (d : Insertion)
      → Fits b h (height r)
      → IsTtree r
      → InsertedInto h es obj d
      → InsertedInto
          (suc (max h (height r)))
          (es ++ (self, items) ∷ nodes r)
          obj
          (left_inserted self items b r d)
  unfolding left_inserted nodes left_higher
  left_inserted-InsertedInto h es r fault f v e = e
  left_inserted-InsertedInto h es r endless f v e = e
  left_inserted-InsertedInto h es r (inserted l false) f v (i, (k, w)) = (
    ((rw i.1 f, i.0, v.0), omega (arith, i.1)),
    (
      joined l r k v.1,
      λ g. omega (arith, w g, bag_node g (nodes l) (nodes r), bag_node g es (nodes r)),
    ),
  )
  left_inserted-InsertedInto h es r (inserted l true) f v (i, (k, w)) =
      turned-InsertedInto _ _ (nodes l ++ (self, items) ∷ nodes r) obj _
        (left_grown-Inserted self l items b r h f v.0 i) (left_grown-Keeps self l items b r)
        (joined l r k v.1)
        (λ g. omega (arith, w g, bag_node g (nodes l) (nodes r), bag_node g es (nodes r)))

  pub right_inserted-InsertedInto :
      (h : ℕ) (es : List (ℕ × List ℕ)) (l : Ttree) (d : Insertion)
      → Fits b (height l) h
      → IsTtree l
      → InsertedInto h es obj d
      → InsertedInto
          (suc (max (height l) h))
          (nodes l ++ (self, items) ∷ es)
          obj
          (right_inserted self l items b d)
  unfolding right_inserted nodes right_higher
  right_inserted-InsertedInto h es l fault f v e = e
  right_inserted-InsertedInto h es l endless f v e = e
  right_inserted-InsertedInto h es l (inserted r false) f v (i, (k, w)) = (
    ((rw i.1 f, v.0, i.0), omega (arith, i.1)),
    (
      joined l r v.1 k,
      λ g. omega (arith, w g, bag_node g (nodes l) (nodes r), bag_node g (nodes l) es),
    ),
  )
  right_inserted-InsertedInto h es l (inserted r true) f v (i, (k, w)) =
      turned-InsertedInto _ _ (nodes l ++ (self, items) ∷ nodes r) obj _
        (right_grown-Inserted self l items b r h f v.0 i) (right_grown-Keeps self l items b r)
        (joined l r v.1 k)
        (λ g. omega (arith, w g, bag_node g (nodes l) (nodes r), bag_node g (nodes l) es))

-- the new node
pub new_node-InsertedInto :
    (fresh obj : ℕ) → InsertedInto 0 [] obj (inserted (new_node fresh obj) true)
unfolding nodes
new_node-InsertedInto fresh obj =
    (((refl, tt, tt), refl, inl refl), (((omega arith, omega arith), tt), λ f. omega arith))

-- a node with other items
pub changed-InsertedInto :
    (self : ℕ) (l : Ttree) (items items' : List ℕ) (b : Balance) (r : Ttree) (obj : ℕ)
    → Fits b (height l) (height r)
    → IsTtree l
    → IsTtree r
    → length items < 125
    → ((f : ℕ → ℕ) → total f items' ≡ total f items + f obj)
    → InsertedInto
        (suc (max (height l) (height r)))
        (nodes l ++ (self, items) ∷ nodes r)
        obj
        (inserted (node self l items' b r) false)
unfolding nodes
changed-InsertedInto self l items items' b r obj f v u room w = (
  ((f, v.0, u.0), refl),
  (
    All-append Fine (nodes l) ((self, items') ∷ nodes r) v.1 (
      (
        omega (arith, w (λ _. 1), total-one items', total-one items),
        omega (arith, w (λ _. 1), total-one items', total-one items),
      ),
      u.1,
    ),
    λ g. omega (
      arith,
      w g,
      total-append (λ (e : ℕ × List ℕ). total g e.1) (nodes l) ((self, items') ∷ nodes r),
      total-append (λ (e : ℕ × List ℕ). total g e.1) (nodes l) ((self, items) ∷ nodes r),
    ),
  ),
)

-- a node that is not full
pub not_full :
    (items : List ℕ) → length items ≤ 125 → not (length items == 125) ≡ true → length items < 125
not_full items h e = ground arith

pub both : (a c : Bool) → (a && c) ≡ true → c ≡ true
both a c h = ground arith
