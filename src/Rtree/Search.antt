-- ===== src/Rtree/Search.antt =====
-- rtree.cxx, `R_page::search` and `cover`: the objects of the tree with their rectangles.
use post.Prelude.{
  ℕ, zero, suc, ◌≡◌, ◌∙◌, refl, sym, ap, true, false, Option, none, some, List, [], ◌∷◌, ◌++◌,
  append-nil, if◌then◌else◌, All, All-append, All-imp, Bool-cases, inl, inr, ◌⊎◌, arith,
}
use post.Rtree.{
  Rectangle, plus, overlaps, inside, Page, gather, page_search, cover_from, cover, new_root,
}

-- the objects below a branch, with their rectangles
abbrev pub Records : Type 0
Records = List (Rectangle × ℕ)

unfoldable pub flat : {A : Type 0} → (Rectangle × A → Records) → List (Rectangle × A) → Records
flat f [] = []
flat f (b ∷ bs) = f b ++ flat f bs

unfoldable pub records : (level : ℕ) → Rectangle × Page level → Records
unfolding flat
records zero (rect, obj) = (rect, obj) ∷ []
records (suc level) (rect, bs) = flat (records level) bs

-- the objects whose rectangles overlap `r`
unfoldable pub hits : Rectangle → Records → List ℕ
hits r [] = []
hits r ((rect, obj) ∷ rs) = let rest = hits r rs in if overlaps r rect then obj ∷ rest else rest

-- The rectangle of every branch covers what is below it.
abbrev pub Covered : (level : ℕ) → Rectangle × Page level → Type 0
Covered zero (rect, obj) = Unit
Covered (suc level) (rect, bs) = All (λ b. inside b.0 rect ≡ true) bs × All (Covered level) bs

pub overlaps-inside :
    (r a b : Rectangle) → inside a b ≡ true → overlaps r a ≡ true → overlaps r b ≡ true
unfolding overlaps inside
overlaps-inside r a b h e = ground arith

pub inside_trans : (a b c : Rectangle) → inside a b ≡ true → inside b c ≡ true → inside a c ≡ true
unfolding inside
inside_trans a b c h e = ground arith

hits-append : (r : Rectangle) (xs ys : Records) → hits r (xs ++ ys) ≡ hits r xs ++ hits r ys
unfolding hits
hits-append r [] ys = refl
hits-append r ((rect, obj) ∷ xs) ys = elim (Bool-cases (overlaps r rect)) [
  | inl e ↦ rw e (ap (λ l. obj ∷ l) (hits-append r xs ys))
  | inr e ↦ rw e (hits-append r xs ys)
]

pub inside_refl : (a : Rectangle) → inside a a ≡ true
unfolding inside
inside_refl a = ground arith

-- what covers the branches covers what is below them
flat-inside :
    {A : Type 0} (P : Rectangle × A → Type 0) (f : Rectangle × A → Records) (rect : Rectangle)
    → ((b : Rectangle × A) → P b → All (λ e. inside e.0 b.0 ≡ true) (f b))
    → (bs : List (Rectangle × A)) → All (λ b. inside b.0 rect ≡ true) bs
    → All P bs
    → All (λ e. inside e.0 rect ≡ true) (flat f bs)
unfolding flat
flat-inside P f rect each [] h k = tt
flat-inside P f rect each (b ∷ bs) h k =
    All-append _ (f b) (flat f bs)
      (All-imp _ _ (λ e i. inside_trans e.0 b.0 rect i h.0) (f b) (each b k.0))
      (flat-inside P f rect each bs h.1 k.1)

pub records-inside :
    (level : ℕ) (b : Rectangle × Page level)
    → Covered level b
    → All (λ e. inside e.0 b.0 ≡ true) (records level b)
unfolding records
records-inside zero (rect, obj) c = (inside_refl rect, tt)
records-inside (suc level) (rect, bs) c =
    flat-inside (Covered level) (records level) rect (records-inside level) bs c.0 c.1

hits-none :
    (r rect : Rectangle) (rs : Records)
    → overlaps r rect ≡ false
    → All (λ e. inside e.0 rect ≡ true) rs
    → hits r rs ≡ []
unfolding hits
hits-none r rect [] n h = refl
hits-none r rect (e ∷ rs) n h = elim (Bool-cases (overlaps r e.0)) [
  | inl o ↦ absurd (let w = overlaps-inside r e.0 rect h.0 o in (cc))
  | inr o ↦ rw o (hits-none r rect rs n h.1)
]

gather-hits :
    (level : ℕ) (r : Rectangle) (bs : Page (suc level))
    → All (Covered level) bs
    → ((b : Rectangle × Page level)
        → Covered level b
        → overlaps r b.0 ≡ true
        → page_search level r b.1 ≡ hits r (records level b))
    → gather r (page_search level r) bs ≡ hits r (flat (records level) bs)
unfolding gather flat hits
gather-hits level r [] c f = refl
gather-hits level r ((rect, p) ∷ bs) c f = elim (Bool-cases (overlaps r rect)) [
  | inl o ↦
      rw (o, f (rect, p) c.0 o, gather-hits level r bs c.1 f)
        (sym (hits-append r (records level (rect, p)) (flat (records level) bs)))
  | inr o ↦
      rw (o, gather-hits level r bs c.1 f)
        (sym (
          hits-append r (records level (rect, p)) (flat (records level) bs)
          ∙ ap (λ l. l ++ hits r (flat (records level) bs))
              (hits-none r rect (records level (rect, p)) o (records-inside level (rect, p) c.0))))
]

branch-hits :
    (level : ℕ) (r : Rectangle) (b : Rectangle × Page level)
    → Covered level b
    → overlaps r b.0 ≡ true
    → page_search level r b.1 ≡ hits r (records level b)
unfolding page_search records hits
branch-hits zero r (rect, obj) c o = rw o refl
branch-hits (suc level) r (rect, bs) c o = gather-hits level r bs c.1 (branch-hits level r)

-- A search of the root page, in a tree where the rectangle of every branch covers what is below it,
-- reports exactly the objects whose own rectangles overlap the given one, in the order of the
-- leaves and each as often as it is stored.
pub page_search-hits :
    (level : ℕ) (r : Rectangle) (root : Page (suc level))
    → All (Covered level) root
    → page_search (suc level) r root ≡ hits r (flat (records level) root)
unfolding page_search
page_search-hits level r root c = gather-hits level r root c (branch-hits level r)

pub plus-inside : (a b : Rectangle) → (inside a (plus a b) ≡ true) × (inside b (plus a b) ≡ true)
unfolding inside plus
plus-inside a b = (ground arith, ground arith)

pub cover_from-inside :
    {A : Type 0} (rect : Rectangle) (bs : List (Rectangle × A))
    → (inside rect (cover_from rect bs) ≡ true)
      × All (λ b. inside b.0 (cover_from rect bs) ≡ true) bs
unfolding cover_from
cover_from-inside rect [] = (inside_refl rect, tt)
cover_from-inside rect (b ∷ bs) =
    let (grown, rest) = cover_from-inside (plus rect b.0) bs in
    let (left, right) = plus-inside rect b.0 in
    (
      inside_trans rect (plus rect b.0) (cover_from (plus rect b.0) bs) left grown,
      (inside_trans b.0 (plus rect b.0) (cover_from (plus rect b.0) bs) right grown, rest),
    )

-- what the constructor of a root over two pages answers
abbrev pub RootAnswer :
    (level : ℕ) → Page (suc level) → Page (suc level) → Option (Page (suc (suc level))) → Type 0
RootAnswer level old_root new_page none = (old_root ≡ []) ⊎ (new_page ≡ [])
RootAnswer level old_root new_page (some root) =
    All (Covered (suc level)) root
    × (flat (records (suc level)) root
        ≡ flat (records level) old_root ++ flat (records level) new_page)

-- The root that is put over two pages with branches covers both by rectangles that contain all
-- their branches, and holds exactly the objects of the first and then those of the second.
pub new_root-Covered :
    (level : ℕ) (old_root new_page : Page (suc level))
    → All (Covered level) old_root
    → All (Covered level) new_page
    → RootAnswer level old_root new_page (new_root level old_root new_page)
unfolding new_root cover records flat
new_root-Covered level [] new_page c d = inl refl
new_root-Covered level (a ∷ rest) [] c d = inr refl
new_root-Covered level (a ∷ rest) (b ∷ more) c d = (
  ((cover_from-inside a.0 rest, c), ((cover_from-inside b.0 more, d), tt)),
  ap (λ l. flat (records level) (a ∷ rest) ++ l) (append-nil (flat (records level) (b ∷ more))),
)
