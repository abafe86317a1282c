-- ===== src/Rtree/Insert/Pages.antt =====
-- rtree.cxx, `R_page::insert`: what an insertion makes of a page.
use post.Prelude.{
  ℕ, zero, suc, ◌+◌, ◌<◌, ◌≤◌, ◌≡◌, ◌⊎◌, none, some, List, [], ◌∷◌, length, All, refl, true, ltb,
  ◌&&◌, ◌==◌, Bool-cases, inl, inr, arith,
}
use post.Rtree.{Rectangle, plus, inside, Page, cover, cover_from}
use post.Rtree.Area.{area, sub_size, Choice, consider, choose_from, choose_branch, int_max}
use post.Rtree.Search.{Records, records, flat, inside_trans, plus-inside, cover_from-inside}
use post.Rtree.Split.{Result, done, failed, no_seed, not_chosen}
use post.Rtree.Weight.{total, total-append}
use post.Rtree.Insert.{Split, Item}

-- A branch in order: its rectangle covers those of its page, which has from 93 to 186 branches, and
-- these are in order.
abbrev pub IsBranch : (level : ℕ) → Rectangle × Page level → Type 0
IsBranch zero b = Unit
IsBranch (suc level) (rect, bs) =
    All (λ b. inside b.0 rect ≡ true) bs
    × (((93 ≤ length bs) × (length bs ≤ 186)) × All (IsBranch level) bs)

-- a branch in order, inside a rectangle
abbrev pub IsIn : Rectangle → (level : ℕ) → Rectangle × Page level → Type 0
IsIn big level b = IsBranch level b × (inside b.0 big ≡ true)

-- a weight of the objects below a branch, and of what is inserted
abbrev pub heft : (level : ℕ) → (Rectangle × ℕ → ℕ) → Rectangle × Page level → ℕ
heft level f b = total f (records level b)

abbrev pub item_heft : (level : ℕ) → (Rectangle × ℕ → ℕ) → Rectangle → Item level → ℕ
item_heft zero f r obj = f (r, obj)
item_heft (suc level) f r (inl p) = heft (suc level) f (r, p)
item_heft (suc level) f r (inr item) = item_heft level f r item

abbrev pub IsItem : (level : ℕ) → Rectangle → Item level → Type 0
IsItem zero r obj = Unit
IsItem (suc level) r (inl p) = IsBranch (suc level) (r, p)
IsItem (suc level) r (inr item) = IsItem level r item

-- The outcome of an insertion of the weight `w` into the page `bs`, with all branches inside `big`.
abbrev pub InsertAnswer :
    Rectangle
    → (level : ℕ) → Page (suc level)
    → ((Rectangle × ℕ → ℕ) → ℕ)
    → Result (Split (Page level))
    → Type 0
InsertAnswer big level bs w (failed f) = (f ≡ no_seed) ⊎ (f ≡ not_chosen)
InsertAnswer big level bs w (done (p, none)) =
    ((f : _) → total (heft level f) p ≡ total (heft level f) bs + w f)
    × (((length bs ≤ length p) × (length p ≤ 186)) × All (IsIn big level) p)
InsertAnswer big level bs w (done (p, some q)) =
    ((f : _) → total (heft level f) p + total (heft level f) q ≡ total (heft level f) bs + w f)
    × (((93 ≤ length p) × (length p ≤ 186))
        × (((93 ≤ length q) × (length q ≤ 186))
            × (All (IsIn big level) p × All (IsIn big level) q)))

pub total-flat :
    {A : Type 0} (f : Rectangle × ℕ → ℕ) (g : Rectangle × A → Records) (bs : List (Rectangle × A))
    → total f (flat g bs) ≡ total (λ b. total f (g b)) bs
unfolding flat
total-flat f g [] = refl
total-flat f g (b ∷ bs) = omega (arith, total-append f (g b) (flat g bs), total-flat f g bs)

-- the weight of a branch is that of the branches of its page
pub heft-suc :
    (level : ℕ) (f : Rectangle × ℕ → ℕ) (rect : Rectangle) (bs : Page (suc level))
    → heft (suc level) f (rect, bs) ≡ total (heft level f) bs
unfolding records
heft-suc level f rect bs = total-flat f (records level) bs

pub heft-zero :
    (f : Rectangle × ℕ → ℕ) (rect : Rectangle) (obj : ℕ) → heft zero f (rect, obj) ≡ f (rect, obj)
unfolding records
heft-zero f rect obj = omega arith

pub plus_least :
    (a b c : Rectangle) → inside a c ≡ true → inside b c ≡ true → inside (plus a b) c ≡ true
unfolding inside plus
plus_least a b c h k = ground arith

pub plus_mono : (a b r : Rectangle) → inside a b ≡ true → inside (plus a r) (plus b r) ≡ true
plus_mono a b r h =
    let (left, right) = plus-inside b r in
    plus_least a r (plus b r) (inside_trans a b (plus b r) h left) right

cover_from_least :
    {A : Type 0} (rect big : Rectangle) (bs : List (Rectangle × A))
    → inside rect big ≡ true
    → All (λ b. inside b.0 big ≡ true) bs
    → inside (cover_from rect bs) big ≡ true
unfolding cover_from
cover_from_least rect big [] h all = h
cover_from_least rect big (b ∷ bs) h all =
    cover_from_least (plus rect b.0) big bs (plus_least rect b.0 big h all.0) all.1

-- the cover of a page that is not empty: it is read, and is the least rectangle over the branches
pub covers :
    {A : Type 0} (big : Rectangle) (bs : List (Rectangle × A))
    → 1 ≤ length bs
    → All (λ b. inside b.0 big ≡ true) bs
    → (rect : Rectangle) × ((cover bs ≡ some rect)
        × ((inside rect big ≡ true) × All (λ b. inside b.0 rect ≡ true) bs))
unfolding cover
covers big [] h all = absurd (omega arith)
covers big (b ∷ bs) h all =
    (cover_from b.0 bs, (refl, (cover_from_least b.0 big bs all.0 all.1, cover_from-inside b.0 bs)))

-- the index of the branch that is chosen
consider_bound :
    (r : Rectangle) (n i : ℕ) (rect : Rectangle) (c : Choice)
    → i < n
    → c.mini < n
    → (consider r i rect c).mini < n
unfolding consider
consider_bound r n i rect c h k =
    let r_area = area rect in
    let incr = sub_size (area (plus rect r)) r_area in
    elim (Bool-cases (ltb incr c.min_incr)) [
      | inl e ↦ rw (consider, e) h
      | inr e ↦ (elim (Bool-cases ((incr == c.min_incr) && ltb r_area c.best_area)) [
        | inl l ↦ rw (consider, e, l) h
        | inr l ↦ rw (consider, e, l) k
      ])
    ]

choose_from_bound :
    {A : Type 0} (r : Rectangle) (n i : ℕ) (bs : List (Rectangle × A)) (c : Choice)
    → i + length bs ≤ n
    → c.mini < n
    → (choose_from r i bs c).mini < n
unfolding choose_from
choose_from_bound r n i [] c h k = k
choose_from_bound r n i (b ∷ bs) c h k =
    choose_from_bound r n (suc i) bs (consider r i b.0 c) (omega arith)
      (consider_bound r n i b.0 c (omega arith) k)

pub choose_branch_bound :
    {A : Type 0} (r : Rectangle) (bs : List (Rectangle × A))
    → 1 ≤ length bs
    → choose_branch r bs < length bs
unfolding choose_branch
choose_branch_bound r bs h =
    choose_from_bound r (length bs) 0 bs
      (record { mini = 0; min_incr = int_max; best_area = int_max }) (omega arith) (omega arith)
