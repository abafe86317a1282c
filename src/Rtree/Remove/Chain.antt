-- ===== src/Rtree/Remove/Chain.antt =====
-- rtree.cxx, `R_page::remove`: the list of the pages to reinsert.
use post.Prelude.{
  ℕ, zero, suc, ◌+◌, ◌-◌, ◌≤◌, ◌≡◌, ◌⊎◌, List, [], ◌∷◌, length, All, refl, ap, ◌∙◌, subst, true,
  false, inl, inr, arith,
}
use post.Rtree.{Rectangle, inside, overlaps, Page}
use post.Rtree.Search.{records, flat, overlaps-inside}
use post.Rtree.Weight.{total}
use post.Rtree.Insert.Pages.{IsBranch, IsIn, heft}
use post.Rtree.Remove.{Orphan, raised, ReinsertList, Removal, absent, removed, broken}

-- the level of the branches of a page to reinsert, their weight, and their order
abbrev pub orphan_level : (level : ℕ) → Orphan level → ℕ
orphan_level zero o = absurd o
orphan_level (suc level) (inl p) = level
orphan_level (suc level) (inr o) = orphan_level level o

abbrev pub orphan_heft : (level : ℕ) → (Rectangle × ℕ → ℕ) → Orphan level → ℕ
orphan_heft zero f o = absurd o
orphan_heft (suc level) f (inl p) = total (heft level f) p
orphan_heft (suc level) f (inr o) = orphan_heft level f o

abbrev pub IsOrphan : (level : ℕ) → Orphan level → Type 0
IsOrphan zero o = ⊥
IsOrphan (suc level) (inl p) = All (IsBranch level) p
IsOrphan (suc level) (inr o) = IsOrphan level o

-- The levels of the pages go down by one from `n`.
abbrev pub IsChain : (level : ℕ) → ℕ → List (Orphan level) → Type 0
IsChain level n [] = Unit
IsChain level n (o ∷ os) =
    (orphan_level level o ≡ n)
    × (IsOrphan level o × ((os ≡ []) ⊎ ((1 ≤ n) × IsChain level (n - 1) os)))

-- The list reaches up to the pages below a page of the given level.
abbrev pub Reaches : (level : ℕ) → ReinsertList level → Type 0
Reaches zero l = l.chain ≡ []
Reaches (suc level) l = l.level ≡ level

-- The outcome of a removal from the page `bs`, with all branches inside `big`.
abbrev pub RemoveAnswer :
    Rectangle → (level : ℕ) → Rectangle → ℕ → Page (suc level) → Removal level → Type 0
RemoveAnswer big level r obj bs absent =
    All (λ e. overlaps e.0 r ≡ true → e.1 ≡ obj → ⊥) (flat (records level) bs)
RemoveAnswer big level r obj bs (removed p l) =
    ((rect : Rectangle) × ((f : _)
        → total (heft level f) p + (total (orphan_heft level f) l.chain + f (rect, obj))
          ≡ total (heft level f) bs))
    × (((length p ≡ length bs) ⊎ ((suc (length p) ≡ length bs) × Reaches level l))
        × (IsChain level l.level l.chain × All (IsIn big level) p))
RemoveAnswer big level r obj bs broken = ⊥

pub map-heft :
    (level : ℕ) (f : Rectangle × ℕ → ℕ) (os : List (Orphan level))
    → total (orphan_heft (suc level) f) (raised level os) ≡ total (orphan_heft level f) os
map-heft level f [] = refl
map-heft level f (o ∷ os) = ap (λ n. orphan_heft level f o + n) (map-heft level f os)

pub map-IsChain :
    (level n : ℕ) (os : List (Orphan level))
    → IsChain level n os
    → IsChain (suc level) n (raised level os)
map-IsChain level n [] h = tt
map-IsChain level n (o ∷ os) (e, (k, inl none_left)) = (e, (k, inl (ap (raised level) none_left)))
map-IsChain level n (o ∷ os) (e, (k, inr (least, rest))) =
    (e, (k, inr (least, map-IsChain level (n - 1) os rest)))

overlaps_comm : (a c : Rectangle) → overlaps a c ≡ overlaps c a
unfolding overlaps
overlaps_comm a c = ground arith

pub clash : (a c r : Rectangle) → inside a c ≡ true → overlaps a r ≡ true → overlaps c r ≡ false → ⊥
clash a c r i o apart =
    let w = overlaps-inside r a c i (overlaps_comm r a ∙ o) in
    let turned = overlaps_comm c r in (cc)

-- the pages below one that has too few branches
pub below_it :
    (level : ℕ) (l : ReinsertList level)
    → Reaches level l
    → IsChain level l.level l.chain
    → (raised level l.chain ≡ [])
      ⊎ ((1 ≤ level) × IsChain (suc level) (level - 1) (raised level l.chain))
below_it zero l e c = inl (ap (raised zero) e)
below_it (suc level) l e c =
    let same : l.level ≡ suc level - 1 = e ∙ omega arith in
    inr (
      omega arith,
      subst (λ n. IsChain (suc (suc level)) n (raised (suc level) l.chain)) same
          (map-IsChain (suc level) l.level l.chain c),
    )
