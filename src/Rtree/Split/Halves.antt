-- ===== src/Rtree/Split/Halves.antt =====
-- rtree.cxx, `split_page`: sharing out the branches that are left, and the two pages.
use post.Prelude.{
  take, ℕ, ◌+◌, ◌≤◌, ◌≡◌, ◌⊎◌, Option, none, some, List, ◌++◌, length, All, All-append, refl, ltb,
  Bool-cases, inl, inr, arith, ltb→le, length-append,
}
use post.Rtree.Split.{
  Branch, Shared, Groups, share, finish, Result, done, failed, no_seed, not_chosen, pages_of,
}
use post.Rtree.Split.Cells.{if_kept, if_loose, one, none_loose, Compacted, compact-Compacted}
use post.Rtree.Weight.{total, total-append, total-one, take_all}
use post.Rtree.Split.Sharing.{balance-IsShared, balance-bounds}

-- what the two groups are, of a full page `bs` and the branch `br`
pub record IsGroups {A : Type 0} (P : Branch A → Type 0) (br : Branch A) (bs : List (Branch A))
    (g : Groups A) : Type 0 where
  pub weights :
      (f : Branch A → ℕ)
      → total f g.page + (total (if_kept f) g.cells + total (if_loose f) g.cells)
        ≡ f br + total f bs
  pub new_length : length g.page ≡ g.card_0
  pub kept_length : total (if_kept one) g.cells ≡ g.card_1
  pub first_bound : g.card_0 ≤ 94
  pub second_bound : g.card_1 ≤ 94
  pub new_All : All P g.page
  pub cells_All : All (λ c. P c.1) g.cells

-- The two pages that a page and a branch are split into: their branches together, and the bounds.
abbrev pub IsSplit :
    {A : Type 0}
    → (Branch A → Type 0)
    → Branch A
    → List (Branch A)
    → List (Branch A) × List (Branch A)
    → Type 0
IsSplit P br bs (stays, new) =
    ((f : _) → total f stays + total f new ≡ f br + total f bs)
    × (((93 ≤ length stays) × (length stays ≤ 94))
        × (((93 ≤ length new) × (length new ≤ 94)) × (All P stays × All P new)))

module _ {A : Type 0} (P : Branch A → Type 0) (br : Branch A) (bs : List (Branch A)) where
  -- the number of branches that are left
  pub loose_count :
      (g : Groups A)
      → length bs ≡ 186
      → IsGroups P br bs g
      → g.card_0 + (g.card_1 + total (if_loose one) g.cells) ≡ 187
  loose_count g full h =
      omega
        (arith, h.weights one, h.new_length, h.kept_length, total-one g.page, total-one bs, full)

  -- the groups and what is shared out
  abbrev pub IsOver : Groups A → Shared A → Type 0
  IsOver g s =
      ((f : Branch A → ℕ)
        → total f g.page + (total f s.added + total (if_kept f) s.cells) ≡ f br + total f bs)
      × ((length g.page + length s.added ≡ s.card_0)
          × ((total (if_kept one) s.cells ≡ s.card_1)
              × (((93 ≤ s.card_0) × (s.card_0 ≤ 94))
                  × (((93 ≤ s.card_1) × (s.card_1 ≤ 94))
                      × (All P s.added × All (λ c. P c.1) s.cells)))))

  share-IsOver : (g : Groups A) → length bs ≡ 186 → IsGroups P br bs g → IsOver g (share g)
  unfolding share
  share-IsOver g full h = elim (Bool-cases (ltb (g.card_0 + g.card_1) 187)) [
    | inl e ↦ rw e (
        let count = loose_count g full h in
        let k = balance-IsShared P g.cells g.card_0 g.card_1 h.cells_All in
        let b =
          balance-bounds 94 g.cells g.card_0 g.card_1 h.first_bound h.second_bound (omega arith) in
        (
          λ f. omega (arith, k.0 f, h.weights f),
          (
            omega (arith, k.1.0, h.new_length),
            (
              omega (arith, k.1.1.0, h.kept_length),
              ((omega arith, b.0), ((omega arith, b.1.0), k.1.1.1)),
            ),
          ),
        ))
    | inr e ↦ rw e (
        let count = loose_count g full h in
        let over = ltb→le _ _ e in
        (
          λ f. omega (arith, h.weights f, none_loose f g.cells (omega arith)),
          (
            omega (arith, h.new_length),
            (
              h.kept_length,
              (
                (omega (arith, h.second_bound), h.first_bound),
                ((omega (arith, h.first_bound), h.second_bound), (tt, h.cells_All)),
              ),
            ),
          ),
        ))
  ]

  -- the outcome of a split: two pages, or one of the two failures that the code can meet
  abbrev pub SplitAnswer : Result (List (Branch A) × List (Branch A)) → Type 0
  SplitAnswer (failed f) = (f ≡ no_seed) ⊎ (f ≡ not_chosen)
  SplitAnswer (done pages) = IsSplit P br bs pages

  pages-SplitAnswer :
      (g : Groups A) (s : Shared A) (o : Option (List (Branch A)))
      → IsOver g s
      → Compacted P s.cells o
      → All P g.page
      → SplitAnswer (pages_of g s o)
  pages-SplitAnswer g s none over c all = absurd c
  pages-SplitAnswer g s (some stays) (w, (n, (m, (b, (d, (p, q)))))) c all =
      let whole =
        take_all s.card_0 (g.page ++ s.added) (omega (arith, length-append g.page s.added)) in
      let kept_length : length stays ≡ s.card_1 = omega (arith, c.0 one, total-one stays) in
      rw whole (
        λ f. omega (arith, w f, c.0 f, total-append f g.page s.added),
        (
          (omega arith, omega arith),
          (
            (
              omega (arith, length-append g.page s.added),
              omega (arith, length-append g.page s.added),
            ),
            (c.1, All-append P g.page s.added all p),
          ),
        ),
      )

  pub finish-SplitAnswer :
      (g : Groups A) → length bs ≡ 186 → IsGroups P br bs g → SplitAnswer (finish g)
  unfolding finish
  finish-SplitAnswer g full h =
      let over = share-IsOver g full h in
      pages-SplitAnswer g (share g) _ over
        (compact-Compacted P (share g).card_1 (share g).cells over.1.1.0 over.1.1.1.1.1.1) h.new_All

  pages-IsPages :
      (g : Groups A) (s : Shared A) (o : Option (List (Branch A)))
      → Compacted P s.cells o
      → (pages : List (Branch A) × List (Branch A)) × (pages_of g s o ≡ done pages)
  pages-IsPages g s none c = absurd c
  pages-IsPages g s (some stays) c = ((stays, take s.card_0 (g.page ++ s.added)), refl)

  -- the statements behind the loop have a result
  pub finish-done :
      (g : Groups A)
      → length bs ≡ 186
      → IsGroups P br bs g
      → (pages : List (Branch A) × List (Branch A)) × (finish g ≡ done pages)
  unfolding finish
  finish-done g full h =
      let over = share-IsOver g full h in
      pages-IsPages g (share g) _
        (compact-Compacted P (share g).card_1 (share g).cells over.1.1.0 over.1.1.1.1.1.1)
