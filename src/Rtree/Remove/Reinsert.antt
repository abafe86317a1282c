-- ===== src/Rtree/Remove/Reinsert.antt =====
-- rtree.cxx, `R_tree::remove`: the loops that insert the branches of the pages of the list again.
use post.Prelude.{
  ℕ, zero, suc, ◌+◌, ◌-◌, ◌≤◌, ◌≡◌, ◌⊎◌, List, [], ◌∷◌, map, All, refl, ap, sym, ◌∙◌, subst,
  fun_ext, inl, inr, arith,
}
use post.Rtree.{Rectangle, Page}
use post.Rtree.Weight.{total}
use post.Rtree.Insert.{Item}
use post.Rtree.Insert.Pages.{IsBranch, heft, item_heft, IsItem, heft-zero}
use post.Rtree.Remove.{
  Orphan, item_here, entries, stored_at, above, Root, reinsert_all, reinsert_chain,
}
use post.Rtree.Remove.Chain.{orphan_level, orphan_heft, IsOrphan, IsChain}
use post.Rtree.Remove.Again.{
  IsTop, RootAnswer, entry_heft, IsEntry, then-RootAnswer, reinsert_all-RootAnswer,
}

-- the branches of a page of the list
here_heft :
    (level : ℕ) (f : Rectangle × ℕ → ℕ) (r : Rectangle) (p : Page level)
    → item_heft level f r (item_here level p) ≡ heft level f (r, p)
here_heft zero f r p = sym (heft-zero f r p)
here_heft (suc level) f r p = refl

here_stored : (level : ℕ) (p : Page level) → stored_at level (item_here level p) ≡ 1
here_stored zero p = refl
here_stored (suc level) p = refl

here-IsItem :
    (level : ℕ) (r : Rectangle) (p : Page level)
    → IsBranch level (r, p)
    → IsItem level r (item_here level p)
here-IsItem zero r p h = tt
here-IsItem (suc level) r p h = h

page_entries :
    (level : ℕ) (p : Page (suc level))
    → All (IsBranch level) p
    → All (IsEntry (suc level) level) (entries (suc level) (inl p))
page_entries level [] h = tt
page_entries level (b ∷ bs) h = (
  (omega (arith, here_stored level b.1), here-IsItem level b.0 b.1 h.0),
  page_entries level bs h.1,
)

page_heft-entries :
    (level : ℕ) (f : Rectangle × ℕ → ℕ) (p : Page (suc level))
    → total (entry_heft (suc level) f) (entries (suc level) (inl p)) ≡ total (heft level f) p
page_heft-entries level f [] = refl
page_heft-entries level f (b ∷ bs) =
    omega (arith, here_heft level f b.0 b.1, page_heft-entries level f bs)

raised_entries :
    (level n : ℕ) (es : List (Rectangle × Item level))
    → All (IsEntry level n) es
    → All (IsEntry (suc level) n) (map (λ (b : Rectangle × Item level). (b.0, inr b.1)) es)
raised_entries level n [] h = tt
raised_entries level n (b ∷ bs) h = ((omega (arith, h.0.0), h.0.1), raised_entries level n bs h.1)

heft-raised :
    (level : ℕ) (f : Rectangle × ℕ → ℕ) (es : List (Rectangle × Item level))
    → total (entry_heft (suc level) f) (map (λ (b : Rectangle × Item level). (b.0, inr b.1)) es)
      ≡ total (entry_heft level f) es
heft-raised level f [] = refl
heft-raised level f (b ∷ bs) = ap (λ n. item_heft level f b.0 b.1 + n) (heft-raised level f bs)

entries_order :
    (level : ℕ) (o : Orphan level)
    → IsOrphan level o
    → All (IsEntry level (orphan_level level o)) (entries level o)
entries_order zero o h = absurd h
entries_order (suc level) (inl p) h = page_entries level p h
entries_order (suc level) (inr o) h =
    raised_entries level (orphan_level level o) (entries level o) (entries_order level o h)

orphan_heft-entries :
    (level : ℕ) (f : Rectangle × ℕ → ℕ) (o : Orphan level)
    → total (entry_heft level f) (entries level o) ≡ orphan_heft level f o
orphan_heft-entries zero f o = absurd o
orphan_heft-entries (suc level) f (inl p) = page_heft-entries level f p
orphan_heft-entries (suc level) f (inr o) =
    heft-raised level f (entries level o) ∙ orphan_heft-entries level f o

-- The branches of the pages of a list, whose levels go down by one, are all inserted again, each at
-- its own level, and the root stays in order; or a split fails.
pub reinsert_chain-RootAnswer :
    (level n : ℕ) (os : List (Orphan level)) (root : Root level)
    → IsChain level n os
    → IsTop (above root.g level) root.page
    → RootAnswer level root (λ f. total (orphan_heft level f) os) (reinsert_chain n os root)
unfolding reinsert_chain
reinsert_chain-RootAnswer level n [] root h top = (top, λ f. omega arith)
reinsert_chain-RootAnswer level n (o ∷ os) root (e, (k, rest)) top =
    then-RootAnswer level root (λ f. orphan_heft level f o) (λ f. total (orphan_heft level f) os)
      (reinsert_all n (entries level o) root) (reinsert_chain (n - 1) os)
      (subst (λ w. RootAnswer level root w (reinsert_all n (entries level o) root))
        (fun_ext (λ f. orphan_heft-entries level f o))
        (reinsert_all-RootAnswer level n (entries level o) root
          (subst (λ m. All (IsEntry level m) (entries level o)) e (entries_order level o k)) top))
      (λ after t. reinsert_chain-RootAnswer level (n - 1) os after (tail rest) t)
  where
    tail : (os ≡ []) ⊎ ((1 ≤ n) × IsChain level (n - 1) os) → IsChain level (n - 1) os
    tail (inl none_left) = rw none_left tt
    tail (inr (least, others)) = others
