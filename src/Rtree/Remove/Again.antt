-- ===== src/Rtree/Remove/Again.antt =====
-- rtree.cxx, `R_tree::remove`: a root while branches are inserted again.
use post.Prelude.{
  ℕ, zero, suc, ◌+◌, ◌-◌, ◌≤◌, ◌≡◌, ◌⊎◌, none, some, List, [], ◌∷◌, length, All, refl, subst,
  fun_ext, arith, ==_iff,
}
use post.Rtree.{Rectangle, Page, cover_from}
use post.Rtree.Search.{cover_from-inside}
use post.Rtree.Split.{Result, done, failed, no_seed, not_chosen, and_then}
use post.Rtree.Weight.{total}
use post.Rtree.Insert.{Split, Item, page_insert}
use post.Rtree.Insert.Pages.{IsBranch, heft, item_heft, IsItem, InsertAnswer}
use post.Rtree.Insert.Answer.{Enough, page_insert-InsertAnswer, in_order}
use post.Rtree.Insert.Tree.{in_all, new_root-IsRoot}
use post.Rtree.Remove.{stored_at, above, lift, Root, root_after, reinsert, reinsert_all}

-- a root while branches are inserted again
abbrev pub IsTop : (level : ℕ) → Page (suc level) → Type 0
IsTop level bs = Enough level bs × ((length bs ≤ 186) × All (IsBranch level) bs)

abbrev pub root_heft : (level : ℕ) → (Rectangle × ℕ → ℕ) → Root level → ℕ
root_heft level f root = total (heft (above root.g level) f) root.page

-- the outcome of insertions of the weight `w` into a root
abbrev pub RootAnswer :
    (level : ℕ) → Root level → ((Rectangle × ℕ → ℕ) → ℕ) → Result (Root level) → Type 0
RootAnswer level root w (failed f) = (f ≡ no_seed) ⊎ (f ≡ not_chosen)
RootAnswer level root w (done after) =
    IsTop (above after.g level) after.page
    × ((f : _) → root_heft level f after ≡ root_heft level f root + w f)

abbrev pub entry_heft : (level : ℕ) → (Rectangle × ℕ → ℕ) → Rectangle × Item level → ℕ
entry_heft level f b = item_heft level f b.0 b.1

-- a branch that is stored at the level `n`, in order
abbrev pub IsEntry : (level : ℕ) → ℕ → Rectangle × Item level → Type 0
IsEntry level n b = (stored_at level b.1 + n ≡ suc level) × IsItem level b.0 b.1

longer-Enough :
    (level : ℕ) (bs p : Page (suc level)) → Enough level bs → length bs ≤ length p → Enough level p
longer-Enough zero bs p h m = tt
longer-Enough (suc level) bs p h m = omega arith

root_after-RootAnswer :
    (level g : ℕ) (big : Rectangle) (bs : Page (suc (above g level))) (w : (Rectangle × ℕ → ℕ) → ℕ)
    (o : Result (Split (Page (above g level))))
    → IsTop (above g level) bs
    → InsertAnswer big (above g level) bs w o
    → RootAnswer level (record { g = g; page = bs }) w (and_then o (root_after g))
unfolding root_after
root_after-RootAnswer level g big bs w (failed f) h k = k
root_after-RootAnswer level g big bs w (done (p, none)) h (k, ((m, n), all)) =
    ((longer-Enough (above g level) bs p h.0 m, (n, in_order big (above g level) p all)), k)
root_after-RootAnswer level g big bs w (done (p, some q)) h (k, (m, (n, (good, fine)))) =
    let (root, (e, (top, v))) = new_root-IsRoot big (above g level) p q m n good fine in
    rw (root_after, e) ((omega (arith, top.0.0), (top.0.1, top.1)), λ f. omega (arith, k f, v f))

lift_heft :
    (level g : ℕ) (f : Rectangle × ℕ → ℕ) (r : Rectangle) (item : Item level)
    → item_heft (above g level) f r (lift g level item) ≡ item_heft level f r item
lift_heft level zero f r item = refl
lift_heft level (suc g) f r item = lift_heft level g f r item

lift-IsItem :
    (level g : ℕ) (r : Rectangle) (item : Item level)
    → IsItem level r item
    → IsItem (above g level) r (lift g level item)
lift-IsItem level zero r item h = h
lift-IsItem level (suc g) r item h = lift-IsItem level g r item h

lift_stored :
    (level g : ℕ) (item : Item level)
    → stored_at (above g level) (lift g level item) ≡ g + stored_at level item
lift_stored level zero item = omega arith
lift_stored level (suc g) item = omega (arith, lift_stored level g item)

above_sum : (g level : ℕ) → above g level ≡ g + level
above_sum zero level = omega arith
above_sum (suc g) level = omega (arith, above_sum g level)

reinsert-RootAnswer :
    (level n : ℕ) (b : Rectangle × Item level) (root : Root level)
    → IsEntry level n b
    → IsTop (above root.g level) root.page
    → RootAnswer level root (λ f. item_heft level f b.0 b.1) (reinsert n b root)
unfolding reinsert
reinsert-RootAnswer level n b root (fits, order) top =
    let lv = above root.g level in
    let item = lift root.g level b.1 in
    let big = cover_from b.0 root.page in
    let (own, others) = cover_from-inside b.0 root.page in
    let agree : suc lv - n ≡ stored_at lv item =
      omega (arith, fits, above_sum root.g level, lift_stored level root.g b.1) in
    rw (reinsert, (==_iff (suc lv - n) (stored_at lv item)).1 agree)
      (root_after-RootAnswer level root.g big root.page (λ f. item_heft level f b.0 b.1) _ top
        (subst (λ w. InsertAnswer big lv root.page w (page_insert lv b.0 item root.page))
          (fun_ext (λ f. lift_heft level root.g f b.0 b.1))
          (page_insert-InsertAnswer big lv b.0 item root.page top.0 top.1.0 own
            (lift-IsItem level root.g b.0 b.1 order) (in_all big lv root.page others top.1.1))))

-- one insertion, and then others
pub then-RootAnswer :
    (level : ℕ) (root : Root level) (v w : (Rectangle × ℕ → ℕ) → ℕ) (o : Result (Root level))
    (k : Root level → Result (Root level))
    → RootAnswer level root v o
    → ((after : Root level)
        → IsTop (above after.g level) after.page
        → RootAnswer level after w (k after))
    → RootAnswer level root (λ f. v f + w f) (and_then o k)
then-RootAnswer level root v w (failed f) k h next = h
then-RootAnswer level root v w (done after) k h next = joined (k after) (next after h.0)
  where
    joined :
        (o : Result (Root level))
        → RootAnswer level after w o
        → RootAnswer level root (λ f. v f + w f) o
    joined (failed f) a = a
    joined (done last) a = (a.0, λ f. omega (arith, a.1 f, h.1 f))

pub reinsert_all-RootAnswer :
    (level n : ℕ) (bs : List (Rectangle × Item level)) (root : Root level)
    → All (IsEntry level n) bs
    → IsTop (above root.g level) root.page
    → RootAnswer level root (λ f. total (entry_heft level f) bs) (reinsert_all n bs root)
unfolding reinsert_all
reinsert_all-RootAnswer level n [] root h top = (top, λ f. omega arith)
reinsert_all-RootAnswer level n (b ∷ bs) root h top =
    then-RootAnswer level root (λ f. item_heft level f b.0 b.1) (λ f. total (entry_heft level f) bs)
      (reinsert n b root) (reinsert_all n bs) (reinsert-RootAnswer level n b root h.0 top)
      (λ after t. reinsert_all-RootAnswer level n bs after h.1 t)
