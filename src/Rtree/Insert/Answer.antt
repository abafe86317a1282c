-- ===== src/Rtree/Insert/Answer.antt =====
-- rtree.cxx, `add_branch` and `R_page::insert`: the outcome on every branch.
use post.Prelude.{
  ℕ, zero, suc, ◌+◌, ◌≤◌, ◌≡◌, none, some, [], ◌∷◌, length, set, All, All-imp, All-append, refl,
  true, ltb, Bool-cases, inl, inr, arith, length-append, length-set, ltb→lt, ltb→le,
}
use post.Rtree.{Rectangle, plus, inside, Page}
use post.Rtree.Area.{choose_branch}
use post.Rtree.Search.{inside_trans, plus-inside}
use post.Rtree.Split.{Result, done, failed, and_then, at, card, split_page}
use post.Rtree.Split.Halves.{SplitAnswer}
use post.Rtree.Split.Rounds.{split_page-SplitAnswer}
use post.Rtree.Weight.{total, total-append, total-set, at_some, at-All, set-All}
use post.Rtree.Insert.{Split, add_branch, placed, Item, page_insert}
use post.Rtree.Insert.Pages.{
  IsBranch, IsIn, heft, item_heft, IsItem, InsertAnswer, heft-suc, heft-zero, plus_least, covers,
  choose_branch_bound,
}

module _ (big : Rectangle) (level : ℕ) where
  split-InsertAnswer :
      (br : Rectangle × Page level) (bs : Page (suc level))
      (o : Result (Page (suc level) × Page (suc level)))
      → SplitAnswer (IsIn big level) br bs o
      → InsertAnswer big level bs
          (λ f. heft level f br)
          (and_then o (λ pages. done (pages.0, some pages.1)))
  split-InsertAnswer br bs (failed f) h = h
  split-InsertAnswer br bs (done (stays, new)) (w, (m, (n, k))) = (
    λ f. omega (arith, w (heft level f)),
    ((m.0, omega (arith, m.1)), ((n.0, omega (arith, n.1)), k)),
  )

  pub add_branch-InsertAnswer :
      (br : Rectangle × Page level) (bs : Page (suc level))
      → length bs ≤ 186
      → IsIn big level br
      → All (IsIn big level) bs
      → InsertAnswer big level bs (λ f. heft level f br) (add_branch br bs)
  unfolding add_branch
  add_branch-InsertAnswer br bs room h all = elim (Bool-cases (ltb (length bs) card)) [
    | inl e ↦
        rw (add_branch, e)
          (
            λ f. omega (arith, total-append (heft level f) bs (br ∷ [])),
            (
              (
                omega (arith, length-append bs (br ∷ [])),
                omega (arith, length-append bs (br ∷ []), ltb→lt _ _ e),
              ),
              All-append (IsIn big level) bs (br ∷ []) all (h, tt),
            ),
          )
    | inr e ↦
        rw (add_branch, e)
          (split-InsertAnswer br bs (split_page br bs)
            (split_page-SplitAnswer (IsIn big level) br bs (omega (arith, ltb→le _ _ e)) h all))
  ]

  -- the same answer from another page of the same length
  rebase :
      (old bs : Page (suc level)) (v w : (Rectangle × ℕ → ℕ) → ℕ) (o : Result (Split (Page level)))
      → ((f : Rectangle × ℕ → ℕ) → total (heft level f) old + v f ≡ total (heft level f) bs + w f)
      → length old ≡ length bs
      → InsertAnswer big level old v o
      → InsertAnswer big level bs w o
  rebase old bs v w (failed f) e l h = h
  rebase old bs v w (done (p, none)) e l (k, ((m, n), all)) =
      (λ f. omega (arith, k f, e f), ((omega arith, n), all))
  rebase old bs v w (done (p, some q)) e l (k, rest) = (λ f. omega (arith, k f, e f), rest)

-- a page that lies in a rectangle, in one that contains it
widen :
    (small big : Rectangle) (level : ℕ) (bs : Page (suc level))
    → inside small big ≡ true
    → All (λ b. inside b.0 small ≡ true) bs
    → All (IsBranch level) bs
    → All (IsIn big level) bs
widen small big level [] h k all = tt
widen small big level (b ∷ bs) h k all =
    ((all.0, inside_trans b.0 small big k.0 h), widen small big level bs h k.1 all.1)

module _ (big : Rectangle) (level : ℕ) (bs : Page (suc level)) (h : All (IsIn big level) bs) where
  pub in_order : All (IsBranch level) bs
  in_order = All-imp (IsIn big level) (IsBranch level) (λ b k. k.0) bs h

  pub within : All (λ b. inside b.0 big ≡ true) bs
  within = All-imp (IsIn big level) (λ b. inside b.0 big ≡ true) (λ b k. k.1) bs h

-- The branch `b` of index `i` after the insertion of the weight `w` into its page.
placed-InsertAnswer :
    (big r : Rectangle) (level i : ℕ) (b : Rectangle × Page (suc level))
    (bs : Page (suc (suc level))) (w : (Rectangle × ℕ → ℕ) → ℕ) (o : Split (Page level))
    → at i bs ≡ some b
    → length bs ≤ 186
    → inside r big ≡ true
    → IsIn big (suc level) b
    → All (IsIn big (suc level)) bs
    → InsertAnswer (plus b.0 r) level b.1 w (done o)
    → InsertAnswer big (suc level) bs w (placed r i b bs o)
unfolding placed
placed-InsertAnswer big r level i b bs w (p, none) e room inr_big h all (k, ((m, n), good)) =
    let grown_in = plus_least b.0 r big h.1 inr_big in
    (
      λ f. omega (
        arith,
        k f,
        total-set (heft (suc level) f) i bs b (plus b.0 r, p) e,
        heft-suc level f b.0 b.1,
        heft-suc level f (plus b.0 r) p,
      ),
      (
        (
          omega (arith, length-set bs i (plus b.0 r, p)),
          omega (arith, length-set bs i (plus b.0 r, p)),
        ),
        set-All (IsIn big (suc level)) i bs (plus b.0 r, p)
            (
              (
                within (plus b.0 r) level p good,
                ((omega (arith, h.0.1.0), n), in_order (plus b.0 r) level p good),
              ),
              grown_in,
            )
            all,
      ),
    )
placed-InsertAnswer big r level i b bs w (p, some q) e room inr_big h all
      (k, (m, (n, (good, fine)))) =
    let small = plus b.0 r in
    let least = plus_least b.0 r big h.1 inr_big in
    let (rect, (reads, (below, over))) = covers small p (omega arith) (within small level p good) in
    let (rect', (reads', (below', over'))) =
      covers small q (omega arith) (within small level q fine) in
    let put = set bs i (rect, p) in
    rw (placed, reads, reads')
      (rebase big (suc level) put bs (λ f. heft (suc level) f (rect', q)) w _
        (λ f. omega (
          arith,
          k f,
          total-set (heft (suc level) f) i bs b (rect, p) e,
          heft-suc level f b.0 b.1,
          heft-suc level f rect p,
          heft-suc level f rect' q,
        ))
        (length-set bs i (rect, p))
        (add_branch-InsertAnswer big (suc level) (rect', q) put
          (omega (arith, length-set bs i (rect, p)))
          ((over', (n, in_order small level q fine)), inside_trans rect' small big below' least)
          (set-All (IsIn big (suc level)) i bs (rect, p)
            ((over, (m, in_order small level p good)), inside_trans rect small big below least)
            all)))

then_placed :
    (big r : Rectangle) (level i : ℕ) (b : Rectangle × Page (suc level))
    (bs : Page (suc (suc level))) (w : (Rectangle × ℕ → ℕ) → ℕ) (o : Result (Split (Page level)))
    → at i bs ≡ some b
    → length bs ≤ 186
    → inside r big ≡ true
    → All (IsIn big (suc level)) bs
    → InsertAnswer (plus b.0 r) level b.1 w o
    → InsertAnswer big (suc level) bs w (and_then o (placed r i b bs))
then_placed big r level i b bs w (failed f) e room inr_big all h = h
then_placed big r level i b bs w (done s) e room inr_big all h =
    placed-InsertAnswer big r level i b bs w s e room inr_big
      (at-All (IsIn big (suc level)) i bs b e all) all h

-- a page above the leaves has a branch
abbrev pub Enough : (level : ℕ) → Page (suc level) → Type 0
Enough zero bs = Unit
Enough (suc level) bs = 1 ≤ length bs

enough : (level : ℕ) (bs : Page (suc level)) → 1 ≤ length bs → Enough level bs
enough zero bs h = tt
enough (suc level) bs h = h

-- An insertion of an object or a page, all in order, into a page of at most 186 branches, that has one if it is no leaf,
-- leaves a page of at least as many and at most 186, or it leaves two pages of 93 to 186 each: their
-- branches are in order, inside any rectangle that holds those of the page and the one inserted, and
-- the objects below are those of before and those inserted, each as often (the sums agree for every
-- weight of an object). Otherwise the seeds of a split are not set, or the assertion on the chosen
-- branch fails.
pub page_insert-InsertAnswer :
    (big : Rectangle) (level : ℕ) (r : Rectangle) (item : Item level) (bs : Page (suc level))
    → Enough level bs
    → length bs ≤ 186
    → inside r big ≡ true
    → IsItem level r item
    → All (IsIn big level) bs
    → InsertAnswer big level bs (λ f. item_heft level f r item) (page_insert level r item bs)
unfolding page_insert
page_insert-InsertAnswer big zero r obj bs least room inr_big h all =
    rebase big zero bs bs (λ f. heft zero f (r, obj)) (λ f. f (r, obj)) (add_branch (r, obj) bs)
      (λ f. omega (arith, heft-zero f r obj)) refl
      (add_branch-InsertAnswer big zero (r, obj) bs room (tt, inr_big) all)
page_insert-InsertAnswer big (suc level) r (inl p) bs least room inr_big h all =
    add_branch-InsertAnswer big (suc level) (r, p) bs room (h, inr_big) all
page_insert-InsertAnswer big (suc level) r (inr item) bs least room inr_big h all =
    let i = choose_branch r bs in
    let (b, e) = at_some i bs (choose_branch_bound r bs least) in
    let k = at-All (IsIn big (suc level)) i bs b e all in
    let (left, right) = plus-inside b.0 r in
    rw e (
      then_placed big r level i b bs (λ f. item_heft level f r item) (page_insert level r item b.1)
        e room inr_big all
        (page_insert-InsertAnswer (plus b.0 r) level r item b.1
          (enough level b.1 (omega (arith, k.0.1.0.0))) k.0.1.0.1 right h
          (widen b.0 (plus b.0 r) level b.1 left k.0.0 k.0.1.1)))
