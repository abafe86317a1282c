-- ===== src/Storage/FreePages/Fit.antt =====
-- storage.cxx, the search of `storage::alloc_page`: the first block that is large enough.
use post.Prelude.{
  ℕ, ◌+◌, ◌-◌, ◌%◌, ◌≤◌, ◌<◌, ◌≡◌, subst, ◌⊎◌, inl, inr, Bool, true, false, ◌||◌, List, [], ◌∷◌,
  ◌++◌, Option, none, some, ltb, arith, refl, Bool-cases, Option-cases, All, append-nil,
}
use post.Storage.Blocks.{page_size, header_size}
use post.Storage.FreePages.{
  FreeBlock, block, end, head_addr, Taken, use_block, first_fit, search_free,
}
use post.Storage.FreePages.Chain.{IsPages, IsChain, in_block, is_free, On, IsChain-weaken}

-- no block of the list holds `size` bytes
abbrev pub TooSmall : ℕ → List FreeBlock → Type 0
TooSmall size bs = All (λ b. b.size < size) bs

-- `aligned` bytes at `addr`, as a block
abbrev piece : ℕ → ℕ → FreeBlock
piece addr aligned = block addr (aligned - header_size)

-- The chain `bs` has lost the piece at `t.addr` and nothing else; `t.next` is a block that is left,
-- or 0.
pub record Gives (limit lo aligned : ℕ) (bs : List FreeBlock) (t : Taken) : Type 0 where
  pub chained : IsChain limit lo t.chain
  pub pages : IsPages limit (piece t.addr aligned)
  pub lowest : lo < t.addr
  pub next : (t.next ≡ 0) ⊎ On t.next t.chain
  pub splits : (x : ℕ) → is_free x bs ≡ (in_block x (piece t.addr aligned) || is_free x t.chain)
  pub apart : (x : ℕ) → in_block x (piece t.addr aligned) ≡ true → is_free x t.chain ≡ false

-- nothing below the start of a chain is free
not_free_below :
    (limit lo x : ℕ) (bs : List FreeBlock) → IsChain limit lo bs → x ≤ lo → is_free x bs ≡ false
not_free_below limit lo x [] c h = refl
not_free_below limit lo x (b ∷ bs) c h =
    ground (arith, not_free_below limit (end b) x bs c.2 (omega arith))

On-head : (bs : List FreeBlock) → (head_addr bs ≡ 0) ⊎ On (head_addr bs) bs
On-head [] = inl refl
On-head (b ∷ bs) = inr (inl refl)

-- a block that is cut in two
cut_block :
    (x a n m : ℕ)
    → m < n
    → header_size ≤ m
    → in_block x (block a n)
      ≡ (in_block x (piece (end (block a (n - m))) m) || in_block x (block a (n - m)))
cut_block x a n m h k = ground arith

or_left : (a b c d : Bool) → d ≡ (a || b) → (d || c) ≡ (a || (b || c))
or_left a b c d e = ground arith

or_under : (a b c d : Bool) → d ≡ (b || c) → (a || d) ≡ (b || (a || c))
or_under a b c d e = ground arith

either : (a b : Bool) → a ≡ false → b ≡ false → (a || b) ≡ false
either a b h k = ground arith

-- the search gave a piece of `bs`
abbrev pub Found : ℕ → ℕ → ℕ → List FreeBlock → Option Taken → Type 0
Found limit aligned lo bs o = (t : Taken) × (o ≡ some t) × Gives limit lo aligned bs t

module _ (limit size aligned : ℕ) (room : size + header_size ≤ aligned)
    (tight : aligned < size + header_size + page_size) (whole : aligned % page_size ≡ 0) where
  use_block-Gives :
      (lo : ℕ) (b : FreeBlock) (bs : List FreeBlock)
      → IsChain limit lo (b ∷ bs)
      → size ≤ b.size
      → Gives limit lo aligned (b ∷ bs) (use_block aligned b bs)
  unfolding use_block
  use_block-Gives lo b bs c h = elim (Bool-cases (ltb aligned b.size)) [
    | inl e ↦
        let more : aligned < b.size = ground arith in
        let p = c.1 in
        rw e (record {
          chained = (
            c.0,
            record { start = p.start; whole = kept p more; within = keeps p more },
            IsChain-weaken limit (end b) _ bs (omega arith) c.2,
          );
          pages = record { start = cut p more; whole = omega arith; within = ends p more };
          lowest = omega arith;
          next = inr (inl refl);
          splits = λ x. or_left _ _ _ _ (cut_block x b.addr b.size aligned more (omega arith));
          apart = λ x i.
              either _ _ (ground arith) (not_free_below limit (end b) x bs c.2 (below x more i));
        })
    | inr e ↦
        let p = c.1 in
        let same : b.size ≡ aligned - header_size = (let w = p.whole in ground arith) in
        rw e (record {
          chained = IsChain-weaken limit (end b) lo bs (omega arith) c.2;
          pages = rw (← same) p;
          lowest = c.0;
          next = On-head bs;
          splits = λ x. rw (← same) refl;
          apart = λ x i. not_free_below limit (end b) x bs c.2 (reach x same i);
        })
  ]
    where
      kept : IsPages limit b → aligned < b.size → (b.size - aligned + header_size) % page_size ≡ 0
      kept p more = let w = p.whole in omega arith

      keeps : IsPages limit b → aligned < b.size → end (block b.addr (b.size - aligned)) ≤ limit
      keeps p more = let w = p.within in omega arith

      cut :
          IsPages limit b → aligned < b.size → end (block b.addr (b.size - aligned)) % page_size ≡ 0
      cut p more = let v = p.start in let w = p.whole in omega arith

      ends :
          IsPages limit b
          → aligned < b.size
          → end (piece (end (block b.addr (b.size - aligned))) aligned) ≤ limit
      ends p more = let w = p.within in omega arith

      below :
          (x : ℕ)
          → aligned < b.size
          → in_block x (piece (end (block b.addr (b.size - aligned))) aligned) ≡ true
          → x ≤ end b
      below x more i = ground arith

      reach :
          (x : ℕ)
          → b.size ≡ aligned - header_size
          → in_block x (piece b.addr aligned) ≡ true
          → x ≤ end b
      reach x same i = ground arith

  -- The search may go on behind a block that is kept.
  prepend-Gives :
      (lo : ℕ) (b : FreeBlock) (bs : List FreeBlock) (t : Taken)
      → lo < b.addr
      → IsPages limit b
      → Gives limit (end b) aligned bs t
      → Gives limit lo aligned (b ∷ bs) (record t { chain = b ∷ t.chain })
  prepend-Gives lo b bs t h p g = record {
    chained = (h, p, g.chained);
    pages = g.pages;
    lowest = let w = g.lowest in omega arith;
    next = later g.next;
    splits = λ x. or_under _ _ _ _ (g.splits x);
    apart = λ x i. either _ _ (let w = g.lowest in ground arith) (g.apart x i);
  }
    where
      later : (t.next ≡ 0) ⊎ On t.next t.chain → (t.next ≡ 0) ⊎ On t.next (b ∷ t.chain)
      later (inl e) = inl e
      later (inr o) = inr (inr o)

  -- The first pass that succeeds takes a piece off; one that fails saw only blocks too small.
  first_fit_lem :
      (lo : ℕ) (bs tail : List FreeBlock)
      → IsChain limit lo (bs ++ tail)
      → ((first_fit size aligned bs tail ≡ none) × TooSmall size bs)
        ⊎ Found limit aligned lo (bs ++ tail) (first_fit size aligned bs tail)
  unfolding first_fit
  first_fit_lem lo [] tail c = inl (refl, tt)
  first_fit_lem lo (b ∷ bs) tail c = elim (Bool-cases (ltb b.size size)) [
    | inr e ↦ inr (_, rw e, use_block-Gives lo b (bs ++ tail) c (ground arith))
    | inl e ↦ rw e (elim (first_fit_lem (end b) bs tail c.2) [
      | inl (n, small) ↦ inl (rw n, (ground arith, small))
      | inr (t, f, g) ↦ inr (_, rw f, prepend-Gives lo b (bs ++ tail) t c.0 c.1 g)
    ])
  ]

  Gives-append :
      (lo : ℕ) (pre post : List FreeBlock) (t : Taken)
      → IsChain limit lo (pre ++ post)
      → ((k : ℕ) → IsChain limit k post → Gives limit k aligned post t)
      → Gives limit lo aligned (pre ++ post) (record t { chain = pre ++ t.chain })
  Gives-append lo [] post t c g = g lo c
  Gives-append lo (b ∷ pre) post t c g =
      prepend-Gives lo b (pre ++ post) (record t { chain = pre ++ t.chain }) c.0 c.1
        (Gives-append (end b) pre post t c.2 g)

  only_some : (a b : Taken) {o : Option Taken} → o ≡ some a → o ≡ some b → b ≡ a
  only_some a b e f = cc

  behind :
      (post : List FreeBlock) (t : Taken)
      → first_fit size aligned post [] ≡ some t
      → (k : ℕ) → IsChain limit k post
      → Gives limit k aligned post t
  behind post t e k c = elim (first_fit_lem k post [] (rw append-nil c)) [
    | inl (n, small) ↦ cc
    | inr (u, f, g) ↦
        rw (only_some u t f e) (subst (λ l. Gives limit k aligned l u) (append-nil post) g)
  ]

  -- Both passes together: a piece of the chain, or no block of it is large enough.
  pub search_free_lem :
      (lo : ℕ) (pre post : List FreeBlock)
      → IsChain limit lo (pre ++ post)
      → ((search_free size aligned pre post ≡ none) × TooSmall size pre × TooSmall size post)
        ⊎ Found limit aligned lo (pre ++ post) (search_free size aligned pre post)
  unfolding search_free
  search_free_lem lo pre post c = elim (Option-cases (first_fit size aligned post [])) [
    | inr (t, e) ↦ inr (_, rw (e, search_free), Gives-append lo pre post t c (behind post t e))
    | inl e ↦ (elim (first_fit_lem lo pre post c) [
      | inr (t, f, g) ↦ inr (t, rw (e, search_free) f, g)
      | inl (n, small) ↦ inl (rw (e, search_free) n, small, none_behind lo pre c e)
    ])
  ]
    where
      none_behind :
          (k : ℕ) (l : List FreeBlock)
          → IsChain limit k (l ++ post)
          → first_fit size aligned post [] ≡ none
          → TooSmall size post
      none_behind k (b ∷ l) c e = none_behind (end b) l c.2 e
      none_behind k [] c e = elim (first_fit_lem k post [] (rw append-nil c)) [
        | inl (n, small) ↦ small
        | inr (u, f, g) ↦ absurd (some_none u (first_fit size aligned post []) f e)
      ]
        where
          some_none : (u : Taken) (o : Option Taken) → o ≡ some u → o ≡ none → ⊥
          some_none u o f e = cc
