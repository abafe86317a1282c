-- ===== src/Storage/FreePages/Release.antt =====
-- storage.cxx, `storage::free_page` on well-formed chains.
use post.Prelude.{
  ℕ, ◌+◌, ◌-◌, ◌^◌, ◌≤◌, ◌<◌, ◌≡◌, ◌∙◌, ◌⊎◌, inl, inr, Bool, false, ◌||◌, List, [], ◌∷◌, Option,
  some, ltb, ◌==◌, arith, refl, Bool-cases,
}
use post.Storage.Blocks.{header_size, align}
use post.Storage.FreePages.{
  FreeBlock, block, end, u32, FreePages, prepend, join_next, join_prev, place_after, place_first,
  place_from, place, free_page,
}
use post.Storage.FreePages.Chain.{
  IsPages, IsChain, in_block, is_free, On, IsValid, Apart, IsChain-weaken,
}

-- The chain `s` holds what `bs` and `fp` hold together, and is well formed beyond `lo`.
record Holds (limit lo : ℕ) (fp : FreeBlock) (bs : List FreeBlock) (s : FreePages) : Type 0 where
  chained : IsChain limit lo s.chain
  current : On s.curr s.chain
  covers : (x : ℕ) → is_free x s.chain ≡ (in_block x fp || is_free x bs)

abbrev Follows : FreeBlock → List FreeBlock → Type 0
Follows fp [] = Unit
Follows fp (b ∷ bs) = end fp ≤ b.addr

-- two blocks that touch, as one
abbrev joined : FreeBlock → FreeBlock → FreeBlock
joined a b = block a.addr (a.size + b.size + header_size)

in_joined :
    (x : ℕ) (a b : FreeBlock)
    → end a ≡ b.addr
    → in_block x (joined a b) ≡ (in_block x a || in_block x b)
in_joined x a b e = ground arith

or_assoc' : (a b c d : Bool) → d ≡ (a || b) → (d || c) ≡ (a || (b || c))
or_assoc' a b c d e = ground arith

or_swap : (a b c d : Bool) → d ≡ (b || c) → (a || d) ≡ (b || (a || c))
or_swap a b c d e = ground arith

module _ (limit : ℕ) (bounded : limit ≤ 2 ^ 32) where
  -- the sum of two sizes within the file does not wrap
  joined_u32 :
      (a b : FreeBlock)
      → IsPages limit b
      → end a ≡ b.addr
      → u32 (a.size + b.size + header_size) ≡ a.size + b.size + header_size
  joined_u32 a b p e = let w = p.within in omega arith

  joined-IsPages :
      (a b : FreeBlock)
      → IsPages limit a
      → IsPages limit b
      → end a ≡ b.addr
      → IsPages limit (joined a b)
  joined-IsPages a b p q e = record {
    start = p.start;
    whole = let v = p.whole in let w = q.whole in omega arith;
    within = let w = q.within in omega arith;
  }

  join_next-Holds :
      (lo lo' : ℕ) (fp : FreeBlock) (bs : List FreeBlock)
      → lo < fp.addr
      → IsPages limit fp
      → Follows fp bs
      → IsChain limit lo' bs
      → Holds limit lo fp bs (join_next fp bs)
  unfolding join_next
  join_next-Holds lo lo' fp [] h p f c = record {
    chained = (h, p, tt);
    current = inl refl;
    covers = λ x. refl;
  }
  join_next-Holds lo lo' fp (b ∷ bs) h p f c = elim (Bool-cases (end fp == b.addr)) [
    | inl e ↦
        let touch : end fp ≡ b.addr = ground arith in
        rw (e, joined_u32 fp b c.1 touch)
          (record {
            chained = (
              h,
              joined-IsPages fp b p c.1 touch,
              IsChain-weaken limit (end b) _ bs (omega arith) c.2,
            );
            current = inl refl;
            covers = λ x. or_assoc' _ _ _ _ (in_joined x fp b touch);
          })
    | inr e ↦ rw e (record {
      chained = (h, p, (ground arith, c.1, c.2));
      current = inl refl;
      covers = λ x. refl;
    })
  ]

  -- The chain behind `prev`, with `fp` between it and what follows.
  join_prev-Holds :
      (lo : ℕ) (prev fp : FreeBlock) (bs : List FreeBlock)
      → lo < prev.addr
      → IsPages limit prev
      → end prev ≤ fp.addr
      → IsPages limit fp
      → Follows fp bs
      → IsChain limit (end prev) bs
      → Holds limit lo fp (prev ∷ bs) (join_prev prev fp bs)
  unfolding join_prev
  join_prev-Holds lo prev fp bs h q g p f c = elim (Bool-cases (end prev == fp.addr)) [
    | inl e ↦
        let touch : end prev ≡ fp.addr = ground arith in
        let r =
          join_next-Holds lo (end prev) (joined prev fp) bs h (joined-IsPages prev fp q p touch)
            (follows bs f touch) c in
        rw (e, joined_u32 prev fp p touch)
          (record {
            chained = r.chained;
            current = r.current;
            covers = λ x. r.covers x ∙ or_assoc'' _ _ _ _ (in_joined x prev fp touch);
          })
    | inr e ↦
        let r = join_next-Holds (end prev) (end prev) fp bs (ground arith) p f c in
        rw e (record {
          chained = (h, q, r.chained);
          current = inr r.current;
          covers = λ x. or_swap _ _ _ _ (r.covers x);
        })
  ]
    where
      follows :
          (l : List FreeBlock) → Follows fp l → end prev ≡ fp.addr → Follows (joined prev fp) l
      follows [] f e = tt
      follows (b ∷ l) f e = omega arith

      or_assoc'' : (a b c d : Bool) → d ≡ (a || b) → (d || c) ≡ (b || (a || c))
      or_assoc'' a b c d e = ground arith

  abbrev Placed : ℕ → FreeBlock → List FreeBlock → Option FreePages → Type 0
  Placed lo fp bs o = (s : FreePages) × (o ≡ some s) × Holds limit lo fp bs s

  prepend-Placed :
      (lo : ℕ) (fp b : FreeBlock) (bs : List FreeBlock) (o : Option FreePages)
      → lo < b.addr
      → IsPages limit b
      → Placed (end b) fp bs o
      → Placed lo fp (b ∷ bs) (prepend b o)
  prepend-Placed lo fp b bs o h q (s, e, r) = (
    record s { chain = b ∷ s.chain },
    rw e,
    record {
      chained = (h, q, r.chained);
      current = inr r.current;
      covers = λ x. or_swap _ _ _ _ (r.covers x);
    },
  )

  place_after-Placed :
      (lo : ℕ) (prev fp : FreeBlock) (bs : List FreeBlock)
      → lo < prev.addr
      → IsPages limit prev
      → end prev ≤ fp.addr
      → IsPages limit fp
      → IsChain limit (end prev) bs
      → Apart fp bs
      → Placed lo fp (prev ∷ bs) (place_after prev fp bs)
  unfolding place_after
  place_after-Placed lo prev fp [] h q g p c a =
      (_, refl, join_prev-Holds lo prev fp [] h q g p tt c)
  place_after-Placed lo prev fp (b ∷ bs) h q g p c a = elim (Bool-cases (ltb b.addr fp.addr)) [
    | inl e ↦ rw e (
        prepend-Placed lo fp prev (b ∷ bs) (place_after b fp bs) h q
          (place_after-Placed (end prev) b fp bs c.0 c.1 (ground (arith, a.0)) p c.2 a.1))
    | inr e ↦
        let ne : (b.addr == fp.addr) ≡ false = ground (arith, a.0) in
        rw (e, ne) (_, refl, join_prev-Holds lo prev fp (b ∷ bs) h q g p (ground (arith, a.0)) c)
  ]

  place_first-Placed :
      (fp : FreeBlock) (bs : List FreeBlock)
      → 0 < fp.addr
      → IsPages limit fp
      → IsChain limit 0 bs
      → Apart fp bs
      → Placed 0 fp bs (place_first fp bs)
  unfolding place_first
  place_first-Placed fp [] h p c a = (_, refl, join_next-Holds 0 0 fp [] h p tt tt)
  place_first-Placed fp (b ∷ bs) h p c a = elim (Bool-cases (ltb b.addr fp.addr)) [
    | inl e ↦ rw e (place_after-Placed 0 b fp bs c.0 c.1 (ground (arith, a.0)) p c.2 a.1)
    | inr e ↦
        let ne : (b.addr == fp.addr) ≡ false = ground (arith, a.0) in
        rw (e, ne) (_, refl, join_next-Holds 0 0 fp (b ∷ bs) h p (ground (arith, a.0)) c)
  ]

  place_from-Placed :
      (curr lo : ℕ) (fp : FreeBlock) (bs : List FreeBlock)
      → On curr bs
      → curr < fp.addr
      → IsPages limit fp
      → IsChain limit lo bs
      → Apart fp bs
      → Placed lo fp bs (place_from curr fp bs)
  unfolding place_from
  place_from-Placed curr lo fp [] o h p c a = absurd o
  place_from-Placed curr lo fp (b ∷ bs) o h p c a = elim (Bool-cases (b.addr == curr)) [
    | inl e ↦ rw e (place_after-Placed lo b fp bs c.0 c.1 (ground (arith, a.0)) p c.2 a.1)
    | inr e ↦ rw e (
        prepend-Placed lo fp b bs (place_from curr fp bs) c.0 c.1
          (place_from-Placed curr (end b) fp bs (ground arith) h p c.2 a.1))
  ]

  place-Placed :
      (fp : FreeBlock) (s : FreePages)
      → 0 < fp.addr
      → IsPages limit fp
      → ((s.chain ≡ []) × (s.curr ≡ 0)) ⊎ On s.curr s.chain
      → IsChain limit 0 s.chain
      → Apart fp s.chain
      → Placed 0 fp s.chain (place fp s)
  unfolding place
  place-Placed fp s h p o c a =
      let first = place_first-Placed fp s.chain h p c a in
      elim (Bool-cases (s.curr == 0)) [
        | inl e ↦ rw e first
        | inr e ↦ (elim (Bool-cases (ltb s.curr fp.addr)) [
          | inr f ↦ rw (e, f) first
          | inl f ↦
              let on : On s.curr s.chain = ground arith in
              rw (e, f) (place_from-Placed s.curr 0 fp s.chain on (ground arith) p c a)
        ])
      ]

-- Giving back an object of whole pages that is disjoint from the chain succeeds: the new chain is
-- well formed, with touching blocks joined and `curr_free_page` on it, and exactly the bytes of the
-- object's pages have become free.
pub free_page-IsValid :
    (limit addr size : ℕ) (s : FreePages)
    → IsValid limit s
    → 0 < addr
    → IsPages limit (block addr (align (size + header_size) - header_size))
    → Apart (block addr (align (size + header_size) - header_size)) s.chain
    → (s' : FreePages) × (free_page addr size s ≡ some s')
      × IsValid limit s'
      × ((x : ℕ)
          → is_free x s'.chain ≡ (
              in_block x (block addr (align (size + header_size) - header_size))
              || is_free x s.chain))
unfolding free_page
free_page-IsValid limit addr size s v h p a =
    let n = align (size + header_size) - header_size in
    let small : u32 n ≡ n = (let b = v.bounded in let w = p.within in omega arith) in
    let (s', e, r) = place-Placed limit v.bounded (block addr n) s h p v.current v.chained a in
    (
      s',
      rw small e,
      record { bounded = v.bounded; chained = r.chained; current = inr r.current },
      r.covers,
    )
