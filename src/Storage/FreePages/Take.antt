-- ===== src/Storage/FreePages/Take.antt =====
-- storage.cxx, the search of `storage::alloc_page` on well-formed chains.
use post.Prelude.{
  ℕ, ◌+◌, ◌-◌, ◌<◌, ◌≡◌, ap, subst, if◌then◌else◌, ◌⊎◌, inl, inr, Bool, true, false, ◌||◌, ◌&&◌,
  List, [], ◌∷◌, ◌++◌, Option, none, some, ◌==◌, arith, refl, Bool-cases, All, All-append,
}
use post.Storage.Blocks.{header_size, align}
use post.Storage.FreePages.{
  FreeBlock, block, head_addr, FreePages, Taken, split_at, search_free, Search, absent, found,
  finish, take_from, take_pages,
}
use post.Storage.FreePages.Chain.{IsPages, in_block, is_free, On, IsValid}
use post.Storage.FreePages.Fit.{TooSmall, Gives, Found, search_free_lem}

split_at_lem :
    (curr : ℕ) (bs : List FreeBlock)
    → On curr bs
    → (pre : List FreeBlock) × (post : List FreeBlock) × (split_at curr bs ≡ some (pre, post))
      × (pre ++ post ≡ bs)
unfolding split_at
split_at_lem curr [] o = absurd o
split_at_lem curr (b ∷ bs) o = elim (Bool-cases (b.addr == curr)) [
  | inl e ↦ (b ∷ [], bs, rw e, refl)
  | inr e ↦
      let rest : On curr bs = ground arith in
      let (pre, post, f, g) = split_at_lem curr bs rest in
      (b ∷ pre, post, rw (e, f), ap (λ l. b ∷ l) g)
]

never_both : (a b : Bool) → (a ≡ true → b ≡ false) → (a && b) ≡ false
never_both true b h = h refl
never_both false b h = refl

-- What `take_pages` promises: it never faults; it finds nothing only if no free block is large
-- enough; else it hands out whole free pages, which are free no more, and the rest of the chain is
-- well formed and as free as before.
pub data Takes (limit size : ℕ) (s : FreePages) : Search → Type 0 where
  misses : All (λ b. b.size < size) s.chain → Takes limit size s absent
  hits :
      (addr : ℕ) (s' : FreePages)
      → 0 < addr
      → IsValid limit s'
      → IsPages limit (block addr (align (size + header_size) - header_size))
      → ((x : ℕ)
          → is_free x s.chain ≡ (
              in_block x (block addr (align (size + header_size) - header_size))
              || is_free x s'.chain))
      → ((x : ℕ)
          → (in_block x (block addr (align (size + header_size) - header_size))
              && is_free x s'.chain)
            ≡ false)
      → Takes limit size s (found addr s')

finish-Takes :
    (limit size : ℕ) (s : FreePages) (o : Option Taken)
    → IsValid limit s
    → ((o ≡ none) × TooSmall size s.chain)
      ⊎ ((t : Taken) × (o ≡ some t) × Gives limit 0 (align (size + header_size)) s.chain t)
    → Takes limit size s (finish o)
finish-Takes limit size s o v (inl (e, small)) = rw e (misses small)
finish-Takes limit size s o v (inr (t, e, g)) = rw e (
    hits t.addr _ g.lowest
      (record { bounded = v.bounded; chained = g.chained; current = current t.chain g.next })
      g.pages g.splits (λ x. never_both _ _ (g.apart x)))
  where
    current :
        (l : List FreeBlock)
        → (t.next ≡ 0) ⊎ On t.next l
        → ((l ≡ []) × ((if t.next == 0 then head_addr l else t.next) ≡ 0))
          ⊎ On (if t.next == 0 then head_addr l else t.next) l
    current [] n = inl (refl, ground arith)
    current (b ∷ bs) n = inr (ground arith)

take_from-Takes :
    (limit size curr : ℕ) (l : List FreeBlock)
    → IsValid limit (record { chain = l; curr = curr })
    → Takes limit size (record { chain = l; curr = curr }) (take_from size curr l)
unfolding take_from
take_from-Takes limit size curr [] v = misses tt
take_from-Takes limit size curr (b ∷ bs) v =
    let aligned = align (size + header_size) in
    let on : On curr (b ∷ bs) = ground (arith, v.current) in
    let (pre, post, e, g) = split_at_lem curr (b ∷ bs) on in
    rw (e, take_from)
      (finish-Takes limit size _ (search_free size aligned pre post) v (
        convert pre post g (
          search_free_lem limit size aligned (omega arith) (omega arith) (omega arith) 0 pre post
            (rw g v.chained))))
  where
    convert :
        (pre post : List FreeBlock)
        → pre ++ post ≡ b ∷ bs
        → ((search_free size (align (size + header_size)) pre post ≡ none)
            × TooSmall size pre
            × TooSmall size post)
          ⊎ Found limit
              (align (size + header_size))
              0
              (pre ++ post)
              (search_free size (align (size + header_size)) pre post)
        → ((search_free size (align (size + header_size)) pre post ≡ none) × TooSmall size (b ∷ bs))
          ⊎ ((t : Taken) × (search_free size (align (size + header_size)) pre post ≡ some t)
              × Gives limit 0 (align (size + header_size)) (b ∷ bs) t)
    convert pre post g (inl (n, s1, s2)) =
        inl (n, subst (λ l. TooSmall size l) g (All-append _ pre post s1 s2))
    convert pre post g (inr (t, f, h)) =
        inr (t, f, subst (λ l. Gives limit 0 (align (size + header_size)) l t) g h)

-- The search of `alloc_page` never faults on a valid chain. It finds nothing only when every free
-- block is too small; otherwise it hands out whole free pages, which are free no more, while the
-- rest of the chain stays well formed and as free as before.
pub take_pages-Takes :
    (limit size : ℕ) (s : FreePages) → IsValid limit s → Takes limit size s (take_pages size s)
unfolding take_pages
take_pages-Takes limit size s v = take_from-Takes limit size s.curr s.chain v
