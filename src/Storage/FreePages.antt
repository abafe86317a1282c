-- ===== src/Storage/FreePages.antt =====
-- The chain of free pages (storage.cxx, `storage::free_page` and the search of
-- `storage::alloc_page`). A free block stands for its header's `size` and its link; the chain
-- is the list of the blocks in link order. `curr_free_page` is the address of a block of the chain,
-- or 0 for NULL (no block stands at offset 0). `none` is a failed assertion, or a link read through
-- a `curr_free_page` that is not on the chain.
pub mod Chain
pub mod Release
pub mod Fit
pub mod Take
use post.Prelude.{
  ℕ, zero, suc, ◌+◌, ◌-◌, ◌*◌, ◌%◌, ◌^◌, Bool, Option, none, some, List, [], ◌∷◌, ◌++◌, ltb, ◌==◌,
  if◌then◌else◌,
}
use post.Storage.Blocks.{header_size, align}

-- `storage_free_block`: an offset from `hdr`, and the bytes behind the header
pub record FreeBlock : Type 0 where
  pub addr : ℕ
  pub size : ℕ

abbrev pub block : ℕ → ℕ → FreeBlock
block a n = record { addr = a; size = n }

-- `(char*)bp + bp->size + sizeof(object_header)`
abbrev pub end : FreeBlock → ℕ
end b = b.addr + b.size + header_size

-- `unsigned` arithmetic
abbrev pub u32 : ℕ → ℕ
u32 n = n % 2 ^ 32

-- `hdr->free_page_chain` and `curr_free_page`
pub record FreePages : Type 0 where
  pub chain : List FreeBlock
  pub curr : ℕ

abbrev pub head_addr : List FreeBlock → ℕ
head_addr [] = 0
head_addr (b ∷ bs) = b.addr

-- The end of `free_page`: `fp` is linked before `bp`, or joined to it if it ends where `bp` starts.
unfoldable pub join_next : FreeBlock → List FreeBlock → FreePages
join_next fp [] = record { chain = fp ∷ []; curr = fp.addr }
join_next fp (bp ∷ rest) =
    if end fp == bp.addr
    then record {
      chain = block fp.addr (u32 (fp.size + bp.size + header_size)) ∷ rest;
      curr = fp.addr;
    }
    else record { chain = fp ∷ bp ∷ rest; curr = fp.addr }

abbrev pub prepend : FreeBlock → Option FreePages → Option FreePages
prepend b none = none
prepend b (some s) = some (record s { chain = b ∷ s.chain })

-- `fp` comes behind `prev`, and is joined to it if it starts where `prev` ends.
unfoldable pub join_prev : FreeBlock → FreeBlock → List FreeBlock → FreePages
unfolding join_next
join_prev prev fp rest =
    if end prev == fp.addr
    then join_next (block prev.addr (u32 (prev.size + fp.size + header_size))) rest
    else (let s = join_next fp rest in record s { chain = prev ∷ s.chain })

-- The `while` loop of `free_page` with `prev` not NULL.
unfoldable pub place_after : FreeBlock → FreeBlock → List FreeBlock → Option FreePages
unfolding join_prev
place_after prev fp [] = some (join_prev prev fp [])
place_after prev fp (bp ∷ rest) =
    let further = place_after bp fp rest in
    if ltb bp.addr fp.addr
    then prepend prev further
    else if bp.addr == fp.addr
    then none
    else some (join_prev prev fp (bp ∷ rest))

-- The loop from the start of the chain.
unfoldable pub place_first : FreeBlock → List FreeBlock → Option FreePages
unfolding place_after
place_first fp [] = some (join_next fp [])
place_first fp (bp ∷ rest) =
    if ltb bp.addr fp.addr
    then place_after bp fp rest
    else if bp.addr == fp.addr
    then none
    else some (join_next fp (bp ∷ rest))

-- The loop from `curr_free_page`.
unfoldable pub place_from : ℕ → FreeBlock → List FreeBlock → Option FreePages
unfolding place_after
place_from curr fp [] = none
place_from curr fp (b ∷ rest) =
    let further = place_from curr fp rest in
    if b.addr == curr then place_after b fp rest else prepend b further

-- The loop starts at `curr_free_page` if that lies before the block.
unfoldable pub place : FreeBlock → FreePages → Option FreePages
unfolding place_first place_from
place fp s =
    if s.curr == 0
    then place_first fp s.chain
    else if ltb s.curr fp.addr
    then place_from s.curr fp s.chain
    else place_first fp s.chain

-- `free_page` on the chain: `addr` and `size` are those of the header, and the size is rounded up
-- to whole pages.
unfoldable pub free_page : ℕ → ℕ → FreePages → Option FreePages
unfolding place
free_page addr size s = place (block addr (u32 (align (size + header_size) - header_size))) s

-- What the search of `alloc_page` found: the block's address, the new chain, and the new
-- `curr_free_page` or 0 where the code takes the start of the chain.
pub record Taken : Type 0 where
  pub addr : ℕ
  pub chain : List FreeBlock
  pub next : ℕ

-- A large block keeps its front and gives its tail; another is unlinked.
unfoldable pub use_block : ℕ → FreeBlock → List FreeBlock → Taken
use_block aligned bp rest =
    if ltb aligned bp.size
    then (let kept = block bp.addr (bp.size - aligned) in
        record { addr = end kept; chain = kept ∷ rest; next = bp.addr })
    else record { addr = bp.addr; chain = rest; next = head_addr rest }

abbrev pub prepend_taken : FreeBlock → Option Taken → Option Taken
prepend_taken b none = none
prepend_taken b (some t) = some (record t { chain = b ∷ t.chain })

-- The loop `while ((bp = *bpp) != NULL && bp->size < size)` over the first list; the second is what
-- the chain goes on with.
unfoldable pub first_fit : ℕ → ℕ → List FreeBlock → List FreeBlock → Option Taken
unfolding use_block
first_fit size aligned [] tail = none
first_fit size aligned (bp ∷ rest) tail =
    let further = first_fit size aligned rest tail in
    if ltb bp.size size
    then prepend_taken bp further
    else some (use_block aligned bp (rest ++ tail))

-- The chain up to `curr_free_page` and behind it.
unfoldable pub split_at : ℕ → List FreeBlock → Option (List FreeBlock × List FreeBlock)
split_at curr [] = none
split_at curr (b ∷ bs) =
    if b.addr == curr
    then some (b ∷ [], bs)
    else (elim (split_at curr bs) [ none ↦ none | some (pre, post) ↦ some (b ∷ pre, post) ])

-- The two passes: behind `curr_free_page`, then from the start up to it.
unfoldable pub search_free : ℕ → ℕ → List FreeBlock → List FreeBlock → Option Taken
unfolding first_fit
search_free size aligned pre post = elim (first_fit size aligned post []) [
  | some t ↦ some (record t { chain = pre ++ t.chain })
  | none ↦ first_fit size aligned pre post
]

pub data Search : Type 0 where
  fault : Search
  absent : Search
  found : ℕ → FreePages → Search

abbrev pub finish : Option Taken → Search
finish none = absent
finish (some t) =
    found t.addr
      (record { chain = t.chain; curr = if t.next == 0 then head_addr t.chain else t.next })

take_from : ℕ → ℕ → List FreeBlock → Search
take_from size curr [] = absent
take_from size curr (b ∷ bs) = elim (split_at curr (b ∷ bs)) [
  | none ↦ fault
  | some (pre, post) ↦ finish (search_free size (align (size + header_size)) pre post)
]

-- The part of `alloc_page` that reads the chain.
unfoldable pub take_pages : ℕ → FreePages → Search
unfolding take_from search_free split_at
take_pages size s = take_from size s.curr s.chain
