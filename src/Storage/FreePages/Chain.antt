-- ===== src/Storage/FreePages/Chain.antt =====
-- Well-formed chains of free pages: the blocks are whole pages in order of address, no two of them
-- touch, and they end within the file.
use post.Prelude.{
  ℕ, ◌+◌, ◌%◌, ◌^◌, ◌≤◌, ◌<◌, ◌≡◌, ◌⊎◌, Bool, false, ◌&&◌, ◌||◌, List, [], ◌∷◌, leb, ltb, arith,
}
use post.Storage.Blocks.{page_size, header_size}
use post.Storage.FreePages.{FreeBlock, end, FreePages}

-- a whole number of pages that ends within the file
pub record IsPages (limit : ℕ) (b : FreeBlock) : Type 0 where
  pub start : b.addr % page_size ≡ 0
  pub whole : (b.size + header_size) % page_size ≡ 0
  pub within : end b ≤ limit

-- the blocks lie beyond `lo`, with a gap before each
abbrev pub IsChain : ℕ → ℕ → List FreeBlock → Type 0
IsChain limit lo [] = Unit
IsChain limit lo (b ∷ bs) = (lo < b.addr) × IsPages limit b × IsChain limit (end b) bs

abbrev pub in_block : ℕ → FreeBlock → Bool
in_block x b = leb b.addr x && ltb x (end b)

-- the byte at offset `x` belongs to a free block
abbrev pub is_free : ℕ → List FreeBlock → Bool
is_free x [] = false
is_free x (b ∷ bs) = in_block x b || is_free x bs

-- `curr_free_page` points at a block of the chain
abbrev pub On : ℕ → List FreeBlock → Type 0
On curr [] = ⊥
On curr (b ∷ bs) = (b.addr ≡ curr) ⊎ On curr bs

pub record IsValid (limit : ℕ) (s : FreePages) : Type 0 where
  pub bounded : limit ≤ 2 ^ 32
  pub chained : IsChain limit 0 s.chain
  pub current : ((s.chain ≡ []) × (s.curr ≡ 0)) ⊎ On s.curr s.chain

-- no byte of the block belongs to the chain
abbrev pub Apart : FreeBlock → List FreeBlock → Type 0
Apart fp [] = Unit
Apart fp (b ∷ bs) = ((end fp ≤ b.addr) ⊎ (end b ≤ fp.addr)) × Apart fp bs

pub IsChain-weaken :
    (limit lo lo' : ℕ) (bs : List FreeBlock) → lo' ≤ lo → IsChain limit lo bs → IsChain limit lo' bs
IsChain-weaken limit lo lo' [] h c = tt
IsChain-weaken limit lo lo' (b ∷ bs) h c = (omega arith, c.1, c.2)
