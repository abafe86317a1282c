-- ===== src/Storage/Blocks/Classes.antt =====
-- storage.cxx, the tables `block_chain` and `block_size` over all sizes of small objects.
use post.Prelude.{
  ℕ, ◌+◌, ◌/◌, ◌≤◌, ◌<◌, ◌≡◌, refl, Bool, true, ◌&&◌, ◌||◌, not, ltb, leb, ◌==◌, arith, holds_below,
  holds_below-at,
}
use post.Storage.Blocks.{page_size, header_size, chain_of, slot_size}

fits : ℕ → Bool
unfolding slot_size chain_of
fits size =
    leb (size + header_size) (slot_size size)
    && leb (slot_size size) (page_size / 2)
    && leb 16 (slot_size size)
    && ltb (chain_of size) 13

fits_table : holds_below fits 249 ≡ true
unfolding fits holds_below
fits_table = refl

-- The slot of a small object holds its header and its body, a free block's header and link fit in
-- every slot, a slot is at most half a page, and the chain number is within the 13 chains.
pub slot_size_bounds :
    (size : ℕ)
    → size + header_size ≤ page_size / 2
    → (size + header_size ≤ slot_size size)
      × (16 ≤ slot_size size)
      × (slot_size size ≤ page_size / 2)
      × (chain_of size < 13)
unfolding fits
slot_size_bounds size h =
    let e = holds_below-at fits 249 size (omega arith) fits_table in ground arith

agree : ℕ → ℕ → Bool
agree a b = not (chain_of a == chain_of b) || slot_size a == slot_size b

row : ℕ → Bool
row a = holds_below (agree a) 249

agree_table : holds_below row 249 ≡ true
unfolding row agree slot_size chain_of holds_below
agree_table = refl

implied : (c d s t : ℕ) → (not (c == d) || s == t) ≡ true → c ≡ d → s ≡ t
implied c d s t h e = ground arith

-- Objects that share a free chain have slots of one size, so a freed slot serves any of them and
-- the header at the start of a page tells the slot size of the whole page.
pub slot_size-chain_of :
    (a b : ℕ)
    → a + header_size ≤ page_size / 2
    → b + header_size ≤ page_size / 2
    → chain_of a ≡ chain_of b
    → slot_size a ≡ slot_size b
unfolding row agree
slot_size-chain_of a b ha hb e =
    let of_a = holds_below-at row 249 a (omega arith) agree_table in
    implied _ _ _ _ (holds_below-at (agree a) 249 b (omega arith) of_a) e
