-- ===== src/Storage/Blocks.antt =====
-- The size classes of small objects (storage.cxx, the tables of the default configuration without
-- LARGE_OBJECTS) and the address arithmetic of `storage::get_header` within one page.
-- An address is an offset from `hdr`, which is aligned to a page.
pub mod Classes
pub mod Interior
use post.Prelude.{
  ℕ, ◌+◌, ◌-◌, ◌*◌, ◌/◌, ◌%◌, ◌≤◌, ◌<◌, Bool, List, [], ◌∷◌, bit_and, get_or, ◌==◌, if◌then◌else◌,
}

-- `page_size`
abbrev pub page_size : ℕ
page_size = 512

-- `sizeof(object_header)`: an `int` and an `unsigned`
abbrev pub header_size : ℕ
header_size = 8

-- `ALIGN(x, page_size)`: the mask `& ~(page_size - 1)` drops the remainder
abbrev pub align : ℕ → ℕ
align x = (x + page_size - 1) / page_size * page_size

unfoldable pub block_chain : List ℕ
block_chain =
    0 ∷ 0 ∷ 1 ∷ 2 ∷ 3 ∷ 4 ∷ 5 ∷ 6 ∷ 7 ∷ 8 ∷ 9 ∷ 9 ∷ 10 ∷ 10 ∷ 10 ∷ 10 ∷ 11 ∷ 11 ∷ 11 ∷ 11 ∷ 11 ∷ 12
    ∷ 12 ∷ 12 ∷ 12 ∷ 12 ∷ 12 ∷ 12 ∷ 12 ∷ 12 ∷ 12 ∷ 12 ∷ []

unfoldable pub block_size : List ℕ
block_size =
    16 ∷ 16 ∷ 24 ∷ 32 ∷ 40 ∷ 48 ∷ 56 ∷ 64 ∷ 72 ∷ 80 ∷ 96 ∷ 96 ∷ 128 ∷ 128 ∷ 128 ∷ 128 ∷ 168 ∷ 168
    ∷ 168 ∷ 168 ∷ 168 ∷ 256 ∷ 256 ∷ 256 ∷ 256 ∷ 256 ∷ 256 ∷ 256 ∷ 256 ∷ 256 ∷ 256 ∷ 256 ∷ []

-- `((size + sizeof(object_header) + 7) >> 3) - 1`
abbrev pub class_index : ℕ → ℕ
class_index size = (size + header_size + 7) / 8 - 1

-- `block_chain[((size + sizeof(object_header) + 7) >> 3) - 1]`
unfoldable pub chain_of : ℕ → ℕ
unfolding block_chain
chain_of size = get_or block_chain (class_index size) 0

unfoldable pub slot_size : ℕ → ℕ
unfolding block_size
slot_size size = get_or block_size (class_index size) 0

-- The branch of `get_header` for a page of small objects: `addr` is the object's address less the
-- header, and `first` is the size in the header at the start of the page.
unfoldable pub small_header : ℕ → ℕ → ℕ
unfolding slot_size
small_header first addr =
    let size = slot_size first in
    if bit_and size (size - 1) == 0 then addr - addr % size else addr - addr % page_size % size
