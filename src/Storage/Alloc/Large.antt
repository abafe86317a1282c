-- ===== src/Storage/Alloc/Large.antt =====
-- storage.cxx, `get_header` and the page map for objects of several pages.
use post.Prelude.{ℕ, ◌+◌, ◌-◌, ◌/◌, ◌%◌, ◌≡◌, Bool, true, false, some}
use post.Storage.Blocks.{page_size}
use post.Storage.Alloc.{PageMap, Storage, put_bits}

pub remap : Storage → PageMap → (ℕ → Bool) → Storage
remap s m bits = record s { page_map = some (record m { bits = bits }) }

module _ (s : Storage) (m : PageMap) (bp aligned : ℕ) (start : bp % page_size ≡ 0)
    (whole : aligned % page_size ≡ 0) (clear : m.bits (bp / page_size) ≡ false) where
  abbrev after : Storage
  after = remap s m (put_bits true (bp / page_size + 1) (aligned / page_size - 1) m.bits)
