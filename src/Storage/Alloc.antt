-- ===== src/Storage/Alloc.antt =====
-- The allocator as a whole (storage.h `_allocate` and `free`; storage.cxx `get_header`,
-- `alloc_page` and `free_page`). Addresses are offsets from `hdr`, and NULL is 0.
-- `data_file.set_size` is a parameter: whether the file can be given a size. A failed assertion or a
-- read through NULL is `fault`; the default `handle_error` aborts, which is `aborted`.
pub mod Slots
pub mod Large
pub mod RoundTrip
use post.Prelude.{
  ℕ, zero, suc, ◌+◌, ◌-◌, ◌*◌, ◌/◌, ◌%◌, ◌^◌, Bool, true, false, ◌&&◌, not, Option, none, some,
  List, [], ◌∷◌, ◌++◌, ltb, leb, ◌==◌, if◌then◌else◌, get_or, set,
}
use post.Storage.Blocks.{page_size, header_size, align, chain_of, slot_size, small_header}
use post.Storage.FreePages
use post.Storage.FreePages.{FreePages, u32, Search, take_pages}

-- `object_header`; the reserved class numbers
pub record Header : Type 0 where
  pub cid : ℕ
  pub size : ℕ

abbrev pub free_object : ℕ
free_object = 0

abbrev pub page_map_cid : ℕ
page_map_cid = 2

-- `storage_page_map`: `size` bytes of bits, bit `p` for page `p`
pub record PageMap : Type 0 where
  pub addr : ℕ
  pub size : ℕ
  pub bits : ℕ → Bool

-- `storage_header` and `curr_free_page`. The headers of blocks on the chain of free pages keep
-- their class number here, and their sizes in `pages`.
pub record Storage : Type 0 where
  pub file_size : ℕ
  pub pages : FreePages
  pub free_block_chain : List (List ℕ)
  pub page_map : Option PageMap
  pub headers : ℕ → Header

pub data Outcome (A : Type 0) : Type 0 where
  fault : Outcome A
  aborted : Outcome A
  done : A → Outcome A

infixl 5 ◌>>=◌
abbrev pub ◌>>=◌ : {A B : Type 0} → Outcome A → (A → Outcome B) → Outcome B
fault >>= f = fault
aborted >>= f = aborted
done a >>= f = f a

abbrev pub or_fault : {A : Type 0} → Option A → Outcome A
or_fault none = fault
or_fault (some a) = done a

abbrev pub write : (ℕ → Header) → ℕ → Header → ℕ → Header
write h a v b = if b == a then v else h b

-- `bits[page_no >> 3] |= 1 << (page_no & 7)` for `n` pages from `first`; `value` false clears them.
unfoldable pub put_bits : Bool → ℕ → ℕ → (ℕ → Bool) → ℕ → Bool
put_bits value first n bits p = if leb first p && ltb p (first + n) then value else bits p

-- The bits of the pages behind the first of an object of `aligned` bytes, if it has any.
unfoldable pub mark_object : Bool → ℕ → ℕ → Storage → Outcome Storage
unfolding put_bits
mark_object value addr aligned s = elim s.page_map [
  | none ↦ fault
  | some m ↦ done (record s {
    page_map = some (record m {
      bits = put_bits value (addr / page_size + 1) (aligned / page_size - 1) m.bits;
    });
  })
]

unfoldable pub free_page : ℕ → Storage → Outcome Storage
unfolding mark_object
free_page addr s =
    let h = s.headers addr in
    let aligned = align (h.size + header_size) in
    or_fault (FreePages.free_page addr h.size s.pages) >>= λ pages.
    (if ltb page_size aligned && not (h.cid == free_object) && not (h.cid == page_map_cid)
      then mark_object false addr aligned s
      else done s)
    >>= λ s'. done (record s' {
      pages = pages;
      headers =
          write s.headers addr (record { cid = free_object; size = u32 (aligned - header_size) });
    })

-- `(file_size + sizeof(object_header) + page_size*8 - 2) / (page_size*8 - 1)`
abbrev pub map_bytes : ℕ → ℕ
map_bytes file_size = (file_size + header_size + page_size * 8 - 2) / (page_size * 8 - 1)

-- What `alloc_page` calls itself with: class number and size to the block's address.
abbrev pub Alloc : Type 0
Alloc = ℕ → ℕ → Storage → Outcome (ℕ × Storage)

-- The page map is replaced by a larger one once the file outgrows it.
grow_map : Alloc → Storage → Outcome Storage
unfolding free_page
grow_map alloc s = elim s.page_map [
  | none ↦ done s
  | some m ↦
      if ltb (m.size * page_size * 8) s.file_size
      then (let new_size = align (map_bytes s.file_size + header_size) * 2 - header_size in
          alloc page_map_cid (u32 new_size) s >>= λ r. free_page m.addr r.1 >>= λ s'.
          done (record s' {
            page_map = some (record {
              addr = r.0;
              size = u32 new_size;
              bits = λ p. if ltb p (m.size * 8) then m.bits p else false;
            });
          }))
      else done s
]

-- No free block is large enough: the file is extended.
extend : (ℕ → Bool) → Alloc → ℕ → ℕ → Storage → Outcome (ℕ × Storage)
unfolding grow_map
extend set_size alloc cid aligned s =
    if set_size (s.file_size + aligned)
    then (let s' = record s { file_size = s.file_size + aligned } in
        (if cid == page_map_cid then done s' else grow_map alloc s') >>= λ s''.
        done (s.file_size, s''))
    else aborted

-- The first part of `alloc_page`: whole pages, from the chain or from the end of the file.
unfoldable pub grab : (ℕ → Bool) → Alloc → ℕ → ℕ → Storage → Outcome (ℕ × Storage)
unfolding extend
grab set_size alloc cid size s = elim (take_pages size s.pages) [
  | Search.fault ↦ fault
  | Search.absent ↦ extend set_size alloc cid (align (size + header_size)) s
  | Search.found addr pages ↦ done (addr, record s { pages = pages })
]

-- The `do` loop that cuts a page into slots: their addresses from `cp`, while they end by `last`.
unfoldable pub slots_from : ℕ → ℕ → ℕ → ℕ → List ℕ
slots_from zero cp size last = []
slots_from (suc n) cp size last =
    let more = slots_from n (cp + size) size last in
    cp ∷ (if ltb (cp + size) last then more else [])

-- All slots of the page at `bp` but the first; a page has at most `page_size / 16` slots.
unfoldable pub slots : ℕ → ℕ → List ℕ
slots bp size = slots_from (page_size / 16) (bp + size) size (bp + page_size - size + 1)

-- `cp->cid = object_header::free_object` at each address
unfoldable pub mark_free : List ℕ → (ℕ → Header) → ℕ → Header
mark_free [] h = h
mark_free (a ∷ rest) h =
    mark_free rest (write h a (record { cid = free_object; size = (h a).size }))

unfoldable pub carve : ℕ → ℕ → Storage → Storage
unfolding slots slots_from mark_free
carve bp size s =
    let cut = slots bp (slot_size size) in
    let n = chain_of size in
    record s {
      free_block_chain = set s.free_block_chain n (cut ++ get_or s.free_block_chain n []);
      headers = mark_free cut s.headers;
    }

-- A first object of several pages brings the page map into being.
need_map : Alloc → Storage → Outcome Storage
need_map alloc s = elim s.page_map [
  | some m ↦ done s
  | none ↦
      (let map_size = align (map_bytes s.file_size + header_size) * 8 - header_size in
        alloc page_map_cid (u32 map_size) s >>= λ r. done (record r.1 {
          page_map = some (record { addr = r.0; size = u32 map_size; bits = λ p. false });
        }))
]

-- The second part of `alloc_page`, on the block at `bp`.
unfoldable pub set_up : Alloc → ℕ → ℕ → ℕ → Storage → Outcome Storage
unfolding carve need_map mark_object
set_up alloc cid size bp s =
    let aligned = align (size + header_size) in
    let s' = record s { headers = write s.headers bp (record { cid = cid; size = size }) } in
    if leb (size + header_size) (page_size / 2)
    then done (carve bp size s')
    else if ltb page_size aligned && not (cid == page_map_cid)
    then need_map alloc s' >>= mark_object true bp aligned
    else done s'

-- `alloc_page` over the calls that it makes of itself; it returns the block, where the code returns
-- the object behind the block's header.
unfoldable pub alloc_page_with : (ℕ → Bool) → Alloc → Alloc
unfolding grab set_up
alloc_page_with set_size alloc cid size s =
    grab set_size alloc cid size s >>= λ r. set_up alloc cid size r.0 r.1 >>= λ s'. done (r.0, s')

-- The calls inside ask for a page map, and such a call makes no further one.
unfoldable pub alloc_page : (ℕ → Bool) → Alloc
unfolding alloc_page_with
alloc_page set_size = alloc_page_with set_size (alloc_page_with set_size (λ cid size s. fault))

-- `_allocate`; `class_mapping` is `app_class_mapping`.
unfoldable pub allocate : (ℕ → Bool) → (ℕ → ℕ) → ℕ → ℕ → Storage → Outcome (ℕ × Storage)
unfolding alloc_page
allocate set_size class_mapping app_class_id size s =
    let cid = class_mapping app_class_id in
    let n = chain_of size in
    let object = λ (r : ℕ × Storage). done (r.0 + header_size, r.1) in
    if cid == 0
    then fault
    else if leb (size + header_size) (page_size / 2)
    then (elim (get_or s.free_block_chain n []) [
      | [] ↦ alloc_page set_size cid size s >>= object
      | bp ∷ rest ↦ object (
        bp,
        record s {
          free_block_chain = set s.free_block_chain n rest;
          headers = write s.headers bp (record { cid = cid; size = size });
        },
      )
    ])
    else alloc_page set_size cid size s >>= object

-- The `do` loop of `get_header`: back over marked pages.
unfoldable pub walk_back : (ℕ → Bool) → ℕ → Outcome ℕ
walk_back bits zero = fault
walk_back bits (suc p) = let rest = walk_back bits p in if bits p then rest else done p

abbrev pub marked : Option PageMap → ℕ → Bool
marked none p = false
marked (some m) p = m.bits p

-- The block that holds the address `addr`, and the check that it is in use.
unfoldable pub header_at : ℕ → Storage → Outcome ℕ
unfolding walk_back
header_at addr s =
    let page_no = addr / page_size in
    let first = (s.headers (page_no * page_size)).size in
    if marked s.page_map page_no
    then (walk_back (marked s.page_map) page_no >>= λ p. done (p * page_size))
    else if leb (first + header_size) (page_size / 2)
    then done (small_header first addr)
    else done (page_no * page_size)

-- `get_header` of an object; an address below the header wraps around and fails the first check.
unfoldable pub get_header : ℕ → Storage → Outcome ℕ
unfolding header_at
get_header obj s =
    if ltb obj header_size
    then fault
    else if ltb (obj - header_size) s.file_size
    then (header_at (obj - header_size) s >>= λ hp.
        if (s.headers hp).cid == free_object then fault else done hp)
    else fault

-- `storage::free`
unfoldable pub free : ℕ → Storage → Outcome Storage
unfolding get_header free_page
free obj s = get_header obj s >>= λ hp.
    let h = s.headers hp in
    let n = chain_of h.size in
    if leb (h.size + header_size) (page_size / 2)
    then done (record s {
      free_block_chain = set s.free_block_chain n (hp ∷ get_or s.free_block_chain n []);
      headers = write s.headers hp (record { cid = free_object; size = h.size });
    })
    else free_page hp s
