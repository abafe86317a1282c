-- ===== src/Storage/Alloc/RoundTrip.antt =====
-- storage.h, `allocate` and `free` of small objects, and `get_header` on their slots.
use post.Prelude.{
  ℕ, zero, suc, ◌+◌, ◌-◌, ◌*◌, ◌/◌, ◌≤◌, ◌<◌, ◌≡◌, ◌≢◌, refl, Bool, true, false, List, [], ◌∷◌,
  arith, ltb, ap, subst, le→leb, ne→==, ==_refl, length, get_or, set, get_or-set_self,
}
use post.Storage.Blocks.{page_size, header_size, chain_of, slot_size, small_header}
use post.Storage.Blocks.Classes.{slot_size-chain_of, slot_size_bounds}
use post.Storage.Blocks.Interior.{small_header-slot}
use post.Storage.Alloc.{
  free_object, Storage, done, ◌>>=◌, write, marked, header_at, get_header, allocate, free,
}

-- `bp` is slot `i` of page `q`, whose first header is that of an object of the chain of `size`.
pub record IsSlot (s : Storage) (size bp q i : ℕ) : Type 0 where
  pub small : size + header_size ≤ page_size / 2
  pub place : bp ≡ q * page_size + i * slot_size size
  pub room : i * slot_size size + slot_size size ≤ page_size
  pub unmarked : marked s.page_map q ≡ false
  pub first_small : (s.headers (q * page_size)).size + header_size ≤ page_size / 2
  pub first_chain : chain_of (s.headers (q * page_size)).size ≡ chain_of size
  pub inside : bp < s.file_size

-- The slot is found from any address inside it.
header_at-IsSlot :
    (s : Storage) (size bp q i d : ℕ)
    → IsSlot s size bp q i
    → d < slot_size size
    → header_at (bp + d) s ≡ done bp
unfolding header_at
header_at-IsSlot s size bp q i d v h =
    let first = (s.headers (q * page_size)).size in
    let same : slot_size first ≡ slot_size size =
      slot_size-chain_of first size v.first_small v.small v.first_chain in
    let found = small_header-slot first q i d v.first_small (rw same h) (rw same v.room) in
    let page : (bp + d) / page_size ≡ q = (let p = v.place in let r = v.room in omega arith) in
    rw (page, v.unmarked, le→leb _ _ v.first_small, v.place)
      (ap done (
        subst (λ k. small_header first (q * page_size + i * k + d) ≡ q * page_size + i * k) same
          found))

-- the storage after `allocate` took `bp` off its chain
abbrev pub handed_out : Storage → ℕ → ℕ → ℕ → List ℕ → Storage
handed_out s cid size bp rest = record s {
  free_block_chain = set s.free_block_chain (chain_of size) rest;
  headers = write s.headers bp (record { cid = cid; size = size });
}

-- A small object is taken from the front of its chain, without touching any page.
pub allocate-small :
    (set_size : ℕ → Bool) (class_mapping : ℕ → ℕ) (app_class_id size bp : ℕ) (rest : List ℕ)
    (s : Storage)
    → class_mapping app_class_id ≢ 0
    → size + header_size ≤ page_size / 2
    → get_or s.free_block_chain (chain_of size) [] ≡ bp ∷ rest
    → allocate set_size class_mapping app_class_id size s
      ≡ done (bp + header_size, handed_out s (class_mapping app_class_id) size bp rest)
unfolding allocate
allocate-small set_size class_mapping app_class_id size bp rest s live small front =
    rw (ne→== _ _ live, le→leb _ _ small, front)

handed_out-IsSlot :
    (s : Storage) (cid size bp q i : ℕ) (rest : List ℕ)
    → IsSlot s size bp q i
    → IsSlot (handed_out s cid size bp rest) size bp q i
handed_out-IsSlot s cid size bp q i rest v = record {
  small = v.small;
  place = v.place;
  room = v.room;
  unmarked = v.unmarked;
  first_small = let f = v.first_small in let g = v.small in ground arith;
  first_chain = let f = v.first_chain in ground arith;
  inside = v.inside;
}

set-set :
    {A : Type 0} (xs : List A) (i : ℕ) (a d : A)
    → i < length xs
    → set (set xs i a) i (get_or xs i d) ≡ xs
set-set [] i a d h = refl
set-set (x ∷ xs) zero a d h = refl
set-set (x ∷ xs) (suc i) a d h = ap (λ l. x ∷ l) (set-set xs i a d (omega arith))

-- The object behind the header of a slot leads back to the slot, if the slot is in use.
pub get_header-IsSlot :
    (s : Storage) (size bp q i : ℕ)
    → IsSlot s size bp q i
    → (s.headers bp).cid ≢ free_object
    → get_header (bp + header_size) s ≡ done bp
unfolding get_header
get_header-IsSlot s size bp q i v live =
    let b = slot_size_bounds size v.small in
    let far : ltb (bp + header_size) header_size ≡ false = ground arith in
    let back : bp + header_size - header_size ≡ bp + 0 = omega arith in
    let near : ltb (bp + 0) s.file_size ≡ true = (let w = v.inside in ground arith) in
    rw (far, back, near, header_at-IsSlot s size bp q i 0 v (omega arith), ne→== _ _ live)

-- Freeing a small object that was just allocated finds its slot again and restores every chain of
-- free blocks, the free pages, the page map and the file; only the slot's header has changed.
pub free-allocate :
    (set_size : ℕ → Bool) (class_mapping : ℕ → ℕ) (app_class_id size bp q i : ℕ) (rest : List ℕ)
    (s : Storage)
    → class_mapping app_class_id ≢ 0
    → IsSlot s size bp q i
    → length s.free_block_chain ≡ 13
    → get_or s.free_block_chain (chain_of size) [] ≡ bp ∷ rest
    → allocate set_size class_mapping app_class_id size s >>= (λ r. free r.0 r.1)
      ≡ done (record s {
        headers =
            write
              (write s.headers bp (record { cid = class_mapping app_class_id; size = size }))
              bp
              (record { cid = free_object; size = size });
      })
unfolding free
free-allocate set_size class_mapping app_class_id size bp q i rest s live v thirteen front =
    let cid = class_mapping app_class_id in
    let t = handed_out s cid size bp rest in
    let b = slot_size_bounds size v.small in
    let at =
      get_header-IsSlot t size bp q i (handed_out-IsSlot s cid size bp q i rest v)
        (rw (==_refl bp) live) in
    rw (
      allocate-small set_size class_mapping app_class_id size bp rest s live v.small front,
      at,
      ==_refl bp,
      le→leb _ _ v.small,
      get_or-set_self s.free_block_chain (chain_of size) rest [] (omega arith),
      ← front,
      set-set s.free_block_chain (chain_of size) rest [] (omega arith),
    )
