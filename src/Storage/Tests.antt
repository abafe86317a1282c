-- ===== src/Storage/Tests.antt =====
-- The allocator at concrete storages: runs of the code, and the theorems at them.
use post.Prelude.{
  ℕ, ◌+◌, ◌-◌, ◌/◌, ◌≤◌, ◌<◌, ◌≡◌, refl, Bool, true, false, ◌||◌, none, some, [], ◌∷◌, inl, inr,
  arith, replicate, ◌==◌, if◌then◌else◌,
}
use post.Storage.Blocks.{page_size, header_size, align, chain_of, slot_size, small_header}
use post.Storage.Blocks.Classes.{slot_size_bounds, slot_size-chain_of}
use post.Storage.FreePages
use post.Storage.FreePages.{FreePages, FreeBlock, block, take_pages, Search}
use post.Storage.FreePages.Chain.{IsValid, in_block, is_free}
use post.Storage.FreePages.Release.{free_page-IsValid}
use post.Storage.FreePages.Take.{Takes, take_pages-Takes}
use post.Storage.Alloc.{
  Storage, Header, PageMap, Outcome, done, ◌>>=◌, write, free_object, slots, header_at, get_header,
  fault, allocate, free,
}
use post.Storage.Statics.{Statics, begin_static_data, end_static_data, set_all, get_all}
use post.Storage.Statics.Replay.{set_all-get_all}
use post.Storage.Alloc.Slots.{slots_of, slots-slots_of}
use post.Storage.Alloc.RoundTrip.{IsSlot, free-allocate}

abbrev no_header : Header
no_header = record { cid = 0; size = 0 }

-- a storage of one page, as `open` sets it up
abbrev fresh_storage : Storage
fresh_storage = record {
  file_size = 512;
  pages = record { chain = []; curr = 0 };
  free_block_chain = replicate 13 [];
  page_map = none;
  headers = λ a. no_header;
}

abbrev grows : ℕ → Bool
grows n = true

abbrev classes : ℕ → ℕ
classes n = 3

-- the offset that an allocation returns
abbrev offset : Outcome (ℕ × Storage) → ℕ
offset (done r) = r.0
offset o = 0

abbrev chained : Outcome (ℕ × Storage) → (Storage → Outcome (ℕ × Storage)) → Outcome (ℕ × Storage)
chained o f = o >>= λ r. f r.1

-- The first object of 20 bytes takes the page behind the header page, the second the next slot.
first_object : offset (allocate grows classes 0 20 fresh_storage) ≡ 520
unfolding allocate take_pages chain_of slot_size
first_object = refl

second_object :
    offset (chained (allocate grows classes 0 20 fresh_storage) (allocate grows classes 0 20)) ≡ 552
unfolding allocate take_pages chain_of slot_size
second_object = refl

-- two free pages with a used one between them
abbrev two_free : FreePages
two_free = record { chain = block 512 504 ∷ block 1536 504 ∷ []; curr = 512 }

two_free-IsValid : IsValid 4096 two_free
two_free-IsValid = record {
  bounded = omega arith;
  chained = (
    omega arith,
    record { start = refl; whole = refl; within = omega arith },
    (omega arith, record { start = refl; whole = refl; within = omega arith }, tt),
  );
  current = inr (inl refl);
}

-- Freeing the page between two free ones joins all three.
joined_all :
    FreePages.free_page 1024 504 two_free
    ≡ some (record { chain = block 512 1528 ∷ []; curr = 512 })
unfolding FreePages.free_page
joined_all = refl

free_page-IsValid_example :
    (s' : FreePages) × (FreePages.free_page 1024 504 two_free ≡ some s')
    × IsValid 4096 s'
    × ((x : ℕ)
        → is_free x s'.chain ≡ (
            in_block x (block 1024 (align (504 + header_size) - header_size))
            || is_free x two_free.chain))
free_page-IsValid_example =
    free_page-IsValid 4096 1024 504 two_free two_free-IsValid (omega arith)
      (record { start = refl; whole = refl; within = omega arith })
      (inr (omega arith), (inl (omega arith), tt))

take_pages-Takes_example : Takes 4096 400 two_free (take_pages 400 two_free)
take_pages-Takes_example = take_pages-Takes 4096 400 two_free two_free-IsValid

slot_size_bounds_example :
    (100 + header_size ≤ slot_size 100)
    × (16 ≤ slot_size 100)
    × (slot_size 100 ≤ page_size / 2)
    × (chain_of 100 < 13)
slot_size_bounds_example = slot_size_bounds 100 (omega arith)

slot_size-chain_of_example : slot_size 100 ≡ slot_size 120
slot_size-chain_of_example =
    slot_size-chain_of 100 120 (omega arith) (omega arith) (unfold chain_of in refl)

slots-slots_of_example :
    slots 1024 (slot_size 160) ≡ slots_of 1024 (slot_size 160) 1 (page_size / slot_size 160 - 1)
slots-slots_of_example = slots-slots_of 1024 160 (omega arith)

-- a storage with an object of three pages at 1024 to be marked, and a page of small objects at 512
abbrev map : PageMap
map = record { addr = 4096; size = 4088; bits = λ p. false }

abbrev some_headers : ℕ → Header
some_headers a =
    if a == 1024
    then record { cid = 3; size = 1400 }
    else if a == 512
    then record { cid = 4; size = 20 }
    else no_header

abbrev mapped : Storage
mapped = record {
  file_size = 8192;
  pages = record { chain = []; curr = 0 };
  free_block_chain = [] ∷ [] ∷ (576 ∷ 608 ∷ []) ∷ replicate 10 [];
  page_map = some map;
  headers = some_headers;
}

-- slot 2 of the page at 512
third-IsSlot : IsSlot mapped 20 576 1 2
unfolding slot_size chain_of
third-IsSlot = record {
  small = omega arith;
  place = refl;
  room = omega arith;
  unmarked = refl;
  first_small = omega arith;
  first_chain = refl;
  inside = omega arith;
}

-- a pointer into the object finds it, one into the free slot fails
live_run : get_header (512 + header_size + 9) mapped ≡ done 512
unfolding get_header header_at small_header slot_size
live_run = refl

free_run : get_header (576 + header_size + 9) mapped ≡ fault
unfolding get_header header_at small_header slot_size
free_run = refl

free-allocate_example :
    allocate grows classes 0 20 mapped >>= (λ r. free r.0 r.1)
    ≡ done (record mapped {
      headers =
          write
            (write some_headers 576 (record { cid = 3; size = 20 }))
            576
            (record { cid = free_object; size = 20 });
    })
free-allocate_example =
    free-allocate grows classes 0 20 576 1 2 (608 ∷ []) mapped (omega arith) third-IsSlot refl
      (unfold chain_of in refl)

abbrev no_statics : Statics
no_statics = record {
  array = replicate 32 0;
  n_static_data = 0;
  static_data = false;
  static_data_index = 0;
}

set_all-get_all_example :
    (s' : Statics) × (set_all (1000 ∷ 2000 ∷ []) (begin_static_data no_statics) ≡ some s')
    × (get_all 3 (begin_static_data (end_static_data s')) ≡ 1000 ∷ 2000 ∷ 0 ∷ [])
set_all-get_all_example = set_all-get_all (1000 ∷ 2000 ∷ []) no_statics refl refl (omega arith)
