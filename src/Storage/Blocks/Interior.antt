-- ===== src/Storage/Blocks/Interior.antt =====
-- `get_header` of an address inside a small object.
use post.Prelude.{
  ℕ, ◌+◌, ◌-◌, ◌*◌, ◌/◌, ◌%◌, ◌≤◌, ◌<◌, ◌≡◌, refl, Bool, true, ◌||◌, not, ◌==◌, bit_and, arith,
  holds_below, holds_below-at, inl, inr, Bool-cases,
}
use post.Storage.Blocks.{page_size, header_size, slot_size, small_header}

mod_of : (m d s : ℕ) → d < s → (m * s + d) % s ≡ d
mod_of m d s h = grind arith

-- A slot size that passes the test for a power of two divides the page.
divides : ℕ → Bool
divides size =
    let s = slot_size size in not (bit_and s (s - 1) == 0) || (page_size / s * s == page_size)

divides_table : holds_below divides 249 ≡ true
unfolding divides slot_size holds_below
divides_table = refl

divides_lem :
    (size : ℕ)
    → size + header_size ≤ page_size / 2
    → (bit_and (slot_size size) (slot_size size - 1) == 0) ≡ true
    → page_size / slot_size size * slot_size size ≡ page_size
unfolding divides
divides_lem size h e = implied _ _ e (holds_below-at divides 249 size (omega arith) divides_table)
  where
    implied : (b : Bool) (n : ℕ) → b ≡ true → (not b || n == page_size) ≡ true → n ≡ page_size
    implied b n p q = ground arith

-- Slot `i` of the page at `q * page_size`, and an address `d` bytes into it.
module _ (q i d s : ℕ) (inside : d < s) (room : i * s + s ≤ page_size) where
  mask_power :
      (k : ℕ)
      → k * s ≡ page_size
      → q * page_size + i * s + d - (q * page_size + i * s + d) % s ≡ q * page_size + i * s
  mask_power k e =
      let split : q * page_size + i * s + d ≡ (q * k + i) * s + d = grind arith in
      rw (split, mod_of (q * k + i) d s inside) (omega arith)

  offset_rest :
      q * page_size + i * s + d - (q * page_size + i * s + d) % page_size % s
      ≡ q * page_size + i * s
  offset_rest =
      let flat : (q * page_size + i * s + d) % page_size ≡ i * s + d = omega arith in
      rw (flat, mod_of i d s inside) (omega arith)

-- Every address inside slot `i` of a page of small objects leads `get_header` to the start of that
-- slot, whatever object of the same chain wrote the header at the start of the page.
pub small_header-slot :
    (first q i d : ℕ)
    → first + header_size ≤ page_size / 2
    → d < slot_size first
    → i * slot_size first + slot_size first ≤ page_size
    → small_header first (q * page_size + i * slot_size first + d)
      ≡ q * page_size + i * slot_size first
unfolding small_header
small_header-slot first q i d h inside room =
    let s = slot_size first in
    elim (Bool-cases (bit_and s (s - 1) == 0)) [
      | inl e ↦ rw e (mask_power q i d s inside room (page_size / s) (divides_lem first h e))
      | inr e ↦ rw e (offset_rest q i d s inside room)
    ]
