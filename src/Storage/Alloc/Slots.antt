-- ===== src/Storage/Alloc/Slots.antt =====
-- The slots that a fresh page of small objects is cut into.
use post.Prelude.{
  ℕ, zero, suc, ◌+◌, ◌-◌, ◌*◌, ◌/◌, ◌≤◌, ◌<◌, ◌≡◌, List, [], ◌∷◌, arith, ltb, false, lt→ltb, ap,
}
use post.Storage.Blocks.{page_size, header_size, slot_size}
use post.Storage.Blocks.Classes.{slot_size_bounds}
use post.Storage.Alloc.{slots_from, slots}

-- slots `k`, `k + 1`, … of the page at `bp`, `n` of them
pub slots_of : ℕ → ℕ → ℕ → ℕ → List ℕ
slots_of bp size k zero = []
slots_of bp size k (suc n) = (bp + k * size) ∷ slots_of bp size (k + 1) n

slots_from_lem :
    (fuel n k bp size : ℕ)
    → 0 < size
    → size ≤ page_size
    → suc n ≤ fuel
    → (k + suc n) * size ≤ page_size
    → page_size < (k + suc n + 1) * size
    → slots_from fuel (bp + k * size) size (bp + page_size - size + 1) ≡ slots_of bp size k (suc n)
unfolding slots_from slots_of
slots_from_lem zero n k bp size pos le few fit over = absurd (omega arith)
slots_from_lem (suc fuel) zero k bp size pos le few fit over =
    let past : ltb (bp + k * size + size) (bp + page_size - size + 1) ≡ false =
      ground (arith, over) in
    rw past
slots_from_lem (suc fuel) (suc n) k bp size pos le few fit over =
    let next : bp + k * size + size ≡ bp + (k + 1) * size = omega arith in
    let fits : bp + (k + 1) * size < bp + page_size - size + 1 = room in
    let rest =
      slots_from_lem fuel n (k + 1) bp size pos le (omega arith) (rw regroup fit)
        (rw regroup over) in
    rw (next, lt→ltb _ _ fits) (ap (λ l. (bp + k * size) ∷ l) rest)
  where
    regroup : k + 1 + suc n ≡ k + suc (suc n)
    regroup = omega arith

    scaled : (k + suc (suc n)) * size ≡ (k + 1) * size + size + n * size
    scaled = grind arith

    room : bp + (k + 1) * size < bp + page_size - size + 1
    room = omega (arith, scaled)

few_slots : (s : ℕ) → 16 ≤ s → page_size / s ≤ 32
few_slots s h = grind arith

two_slots : (s : ℕ) → 16 ≤ s → s ≤ page_size / 2 → 2 ≤ page_size / s
two_slots s h k = grind arith

product : (s : ℕ) → page_size / s * s ≤ page_size
product s = grind arith

beyond : (s : ℕ) → 16 ≤ s → page_size < (page_size / s + 1) * s
beyond s h = grind arith

-- A fresh page of small objects is cut into slots 1, 2, … behind the first object, as many as fit:
-- `page_size / slot_size - 1` of them, each at a multiple of the slot size.
pub slots-slots_of :
    (bp size : ℕ)
    → size + header_size ≤ page_size / 2
    → slots bp (slot_size size) ≡ slots_of bp (slot_size size) 1 (page_size / slot_size size - 1)
unfolding slots
slots-slots_of bp size h =
    let b = slot_size_bounds size h in
    let s = slot_size size in
    let q = page_size / s in
    let few : q ≤ 32 = few_slots s b.1 in
    let many : 2 ≤ q = two_slots s b.1 b.2 in
    let n : q - 1 ≡ suc (q - 2) = omega arith in
    let k : 1 + suc (q - 2) ≡ q = omega arith in
    let one : bp + s ≡ bp + 1 * s = omega arith in
    rw (n, one)
      (slots_from_lem 32 (q - 2) 1 bp s (omega arith) (omega arith) (omega arith) (rw k (product s))
        (rw k (beyond s b.1)))
