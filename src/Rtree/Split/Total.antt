-- ===== src/Rtree/Split/Total.antt =====
-- rtree.cxx, `split_page` on rectangles that are not too large: areas.
use post.Prelude.{
  ℕ, ◌+◌, ◌-◌, ◌*◌, ◌%◌, ◌≤◌, ◌<◌, ◌≡◌, ◌∙◌, ap₂, true, Bool, ltb, arith, ◌||◌, lt→ltb, ltb→lt,
  ltb→le, Bool-cases, inl, inr, ◌⊎◌,
}
use native.Mathlib.Nat.{mul-le-mul_left, mul-le-mul_right}
use post.Rtree.{Rectangle, plus, inside}
use post.Rtree.Area.{area, sub_size, sub_int, to_int, to_size, less_int, int_min, minus_one}
use post.Rtree.Split.{wasted, difference, Groups}
use post.Rtree.Insert.Pages.{plus_least}
use post.Rtree.Search.{plus-inside}

-- the sides of a rectangle that is one, and its size
abbrev pub IsProper : Rectangle → Type 0
IsProper r = (r.x_low ≤ r.x_high) × (r.y_low ≤ r.y_high)

abbrev pub size : Rectangle → ℕ
size r = (r.y_high - r.y_low) * (r.x_high - r.x_low)

-- A box of coordinates of 32 bits whose sides and size are below 2 ^ 31.
abbrev pub IsSmall : Rectangle → Type 0
IsSmall box =
    ((box.x_high < 4294967296) × (box.y_high < 4294967296))
    × (((box.x_high - box.x_low < 2147483648) × (box.y_high - box.y_low < 2147483648))
        × (size box < 2147483648))

abbrev pub IsWithin : Rectangle → Rectangle → Type 0
IsWithin box r = IsProper r × (inside r box ≡ true)

sides :
    (a b : Rectangle)
    → IsProper a
    → inside a b ≡ true
    → ((a.x_high - a.x_low ≤ b.x_high - b.x_low) × (a.y_high - a.y_low ≤ b.y_high - b.y_low))
      × ((a.x_high ≤ b.x_high) × (a.y_high ≤ b.y_high))
unfolding inside
sides a b p h = ground arith

size_mono : (a b : Rectangle) → IsProper a → inside a b ≡ true → size a ≤ size b
size_mono a b p h =
    let ((x, y), rest) = sides a b p h in
    omega (arith, mul-le-mul_right (a.x_high - a.x_low) y, mul-le-mul_left (b.y_high - b.y_low) x)

side_area :
    (low high : ℕ)
    → low ≤ high
    → high < 4294967296
    → high - low < 2147483648
    → to_size (sub_int high low) ≡ high - low
unfolding to_size sub_int
side_area low high h k l = ground arith

area-size : (box r : Rectangle) → IsSmall box → IsWithin box r → area r ≡ size r
unfolding area
area-size box r small (p, h) =
    let ((x, y), (u, v)) = sides r box p h in
    let wide =
      side_area r.x_low r.x_high p.0 (omega (arith, small.0.0)) (omega (arith, small.1.0.0)) in
    let tall =
      side_area r.y_low r.y_high p.1 (omega (arith, small.0.1)) (omega (arith, small.1.0.1)) in
    ap₂ (λ a b. (a * b) % 18446744073709551616) tall wide
    ∙ omega (arith, size_mono r box p h, small.1.1)

-- the area of a rectangle in a small box
pub area_bound : (box r : Rectangle) → IsSmall box → IsWithin box r → area r < 2147483648
area_bound box r small h =
    omega (arith, area-size box r small h, size_mono r box h.0 h.1, small.1.1)

plus-IsProper : (a b : Rectangle) → IsProper a → IsProper b → IsProper (plus a b)
unfolding plus
plus-IsProper a b p q = (ground arith, ground arith)

pub plus-IsWithin :
    (box a b : Rectangle) → IsWithin box a → IsWithin box b → IsWithin box (plus a b)
plus-IsWithin box a b (p, h) (q, k) = (plus-IsProper a b p q, plus_least a b box h k)

area-plus :
    (box a b : Rectangle)
    → IsSmall box
    → IsWithin box a
    → IsWithin box b
    → (area a ≤ area (plus a b)) × (area b ≤ area (plus a b))
area-plus box a b small h k =
    let (left, right) = plus-inside a b in
    let whole = area-size box (plus a b) small (plus-IsWithin box a b h k) in
    (
      omega (arith, area-size box a small h, whole, size_mono a (plus a b) h.0 left),
      omega (arith, area-size box b small k, whole, size_mono b (plus a b) k.0 right),
    )

-- numbers below 2 ^ 31 are not changed by the conversions
narrow : (n : ℕ) → n < 2147483648 → to_size (to_int n) ≡ n
unfolding to_size to_int
narrow n h = ground arith

pub to_int_small : (n : ℕ) → n < 2147483648 → to_int n ≡ n
unfolding to_int
to_int_small n h = omega arith

pub to_size_small : (n : ℕ) → n < 2147483648 → to_size n ≡ n
unfolding to_size
to_size_small n h = ground arith

above_least :
    (whole a b : ℕ)
    → a ≤ whole
    → whole < 2147483648
    → b < 2147483648
    → less_int int_min (to_int (sub_size (sub_size whole a) b)) ≡ true
unfolding less_int to_int sub_size
above_least whole a b h k l = lt→ltb _ _ (omega arith)

less_first :
    (u a v b : ℕ)
    → a ≤ u
    → u < 2147483648
    → b ≤ v
    → v < 2147483648
    → v + a ≤ u + b
    → less_int minus_one (to_int (sub_size (sub_size u a) (sub_size v b))) ≡ true
unfolding less_int to_int sub_size
less_first u a v b h k l m o = lt→ltb _ _ (omega arith)

less_second :
    (u a v b : ℕ)
    → a ≤ u
    → u < 2147483648
    → b ≤ v
    → v < 2147483648
    → u + b < v + a
    → less_int minus_one (sub_int 0 (to_int (sub_size (sub_size u a) (sub_size v b)))) ≡ true
unfolding less_int to_int sub_size sub_int
less_second u a v b h k l m o = lt→ltb _ _ (omega arith)

either : (a b : Bool) → (a ≡ true) ⊎ (b ≡ true) → (a || b) ≡ true
either a b (inl e) = ground arith
either a b (inr e) = ground arith

not_least :
    (u a v b : ℕ)
    → a ≤ u
    → u < 2147483648
    → b ≤ v
    → v < 2147483648
    → let diff = to_int (sub_size (sub_size u a) (sub_size v b)) in
      (less_int minus_one diff || less_int minus_one (sub_int 0 diff)) ≡ true
not_least u a v b h k l m = elim (Bool-cases (ltb (u + b) (v + a))) [
  | inl e ↦ either _ _ (inr (less_second u a v b h k l m (ltb→lt _ _ e)))
  | inr e ↦ either _ _ (inl (less_first u a v b h k l m (ltb→le _ _ e)))
]

-- two rectangles in a small box waste more than the least `int`
pub wasted_bound :
    (box a b : Rectangle)
    → IsSmall box
    → IsWithin box a
    → IsWithin box b
    → less_int int_min (wasted a b) ≡ true
unfolding wasted
wasted_bound box a b small h k =
    let (u, v) = area-plus box a b small h k in
    let whole = area_bound box (plus a b) small (plus-IsWithin box a b h k) in
    rw (narrow (area a) (area_bound box a small h), narrow (area b) (area_bound box b small k))
      (above_least (area (plus a b)) (area a) (area b) u whole (area_bound box b small k))

-- the groups lie in the box, and their areas are stored
pub record IsGroup {A : Type 0} (box : Rectangle) (g : Groups A) : Type 0 where
  pub within_0 : IsWithin box g.group_0
  pub within_1 : IsWithin box g.group_1
  pub stored_0 : g.area_0 ≡ area g.group_0
  pub stored_1 : g.area_1 ≡ area g.group_1

pub difference_bound :
    {A : Type 0} (box : Rectangle) (g : Groups A) (rect : Rectangle)
    → IsSmall box
    → IsGroup box g
    → IsWithin box rect
    → (less_int minus_one (difference g rect) || less_int minus_one (sub_int 0 (difference g rect)))
      ≡ true
unfolding difference
difference_bound box g rect small h k =
    let (u, more) = area-plus box g.group_0 rect small h.within_0 k in
    let (v, more') = area-plus box g.group_1 rect small h.within_1 k in
    let low = area_bound box g.group_0 small h.within_0 in
    let high = area_bound box g.group_1 small h.within_1 in
    rw
      (
        h.stored_0,
        h.stored_1,
        to_size_small (area g.group_0) low,
        to_size_small (area g.group_1) high,
      )
      (not_least (area (plus g.group_0 rect)) (area g.group_0) (area (plus g.group_1 rect))
        (area g.group_1) u
        (area_bound box (plus g.group_0 rect) small (plus-IsWithin box g.group_0 rect h.within_0 k))
        v
        (area_bound box (plus g.group_1 rect) small
          (plus-IsWithin box g.group_1 rect h.within_1 k)))
