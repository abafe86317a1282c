-- ===== src/Names.antt =====
-- C strings (without the final zero) as lists of bytes: `strcmp(a, b) == 0`, and the hash function
-- that hashtab.cxx and classinfo.cxx both define.
use post.Prelude.{
  ℕ, ◌+◌, ◌-◌, ◌*◌, ◌/◌, ◌%◌, ◌^◌, ◌≡◌, refl, Bool, true, false, ◌&&◌, bit_and, bit_xor, List, [],
  ◌∷◌, ◌==◌, if◌then◌else◌, arith,
}

abbrev pub Name : Type 0
Name = List ℕ

-- `strcmp(a, b) == 0`
unfoldable pub same_name : Name → Name → Bool
same_name [] [] = true
same_name [] (y ∷ ys) = false
same_name (x ∷ xs) [] = false
same_name (x ∷ xs) (y ∷ ys) = x == y && same_name xs ys

-- One round of the loop of `string_hash_function`. `widen` is the conversion of a `char` to
-- `unsigned`, which depends on whether the platform's `char` is signed.
unfoldable pub hash_step : (ℕ → ℕ) → ℕ → ℕ → ℕ
hash_step widen h c =
    let shifted = (h * 2 ^ 4 + widen c) % 2 ^ 32 in
    let g = bit_and shifted 0xf000_0000 in
    let folded = if g == 0 then shifted else bit_xor shifted (g / 2 ^ 24) in
    bit_and folded (0xffff_ffff - g)

unfoldable pub hash_from : (ℕ → ℕ) → ℕ → Name → ℕ
unfolding hash_step
hash_from widen h [] = h
hash_from widen h (c ∷ name) = hash_from widen (hash_step widen h c) name

unfoldable pub string_hash_function : (ℕ → ℕ) → Name → ℕ
unfolding hash_from
string_hash_function widen name = hash_from widen 0 name

pub same_name_refl : (a : Name) → same_name a a ≡ true
unfolding same_name
same_name_refl [] = refl
same_name_refl (x ∷ xs) = ground (arith, same_name_refl xs)

pub eq_of_same_name : (a b : Name) → same_name a b ≡ true → a ≡ b
unfolding same_name
eq_of_same_name [] [] h = refl
eq_of_same_name [] (y ∷ ys) h = cc
eq_of_same_name (x ∷ xs) [] h = cc
eq_of_same_name (x ∷ xs) (y ∷ ys) h = ground (arith, eq_of_same_name xs ys)
