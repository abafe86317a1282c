-- ===== src/Text/Tests.antt =====
-- The search at concrete texts: runs, and the theorems at them.
use post.Prelude.{
  ℕ, ltb, ◌+◌, ◌-◌, ◌≡◌, refl, Bool, true, ◌&&◌, Option, none, some, List, [], ◌∷◌, if◌then◌else◌,
  leb, ◌==◌, arith,
}
use post.Text.{
  Bytes, Mask, SearchCtx, Memory, Answer, answered, astray, endless, create, search, converted,
  shifts,
}
use post.Text.Shift.{CaseFold}
use post.Text.Ready.{CreateAnswer, context, create-IsReady}

-- the conversions of the C locale
abbrev upper : ℕ → ℕ
upper c = if leb 97 c && leb c 122 then c - 32 else c

abbrev lower : ℕ → ℕ
lower c = if leb 65 c && leb c 90 then c + 32 else c

fold : CaseFold upper lower
fold c = ground arith

abbrev only_first : Mask
only_first k = k == 0

-- "ab" exactly, and "B" in any case
abbrev patterns : List Bytes
patterns = (97 ∷ 98 ∷ []) ∷ (66 ∷ []) ∷ []

-- "xbab"
abbrev txt : Bytes
txt = 120 ∷ 98 ∷ 97 ∷ 98 ∷ []

abbrev ctx : SearchCtx
ctx = context upper lower patterns only_first only_first fold (omega arith)

-- the position behind which the next search starts
abbrev next : Answer → Option (Bool × ℕ)
next (answered b c) = some (b, c.start)
next astray = none
next endless = none

-- a byte 0 in front of each pattern, and a byte 1 in front of the text
abbrev mem : Memory
mem = record { before_pattern = λ k. 0 ∷ []; before_text = 1 ∷ [] }

-- "ab" stands at 2.
first_run : next (search upper mem ctx txt) ≡ some (true, 3)
unfolding search context converted shifts
first_run = refl

-- Both patterns are asked for: behind "B" at 1 the comparison goes on in front of it, where it stops,
-- and "ab" at 2 then covers the mask.
both_run : next (search upper mem (record ctx { and_mask = λ k. ltb k 2 }) txt) ≡ some (true, 3)
unfolding search context converted shifts
both_run = refl

-- If the memory in front of the pattern repeats the text, the comparison leaves the memory.
astray_run :
    search upper
      (record { before_pattern = λ k. 88 ∷ 1 ∷ []; before_text = 1 ∷ [] })
      (record ctx { and_mask = λ k. ltb k 2 })
      txt
    ≡ astray
unfolding search context converted shifts
astray_run = refl

create-IsReady_example :
    CreateAnswer upper lower patterns only_first only_first
      (create upper lower patterns only_first only_first)
create-IsReady_example =
    create-IsReady upper lower patterns only_first only_first fold (omega arith)
