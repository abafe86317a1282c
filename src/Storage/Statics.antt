-- ===== src/Storage/Statics.antt =====
-- storage.h: the static data of a storage, objects that a program registers in one order when it
-- starts and finds again in that order in a later session. Objects are addresses, and NULL is 0.
pub mod Replay
use post.Prelude.{
  ℕ, zero, suc, ◌+◌, Bool, true, false, ◌&&◌, Option, none, some, List, [], ◌∷◌, ltb, if◌then◌else◌,
  get_or, set,
}

abbrev pub max_static_data : ℕ
max_static_data = 32

-- `hdr->static_data`, `hdr->n_static_data`, and the storage's `static_data` and
-- `static_data_index`
pub record Statics : Type 0 where
  pub array : List ℕ
  pub n_static_data : ℕ
  pub static_data : Bool
  pub static_data_index : ℕ

unfoldable pub begin_static_data : Statics → Statics
begin_static_data s = record s { static_data = true; static_data_index = 0 }

unfoldable pub end_static_data : Statics → Statics
end_static_data s = record s { static_data = false }

unfoldable pub get_static_data : Statics → ℕ × Statics
get_static_data s =
    if s.static_data && ltb s.static_data_index s.n_static_data
    then (
      get_or s.array s.static_data_index 0,
      record s { static_data_index = s.static_data_index + 1 },
    )
    else (0, s)

-- `none` is the failed assertion.
unfoldable pub set_static_data : ℕ → Statics → Option Statics
set_static_data obj s =
    if s.static_data
    then (if ltb s.n_static_data max_static_data
        then some (record s {
          array = set s.array s.static_data_index obj;
          n_static_data = s.static_data_index + 1;
          static_data_index = s.static_data_index + 1;
        })
        else none)
    else some s

-- the objects registered one after another, and a number of calls of `get_static_data`
unfoldable pub set_all : List ℕ → Statics → Option Statics
unfolding set_static_data
set_all [] s = some s
set_all (obj ∷ objs) s = elim (set_static_data obj s) [ none ↦ none | some s' ↦ set_all objs s' ]

unfoldable pub get_all : ℕ → Statics → List ℕ
unfolding get_static_data
get_all zero s = []
get_all (suc n) s = let (obj, s') = get_static_data s in obj ∷ get_all n s'
