-- ===== src/Classes.antt =====
-- classinfo.h and classinfo.cxx: the registry of class descriptors, a hash table with chains and a
-- list of all descriptors. The constructor of a descriptor registers it.
pub mod Registry
mod Tests
use post.Prelude.{
  ℕ, ◌+◌, ◌%◌, Bool, true, false, Option, none, some, List, [], ◌∷◌, if◌then◌else◌, get_or, set,
  replicate,
}
use post.Names.{Name, same_name, string_hash_function}

abbrev pub class_hash_table_size : ℕ
class_hash_table_size = 117

-- `class_descriptor`, without the pointer to the default constructor
pub record ClassDescriptor : Type 0 where
  pub name : Name
  pub id : ℕ
  pub size : ℕ

-- the static members: `list` from the newest on, and the chains of `hash_table`
pub record Classes : Type 0 where
  pub hash_table : List (List ClassDescriptor)
  pub list : List ClassDescriptor
  pub count : ℕ

-- the static members before any registration
unfoldable pub initial : Classes
initial = record { hash_table = replicate class_hash_table_size []; list = []; count = 0 }

-- The loop of `find_class`; NULL is `none`.
unfoldable pub find_in : Name → List ClassDescriptor → Option ClassDescriptor
find_in name [] = none
find_in name (cp ∷ chain) =
    let rest = find_in name chain in if same_name cp.name name then some cp else rest

module _ (widen : ℕ → ℕ) where
  unfoldable pub class_slot : Name → ℕ
  class_slot name = string_hash_function widen name % class_hash_table_size

  unfoldable pub find_class : Name → Classes → Option ClassDescriptor
  unfolding find_in class_slot
  find_class name s = find_in name (get_or s.hash_table (class_slot name) [])

  -- the body of the constructor behind its assertion
  unfoldable pub added : Name → ℕ → Classes → Classes
  unfolding class_slot
  added name size s =
      let h = class_slot name in
      let descriptor : ClassDescriptor = record { name = name; id = s.count; size = size } in
      record {
        hash_table = set s.hash_table h (descriptor ∷ get_or s.hash_table h []);
        list = descriptor ∷ s.list;
        count = s.count + 1;
      }

  -- The constructor; `none` is the failed assertion that the name is new.
  unfoldable pub register : Name → ℕ → Classes → Option Classes
  unfolding find_class added
  register name size s = elim (find_class name s) [
    | some cp ↦ none
    | none ↦ some (added name size s)
  ]
