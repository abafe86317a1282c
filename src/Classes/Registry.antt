-- ===== src/Classes/Registry.antt =====
-- classinfo.cxx: the invariant of the registry, between the hash table and the list.
use post.Prelude.{
  ℕ, ◌<◌, ◌≡◌, refl, sym, ap, Option, none, some, List, [], ◌∷◌, if◌then◌else◌, get_or, set, length,
  length-set, length-replicate, get_or-replicate, get_or-set_self, get_or-set_ne, arith, Bool-cases,
  inl, inr, ◌==◌, ==_iff, ==_refl,
}
use post.Names.{Name, same_name, eq_of_same_name}
use post.Classes.{
  ClassDescriptor, Classes, class_hash_table_size, initial, find_in, class_slot, find_class, added,
  register,
}

-- The class numbers are those of the order of registration.
abbrev pub Numbered : List ClassDescriptor → Type 0
Numbered [] = Unit
Numbered (d ∷ ds) = (d.id ≡ length ds) × Numbered ds

module _ (widen : ℕ → ℕ) where
  pub record IsValid (s : Classes) : Type 0 where
    pub sized : length s.hash_table ≡ class_hash_table_size
    pub finds : (q : Name) → find_class widen q s ≡ find_in q s.list
    pub counted : s.count ≡ length s.list
    pub numbered : Numbered s.list

  abbrev no_chain : List ClassDescriptor
  no_chain = []

  pub initial-IsValid : IsValid initial
  unfolding initial find_class find_in
  initial-IsValid = record {
    sized = length-replicate class_hash_table_size no_chain;
    finds = λ q. ap (find_in q) (get_or-replicate class_hash_table_size (class_slot widen q) []);
    counted = refl;
    numbered = tt;
  }

  -- what `register` answers
  abbrev pub RegisterAnswer : Name → ℕ → Classes → Option Classes → Type 0
  RegisterAnswer name size s none = (d : ClassDescriptor) × (find_in name s.list ≡ some d)
  RegisterAnswer name size s (some s') =
      IsValid s'
      × (find_in name s.list ≡ none)
      × (s'.list ≡ record { name = name; id = length s.list; size = size } ∷ s.list)

  class_slot-lt : (q : Name) → class_slot widen q < class_hash_table_size
  unfolding class_slot
  class_slot-lt q = omega arith

  -- the chain of `q` after `d` was put in front of the chain of its name
  put_finds :
      (s : Classes) (d : ClassDescriptor) (q : Name)
      → IsValid s
      → find_in q (
          get_or
            (set s.hash_table
              (class_slot widen d.name)
              (d ∷ get_or s.hash_table (class_slot widen d.name) []))
            (class_slot widen q)
            [])
        ≡ find_in q (d ∷ s.list)
  unfolding find_class find_in
  put_finds s d q v = elim (Bool-cases (class_slot widen d.name == class_slot widen q)) [
    | inl e ↦
        let same = (==_iff _ _).0 e in
        rw
          (
            same,
            get_or-set_self s.hash_table (class_slot widen q)
                (d ∷ get_or s.hash_table (class_slot widen q) []) [] (rw v.sized (class_slot-lt q)),
          )
          (ap (λ o. if same_name d.name q then some d else o) (v.finds q))
    | inr e ↦ (elim (Bool-cases (same_name d.name q)) [
      | inl n ↦
          let same = ap (class_slot widen) (eq_of_same_name d.name q n) in
          absurd (let t = ==_refl (class_slot widen q) in (cc))
      | inr n ↦
          rw
            (
              get_or-set_ne s.hash_table (class_slot widen d.name) (class_slot widen q)
                  (d ∷ get_or s.hash_table (class_slot widen d.name) []) []
                  (λ same. absurd (let t = ==_refl (class_slot widen q) in (cc))),
              n,
            )
            (v.finds q)
    ])
  ]

  register_answer :
      (name : Name) (size : ℕ) (s : Classes) (o : Option ClassDescriptor)
      → IsValid s
      → find_in name s.list ≡ o
      → RegisterAnswer name size s
          (elim o [ some cp ↦ none | none ↦ some (added widen name size s) ])
  unfolding added find_class
  register_answer name size s (some d) v e = (d, e)
  register_answer name size s none v e = (
    record {
      sized = rw length-set v.sized;
      finds = λ q. put_finds s (record { name = name; id = s.count; size = size }) q v;
      counted = rw v.counted (omega arith);
      numbered = (v.counted, v.numbered);
    },
    e,
    ap (λ n. record { name = name; id = n; size = size } ∷ s.list) v.counted,
  )

  -- Registering a class fails exactly if one of that name is registered. Otherwise the new class is
  -- the first of the list, numbered by how many there were before, and `find_class` goes on finding
  -- for every name what the list of all classes holds.
  pub register-IsValid :
      (name : Name) (size : ℕ) (s : Classes)
      → IsValid s
      → RegisterAnswer name size s (register widen name size s)
  unfolding register
  register-IsValid name size s v =
      register_answer name size s (find_class widen name s) v (sym (v.finds name))
