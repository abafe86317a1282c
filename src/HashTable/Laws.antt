-- ===== src/HashTable/Laws.antt =====
-- hashtab.cxx: the view of the table as stacks of objects by name, and each method on it.
use post.Prelude.{
  ℕ, ◌<◌, ◌≡◌, ◌≢◌, refl, ◌∙◌, Bool, true, false, ◌&&◌, not, List, [], ◌∷◌, ◌==◌, if◌then◌else◌,
  get_or, set, length, length-set, length-replicate, get_or-replicate, get_or-set_self,
  get_or-set_ne, arith, Bool-cases, inl, inr, ==_iff,
}
use post.Names.{Name, same_name, eq_of_same_name}
use post.HashTable.{HashTable, Chain, create, slot, put, find, get, remove_first, del, del_object}

-- the objects under one name, the one last inserted first
pub objects : Name → Chain → List ℕ
objects name [] = []
objects name (ip ∷ rest) =
    if same_name ip.name name then ip.obj ∷ objects name rest else objects name rest

-- the value of a pointer to the first object, or NULL
abbrev pub top : List ℕ → ℕ
top [] = 0
top (x ∷ xs) = x

abbrev pub pop : List ℕ → List ℕ
pop [] = []
pop (x ∷ xs) = xs

abbrev pub is_empty : List ℕ → Bool
is_empty [] = true
is_empty (x ∷ xs) = false

-- the first occurrence of an object is taken out
pub erase : ℕ → List ℕ → List ℕ
erase obj [] = []
erase obj (x ∷ xs) = if x == obj then xs else x ∷ erase obj xs

pub contains : ℕ → List ℕ → Bool
contains obj [] = false
contains obj (x ∷ xs) = if x == obj then true else contains obj xs

find-top : (name : Name) (c : Chain) → find name c ≡ top (objects name c)
unfolding find objects
find-top name [] = refl
find-top name (ip ∷ rest) = ground (arith, find-top name rest)

same_name_left : (a n q : Name) → same_name a n ≡ true → same_name a q ≡ same_name n q
same_name_left a n q e = rw (eq_of_same_name a n e)

same_name_right : (a n q : Name) → same_name n q ≡ true → same_name a n ≡ same_name a q
same_name_right a n q e = rw (eq_of_same_name n q e)

objects-push :
    (fresh obj : ℕ) (name q : Name) (c : Chain)
    → objects q (record { self = fresh; obj = obj; name = name } ∷ c)
      ≡ (if same_name name q then obj ∷ objects q c else objects q c)
unfolding objects
objects-push fresh obj name q c = refl

-- what `del(name)` answers, and what it leaves under each name
objects-remove_name :
    (name q : Name) (c : Chain)
    → let r = remove_first (λ ip. same_name ip.name name) c in
      (r.0 ≡ not (is_empty (objects name c)))
      × (objects q r.2 ≡ (if same_name name q then pop (objects q c) else objects q c))
unfolding remove_first objects
objects-remove_name name q [] = ground arith
objects-remove_name name q (ip ∷ rest) = ground (
  arith,
  objects-remove_name name q rest,
  same_name_left ip.name name q,
  same_name_right ip.name name q,
)

-- what `del(name, obj)` answers, and what it leaves
objects-remove_object :
    (name q : Name) (obj : ℕ) (c : Chain)
    → let r = remove_first (λ ip. ip.obj == obj && same_name ip.name name) c in
      (r.0 ≡ contains obj (objects name c))
      × (objects q r.2 ≡ (if same_name name q then erase obj (objects q c) else objects q c))
unfolding remove_first objects contains erase
objects-remove_object name q obj [] = ground arith
objects-remove_object name q obj (ip ∷ rest) = ground (
  arith,
  objects-remove_object name q obj rest,
  same_name_left ip.name name q,
  same_name_right ip.name name q,
)

-- The table has as many chains as its size says, and at least one.
pub record IsValid (t : HashTable) : Type 0 where
  pub pos : 0 < t.size
  pub sized : length t.table ≡ t.size

pub create-IsValid : (n : ℕ) → 0 < n → IsValid (create n)
unfolding create
create-IsValid n h = record { pos = h; sized = length-replicate n [] }

module _ (widen : ℕ → ℕ) where
  abbrev pub home : HashTable → Name → Chain
  home t name = get_or t.table (slot widen t name) []

  -- what the table holds under a name
  pub view : HashTable → Name → List ℕ
  view t name = objects name (home t name)

  slot-lt : (t : HashTable) (name : Name) → IsValid t → slot widen t name < length t.table
  unfolding slot
  slot-lt t name v = let p = v.pos in omega (arith, v.sized)

  slot-same_name :
      (t : HashTable) (name q : Name) → same_name name q ≡ true → slot widen t name ≡ slot widen t q
  slot-same_name t name q e = rw (eq_of_same_name name q e)

  apart :
      (t : HashTable) (name q : Name)
      → slot widen t name ≢ slot widen t q
      → same_name name q ≡ false
  apart t name q n = elim (Bool-cases (same_name name q)) [
    | inl e ↦ absurd (n (slot-same_name t name q e))
    | inr e ↦ e
  ]

  -- The methods replace the chain of one name; this reads any name afterwards.
  view-set :
      (t : HashTable) (name q : Name) (c : Chain) (f : List ℕ → List ℕ)
      → IsValid t
      → objects q c
        ≡ (if same_name name q then f (objects q (home t name)) else objects q (home t name))
      → view (record t { table = set t.table (slot widen t name) c }) q
        ≡ (if same_name name q then f (view t q) else view t q)
  unfolding view slot
  view-set t name q c f v e = elim (Bool-cases (slot widen t name == slot widen t q)) [
    | inl s ↦
        let same : slot widen t name ≡ slot widen t q = (==_iff _ _).0 s in
        rw (← same, get_or-set_self t.table (slot widen t name) c [] (slot-lt t name v)) e
    | inr s ↦
        let other : slot widen t name ≢ slot widen t q = ground arith in
        rw (
          get_or-set_ne t.table (slot widen t name) (slot widen t q) c [] other,
          apart t name q other,
        )
  ]

  -- `put` pushes the object on the stack of its name and leaves the others.
  pub view-put :
      (t : HashTable) (fresh obj : ℕ) (name q : Name)
      → IsValid t
      → IsValid (put widen fresh name obj t)
        × (view (put widen fresh name obj t) q
            ≡ (if same_name name q then obj ∷ view t q else view t q))
  unfolding put
  view-put t fresh obj name q v = (
    record { pos = v.pos; sized = length-set t.table _ _ ∙ v.sized },
    view-set t name q _ (λ l. obj ∷ l) v (objects-push fresh obj name q (home t name)),
  )

  -- `get` reads the top of the stack, and NULL from an empty one.
  pub get-view : (t : HashTable) (name : Name) → get widen name t ≡ top (view t name)
  unfolding get view
  get-view t name = find-top name (home t name)

  -- `del(name)` pops the stack and says whether there was anything to pop.
  pub del-view :
      (t : HashTable) (name q : Name)
      → IsValid t
      → let (done, deleted, t') = del widen name t in
        IsValid t'
        × (done ≡ not (is_empty (view t name)))
        × (view t' q ≡ (if same_name name q then pop (view t q) else view t q))
  unfolding del view
  del-view t name q v =
      let (done, left) = objects-remove_name name q (home t name) in
      (
        record { pos = v.pos; sized = length-set t.table _ _ ∙ v.sized },
        done,
        view-set t name q _ pop v left,
      )

  -- `del(name, obj)` takes the last inserted entry of that object off the stack.
  pub del_object-view :
      (t : HashTable) (name q : Name) (obj : ℕ)
      → IsValid t
      → let (done, deleted, t') = del_object widen name obj t in
        IsValid t'
        × (done ≡ contains obj (view t name))
        × (view t' q ≡ (if same_name name q then erase obj (view t q) else view t q))
  unfolding del_object view
  del_object-view t name q obj v =
      let (done, left) = objects-remove_object name q obj (home t name) in
      (
        record { pos = v.pos; sized = length-set t.table _ _ ∙ v.sized },
        done,
        view-set t name q _ (erase obj) v left,
      )

  -- A new table holds nothing.
  pub view-create : (n : ℕ) (q : Name) → view (create n) q ≡ []
  unfolding view create objects
  view-create n q = rw get_or-replicate
