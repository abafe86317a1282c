-- ===== src/HashTable.antt =====
-- hashtab.h and hashtab.cxx: the hash table from names to objects. A chain of `hash_item`s is the
-- list of its items; objects and items are addresses, and NULL is 0. Methods return the addresses
-- that they `delete`, in order.
pub mod Laws
pub mod Purge
pub mod Refines
mod Tests
use post.Prelude.{
  ℕ, zero, suc, ◌+◌, ◌-◌, ◌%◌, Bool, true, false, ◌&&◌, not, ltb, List, [], ◌∷◌, ◌++◌, ◌==◌,
  if◌then◌else◌, get_or, set, replicate, length,
}
use post.Names.{Name, same_name, string_hash_function}

-- `hash_item`; `self` is its own address
pub record HashItem : Type 0 where
  pub self : ℕ
  pub obj : ℕ
  pub name : Name

abbrev pub Chain : Type 0
Chain = List HashItem

-- `hash_table`: `size` is the length of `table`
pub record HashTable : Type 0 where
  pub size : ℕ
  pub table : List Chain

-- the constructor, called by `create`
unfoldable pub create : ℕ → HashTable
create hash_size = record { size = hash_size; table = replicate hash_size [] }

-- The loop and the removal of `del`, over its test for an item.
unfoldable pub remove_first : (HashItem → Bool) → Chain → Bool × List ℕ × Chain
remove_first test [] = (false, [], [])
remove_first test (ip ∷ rest) =
    let (done, deleted, rest') = remove_first test rest in
    if test ip then (true, ip.self ∷ [], rest) else (done, deleted, ip ∷ rest')

-- the loop of `get`
unfoldable pub find : Name → Chain → ℕ
find name [] = 0
find name (ip ∷ rest) = if same_name ip.name name then ip.obj else find name rest

module _ (widen : ℕ → ℕ) where
  -- the index `string_hash_function(name) % size`
  unfoldable pub slot : HashTable → Name → ℕ
  slot t name = string_hash_function widen name % t.size

  -- `fresh` is the address that `operator new` gives the new item
  unfoldable pub put : ℕ → Name → ℕ → HashTable → HashTable
  unfolding slot
  put fresh name obj t =
      let h = slot t name in
      record t {
        table =
            set t.table h (record { self = fresh; obj = obj; name = name } ∷ get_or t.table h []);
      }

  unfoldable pub get : Name → HashTable → ℕ
  unfolding slot find
  get name t = find name (get_or t.table (slot t name) [])

  unfoldable pub del_where : (HashItem → Bool) → Name → HashTable → Bool × List ℕ × HashTable
  unfolding slot remove_first
  del_where test name t =
      let h = slot t name in
      let (done, deleted, chain) = remove_first test (get_or t.table h []) in
      (done, deleted, record t { table = set t.table h chain })

  -- `del(name)`
  unfoldable pub del : Name → HashTable → Bool × List ℕ × HashTable
  unfolding del_where
  del name t = del_where (λ ip. same_name ip.name name) name t

  -- `del(name, obj)`
  unfoldable pub del_object : Name → ℕ → HashTable → Bool × List ℕ × HashTable
  unfolding del_where
  del_object name obj t = del_where (λ ip. ip.obj == obj && same_name ip.name name) name t

-- The inner loop of `purge`: the objects, where they are to be deleted, and the items.
unfoldable pub purge_chain : Bool → Chain → List ℕ
purge_chain delete_objects [] = []
purge_chain delete_objects (ip ∷ rest) =
    let more = purge_chain delete_objects rest in
    if delete_objects then ip.obj ∷ ip.self ∷ more else ip.self ∷ more

-- The outer loop: `i` from `size` down to 0.
unfoldable pub purge_from : Bool → ℕ → List Chain → List ℕ × List Chain
unfolding purge_chain
purge_from delete_objects zero table = ([], table)
purge_from delete_objects (suc i) table =
    let deleted = purge_chain delete_objects (get_or table i []) in
    let (more, table') = purge_from delete_objects i (set table i []) in (deleted ++ more, table')

-- `int i = size`: the number of rounds, which is 0 if the `int` is negative
unfoldable pub rounds : ℕ → ℕ
rounds size = let i = size % 4294967296 in if ltb i 2147483648 then i else 0

unfoldable pub purge : Bool → HashTable → List ℕ × HashTable
unfolding purge_from rounds
purge delete_objects t =
    let (deleted, table) = purge_from delete_objects (rounds t.size) t.table in
    (deleted, record t { table = table })
