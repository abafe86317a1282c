-- ===== src/HashTable/Tests.antt =====
-- The hash table at concrete calls: runs of the code, and the theorems at them.
use post.Prelude.{◌≡◌, refl, true, List, [], ◌∷◌, arith, replicate}
use post.Names.{Name, string_hash_function, same_name}
use post.HashTable.{HashTable, create, purge}
use post.HashTable.Laws.{IsValid}
use post.HashTable.Purge.{freed, items_of, purge_lem}
use post.HashTable.Refines.{
  Call, put_call, get_call, del_call, del_object_call, nothing, object, removed, call, answers,
  abstract_answers, answers-abstract_answers,
}

-- the strings "a" and "i"; both hash to slot 1 of a table of 8
abbrev a : Name
a = 97 ∷ []

abbrev i : Name
i = 105 ∷ []

abbrev calls : List Call
calls =
    put_call 1000 a 7
    ∷ put_call 1016 i 8
    ∷ put_call 1032 a 9
    ∷ get_call a
    ∷ del_object_call a 7
    ∷ get_call a
    ∷ del_call a
    ∷ get_call a
    ∷ get_call i
    ∷ []

-- The later object hides the earlier one until it is deleted; a name in the same chain is untouched.
run :
    answers (λ c. c) calls (create 8)
    ≡ nothing
      ∷ nothing
      ∷ nothing
      ∷ object 9
      ∷ removed true
      ∷ object 9
      ∷ removed true
      ∷ object 0
      ∷ object 8
      ∷ []
unfolding answers create call string_hash_function same_name
run = refl

answers-abstract_answers_example :
    answers (λ c. c) calls (create 8) ≡ abstract_answers calls (λ q. [])
answers-abstract_answers_example = answers-abstract_answers (λ c. c) 8 calls (omega arith)

-- two chains with three items
abbrev filled : HashTable
filled = record {
  size = 2;
  table =
      (record { self = 1000; obj = 7; name = a } ∷ record { self = 1016; obj = 8; name = i } ∷ [])
      ∷ (record { self = 1032; obj = 9; name = [] } ∷ [])
      ∷ [];
}

filled-IsValid : IsValid filled
filled-IsValid = record { pos = omega arith; sized = refl }

purge_lem_example :
    purge true filled
    ≡ (freed true (items_of filled.table), record { size = 2; table = replicate 2 [] })
purge_lem_example = purge_lem true filled filled-IsValid (omega arith)

deleted : (purge true filled).0 ≡ 9 ∷ 1032 ∷ 7 ∷ 1000 ∷ 8 ∷ 1016 ∷ []
unfolding purge
deleted = refl
