-- ===== src/HashTable/Refines.antt =====
-- hashtab.cxx: sequences of calls of `put`, `get` and `del`, and the abstract map, a stack of
-- objects under each name.
use post.Prelude.{
  ℕ, ◌<◌, ◌≡◌, ◌∙◌, refl, sym, ap, ap₂, fun_ext, Bool, not, List, [], ◌∷◌, if◌then◌else◌,
}
use post.Names.{Name, same_name}
use post.HashTable.{HashTable, create, put, get, del, del_object}
use post.HashTable.Laws.{
  IsValid, create-IsValid, view, view-put, get-view, del-view, del_object-view, view-create, top,
  pop, is_empty, erase, contains,
}

-- one call; `put` carries the address of its new item
pub data Call : Type 0 where
  put_call : ℕ → Name → ℕ → Call
  get_call : Name → Call
  del_call : Name → Call
  del_object_call : Name → ℕ → Call

-- what the caller sees
pub data Answer : Type 0 where
  nothing : Answer
  object : ℕ → Answer
  removed : Bool → Answer

module _ (widen : ℕ → ℕ) where
  unfoldable pub call : Call → HashTable → Answer × HashTable
  unfolding put get del del_object
  call (put_call fresh name obj) t = (nothing, put widen fresh name obj t)
  call (get_call name) t = (object (get widen name t), t)
  call (del_call name) t = let (done, deleted, t') = del widen name t in (removed done, t')
  call (del_object_call name obj) t =
      let (done, deleted, t') = del_object widen name obj t in (removed done, t')

  unfoldable pub answers : List Call → HashTable → List Answer
  answers [] t = []
  answers (c ∷ cs) t = let (a, t') = call c t in a ∷ answers cs t'

-- the abstract map
abbrev pub Stacks : Type 0
Stacks = Name → List ℕ

abbrev pub change : Stacks → Name → (List ℕ → List ℕ) → Stacks
change m name f q = if same_name name q then f (m q) else m q

unfoldable pub abstract_call : Call → Stacks → Answer × Stacks
abstract_call (put_call fresh name obj) m = (nothing, change m name (λ l. obj ∷ l))
abstract_call (get_call name) m = (object (top (m name)), m)
abstract_call (del_call name) m = (removed (not (is_empty (m name))), change m name pop)
abstract_call (del_object_call name obj) m =
    (removed (contains obj (m name)), change m name (erase obj))

unfoldable pub abstract_answers : List Call → Stacks → List Answer
abstract_answers [] m = []
abstract_answers (c ∷ cs) m = let (a, m') = abstract_call c m in a ∷ abstract_answers cs m'

module _ (widen : ℕ → ℕ) where
  -- one call is simulated by the abstract map
  call-abstract_call :
      (c : Call) (t : HashTable)
      → IsValid t
      → IsValid (call widen c t).1
        × (abstract_call c (view widen t) ≡ ((call widen c t).0, view widen (call widen c t).1))
  unfolding call abstract_call
  call-abstract_call (put_call fresh name obj) t v =
      let named = λ (q : Name). view-put widen t fresh obj name q v in
      ((named name).0, ap (λ m. (nothing, m)) (fun_ext (λ q. sym (named q).1)))
  call-abstract_call (get_call name) t v =
      (v, ap (λ a. (object a, view widen t)) (sym (get-view widen t name)))
  call-abstract_call (del_call name) t v =
      let named = λ (q : Name). del-view widen t name q v in
      (
        (named name).0,
        ap₂ (λ a m. (removed a, m)) (sym (named name).1) (fun_ext (λ q. sym (named q).2)),
      )
  call-abstract_call (del_object_call name obj) t v =
      let named = λ (q : Name). del_object-view widen t name q obj v in
      (
        (named name).0,
        ap₂ (λ a m. (removed a, m)) (sym (named name).1) (fun_ext (λ q. sym (named q).2)),
      )

  answers-view :
      (cs : List Call) (t : HashTable)
      → IsValid t
      → answers widen cs t ≡ abstract_answers cs (view widen t)
  unfolding answers abstract_answers
  answers-view [] t v = refl
  answers-view (c ∷ cs) t v =
      let (w, e) = call-abstract_call c t v in
      rw e (ap (λ l. (call widen c t).0 ∷ l) (answers-view cs (call widen c t).1 w))

-- Every sequence of `put`, `get`, `del(name)` and `del(name, obj)` on a new table of at least one
-- chain answers as the map from names to stacks of objects, whatever the hash values are.
pub answers-abstract_answers :
    (widen : ℕ → ℕ) (n : ℕ) (cs : List Call)
    → 0 < n
    → answers widen cs (create n) ≡ abstract_answers cs (λ q. [])
answers-abstract_answers widen n cs h =
    answers-view widen cs (create n) (create-IsValid n h)
    ∙ ap (abstract_answers cs) (fun_ext (view-create widen n))
