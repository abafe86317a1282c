-- ===== src/HashTable/Purge.antt =====
-- hashtab.cxx, `hash_table::purge`: what is deleted, and the table afterwards.
use post.Prelude.{
  ℕ, zero, suc, ◌≤◌, ◌<◌, ◌≡◌, refl, sym, ap, ap₂, ◌∙◌, Bool, true, false, List, [], ◌∷◌, ◌++◌,
  get_or, set, take, drop, replicate, length, arith, append_assoc, append-nil, length-set,
}
use post.HashTable.{HashTable, Chain, purge_chain, purge_from, rounds, purge}
use post.HashTable.Laws.{IsValid}

-- all items, the last chain first, and what is to be deleted for items
unfoldable pub items_of : List Chain → Chain
items_of [] = []
items_of (c ∷ cs) = items_of cs ++ c

unfoldable pub freed : Bool → Chain → List ℕ
freed delete_objects [] = []
freed true (ip ∷ ips) = ip.obj ∷ (ip.self ∷ freed true ips)
freed false (ip ∷ ips) = ip.self ∷ freed false ips

purge_chain-freed : (d : Bool) (c : Chain) → purge_chain d c ≡ freed d c
unfolding purge_chain freed
purge_chain-freed true [] = refl
purge_chain-freed false [] = refl
purge_chain-freed true (ip ∷ ips) = ap (λ l. ip.obj ∷ (ip.self ∷ l)) (purge_chain-freed true ips)
purge_chain-freed false (ip ∷ ips) = ap (λ l. ip.self ∷ l) (purge_chain-freed false ips)

freed-append : (d : Bool) (xs ys : Chain) → freed d (xs ++ ys) ≡ freed d xs ++ freed d ys
unfolding freed
freed-append true [] ys = refl
freed-append false [] ys = refl
freed-append true (ip ∷ xs) ys = ap (λ l. ip.obj ∷ (ip.self ∷ l)) (freed-append true xs ys)
freed-append false (ip ∷ xs) ys = ap (λ l. ip.self ∷ l) (freed-append false xs ys)

-- what the loops delete, the last chain first
unfoldable deletions : Bool → List Chain → List ℕ
unfolding purge_chain
deletions d [] = []
deletions d (c ∷ cs) = deletions d cs ++ purge_chain d c

deletions-freed : (d : Bool) (cs : List Chain) → deletions d cs ≡ freed d (items_of cs)
unfolding deletions items_of freed
deletions-freed true [] = refl
deletions-freed false [] = refl
deletions-freed d (c ∷ cs) =
    ap₂ (λ a b. a ++ b) (deletions-freed d cs) (purge_chain-freed d c)
    ∙ sym (freed-append d (items_of cs) c)

module _ {A : Type 0} where
  take-set : (n : ℕ) (xs : List A) (a : A) → take n (set xs n a) ≡ take n xs
  take-set zero xs a = refl
  take-set (suc n) [] a = refl
  take-set (suc n) (x ∷ xs) a = ap (λ l. x ∷ l) (take-set n xs a)

  drop-set :
      (n : ℕ) (xs : List A) (a : A) → n < length xs → drop n (set xs n a) ≡ a ∷ drop (suc n) xs
  drop-set zero [] a h = elim h [ ]
  drop-set zero (x ∷ xs) a h = refl
  drop-set (suc n) [] a h = elim h [ ]
  drop-set (suc n) (x ∷ xs) a h = drop-set n xs a (omega arith)

  replicate_middle :
      (n : ℕ) (a : A) (xs : List A) → replicate n a ++ (a ∷ xs) ≡ a ∷ (replicate n a ++ xs)
  replicate_middle zero a xs = refl
  replicate_middle (suc n) a xs = ap (λ l. a ∷ l) (replicate_middle n a xs)

  take-length : (n : ℕ) (xs : List A) → n ≡ length xs → take n xs ≡ xs
  take-length zero [] e = refl
  take-length zero (x ∷ xs) e = absurd (omega arith)
  take-length (suc n) [] e = refl
  take-length (suc n) (x ∷ xs) e = ap (λ l. x ∷ l) (take-length n xs (omega arith))

  drop-length : (n : ℕ) (xs : List A) → n ≡ length xs → drop n xs ≡ []
  drop-length zero [] e = refl
  drop-length zero (x ∷ xs) e = absurd (omega arith)
  drop-length (suc n) [] e = refl
  drop-length (suc n) (x ∷ xs) e = drop-length n xs (omega arith)

deletions-take :
    (delete_objects : Bool) (n : ℕ) (table : List Chain)
    → n < length table
    → deletions delete_objects (take (suc n) table)
      ≡ purge_chain delete_objects (get_or table n []) ++ deletions delete_objects (take n table)
unfolding deletions
deletions-take d n [] h = elim h [ ]
deletions-take d zero (c ∷ cs) h = sym (append-nil (purge_chain d c))
deletions-take d (suc n) (c ∷ cs) h =
    rw (deletions-take d n cs (omega arith))
      (append_assoc (purge_chain d (get_or cs n [])) (deletions d (take n cs)) (purge_chain d c))

purge_from-take :
    (delete_objects : Bool) (n : ℕ) (table : List Chain)
    → n ≤ length table
    → purge_from delete_objects n table
      ≡ (deletions delete_objects (take n table), replicate n [] ++ drop n table)
unfolding purge_from deletions
purge_from-take d zero table h = refl
purge_from-take d (suc n) table h = rw (
  purge_from-take d n (set table n []) (rw length-set (omega arith)),
  take-set n table [],
  drop-set n table [] h,
  deletions-take d n table h,
  replicate_middle n [] (drop (suc n) table),
)

rounds_small : (n : ℕ) → n < 2147483648 → rounds n ≡ n
unfolding rounds
rounds_small n h = ground arith

-- After `purge` of a table of fewer than 2 ^ 31 chains every chain is empty, the table has kept its
-- size, and the addresses deleted are those of all items of all chains, the last chain first, each
-- with its object before it if objects are to be deleted.
pub purge_lem :
    (delete_objects : Bool) (t : HashTable)
    → IsValid t
    → t.size < 2147483648
    → purge delete_objects t ≡ (
      freed delete_objects (items_of t.table),
      record { size = t.size; table = replicate t.size [] },
    )
unfolding purge
purge_lem d t v small =
    rw
      (
        rounds_small t.size small,
        purge_from-take d t.size t.table (omega (arith, v.sized)),
        take-length t.size t.table (sym v.sized),
        drop-length t.size t.table (sym v.sized),
        append-nil (replicate {A = Chain} t.size []),
        deletions-freed d t.table,
      )
      refl
