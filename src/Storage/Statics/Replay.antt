-- ===== src/Storage/Statics/Replay.antt =====
-- storage.h, static data: a session that registers objects, and one that reads them.
use post.Prelude.{
  ℕ, suc, ◌+◌, ◌≤◌, ◌<◌, ◌≡◌, ◌∙◌, refl, ap, ap₂, ◌&&◌, Bool, true, false, Option, none, some, List,
  [], ◌∷◌, ◌++◌, if◌then◌else◌, ltb, arith, length, length-set, get_or, set, get_or-set_self,
  get_or-set_ne, lt→ltb,
}
use post.Storage.Statics.{
  Statics, max_static_data, begin_static_data, end_static_data, get_static_data, set_static_data,
  set_all, get_all,
}

-- the array holds the objects from index `k` on
abbrev Stored : List ℕ → ℕ → List ℕ → Type 0
Stored array k [] = Unit
Stored array k (obj ∷ objs) = (get_or array k 0 ≡ obj) × Stored array (k + 1) objs

-- the state after one more object
abbrev one_more : ℕ → Statics → Statics
one_more obj s = record s {
  array = set s.array s.static_data_index obj;
  n_static_data = s.static_data_index + 1;
  static_data_index = s.static_data_index + 1;
}

chosen : {A : Type 0} (b : Bool) (x y : A) → b ≡ true → (if b then x else y) ≡ x
chosen true x y e = refl
chosen false x y e = absurd (cc)

refused : {A : Type 0} (b : Bool) (x y : A) → b ≡ false → (if b then x else y) ≡ y
refused true x y e = absurd (cc)
refused false x y e = refl

set_once :
    (obj : ℕ) (s : Statics)
    → s.static_data ≡ true
    → s.n_static_data < max_static_data
    → set_static_data obj s ≡ some (one_more obj s)
unfolding set_static_data
set_once obj s on room =
    chosen s.static_data _ _ on ∙ chosen (ltb s.n_static_data max_static_data) _ _ (lt→ltb _ _ room)

get_once :
    (s : Statics)
    → s.static_data ≡ true
    → s.static_data_index < s.n_static_data
    → get_static_data s ≡ (
      get_or s.array s.static_data_index 0,
      record s { static_data_index = s.static_data_index + 1 },
    )
unfolding get_static_data
get_once s on more =
    let both : (s.static_data && ltb s.static_data_index s.n_static_data) ≡ true =
      (ground (arith, on, more)) in
    chosen (s.static_data && ltb s.static_data_index s.n_static_data) _ _ both

continued : List ℕ → Option Statics → Option Statics
continued objs none = none
continued objs (some s) = set_all objs s

record Registered (s : Statics) (objs : List ℕ) (s' : Statics) : Type 0 where
  done : set_all objs s ≡ some s'
  number : s'.n_static_data ≡ s.static_data_index + length objs
  before : (i : ℕ) → i < s.static_data_index → get_or s'.array i 0 ≡ get_or s.array i 0
  stored : Stored s'.array s.static_data_index objs

set_all-Registered :
    (objs : List ℕ) (s : Statics)
    → s.static_data ≡ true
    → s.n_static_data ≡ s.static_data_index
    → length s.array ≡ max_static_data
    → s.static_data_index + length objs ≤ max_static_data
    → (s' : Statics) × Registered s objs s'
unfolding set_all continued
set_all-Registered [] s on n full room =
    (s, record { done = refl; number = rw n (omega arith); before = λ i h. refl; stored = tt })
set_all-Registered (obj ∷ objs) s on n full room =
    let (s', r) =
      set_all-Registered objs (one_more obj s) on refl (rw length-set full) (omega (arith, room)) in
    let free : s.n_static_data < max_static_data = omega (arith, room, n) in
    let here : s.static_data_index < length s.array = omega (arith, room, full) in
    (
      s',
      record {
        done = ap (continued objs) (set_once obj s on free) ∙ r.done;
        number = rw r.number (omega arith);
        before = λ i h.
            r.before i (omega (arith, h))
            ∙ get_or-set_ne s.array s.static_data_index i obj 0 (λ e. absurd (omega (arith, h, e)));
        stored = (
          r.before s.static_data_index (omega arith)
              ∙ get_or-set_self s.array s.static_data_index obj 0 here,
          r.stored,
        );
      },
    )

get_all-Stored :
    (objs : List ℕ) (s : Statics)
    → s.static_data ≡ true
    → s.n_static_data ≡ s.static_data_index + length objs
    → Stored s.array s.static_data_index objs
    → get_all (suc (length objs)) s ≡ objs ++ 0 ∷ []
unfolding get_all get_static_data
get_all-Stored [] s on n h =
    let over : (s.static_data && ltb s.static_data_index s.n_static_data) ≡ false =
      (ground (arith, on, n)) in
    ap (λ (r : ℕ × Statics). r.0 ∷ [])
      (refused (s.static_data && ltb s.static_data_index s.n_static_data) _ _ over)
get_all-Stored (obj ∷ objs) s on n h =
    let next = record s { static_data_index = s.static_data_index + 1 } in
    ap (λ (r : ℕ × Statics). r.0 ∷ get_all (suc (length objs)) r.1)
      (get_once s on (omega (arith, n)))
    ∙ ap₂ (λ x l. x ∷ l) h.0 (get_all-Stored objs next on (omega (arith, n)) h.1)

-- At most 32 objects registered in a storage without static data are, in a later session, found one
-- after another in the same order, and behind the last one NULL.
pub set_all-get_all :
    (objs : List ℕ) (s : Statics)
    → length s.array ≡ max_static_data
    → s.n_static_data ≡ 0
    → length objs ≤ max_static_data
    → (s' : Statics) × (set_all objs (begin_static_data s) ≡ some s')
      × (get_all (suc (length objs)) (begin_static_data (end_static_data s')) ≡ objs ++ 0 ∷ [])
unfolding begin_static_data end_static_data
set_all-get_all objs s full empty few =
    let (s', r) =
      set_all-Registered objs (begin_static_data s) refl empty full (omega (arith, few)) in
    (
      s',
      r.done,
      get_all-Stored objs (begin_static_data (end_static_data s')) refl r.number r.stored,
    )
