-- ===== src/Avl/Ring.antt =====
-- avltree.h, `l2elem`: the ring as a list of elements.
use post.Prelude.{
  ℕ, ◌≡◌, ◌≢◌, ◌∙◌, sym, fun_ext, List, [], ◌∷◌, ◌++◌, ◌==◌, if◌then◌else◌, All, All-append_left,
  All-append_right, arith,
}
use post.Avl.{Links, link_after, link_before, unlink, prune}

-- from `a` the links lead through `xs` to `b`, and back
abbrev pub Chain : Links → ℕ → List ℕ → ℕ → Type 0
Chain s a [] b = (s.next a ≡ b) × (s.prev b ≡ a)
Chain s a (x ∷ xs) b = (s.next a ≡ x) × (s.prev x ≡ a) × Chain s x xs b

-- the ring of the tree `h` holds the keys `xs`
abbrev pub IsRing : Links → ℕ → List ℕ → Type 0
IsRing s h xs = Chain s h xs h

abbrev pub Distinct : List ℕ → Type 0
Distinct [] = Unit
Distinct (x ∷ xs) = All (λ y. x ≢ y) xs × Distinct xs

-- the last of `a ∷ xs`, and the first of `xs` and then `b`
abbrev pub last_of : ℕ → List ℕ → ℕ
last_of a [] = a
last_of a (x ∷ xs) = last_of x xs

abbrev pub first_of : List ℕ → ℕ → ℕ
first_of [] b = b
first_of (x ∷ xs) b = x

pub prune-IsRing : (s : Links) (h : ℕ) → IsRing (prune h s) h []
unfolding prune
prune-IsRing s h = ground arith

-- `n` between `p` and `k`
pub splice : Links → ℕ → ℕ → ℕ → Links
splice s p n k = record {
  next = λ x. if x == p then n else if x == n then k else s.next x;
  prev = λ x. if x == k then n else if x == n then p else s.prev x;
}

-- the neighbours `p` and `k` of a removed element
pub bypass : Links → ℕ → ℕ → Links
bypass s p k = record {
  next = λ x. if x == p then k else s.next x;
  prev = λ x. if x == k then p else s.prev x;
}

links_path :
    (s t : Links) → ((x : ℕ) → s.next x ≡ t.next x) → ((x : ℕ) → s.prev x ≡ t.prev x) → s ≡ t
links_path s t f g = λ i. record { next = fun_ext f i; prev = fun_ext g i }

module _ (s : Links) (n p k : ℕ) (to : s.next p ≡ k) (back : s.prev k ≡ p) (np : n ≢ p)
    (nk : n ≢ k) where
  pub link_after-splice : link_after n p s ≡ splice s p n k
  unfolding link_after splice
  link_after-splice = links_path _ _ (λ x. ground arith) (λ x. ground arith)

  pub link_before-splice : link_before n k s ≡ splice s p n k
  unfolding link_before splice
  link_before-splice = links_path _ _ (λ x. ground arith) (λ x. ground arith)

pub unlink-bypass :
    (s : Links) (n p k : ℕ)
    → s.next n ≡ k
    → s.prev n ≡ p
    → n ≢ p
    → n ≢ k
    → unlink n s ≡ bypass s p k
unfolding unlink bypass
unlink-bypass s n p k to back np nk = links_path _ _ (λ x. ground arith) (λ x. ground arith)

-- Links that differ only outside a chain leave it a chain.
Chain-frame :
    (s t : Links) (a : ℕ) (xs : List ℕ) (b : ℕ)
    → t.next a ≡ s.next a
    → All (λ x. t.next x ≡ s.next x) xs
    → All (λ x. t.prev x ≡ s.prev x) xs
    → t.prev b ≡ s.prev b
    → Chain s a xs b
    → Chain t a xs b
Chain-frame s t a [] b na n p pb c = (na ∙ c.0, pb ∙ c.1)
Chain-frame s t a (x ∷ xs) b na n p pb c =
    (na ∙ c.0, p.0 ∙ c.1, Chain-frame s t x xs b n.0 n.1 p.1 pb c.2)

pub neighbours :
    (s : Links) (a : ℕ) (pre post : List ℕ) (b : ℕ)
    → Chain s a (pre ++ post) b
    → (s.next (last_of a pre) ≡ first_of post b) × (s.prev (first_of post b) ≡ last_of a pre)
neighbours s a [] [] b c = c
neighbours s a [] (x ∷ xs) b c = (c.0, c.1)
neighbours s a (y ∷ ys) post b c = neighbours s y ys post b c.2

abbrev Misses : ℕ → List ℕ → Type 0
Misses n xs = All (λ y. n ≢ y) xs

last_of-Misses : (n a : ℕ) (xs : List ℕ) → n ≢ a → Misses n xs → n ≢ last_of a xs
last_of-Misses n a [] h m = h
last_of-Misses n a (x ∷ xs) h m = last_of-Misses n x xs m.0 m.1

first_of-Misses : (n b : ℕ) (pre xs : List ℕ) → n ≢ b → Misses n (pre ++ xs) → n ≢ first_of xs b
first_of-Misses n b pre [] h m = h
first_of-Misses n b [] (x ∷ xs) h m = m.0
first_of-Misses n b (y ∷ pre) (x ∷ xs) h m = first_of-Misses n b pre (x ∷ xs) h m.1

next_same :
    (s : Links) (p n k : ℕ) (xs : List ℕ)
    → Misses p xs
    → Misses n xs
    → All (λ x. (splice s p n k).next x ≡ s.next x) xs
unfolding splice
next_same s p n k [] hp hn = tt
next_same s p n k (x ∷ xs) hp hn = (ground (arith, hp.0, hn.0), next_same s p n k xs hp.1 hn.1)

prev_same :
    (s : Links) (p n k : ℕ) (xs : List ℕ)
    → Misses k xs
    → Misses n xs
    → All (λ x. (splice s p n k).prev x ≡ s.prev x) xs
unfolding splice
prev_same s p n k [] hk hn = tt
prev_same s p n k (x ∷ xs) hk hn = (ground (arith, hk.0, hn.0), prev_same s p n k xs hk.1 hn.1)

-- A new element between two neighbours of a chain of distinct elements.
pub splice-Chain :
    (s : Links) (n a : ℕ) (pre post : List ℕ) (b : ℕ)
    → n ≢ a
    → n ≢ b
    → Misses n (pre ++ post)
    → Misses b (pre ++ post)
    → Distinct (a ∷ (pre ++ post))
    → Chain s a (pre ++ post) b
    → Chain (splice s (last_of a pre) n (first_of post b)) a (pre ++ n ∷ post) b
unfolding splice
splice-Chain s n a [] [] b na nb mn mb d c = ground arith
splice-Chain s n a [] (x ∷ xs) b na nb mn mb d c = (
  ground arith,
  ground (arith, mn.0),
  (
    ground (arith, mn.0),
    ground (arith, mn.0),
    Chain-frame s (splice s a n x) x xs b (ground (arith, d.0.0, mn.0))
        (next_same s a n x xs d.0.1 mn.1) (prev_same s a n x xs d.1.0 mn.1) (ground (arith, mb.0))
        c.2,
  ),
)
splice-Chain s n a (y ∷ ys) post b na nb mn mb d c = (
  ground (arith, away, mn.0),
  ground (arith, apart, mn.0),
  splice-Chain s n y ys post b mn.0 nb mn.1 mb.1 d.1 c.2,
)
  where
    away : a ≢ last_of y ys
    away = last_of-Misses a y ys d.0.0 (All-append_left _ ys post d.0.1)

    apart : y ≢ first_of post b
    apart = first_of-Misses y b ys post (λ e. mb.0 (sym e)) d.1.0

next_kept :
    (s : Links) (p k : ℕ) (xs : List ℕ)
    → Misses p xs
    → All (λ x. (bypass s p k).next x ≡ s.next x) xs
unfolding bypass
next_kept s p k [] hp = tt
next_kept s p k (x ∷ xs) hp = (ground (arith, hp.0), next_kept s p k xs hp.1)

prev_kept :
    (s : Links) (p k : ℕ) (xs : List ℕ)
    → Misses k xs
    → All (λ x. (bypass s p k).prev x ≡ s.prev x) xs
unfolding bypass
prev_kept s p k [] hk = tt
prev_kept s p k (x ∷ xs) hk = (ground (arith, hk.0), prev_kept s p k xs hk.1)

-- An element taken out of a chain of distinct elements.
pub bypass-Chain :
    (s : Links) (n a : ℕ) (pre post : List ℕ) (b : ℕ)
    → Misses b (pre ++ n ∷ post)
    → Distinct (a ∷ (pre ++ n ∷ post))
    → Chain s a (pre ++ n ∷ post) b
    → Chain (bypass s (last_of a pre) (first_of post b)) a (pre ++ post) b
unfolding bypass
bypass-Chain s n a [] [] b mb d c = ground arith
bypass-Chain s n a [] (x ∷ xs) b mb d c = (
  ground arith,
  ground arith,
  Chain-frame s (bypass s a x) x xs b (ground (arith, d.0.1.0)) (next_kept s a x xs d.0.1.1)
      (prev_kept s a x xs d.1.1.0) (ground (arith, mb.1.0)) c.2.2,
)
bypass-Chain s n a (y ∷ ys) post b mb d c =
    (ground (arith, away), ground (arith, apart), bypass-Chain s n y ys post b mb.1 d.1 c.2)
  where
    away : a ≢ last_of y ys
    away = last_of-Misses a y ys d.0.0 (All-append_left _ ys (n ∷ post) d.0.1)

    apart : y ≢ first_of post b
    apart =
        first_of-Misses y b [] post (λ e. mb.0 (sym e)) (All-append_right _ ys (n ∷ post) d.1.0).1

-- the element of a chain and its neighbours
pub neighbours_of :
    (s : Links) (n a : ℕ) (pre post : List ℕ) (b : ℕ)
    → Chain s a (pre ++ n ∷ post) b
    → (s.next n ≡ first_of post b) × (s.prev n ≡ last_of a pre)
neighbours_of s n a [] [] b c = (c.2.0, c.1)
neighbours_of s n a [] (x ∷ xs) b c = (c.2.0, c.1)
neighbours_of s n a (y ∷ ys) post b c = neighbours_of s n y ys post b c.2

-- `link_after` the element before, or `link_before` the one behind, puts a new element into the
-- ring between the two.
pub link-IsRing :
    (s : Links) (n h : ℕ) (pre post : List ℕ)
    → n ≢ h
    → Misses n (pre ++ post)
    → Distinct (h ∷ (pre ++ post))
    → IsRing s h (pre ++ post)
    → IsRing (link_after n (last_of h pre) s) h (pre ++ n ∷ post)
      × IsRing (link_before n (first_of post h) s) h (pre ++ n ∷ post)
link-IsRing s n h pre post nh mn d c =
    let (to, back) = neighbours s h pre post h c in
    let np = last_of-Misses n h pre nh (All-append_left _ pre post mn) in
    let nk = first_of-Misses n h pre post nh mn in
    let ring = splice-Chain s n h pre post h nh nh mn d.0 d c in
    (
      rw (link_after-splice s n _ _ to back np nk) ring,
      rw (link_before-splice s n _ _ to back np nk) ring,
    )

-- `unlink` takes an element out of the ring and leaves the others in order.
pub unlink-IsRing :
    (s : Links) (n h : ℕ) (pre post : List ℕ)
    → Distinct (h ∷ (pre ++ n ∷ post))
    → IsRing s h (pre ++ n ∷ post)
    → IsRing (unlink n s) h (pre ++ post)
unlink-IsRing s n h pre post d c =
    let (to, back) = neighbours_of s n h pre post h c in
    let nh : n ≢ h = λ e. (All-append_right _ pre (n ∷ post) d.0).0 (sym e) in
    rw (unlink-bypass s n _ _ to back (before_it n h pre nh d.1) (behind pre nh d.1))
      (bypass-Chain s n h pre post h d.0 d c)
  where
    before_it : (m a : ℕ) (xs : List ℕ) → m ≢ a → Distinct (xs ++ m ∷ post) → m ≢ last_of a xs
    before_it m a [] ne d = ne
    before_it m a (x ∷ xs) ne d =
        before_it m x xs (λ e. (All-append_right _ xs (m ∷ post) d.0).0 (sym e)) d.1

    behind : (xs : List ℕ) → n ≢ h → Distinct (xs ++ n ∷ post) → n ≢ first_of post h
    behind [] ne d = first_of-Misses n h [] post ne d.0
    behind (x ∷ xs) ne d = behind xs ne d.1
