-- ===== src/Ttree/Purge.antt =====
-- ttree.cxx: `dbTtree::purge` and the destructor of a node. The result are the addresses of the nodes
-- that are deallocated, in their order: the branches of a node before the node itself.
use post.Prelude.{ℕ, ◌≡◌, List, [], ◌∷◌, ◌++◌, refl, total, total-append, arith}
use post.Balanced.{nil, node, nodes}
use post.Ttree.{Ttree}

-- `delete`, which does nothing on NULL
unfoldable pub delete_node : Ttree → List ℕ
delete_node nil = []
delete_node (node self l items b r) = delete_node l ++ (delete_node r ++ self ∷ [])

-- `dbTtree::purge`
unfoldable pub purge : Ttree → Ttree × List ℕ
unfolding delete_node
purge nil = (nil, [])
purge (node self l items b r) = (nil, delete_node (node self l items b r))

delete_node-nodes :
    (f : ℕ → ℕ) (t : Ttree) → total f (delete_node t) ≡ total (λ (e : ℕ × List ℕ). f e.0) (nodes t)
unfolding delete_node nodes
delete_node-nodes f nil = refl
delete_node-nodes f (node self l items b r) = omega (
  arith,
  delete_node-nodes f l,
  delete_node-nodes f r,
  total-append f (delete_node l) (delete_node r ++ self ∷ []),
  total-append f (delete_node r) (self ∷ []),
  total-append (λ (e : ℕ × List ℕ). f e.0) (nodes l) ((self, items) ∷ nodes r),
)

-- A purge leaves an empty tree and deallocates the nodes of the tree, each as often as it occurs
-- there (the sums agree for every weight of an address).
pub purge-nodes :
    (t : Ttree)
    → ((purge t).0 ≡ nil)
      × ((f : ℕ → ℕ) → total f (purge t).1 ≡ total (λ (e : ℕ × List ℕ). f e.0) (nodes t))
unfolding purge nodes
purge-nodes nil = (refl, λ f. refl)
purge-nodes (node self l items b r) = (refl, λ f. delete_node-nodes f (node self l items b r))
