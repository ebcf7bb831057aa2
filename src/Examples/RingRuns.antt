-- ===== src/Examples/RingRuns.antt =====
-- The ring's theorems at a ring of two nodes with one label each; the hash is a text's first byte.
use flamedb.Base.{
  ℕ, ◌≡◌, ◌≢◌, refl, some, [], ◌∷◌, arith, ◌≤◌, ◌<◌, ◌⊎◌, inl, inr, length, true, In, subst,
}
use flamedb.Base.Bytes.{Bytes, codes, bytes_eq}
use flamedb.Base.NatMap.{get, set, delete}
use flamedb.Base.Sort.{IsSorted, sort}
use flamedb.Cluster.Ring.{
  Node, Ring, new_ring, add, remove, get_node, get_n, start, place, labels, has_id, node_at, seen,
  search_from,
}
use flamedb.Cluster.Ring.Invariant.{IsValid, new_ring-IsValid, add-IsValid, get-remove_ne}
use flamedb.Cluster.Ring.Owner.{Owns, get_node-remove}
use flamedb.Cluster.Ring.Replicas.{get_n_lem}
use flamedb.Cluster.Ring.Taken.{DistinctIds}

abbrev pub first_byte : Bytes → ℕ
first_byte [] = 0
first_byte (c ∷ s) = c

abbrev pub node_a : Node
node_a = record { id = codes "a"; addr = codes "a.local" }

abbrev pub node_b : Node
node_b = record { id = codes "b"; addr = codes "b.local" }

abbrev pub two_nodes : Ring
two_nodes = record { nodes = (97, node_a) ∷ (98, node_b) ∷ []; hashes = 97 ∷ 98 ∷ []; replicas = 1 }

two_nodes-made : add first_byte (add first_byte (new_ring 1) node_a) node_b ≡ two_nodes
unfolding add has_id place labels set sort bytes_eq
two_nodes-made = refl

two_nodes-IsValid : IsValid first_byte two_nodes
two_nodes-IsValid =
    subst (λ r. IsValid first_byte r) two_nodes-made
      (add-IsValid first_byte _ node_b
        (add-IsValid first_byte _ node_a (new_ring-IsValid first_byte 1)))

add-IsValid_example : IsValid first_byte (add first_byte two_nodes node_a)
add-IsValid_example = add-IsValid first_byte two_nodes node_a two_nodes-IsValid

b_left : get (remove first_byte two_nodes (codes "a")).nodes 98 ≡ some node_b
unfolding remove get labels delete
b_left = refl

b-Owns : Owns 98 (97 ∷ 98 ∷ []) 98
b-Owns = record { member = inr (inl refl); first = inl (omega arith, λ j i h. h) }

two_nodes-IsSorted : IsSorted (97 ∷ 98 ∷ [])
two_nodes-IsSorted = two_nodes-IsValid.sorted

sent_to_b : get_node first_byte two_nodes (codes "bx") ≡ some node_b
unfolding get_node start search_from get
sent_to_b = refl

a_alone :
    (h : ℕ) (n : Node)
    → get two_nodes.nodes h ≡ some n
    → In h (labels first_byte 1 0 (codes "a"))
    → n.id ≡ codes "a"
unfolding get labels
a_alone h n e (inl i) = cc (rw i at e)
a_alone h n e (inr i) = elim i [ ]

b-ne_a : codes "b" ≢ codes "a"
b-ne_a = get-remove_ne first_byte two_nodes (codes "a") 98 node_b two_nodes-IsValid b_left

get_node-remove_example :
    get_node first_byte (remove first_byte two_nodes (codes "a")) (codes "bx") ≡ some node_b
get_node-remove_example =
    get_node-remove first_byte two_nodes (codes "a") (codes "bx") node_b two_nodes-IsValid a_alone
      sent_to_b b-ne_a

get_n_lem_example :
    DistinctIds (get_n first_byte two_nodes (codes "bx") 3)
    × (length (get_n first_byte two_nodes (codes "bx") 3) ≤ 3)
    × ((3 ≤ length (get_n first_byte two_nodes (codes "bx") 3))
        ⊎ ((p : ℕ)
            → p < length two_nodes.hashes
            → seen (get_n first_byte two_nodes (codes "bx") 3) (node_at two_nodes p).id ≡ true))
get_n_lem_example = get_n_lem first_byte two_nodes (codes "bx") 3
