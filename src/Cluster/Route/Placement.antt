-- ===== src/Cluster/Route/Placement.antt =====
-- Where a metric's commands go: one primary, and reads at nodes that hold the metric.
use flamedb.Base.{
  ℕ, zero, suc, ◌%◌, ◌<◌, ◌≡◌, ◌↔◌, refl, true, false, none, some, List, [], ◌∷◌, arith,
  if◌then◌else◌, length, get_elem?, Bool-cases, inl, inr, sym, ◌∙◌, ◌==◌, Option-cases, ◌++◌,
}
use flamedb.Base.Bytes.{Bytes, codes, bytes_eq, bytes_eq_refl, bytes_eq_sound}
use flamedb.Cluster.Ring.{Node, get_node, get_n}
use flamedb.Cluster.Ring.Replicas.{get_n-get_node}
use flamedb.Cluster.Route.{
  first_or_zero, is_first, forward_to_primary, is_local, Cluster, get_route, route_of,
  is_primary_for, get_read_node, is_among, is_text, read_policy_primary, read_policy_local,
  next_counter,
}
use flamedb.Query.Types.{ok, err}

get_n-empty :
    (hash : Bytes → ℕ) (c : Cluster) (metric : Bytes) (n : ℕ)
    → get_node hash c.ring metric ≡ none
    → get_n hash c.ring metric n ≡ []
unfolding get_node get_n
get_n-empty hash c metric n e = elim (Bool-cases (length c.ring.hashes == 0)) [
  | inl empty ↦ rw empty refl
  | inr full ↦ absurd (cc (rw full at e))
]

first_is_among : (n : Node) (nodes : List Node) → is_among n.id (n ∷ nodes) ≡ true
unfolding is_among
first_is_among n nodes = rw (bytes_eq_refl n.id) refl

-- Every nth node is among the nodes.
get_elem?-is_among :
    (nodes : List Node) (i : ℕ)
    → i < length nodes
    → (n : Node) × (get_elem? nodes i ≡ some n) × (is_among n.id nodes ≡ true)
unfolding is_among
get_elem?-is_among [] i h = absurd (omega arith)
get_elem?-is_among (x ∷ nodes) zero h = (x, refl, ground (arith, bytes_eq_refl x.id))
get_elem?-is_among (x ∷ nodes) (suc i) h =
    let (n, e, m) = get_elem?-is_among nodes i (omega arith) in (n, e, ground (arith, m))

module _ (hash : Bytes → ℕ) (c : Cluster) (metric : Bytes) where
  pub is_primary-owner :
      (node : Node)
      → 0 < c.replication_factor
      → get_node hash c.ring metric ≡ some node
      → is_primary_for hash c metric ≡ bytes_eq node.id c.self.id
  unfolding get_route route_of
  is_primary-owner node some_factor e =
      let (rest, w) = get_n-get_node hash c.ring metric c.replication_factor node some_factor e in
      rw w refl

  is_primary-nobody : get_node hash c.ring metric ≡ none → is_primary_for hash c metric ≡ false
  unfolding get_route route_of
  is_primary-nobody e = rw (get_n-empty hash c metric c.replication_factor e) refl

  -- With a positive replication factor a node is the primary of a metric exactly where the ring gives
  -- the metric to a node of its identifier.
  pub is_primary_for_lem :
      0 < c.replication_factor
      → (is_primary_for hash c metric ≡ true)
        ↔ ((node : Node) × (get_node hash c.ring metric ≡ some node) × (node.id ≡ c.self.id))
  is_primary_for_lem some_factor = (
    (λ h. elim (Option-cases (get_node hash c.ring metric)) [
      | inl nobody ↦ absurd (cc (is_primary-nobody nobody))
      | inr (node, e) ↦
          (node, e, bytes_eq_sound _ _ (sym (is_primary-owner node some_factor e) ∙ h))
    ]),
    λ (node, e, same). is_primary-owner node some_factor e ∙ rw same (bytes_eq_refl _),
  )

  -- The node that GetReadNode chooses among the nodes of the route.
  read_choice :
      (owner : Node) (rest : List Node)
      → get_n hash c.ring metric c.replication_factor ≡ owner ∷ rest
      → is_text owner.id ≡ true
      → (n : Node) × ((get_read_node hash c metric).1 ≡ n) × (is_among n.id (owner ∷ rest) ≡ true)
  unfolding get_read_node get_route route_of
  read_choice owner rest w named = elim (Bool-cases (bytes_eq c.read_policy read_policy_primary)) [
    | inl primary ↦ (owner, rw (w, primary, named) refl, first_is_among owner rest)
    | inr other ↦ elim (Bool-cases (bytes_eq c.read_policy read_policy_local)) [
      | inl local ↦ elim (Bool-cases (is_among c.self.id (owner ∷ rest))) [
        | inl here ↦ (c.self, rw (w, other, local, here) refl, here)
        | inr away ↦ (owner, rw (w, other, local, away, named) refl, first_is_among owner rest)
      ]
      | inr rr ↦
          let (n, f, m) =
            get_elem?-is_among (owner ∷ rest) (next_counter c % suc (length rest)) (grind arith) in
          (n, rw (w, other, rr, f) refl, m)
    ]
  ]

  -- Where the ring gives the metric to a node with an identifier and the replication factor is
  -- positive, GetReadNode, under every policy, chooses a node that holds the metric.
  pub get_read_node_lem :
      (owner : Node)
      → 0 < c.replication_factor
      → get_node hash c.ring metric ≡ some owner
      → is_text owner.id ≡ true
      → is_among (get_read_node hash c metric).1.id (get_n hash c.ring metric c.replication_factor)
        ≡ true
  get_read_node_lem owner some_factor e named =
      let (rest, w) = get_n-get_node hash c.ring metric c.replication_factor owner some_factor e in
      let (n, chosen, m) = read_choice owner rest w named in rw (chosen, w) m

  -- A node that ForwardToPrimary chooses is the primary where it has the same ring and factor.
  pub forward_to_primary-is_primary :
      (d : Cluster) (node : Node)
      → d.ring ≡ c.ring
      → d.replication_factor ≡ c.replication_factor
      → d.self ≡ node
      → forward_to_primary hash c metric ≡ ok node
      → (is_primary_for hash d metric ≡ true) × (is_local hash d metric ≡ true)
  unfolding forward_to_primary get_route route_of
  forward_to_primary-is_primary d node same_ring same_factor itself e =
      rw (same_ring, same_factor, itself) (chosen (get_n hash c.ring metric c.replication_factor) e)
    where
      chosen :
          (nodes : List Node)
          → (if is_text (first_or_zero nodes).id
              then (if bytes_eq (first_or_zero nodes).id c.self.id
                  then err (codes "self is primary, should not forward")
                  else ok (first_or_zero nodes))
              else err (codes "no primary found for metric: " ++ metric))
            ≡ ok node
          → (is_first node.id nodes ≡ true) × (is_among node.id nodes ≡ true)
      chosen [] h = absurd (cc)
      chosen (n ∷ nodes) h = ground (arith, bytes_eq_refl n.id)
