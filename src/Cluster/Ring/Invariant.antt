-- ===== src/Cluster/Ring/Invariant.antt =====
-- What Add and Remove keep: the sorted hashes are the keys of the node map, and each of them is a
-- label of its node.
use flamedb.Base.{
  ℕ, zero, suc, ◌+◌, ◌≤◌, ◌<◌, ◌≡◌, ◌≢◌, refl, ◌⊎◌, inl, inr, some, List, [], ◌∷◌, ◌++◌, arith,
  ◌==◌, Bool-cases, In, In-append, append-In, subst, sym, ◌∙◌, ap,
}
use flamedb.Base.Bytes.{Bytes}
use flamedb.Base.NatMap.{NatMap, get, set, delete, keys, get-set, get-delete, In-keys, keys-In}
use flamedb.Base.Sort.{IsSorted, sort-IsSorted, sort-In, In-sort}
use flamedb.Cluster.Ring.{Node, Ring, new_ring, label, has_id, place, labels, add, displace, remove}

module _ (hash : Bytes → ℕ) where
  pub record IsValid (r : Ring) : Type 0 where
    pub sorted : IsSorted r.hashes
    pub placed : (h : ℕ) → In h r.hashes → (node : Node) × (get r.nodes h ≡ some node)
    pub listed : (h : ℕ) (node : Node) → get r.nodes h ≡ some node → In h r.hashes
    pub named :
        (h : ℕ) (node : Node)
        → get r.nodes h ≡ some node
        → (i : ℕ) × (i < r.replicas) × (h ≡ hash (label node.id i))

  pub new_ring-IsValid : (replicas : ℕ) → IsValid (new_ring replicas)
  unfolding get
  new_ring-IsValid replicas = record {
    sorted = tt;
    placed = λ h i. elim i [ ];
    listed = λ h node e. cc;
    named = λ h node e. absurd (cc);
  }

  -- A label of the identifier among those of the rounds still to come.
  In-labels :
      (left i : ℕ) (id : Bytes) (h : ℕ)
      → In h (labels hash left i id)
      → (j : ℕ) × (j < i + left) × (h ≡ hash (label id j))
  unfolding labels
  In-labels zero i id h m = elim m [ ]
  In-labels (suc left) i id h (inl e) = (i, omega arith, e)
  In-labels (suc left) i id h (inr m) =
      let (j, below, e) = In-labels left (suc i) id h m in (j, omega arith, e)

  labels-In :
      (left i j : ℕ) (id : Bytes)
      → i ≤ j
      → j < i + left
      → In (hash (label id j)) (labels hash left i id)
  unfolding labels
  labels-In zero i j id lo hi = absurd (omega arith)
  labels-In (suc left) i j id lo hi = elim (Bool-cases (i == j)) [
    | inl same ↦ inl (ground arith)
    | inr other ↦ inr (labels-In left (suc i) j id (ground arith) (omega arith))
  ]

  place-In :
      (left i : ℕ) (node : Node) (nodes : NatMap Node) (h : ℕ)
      → (get nodes h ≡ some node) ⊎ In h (labels hash left i node.id)
      → get (place hash left i node nodes) h ≡ some node
  unfolding place labels
  place-In zero i node nodes h (inl e) = e
  place-In zero i node nodes h (inr m) = elim m [ ]
  place-In (suc left) i node nodes h m =
      place-In left (suc i) node (set nodes (hash (label node.id i)) node) h (now m)
    where
      now :
          (get nodes h ≡ some node) ⊎ In h (labels hash (suc left) i node.id)
          → (get (set nodes (hash (label node.id i)) node) h ≡ some node)
            ⊎ In h (labels hash left (suc i) node.id)
      now (inl e) = inl (ground (arith, get-set nodes (hash (label node.id i)) h node))
      now (inr (inl e)) = inl (ground (arith, get-set nodes (hash (label node.id i)) h node))
      now (inr (inr m)) = inr m

  place-get :
      (left i : ℕ) (node other : Node) (nodes : NatMap Node) (h : ℕ)
      → get (place hash left i node nodes) h ≡ some other
      → ((other ≡ node) × In h (labels hash left i node.id)) ⊎ (get nodes h ≡ some other)
  unfolding place labels
  place-get zero i node other nodes h e = inr e
  place-get (suc left) i node other nodes h e =
      elim (place-get left (suc i) node other (set nodes (hash (label node.id i)) node) h e) [
        | inl (same, m) ↦ inl (same, inr m)
        | inr old ↦ elim (Bool-cases (hash (label node.id i) == h)) [
          | inl here ↦
              inl
                (ground (arith, get-set nodes (hash (label node.id i)) h node), inl (ground arith))
          | inr away ↦ inr (ground (arith, get-set nodes (hash (label node.id i)) h node))
        ]
      ]

  place-some :
      (left i : ℕ) (node : Node) (nodes : NatMap Node) (h : ℕ)
      → (old : Node) × (get nodes h ≡ some old)
      → (found : Node) × (get (place hash left i node nodes) h ≡ some found)
  unfolding place
  place-some zero i node nodes h old = old
  place-some (suc left) i node nodes h (old, e) =
      place-some left (suc i) node (set nodes (hash (label node.id i)) node) h
        (elim (Bool-cases (hash (label node.id i) == h)) [
          | inl here ↦ (node, ground (arith, get-set nodes (hash (label node.id i)) h node))
          | inr away ↦ (old, ground (arith, get-set nodes (hash (label node.id i)) h node))
        ])

  -- Add keeps the ring well formed: its sorted hashes are the keys of its node map, each a label of
  -- its node.
  pub add-IsValid : (r : Ring) (node : Node) → IsValid r → IsValid (add hash r node)
  unfolding add
  add-IsValid r node v = elim (Bool-cases (has_id r.nodes node.id)) [
    | inl known ↦ rw known v
    | inr new ↦ rw new (record {
      sorted = sort-IsSorted (r.hashes ++ labels hash r.replicas 0 node.id);
      placed = λ h m.
          elim (In-append h r.hashes (labels hash r.replicas 0 node.id) (In-sort h _ m)) [
            | inl old ↦ place-some r.replicas 0 node r.nodes h (v.placed h old)
            | inr fresh ↦ (node, place-In r.replicas 0 node r.nodes h (inr fresh))
          ];
      listed = λ h other e. sort-In h _ (
          append-In h r.hashes _ (elim (place-get r.replicas 0 node other r.nodes h e) [
            | inl (same, m) ↦ inr m
            | inr old ↦ inl (v.listed h other old)
          ]));
      named = λ h other e. elim (place-get r.replicas 0 node other r.nodes h e) [
        | inl (same, m) ↦
            let (j, below, e') = In-labels r.replicas 0 node.id h m in
            (j, omega arith, e' ∙ ap (λ (n : Node). hash (label n.id j)) (sym same))
        | inr old ↦ v.named h other old
      ];
    })
  ]

  displace-get :
      (hs : List ℕ) (nodes : NatMap Node) (h : ℕ) (node : Node)
      → get (displace hs nodes) h ≡ some node
      → (get nodes h ≡ some node) × ¬ (In h hs)
  unfolding displace
  displace-get [] nodes h node e = (e, λ i. elim i [ ])
  displace-get (k ∷ hs) nodes h node e =
      let (old, away) = displace-get hs (delete nodes k) h node e in
      (
        ground (arith, get-delete nodes k h),
        λ i. elim i [ inl same ↦ ground (arith, get-delete nodes k h) | inr m ↦ away m ],
      )

  pub get-displace :
      (hs : List ℕ) (nodes : NatMap Node) (h : ℕ)
      → ¬ (In h hs)
      → get (displace hs nodes) h ≡ get nodes h
  unfolding displace
  get-displace [] nodes h away = refl
  get-displace (k ∷ hs) nodes h away =
      get-displace hs (delete nodes k) h (λ m. away (inr m))
      ∙ ground (arith, get-delete nodes k h, λ (e : h ≡ k). away (inl e))

  -- Remove keeps the ring well formed.
  pub remove-IsValid : (r : Ring) (id : Bytes) → IsValid r → IsValid (remove hash r id)
  unfolding remove
  remove-IsValid r id v =
      let hs = labels hash r.replicas 0 id in
      record {
        sorted = sort-IsSorted (keys (displace hs r.nodes));
        placed = λ h m. In-keys (displace hs r.nodes) h (In-sort h _ m);
        listed = λ h node e. sort-In h _ (keys-In (displace hs r.nodes) h node e);
        named = λ h node e. v.named h node (displace-get hs r.nodes h node e).0;
      }

  -- After Remove no node of a well-formed ring has the removed identifier.
  pub get-remove_ne :
      (r : Ring) (id : Bytes) (h : ℕ) (node : Node)
      → IsValid r
      → get (remove hash r id).nodes h ≡ some node
      → node.id ≢ id
  unfolding remove
  get-remove_ne r id h node v e same =
      let (old, away) = displace-get (labels hash r.replicas 0 id) r.nodes h node e in
      let (i, below, is_label) = v.named h node old in
      away (
        subst (λ x. In x (labels hash r.replicas 0 id))
          (ap (λ a. hash (label a i)) (sym same) ∙ sym is_label)
          (labels-In r.replicas 0 i id (omega arith) (omega arith)))

  -- What Remove leaves is what was there, at every hash that is no label of the identifier.
  pub get-remove :
      (r : Ring) (id : Bytes) (h : ℕ) (node : Node)
      → get r.nodes h ≡ some node
      → ¬ In h (labels hash r.replicas 0 id)
      → get (remove hash r id).nodes h ≡ some node
  unfolding remove
  get-remove r id h node e away = get-displace (labels hash r.replicas 0 id) r.nodes h away ∙ e

  pub remove-sub :
      (r : Ring) (id : Bytes) → IsValid r → (h : ℕ) → In h (remove hash r id).hashes → In h r.hashes
  unfolding remove
  remove-sub r id v h m =
      let hs = labels hash r.replicas 0 id in
      let (node, e) = In-keys (displace hs r.nodes) h (In-sort h _ m) in
      v.listed h node (displace-get hs r.nodes h node e).0
