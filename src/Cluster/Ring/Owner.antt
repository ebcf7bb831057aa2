-- ===== src/Cluster/Ring/Owner.antt =====
-- Which node owns a metric: the one at the first hash from the metric's hash on, around the ring.
-- Removing another node moves no metric.
use flamedb.Base.{
  ℕ, suc, ◌≤◌, ◌<◌, ◌≡◌, ◌≢◌, refl, ◌⊎◌, inl, inr, some, List, [], ◌∷◌, arith, if◌then◌else◌, leb,
  Bool-cases, In, sym, ap, ◌∙◌, length, get_elem?, All, lt→leb, le→leb, some_inj, ==_ne,
  nonempty_or, In-length, ◌==◌,
}
use flamedb.Base.Bytes.{Bytes}
use flamedb.Base.NatMap.{get}
use flamedb.Base.Sort.{IsSorted}
use flamedb.Cluster.Ring.{
  Node, Ring, node_or_zero, search_from, start, get_node, labels, remove, node_of,
}
use flamedb.Cluster.Ring.Invariant.{IsValid, remove-IsValid, get-remove, remove-sub}

-- `k` is the first of the hashes `ks` at or after `h`, or, if there is none, the least of them.
pub record Owns (h : ℕ) (ks : List ℕ) (k : ℕ) : Type 0 where
  pub member : In k ks
  pub first :
      ((h ≤ k) × ((j : ℕ) → In j ks → h ≤ j → k ≤ j))
      ⊎ (((j : ℕ) → In j ks → j < h) × ((j : ℕ) → In j ks → k ≤ j))

pub Owns-unique : {h k l : ℕ} {ks : List ℕ} → Owns h ks k → Owns h ks l → k ≡ l
Owns-unique {h} {k} {l} {ks} a b = go a.first b.first
  where
    go :
        ((h ≤ k) × ((j : ℕ) → In j ks → h ≤ j → k ≤ j))
          ⊎ (((j : ℕ) → In j ks → j < h) × ((j : ℕ) → In j ks → k ≤ j))
        → ((h ≤ l) × ((j : ℕ) → In j ks → h ≤ j → l ≤ j))
          ⊎ (((j : ℕ) → In j ks → j < h) × ((j : ℕ) → In j ks → l ≤ j))
        → k ≡ l
    go (inl (hk, kmin)) (inl (hl, lmin)) = omega (arith, kmin l b.member hl, lmin k a.member hk)
    go (inl (hk, kmin)) (inr (below, lmin)) = absurd (omega (arith, below k a.member))
    go (inr (below, kmin)) (inl (hl, lmin)) = absurd (omega (arith, below l b.member))
    go (inr (_, kmin)) (inr (_, lmin)) = omega (arith, kmin l b.member, lmin k a.member)

-- A smaller ring that still has the owner has the same owner.
pub Owns-shrink :
    {h k : ℕ} {ks ls : List ℕ} → Owns h ks k → In k ls → ((j : ℕ) → In j ls → In j ks) → Owns h ls k
Owns-shrink o m sub = record {
  member = m;
  first = elim o.first [
    | inl (hk, least) ↦ inl (hk, λ j i. least j (sub j i))
    | inr (below, least) ↦ inr (λ j i. below j (sub j i), λ j i. least j (sub j i))
  ];
}

All-In : (b : ℕ) (ks : List ℕ) → All (λ y. b ≤ y) ks → (j : ℕ) → In j ks → b ≤ j
All-In b [] a j i = elim i [ ]
All-In b (k ∷ ks) a j (inl e) = omega arith
All-In b (k ∷ ks) a j (inr i) = All-In b ks a.1 j i

-- The binary search, on sorted hashes.
search_lem :
    (ks : List ℕ) (h : ℕ)
    → IsSorted ks
    → ((k : ℕ) × (get_elem? ks (search_from ks h) ≡ some k)
        × (search_from ks h < length ks)
        × In k ks
        × (h ≤ k)
        × ((j : ℕ) → In j ks → h ≤ j → k ≤ j))
      ⊎ ((search_from ks h ≡ length ks) × ((j : ℕ) → In j ks → j < h))
unfolding search_from
search_lem [] h s = inr (refl, λ j i. elim i [ ])
search_lem (k ∷ ks) h s = elim (Bool-cases (leb h k)) [
  | inl le ↦ rw le (
      inl (
        k,
        refl,
        omega arith,
        inl refl,
        ground arith,
        λ j i _. elim i [ inl e ↦ omega arith | inr m ↦ All-In k ks s.0 j m ],
      ))
  | inr gt ↦ rw gt (elim (search_lem ks h s.1) [
    | inl (l, e, b, m, hl, least) ↦ inl (
      l,
      e,
      omega arith,
      inr m,
      hl,
      λ j i hj. elim i [ inl same ↦ absurd (ground arith) | inr n ↦ least j n hj ],
    )
    | inr (e, below) ↦ inr (ap suc e, λ j i. elim i [ inl same ↦ ground arith | inr n ↦ below j n ])
  ])
]

module _ (hash : Bytes → ℕ) where
  -- Get starts at the owner.
  pub start-Owns :
      (r : Ring) (metric : Bytes) (h : ℕ)
      → IsSorted r.hashes
      → In h r.hashes
      → (k : ℕ) × (get_elem? r.hashes (start hash r metric) ≡ some k)
        × (start hash r metric < length r.hashes)
        × Owns (hash metric) r.hashes k
  unfolding start
  start-Owns r metric h s m = go r.hashes s m
    where
      go :
          (ks : List ℕ)
          → IsSorted ks
          → In h ks
          → (k : ℕ) × (get_elem? ks (
                if leb (length ks) (search_from ks (hash metric))
                then 0
                else search_from ks (hash metric))
              ≡ some k)
            × ((if leb (length ks) (search_from ks (hash metric))
                  then 0
                  else search_from ks (hash metric))
                < length ks)
            × Owns (hash metric) ks k
      go [] s m = elim m [ ]
      go (k ∷ ks) s m = elim (search_lem (k ∷ ks) (hash metric) s) [
        | inl (l, e, b, i, hl, least) ↦
            rw (lt→leb (length (k ∷ ks)) (search_from (k ∷ ks) (hash metric)) b)
              (l, e, b, record { member = i; first = inl (hl, least) })
        | inr (e, below) ↦
            rw (e, le→leb (length (k ∷ ks)) (length (k ∷ ks)) (omega arith))
              (
                k,
                refl,
                omega arith,
                record {
                  member = inl refl;
                  first = inr (
                    below,
                    λ j i. elim i [ inl same ↦ omega arith | inr n ↦ All-In k ks s.0 j n ],
                  );
                },
              )
      ]

  -- Get returns the node at the first of the sorted hashes from the metric's hash on, or, past the
  -- last, at the least of them.
  pub get_node-Owns :
      (r : Ring) (metric : Bytes) (k : ℕ)
      → IsSorted r.hashes
      → Owns (hash metric) r.hashes k
      → get_node hash r metric ≡ some (node_or_zero (get r.nodes k))
  unfolding get_node
  get_node-Owns r metric k s o =
      let (l, e, b, o') = start-Owns r metric k s o.member in
      rw (==_ne (length r.hashes) 0 (In-length k r.hashes o.member))
        (ap (λ x. some (node_of r x)) e ∙ ap (λ x. some (node_of r (some x))) (Owns-unique o' o))

  some_hash :
      (r : Ring) (metric : Bytes) {node : Node}
      → get_node hash r metric ≡ some node
      → (h : ℕ) × In h r.hashes
  unfolding get_node
  some_hash r metric e = elim (nonempty_or r.hashes) [
    | inl found ↦ found
    | inr empty ↦ absurd (cc (rw (ap (λ (l : List ℕ). length l == 0) empty) at e))
  ]

  -- Removing a node leaves every metric that belongs to another node where it is, in a well-formed
  -- ring that has no other node at the hash of one of the removed node's labels.
  pub get_node-remove :
      (r : Ring) (id metric : Bytes) (node : Node)
      → IsValid hash r
      → ((h : ℕ) (n : Node)
          → get r.nodes h ≡ some n
          → In h (labels hash r.replicas 0 id)
          → n.id ≡ id)
      → get_node hash r metric ≡ some node
      → node.id ≢ id
      → get_node hash (remove hash r id) metric ≡ some node
  get_node-remove r id metric node v apart e other =
      let (h, m) = some_hash r metric e in
      let (k, _, _, o) = start-Owns r metric h v.sorted m in
      let (owner, at_k) = v.placed k o.member in
      let same : owner ≡ node = some_inj (
        sym (ap (λ x. some (node_or_zero x)) at_k)
        ∙ sym (get_node-Owns r metric k v.sorted o)
        ∙ e) in
      let kept : get (remove hash r id).nodes k ≡ some owner =
        get-remove hash r id k owner at_k
          (λ m. other (sym (ap (λ (n : Node). n.id) same) ∙ apart k owner at_k m)) in
      let v' = remove-IsValid hash r id v in
      get_node-Owns (remove hash r id) metric k v'.sorted
        (Owns-shrink o (v'.listed k owner kept) (remove-sub hash r id v))
      ∙ ap (λ x. some (node_or_zero x)) kept
      ∙ ap some same
