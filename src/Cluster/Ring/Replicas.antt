-- ===== src/Cluster/Ring/Replicas.antt =====
-- GetN: the nodes that hold a metric, the owner first.
use native.Mathlib.Nat.{mod-eq_of_lt}
use flamedb.Base.{
  ℕ, zero, suc, ◌+◌, ◌-◌, ◌%◌, ◌≤◌, ◌<◌, ◌≡◌, ◌≢◌, refl, ◌⊎◌, inl, inr, true, ◌||◌, some, List, [],
  ◌∷◌, ◌++◌, arith, leb, Bool-cases, length, ◌==◌, subst, ap, some_inj, lt→leb, ◌∙◌,
}
use flamedb.Base.Bytes.{Bytes}
use flamedb.Cluster.Ring.{Node, Ring, node_at, seen, walk, start, get_node, get_n}
use flamedb.Cluster.Ring.Taken.{
  DistinctIds, taken, taken-DistinctIds, seen-taken_self, seen-taken, length-taken,
}

module _ (r : Ring) (n idx : ℕ) where
  abbrev at_round : ℕ → Node
  at_round i = node_at r ((idx + i) % length r.hashes)

  walk-DistinctIds :
      (left i : ℕ) (found : List Node) → DistinctIds found → DistinctIds (walk r n idx left i found)
  unfolding walk
  walk-DistinctIds zero i found d = d
  walk-DistinctIds (suc left) i found d =
      elim (Bool-cases (leb n (length (taken found (at_round i))))) [
        | inl full ↦ rw full (taken-DistinctIds found (at_round i) d)
        | inr room ↦ rw room (
            walk-DistinctIds left (suc i) (taken found (at_round i))
              (taken-DistinctIds found (at_round i) d))
      ]

  length-walk :
      (left i : ℕ) (found : List Node) → length found < n → length (walk r n idx left i found) ≤ n
  unfolding walk
  length-walk zero i found h = omega arith
  length-walk (suc left) i found h = elim (Bool-cases (leb n (length (taken found (at_round i))))) [
    | inl full ↦ rw full (omega (arith, length-taken found (at_round i)))
    | inr room ↦ rw room (length-walk left (suc i) (taken found (at_round i)) (ground arith))
  ]

  seen-walk :
      (left i : ℕ) (found : List Node) (id : Bytes)
      → seen found id ≡ true
      → seen (walk r n idx left i found) id ≡ true
  unfolding walk
  seen-walk zero i found id h = h
  seen-walk (suc left) i found id h =
      elim (Bool-cases (leb n (length (taken found (at_round i))))) [
        | inl full ↦ rw full (seen-taken found (at_round i) id h)
        | inr room ↦ rw room (
            seen-walk left (suc i) (taken found (at_round i)) id
              (seen-taken found (at_round i) id h))
      ]

  -- The walk stops early only with enough nodes; otherwise it has been everywhere.
  walk_complete :
      (left i : ℕ) (found : List Node)
      → (n ≤ length (walk r n idx left i found))
        ⊎ ((j : ℕ) → i ≤ j → j < i + left → seen (walk r n idx left i found) (at_round j).id ≡ true)
  unfolding walk
  walk_complete zero i found = inr (λ j lo hi. absurd (omega arith))
  walk_complete (suc left) i found = elim (Bool-cases (leb n (length (taken found (at_round i))))) [
    | inl full ↦ rw full (inl (ground arith))
    | inr room ↦ rw room (elim (walk_complete left (suc i) (taken found (at_round i))) [
      | inl enough ↦ inl enough
      | inr all ↦ inr (λ j lo hi. elim (Bool-cases (i == j)) [
        | inl here ↦
            subst
              (λ k.
                seen (walk r n idx left (suc i) (taken found (at_round i))) (at_round k).id ≡ true)
              (ground arith)
              (seen-walk left (suc i) (taken found (at_round i)) (at_round i).id
                (seen-taken_self found (at_round i)))
        | inr later ↦ all j (ground arith) (omega arith)
      ])
    ])
  ]

-- The walk only adds behind what it has found.
walk_keeps :
    (r : Ring) (n idx left i : ℕ) (node : Node) (found : List Node)
    → (rest : List Node) × (walk r n idx left i (node ∷ found) ≡ node ∷ rest)
unfolding walk
walk_keeps r n idx zero i node found = (found, refl)
walk_keeps r n idx (suc left) i node found =
    let (more, shape) = taken_keeps in
    elim (Bool-cases (leb n (length (taken (node ∷ found) (at_round r n idx i))))) [
      | inl full ↦ (more, rw full shape)
      | inr room ↦
          let (rest, e) = walk_keeps r n idx left (suc i) node more in
          (rest, rw room (ap (walk r n idx left (suc i)) shape ∙ e))
    ]
  where
    taken_keeps : (more : List Node) × (taken (node ∷ found) (at_round r n idx i) ≡ node ∷ more)
    taken_keeps = elim (Bool-cases (seen (node ∷ found) (at_round r n idx i).id)) [
      | inl old ↦ (found, rw old refl)
      | inr new ↦ (found ++ at_round r n idx i ∷ [], rw new refl)
    ]

-- Every position of the ring is met in some round.
round_of : (len idx p : ℕ) → idx < len → p < len → (j : ℕ) × (j < len) × ((idx + j) % len ≡ p)
round_of len idx p hi hp = elim (Bool-cases (leb idx p)) [
  | inl later ↦ (p - idx, ground arith, rw (sum_later (ground arith)) (mod-eq_of_lt hp))
  | inr wrapped ↦
      (p + len - idx, ground arith, rw (sum_wrapped (ground arith)) (wrap_once (ground arith)))
]
  where
    wrap_once : p < idx → (p + len) % len ≡ p
    wrap_once h = grind arith

    sum_later : idx ≤ p → idx + (p - idx) ≡ p
    sum_later h = omega arith

    sum_wrapped : p < idx → idx + (p + len - idx) ≡ p + len
    sum_wrapped h = omega arith

module _ (hash : Bytes → ℕ) (r : Ring) (metric : Bytes) where
  start-lt : length r.hashes ≢ 0 → start hash r metric < length r.hashes
  unfolding start
  start-lt full = ground arith

  -- GetN returns at most n nodes, no two with one identifier, and fewer than n only if they are all
  -- the nodes of the ring.
  pub get_n_lem :
      (n : ℕ)
      → DistinctIds (get_n hash r metric n)
        × (length (get_n hash r metric n) ≤ n)
        × ((n ≤ length (get_n hash r metric n))
            ⊎ ((p : ℕ)
                → p < length r.hashes
                → seen (get_n hash r metric n) (node_at r p).id ≡ true))
  unfolding get_n
  get_n_lem n = elim (Bool-cases (length r.hashes == 0 || leb n 0)) [
    | inl nothing ↦ rw nothing (
      tt,
      omega arith,
      elim (Bool-cases (leb n 0)) [
        | inl none_wanted ↦ inl (ground arith)
        | inr some_wanted ↦ inr (λ p h. absurd (ground arith))
      ],
    )
    | inr something ↦ rw something (walked (ground arith) (ground arith))
  ]
    where
      idx : ℕ
      idx = start hash r metric

      walked :
          length r.hashes ≢ 0
          → 0 < n
          → DistinctIds (walk r n idx (length r.hashes) 0 [])
            × (length (walk r n idx (length r.hashes) 0 []) ≤ n)
            × ((n ≤ length (walk r n idx (length r.hashes) 0 []))
                ⊎ ((p : ℕ)
                    → p < length r.hashes
                    → seen (walk r n idx (length r.hashes) 0 []) (node_at r p).id ≡ true))
      walked full wanted = (
        walk-DistinctIds r n idx (length r.hashes) 0 [] tt,
        length-walk r n idx (length r.hashes) 0 [] wanted,
        elim (walk_complete r n idx (length r.hashes) 0 []) [
          | inl enough ↦ inl enough
          | inr all ↦ inr λ p h.
              let (j, below, e) = round_of (length r.hashes) idx p (start-lt full) h in
              subst (λ q. seen (walk r n idx (length r.hashes) 0 []) (node_at r q).id ≡ true) e
                (all j (omega arith) (omega arith))
        ],
      )

  -- The first of GetN's nodes is the one that Get returns.
  pub get_n-get_node :
      (n : ℕ) (node : Node)
      → 0 < n
      → get_node hash r metric ≡ some node
      → (rest : List Node) × (get_n hash r metric n ≡ node ∷ rest)
  unfolding get_n get_node
  get_n-get_node n node wanted e = elim (Bool-cases (length r.hashes == 0)) [
    | inl empty ↦ absurd (cc (rw empty at e))
    | inr full ↦
        let owner : node_at r (start hash r metric) ≡ node = some_inj (rw full at e) in
        let (rest, w) = first_round (length r.hashes) (start hash r metric) (ground arith) refl in
        (rest, rw (full, lt→leb n 0 wanted) (w ∙ ap (λ x. x ∷ rest) owner))
  ]
    where
      first_round :
          (left idx : ℕ)
          → idx < left
          → length r.hashes ≡ left
          → (rest : List Node) × (walk r n idx left 0 [] ≡ node_at r idx ∷ rest)
      first_round zero idx h l = absurd (omega arith)
      first_round (suc left) idx h l =
          let here : (idx + 0) % length r.hashes ≡ idx = grind arith in
          let (rest, w) = walk_keeps r n idx left 1 (at_round r n idx 0) [] in
          elim (Bool-cases (leb n 1)) [
            | inl full ↦ ([], rw full (ap (λ p. node_at r p ∷ []) here))
            | inr room ↦ (rest, rw room (w ∙ ap (λ p. node_at r p ∷ rest) here))
          ]
