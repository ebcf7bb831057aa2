-- ===== src/Cluster/Route/Failover.antt =====
-- The nodes that ForwardWithFailover asks.
use flamedb.Base.{
  All, ◌≢◌, ◌≡◌, refl, true, false, List, [], ◌∷◌, Bool-cases, inl, inr, ◌⊎◌, ℕ, ap, ◌++◌,
}
use flamedb.Base.Bytes.{bytes_eq-apart, bytes_eq_sound, Bytes, bytes_eq, codes}
use flamedb.Cluster.Ring.{Node, get_n}
use flamedb.Cluster.Route.{
  is_change, Cluster, get_route, forward_with_failover, try_nodes, others, route_of,
}
use flamedb.Query.Types.{Result, ok, err}

-- The first node of the list that answers, and those before it that failed.
pub data FirstAnswer (send : Node → Result Bytes) : List Node → List Node → Bytes → Type 0 where
  now :
      {nodes : List Node} {a : Bytes} (n : Node)
      → send n ≡ ok a
      → FirstAnswer send (n ∷ nodes) (n ∷ []) a
  later :
      {nodes asked : List Node} {a e : Bytes} (n : Node)
      → send n ≡ err e
      → FirstAnswer send nodes asked a
      → FirstAnswer send (n ∷ nodes) (n ∷ asked) a

Result-cases : (r : Result Bytes) → ((a : Bytes) × (r ≡ ok a)) ⊎ ((e : Bytes) × (r ≡ err e))
Result-cases (ok a) = inl (a, refl)
Result-cases (err e) = inr (e, refl)

module _ (send : Node → Result Bytes) where
  -- Of the nodes either one answered, and it was the first to do so, or all of them failed.
  abbrev pub Outcome : List Node → Result Bytes × List Node → Type 0
  Outcome nodes (ok a, asked) = FirstAnswer send nodes asked a
  Outcome nodes (err e, asked) =
      (asked ≡ nodes) × All (λ n. (message : Bytes) × (send n ≡ err message)) nodes

  Outcome-cons :
      (n : Node) (e : Bytes) (nodes : List Node) (p : Result Bytes × List Node)
      → send n ≡ err e
      → Outcome nodes p
      → Outcome (n ∷ nodes) (p.0, n ∷ p.1)
  Outcome-cons n e nodes (ok a, asked) failed h = later n failed h
  Outcome-cons n e nodes (err f, asked) failed (same, all) =
      (ap (λ l. n ∷ l) same, ((e, failed), all))

  try_nodes_read :
      (self last : Bytes) (nodes : List Node)
      → Outcome (others self nodes) (try_nodes send self false last nodes)
  unfolding try_nodes others
  try_nodes_read self last [] = (refl, tt)
  try_nodes_read self last (n ∷ nodes) = elim (Bool-cases (bytes_eq n.id self)) [
    | inl own ↦ rw own (try_nodes_read self last nodes)
    | inr other ↦ elim (Result-cases (send n)) [
      | inl (a, answered) ↦ rw (other, answered) (now n answered)
      | inr (e, failed) ↦
          rw (other, failed)
            (Outcome-cons n e (others self nodes) (try_nodes send self false e nodes) failed
              (try_nodes_read self e nodes))
    ]
  ]

  -- A mutation is sent to the first of the nodes alone.
  abbrev pub only_first : List Node → Bytes → Result Bytes × List Node
  only_first [] last = (err (codes "all nodes failed: " ++ last), [])
  only_first (n ∷ nodes) last = (send n, n ∷ [])

  try_nodes_mutation :
      (self last : Bytes) (nodes : List Node)
      → try_nodes send self true last nodes ≡ only_first (others self nodes) last
  unfolding try_nodes others
  try_nodes_mutation self last [] = refl
  try_nodes_mutation self last (n ∷ nodes) = elim (Bool-cases (bytes_eq n.id self)) [
    | inl own ↦ rw own (try_nodes_mutation self last nodes)
    | inr other ↦ elim (Result-cases (send n)) [
      | inl (a, answered) ↦ rw (other, answered) refl
      | inr (e, failed) ↦ rw (other, failed) refl
    ]
  ]

-- What ForwardWithFailover does with the other nodes of the route.
abbrev pub Forwarded : (Node → Result Bytes) → Bytes → List Node → Result Bytes × List Node → Type 0
Forwarded send command nodes p =
    ((command ≢ codes "WRITE")
      × (command ≢ codes "SET")
      × (command ≢ codes "DELETE")
      × Outcome send nodes p)
    ⊎ (((command ≡ codes "WRITE") ⊎ (command ≡ codes "SET") ⊎ (command ≡ codes "DELETE"))
        × (p ≡ only_first send nodes (codes "<nil>")))

abbrev Word : Bytes → Type 0
Word command =
    ((command ≢ codes "WRITE")
      × (command ≢ codes "SET")
      × (command ≢ codes "DELETE")
      × (is_change command ≡ false))
    ⊎ (((command ≡ codes "WRITE") ⊎ (command ≡ codes "SET") ⊎ (command ≡ codes "DELETE"))
        × (is_change command ≡ true))

is_change_lem : (command : Bytes) → Word command
is_change_lem command = elim (Bool-cases (bytes_eq command (codes "WRITE"))) [
  | inl write ↦ inr (inl (bytes_eq_sound _ _ write), rw write refl)
  | inr no_write ↦ elim (Bool-cases (bytes_eq command (codes "SET"))) [
    | inl set ↦ inr (inr (inl (bytes_eq_sound _ _ set)), rw (no_write, set) refl)
    | inr no_set ↦ elim (Bool-cases (bytes_eq command (codes "DELETE"))) [
      | inl delete ↦ inr (inr (inr (bytes_eq_sound _ _ delete)), rw (no_write, no_set, delete) refl)
      | inr no_delete ↦ inl (
        bytes_eq-apart _ _ no_write,
        bytes_eq-apart _ _ no_set,
        bytes_eq-apart _ _ no_delete,
        rw (no_write, no_set, no_delete) refl,
      )
    ]
  ]
]

-- ForwardWithFailover asks the other nodes of the route in their order. If the command's first
-- word, in upper case, is not WRITE, SET or DELETE, it asks up to the first node that answers,
-- whose answer it returns, and with an error it has asked all of them and all have failed. A WRITE,
-- SET or DELETE goes to the first of them alone, whatever it answers.
pub forward_with_failover_lem :
    (send : Node → Bytes → Result Bytes) (to_upper first_word : Bytes → Bytes) (hash : Bytes → ℕ)
    (c : Cluster) (metric query : Bytes)
    → Forwarded
        (λ n. send n (query ++ codes " __local"))
        (to_upper (first_word query))
        (get_route hash c metric).replicas
        (forward_with_failover hash send to_upper first_word c metric query)
unfolding forward_with_failover get_route route_of
forward_with_failover_lem send to_upper first_word hash c metric query =
    let ask = λ (n : Node). send n (query ++ codes " __local") in
    let nodes = get_n hash c.ring metric c.replication_factor in
    elim (is_change_lem (to_upper (first_word query))) [
      | inl (w, s, d, read) ↦
          inl (w, s, d, rw read (try_nodes_read ask c.self.id (codes "<nil>") nodes))
      | inr (word, change) ↦
          inr (word, rw change (try_nodes_mutation ask c.self.id (codes "<nil>") nodes))
    ]
