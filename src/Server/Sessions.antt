-- ===== src/Server/Sessions.antt =====
-- What a session may do with a server: both the action on a line and the change of the server's state
-- are within its permissions.
use flamedb.Auth.{Session, can, perm_internal, perm_read}
use flamedb.Base.{
  ℕ, ◌≡◌, refl, ap, ◌∙◌, ◌⊎◌, inl, inr, Bool, true, false, not, ◌&&◌, Option, none, some, List, [],
  ◌∷◌, if◌then◌else◌, arith, length, ltb, Bool-cases, drop,
}
use flamedb.Base.Bytes.{Bytes, codes, bytes_eq, has_prefix}
use flamedb.Cluster.Ring.{Node}
use flamedb.Cluster.Route.{
  Cluster, next_counter, next_read, get_route, get_read_node, add_node, is_text,
  read_policy_primary, read_policy_local, is_primary_for, is_local,
}
use flamedb.Query.Parse.{parse}
use flamedb.Query.Types.{Query, QueryType, Result, ok, err, Std}
use flamedb.Server.{is_mutation, is_spread, is_get, is_metrics, suffix_of}
use flamedb.Server.Admin.{on_message, set_config}
use flamedb.Server.Dispatch.{
  answer, on_query, on_one, on_many, on_read, gather, one_more, denial, on_cluster, on_command,
  unless_denied, batch_header, line_limit, operation_for,
}
use flamedb.Server.Permissions.{may_run, denial-may_run, is_permitted, answer-is_permitted}
use flamedb.Server.Types.{Server, DiscoveryMessage, Action, config_set, joined, Fetch}

-- The counter of reads is another.
abbrev pub counted : Server → ℕ → Server
counted s n = record s { cluster = record s.cluster { read_counter = n } }

-- The server after a line: it is the same, or a read has moved the counter of reads, or a session with
-- the internal permission has set the configuration or joined a node, and this is the answer.
abbrev pub IsKept : {R : Type 0} → (Bytes → ℕ) → Session → Server → Server × Action R → Type 0
IsKept hash session s (s', a) =
    (s' ≡ s)
    ⊎ ((can session perm_read ≡ true) × ((n : ℕ) × (s' ≡ counted s n)))
    ⊎ ((can session perm_internal ≡ true)
        × (((msg : DiscoveryMessage) × (s' ≡ set_config s msg) × (a ≡ config_set msg.propagate))
            ⊎ ((new : Bool) × (node : Node) × (s'
                  ≡ record s { cluster = add_node hash s.cluster node })
                × (a ≡ joined new node))))

may_run-read :
    (session : Session) (q : Query)
    → may_run session q ≡ true
    → is_spread q.type ≡ true
    → can session perm_read ≡ true
may_run-read session q h spread = ground arith

get-spread : (t : QueryType) → is_get t ≡ true → is_spread t ≡ true
get-spread t h = ground arith

module _ (hash : Bytes → ℕ) where
  get_read_node-counted :
      (c : Cluster) (metric : Bytes)
      → (n : ℕ) × ((get_read_node hash c metric).0 ≡ record c { read_counter = n })
  unfolding get_read_node
  get_read_node-counted c metric = elim (Bool-cases (bytes_eq c.read_policy read_policy_primary)) [
    | inl primary ↦ (c.read_counter, rw primary refl)
    | inr other ↦ elim (Bool-cases (bytes_eq c.read_policy read_policy_local)) [
      | inl local ↦ (c.read_counter, rw (other, local) refl)
      | inr rr ↦ rw (other, rr) (by_nodes (get_route hash c metric).nodes)
    ]
  ]
    where
      by_nodes :
          (nodes : List Node) → (n : ℕ) × ((next_read c nodes).0 ≡ record c { read_counter = n })
      by_nodes [] = (c.read_counter, refl)
      by_nodes (m ∷ more) = (next_counter c, refl)

  module _ (std : Std) (read_message : Bytes → Option DiscoveryMessage) {R : Type 0}
      (fetch : Fetch R) where
    one_more-counted :
        (c c' : Cluster) (later : Cluster × Result (List (Bytes × R))) (m : Bytes) (r : Result R)
        → (n : ℕ) × (c' ≡ record c { read_counter = n })
        → (n : ℕ) × (later.0 ≡ record c' { read_counter = n })
        → (n : ℕ) × ((one_more std hash read_message fetch c' later m r).0
            ≡ record c { read_counter = n })
    one_more-counted c c' later m (err e) first more = first
    one_more-counted c c' later m (ok r) (n, e) (k, f) =
        (k, f ∙ ap (λ (x : Cluster). record x { read_counter = k }) e)

    gather-counted :
        (c : Cluster) (q : Query) (suffix : Bytes) (metrics : List Bytes)
        → (n : ℕ) × ((gather std hash read_message fetch c q suffix metrics).0
            ≡ record c { read_counter = n })
    unfolding gather
    gather-counted c q suffix [] = (c.read_counter, refl)
    gather-counted c q suffix (m ∷ rest) =
        let c' = (get_read_node hash c m).0 in
        one_more-counted c c' (gather std hash read_message fetch c' q suffix rest) m _
          (get_read_node-counted c m) (gather-counted c' q suffix rest)

    module _ (session : Session) (s : Server) where
      either-IsKept :
          (b : Bool) (x y : Server × Action R)
          → IsKept hash session s x
          → IsKept hash session s y
          → IsKept hash session s (if b then x else y)
      either-IsKept true x y h k = h
      either-IsKept false x y h k = k

      if_IsKept :
          (b : Bool) (x y : Server × Action R)
          → (b ≡ true → IsKept hash session s x)
          → (b ≡ false → IsKept hash session s y)
          → IsKept hash session s (if b then x else y)
      if_IsKept true x y h k = h refl
      if_IsKept false x y h k = k refl

      on_many-IsKept :
          (q : Query) (suffix : Option Bytes)
          → can session perm_read ≡ true
          → IsKept hash session s (on_many std hash read_message fetch s q suffix)
      on_many-IsKept q none h = inl refl
      on_many-IsKept q (some suffix) h =
          let (n, e) = gather-counted s.cluster q suffix q.metrics in
          inr (inl (h, (n, ap (λ (c : Cluster). record s { cluster = c }) e)))

      on_read-IsKept :
          (q : Query) (line operation : Bytes)
          → can session perm_read ≡ true
          → IsKept hash session s (on_read std hash read_message fetch s q line operation)
      on_read-IsKept q line operation h =
          let (n, e) = get_read_node-counted s.cluster q.metric in
          inr (inl (h, (n, ap (λ (c : Cluster). record s { cluster = c }) e)))

      on_one-IsKept :
          (q : Query) (line fresh : Bytes)
          → may_run session q ≡ true
          → IsKept hash session s (on_one std hash read_message fetch s q line fresh)
      unfolding on_one
      on_one-IsKept q line fresh h =
          either-IsKept
            (is_mutation q.type && not q.is_replica && not (is_primary_for hash s.cluster q.metric))
            _ _ (inl refl)
            (either-IsKept (not q.force_local && not (is_local hash s.cluster q.metric)) _ _
              (inl refl)
              (elim (Bool-cases (is_spread q.type)) [
                | inl spread ↦ rw spread (
                    on_read-IsKept q line (operation_for q fresh) (may_run-read session q h spread))
                | inr single ↦ rw single (inl refl)
              ]))

      on_query-IsKept :
          (q : Query) (line fresh : Bytes)
          → may_run session q ≡ true
          → IsKept hash session s (on_query std hash read_message fetch s q line fresh)
      unfolding on_query
      on_query-IsKept q line fresh h = either-IsKept s.shared _ _ (inl refl) (
          either-IsKept (is_metrics q.type) _ _ (inl refl)
            (elim (Bool-cases (is_get q.type && ltb 1 (length q.metrics))) [
              | inl many ↦
                  let get : is_get q.type ≡ true = ground (arith, many) in
                  rw many (
                    on_many-IsKept q (suffix_of line)
                      (may_run-read session q h (get-spread q.type get)))
              | inr one ↦ rw one (on_one-IsKept q line fresh h)
            ]))

      on_command-IsKept :
          (line fresh : Bytes) (r : Result Query)
          → IsKept hash session s (on_command std hash read_message fetch s session line fresh r)
      on_command-IsKept line fresh (err e) = inl refl
      on_command-IsKept line fresh (ok q) = by_denial (denial session q) refl
        where
          by_denial :
              (denied : Option Bytes)
              → denial session q ≡ denied
              → IsKept hash session s
                  (unless_denied std hash read_message fetch s q line fresh denied)
          by_denial none e = on_query-IsKept q line fresh (denial-may_run session q e)
          by_denial (some e) h = inl refl

      on_message-IsKept :
          (msg : DiscoveryMessage)
          → IsKept hash session s (on_message hash std.trim_space {R = R} s session msg)
      unfolding on_message
      on_message-IsKept msg =
          either-IsKept (bytes_eq msg.type (codes "CLUSTER_TOPOLOGY")) _ _ (inl refl) (
            if_IsKept (not (can session perm_internal)) _ _ (λ external. inl refl)
              (λ given.
                let internal : can session perm_internal ≡ true = ground (arith, given) in
                either-IsKept s.shared _ _ (inl refl) (
                  either-IsKept (bytes_eq msg.type (codes "CLUSTER_REPLICATION_STATS")) _ _
                    (inl refl)
                    (either-IsKept (bytes_eq msg.type (codes "CLUSTER_METRICS")) _ _ (inl refl) (
                      either-IsKept (bytes_eq msg.type (codes "SET_CONFIG")) _ _
                        (inr (inr (internal, inl (msg, refl, refl))))
                        (either-IsKept (bytes_eq msg.type (codes "CLUSTER_EXPORT")) _ _ (inl refl) (
                          either-IsKept (bytes_eq msg.type (codes "JOIN")) _ _
                            (inr (inr (internal, inr (_, _, refl, refl)))) (inl refl))))))))

      on_cluster-IsKept :
          (msg : Option DiscoveryMessage)
          → IsKept hash session s (on_cluster std hash read_message fetch s session msg)
      on_cluster-IsKept none = inl refl
      on_cluster-IsKept (some msg) = on_message-IsKept msg

      answer-IsKept :
          (line fresh : Bytes)
          → IsKept hash session s (answer std hash read_message fetch s session line fresh)
      unfolding answer
      answer-IsKept line fresh =
          either-IsKept (ltb (line_limit s session) (length line)) _ _ (inl refl) (
            either-IsKept (not (is_text line)) _ _ (inl refl) (
              either-IsKept (has_prefix line (codes "REPL_BATCH ")) _ _ (inl refl) (
                either-IsKept (batch_header std line) _ _ (inl refl) (
                  either-IsKept (has_prefix (std.to_upper line) (codes "CLUSTER ")) _ _
                    (on_cluster-IsKept (read_message (std.trim_space (drop 8 line))))
                    (on_command-IsKept line fresh (parse std line))))))

      -- What handleConn does about a line is within the session's permissions: a mutation takes the
      -- write permission, any other query the read permission, and replication, the parameters of
      -- other nodes and the administration of the cluster the internal one. The server stays as it
      -- was, but for the counter of reads, which takes the read permission, and for a configuration
      -- that is set or a node that joins, which take the internal one and are answered as such.
      pub answer-permitted :
          (line fresh : Bytes)
          → (is_permitted session (answer std hash read_message fetch s session line fresh).1
              ≡ true)
            × IsKept hash session s (answer std hash read_message fetch s session line fresh)
      answer-permitted line fresh = (
        answer-is_permitted std hash read_message fetch session s line fresh,
        answer-IsKept line fresh,
      )
