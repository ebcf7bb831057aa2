-- ===== src/Server/Routing.antt =====
-- A mutation that is sent to the primary is executed there.
use flamedb.Auth.{Session, can, perm_internal, perm_write}
use flamedb.Base.{
  ◌≡◌, refl, true, false, arith, Bool-cases, inl, inr, ◌∙◌, Option, ℕ, ap, none, some, ltb, length,
  ◌≤◌, drop, subst, if◌then◌else◌, Bool,
}
use flamedb.Base.Bytes.{Bytes, codes, has_prefix}
use flamedb.Cluster.Ring.{Node}
use flamedb.Cluster.Route.{forward_to_primary, is_primary_for, is_local, is_text}
use flamedb.Cluster.Route.Placement.{forward_to_primary-is_primary}
use flamedb.Query.Parse.{parse}
use flamedb.Query.Types.{Query, QueryType, ok, Std, Result, err}
use flamedb.Server.{is_mutation, is_spread}
use flamedb.Server.Admin.{on_message}
use flamedb.Server.Dispatch.{
  on_query, on_one, operation_for, answer, on_command, on_cluster, on_replica_batch, denial,
  unless_denied, batch_header, line_limit,
}
use flamedb.Server.Types.{
  write_batch, hung_up, Server, DiscoveryMessage, sent, executed, Fetch, Action,
}

abbrev is_sent : {R : Type 0} → Action R → Bool
is_sent (sent q node line) = true
is_sent _ = false

module _ (std : Std) (hash : Bytes → ℕ) (read_message : Bytes → Option DiscoveryMessage)
    {R : Type 0} (fetch : Fetch R) (q : Query) (line : Bytes) where
  on_one-sent :
      (s : Server) (p : Query) (fresh : Bytes) (node : Node)
      → (on_one std hash read_message fetch s p line fresh).1 ≡ sent q node line
      → (p ≡ q)
        × (is_mutation p.type ≡ true)
        × (forward_to_primary hash s.cluster p.metric ≡ ok node)
  unfolding on_one
  on_one-sent s p fresh node h = ground (arith, h)

  on_one-primary :
      (t : Server) (fresh : Bytes)
      → is_mutation q.type ≡ true
      → is_primary_for hash t.cluster q.metric ≡ true
      → is_local hash t.cluster q.metric ≡ true
      → (on_one std hash read_message fetch t q line fresh).1
        ≡ executed q (operation_for q fresh) line
  unfolding on_one
  on_one-primary t fresh mutation primary local = elim (Bool-cases (is_spread q.type)) [
    | inl spread ↦ absurd (mutation-not_spread q.type mutation spread)
    | inr single ↦ elim (Bool-cases q.is_replica) [
      | inl replica ↦ elim (Bool-cases q.force_local) [
        | inl here ↦ rw (mutation, primary, local, single, replica, here) refl
        | inr any ↦ rw (mutation, primary, local, single, replica, any) refl
      ]
      | inr first ↦ elim (Bool-cases q.force_local) [
        | inl here ↦ rw (mutation, primary, local, single, first, here) refl
        | inr any ↦ rw (mutation, primary, local, single, first, any) refl
      ]
    ]
  ]
    where
      mutation-not_spread : (type : QueryType) → is_mutation type ≡ true → is_spread type ≡ true → ⊥
      mutation-not_spread type m p = ground arith

  on_query-one :
      (s : Server) (fresh : Bytes)
      → s.shared ≡ false
      → is_mutation q.type ≡ true
      → on_query std hash read_message fetch s q line fresh
        ≡ on_one std hash read_message fetch s q line fresh
  unfolding on_query
  on_query-one s fresh apart mutation = ground (arith, apart, mutation)

  on_query-sent :
      (s : Server) (p : Query) (fresh : Bytes) (node : Node)
      → (on_query std hash read_message fetch s p line fresh).1 ≡ sent q node line
      → (on_one std hash read_message fetch s p line fresh).1 ≡ sent q node line
  unfolding on_query
  on_query-sent s p fresh node h = ground (arith, h)

  replica_batch-is_sent :
      (s : Server) (session : Session)
      → is_sent (on_replica_batch std hash read_message fetch s session line) ≡ false
  unfolding on_replica_batch
  replica_batch-is_sent s session = ground arith

  on_message-is_sent :
      (s : Server) (session : Session) (msg : DiscoveryMessage)
      → is_sent (on_message hash std.trim_space {R = R} s session msg).1 ≡ false
  unfolding on_message
  on_message-is_sent s session msg = ground arith

  on_cluster-is_sent :
      (s : Server) (session : Session) (msg : Option DiscoveryMessage)
      → is_sent (on_cluster std hash read_message fetch s session msg).1 ≡ false
  on_cluster-is_sent s session none = refl
  on_cluster-is_sent s session (some msg) = on_message-is_sent s session msg

  -- What a line that is sent is read as.
  on_command-sent :
      (s : Server) (session : Session) (fresh : Bytes) (node : Node) (r : Result Query)
      → (on_command std hash read_message fetch s session line fresh r).1 ≡ sent q node line
      → (r ≡ ok q)
        × (is_mutation q.type ≡ true)
        × (forward_to_primary hash s.cluster q.metric ≡ ok node)
  on_command-sent s session fresh node (err e) h = absurd (cc)
  on_command-sent s session fresh node (ok p) h = by_denial (denial session p) h
    where
      by_denial :
          (denied : Option Bytes)
          → (unless_denied std hash read_message fetch s p line fresh denied).1 ≡ sent q node line
          → (ok p ≡ ok q)
            × (is_mutation q.type ≡ true)
            × (forward_to_primary hash s.cluster q.metric ≡ ok node)
      by_denial (some e) h = absurd (cc)
      by_denial none h =
          let (same, mutation, chosen) =
            on_one-sent s p fresh node (on_query-sent s p fresh node h) in
          (
            ap ok same,
            subst (λ (x : Query). is_mutation x.type ≡ true) same mutation,
            subst (λ (x : Query). forward_to_primary hash s.cluster x.metric ≡ ok node) same chosen,
          )

  -- Such a line is a command.
  abbrev IsCommand : Type 0
  IsCommand =
      (is_text line ≡ true)
      × (has_prefix line (codes "REPL_BATCH ") ≡ false)
      × (batch_header std line ≡ false)
      × (has_prefix (std.to_upper line) (codes "CLUSTER ") ≡ false)

  answer-command :
      (s : Server) (session : Session) (fresh : Bytes)
      → IsCommand
      → ltb (line_limit s session) (length line) ≡ false
      → answer std hash read_message fetch s session line fresh
        ≡ on_command std hash read_message fetch s session line fresh (parse std line)
  unfolding answer
  answer-command s session fresh (text, single, apart, plain) short =
      rw (short, text, single, apart, plain) refl

  answer-sent :
      (s : Server) (session : Session) (fresh : Bytes) (node : Node)
      → (answer std hash read_message fetch s session line fresh).1 ≡ sent q node line
      → IsCommand
        × ((on_command std hash read_message fetch s session line fresh (parse std line)).1
            ≡ sent q node line)
  unfolding answer
  answer-sent s session fresh node h =
      elim (Bool-cases (ltb (line_limit s session) (length line))) [
        | inl long ↦ absurd (cc (rw long at h))
        | inr short ↦ elim (Bool-cases (is_text line)) [
          | inr blank ↦ absurd (cc (rw (short, blank) at h))
          | inl text ↦ elim (Bool-cases (has_prefix line (codes "REPL_BATCH "))) [
            | inl whole ↦
                absurd
                  (cc (replica_batch-is_sent s session, ap is_sent (rw (short, text, whole) at h)))
            | inr single ↦ elim (Bool-cases (batch_header std line)) [
              | inl header ↦ absurd (
                  let sorted : if_batch (can session perm_write) (can session perm_internal)
                      ≡ sent q node line =
                    rw (short, text, single, header) at h in
                  unbatched (can session perm_write) (can session perm_internal) node sorted)
              | inr apart ↦ elim (Bool-cases (has_prefix (std.to_upper line) (codes "CLUSTER "))) [
                | inl cluster ↦ absurd (
                    cc (
                      on_cluster-is_sent s session (read_message (std.trim_space (drop 8 line))),
                      ap is_sent (rw (short, text, single, apart, cluster) at h),
                    ))
                | inr plain ↦
                    ((text, single, apart, plain), rw (short, text, single, apart, plain) at h)
              ]
            ]
          ]
        ]
      ]
    where
      if_batch : Bool → Bool → Action R
      if_batch w internal =
          if w
          then write_batch line internal
          else hung_up (codes "permission denied: write required")

      unbatched : (w internal : Bool) (node : Node) → if_batch w internal ≡ sent q node line → ⊥
      unbatched true internal node e = cc
      unbatched false internal node e = cc

  -- A mutation that the primary takes from a session with the internal and the write permission is
  -- executed.
  on_command-executed :
      (t : Server) (session : Session) (fresh : Bytes)
      → t.shared ≡ false
      → can session perm_write ≡ true
      → can session perm_internal ≡ true
      → is_mutation q.type ≡ true
      → is_primary_for hash t.cluster q.metric ≡ true
      → is_local hash t.cluster q.metric ≡ true
      → (on_command std hash read_message fetch t session line fresh (ok q)).1
        ≡ executed q (operation_for q fresh) line
  on_command-executed t session fresh apart writes internal mutation primary local =
      let allowed : denial session q ≡ none = ground (arith, writes, internal, mutation) in
      rw allowed (
        ap (λ p. p.1) (on_query-one t fresh apart mutation)
        ∙ on_one-primary t fresh mutation primary local)

  -- A line of a connection that a server sends to the primary is executed there, and neither
  -- refused nor sent on, where the primary keeps its own store, has the same ring and replication
  -- factor, reads the line alike, within its limit for the length of a line, and gives the session
  -- the internal and the write permission.
  pub sent-executed :
      (s t : Server) (from to : Session) (node : Node) (fresh fresh' : Bytes)
      → (answer std hash read_message fetch s from line fresh).1 ≡ sent q node line
      → t.shared ≡ false
      → t.cluster.ring ≡ s.cluster.ring
      → t.cluster.replication_factor ≡ s.cluster.replication_factor
      → t.cluster.self ≡ node
      → length line ≤ line_limit t to
      → can to perm_write ≡ true
      → can to perm_internal ≡ true
      → (answer std hash read_message fetch t to line fresh').1
        ≡ executed q (operation_for q fresh') line
  sent-executed s t from to node fresh fresh' h apart same_ring same_factor itself short writes
        internal =
      let (command, made) = answer-sent s from fresh node h in
      let (read, mutation, chosen) = on_command-sent s from fresh node (parse std line) made in
      let (primary, local) =
        forward_to_primary-is_primary hash s.cluster q.metric t.cluster node same_ring same_factor
          itself chosen in
      ap (λ p. p.1) (answer-command t to fresh' command (ground (arith, short)))
      ∙ ap (λ r. (on_command std hash read_message fetch t to line fresh' r).1) read
      ∙ on_command-executed t to fresh' apart writes internal mutation primary local
