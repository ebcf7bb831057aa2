-- ===== src/Server/Permissions.antt =====
-- What a session may do: every action on a line is within its permissions.
use flamedb.Auth.{Session, can, perm_internal, perm_read, perm_write, is_text}
use flamedb.Base.{
  ◌≡◌, refl, Bool, true, false, not, ◌&&◌, ◌||◌, Option, none, some, arith, length, if◌then◌else◌,
  ltb, Bool-cases, inl, inr, ℕ, drop,
}
use flamedb.Base.Bytes.{Bytes, codes, has_prefix}
use flamedb.Query.Parse.{parse}
use flamedb.Query.Types.{Query, Result, ok, err, Std}
use flamedb.Server.{is_mutation, is_flagged}
use flamedb.Server.Admin.{on_message}
use flamedb.Server.Dispatch.{
  answer, on_query, on_one, denial, on_replica_batch, on_cluster, on_command, unless_denied,
  batch_header, line_limit,
}
use flamedb.Server.Types.{
  Server, DiscoveryMessage, Action, ignored, refused, hung_up, replica_batch, write_batch, topology,
  replication_stats, all_metrics, config_set, exported, joined, shared_query, metric_list, gathered,
  sent, failed_over, read_at, executed, Fetch,
}

-- A mutation takes the write permission, any other query the read permission, and the parameters of
-- other nodes the internal one.
abbrev pub may_run : Session → Query → Bool
may_run s q =
    (if is_mutation q.type then can s perm_write else can s perm_read)
    && (not (is_flagged q) || can s perm_internal)

abbrev pub is_permitted : {R : Type 0} → Session → Action R → Bool
is_permitted s ignored = true
is_permitted s (refused e) = true
is_permitted s (hung_up e) = true
is_permitted s (write_batch header internal) =
    can s perm_write && (not internal || can s perm_internal)
is_permitted s topology = can s perm_read || can s perm_write
is_permitted s (replica_batch whole queries) = can s perm_internal
is_permitted s replication_stats = can s perm_internal
is_permitted s all_metrics = can s perm_internal
is_permitted s (config_set broadcast) = can s perm_internal
is_permitted s (exported metric) = can s perm_internal
is_permitted s (joined new node) = can s perm_internal
is_permitted s (shared_query q) = may_run s q
is_permitted s (metric_list q line) = may_run s q
is_permitted s (gathered q results) = may_run s q
is_permitted s (sent q node line) = may_run s q
is_permitted s (failed_over q line) = may_run s q
is_permitted s (read_at q node line operation) = may_run s q
is_permitted s (executed q operation line) = may_run s q

pub denial-may_run : (s : Session) (q : Query) → denial s q ≡ none → may_run s q ≡ true
denial-may_run s q h = ground arith

module _ (std : Std) (hash : Bytes → ℕ) (read_message : Bytes → Option DiscoveryMessage)
    {R : Type 0} (fetch : Fetch R) (session : Session) where
  replica_batch-permitted :
      (s : Server) (line : Bytes)
      → is_permitted session (on_replica_batch std hash read_message fetch s session line) ≡ true
  unfolding on_replica_batch
  replica_batch-permitted s line = elim (Bool-cases (can session perm_internal)) [
    | inl internal ↦ ground (arith, internal)
    | inr external ↦ rw external refl
  ]

  on_message-permitted :
      (s : Server) (msg : DiscoveryMessage)
      → is_permitted session (on_message hash std.trim_space {R = R} s session msg).1 ≡ true
  unfolding on_message
  on_message-permitted s msg = ground arith

  on_one-permitted :
      (s : Server) (q : Query) (line fresh : Bytes)
      → may_run session q ≡ true
      → is_permitted session (on_one std hash read_message fetch s q line fresh).1 ≡ true
  unfolding on_one
  on_one-permitted s q line fresh h = ground (arith, h)

  on_query-permitted :
      (s : Server) (q : Query) (line fresh : Bytes)
      → may_run session q ≡ true
      → is_permitted session (on_query std hash read_message fetch s q line fresh).1 ≡ true
  unfolding on_query
  on_query-permitted s q line fresh h = ground (arith, h, on_one-permitted s q line fresh)

  unless_denied-permitted :
      (s : Server) (q : Query) (line fresh : Bytes) (denied : Option Bytes)
      → denial session q ≡ denied
      → is_permitted session (unless_denied std hash read_message fetch s q line fresh denied).1
        ≡ true
  unless_denied-permitted s q line fresh none e =
      on_query-permitted s q line fresh (denial-may_run session q e)
  unless_denied-permitted s q line fresh (some message) e = refl

  on_command-permitted :
      (s : Server) (line fresh : Bytes) (r : Result Query)
      → is_permitted session (on_command std hash read_message fetch s session line fresh r).1
        ≡ true
  on_command-permitted s line fresh (err e) = refl
  on_command-permitted s line fresh (ok q) =
      unless_denied-permitted s q line fresh (denial session q) refl

  on_cluster-permitted :
      (s : Server) (msg : Option DiscoveryMessage)
      → is_permitted session (on_cluster std hash read_message fetch s session msg).1 ≡ true
  on_cluster-permitted s none = refl
  on_cluster-permitted s (some msg) = on_message-permitted s msg

  either_permitted :
      (b : Bool) (x y : Server × Action R)
      → is_permitted session x.1 ≡ true
      → is_permitted session y.1 ≡ true
      → is_permitted session (if b then x else y).1 ≡ true
  either_permitted true x y h k = h
  either_permitted false x y h k = k

  write_batch-permitted :
      (line : Bytes)
      → is_permitted {R = R} session (
          if can session perm_write
          then write_batch line (can session perm_internal)
          else hung_up (codes "permission denied: write required"))
        ≡ true
  write_batch-permitted line = ground arith

  -- What is done about a line is permitted.
  pub answer-is_permitted :
      (s : Server) (line fresh : Bytes)
      → is_permitted session (answer std hash read_message fetch s session line fresh).1 ≡ true
  unfolding answer
  answer-is_permitted s line fresh =
      let cluster : Server × Action R =
        on_cluster std hash read_message fetch s session
          (read_message (std.trim_space (drop 8 line))) in
      let command = on_command std hash read_message fetch s session line fresh (parse std line) in
      let batched : Action R =
        if can session perm_write
        then write_batch line (can session perm_internal)
        else hung_up (codes "permission denied: write required") in
      let last : Server × Action R =
        if has_prefix (std.to_upper line) (codes "CLUSTER ") then cluster else command in
      let later : Server × Action R = if batch_header std line then (s, batched) else last in
      let rest : Server × Action R =
        if has_prefix line (codes "REPL_BATCH ")
        then (s, on_replica_batch std hash read_message fetch s session line)
        else later in
      either_permitted (ltb (line_limit s session) (length line))
        (s, hung_up (codes "command too large")) (if not (is_text line) then (s, ignored) else rest)
        refl
        (either_permitted (not (is_text line)) (s, ignored) rest refl
          (either_permitted (has_prefix line (codes "REPL_BATCH ")) _ later
            (replica_batch-permitted s line)
            (either_permitted (batch_header std line) (s, batched) last (write_batch-permitted line)
              (either_permitted (has_prefix (std.to_upper line) (codes "CLUSTER ")) cluster command
                (on_cluster-permitted s (read_message (std.trim_space (drop 8 line))))
                (on_command-permitted s line fresh (parse std line))))))
