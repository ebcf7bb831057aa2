-- ===== src/Server/Dispatch.antt =====
-- What handleConn does about a line of a connection after the handshake.
use flamedb.Auth.{Session, can, perm_internal, perm_read, perm_write}
use flamedb.Base.{
  ℕ, ◌*◌, ◌^◌, Bool, true, not, ◌&&◌, ◌||◌, Option, none, some, List, [], ◌∷◌, ◌++◌, if◌then◌else◌,
  ltb, drop, length,
}
use flamedb.Base.Bytes.{Bytes, codes, bytes_eq, has_prefix}
use flamedb.Cluster.Ring.{Node}
use flamedb.Cluster.Route.{
  Cluster, get_read_node, is_primary_for, is_local, forward_to_primary, is_text,
}
use flamedb.Query.Commands.Text.{split}
use flamedb.Query.Parse.{parse}
use flamedb.Query.Types.{Query, Result, ok, err, ◌>>=◌, Std}
use flamedb.Server.{
  is_mutation, is_flagged, all_writes, all_mutations, is_spread, is_get, is_metrics, suffix_of,
  local_mark,
}
use flamedb.Server.Admin.{on_message}
use flamedb.Server.Types.{
  Server, DiscoveryMessage, Action, ignored, refused, hung_up, replica_batch, write_batch,
  shared_query, metric_list, gathered, sent, failed_over, read_at, executed, Fetch,
}

-- REPL_BATCH lines may be this long.
abbrev replica_limit : ℕ
replica_limit = 9 * 2 ^ 20

abbrev as_replica : Query → Query
as_replica q = record q { is_replica = true; force_local = true }

abbrev pub line_limit : Server → Session → ℕ
line_limit s session =
    if can session perm_internal && not s.shared then replica_limit else s.request_limit

-- The name under which executeLocal runs the query.
abbrev pub operation_for : Query → Bytes → Bytes
operation_for q fresh = if q.is_replica || is_text q.operation_id then q.operation_id else fresh

-- The two checks of permissions.
abbrev pub denial : Session → Query → Option Bytes
denial session q =
    if is_flagged q && not (can session perm_internal)
    then some (codes "internal flags require internal permission")
    else if is_mutation q.type
    then (if can session perm_write then none else some (codes "permission denied: write required"))
    else if can session perm_read
    then none
    else some (codes "permission denied: read required")

abbrev pub batch_header : Std → Bytes → Bool
batch_header std line =
    std.equal_fold line (codes "WRITE_BATCH") || std.equal_fold line (codes "WRITE_BATCH QUORUM")

-- `read_message` decodes a cluster message from JSON; `fresh` is the next operation's name.
module _ (std : Std) (hash : Bytes → ℕ) (read_message : Bytes → Option DiscoveryMessage)
    {R : Type 0} (fetch : Fetch R) where
  -- The queries of a batch, up to the first that is wrong.
  unfoldable pub parse_all : List Bytes → Result (List Query)
  parse_all [] = ok []
  parse_all (item ∷ items) =
      parse std item >>= λ q. parse_all items >>= λ queries. ok (as_replica q ∷ queries)

  unfoldable pub on_replica_batch : Server → Session → Bytes → Action R
  unfolding parse_all
  on_replica_batch s session line =
      if not (can session perm_internal)
      then refused (codes "internal permission required")
      else if s.shared
      then refused (codes "legacy replication is unavailable with shared storage")
      else elim (parse_all (split 0x1f (std.trim_space (drop 11 line)))) [
        | err e ↦ refused e
        | ok queries ↦
            if all_mutations queries
            then replica_batch (all_writes queries) queries
            else refused (codes "invalid replica operation")
      ]

  -- What is gathered after one metric: nothing further behind an error.
  abbrev pub one_more :
      Cluster
      → Cluster × Result (List (Bytes × R))
      → Bytes
      → Result R
      → Cluster × Result (List (Bytes × R))
  one_more c' later m (err e) = (c', err e)
  one_more c' (c'', more) m (ok r) = (c'', more >>= λ results. ok ((m, r) ∷ results))

  -- The loop over the metrics of a GET, which stops at the first error.
  unfoldable pub gather : Cluster → Query → Bytes → List Bytes → Cluster × Result (List (Bytes × R))
  unfolding get_read_node
  gather c q suffix [] = (c, ok [])
  gather c q suffix (m ∷ rest) =
      let (c', node) = get_read_node hash c m in
      let later = gather c' q suffix rest in
      one_more c' later m (
        if bytes_eq node.id c.self.id
        then fetch.here (record q { metric = m; metrics = [] })
        else fetch.there node (codes "GET " ++ (m ++ (suffix ++ local_mark))))

  abbrev gathered_or : Query → Result (List (Bytes × R)) → Action R
  gathered_or q (ok results) = gathered q results
  gathered_or q (err e) = refused e

  abbrev pub on_many : Server → Query → Option Bytes → Server × Action R
  on_many s q none = (s, refused (codes "invalid query"))
  on_many s q (some suffix) =
      let (c, results) = gather s.cluster q suffix q.metrics in
      (record s { cluster = c }, gathered_or q results)

  abbrev sent_or : Query → Bytes → Result Node → Action R
  sent_or q line (ok node) = sent q node line
  sent_or q line (err e) = refused e

  abbrev pub on_read : Server → Query → Bytes → Bytes → Server × Action R
  on_read s q line operation =
      let (c, node) = get_read_node hash s.cluster q.metric in
      (
        record s { cluster = c },
        if q.force_local || bytes_eq node.id c.self.id
            then executed q operation line
            else read_at q node (line ++ local_mark) operation,
      )

  -- A query of one metric: at the primary, at a node of the route, or at a node that is read from.
  unfoldable pub on_one : Server → Query → Bytes → Bytes → Server × Action R
  unfolding forward_to_primary get_read_node
  on_one s q line fresh =
      if is_mutation q.type && not q.is_replica && not (is_primary_for hash s.cluster q.metric)
      then (s, sent_or q line (forward_to_primary hash s.cluster q.metric))
      else if not q.force_local && not (is_local hash s.cluster q.metric)
      then (s, failed_over q line)
      else if is_spread q.type
      then on_read s q line (operation_for q fresh)
      else (s, executed q (operation_for q fresh) line)

  unfoldable pub on_query : Server → Query → Bytes → Bytes → Server × Action R
  unfolding suffix_of gather on_one
  on_query s q line fresh =
      if s.shared
      then (s, shared_query q)
      else if is_metrics q.type
      then (s, metric_list q line)
      else if is_get q.type && ltb 1 (length q.metrics)
      then on_many s q (suffix_of line)
      else on_one s q line fresh

  abbrev pub unless_denied : Server → Query → Bytes → Bytes → Option Bytes → Server × Action R
  unless_denied s q line fresh none = on_query s q line fresh
  unless_denied s q line fresh (some e) = (s, refused e)

  abbrev pub on_command : Server → Session → Bytes → Bytes → Result Query → Server × Action R
  on_command s session line fresh (err e) = (s, refused e)
  on_command s session line fresh (ok q) = unless_denied s q line fresh (denial session q)

  abbrev pub on_cluster : Server → Session → Option DiscoveryMessage → Server × Action R
  on_cluster s session none = (s, refused (codes "invalid cluster message"))
  on_cluster s session (some msg) = on_message hash std.trim_space s session msg

  -- A line without the blanks around it.
  unfoldable pub answer : Server → Session → Bytes → Bytes → Server × Action R
  unfolding on_replica_batch on_message on_query
  answer s session line fresh =
      if ltb (line_limit s session) (length line)
      then (s, hung_up (codes "command too large"))
      else if not (is_text line)
      then (s, ignored)
      else if has_prefix line (codes "REPL_BATCH ")
      then (s, on_replica_batch s session line)
      else if batch_header std line
      then (
        s,
        if can session perm_write
            then write_batch line (can session perm_internal)
            else hung_up (codes "permission denied: write required"),
      )
      else if has_prefix (std.to_upper line) (codes "CLUSTER ")
      then on_cluster s session (read_message (std.trim_space (drop 8 line)))
      else on_command s session line fresh (parse std line)
