-- ===== src/Server.antt =====
-- The loop of handleConn in internal/server/server.go: what is done about a line, after the
-- handshake. What the network and the store answer is left to the actions.
pub mod Types
pub mod Admin
pub mod Dispatch
pub mod Permissions
pub mod Sessions
pub mod Routing
pub mod Replica
pub mod Batch
pub mod Connection
pub mod Admission
use flamedb.Auth.{Session, can, perm_internal, perm_read, perm_write}
use flamedb.Base.{
  ℕ, ◌+◌, ◌*◌, ◌^◌, Bool, true, false, not, ◌&&◌, ◌||◌, Option, none, some, List, [], ◌∷◌, ◌++◌,
  if◌then◌else◌, ltb, drop, length, ◌==◌,
}
use flamedb.Base.Bytes.{Bytes, codes, bytes_eq, has_prefix}
use flamedb.Base.Int.{ℤ, pos, negsuc}
use flamedb.Cluster.Ring.{Node}
use flamedb.Cluster.Route.{
  Cluster, get_read_node, is_primary_for, is_local, forward_to_primary, add_node, knows, all_nodes,
  set_replication_factor, set_read_policy, is_text, others,
}
use flamedb.Config.Types.{Config}
use flamedb.Query.Commands.Text.{split}
use flamedb.Query.Parse.{parse}
use flamedb.Query.Types.{
  Query, QueryType, metrics, get, leaderboard, write, set, delete, stats, group_leaderboard, Result,
  ok, err, ◌>>=◌, Std,
}

abbrev pub is_mutation : QueryType → Bool
is_mutation write = true
is_mutation set = true
is_mutation delete = true
is_mutation _ = false

-- Parameters of a command that only another node may give.
abbrev pub is_flagged : Query → Bool
is_flagged q = q.is_replica || q.force_local || is_text q.operation_id

abbrev is_write : QueryType → Bool
is_write write = true
is_write _ = false

abbrev all_writes : List Query → Bool
all_writes [] = true
all_writes (q ∷ queries) = is_write q.type && all_writes queries

abbrev all_mutations : List Query → Bool
all_mutations [] = true
all_mutations (q ∷ queries) = is_mutation q.type && all_mutations queries

-- The reads that are spread over the replicas.
abbrev pub is_spread : QueryType → Bool
is_spread get = true
is_spread leaderboard = true
is_spread stats = true
is_spread group_leaderboard = true
is_spread _ = false

abbrev is_get : QueryType → Bool
is_get get = true
is_get _ = false

abbrev is_metrics : QueryType → Bool
is_metrics metrics = true
is_metrics _ = false

abbrev is_blank : ℕ → Bool
is_blank c = c == b' ' || c == b'\t'

-- From the first blank on.
unfoldable pub from_blank : Bytes → Option Bytes
from_blank [] = none
from_blank (c ∷ s) = if is_blank c then some (c ∷ s) else from_blank s

unfoldable pub skip_blanks : Bytes → Bytes
skip_blanks [] = []
skip_blanks (c ∷ s) = if is_blank c then skip_blanks s else c ∷ s

abbrev or_nothing : Option Bytes → Bytes
or_nothing none = []
or_nothing (some s) = s

-- What follows the list of metrics; none if nothing follows the command.
unfoldable pub suffix_of : Bytes → Option Bytes
unfolding from_blank skip_blanks
suffix_of line = elim (from_blank line) [
  | none ↦ none
  | some rest ↦ some (or_nothing (from_blank (skip_blanks (drop 1 rest))))
]

abbrev pub local_mark : Bytes
local_mark = codes " __local"
