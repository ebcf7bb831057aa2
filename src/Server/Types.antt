-- ===== src/Server/Types.antt =====
-- The state of a server of internal/server/server.go, and what it does with a line of a connection.
use flamedb.Auth.{Auth}
use flamedb.Base.{ℕ, Bool, Option, List}
use flamedb.Base.Bytes.{Bytes}
use flamedb.Base.Int.{ℤ}
use flamedb.Cluster.Ring.{Node}
use flamedb.Cluster.Route.{Cluster}
use flamedb.Config.Types.{Config}
use flamedb.Query.Types.{Query, Result}

-- `config` is none where the server has no configuration, or no path to save it at.
pub record Server : Type 0 where
  pub auth : Auth
  pub cluster : Cluster
  pub config : Option Config
  pub shared : Bool
  pub request_limit : ℕ
  pub batch_limit : ℕ

-- The fields of cluster.DiscoveryMessage that the server reads.
pub record DiscoveryMessage : Type 0 where
  pub type : Bytes
  pub node_id : Bytes
  pub addr : Bytes
  pub replication_factor : ℤ
  pub read_policy : Bytes
  pub propagate : Bool
  pub update_seeds : Bool
  pub metric : Bytes

-- What is done about a line. `R` is the type of query results.
pub data Action (R : Type 0) : Type 0 where
  -- no answer
  ignored : Action R
  -- an error is answered
  refused : Bytes → Action R
  -- an error is answered and the connection closed
  hung_up : Bytes → Action R
  -- the queries of REPL_BATCH, as one batch if the flag is set
  replica_batch : Bool → List Query → Action R
  -- the lines that follow are a batch; with its header, and the internal permission
  write_batch : Bytes → Bool → Action R
  topology : Action R
  replication_stats : Action R
  all_metrics : Action R
  -- the configuration was set, and is broadcast if the flag is set
  config_set : Bool → Action R
  exported : Bytes → Action R
  -- a node was added, and is announced if the flag is set
  joined : Bool → Node → Action R
  shared_query : Query → Action R
  -- METRICS, with its line for the other nodes
  metric_list : Query → Bytes → Action R
  -- the results of the metrics of a GET
  gathered : Query → List (Bytes × R) → Action R
  -- the line is sent to the primary
  sent : Query → Node → Bytes → Action R
  -- the line goes to ForwardWithFailover
  failed_over : Query → Bytes → Action R
  -- the line is sent to a node; where that fails the query is executed with the operation's name
  read_at : Query → Node → Bytes → Bytes → Action R
  -- executeLocal of the query, with the operation's name and the line
  executed : Query → Bytes → Bytes → Action R

-- The effects that a GET of several metrics waits for: its own executor, and a node that is sent a
-- line and whose answer is decoded.
pub record Fetch (R : Type 0) : Type 0 where
  pub here : Query → Result R
  pub there : Node → Bytes → Result R
