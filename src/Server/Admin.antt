-- ===== src/Server/Admin.antt =====
-- The CLUSTER messages of handleConn, and persistConfig.
use flamedb.Auth.{Session, can, perm_internal, perm_read, perm_write}
use flamedb.Base.{ℕ, Bool, false, not, ◌||◌, Option, none, some, List, [], ◌∷◌, if◌then◌else◌, ltb}
use flamedb.Base.Bytes.{Bytes, codes, bytes_eq}
use flamedb.Base.Int.{ℤ, pos, negsuc}
use flamedb.Cluster.Ring.{Node}
use flamedb.Cluster.Route.{
  Cluster, add_node, knows, all_nodes, set_replication_factor, set_read_policy, is_text, others,
}
use flamedb.Config.Types.{Config}
use flamedb.Server.Types.{
  Server, DiscoveryMessage, Action, ignored, refused, topology, replication_stats, all_metrics,
  config_set, exported, joined,
}

abbrev pub is_positive : ℤ → Bool
is_positive (pos n) = ltb 0 n
is_positive (negsuc n) = false

abbrev addresses : List Node → List Bytes
addresses [] = []
addresses (n ∷ nodes) = n.addr ∷ addresses nodes

-- persistConfig: the configuration that is saved. A file that cannot be written is logged alone.
unfoldable pub persist_config : Cluster → DiscoveryMessage → Config → Config
unfolding all_nodes others
persist_config c msg cfg = record cfg {
  cluster = record cfg.cluster {
    replication_factor =
        if is_positive msg.replication_factor
        then msg.replication_factor
        else cfg.cluster.replication_factor;
    read_policy = if is_text msg.read_policy then msg.read_policy else cfg.cluster.read_policy;
    seeds =
        if msg.update_seeds
        then addresses (others c.self.id (all_nodes c.ring.nodes))
        else cfg.cluster.seeds;
  };
}

abbrev saved : Cluster → DiscoveryMessage → Option Config → Option Config
saved c msg none = none
saved c msg (some cfg) = some (persist_config c msg cfg)

-- SET_CONFIG on the cluster and on the configuration.
unfoldable pub set_config : Server → DiscoveryMessage → Server
unfolding persist_config
set_config s msg =
    let c =
      if is_positive msg.replication_factor
      then set_replication_factor s.cluster msg.replication_factor
      else s.cluster in
    let c' = if is_text msg.read_policy then set_read_policy c msg.read_policy else c in
    record s { cluster = c'; config = saved c' msg s.config }

module _ (hash : Bytes → ℕ) (trim_space : Bytes → Bytes) {R : Type 0} where
  abbrev join : Server → DiscoveryMessage → Server × Action R
  join s msg =
      let node : Node = record { id = msg.node_id; addr = msg.addr } in
      (
        record s { cluster = add_node hash s.cluster node },
        joined (not (knows s.cluster node.id)) node,
      )

  abbrev export : Bytes → Action R
  export metric = if is_text metric then exported metric else refused (codes "missing metric")

  -- A message that was read. Types without a case are not answered.
  unfoldable pub on_message : Server → Session → DiscoveryMessage → Server × Action R
  unfolding set_config
  on_message s session msg =
      if bytes_eq msg.type (codes "CLUSTER_TOPOLOGY")
      then (
        s,
        if can session perm_read || can session perm_write
            then topology
            else refused (codes "permission denied"),
      )
      else if not (can session perm_internal)
      then (s, refused (codes "internal permission required"))
      else if s.shared
      then (s, refused (codes "legacy cluster administration is unavailable with shared storage"))
      else if bytes_eq msg.type (codes "CLUSTER_REPLICATION_STATS")
      then (s, replication_stats)
      else if bytes_eq msg.type (codes "CLUSTER_METRICS")
      then (s, all_metrics)
      else if bytes_eq msg.type (codes "SET_CONFIG")
      then (set_config s msg, config_set msg.propagate)
      else if bytes_eq msg.type (codes "CLUSTER_EXPORT")
      then (s, export (trim_space msg.metric))
      else if bytes_eq msg.type (codes "JOIN")
      then join s msg
      else (s, ignored)
