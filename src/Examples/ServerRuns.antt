-- ===== src/Examples/ServerRuns.antt =====
-- The server and the routes at a ring of two nodes.
use flamedb.Auth.{Session, can}
use flamedb.Base.{take, ◌++◌, ◌≡◌, refl, arith, true, false, Option, none, some, List, [], ◌∷◌, ◌≤◌}
use flamedb.Base.Bytes.{Bytes, codes, bytes_eq}
use flamedb.Base.NatMap.{get}
use flamedb.Cluster.Ring.{Node, get_node, get_n, start, search_from, walk, seen}
use flamedb.Cluster.Route.{
  Cluster, get_route, get_read_node, route_of, others, is_among, forward_with_failover,
  read_policy_local, forward_to_primary,
}
use flamedb.Cluster.Route.Failover.{Forwarded, forward_with_failover_lem}
use flamedb.Cluster.Route.Placement.{get_read_node_lem}
use flamedb.Examples.QueryRuns.{plain_std}
use flamedb.Examples.RingRuns.{first_byte, node_a, node_b, two_nodes}
use flamedb.Query.Parse.{parse}
use flamedb.Query.Types.{Query, Result, ok, err, new_query, write, delete}
use flamedb.Server.Admin.{on_message}
use flamedb.Server.Admission.{
  Limits, Load, idle, none_yet, then_one, arrive, IsBounded, Moves-IsBounded, accept, begin,
  start_shared,
}
use flamedb.Server.Connection.{IsGuarded, connection, connection-IsGuarded}
use flamedb.Server.Dispatch.{answer, on_query, on_one, operation_for, line_limit, on_replica_batch}
use flamedb.Server.Permissions.{is_permitted}
use flamedb.Server.Routing.{sent-executed}
use flamedb.Server.Sessions.{IsKept, answer-permitted}
use flamedb.Server.Types.{Server, DiscoveryMessage, sent, executed, Fetch}

abbrev pub cluster_of : Node → Cluster
cluster_of node = record {
  self = node;
  ring = two_nodes;
  replication_factor = 1;
  read_policy = read_policy_local;
  read_counter = 0;
}

abbrev reader : Session
reader = record { name = codes "dash"; permissions = (codes "read", true) ∷ [] }

abbrev server_of : Node → Server
server_of node = record {
  auth = record { disabled = false; keys = (codes "r-1", reader) ∷ [] };
  cluster = cluster_of node;
  config = none;
  shared = false;
  request_limit = 8388608;
  batch_limit = 10000;
}

abbrev no_message : Bytes → Option DiscoveryMessage
no_message s = none

abbrev silent : Fetch Bytes
silent = record { here = λ q. ok []; there = λ n s. err (codes "timeout") }

answer-permitted_example :
    (is_permitted reader
        (answer plain_std first_byte no_message silent
          (server_of node_a)
          reader
          (codes "GET bx")
          (codes "op")).1
      ≡ true)
    × IsKept first_byte reader (server_of node_a) (
        answer plain_std first_byte no_message silent
          (server_of node_a)
          reader
          (codes "GET bx")
          (codes "op"))
answer-permitted_example =
    answer-permitted first_byte plain_std no_message silent reader (server_of node_a)
      (codes "GET bx") (codes "op")

abbrev session_lines : List Bytes
session_lines = codes "GET bx" ∷ codes "AUTH r-1" ∷ codes "WRITE bx 1" ∷ codes "GET ax" ∷ []

connection-IsGuarded_example :
    IsGuarded plain_std first_byte no_message silent
      (λ n. [])
      (λ n. 1)
      (server_of node_a)
      session_lines
      (connection plain_std first_byte no_message silent
        (λ n. [])
        (λ n. 1)
        (server_of node_a)
        session_lines)
connection-IsGuarded_example =
    connection-IsGuarded plain_std first_byte no_message silent (λ n. []) (λ n. 1)
      (server_of node_a) session_lines

abbrev pub write_bx : Query
write_bx = record (new_query [] write) { metric = codes "bx" }

abbrev insider : Session
insider = record {
  name = codes "cluster";
  permissions = (codes "write", true) ∷ (codes "internal", true) ∷ [];
}

abbrev delete_bx : Query
delete_bx = record (new_query [] delete) { metric = codes "bx" }

can_write : can insider (codes "write") ≡ true
unfolding can flamedb.Base.Map.get bytes_eq
can_write = refl

can_internal : can insider (codes "internal") ≡ true
unfolding can flamedb.Base.Map.get bytes_eq
can_internal = refl

insider_limit : 9 ≤ line_limit (server_of node_b) insider
insider_limit = rw can_internal (omega arith)

sent_to_b :
    (answer plain_std first_byte no_message silent
      (server_of node_a)
      insider
      (codes "DELETE bx")
      (codes "op")).1
    ≡ sent delete_bx node_b (codes "DELETE bx")
unfolding answer on_query on_one forward_to_primary get_route route_of is_among others get_n walk
    seen start search_from get bytes_eq can on_replica_batch on_message flamedb.Base.Map.get parse
    flamedb.Query.Parse.parse_at flamedb.Query.Parse.parse_body flamedb.Query.Parse.parse_command
    flamedb.Query.Parse.parse_delete flamedb.Query.Parse.operation_of flamedb.Query.Parse.last_cut
    flamedb.Query.Commands.Loop.run flamedb.Query.Commands.Steps.delete_step
    flamedb.Query.Tokenize.tokenize flamedb.Query.Tokenize.scan flamedb.Query.Commands.Text.cut
    flamedb.Query.Commands.Text.split flamedb.Query.Validate.validate_query
    flamedb.Base.Bytes.contains_any flamedb.Base.Bytes.contains_byte flamedb.Base.Bytes.has_prefix
    flamedb.Query.Validate.not_finite flamedb.Query.Validate.first_error
    flamedb.Query.Validate.first_bad_metric flamedb.Query.Validate.bad_metric
    flamedb.Query.Validate.reserved_metric flamedb.Query.Validate.any_bad_key
    flamedb.Query.Validate.any_bad_board
sent_to_b = refl

sent-executed_example :
    (answer plain_std first_byte no_message silent
      (server_of node_b)
      insider
      (codes "DELETE bx")
      (codes "op2")).1
    ≡ executed delete_bx (operation_for delete_bx (codes "op2")) (codes "DELETE bx")
sent-executed_example =
    sent-executed plain_std first_byte no_message silent delete_bx (codes "DELETE bx")
      (server_of node_a) (server_of node_b) insider insider node_b (codes "op") (codes "op2")
      sent_to_b refl refl refl refl insider_limit can_write can_internal

abbrev unreachable : Node → Bytes → Result Bytes
unreachable n line = err (codes "timeout")

forward_with_failover_lem_example :
    Forwarded
      (λ n. unreachable n (codes "WRITE bx 1" ++ codes " __local"))
      (codes "WRITE")
      (get_route first_byte (cluster_of node_a) (codes "bx")).replicas
      (forward_with_failover first_byte unreachable
        (λ s. s)
        (λ s. take 5 s)
        (cluster_of node_a)
        (codes "bx")
        (codes "WRITE bx 1"))
forward_with_failover_lem_example =
    forward_with_failover_lem unreachable (λ s. s) (λ s. take 5 s) first_byte (cluster_of node_a)
      (codes "bx") (codes "WRITE bx 1")

bx_at_b : get_node first_byte two_nodes (codes "bx") ≡ some node_b
unfolding get_node start search_from get
bx_at_b = refl

get_read_node_lem_example :
    is_among
      (get_read_node first_byte (cluster_of node_a) (codes "bx")).1.id
      (get_n first_byte two_nodes (codes "bx") 1)
    ≡ true
get_read_node_lem_example =
    get_read_node_lem first_byte (cluster_of node_a) (codes "bx") node_b (omega arith) bx_at_b refl

abbrev one_each : Limits
one_each = record { connections = 1; requests = 1 }

abbrev after_moves : Load
after_moves = (start_shared one_each (accept one_each (accept one_each idle).0).0).0

Moves-IsBounded_example : IsBounded one_each after_moves
Moves-IsBounded_example = Moves-IsBounded one_each (
    then_one (then_one (then_one none_yet (arrive idle)) (arrive (accept one_each idle).0))
      (begin (accept one_each (accept one_each idle).0).0))
