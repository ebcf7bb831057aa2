-- ===== src/Cluster/Route.antt =====
-- internal/cluster/cluster.go: which nodes a metric is written to and read from. The cache of routes
-- is never filled by getRoute, so it is not part of the state.
pub mod Placement
pub mod Failover
use flamedb.Base.{
  ℕ, suc, ◌%◌, ◌+◌, ◌^◌, Bool, true, false, ◌||◌, Option, none, some, List, [], ◌∷◌, ◌++◌,
  if◌then◌else◌, length, get_elem?, leb, ltb,
}
use flamedb.Base.Bytes.{Bytes, codes, bytes_eq}
use flamedb.Base.Int.{ℤ, pos, negsuc}
use flamedb.Base.NatMap.{NatMap}
use flamedb.Cluster.Ring.{Node, Ring, add, remove, new_ring, get_n, has_id, node_or_zero}
use flamedb.Query.Types.{Result, ok, err}

-- The part of Cluster that decides on nodes; the counter is a uint64.
pub record Cluster : Type 0 where
  pub self : Node
  pub ring : Ring
  pub replication_factor : ℕ
  pub read_policy : Bytes
  pub read_counter : ℕ

pub record RouteInfo : Type 0 where
  pub nodes : List Node
  pub primary : Node
  pub replicas : List Node
  pub is_local : Bool
  pub is_primary : Bool

abbrev pub read_policy_primary : Bytes
read_policy_primary = codes "primary"

abbrev pub read_policy_local : Bytes
read_policy_local = codes "local"

abbrev pub no_node : Node
no_node = record { id = []; addr = [] }

abbrev pub is_text : Bytes → Bool
is_text [] = false
is_text (c ∷ s) = true

-- The loop of getRoute: whether this node is among the nodes, and the others.
unfoldable pub others : Bytes → List Node → List Node
others id [] = []
others id (n ∷ nodes) = let rest = others id nodes in if bytes_eq n.id id then rest else n ∷ rest

unfoldable pub is_among : Bytes → List Node → Bool
is_among id [] = false
is_among id (n ∷ nodes) = bytes_eq n.id id || is_among id nodes

abbrev pub first_or_zero : List Node → Node
first_or_zero [] = no_node
first_or_zero (n ∷ nodes) = n

abbrev pub is_first : Bytes → List Node → Bool
is_first id [] = false
is_first id (n ∷ nodes) = bytes_eq n.id id

unfoldable pub route_of : Bytes → List Node → RouteInfo
unfolding others is_among
route_of self nodes = record {
  nodes = nodes;
  primary = first_or_zero nodes;
  replicas = others self nodes;
  is_local = is_among self nodes;
  is_primary = is_first self nodes;
}

-- GetAllNodes: each identifier once, with the entry that comes first.
unfoldable pub all_nodes : NatMap Node → List Node
all_nodes [] = []
all_nodes ((h, n) ∷ nodes) = n ∷ others n.id (all_nodes nodes)

-- The int32 that a factor is stored as; GetN gives no node for a negative one, which is 0 here.
abbrev pub int32_part : ℕ → ℕ
int32_part n = let low = n % 2 ^ 32 in if ltb low (2 ^ 31) then low else 0

-- SetReplicationFactor; a factor below one is one.
abbrev pub stored_factor : ℤ → ℕ
stored_factor (pos n) = if leb 1 n then int32_part n else 1
stored_factor (negsuc n) = 1

abbrev pub set_replication_factor : Cluster → ℤ → Cluster
set_replication_factor c n = record c { replication_factor = stored_factor n }

-- SetReadPolicy
abbrev pub set_read_policy : Cluster → Bytes → Cluster
set_read_policy c p = record c { read_policy = if is_text p then p else read_policy_local }

abbrev pub knows : Cluster → Bytes → Bool
knows c id = has_id c.ring.nodes id

-- GetWriteNode: the first node of the route that is another one.
abbrev first_of : List Node → Option Node
first_of [] = none
first_of (n ∷ nodes) = some n

abbrev pub next_counter : Cluster → ℕ
next_counter c = (c.read_counter + 1) % 2 ^ 64

abbrev nth_or_self : Cluster → Option Node → Node
nth_or_self c none = c.self
nth_or_self c (some n) = n

-- The round robin, which counts where there are nodes.
abbrev pub next_read : Cluster → List Node → Cluster × Node
next_read c [] = (c, c.self)
next_read c (n ∷ nodes) = (
  record c { read_counter = next_counter c },
  nth_or_self c (get_elem? (n ∷ nodes) (next_counter c % length (n ∷ nodes))),
)

abbrev primary_or_self : Cluster → Node → Node
primary_or_self c primary = if is_text primary.id then primary else c.self

-- The test of the command's first word.
abbrev pub is_change : Bytes → Bool
is_change command =
    bytes_eq command (codes "WRITE")
    || bytes_eq command (codes "SET")
    || bytes_eq command (codes "DELETE")

-- The loop of ForwardWithFailover over the nodes: the result, and the nodes that were sent the
-- command. `mutates` is the test of the command's first word.
unfoldable pub try_nodes :
    (Node → Result Bytes) → Bytes → Bool → Bytes → List Node → Result Bytes × List Node
try_nodes send self mutates last [] = (err (codes "all nodes failed: " ++ last), [])
try_nodes send self mutates last (n ∷ nodes) =
    let skip = try_nodes send self mutates last nodes in
    if bytes_eq n.id self then skip else elim (send n) [
      | ok data' ↦ (ok data', n ∷ [])
      | err e ↦
          let (result, asked) = try_nodes send self mutates e nodes in
          if mutates then (err e, n ∷ []) else (result, n ∷ asked)
    ]

module _ (hash : Bytes → ℕ) where
  -- New: this node is always on the ring.
  unfoldable pub new : Node → ℕ → ℕ → Cluster
  unfolding add
  new self replicas factor = record {
    self = self;
    ring = add hash (new_ring replicas) self;
    replication_factor = int32_part factor;
    read_policy = read_policy_local;
    read_counter = 0;
  }

  abbrev pub add_node : Cluster → Node → Cluster
  add_node c node = record c { ring = add hash c.ring node }

  abbrev pub remove_node : Cluster → Bytes → Cluster
  remove_node c id = record c { ring = remove hash c.ring id }

  unfoldable pub get_route : Cluster → Bytes → RouteInfo
  unfolding route_of
  get_route c metric = route_of c.self.id (get_n hash c.ring metric c.replication_factor)

  abbrev pub is_primary_for : Cluster → Bytes → Bool
  is_primary_for c metric = (get_route c metric).is_primary

  abbrev pub is_local : Cluster → Bytes → Bool
  is_local c metric = (get_route c metric).is_local

  abbrev pub get_primary_node : Cluster → Bytes → Option Node
  get_primary_node c metric =
      let primary = (get_route c metric).primary in
      if is_text primary.id then some primary else none

  abbrev pub get_write_node : Cluster → Bytes → Option Node
  get_write_node c metric = first_of (get_route c metric).replicas

  -- GetReadNode by the policy; every policy but two is the round robin, which counts.
  unfoldable pub get_read_node : Cluster → Bytes → Cluster × Node
  unfolding get_route
  get_read_node c metric =
      let route = get_route c metric in
      if bytes_eq c.read_policy read_policy_primary
      then (c, primary_or_self c route.primary)
      else if bytes_eq c.read_policy read_policy_local
      then (c, if route.is_local then c.self else primary_or_self c route.primary)
      else next_read c route.nodes

  -- ForwardToPrimary: the node that the command goes to, or the error.
  unfoldable pub forward_to_primary : Cluster → Bytes → Result Node
  unfolding get_route
  forward_to_primary c metric =
      let primary = (get_route c metric).primary in
      if is_text primary.id
      then (if bytes_eq primary.id c.self.id
          then err (codes "self is primary, should not forward")
          else ok primary)
      else err (codes "no primary found for metric: " ++ metric)

  -- ForwardWithFailover. `send` is pool.Send, `first_word` is strings.Fields(query)[0] and
  -- `to_upper` strings.ToUpper. The error that %v prints where no node was tried is <nil>.
  unfoldable pub forward_with_failover :
      (Node → Bytes → Result Bytes)
      → (Bytes → Bytes)
      → (Bytes → Bytes)
      → Cluster
      → Bytes
      → Bytes
      → Result Bytes × List Node
  unfolding try_nodes get_route
  forward_with_failover send to_upper first_word c metric query =
      try_nodes (λ n. send n (query ++ codes " __local")) c.self.id
        (is_change (to_upper (first_word query))) (codes "<nil>") (get_route c metric).nodes
