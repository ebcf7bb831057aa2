-- ===== src/Cluster/Ring.antt =====
-- internal/cluster/ring.go: consistent hashing with virtual nodes. hashKey, the first eight bytes of
-- SHA-256, is the parameter `hash`.
pub mod Owner
pub mod Invariant
pub mod Taken
pub mod Replicas
use flamedb.Base.{
  ℕ, zero, suc, ◌+◌, ◌%◌, Bool, true, false, ◌||◌, Option, none, some, List, [], ◌∷◌, ◌++◌, leb,
  ltb, ◌==◌, if◌then◌else◌, length, get_elem?,
}
use flamedb.Base.Bytes.{Bytes, bytes_eq}
use flamedb.Base.Decimal.{decimal}
use flamedb.Base.NatMap.{NatMap, get, set, delete, keys}
use flamedb.Base.Sort.{sort}

pub record Node : Type 0 where
  pub id : Bytes
  pub addr : Bytes

pub record Ring : Type 0 where
  pub nodes : NatMap Node
  pub hashes : List ℕ
  pub replicas : ℕ

-- NewRing
abbrev pub new_ring : ℕ → Ring
new_ring replicas = record { nodes = []; hashes = []; replicas = replicas }

-- fmt.Sprintf("%s:%d", id, i)
abbrev pub label : Bytes → ℕ → Bytes
label id i = id ++ b':' ∷ decimal i

-- The test of Add's first loop: a node of the ring has the identifier.
unfoldable pub has_id : NatMap Node → Bytes → Bool
has_id [] id = false
has_id ((h, node) ∷ nodes) id = bytes_eq node.id id || has_id nodes id

-- sort.Search: the first of the sorted hashes that is not below `h`, or their number.
unfoldable pub search_from : List ℕ → ℕ → ℕ
search_from [] h = 0
search_from (k ∷ ks) h = if leb h k then 0 else suc (search_from ks h)

-- The zero value where a key is missing.
abbrev pub node_or_zero : Option Node → Node
node_or_zero none = record { id = []; addr = [] }
node_or_zero (some node) = node

abbrev pub node_of : Ring → Option ℕ → Node
node_of r none = record { id = []; addr = [] }
node_of r (some h) = node_or_zero (get r.nodes h)

-- r.nodes[r.keys[pos]]
abbrev pub node_at : Ring → ℕ → Node
node_at r pos = node_of r (get_elem? r.hashes pos)

unfoldable pub seen : List Node → Bytes → Bool
seen [] id = false
seen (node ∷ nodes) id = bytes_eq node.id id || seen nodes id

-- The loop of GetN from round `i` on: the nodes not seen yet, until there are `n`.
unfoldable pub walk : Ring → ℕ → ℕ → ℕ → ℕ → List Node → List Node
unfolding seen
walk r n idx zero i found = found
walk r n idx (suc left) i found =
    let node = node_at r ((idx + i) % length r.hashes) in
    let found' = if seen found node.id then found else found ++ node ∷ [] in
    let rest = walk r n idx left (suc i) found' in if leb n (length found') then found' else rest

-- The loop of Remove.
unfoldable pub displace : List ℕ → NatMap Node → NatMap Node
displace [] nodes = nodes
displace (h ∷ hs) nodes = displace hs (delete nodes h)

module _ (hash : Bytes → ℕ) where
  -- The loop of Add, from replica `i` on, `left` rounds.
  unfoldable pub place : ℕ → ℕ → Node → NatMap Node → NatMap Node
  place zero i node nodes = nodes
  place (suc left) i node nodes = place left (suc i) node (set nodes (hash (label node.id i)) node)

  unfoldable pub labels : ℕ → ℕ → Bytes → List ℕ
  labels zero i id = []
  labels (suc left) i id = hash (label id i) ∷ labels left (suc i) id

  unfoldable pub add : Ring → Node → Ring
  unfolding has_id place labels sort
  add r node = if has_id r.nodes node.id then r else record r {
    nodes = place r.replicas 0 node r.nodes;
    hashes = sort (r.hashes ++ labels r.replicas 0 node.id);
  }

  unfoldable pub remove : Ring → Bytes → Ring
  unfolding displace labels sort keys
  remove r id =
      let nodes = displace (labels r.replicas 0 id) r.nodes in
      record r { nodes = nodes; hashes = sort (keys nodes) }

  -- Where the walk for a metric starts: past the last hash it wraps around.
  unfoldable pub start : Ring → Bytes → ℕ
  unfolding search_from
  start r metric =
      let idx = search_from r.hashes (hash metric) in if leb (length r.hashes) idx then 0 else idx

  unfoldable pub get_node : Ring → Bytes → Option Node
  unfolding start
  get_node r metric = if length r.hashes == 0 then none else some (node_at r (start r metric))

  -- A negative `n` is 0 here; both give no node.
  unfoldable pub get_n : Ring → Bytes → ℕ → List Node
  unfolding walk start
  get_n r metric n =
      if length r.hashes == 0 || leb n 0
      then []
      else walk r n (start r metric) (length r.hashes) 0 []
