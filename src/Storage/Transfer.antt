-- ===== src/Storage/Transfer.antt =====
-- Moving a metric between nodes, internal/storage/storage.go: ExportMetric, ExportLeaderboard,
-- HasMetric, ImportRawKVs and the two over cluster.RebalanceData.
pub mod Moved
use flamedb.Base.{ℕ, Bool, true, false, List, [], ◌∷◌, ◌++◌, if◌then◌else◌, map, ◌==◌, drop, length}
use flamedb.Base.Bytes.{Bytes, codes, has_prefix}
use flamedb.Base.Map.{Map}
use flamedb.Keyspace.{component, decode_component, colon, marker}
use flamedb.Kv.{Kv, Batch, put, Row}
use flamedb.Storage.Codec.{Json, Result, ok, err, ◌>>=◌, decode_event_value}
use flamedb.Storage.Event.{Event}
use flamedb.Storage.Keys.{index_key}

-- cluster.RebalanceData; a raw pair is a row.
pub record RebalanceData : Type 0 where
  pub metric : Bytes
  pub events : List Row
  pub leaderboard : List Row

-- What stands before the first colon.
unfoldable pub before_colon : Bytes → Bytes
before_colon [] = []
before_colon (c ∷ s) = let rest = before_colon s in if c == colon then [] else c ∷ rest

-- strings.TrimPrefix
unfoldable pub trim_prefix : Bytes → Bytes → Bytes
trim_prefix s p = if has_prefix s p then drop (length p) s else s

unfoldable pub raw_puts : List Row → Batch
raw_puts [] = []
raw_puts ((k, v) ∷ rows) = put k v ∷ raw_puts rows

-- The rows of the boards that a metric owns, among those of all named boards.
unfoldable pub owned_rows : Bytes → Bytes → List Row → List Row
unfolding before_colon trim_prefix
owned_rows kind metric [] = []
owned_rows kind metric ((k, v) ∷ rows) =
    let rest = owned_rows kind metric rows in
    if has_prefix (decode_component (before_colon (trim_prefix k kind)))
      (decode_component metric ++ marker ∷ [])
    then (k, v) ∷ rest
    else rest

-- The index entries that ImportRebalanceData makes of one event.
unfoldable pub index_rows : Bytes → Event → Map Bytes → List Row
index_rows primary e [] = []
index_rows primary e ((k, v) ∷ tags) =
    (index_key e.metric k v e.timestamp, primary) ∷ index_rows primary e tags

unfoldable pub rebuilt_rows : Json → Bytes → List Row → Result (List Row)
unfolding index_rows
rebuilt_rows json metric [] = ok []
rebuilt_rows json metric ((k, bytes) ∷ rows) = decode_event_value json bytes metric >>= λ e.
    rebuilt_rows json metric rows >>= λ rest. ok (index_rows k e e.tags ++ rest)

module _ {Db : Type 0} (kv : Kv Db) where
  unfoldable pub export_metric : Db → Bytes → List Row
  export_metric db metric =
      kv.scan db (component metric ++ colon ∷ []) (component metric ++ b';' ∷ [])

  unfoldable pub has_metric : Db → Bytes → Bool
  has_metric db metric =
      elim (kv.scan db (component metric ++ colon ∷ []) (component metric ++ b';' ∷ [])) [
        | [] ↦ false
        | r ∷ rows ↦ true
      ]

  -- The rows from a prefix on, before the prefix with the byte 0xFF.
  abbrev pub prefix_rows : Db → Bytes → List Row
  prefix_rows db prefix = kv.scan db prefix (prefix ++ 0xFF ∷ [])

  unfoldable pub export_leaderboard : Db → Bytes → List Row
  unfolding owned_rows
  export_leaderboard db metric =
      let name = component metric in
      prefix_rows db (codes "lb:" ++ name ++ colon ∷ [])
      ++ (prefix_rows db (codes "lb-entity:" ++ name ++ colon ∷ [])
          ++ (owned_rows (codes "lb:") name (prefix_rows db (codes "lb:" ++ marker ∷ []))
              ++ owned_rows (codes "lb-entity:") name
                  (prefix_rows db (codes "lb-entity:" ++ marker ∷ []))))

  unfoldable pub import_raw_kvs : Db → List Row → Db
  unfolding raw_puts
  import_raw_kvs db rows = kv.commit db (raw_puts rows)

  unfoldable pub export_metric_data : Db → Bytes → RebalanceData
  unfolding export_metric export_leaderboard
  export_metric_data db metric = record {
    metric = metric;
    events = export_metric db metric;
    leaderboard = export_leaderboard db metric;
  }

  unfoldable pub import_rebalance_data : Json → Db → RebalanceData → Result Db
  unfolding import_raw_kvs rebuilt_rows
  import_rebalance_data json db data' = rebuilt_rows json data'.metric data'.events >>= λ rows.
      ok (import_raw_kvs db (data'.events ++ (data'.leaderboard ++ rows)))
