-- ===== src/Storage/Keys.antt =====
-- The keys of the database: eventKey and indexKey of internal/storage/storage.go, cardKey,
-- cardCountKey and cardCacheKey of cardinality.go, lbKey, lbEntityKey and BoardMetric of
-- internal/aggregates/leaderboard.go, and the receipts of replicated writes.
pub mod Injective
pub mod Ranges
use flamedb.Base.{ℕ, ◌-◌, ◌^◌, [], ◌∷◌, ◌++◌, if◌then◌else◌}
use flamedb.Base.Bytes.{Bytes, codes}
use flamedb.Base.Int.{ℤ, to_word64}
use flamedb.Base.Words.{put_uint}
use flamedb.Keyspace.{component, colon, marker}

-- metric:timestamp
unfoldable pub event_key : Bytes → ℤ → Bytes
event_key metric timestamp = component metric ++ colon ∷ put_uint 8 (to_word64 timestamp)

-- idx:metric:tagkey:tagvalue:timestamp
unfoldable pub index_key : Bytes → Bytes → Bytes → ℤ → Bytes
index_key metric tag_key tag_value timestamp =
    codes "idx"
    ++ colon
      ∷ (component metric
          ++ colon
            ∷ (component tag_key
                ++ colon ∷ (tag_value ++ colon ∷ put_uint 8 (to_word64 timestamp))))

-- card:metric:tagkey:tagvalue
unfoldable pub card_key : Bytes → Bytes → Bytes → Bytes
card_key metric tag_key tag_value =
    codes "card" ++ colon ∷ (component metric ++ colon ∷ (component tag_key ++ colon ∷ tag_value))

-- card-count:metric:tagkey
unfoldable pub card_count_key : Bytes → Bytes → Bytes
card_count_key metric tag_key =
    codes "card-count" ++ colon ∷ (component metric ++ colon ∷ component tag_key)

-- A named board has a metric component of its own.
unfoldable pub board_metric : Bytes → Bytes → Bytes
board_metric metric [] = metric
board_metric metric (b ∷ board) = metric ++ marker ∷ b ∷ board

-- lb:metric:inverted score:entity
unfoldable pub lb_key : Bytes → Bytes → ℕ → Bytes
lb_key metric entity_id value =
    codes "lb"
    ++ colon ∷ (component metric ++ colon ∷ (put_uint 8 (2 ^ 64 - 1 - value) ++ colon ∷ entity_id))

-- lb-entity:metric:entity
unfoldable pub lb_entity_key : Bytes → Bytes → Bytes
lb_entity_key metric entity_id =
    codes "lb-entity" ++ colon ∷ (component metric ++ colon ∷ entity_id)

-- repl-applied:operation
unfoldable pub receipt_key : Bytes → Bytes
receipt_key operation_id = codes "repl-applied" ++ colon ∷ operation_id

-- The key of the cardinality cache: metric, tag key and tag value with zero bytes between.
unfoldable pub card_cache_key : Bytes → Bytes → Bytes → Bytes
card_cache_key metric tag_key tag_value = metric ++ 0 ∷ (tag_key ++ 0 ∷ tag_value)
