-- ===== src/Storage/Reads.antt =====
-- Reading and deleting the events of a range of time, internal/storage/storage.go: ReadPage and
-- ScanDeleteWhere. `cardinality` is GetCardinality at the metric. The snapshot is the store as it
-- is when the method is called.
pub mod Page
pub mod Selected
use flamedb.Base.{
  ℕ, suc, ◌-◌, Bool, true, false, ◌&&◌, Option, none, some, List, [], ◌∷◌, ◌++◌, if◌then◌else◌, ltb,
  leb, length, reverse, not,
}
use flamedb.Base.Bytes.{Bytes, bytes_eq}
use flamedb.Base.Int.{ℤ, pos}
use flamedb.Base.Map.{Map, get}
use flamedb.Kv.{Kv, Batch, del, Row}
use flamedb.Storage.Cardinality.{best_index_tag}
use flamedb.Storage.Codec.{Json, Result, ok, err, ◌>>=◌, decode_event_value, invalid_pagination}
use flamedb.Storage.Event.{Event}
use flamedb.Storage.Events.{index_dels}
use flamedb.Storage.Keys.{event_key, index_key}

-- One tag of the filter: the event has it with this value.
abbrev pub has_value : Option Bytes → Bytes → Bool
has_value none v = false
has_value (some actual) v = bytes_eq actual v

-- The loop over the filter.
unfoldable pub matches : Event → Map Bytes → Bool
matches e [] = true
matches e ((k, v) ∷ tags) = if has_value (get e.tags k) v then matches e tags else false

abbrev pub is_indexed : Map Bytes → Bool
is_indexed [] = false
is_indexed (tag ∷ tags) = true

module _ {Db : Type 0} (kv : Kv Db) (json : Json) (cardinality : Bytes → ℕ) where
  -- The rows of the range: the events' own, or those of the best tag's index.
  unfoldable pub rows_between : Db → Bytes → ℤ → ℤ → Map Bytes → List Row
  rows_between db metric from to [] = kv.scan db (event_key metric from) (event_key metric to)
  rows_between db metric from to (tag ∷ tags) =
      let (k, v) = best_index_tag cardinality (tag ∷ tags) in
      kv.scan db (index_key metric k v from) (index_key metric k v to)

  -- The event's own row that a row stands for, if it is there.
  unfoldable pub primary_row : Db → Bool → Row → Option Row
  primary_row db false row = some row
  primary_row db true (k, primary) = elim (kv.find db primary) [
    | none ↦ none
    | some bytes ↦ some (primary, bytes)
  ]

  -- The part that the two loops share: the key and the event of a row, and none where the row's
  -- event is gone or the filter does not let it through.
  unfoldable pub matching_event : Db → Bytes → Map Bytes → Row → Result (Option (Bytes × Event))
  unfolding primary_row matches
  matching_event db metric tags row = elim (primary_row db (is_indexed tags) row) [
    | none ↦ ok none
    | some (k, bytes) ↦ decode_event_value json bytes metric >>= λ e.
        ok (if matches e tags then some (k, e) else none)
  ]

  -- The loop of ReadPage.
  unfoldable pub read_rows :
      Db → Bytes → Map Bytes → ℕ → List Row → ℕ → List Event → Result (List Event)
  unfolding matching_event
  read_rows db metric tags limit [] offset events = ok events
  read_rows db metric tags limit (row ∷ rows) offset events =
      elim (matching_event db metric tags row) [
        | err e ↦ err e
        | ok none ↦ read_rows db metric tags limit rows offset events
        | ok (some (k, e)) ↦
            let skipped = read_rows db metric tags limit rows (offset - 1) events in
            let taken = events ++ e ∷ [] in
            let rest = read_rows db metric tags limit rows offset taken in
            if ltb 0 offset
            then skipped
            else if ltb 0 limit && leb limit (length taken)
            then ok taken
            else rest
      ]

  unfoldable pub read_page : Db → Bytes → ℤ → ℤ → Map Bytes → ℤ → ℤ → Bool → Result (List Event)
  unfolding read_rows rows_between
  read_page db metric from to tags (pos limit) (pos offset) desc =
      let rows = rows_between db metric from to tags in
      read_rows db metric tags limit (if desc then reverse rows else rows) offset []
  read_page db metric from to tags limit offset desc = err invalid_pagination

  -- ReadRange, ReadRangeDesc, ReadRangeWithTags and ReadRangeWithTagsDesc
  unfoldable pub read_range : Db → Bytes → ℤ → ℤ → Result (List Event)
  unfolding read_page
  read_range db metric from to = read_page db metric from to [] (pos 0) (pos 0) false

  unfoldable pub read_range_desc : Db → Bytes → ℤ → ℤ → ℤ → ℤ → Result (List Event)
  unfolding read_page
  read_range_desc db metric from to limit offset = read_page db metric from to [] limit offset true

  unfoldable pub read_range_with_tags : Db → Bytes → ℤ → ℤ → Map Bytes → Result (List Event)
  unfolding read_page
  read_range_with_tags db metric from to tags =
      read_page db metric from to tags (pos 0) (pos 0) false

  unfoldable pub read_range_with_tags_desc :
      Db → Bytes → ℤ → ℤ → Map Bytes → ℤ → ℤ → Result (List Event)
  unfolding read_page
  read_range_with_tags_desc db metric from to tags limit offset =
      read_page db metric from to tags limit offset true

  -- The loop of ScanDeleteWhere: the count, and the deletions that are staged.
  unfoldable pub delete_rows : Db → Bytes → Map Bytes → List Row → Result (ℕ × Batch)
  unfolding matching_event
  delete_rows db metric tags [] = ok (0, [])
  delete_rows db metric tags (row ∷ rows) =
      let rest = delete_rows db metric tags rows in
      elim (matching_event db metric tags row) [
        | err e ↦ err e
        | ok none ↦ rest
        | ok (some (k, e)) ↦ rest >>= λ (n, ops).
            ok (suc n, index_dels (record e { metric = metric }) e.tags ++ del k ∷ ops)
      ]

  -- Without a batch the events are only counted.
  unfoldable pub scan_delete_where :
      Db → Option Batch → Bytes → ℤ → ℤ → Map Bytes → Result (ℕ × Option Batch)
  unfolding delete_rows rows_between
  scan_delete_where db batch metric from to tags =
      delete_rows db metric tags (rows_between db metric from to tags) >>= λ (n, ops).
      ok (n, elim batch [ none ↦ none | some b ↦ some (b ++ ops) ])

  -- StageDeleteWhere and StageDeleteRange
  unfoldable pub stage_delete_where : Db → Batch → Bytes → ℤ → ℤ → Map Bytes → Result (Option Batch)
  unfolding scan_delete_where
  stage_delete_where db batch metric from to tags =
      scan_delete_where db (some batch) metric from to tags >>= λ r. ok r.1

  unfoldable pub stage_delete_range : Db → Batch → Bytes → ℤ → ℤ → Result (Option Batch)
  unfolding stage_delete_where
  stage_delete_range db batch metric from to = stage_delete_where db batch metric from to []
