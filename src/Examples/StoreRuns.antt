-- ===== src/Examples/StoreRuns.antt =====
-- Writes, reads and transfers of events at small inputs.
use flamedb.Base.{
  ℕ, zero, suc, ◌≡◌, ◌≤◌, ◌<◌, ◌+◌, refl, arith, true, false, Bool, Option, none, some, [], ◌∷◌,
  ◌++◌, if◌then◌else◌, length, List, reverse, In, ◌&&◌, ◌%◌, ◌*◌, ◌-◌, ◌/◌, inr,
}
use flamedb.Base.Bytes.{Bytes, codes, bytes_eq, bytes_eq_refl}
use flamedb.Base.Int.{ℤ, pos, ltb_ℤ}
use flamedb.Base.Map.{Map, get}
use flamedb.Base.Window.{window}
use flamedb.Base.Words.{put_uint}
use flamedb.Kv.{Kv, Batch}
use flamedb.Kv.Memory.{memory, memory-IsStore}
use flamedb.Storage.Codec.{Json, Result, ok, err}
use flamedb.Storage.Event.{Event}
use flamedb.Storage.Events.{write_events_with_receipts}
use flamedb.Storage.Events.Applied.{write_events_with_receipts_twice}
use flamedb.Storage.Keys.{event_key}
use flamedb.Storage.Keys.Injective.{
  Family, idx, lb, lb_entity, card, card_count, repl_applied, repl_outbox,
}
use flamedb.Storage.Reads.{read_page, scan_delete_where, read_range_with_tags, rows_between}
use flamedb.Storage.Reads.Page.{scan_delete_where-read_range_with_tags}
use flamedb.Storage.Reads.Selected.{Selects, taken, no_rows, IsRange, read_page_lem}
use flamedb.Storage.Transfer.{import_rebalance_data, export_metric_data}
use flamedb.Storage.Transfer.Moved.{import-export_metric_data}

abbrev pub no_json : Json
no_json = record { marshal = λ e. none; unmarshal = λ b. none }

abbrev cpu : Bytes
cpu = codes "cpu"

abbrev reading : Event
reading = record {
  timestamp = pos 7;
  metric = cpu;
  value = 5;
  tags = (codes "host", codes "a") ∷ [];
}

-- The result of a write, and the store where it fails.
abbrev stored_of : Result (Map Bytes × List Event) → Map Bytes
stored_of (ok (db, told)) = db
stored_of (err e) = []

abbrev one_event : Map Bytes
one_event =
    stored_of (write_events_with_receipts memory no_json [] (reading ∷ []) (codes "op" ∷ []))

write_events_with_receipts_twice_example :
    (db'' : Map Bytes) × (write_events_with_receipts memory no_json one_event
        (reading ∷ [])
        (codes "op" ∷ [])
      ≡ ok (db'', reading ∷ []))
    × ((k : Bytes) → get db'' k ≡ get one_event k)
unfolding flamedb.Storage.Reads.Page.selected flamedb.Storage.Reads.rows_between
    flamedb.Kv.Memory.within flamedb.Kv.Memory.rows_of write_events_with_receipts get
    flamedb.Storage.Codec.encode_event_value flamedb.Kv.Memory.apply flamedb.Base.Map.set bytes_eq
    flamedb.Storage.Keys.receipt_key event_key flamedb.Keyspace.component
    flamedb.Base.Bytes.contains_byte flamedb.Storage.Keys.index_key flamedb.Base.Words.bytes_lt
    put_uint flamedb.Base.Bytes.contains_any flamedb.Base.Int.of_word64 flamedb.Base.Int.to_word64
    flamedb.Base.Words.read_from flamedb.Kv.Memory.insert flamedb.Storage.Cardinality.best_from
    flamedb.Storage.Cardinality.best_index_tag flamedb.Storage.Codec.decode_event_value
    flamedb.Storage.Codec.oversized flamedb.Storage.Codec.put_tags flamedb.Storage.Codec.read_tag
    flamedb.Storage.Codec.read_tags flamedb.Storage.Events.events_batch
    flamedb.Storage.Events.index_puts flamedb.Storage.Events.with_receipts
    flamedb.Storage.Reads.matches flamedb.Storage.Reads.matching_event
    flamedb.Storage.Reads.primary_row
write_events_with_receipts_twice_example =
    write_events_with_receipts_twice no_json memory-IsStore [] one_event (reading ∷ [])
      (reading ∷ []) (codes "op" ∷ []) tt refl

abbrev flat : Bytes → ℕ
flat tag = 1

scan_delete_where-read_range_with_tags_example :
    (read_range_with_tags memory no_json flat one_event cpu (pos 0) (pos 10) reading.tags
      ≡ ok (reading ∷ []))
    × ((staged : Option Batch) × (scan_delete_where memory no_json flat one_event none cpu
            (pos 0)
            (pos 10)
            reading.tags
          ≡ ok (1, staged)))
unfolding flamedb.Storage.Reads.Page.selected flamedb.Storage.Reads.rows_between
    flamedb.Kv.Memory.within flamedb.Kv.Memory.rows_of write_events_with_receipts get
    flamedb.Storage.Codec.encode_event_value flamedb.Kv.Memory.apply flamedb.Base.Map.set bytes_eq
    flamedb.Storage.Keys.receipt_key event_key flamedb.Keyspace.component
    flamedb.Base.Bytes.contains_byte flamedb.Storage.Keys.index_key flamedb.Base.Words.bytes_lt
    put_uint flamedb.Base.Bytes.contains_any flamedb.Base.Int.of_word64 flamedb.Base.Int.to_word64
    flamedb.Base.Words.read_from flamedb.Kv.Memory.insert flamedb.Storage.Cardinality.best_from
    flamedb.Storage.Cardinality.best_index_tag flamedb.Storage.Codec.decode_event_value
    flamedb.Storage.Codec.oversized flamedb.Storage.Codec.put_tags flamedb.Storage.Codec.read_tag
    flamedb.Storage.Codec.read_tags flamedb.Storage.Events.events_batch
    flamedb.Storage.Events.index_puts flamedb.Storage.Events.with_receipts
    flamedb.Storage.Reads.matches flamedb.Storage.Reads.matching_event
    flamedb.Storage.Reads.primary_row
scan_delete_where-read_range_with_tags_example =
    scan_delete_where-read_range_with_tags memory no_json flat one_event none cpu (pos 0) (pos 10)
      reading.tags (reading ∷ []) refl

abbrev moved_of : Result (Map Bytes) → Map Bytes
moved_of (ok db) = db
moved_of (err e) = []

abbrev arrived : Map Bytes
arrived =
    moved_of (import_rebalance_data memory no_json [] (export_metric_data memory one_event cpu))

abbrev value_of : Option Bytes → Bytes
value_of none = []
value_of (some v) = v

Family-other : {w : Bytes} → Family w → bytes_eq w cpu ≡ false
unfolding bytes_eq
Family-other idx = refl
Family-other lb = refl
Family-other lb_entity = refl
Family-other card = refl
Family-other card_count = refl
Family-other repl_applied = refl
Family-other repl_outbox = refl

cpu-free : Family cpu → ⊥
cpu-free f = absurd (cc (bytes_eq_refl cpu, Family-other f))

import-export_metric_data_example :
    get arrived (event_key cpu (pos 7)) ≡ some (value_of (get one_event (event_key cpu (pos 7))))
unfolding flamedb.Storage.Reads.Page.selected flamedb.Storage.Reads.rows_between
    flamedb.Kv.Memory.within flamedb.Kv.Memory.rows_of write_events_with_receipts get
    flamedb.Storage.Codec.encode_event_value flamedb.Kv.Memory.apply flamedb.Base.Map.set bytes_eq
    flamedb.Storage.Keys.receipt_key event_key flamedb.Keyspace.component
    flamedb.Base.Bytes.contains_byte flamedb.Storage.Keys.index_key flamedb.Base.Words.bytes_lt
    put_uint flamedb.Base.Bytes.contains_any flamedb.Base.Int.of_word64 flamedb.Base.Int.to_word64
    flamedb.Base.Words.read_from flamedb.Kv.Memory.insert flamedb.Storage.Cardinality.best_from
    flamedb.Storage.Cardinality.best_index_tag flamedb.Storage.Codec.decode_event_value
    flamedb.Storage.Codec.oversized flamedb.Storage.Codec.put_tags flamedb.Storage.Codec.read_tag
    flamedb.Storage.Codec.read_tags flamedb.Storage.Events.events_batch
    flamedb.Storage.Events.index_puts flamedb.Storage.Events.with_receipts
    flamedb.Storage.Reads.matches flamedb.Storage.Reads.matching_event
    flamedb.Storage.Reads.primary_row flamedb.Storage.Transfer.import_rebalance_data
    flamedb.Storage.Transfer.import_raw_kvs flamedb.Storage.Transfer.rebuilt_rows
    flamedb.Storage.Transfer.raw_puts flamedb.Storage.Transfer.export_metric_data
    flamedb.Storage.Transfer.export_metric flamedb.Storage.Transfer.export_leaderboard
    flamedb.Storage.Transfer.owned_rows flamedb.Storage.Transfer.index_rows
import-export_metric_data_example =
    import-export_metric_data no_json memory-IsStore one_event [] arrived cpu (pos 7)
      (value_of (get one_event (event_key cpu (pos 7)))) (omega arith) cpu-free refl refl

cpu_read :
    Selects memory no_json one_event cpu reading.tags
      (rows_between memory no_json flat one_event cpu (pos 0) (pos 10) reading.tags)
      (reading ∷ [])
unfolding flamedb.Storage.Reads.Page.selected flamedb.Storage.Reads.rows_between
    flamedb.Kv.Memory.within flamedb.Kv.Memory.rows_of write_events_with_receipts get
    flamedb.Storage.Codec.encode_event_value flamedb.Kv.Memory.apply flamedb.Base.Map.set bytes_eq
    flamedb.Storage.Keys.receipt_key event_key flamedb.Keyspace.component
    flamedb.Base.Bytes.contains_byte flamedb.Storage.Keys.index_key flamedb.Base.Words.bytes_lt
    put_uint flamedb.Base.Bytes.contains_any flamedb.Base.Int.of_word64 flamedb.Base.Int.to_word64
    flamedb.Base.Words.read_from flamedb.Kv.Memory.insert flamedb.Storage.Cardinality.best_from
    flamedb.Storage.Cardinality.best_index_tag flamedb.Storage.Codec.decode_event_value
    flamedb.Storage.Codec.oversized flamedb.Storage.Codec.put_tags flamedb.Storage.Codec.read_tag
    flamedb.Storage.Codec.read_tags flamedb.Storage.Events.events_batch
    flamedb.Storage.Events.index_puts flamedb.Storage.Events.with_receipts
    flamedb.Storage.Reads.matches flamedb.Storage.Reads.matching_event
    flamedb.Storage.Reads.primary_row
cpu_read =
    taken (value_of (get one_event (event_key cpu (pos 7)))) reading (inr (λ e. cc, refl)) refl
      (refl, tt) no_rows

read_page_lem_example :
    IsRange memory one_event cpu
      (pos 0)
      (pos 10)
      reading.tags
      (rows_between memory no_json flat one_event cpu (pos 0) (pos 10) reading.tags)
    × (read_page memory no_json flat one_event cpu
          (pos 0)
          (pos 10)
          reading.tags
          (pos 1)
          (pos 0)
          true
        ≡ ok (window 1 0 (reverse (reading ∷ []))))
read_page_lem_example =
    read_page_lem memory no_json flat one_event cpu (pos 0) (pos 10) reading.tags 1 0 true
      (reading ∷ []) (refl, tt) cpu_read
