-- ===== src/Storage/Events.antt =====
-- Writing events, internal/storage/storage.go: WriteEventsWithReceipts and StageEvent.
pub mod Applied
use flamedb.Base.{ℕ, Bool, true, false, Option, none, some, List, [], ◌∷◌, ◌++◌, if◌then◌else◌, map}
use flamedb.Base.Bytes.{Bytes}
use flamedb.Base.Map.{Map}
use flamedb.Kv.{Kv, Op, Batch, put, del, settle}
use flamedb.Storage.Codec.{Json, Result, ok, err, ◌>>=◌, encode_event_value, decode_event_value}
use flamedb.Storage.Event.{Event}
use flamedb.Storage.Keys.{event_key, index_key, receipt_key}

-- Events as WriteEventsWithReceipts takes them: each with its receipt, empty where it has none. A
-- receipt past the events' number is never read.
unfoldable pub with_receipts : List Event → List Bytes → List (Event × Bytes)
with_receipts [] receipts = []
with_receipts (e ∷ events) [] = (e, []) ∷ with_receipts events []
with_receipts (e ∷ events) (r ∷ receipts) = (e, r) ∷ with_receipts events receipts

unfoldable pub index_puts : Event → Map Bytes → Batch
index_puts e [] = []
index_puts e ((k, v) ∷ tags) =
    put (index_key e.metric k v e.timestamp) (event_key e.metric e.timestamp) ∷ index_puts e tags

unfoldable pub index_dels : Event → Map Bytes → Batch
index_dels e [] = []
index_dels e ((k, v) ∷ tags) = del (index_key e.metric k v e.timestamp) ∷ index_dels e tags

-- The receipt that one event adds to the batch.
abbrev pub receipt_put : Bytes → Batch
receipt_put [] = []
receipt_put (b ∷ receipt) = put (receipt_key (b ∷ receipt)) (1 ∷ []) ∷ []

abbrev pub is_present : Option Bytes → Bool
is_present none = false
is_present (some v) = true

module _ (json : Json) where
  -- The batch operations of one event and its index.
  abbrev pub event_puts : Event → Result Batch
  event_puts e = encode_event_value json e >>= λ val.
      ok (put (event_key e.metric e.timestamp) val ∷ index_puts e e.tags)

module _ {Db : Type 0} (kv : Kv Db) (json : Json) where
  -- The event was applied before: its receipt is in the store.
  abbrev pub is_applied : Db → Bytes → Bool
  is_applied db [] = false
  is_applied db (b ∷ receipt) = is_present (kv.find db (receipt_key (b ∷ receipt)))

  -- The loop that fills the batch.
  unfoldable pub events_batch : Db → List (Event × Bytes) → Result Batch
  unfolding index_puts
  events_batch db [] = ok []
  events_batch db ((e, receipt) ∷ events) =
      let rest = events_batch db events in
      if is_applied db receipt
      then rest
      else (event_puts json e >>= λ puts. rest >>= λ ops. ok (receipt_put receipt ++ puts ++ ops))

  -- The store afterwards, and the events that the cardinality updater is told of: all of them.
  unfoldable pub write_events_with_receipts :
      Db → List Event → List Bytes → Result (Db × List Event)
  unfolding events_batch with_receipts
  write_events_with_receipts db [] receipts = ok (db, [])
  write_events_with_receipts db (e ∷ events) receipts =
      events_batch db (with_receipts (e ∷ events) receipts) >>= λ ops.
      ok (kv.commit db ops, e ∷ events)

  -- WriteEvents and WriteEvent
  unfoldable pub write_events : Db → List Event → Result (Db × List Event)
  unfolding write_events_with_receipts
  write_events db events = write_events_with_receipts db events []

  unfoldable pub write_event : Db → Event → Result (Db × List Event)
  unfolding write_events
  write_event db e = write_events db (e ∷ [])

  -- The deletions of the index entries of the event that is overwritten.
  unfoldable pub stale_dels : Event → Option Bytes → Result Batch
  unfolding index_dels
  stale_dels e none = ok []
  stale_dels e (some old) =
      decode_event_value json old e.metric >>= λ previous. ok (index_dels e previous.tags)

  -- An indexed batch is read through; another is not, and the store is read.
  unfoldable pub stage_event : Db → Bool → Batch → Event → Result Batch
  unfolding stale_dels index_puts
  stage_event db indexed batch e = encode_event_value json e >>= λ val.
      let key = event_key e.metric e.timestamp in
      let stored = kv.find db key in
      stale_dels e (if indexed then settle batch key stored else stored) >>= λ dels.
      ok (batch ++ dels ++ put key val ∷ index_puts e e.tags)
