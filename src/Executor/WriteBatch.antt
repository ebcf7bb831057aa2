-- ===== src/Executor/WriteBatch.antt =====
-- executeWriteBatch of internal/query/pebble_batch.go: the writes of a batch under one commit. The
-- indexed batch is read through what it has staged.
pub mod Staging
pub mod Places
pub mod Outcomes
pub mod Accounts
use flamedb.Base.{
  ℕ, suc, Bool, true, false, not, ◌&&◌, ◌||◌, Option, none, some, List, [], ◌∷◌, ◌++◌,
  if◌then◌else◌, length, ◌==◌,
}
use flamedb.Base.Bytes.{Bytes, codes, bytes_eq}
use flamedb.Base.Int.{ℤ, pos, ltb_ℤ}
use flamedb.Base.Map.{Map, get, set as assign}
use flamedb.Executor.{boards_of, has_receipt, is_found, event_of, stored, lock_keys}
use flamedb.Kv.{Kv, Batch, put, settle}
use flamedb.Leaderboard.{Scores, stage_value_from_current, canonical}
use flamedb.Leaderboard.Shared.{SharedLookup, shared_get, has_text, entities_of}
use flamedb.Query.Types.{Query, QueryType, write, Result, ok, err, ◌>>=◌}
use flamedb.Query.Validate.{is_zero, not_finite}
use flamedb.Storage.Codec.{Json}
use flamedb.Storage.Event.{Event}
use flamedb.Storage.Events.{stage_event}
use flamedb.Storage.Keys.{board_metric, receipt_key}

-- query.BatchItemError
pub record BatchItemError : Type 0 where
  pub index : ℕ
  pub error : Bytes

-- query.BatchResult without its timing.
pub record BatchResult : Type 0 where
  pub ok : Bool
  pub accepted : ℕ
  pub failed : ℕ
  pub errors : List BatchItemError

-- An item that may be written, with its place in the batch.
pub record Item : Type 0 where
  pub index : ℕ
  pub query : Query

unfoldable pub has_index : List BatchItemError → ℕ → Bool
has_index [] i = false
has_index (e ∷ errors) i = e.index == i || has_index errors i

-- `fail`: an item fails once.
abbrev pub fail : List BatchItemError → ℕ → Bytes → List BatchItemError
fail errors i message =
    if has_index errors i then errors else errors ++ record { index = i; error = message } ∷ []

abbrev is_write : QueryType → Bool
is_write write = true
is_write _ = false

abbrev pub invalid_item : Query → Option Bytes
invalid_item q =
    if not (is_write q.type)
    then some (codes "batch only supports WRITE")
    else if not_finite q.value || ltb_ℤ q.timestamp (pos 0)
    then some (codes "invalid write value or timestamp")
    else none

abbrev pub timed : Query → ℤ → Query
timed q now = if is_zero q.timestamp then record q { timestamp = now } else q

-- The first loop, from place `i` on; `clock` are the timestamps of nextTimestamp. The items that may
-- be written, and the errors.
unfoldable pub admit :
    (ℕ → ℤ) → ℕ → List Query → List BatchItemError → List Item × List BatchItemError
unfolding has_index
admit clock i [] errors = ([], errors)
admit clock i (q ∷ queries) errors = elim (invalid_item q) [
  | some message ↦ admit clock (suc i) queries (fail errors i message)
  | none ↦
      let (items, rest) = admit clock (suc i) queries errors in
      (record { index = i; query = timed q (clock i) } ∷ items, rest)
]

-- The entities that the batch may look up, by board.
abbrev with_target : Map (List Bytes) → Bytes → Bytes → Map (List Bytes)
with_target targets metric entity =
    let old = entities_of (get targets metric) in
    assign targets metric (if has_text old entity then old else old ++ entity ∷ [])

unfoldable pub add_targets : Bytes → Map Bytes → Map (List Bytes) → Map (List Bytes)
unfolding has_text
add_targets metric [] targets = targets
add_targets metric ((board, entity) ∷ boards) targets =
    add_targets metric boards (with_target targets (board_metric metric board) entity)

unfoldable pub targets_of : List Item → Map (List Bytes) → Map (List Bytes)
unfolding add_targets
targets_of [] targets = targets
targets_of (item ∷ items) targets =
    targets_of items (add_targets item.query.metric (boards_of item.query) targets)

-- The keys that the batch locks.
unfoldable pub batch_locks : List Item → List Bytes
batch_locks [] = []
batch_locks (item ∷ items) = lock_keys item.query ++ batch_locks items

-- scoreState, with the key in front.
pub record ScoreState : Type 0 where
  pub metric : Bytes
  pub entity : Bytes
  pub initial : ℕ
  pub current : ℕ
  pub changed : Bool

abbrev same_score : ScoreState → Bytes → Bytes → Bool
same_score s metric entity = bytes_eq s.metric metric && bytes_eq s.entity entity

unfoldable pub find_score : List ScoreState → Bytes → Bytes → Option ScoreState
find_score [] metric entity = none
find_score (s ∷ states) metric entity =
    if same_score s metric entity then some s else find_score states metric entity

-- The new values of one item are taken over.
unfoldable pub change_score : List ScoreState → Bytes → Bytes → ℕ → List ScoreState
change_score [] metric entity value = []
change_score (s ∷ states) metric entity value =
    if same_score s metric entity
    then record s { current = value; changed = true } ∷ states
    else s ∷ change_score states metric entity value

-- One of an item's new scores: metric, entity and value.
pub record NextScore : Type 0 where
  pub metric : Bytes
  pub entity : Bytes
  pub value : ℕ

unfoldable pub change_scores : List ScoreState → List NextScore → List ScoreState
unfolding change_score
change_scores states [] = states
change_scores states (n ∷ next) = change_scores (change_score states n.metric n.entity n.value) next

-- What the callback has done so far.
pub record Progress : Type 0 where
  pub batch : Batch
  pub lookup : SharedLookup
  pub states : List ScoreState
  pub accepted : List ℕ
  pub committed : List Event
  pub errors : List BatchItemError
