-- ===== src/Executor.antt =====
-- executeMutation of internal/query/executor.go, with AtomicMutationManyTimed of
-- internal/aggregates/leaderboard.go: one batch of scores, events and the receipt of a replicated
-- write. The locks make it one step on the store.
pub mod Replay
pub mod WriteBatch
pub mod Reads
pub mod Stripes
pub mod Series
use flamedb.Base.{
  ℕ, suc, ◌+◌, ◌%◌, ◌^◌, ◌-◌, Bool, true, false, not, ◌&&◌, ◌||◌, Option, none, some, List, [], ◌∷◌,
  ◌++◌, if◌then◌else◌, ◌==◌,
}
use flamedb.Base.Bytes.{Bytes, codes}
use flamedb.Base.Int.{ℤ, pos}
use flamedb.Base.Map.{Map, set as assign}
use flamedb.Base.Sort.{sort}
use flamedb.Keyspace.{colon}
use flamedb.Kv.{Kv, Batch, put}
use flamedb.Leaderboard.{Scores, get_score, has_score, stage_value, stage_value_from_current}
use flamedb.Query.Types.{Query, QueryType, write, set, delete, Result, ok, err, ◌>>=◌}
use flamedb.Query.Validate.{is_zero}
use flamedb.Storage.Codec.{
  Json, StorageError, empty_event, invalid_encoding, bad_json, invalid_pagination,
  Result as StorageResult, ok as done, err as failed,
}
use flamedb.Storage.Event.{Event}
use flamedb.Storage.Events.{stage_event}
use flamedb.Storage.Keys.{board_metric, receipt_key}
use flamedb.Storage.Reads.{scan_delete_where}

pub record DeleteResult : Type 0 where
  pub dry_run : Bool
  pub events : ℕ
  pub leaderboard_entries : ℕ

-- The batch that the callback leaves, what it counted, and whether it came to its end.
pub record Staged : Type 0 where
  pub batch : Batch
  pub deleted : DeleteResult
  pub applied : Bool

abbrev message : StorageError → Bytes
message empty_event = codes "empty event"
message invalid_encoding = codes "invalid event encoding"
message bad_json = codes "invalid JSON"
message invalid_pagination = codes "invalid pagination"

abbrev pub stored {ℓ} : {A : Type ℓ} → StorageResult A → Result A
stored (done a) = ok a
stored (failed e) = err (message e)

-- The locks of AtomicMutationManyTimed, in the order in which they are taken: the stripes of the
-- keys, each once. `hash` is FNV-1a.
unfoldable pub distinct : List ℕ → List ℕ
distinct [] = []
distinct (a ∷ []) = a ∷ []
distinct (a ∷ b ∷ rest) = let later = distinct (b ∷ rest) in if a == b then later else a ∷ later

unfoldable pub stripes_of : (Bytes → ℕ) → List Bytes → List ℕ
stripes_of hash [] = []
stripes_of hash (k ∷ keys) = hash k % 1024 ∷ stripes_of hash keys

unfoldable pub lock_order : (Bytes → ℕ) → List Bytes → List ℕ
unfolding stripes_of distinct
lock_order hash keys = distinct (sort (stripes_of hash keys))

-- The boards of a query, each with its entity.
unfoldable pub boards_of : Query → Map Bytes
boards_of q = set_all (if q.update_lb then ([], q.lb_entity_id) ∷ [] else []) q.lb_entities
  where
    set_all : Map Bytes → Map Bytes → Map Bytes
    set_all boards [] = boards
    set_all boards ((board, entity) ∷ more) = set_all (assign boards board entity) more

abbrev pub is_nil {ℓ} : {A : Type ℓ} → List A → Bool
is_nil [] = true
is_nil (a ∷ rest) = false

-- A replica's write with an operation's name leaves a receipt.
abbrev pub has_receipt : Query → Bool
has_receipt q = q.is_replica && not (is_nil q.operation_id)

abbrev board_locks : Bytes → Map Bytes → List Bytes
board_locks metric [] = []
board_locks metric ((board, entity) ∷ boards) =
    (board_metric metric board ++ colon ∷ entity) ∷ board_locks metric boards

-- The keys that are locked.
unfoldable pub lock_keys : Query → List Bytes
unfolding boards_of
lock_keys q =
    let boards = board_locks q.metric (boards_of q) in
    (if is_nil boards then (q.metric ++ colon ∷ []) ∷ [] else boards)
    ++ (if has_receipt q then receipt_key q.operation_id ∷ [] else [])

module _ {Db : Type 0} (kv : Kv Db) (scores : Scores) where
  -- The boards of a WRITE: each score grows by the value.
  unfoldable pub stage_increments : Db → Bytes → ℕ → Map Bytes → Batch → Result Batch
  stage_increments db metric value [] batch = ok batch
  stage_increments db metric value ((board, entity) ∷ boards) batch =
      let m = board_metric metric board in
      let current = get_score kv scores db m entity in
      stage_value_from_current scores batch m entity current (scores.add current value) false
      >>= λ b. stage_increments db metric value boards b

  -- The boards of a SET.
  unfoldable pub stage_scores : Db → Bytes → ℕ → Map Bytes → Batch → Result Batch
  stage_scores db metric value [] batch = ok batch
  stage_scores db metric value ((board, entity) ∷ boards) batch =
      stage_value kv scores db batch (board_metric metric board) entity value false >>= λ b.
      stage_scores db metric value boards b

  -- The boards of a DELETE: how many of its entities have a score, and their removal.
  unfoldable pub stage_removals : Db → Bool → Bytes → Map Bytes → ℕ → Batch → Result (ℕ × Batch)
  stage_removals db dry metric [] n batch = ok (n, batch)
  stage_removals db dry metric ((board, entity) ∷ boards) n batch =
      let m = board_metric metric board in
      let n' = if has_score kv scores db m entity then suc n else n in
      (if dry then ok batch else stage_value kv scores db batch m entity 0 true) >>= λ b.
      stage_removals db dry metric boards n' b

-- math.MaxInt64 in place of an end that is not given.
abbrev pub end_of : ℤ → ℤ
end_of to = if is_zero to then pos (2 ^ 63 - 1) else to

abbrev pub nothing_deleted : Query → DeleteResult
nothing_deleted q = record { dry_run = q.dry_run; events = 0; leaderboard_entries = 0 }

abbrev pub with_receipt : Query → Staged → Staged
with_receipt q staged =
    if has_receipt q
    then record staged { batch = staged.batch ++ put (receipt_key q.operation_id) (1 ∷ []) ∷ [] }
    else staged

abbrev pub is_found : Option Bytes → Bool
is_found none = false
is_found (some v) = true

abbrev is_write : QueryType → Bool
is_write write = true
is_write _ = false

-- The query with its time: a WRITE without one gets the next of the clock.
abbrev pub stamped : Query → ℤ → Query
stamped q now = if is_zero q.timestamp && is_write q.type then record q { timestamp = now } else q

module _ {Db : Type 0} (kv : Kv Db) (scores : Scores) (json : Json)
    (cardinality : Bytes → Bytes → ℕ) where
  abbrev staged_deletion : Query → ℕ → ℕ → Batch → Staged
  staged_deletion q events entries batch = record {
    batch = batch;
    deleted = record { dry_run = q.dry_run; events = events; leaderboard_entries = entries };
    applied = true;
  }

  -- The events of a DELETE.
  unfoldable pub stage_events : Db → Query → ℕ → Batch → Result Staged
  stage_events db q entries batch =
      if is_nil (boards_of q) || not (is_nil q.conditions)
      then (stored (
            scan_delete_where kv json (cardinality q.metric) db
              (if q.dry_run then none else some batch) q.metric q.from (end_of q.to) q.conditions)
          >>= λ (n, target).
              ok (staged_deletion q n entries (elim target [ none ↦ batch | some b ↦ b ])))
      else ok (staged_deletion q 0 entries batch)

  abbrev pub event_of : Query → Event
  event_of q = record { timestamp = q.timestamp; metric = q.metric; value = q.value; tags = q.tags }

  -- The switch of the callback; other types stage nothing.
  unfoldable pub stage_query : Db → Query → QueryType → Result Staged
  unfolding stage_increments stage_scores stage_removals stage_events
  stage_query db q write = stored (stage_event kv json db true [] (event_of q)) >>= λ batch.
      stage_increments kv scores db q.metric q.value (boards_of q) batch >>= λ b.
      ok (record { batch = b; deleted = nothing_deleted q; applied = true })
  stage_query db q set = stage_scores kv scores db q.metric q.value (boards_of q) [] >>= λ b.
      ok (record { batch = b; deleted = nothing_deleted q; applied = true })
  stage_query db q delete =
      stage_removals kv scores db q.dry_run q.metric (boards_of q) 0 [] >>= λ (n, b).
      stage_events db q n b
  stage_query db q _ = ok (record { batch = []; deleted = nothing_deleted q; applied = true })

  -- The callback: an operation whose receipt is there stages nothing.
  unfoldable pub stage_mutation : Db → Query → Result Staged
  unfolding stage_query
  stage_mutation db q =
      let staged = stage_query db q q.type >>= λ s. ok (with_receipt q s) in
      if has_receipt q && is_found (kv.find db (receipt_key q.operation_id))
      then ok (record { batch = []; deleted = nothing_deleted q; applied = false })
      else staged

  -- executeMutation: the store, what was deleted, with which a DELETE alone is answered, and the events
  -- that are recorded.
  unfoldable pub execute_mutation : Db → Query → ℤ → Result (Db × DeleteResult × List Event)
  unfolding stage_mutation
  execute_mutation db q now =
      let r = stamped q now in
      stage_mutation db r >>= λ staged. ok (
        kv.commit db staged.batch,
        staged.deleted,
        if staged.applied && not r.dry_run && is_write r.type then event_of r ∷ [] else [],
      )
