-- ===== src/Executor/WriteBatch/Staging.antt =====
-- The callback of executeWriteBatch, and its result.
use flamedb.Base.{
  ℕ, true, false, ◌&&◌, Option, none, some, List, [], ◌∷◌, ◌++◌, if◌then◌else◌, length, ◌==◌,
}
use flamedb.Base.Bytes.{Bytes, codes}
use flamedb.Base.Int.{ℤ}
use flamedb.Base.Map.{Map}
use flamedb.Executor.{boards_of, has_receipt, is_found, stored}
use flamedb.Executor.WriteBatch.{
  BatchItemError, BatchResult, Item, fail, admit, targets_of, ScoreState, NextScore, find_score,
  change_scores, Progress,
}
use flamedb.Kv.{Kv, Batch, put, settle}
use flamedb.Leaderboard.{Scores, stage_value_from_current, canonical}
use flamedb.Leaderboard.Shared.{SharedLookup, shared_get}
use flamedb.Query.Types.{Query, Result, ok, err, ◌>>=◌}
use flamedb.Query.Validate.{not_finite}
use flamedb.Storage.Codec.{Json}
use flamedb.Storage.Event.{Event}
use flamedb.Storage.Events.{stage_event}
use flamedb.Storage.Keys.{board_metric, receipt_key}

-- A lookup's state after a read, and what was read.
pub record Read (A : Type 0) : Type 0 where
  pub lookup : SharedLookup
  pub states : List ScoreState
  pub got : A

abbrev pub written : Query → Event
written q = record { timestamp = q.timestamp; metric = q.metric; value = q.value; tags = q.tags }

abbrev pub infinite : Bytes
infinite = codes "leaderboard value must be finite"

-- What the callback leaves: the places of the items that are accepted, the errors, the batch where one
-- is committed, and the events that are recorded.
pub record Ended : Type 0 where
  pub accepted : List ℕ
  pub errors : List BatchItemError
  pub batch : Option Batch
  pub recorded : List Event

module _ {Db : Type 0} (kv : Kv Db) (scores : Scores) (json : Json) (db : Db) where
  abbrev first_read : List ScoreState → Bytes → Bytes → Result ℕ × SharedLookup → Result (Read ℕ)
  first_read states metric entity (err e, l) = err e
  first_read states metric entity (ok v, l) = ok record {
    lookup = l;
    states =
        states
        ++ record { metric = metric; entity = entity; initial = v; current = v; changed = false }
          ∷ [];
    got = v;
  }

  -- The score of a key, from the states or, the first time, from the lookup.
  unfoldable pub read_score : SharedLookup → List ScoreState → Bytes → Bytes → Result (Read ℕ)
  unfolding find_score shared_get
  read_score l states metric entity = elim (find_score states metric entity) [
    | some s ↦ ok (record { lookup = l; states = states; got = s.current })
    | none ↦ first_read states metric entity (shared_get kv scores db l metric entity)
  ]

  -- The boards of one item; no scores where one of them is not finite.
  unfoldable pub next_scores :
      Bytes
      → ℕ
      → Map Bytes
      → SharedLookup
      → List ScoreState
      → List NextScore
      → Result (Read (Option (List NextScore)))
  unfolding read_score
  next_scores metric delta [] l states next =
      ok (record { lookup = l; states = states; got = some next })
  next_scores metric delta ((board, entity) ∷ boards) l states next =
      let m = board_metric metric board in
      read_score l states m entity >>= λ r.
      let value = scores.add r.got delta in
      let rest =
        next_scores metric delta boards r.lookup r.states
          (next ++ record { metric = m; entity = entity; value = canonical value } ∷ []) in
      if not_finite value
      then ok (record { lookup = r.lookup; states = r.states; got = none })
      else rest

  abbrev receipt_of : Query → Batch
  receipt_of q = if has_receipt q then put (receipt_key q.operation_id) (1 ∷ []) ∷ [] else []

  -- An item whose scores are known.
  abbrev pub stage_known :
      Progress → Item → Read (Option (List NextScore)) → Option (List NextScore) → Result Progress
  stage_known p item r none =
      ok record p {
        lookup = r.lookup;
        states = r.states;
        errors = fail p.errors item.index infinite;
      }
  stage_known p item r (some next) =
      stored (stage_event kv json db true p.batch (written item.query)) >>= λ batch. ok record p {
        batch = batch ++ receipt_of item.query;
        lookup = r.lookup;
        states = change_scores r.states next;
        accepted = p.accepted ++ item.index ∷ [];
        committed = p.committed ++ written item.query ∷ [];
      }

  -- A replica's operation that has been applied, also earlier in this batch, is accepted as it is.
  unfoldable pub stage_item : Progress → Item → Result Progress
  unfolding next_scores
  stage_item p item =
      let q = item.query in
      let receipt = receipt_key q.operation_id in
      let staged = next_scores q.metric q.value (boards_of q) p.lookup p.states [] >>= λ r.
      stage_known p item r r.got in
      if has_receipt q && is_found (settle p.batch receipt (kv.find db receipt))
      then ok (record p { accepted = p.accepted ++ item.index ∷ [] })
      else staged

  -- The loop over the items: the errors so far, and where it came to.
  unfoldable pub stage_items : Progress → List Item → List BatchItemError × Result Progress
  unfolding stage_item
  stage_items p [] = (p.errors, ok p)
  stage_items p (item ∷ items) = elim (stage_item p item) [
    | err e ↦ (p.errors, err e)
    | ok p' ↦ stage_items p' items
  ]

  -- Each score that changed is written once.
  unfoldable pub stage_changed : Batch → List ScoreState → Result Batch
  stage_changed batch [] = ok batch
  stage_changed batch (s ∷ states) =
      (if s.changed
        then stage_value_from_current scores batch s.metric s.entity s.initial s.current false
        else ok batch)
      >>= λ b. stage_changed b states

  abbrev pub empty_progress : List Item → List BatchItemError → Progress
  empty_progress items errors = record {
    batch = [];
    lookup = record { targets = targets_of items []; legacy = [] };
    states = [];
    accepted = [];
    committed = [];
    errors = errors;
  }

  -- Where the callback fails, no item is acknowledged.
  unfoldable pub fail_all : List BatchItemError → List Item → Bytes → List BatchItemError
  fail_all errors [] message = errors
  fail_all errors (item ∷ items) message = fail_all (fail errors item.index message) items message

  abbrev pub result_of : ℕ → List BatchItemError → BatchResult
  result_of accepted errors = record {
    ok = length errors == 0;
    accepted = accepted;
    failed = length errors;
    errors = errors;
  }

  abbrev refused_all : List Item → List BatchItemError → Bytes → Ended
  refused_all items errors e = record {
    accepted = [];
    errors = fail_all errors items e;
    batch = none;
    recorded = [];
  }

  abbrev pub finished : List Item → List BatchItemError → Progress → Result Batch → Ended
  finished items errors p (err e) = refused_all items errors e
  finished items errors p (ok batch) = record {
    accepted = p.accepted;
    errors = errors;
    batch = some batch;
    recorded = p.committed;
  }

  abbrev pub ended : List Item → List BatchItemError → Result Progress → Ended
  ended items errors (err e) = refused_all items errors e
  ended items errors (ok p) = finished items errors p (stage_changed p.batch p.states)

  -- Without an item that may be written nothing is staged.
  abbrev pub run_items : List Item → List BatchItemError → Ended
  run_items [] errors = record { accepted = []; errors = errors; batch = none; recorded = [] }
  run_items (item ∷ items) errors =
      let (errors', end) = stage_items (empty_progress (item ∷ items) errors) (item ∷ items) in
      ended (item ∷ items) errors' end

  unfoldable pub run_batch : (ℕ → ℤ) → List Query → Ended
  unfolding admit targets_of stage_items stage_changed fail_all
  run_batch clock queries = let (items, errors) = admit clock 0 queries [] in run_items items errors

  -- executeWriteBatch
  unfoldable pub execute_write_batch : (ℕ → ℤ) → List Query → Db × BatchResult × List Event
  unfolding run_batch
  execute_write_batch clock queries =
      let e = run_batch clock queries in
      (
        elim e.batch [ none ↦ db | some b ↦ kv.commit db b ],
        result_of (length e.accepted) e.errors,
        e.recorded,
      )
