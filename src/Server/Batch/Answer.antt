-- ===== src/Server/Batch/Answer.antt =====
-- The second half of handleWriteBatch: what the other nodes answer, the local items and their
-- replication, and the answer.
use flamedb.Base.{
  ℕ, suc, Bool, false, not, ◌&&◌, ◌||◌, Option, none, some, List, [], ◌∷◌, ◌++◌, if◌then◌else◌,
  length, get_elem?, map, ◌==◌,
}
use flamedb.Base.Bytes.{Bytes, codes}
use flamedb.Base.Int.{ℤ, pos, negsuc, ◌+ℤ◌, ◌-ℤ◌}
use flamedb.Cluster.Replication.{ReplicationItem}
use flamedb.Cluster.Ring.{Node}
use flamedb.Cluster.Route.{Cluster, is_primary_for}
use flamedb.Executor.{is_nil}
use flamedb.Executor.WriteBatch.{BatchItemError, BatchResult, timed}
use flamedb.Query.Types.{Query, Result, ok, err, Std}
use flamedb.Server.Admin.{is_positive}
use flamedb.Server.Batch.{
  ItemError, Tally, LocalItem, RemoteItem, RemoteBatch, Sorted, failed_item, empty_tally,
  sort_lines, has_quorum,
}
use flamedb.Server.Replica.{replica_line}

-- strings.Join at line breaks
unfoldable pub join_lines : List Bytes → Bytes
join_lines [] = []
join_lines (line ∷ []) = line
join_lines (line ∷ next ∷ lines) = line ++ 0x0a ∷ join_lines (next ∷ lines)

unfoldable pub remote_lines : List RemoteItem → List Bytes
remote_lines [] = codes "END" ∷ []
remote_lines (item ∷ items) = item.line ∷ remote_lines items

unfoldable pub fail_items : Tally → List RemoteItem → Bytes → Tally
fail_items t [] e = t
fail_items t (item ∷ items) e = fail_items (failed_item t item.index e) items e

-- The place of an item in the client's batch, if the error names one of the items.
abbrev restored : List RemoteItem → ItemError → ItemError
restored items e = elim e.index [
  | negsuc n ↦ e
  | pos n ↦ elim (get_elem? items n) [ none ↦ e | some item ↦ record e { index = pos item.index } ]
]

abbrev pub take_answer : Tally → List RemoteItem → Result (ℤ × List ItemError) → Tally
take_answer t items (err e) = fail_items t items e
take_answer t items (ok (accepted, errors)) = record {
  accepted = t.accepted +ℤ accepted;
  failed = t.failed +ℤ (pos (length items) -ℤ accepted);
  errors = t.errors ++ map (restored items) errors;
}

-- The loop over the nodes. `ask` stands for SendToNode with upstreamBatchResult.
unfoldable pub deliver :
    (Node → Bytes → Result (ℤ × List ItemError)) → Bytes → Tally → List RemoteBatch → Tally
unfolding join_lines remote_lines fail_items
deliver ask header t [] = t
deliver ask header t (b ∷ batches) =
    deliver ask header
      (take_answer t b.items (ask b.node (join_lines (header ∷ remote_lines b.items)))) batches

unfoldable pub fail_local : Tally → List LocalItem → Bytes → Tally
fail_local t [] e = t
fail_local t (item ∷ items) e = fail_local (failed_item t item.index e) items e

-- localIndexByBatchIndex; a missing key reads as zero.
abbrev index_at : List LocalItem → ℕ → ℕ
index_at items n = elim (get_elem? items n) [ none ↦ 0 | some item ↦ item.index ]

abbrev local_errors : List LocalItem → List BatchItemError → List ItemError
local_errors items errors =
    map (λ (e : BatchItemError). record { index = pos (index_at items e.index); error = e.error })
      errors

unfoldable pub has_failed : List LocalItem → List BatchItemError → ℕ → Bool
has_failed items [] i = false
has_failed items (e ∷ errors) i = index_at items e.index == i || has_failed items errors i

-- An item that is replicated, with its place.
pub record Replicated : Type 0 where
  pub index : ℕ
  pub item : ReplicationItem

abbrev pub items_of : List Replicated → List ReplicationItem
items_of [] = []
items_of (r ∷ replicated) = r.item ∷ items_of replicated

abbrev pub queries_of : List LocalItem → List Query
queries_of [] = []
queries_of (item ∷ items) = item.query ∷ queries_of items

module _ (format_time : ℤ → Bytes) (hash : Bytes → ℕ) (c : Cluster) (clock : ℕ → ℤ) where
  abbrev is_replicated : List LocalItem → List BatchItemError → LocalItem → Bool
  is_replicated items errors item =
      let q = item.query in
      not (has_failed items errors item.index || q.is_replica)
      && (is_primary_for hash c q.metric || (not q.update_lb && is_nil q.lb_entities))

  -- The items from place `n` of the local batch on; the executor has set their timestamps.
  unfoldable pub replication_items :
      List LocalItem → List BatchItemError → ℕ → List LocalItem → List Replicated
  unfolding has_failed replica_line
  replication_items all errors n [] = []
  replication_items all errors n (item ∷ items) =
      let rest = replication_items all errors (suc n) items in
      if is_replicated all errors item
      then record {
        index = item.index;
        item = record {
          metric = item.query.metric;
          query = replica_line format_time item.line (timed item.query (clock n));
          quorum = item.query.quorum;
        };
      }
        ∷ rest
      else rest

  -- An accepted item that could not be replicated has failed after all.
  abbrev pub unaccepted : Tally → ℕ → Bytes → Tally
  unaccepted t i e = record (failed_item t i e) { accepted = t.accepted -ℤ pos 1 }

  unfoldable pub unaccept : Tally → List Replicated → Bytes → Tally
  unaccept t [] e = t
  unaccept t (r ∷ replicated) e = unaccept (unaccepted t r.index e) replicated e

  abbrev pub replicated_or : Tally → List Replicated → Option Bytes → Tally
  replicated_or t replicated none = t
  replicated_or t replicated (some e) = unaccept t replicated e

  -- `replicate` is ReplicateBatch.
  abbrev pub take_result :
      (List ReplicationItem → Option Bytes) → Tally → List LocalItem → Result BatchResult → Tally
  take_result replicate t items (err e) = fail_local t items e
  take_result replicate t items (ok r) =
      let replicated = replication_items items r.errors 0 items in
      replicated_or
        (record {
          accepted = t.accepted +ℤ pos r.accepted;
          failed = t.failed +ℤ pos r.failed;
          errors = t.errors ++ local_errors items r.errors;
        })
        replicated (replicate (items_of replicated))

  -- `run` is ExecuteBatch.
  unfoldable pub run_local :
      (List Query → Result BatchResult)
      → (List ReplicationItem → Option Bytes)
      → Tally
      → List LocalItem
      → Tally
  unfolding fail_local replication_items unaccept
  run_local run replicate t [] = t
  run_local run replicate t (item ∷ items) =
      take_result replicate t (item ∷ items) (run (queries_of (item ∷ items)))

-- The flag ok of the answer.
abbrev pub is_ok : Tally → Bool
is_ok t = not (is_positive t.failed)

abbrev pub unsorted : Sorted
unsorted = record { tally = empty_tally; local = []; remote = [] }

-- The lines that were read, up to the answer.
unfoldable pub handle_lines :
    Std
    → (Bytes → ℕ)
    → (ℤ → Bytes)
    → (ℕ → ℤ)
    → Cluster
    → (Node → Bytes → Result (ℤ × List ItemError))
    → (List Query → Result BatchResult)
    → (List ReplicationItem → Option Bytes)
    → Bool
    → Bytes
    → (ℕ → Bytes)
    → List Bytes
    → Tally
unfolding sort_lines deliver run_local
handle_lines std hash format_time clock c ask run replicate internal header fresh lines =
    let s = sort_lines std hash c internal (has_quorum std header) fresh 0 lines unsorted in
    run_local format_time hash c clock run replicate (deliver ask header s.tally s.remote) s.local
