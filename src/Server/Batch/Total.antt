-- ===== src/Server/Batch/Total.antt =====
-- The counts of a batch's answer: every line is accepted or has failed.
use flamedb.Base.{
  ℕ, suc, ◌+◌, ◌≡◌, refl, Bool, Option, none, some, List, [], ◌∷◌, length, arith, ap, subst, ◌∙◌,
}
use flamedb.Base.Bytes.{Bytes}
use flamedb.Base.Int.{ℤ, pos, ◌+ℤ◌, +ℤ_parts, -ℤ_parts, eq_of_parts}
use flamedb.Cluster.Replication.{ReplicationItem}
use flamedb.Cluster.Ring.{Node}
use flamedb.Cluster.Route.{Cluster}
use flamedb.Executor.WriteBatch.{BatchResult}
use flamedb.Executor.WriteBatch.Accounts.{execute_write_batch_lem}
use flamedb.Executor.WriteBatch.Staging.{execute_write_batch}
use flamedb.Kv.{Kv}
use flamedb.Leaderboard.{Scores}
use flamedb.Query.Types.{Query, Result, ok, err, ok_inj, Std}
use flamedb.Server.Batch.{ItemError, Tally, LocalItem, failed_item, sort_lines, has_quorum}
use flamedb.Server.Batch.Answer.{
  deliver, fail_local, run_local, take_result, Replicated, unaccept, unaccepted, replicated_or,
  replication_items, queries_of, items_of, handle_lines, unsorted,
}
use flamedb.Server.Batch.Balanced.{
  Balance, failed_item-Balance, deliver-Balance, remote_count, sort_lines-AllSorted,
}
use flamedb.Storage.Codec.{Json}

counted_total : (t : Tally) (m n : ℕ) → Balance t m → m ≡ n → t.accepted +ℤ t.failed ≡ pos n
counted_total t m n h e =
    eq_of_parts (t.accepted +ℤ t.failed) (pos n) (omega (arith, +ℤ_parts t.accepted t.failed))

fail_local-Balance :
    (t : Tally) (items : List LocalItem) (e : Bytes) (n : ℕ)
    → Balance t n
    → Balance (fail_local t items e) (n + length items)
unfolding fail_local
fail_local-Balance t [] e n h = omega arith
fail_local-Balance t (item ∷ items) e n h = omega (
  arith,
  fail_local-Balance (failed_item t item.index e) items e (suc n)
      (failed_item-Balance t item.index e n h),
)

length-queries_of : (items : List LocalItem) → length (queries_of items) ≡ length items
length-queries_of [] = refl
length-queries_of (item ∷ items) = ap suc (length-queries_of items)

module _ (format_time : ℤ → Bytes) (hash : Bytes → ℕ) (c : Cluster) (clock : ℕ → ℤ) where
  unaccept-Balance :
      (t : Tally) (replicated : List Replicated) (e : Bytes) (n : ℕ)
      → Balance t n
      → Balance (unaccept format_time hash c clock t replicated e) n
  unfolding unaccept
  unaccept-Balance t [] e n h = h
  unaccept-Balance t (r ∷ replicated) e n h =
      unaccept-Balance (unaccepted format_time hash c clock t r.index e) replicated e n
        (omega (arith, +ℤ_parts t.failed (pos 1), -ℤ_parts t.accepted (pos 1)))

  replicated_or-Balance :
      (t : Tally) (replicated : List Replicated) (failure : Option Bytes) (n : ℕ)
      → Balance t n
      → Balance (replicated_or format_time hash c clock t replicated failure) n
  replicated_or-Balance t replicated none n h = h
  replicated_or-Balance t replicated (some e) n h = unaccept-Balance t replicated e n h

  module _ (replicate : List ReplicationItem → Option Bytes) where
    take_result-Balance :
        (t : Tally) (items : List LocalItem) (r : Result BatchResult) (n : ℕ)
        → ((b : BatchResult) → r ≡ ok b → b.accepted + b.failed ≡ length items)
        → Balance t n
        → Balance (take_result format_time hash c clock replicate t items r) (n + length items)
    take_result-Balance t items (err e) n accounts h = fail_local-Balance t items e n h
    take_result-Balance t items (ok r) n accounts h =
        replicated_or-Balance _ (replication_items format_time hash c clock items r.errors 0 items)
          (replicate (items_of (replication_items format_time hash c clock items r.errors 0 items)))
          (n + length items)
          (omega (
            arith,
            accounts r refl,
            +ℤ_parts t.accepted (pos r.accepted),
            +ℤ_parts t.failed (pos r.failed),
          ))

    run_local-Balance :
        (run : List Query → Result BatchResult) (t : Tally) (items : List LocalItem) (n : ℕ)
        → ((queries : List Query) (b : BatchResult)
            → run queries ≡ ok b
            → b.accepted + b.failed ≡ length queries)
        → Balance t n
        → Balance (run_local format_time hash c clock run replicate t items) (n + length items)
    unfolding run_local
    run_local-Balance run t [] n accounts h = omega arith
    run_local-Balance run t (item ∷ items) n accounts h =
        take_result-Balance t (item ∷ items) (run (queries_of (item ∷ items))) n
          (λ b e. accounts (queries_of (item ∷ items)) b e ∙ length-queries_of (item ∷ items)) h

-- The answer to a batch accounts for every line: the accepted and the failed items add up to the
-- number of the lines, whatever the other nodes answer and whether the replication succeeds, where
-- the local items are executed by executeWriteBatch.
pub handle_lines_lem :
    {Db : Type 0} (kv : Kv Db) (scores : Scores) (json : Json) (db : Db) (std : Std)
    (hash : Bytes → ℕ) (format_time : ℤ → Bytes) (clock : ℕ → ℤ) (c : Cluster)
    (ask : Node → Bytes → Result (ℤ × List ItemError))
    (replicate : List ReplicationItem → Option Bytes) (internal : Bool) (header : Bytes)
    (fresh : ℕ → Bytes) (lines : List Bytes) (t : Tally)
    → handle_lines std hash format_time clock c ask
        (λ queries. ok (execute_write_batch kv scores json db clock queries).1)
        replicate
        internal
        header
        fresh
        lines
      ≡ t
    → t.accepted +ℤ t.failed ≡ pos (length lines)
unfolding handle_lines
handle_lines_lem kv scores json db std hash format_time clock c ask replicate internal header fresh
      lines t made =
    let (m, b, e) =
      sort_lines-AllSorted std hash c internal (has_quorum std header) fresh 0 lines unsorted 0
        (unfold remote_count in (0, omega arith, omega arith)) in
    let s = sort_lines std hash c internal (has_quorum std header) fresh 0 lines unsorted in
    let run =
      λ (queries : List Query). ok (execute_write_batch kv scores json db clock queries).1 in
    let balance =
      run_local-Balance format_time hash c clock replicate run (deliver ask header s.tally s.remote)
        s.local (m + remote_count s.remote)
        (λ queries r h.
          subst (λ x. x.accepted + x.failed ≡ length queries) (ok_inj h)
            (execute_write_batch_lem kv scores json db clock queries 0).1)
        (deliver-Balance ask header s.tally s.remote m b) in
    subst (λ x. x.accepted +ℤ x.failed ≡ pos (length lines)) made
      (counted_total
        (run_local format_time hash c clock run replicate (deliver ask header s.tally s.remote)
          s.local)
        (m + remote_count s.remote + length s.local) (length lines) balance (omega (arith, e)))
