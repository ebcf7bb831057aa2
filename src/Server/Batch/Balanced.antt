-- ===== src/Server/Batch/Balanced.antt =====
-- The counts of a batch while its lines are sorted and the other nodes answer.
use flamedb.Base.{
  ℕ, suc, ◌+◌, ◌≡◌, Bool, Option, none, some, List, [], ◌∷◌, ◌++◌, length, length-append, arith,
  Bool-cases, inl, inr,
}
use flamedb.Base.Bytes.{Bytes, bytes_eq}
use flamedb.Base.Int.{ℤ, pos, pos_part, neg_part, ◌-ℤ◌, +ℤ_parts, -ℤ_parts}
use flamedb.Cluster.Ring.{Node}
use flamedb.Cluster.Route.{Cluster}
use flamedb.Query.Parse.{parse}
use flamedb.Query.Types.{Query, Result, ok, err, Std}
use flamedb.Server.Batch.{
  ItemError, Tally, LocalItem, RemoteItem, RemoteBatch, Sorted, Target, here, there, nowhere,
  failed_item, add_remote, with_target, admitted, sort_item, sort_lines, refusal, target_of,
}
use flamedb.Server.Batch.Answer.{take_answer, deliver, fail_items, join_lines, remote_lines}

-- The counts add up to `n`.
abbrev pub Balance : Tally → ℕ → Type 0
Balance t n = pos_part t.accepted + pos_part t.failed ≡ neg_part t.accepted + neg_part t.failed + n

pub failed_item-Balance :
    (t : Tally) (i : ℕ) (e : Bytes) (n : ℕ) → Balance t n → Balance (failed_item t i e) (suc n)
failed_item-Balance t i e n h = omega (arith, +ℤ_parts t.failed (pos 1))

fail_items-Balance :
    (t : Tally) (items : List RemoteItem) (e : Bytes) (n : ℕ)
    → Balance t n
    → Balance (fail_items t items e) (n + length items)
unfolding fail_items
fail_items-Balance t [] e n h = omega arith
fail_items-Balance t (item ∷ items) e n h = omega (
  arith,
  fail_items-Balance (failed_item t item.index e) items e (suc n)
      (failed_item-Balance t item.index e n h),
)

take_answer-Balance :
    (t : Tally) (items : List RemoteItem) (r : Result (ℤ × List ItemError)) (n : ℕ)
    → Balance t n
    → Balance (take_answer t items r) (n + length items)
take_answer-Balance t items (err e) n h = fail_items-Balance t items e n h
take_answer-Balance t items (ok (accepted, errors)) n h = omega (
  arith,
  +ℤ_parts t.accepted accepted,
  -ℤ_parts (pos (length items)) accepted,
  +ℤ_parts t.failed (pos (length items) -ℤ accepted),
)

unfoldable pub remote_count : List RemoteBatch → ℕ
remote_count [] = 0
remote_count (b ∷ batches) = length b.items + remote_count batches

pub deliver-Balance :
    (ask : Node → Bytes → Result (ℤ × List ItemError)) (header : Bytes) (t : Tally)
    (batches : List RemoteBatch) (n : ℕ)
    → Balance t n
    → Balance (deliver ask header t batches) (n + remote_count batches)
unfolding deliver remote_count
deliver-Balance ask header t [] n h = omega arith
deliver-Balance ask header t (b ∷ batches) n h =
    let answer = ask b.node (join_lines (header ∷ remote_lines b.items)) in
    omega (
      arith,
      deliver-Balance ask header (take_answer t b.items answer) batches (n + length b.items)
          (take_answer-Balance t b.items answer n h),
    )

remote_count-add :
    (batches : List RemoteBatch) (node : Node) (item : RemoteItem)
    → remote_count (add_remote batches node item) ≡ suc (remote_count batches)
unfolding remote_count add_remote
remote_count-add [] node item = omega arith
remote_count-add (b ∷ batches) node item = elim (Bool-cases (bytes_eq b.node.id node.id)) [
  | inl same ↦ rw same (omega (arith, length-append {0} b.items (item ∷ [])))
  | inr other ↦ rw other (omega (arith, remote_count-add batches node item))
]

-- The lines that have been sorted.
abbrev pub AllSorted : Sorted → ℕ → Type 0
AllSorted s n = (m : ℕ) × Balance s.tally m × (m + length s.local + remote_count s.remote ≡ n)

length_more :
    (items : List LocalItem) (item : LocalItem) (m r n : ℕ)
    → m + length items + r ≡ n
    → m + length (items ++ item ∷ []) + r ≡ suc n
length_more items item m r n e = omega (arith, length-append {0} items (item ∷ []))

module _ (std : Std) (hash : Bytes → ℕ) (c : Cluster) (internal quorum : Bool) where
  with_target-AllSorted :
      (s : Sorted) (i : ℕ) (line fresh : Bytes) (q : Query) (target : Target) (n : ℕ)
      → AllSorted s n
      → AllSorted (with_target std hash c internal quorum s i line fresh q target) (suc n)
  with_target-AllSorted s i line fresh q here n (m, b, e) =
      (m, b, length_more s.local _ m (remote_count s.remote) n e)
  with_target-AllSorted s i line fresh q (there node remote_line) n (m, b, e) = (
    m,
    b,
    omega (arith, remote_count-add s.remote node (record { index = i; line = remote_line })),
  )
  with_target-AllSorted s i line fresh q (nowhere e) n (m, b, l) =
      (suc m, failed_item-Balance s.tally i e m b, omega arith)

  admitted-AllSorted :
      (s : Sorted) (i : ℕ) (line fresh : Bytes) (q : Query) (refused : Option Bytes) (n : ℕ)
      → AllSorted s n
      → AllSorted (admitted std hash c internal quorum s i line fresh q refused) (suc n)
  admitted-AllSorted s i line fresh q (some e) n (m, b, l) =
      (suc m, failed_item-Balance s.tally i e m b, omega arith)
  admitted-AllSorted s i line fresh q none n h =
      with_target-AllSorted s i line fresh q (target_of std hash c internal quorum q line) n h

  sort_item-AllSorted :
      (s : Sorted) (i : ℕ) (line fresh : Bytes) (r : Result Query) (n : ℕ)
      → AllSorted s n
      → AllSorted (sort_item std hash c internal quorum s i line fresh r) (suc n)
  sort_item-AllSorted s i line fresh (err e) n (m, b, l) =
      (suc m, failed_item-Balance s.tally i e m b, omega arith)
  sort_item-AllSorted s i line fresh (ok q) n h =
      admitted-AllSorted s i line fresh q (refusal std hash c internal quorum q) n h

  pub sort_lines-AllSorted :
      (fresh : ℕ → Bytes) (i : ℕ) (lines : List Bytes) (s : Sorted) (n : ℕ)
      → AllSorted s n
      → AllSorted (sort_lines std hash c internal quorum fresh i lines s) (n + length lines)
  unfolding sort_lines
  sort_lines-AllSorted fresh i [] s n (m, b, e) = (m, b, omega arith)
  sort_lines-AllSorted fresh i (line ∷ lines) s n h =
      let (m, b, e) =
        sort_lines-AllSorted fresh (suc i) lines
          (sort_item std hash c internal quorum s i line (fresh i) (parse std line)) (suc n)
          (sort_item-AllSorted s i line (fresh i) (parse std line) n h) in
      (m, b, omega (arith, e))
