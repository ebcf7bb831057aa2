-- ===== src/Server/Batch.antt =====
-- handleWriteBatch of internal/server/server.go: the lines of a batch, the nodes they go to and the
-- account of the answer.
pub mod Limits
pub mod Answer
pub mod Balanced
pub mod Total
use flamedb.Base.{
  ◌^◌, ℕ, suc, ◌+◌, Bool, true, false, not, ◌&&◌, ◌||◌, Option, none, some, List, [], ◌∷◌, ◌++◌,
  if◌then◌else◌, ltb, leb, length, get_elem?, map,
}
use flamedb.Base.Bytes.{Bytes, codes, bytes_eq, has_prefix}
use flamedb.Base.Int.{ℤ, pos, negsuc, ◌+ℤ◌, ◌-ℤ◌}
use flamedb.Cluster.Ring.{Node}
use flamedb.Cluster.Route.{
  Cluster, get_primary_node, get_write_node, is_primary_for, is_local, is_text,
}
use flamedb.Query.Parse.{parse}
use flamedb.Query.Types.{Query, QueryType, write, Result, ok, err, Std}
use flamedb.Server.{is_flagged, local_mark}
use flamedb.Server.Dispatch.{operation_for}

-- What was read of a batch: its lines and what follows them; or the lines that follow the one that
-- exceeds a limit; or no end.
pub data Received : Type 0 where
  complete : List Bytes → List Bytes → Received
  exceeded : List Bytes → Received
  incomplete : Received

-- The scanner ends at a line that does not fit its buffer with the line's end.
abbrev pub buffer_limit : ℕ → ℕ
buffer_limit request_limit = request_limit + 2 ^ 20 + 1024

-- The reading loop, with the lines so far and their size.
unfoldable pub receive : Std → ℕ → ℕ → List Bytes → ℕ → List Bytes → Received
receive std batch_limit request_limit lines size [] = incomplete
receive std batch_limit request_limit lines size (text ∷ texts) =
    let line = std.trim_space text in
    let size' = size + length line in
    let skip = receive std batch_limit request_limit lines size texts in
    let next = receive std batch_limit request_limit (lines ++ line ∷ []) size' texts in
    if leb (buffer_limit request_limit) (length text)
    then incomplete
    else if std.equal_fold line (codes "END")
    then complete lines texts
    else if is_text line
    then (if leb batch_limit (length lines) || ltb request_limit size'
        then exceeded texts
        else next)
    else skip

-- query.BatchItemError as it comes from another node, and as it is answered.
pub record ItemError : Type 0 where
  pub index : ℤ
  pub error : Bytes

-- The counts of the answer.
pub record Tally : Type 0 where
  pub accepted : ℤ
  pub failed : ℤ
  pub errors : List ItemError

abbrev pub empty_tally : Tally
empty_tally = record { accepted = pos 0; failed = pos 0; errors = [] }

abbrev pub failed_item : Tally → ℕ → Bytes → Tally
failed_item t i e = record t {
  failed = t.failed +ℤ pos 1;
  errors = t.errors ++ record { index = pos i; error = e } ∷ [];
}

pub record LocalItem : Type 0 where
  pub index : ℕ
  pub line : Bytes
  pub query : Query

pub record RemoteItem : Type 0 where
  pub index : ℕ
  pub line : Bytes

-- The items for one node, with its node.
pub record RemoteBatch : Type 0 where
  pub node : Node
  pub items : List RemoteItem

-- Where an item goes.
pub data Target : Type 0 where
  here : Target
  there : Node → Bytes → Target
  nowhere : Bytes → Target

-- What the loop over the lines has sorted.
pub record Sorted : Type 0 where
  pub tally : Tally
  pub local : List LocalItem
  pub remote : List RemoteBatch

unfoldable pub contains_text : Bytes → Bytes → Bool
contains_text [] word = has_prefix [] word
contains_text (c ∷ s) word = has_prefix (c ∷ s) word || contains_text s word

abbrev pub has_quorum : Std → Bytes → Bool
has_quorum std header = contains_text (std.to_upper header) (codes "QUORUM")

unfoldable pub add_remote : List RemoteBatch → Node → RemoteItem → List RemoteBatch
add_remote [] node item = record { node = node; items = item ∷ [] } ∷ []
add_remote (b ∷ batches) node item =
    let rest = add_remote batches node item in
    if bytes_eq b.node.id node.id
    then record { node = node; items = b.items ++ item ∷ [] } ∷ batches
    else b ∷ rest

abbrev is_write : QueryType → Bool
is_write write = true
is_write _ = false

abbrev there_or : Option Node → Bytes → Bytes → Target
there_or none line e = nowhere e
there_or (some node) line e = there node line

module _ (std : Std) (hash : Bytes → ℕ) (c : Cluster) (internal quorum : Bool) where
  abbrev pub target_of : Query → Bytes → Target
  target_of q line =
      if not q.is_replica && not (is_primary_for hash c q.metric)
      then there_or (get_primary_node hash c q.metric) line (codes "no primary found")
      else if not q.force_local && not (is_local hash c q.metric)
      then there_or (get_write_node hash c q.metric) (line ++ local_mark)
          (codes "no write node found")
      else here

  -- Why an item is refused.
  abbrev pub refusal : Query → Option Bytes
  refusal q =
      if is_flagged q && not internal
      then some (codes "internal flags require internal permission")
      else if not (is_write q.type)
      then some (codes "WRITE_BATCH only supports WRITE items")
      else none

  abbrev pub with_target : Sorted → ℕ → Bytes → Bytes → Query → Target → Sorted
  with_target s i line fresh q (nowhere e) = record s { tally = failed_item s.tally i e }
  with_target s i line fresh q (there node remote_line) = record s {
    remote = add_remote s.remote node (record { index = i; line = remote_line });
  }
  with_target s i line fresh q here = record s {
    local =
        s.local
        ++ record {
          index = i;
          line = line;
          query = record q { quorum = q.quorum || quorum; operation_id = operation_for q fresh };
        }
          ∷ [];
  }

  abbrev pub admitted : Sorted → ℕ → Bytes → Bytes → Query → Option Bytes → Sorted
  admitted s i line fresh q (some e) = record s { tally = failed_item s.tally i e }
  admitted s i line fresh q none = with_target s i line fresh q (target_of q line)

  abbrev pub sort_item : Sorted → ℕ → Bytes → Bytes → Result Query → Sorted
  sort_item s i line fresh (err e) = record s { tally = failed_item s.tally i e }
  sort_item s i line fresh (ok q) = admitted s i line fresh q (refusal q)

  -- The loop over the lines from place `i` on; `fresh` are the names that newOperationID makes.
  unfoldable pub sort_lines : (ℕ → Bytes) → ℕ → List Bytes → Sorted → Sorted
  unfolding add_remote
  sort_lines fresh i [] s = s
  sort_lines fresh i (line ∷ lines) s =
      sort_lines fresh (suc i) lines (sort_item s i line (fresh i) (parse std line))
