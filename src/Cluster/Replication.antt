-- ===== src/Cluster/Replication.antt =====
-- Delivery to the replicas, internal/cluster/replication.go: the frames of sendReplicationBatch, the
-- retries of sendReplicationLineWithRetry, the order of ReplicateBatch and the quorum of
-- ReplicateQuorum. What the network, the timers and the channels bring is an argument,
-- and the outbox has been recovered.
pub mod Frames
pub mod Retry
pub mod Order
pub mod Quorum
use flamedb.Base.{
  ℕ, zero, suc, ◌+◌, ◌*◌, ◌/◌, ◌^◌, Bool, true, false, Option, none, some, List, [], ◌∷◌, ◌++◌,
  if◌then◌else◌, ltb, length, ◌==◌, not,
}
use flamedb.Base.Bytes.{Bytes, codes}
use flamedb.Cluster.Route.{is_text}
use flamedb.Query.Types.{Result, ok, err, ◌>>=◌}

pub record ReplicationRecord : Type 0 where
  pub node : Bytes
  pub query : Bytes
  pub outbox_key : Bytes

-- 8<<20
abbrev pub max_frame : ℕ
max_frame = 8 * 2 ^ 20

-- The loop that looks for the place of a split, behind the first record: what still fits in the
-- frame, and the rest.
unfoldable pub cut_frame :
    ℕ → List ReplicationRecord → List ReplicationRecord × List ReplicationRecord
cut_frame size [] = ([], [])
cut_frame size (r ∷ records) =
    let (front, rest) = cut_frame (size + length r.query + 1) records in
    if ltb max_frame (size + length r.query + 1) then ([], r ∷ records) else (r ∷ front, rest)

-- sendReplicationBatch: the frames that are sent one after the other. Each call has a fuel of one,
-- and none is out of fuel.
unfoldable pub send_frames : ℕ → List ReplicationRecord → Option (List (List ReplicationRecord))
unfolding cut_frame
send_frames zero records = none
send_frames (suc fuel) [] = some []
send_frames (suc fuel) (r ∷ records) =
    let (front, rest) = cut_frame (length r.query + 1) records in
    elim rest [
      | [] ↦ some ((r ∷ records) ∷ [])
      | s ∷ more ↦ elim (send_frames fuel (r ∷ front)) [
        | none ↦ none
        | some first ↦ elim (send_frames fuel (s ∷ more)) [
          | none ↦ none
          | some second ↦ some (first ++ second)
        ]
      ]
    ]

-- strings.Join of the queries
unfoldable pub join_queries : Bytes → List ReplicationRecord → Bytes
join_queries separator [] = []
join_queries separator (r ∷ []) = r.query
join_queries separator (r ∷ s ∷ records) =
    r.query ++ separator ++ join_queries separator (s ∷ records)

-- The line of a frame.
unfoldable pub frame_line : Bytes → List ReplicationRecord → Bytes
unfolding join_queries
frame_line separator [] = []
frame_line separator (r ∷ []) = r.query
frame_line separator (r ∷ s ∷ records) =
    codes "REPL_BATCH " ++ join_queries separator (r ∷ s ∷ records)

-- The keys of the outbox that a delivered frame deletes.
unfoldable pub delivered_keys : List ReplicationRecord → List Bytes
delivered_keys [] = []
delivered_keys (r ∷ records) =
    let rest = delivered_keys records in if is_nil r.outbox_key then rest else r.outbox_key ∷ rest
  where
    is_nil : Bytes → Bool
    is_nil [] = true
    is_nil (b ∷ s) = false

-- The fields of a decoded reply that are read, where they have the type of a string and of a bool.
pub record Reply : Type 0 where
  pub error : Option Bytes
  pub ok : Option Bool

abbrev or_empty : Option Bytes → Bytes
or_empty none = []
or_empty (some e) = e

abbrev is_false : Option Bool → Bool
is_false none = false
is_false (some b) = not b

-- replicationResponseError, after the reply was decoded. The error of the decoder is not kept.
abbrev pub reply_error : Option Reply → Option Bytes
reply_error none = some (codes "invalid replication response")
reply_error (some r) =
    if is_text (or_empty r.error)
    then some (or_empty r.error)
    else if is_false r.ok
    then some (codes "replication batch failed")
    else none

-- One attempt: what pool.Send returns, and whether the end of the cluster cuts the wait short that
-- follows where it did not succeed.
pub record Attempt : Type 0 where
  pub reply : Result Bytes
  pub closing : Bool

abbrev pub initial_delay : ℕ
initial_delay = 10000000

abbrev pub max_delay : ℕ
max_delay = 1000000000

-- The step after a wait.
unfoldable pub next_delay : ℕ → ℕ
next_delay delay =
    if ltb delay max_delay
    then if ltb max_delay (delay * 2) then max_delay else delay * 2
    else delay

abbrev no_error : Option Bytes → Bool
no_error none = true
no_error (some e) = false

-- `decode` is json.Unmarshal.
module _ (decode : Bytes → Option Reply) where
  abbrev pub is_delivered : Result Bytes → Bool
  is_delivered (err e) = false
  is_delivered (ok reply) = no_error (reply_error (decode reply))

  -- sendReplicationLineWithRetry: whether the line was delivered, and the waits between. Where the
  -- attempts end it still waits.
  unfoldable pub send_line : ℕ → List Attempt → Option Bool × List ℕ
  unfolding next_delay
  send_line delay [] = (none, [])
  send_line delay (a ∷ attempts) =
      let (result, waits) = send_line (next_delay delay) attempts in
      if is_delivered a.reply
      then (some true, [])
      else if a.closing
      then (some false, delay ∷ [])
      else (result, delay ∷ waits)

pub record ReplicationItem : Type 0 where
  pub metric : Bytes
  pub query : Bytes
  pub quorum : Bool

-- A call that ReplicateBatch makes.
pub data Call : Type 0 where
  async_batch : List ReplicationItem → Call
  quorum_write : ReplicationItem → Call

-- ReplicateBatch without errors: `pending` are the items from start on that were passed over.
unfoldable pub batch_calls : List ReplicationItem → List ReplicationItem → List Call
batch_calls pending [] = async_batch pending ∷ []
batch_calls pending (item ∷ items) =
    let later = batch_calls (pending ++ item ∷ []) items in
    let fresh = batch_calls [] items in
    if item.quorum then async_batch pending ∷ quorum_write item ∷ fresh else later

-- The calls are made in order, up to the first that fails.
unfoldable pub make_calls :
    {S : Type 0} → (S → Call → S × Option Bytes) → S → List Call → S × Option Bytes
make_calls call s [] = (s, none)
make_calls call s (c ∷ calls) =
    let (t, failure) = call s c in
    let rest = make_calls call t calls in elim failure [ none ↦ rest | some e ↦ (t, some e) ]

unfoldable pub replicate_batch :
    {S : Type 0} → (S → Call → S × Option Bytes) → S → List ReplicationItem → S × Option Bytes
unfolding make_calls batch_calls
replicate_batch call s items = make_calls call s (batch_calls [] items)

-- What the wait for a quorum sees.
pub data Signal : Type 0 where
  ack timer done : Signal

abbrev pub quorum_timeout : Bytes
quorum_timeout = codes "quorum timeout (outcome unknown; delivery remains pending)"

abbrev pub server_busy : Bytes
server_busy = codes "server busy"

-- The loop of ReplicateQuorum, with the acknowledgements that are still needed. Where the signals
-- end it waits.
unfoldable pub await_quorum : ℕ → List Signal → Option (Result (Unit {0}))
await_quorum zero signals = some (ok tt)
await_quorum (suc needed) [] = none
await_quorum (suc needed) (ack ∷ signals) = await_quorum needed signals
await_quorum (suc needed) (timer ∷ signals) = some (err quorum_timeout)
await_quorum (suc needed) (done ∷ signals) = some (err server_busy)

-- ReplicateQuorum: `replicas` is the number of the metric's replicas, `async` the result of the
-- asynchronous call that a quorum of none makes, `enqueue` that of the outbox and of the queue.
unfoldable pub replicate_quorum :
    (replicas factor : ℕ)
    → (async enqueue : Result (Unit {0})) → List Signal
    → Option (Result (Unit {0}))
unfolding await_quorum
replicate_quorum replicas factor async enqueue signals =
    let waited = await_quorum (factor / 2) signals in
    if ltb replicas (factor / 2)
    then some (err (codes "not enough available nodes for configured quorum"))
    else if factor / 2 == 0
    then some async
    else elim enqueue [ err e ↦ some (err e) | ok u ↦ waited ]
