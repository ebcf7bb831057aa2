-- ===== src/Cluster/Replication/Order.antt =====
-- ReplicateBatch keeps the order of its items, and gives each to the call of its kind.
use flamedb.Base.{
  ◌≡◌, refl, List, [], ◌∷◌, ◌++◌, true, false, Bool-cases, inl, inr, All, append_assoc, ◌∙◌, ap,
  All-append,
}
use flamedb.Cluster.Replication.{ReplicationItem, Call, async_batch, quorum_write, batch_calls}

abbrev pub items_of : List Call → List ReplicationItem
items_of [] = []
items_of (async_batch items ∷ calls) = items ++ items_of calls
items_of (quorum_write item ∷ calls) = item ∷ items_of calls

abbrev IsAsync : ReplicationItem → Type 0
IsAsync item = item.quorum ≡ false

abbrev pub OfKind : Call → Type 0
OfKind (async_batch items) = All IsAsync items
OfKind (quorum_write item) = item.quorum ≡ true

batch_calls-OfKind :
    (pending items : List ReplicationItem)
    → All IsAsync pending
    → All OfKind (batch_calls pending items)
unfolding batch_calls
batch_calls-OfKind pending [] h = (h, tt)
batch_calls-OfKind pending (item ∷ items) h = elim (Bool-cases item.quorum) [
  | inl quorum ↦ simp quorum (h, (refl, batch_calls-OfKind [] items tt))
  | inr async ↦ simp async (
      batch_calls-OfKind (pending ++ item ∷ []) items
        (All-append IsAsync pending (item ∷ []) h (async, tt)))
]

batch_calls-items :
    (pending items : List ReplicationItem) → items_of (batch_calls pending items) ≡ pending ++ items
unfolding batch_calls
batch_calls-items pending [] = refl
batch_calls-items pending (item ∷ items) = elim (Bool-cases item.quorum) [
  | inl quorum ↦ simp quorum (ap (λ rest. pending ++ item ∷ rest) (batch_calls-items [] items))
  | inr async ↦
      simp async
        (batch_calls-items (pending ++ item ∷ []) items ∙ append_assoc pending (item ∷ []) items)
]

-- ReplicateBatch passes its items on in their order, each once, the quorum writes to the quorum
-- call and the others to the asynchronous one.
pub batch_calls_lem :
    (items : List ReplicationItem)
    → (items_of (batch_calls [] items) ≡ items) × All OfKind (batch_calls [] items)
batch_calls_lem items = (batch_calls-items [] items, batch_calls-OfKind [] items tt)
