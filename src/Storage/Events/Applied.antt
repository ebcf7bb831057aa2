-- ===== src/Storage/Events/Applied.antt =====
-- Receipts make a replicated write idempotent.
use flamedb.Base.{
  ◌≡◌, refl, Option, none, some, List, ◌∷◌, [], ◌++◌, true, inl, inr, subst, sym, Bool-cases, ap, ℕ,
  ◌∙◌,
}
use flamedb.Base.Bytes.{Bytes, bytes_eq_refl}
use flamedb.Kv.{Kv, IsStore, Batch, settle}
use flamedb.Kv.Settle.{
  PutsOnly, PutsOnly-append, Present, settle-Present, settle-Present_mono, settle-append,
}
use flamedb.Storage.Codec.{Json, ok, ◌>>=◌, ok_inj, bind-ok, encode_event_value}
use flamedb.Storage.Event.{Event}
use flamedb.Storage.Events.{
  with_receipts, index_puts, receipt_put, event_puts, is_applied, is_present, events_batch,
  write_events_with_receipts, Map,
}
use flamedb.Storage.Keys.{receipt_key}

index_puts-PutsOnly : (e : Event) (tags : Map Bytes) → PutsOnly (index_puts e tags)
unfolding index_puts
index_puts-PutsOnly e [] = tt
index_puts-PutsOnly e ((k, v) ∷ tags) = index_puts-PutsOnly e tags

receipt_put-PutsOnly : (r : Bytes) → PutsOnly (receipt_put r)
receipt_put-PutsOnly [] = tt
receipt_put-PutsOnly (b ∷ r) = tt

is_present-Present : (r : Option Bytes) → is_present r ≡ true → Present r
is_present-Present none h = absurd (cc)
is_present-Present (some v) h = tt

Present-is_present : (r : Option Bytes) → Present r → is_present r ≡ true
Present-is_present none h = absurd h
Present-is_present (some v) h = refl

event_puts-PutsOnly :
    (json : Json) (e : Event) (puts : Batch) → event_puts json e ≡ ok puts → PutsOnly puts
event_puts-PutsOnly json e puts h =
    let (val, _, made) = bind-ok (encode_event_value json e) _ puts h in
    subst PutsOnly (ok_inj made) (index_puts-PutsOnly e e.tags)

-- The receipt is in the batch.
left_by :
    (b : ℕ) (r : Bytes) (puts rest : Batch)
    → PutsOnly puts
    → PutsOnly rest
    → (stored : Option Bytes)
    → Present (settle (receipt_put (b ∷ r) ++ puts ++ rest) (receipt_key (b ∷ r)) stored)
unfolding settle
left_by b r puts rest p q stored = rw (bytes_eq_refl (receipt_key (b ∷ r))) (
    settle-Present (puts ++ rest) (receipt_key (b ∷ r)) (some (1 ∷ []))
      (PutsOnly-append puts rest p q) tt)

-- Every event has a receipt.
abbrev pub Receipted : List (Event × Bytes) → Type 0
Receipted [] = Unit
Receipted ((e, []) ∷ events) = ⊥
Receipted ((e, b ∷ r) ∷ events) = Receipted events

module _ {Db : Type 0} {kv : Kv Db} (json : Json) (store : IsStore kv) where
  -- All receipts are in the store.
  abbrev Applied : Db → List (Event × Bytes) → Type 0
  Applied db [] = Unit
  Applied db ((e, r) ∷ events) = (is_applied kv json db r ≡ true) × Applied db events

  -- The receipts that a batch leaves behind, over what was there.
  abbrev Leaves : Db → Batch → List (Event × Bytes) → Type 0
  Leaves db ops [] = Unit
  Leaves db ops ((e, r) ∷ events) =
      Present (settle ops (receipt_key r) (kv.find db (receipt_key r))) × Leaves db ops events

  Leaves-append :
      (db : Db) (front ops : Batch) (events : List (Event × Bytes))
      → PutsOnly front
      → PutsOnly ops
      → Leaves db ops events
      → Leaves db (front ++ ops) events
  Leaves-append db front ops [] p q h = tt
  Leaves-append db front ops ((e, r) ∷ events) p q (first, h) =
      let key = receipt_key r in
      (
        subst Present (sym (settle-append front ops key (kv.find db key))) (
            settle-Present_mono ops key (kv.find db key) (settle front key (kv.find db key)) q
              (settle-Present front key (kv.find db key) p) first),
        Leaves-append db front ops events p q h,
      )

  events_batch-Leaves :
      (db : Db) (events : List (Event × Bytes)) (ops : Batch)
      → Receipted events
      → events_batch kv json db events ≡ ok ops
      → PutsOnly ops × Leaves db ops events
  unfolding events_batch
  events_batch-Leaves db [] ops receipted h = (subst PutsOnly (ok_inj h) tt, tt)
  events_batch-Leaves db ((e, []) ∷ events) ops receipted h = absurd receipted
  events_batch-Leaves db ((e, b ∷ r) ∷ events) ops receipted h =
      elim (Bool-cases (is_present (kv.find db (receipt_key (b ∷ r))))) [
        | inl applied ↦
            let (puts, left) = events_batch-Leaves db events ops receipted (rw applied at h) in
            (
              puts,
              (
                settle-Present ops (receipt_key (b ∷ r)) _ puts (is_present-Present _ applied),
                left,
              ),
            )
        | inr new ↦
            let (puts, at_puts, h1) = bind-ok (event_puts json e) _ ops (rw new at h) in
            let (rest, at_rest, h2) = bind-ok (events_batch kv json db events) _ ops h1 in
            let (only, left) = events_batch-Leaves db events rest receipted at_rest in
            let front = receipt_put (b ∷ r) ++ puts in
            let front_only : PutsOnly front = event_puts-PutsOnly json e puts at_puts in
            subst (λ o. PutsOnly o × Leaves db o ((e, b ∷ r) ∷ events)) (ok_inj h2)
              (
                PutsOnly-append front rest front_only only,
                (
                  left_by b r puts rest (event_puts-PutsOnly json e puts at_puts) only
                      (kv.find db (receipt_key (b ∷ r))),
                  Leaves-append db front rest events front_only only left,
                ),
              )
      ]

  Leaves-Applied :
      (db : Db) (ops : Batch) (events : List (Event × Bytes))
      → Receipted events
      → Leaves db ops events
      → Applied (kv.commit db ops) events
  Leaves-Applied db ops [] receipted h = tt
  Leaves-Applied db ops ((e, []) ∷ events) receipted h = absurd receipted
  Leaves-Applied db ops ((e, b ∷ r) ∷ events) receipted (first, h) = (
    ap is_present (store.find-commit db ops (receipt_key (b ∷ r))) ∙ Present-is_present _ first,
    Leaves-Applied db ops events receipted h,
  )

  -- Nothing is written of events whose receipts are there.
  events_batch-Applied :
      (db : Db) (events : List (Event × Bytes))
      → Applied db events
      → events_batch kv json db events ≡ ok []
  unfolding events_batch
  events_batch-Applied db [] h = refl
  events_batch-Applied db ((e, r) ∷ events) (first, h) = rw first (events_batch-Applied db events h)

  -- A write of events that all have receipts, once it succeeded, succeeds again and changes no key.
  pub write_events_with_receipts_twice :
      (db db' : Db) (events told : List Event) (receipts : List Bytes)
      → Receipted (with_receipts events receipts)
      → write_events_with_receipts kv json db events receipts ≡ ok (db', told)
      → (db'' : Db) × (write_events_with_receipts kv json db' events receipts ≡ ok (db'', events))
        × ((k : Bytes) → kv.find db'' k ≡ kv.find db' k)
  unfolding write_events_with_receipts settle
  write_events_with_receipts_twice db db' [] told receipts receipted h = (db', refl, λ k. refl)
  write_events_with_receipts_twice db db' (e ∷ events) told receipts receipted h =
      let pairs = with_receipts (e ∷ events) receipts in
      let (ops, at_ops, made) = bind-ok (events_batch kv json db pairs) _ (db', told) h in
      let (_, left) = events_batch-Leaves db pairs ops receipted at_ops in
      let applied =
        subst (λ d. Applied d pairs) (ap (λ (p : Db × List Event). p.0) (ok_inj made))
          (Leaves-Applied db ops pairs receipted left) in
      (
        kv.commit db' [],
        ap (λ r. r >>= λ ops. ok (kv.commit db' ops, e ∷ events))
            (events_batch-Applied db' pairs applied),
        λ k. store.find-commit db' [] k,
      )
