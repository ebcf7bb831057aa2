-- ===== src/Executor/Replay.antt =====
-- A replica's mutation that is delivered again changes nothing.
use flamedb.Base.{
  if◌then◌else◌, ◌≡◌, arith, Option, List, ◌∷◌, [], ◌++◌, true, false, Bool, inl, inr, sym, ap, ◌∙◌,
  Bool-cases, ℕ, ◌&&◌, ap₂, not,
}
use flamedb.Base.Bytes.{Bytes, bytes_eq_refl}
use flamedb.Base.Int.{ℤ}
use flamedb.Executor.{
  DeleteResult, Staged, has_receipt, stage_mutation, stage_query, stamped, with_receipt, is_found,
  execute_mutation, nothing_deleted, is_zero, is_write, event_of,
}
use flamedb.Kv.{Kv, IsStore, put, settle}
use flamedb.Kv.Settle.{settle-append}
use flamedb.Leaderboard.{Scores}
use flamedb.Query.Types.{Query, Result, ok, ◌>>=◌, >>=-eq-ok, ok_inj}
use flamedb.Storage.Codec.{Json}
use flamedb.Storage.Event.{Event}
use flamedb.Storage.Keys.{receipt_key}

stamped-operation_id : (q : Query) (now : ℤ) → (stamped q now).operation_id ≡ q.operation_id
stamped-operation_id q now = elim (Bool-cases (is_zero q.timestamp && is_write q.type)) [
  | inl open' ↦
      ap (λ (c : Bool). (if c then record q { timestamp = now } else q).operation_id) open'
  | inr given ↦
      ap (λ (c : Bool). (if c then record q { timestamp = now } else q).operation_id) given
]

stamped-has_receipt : (q : Query) (now : ℤ) → has_receipt (stamped q now) ≡ has_receipt q
stamped-has_receipt q now = elim (Bool-cases (is_zero q.timestamp && is_write q.type)) [
  | inl open' ↦ ap (λ (c : Bool). has_receipt (if c then record q { timestamp = now } else q)) open'
  | inr given ↦ ap (λ (c : Bool). has_receipt (if c then record q { timestamp = now } else q)) given
]

stamped-nothing_deleted :
    (q : Query) (now : ℤ) → nothing_deleted (stamped q now) ≡ nothing_deleted q
stamped-nothing_deleted q now = elim (Bool-cases (is_zero q.timestamp && is_write q.type)) [
  | inl open' ↦
      ap (λ (c : Bool). nothing_deleted (if c then record q { timestamp = now } else q)) open'
  | inr given ↦
      ap (λ (c : Bool). nothing_deleted (if c then record q { timestamp = now } else q)) given
]

module _ {Db : Type 0} {kv : Kv Db} (store : IsStore kv) (scores : Scores) (json : Json)
    (cardinality : Bytes → Bytes → ℕ) where
  -- What an operation whose receipt is there stages.
  abbrev skipped : Query → Staged
  skipped q = record { batch = []; deleted = nothing_deleted q; applied = false }

  stage_mutation-skipped :
      (db : Db) (q : Query)
      → has_receipt q ≡ true
      → is_found (kv.find db (receipt_key q.operation_id)) ≡ true
      → stage_mutation kv scores json cardinality db q ≡ ok (skipped q)
  unfolding stage_mutation
  stage_mutation-skipped db q receipt there =
      let both : (has_receipt q && is_found (kv.find db (receipt_key q.operation_id))) ≡ true =
        ap₂ (λ a b. a && b) receipt there in
      ap
        (λ (c : Bool).
          if c
          then ok (skipped q)
          else (stage_query kv scores json cardinality db q q.type >>= λ s. ok (with_receipt q s)))
        both

  with_receipt-settle :
      (q : Query) (s : Staged) (old : Option Bytes)
      → has_receipt q ≡ true
      → is_found (settle (with_receipt q s).batch (receipt_key q.operation_id) old) ≡ true
  unfolding settle
  with_receipt-settle q s old receipt =
      let key = receipt_key q.operation_id in
      ap
        (λ (c : Bool). is_found (
          settle (if c then record s { batch = s.batch ++ put key (1 ∷ []) ∷ [] } else s).batch key
            old))
        receipt
      ∙ ap is_found (settle-append s.batch (put key (1 ∷ []) ∷ []) key old)
      ∙ ground (arith, bytes_eq_refl key)

  -- After a staged mutation with a receipt, the receipt is in the store.
  receipt_found :
      (db : Db) (q : Query) (staged : Staged)
      → has_receipt q ≡ true
      → stage_mutation kv scores json cardinality db q ≡ ok staged
      → is_found (kv.find (kv.commit db staged.batch) (receipt_key q.operation_id)) ≡ true
  unfolding stage_mutation settle
  receipt_found db q staged receipt h =
      let key = receipt_key q.operation_id in
      elim (Bool-cases (is_found (kv.find db key))) [
        | inl there ↦
            let same : skipped q ≡ staged =
              ok_inj (sym (stage_mutation-skipped db q receipt there) ∙ h) in
            ap (λ (s : Staged). is_found (kv.find (kv.commit db s.batch) key)) (sym same)
            ∙ ap is_found (store.find-commit db [] key)
            ∙ there
        | inr absent ↦
            let new : (has_receipt q && is_found (kv.find db key)) ≡ false =
              ap₂ (λ a b. a && b) receipt absent in
            let (s, _, made) =
              >>=-eq-ok (stage_query kv scores json cardinality db q q.type)
                (λ s. ok (with_receipt q s))
                (ap
                    (λ (c : Bool).
                      if c
                      then ok (skipped q)
                      else (stage_query kv scores json cardinality db q q.type >>= λ s.
                          ok (with_receipt q s)))
                    (sym new)
                  ∙ h) in
            ap (λ (s : Staged). is_found (kv.find (kv.commit db s.batch) key)) (sym (ok_inj made))
            ∙ ap is_found (store.find-commit db (with_receipt q s).batch key)
            ∙ with_receipt-settle q s (kv.find db key) receipt
      ]

  -- A replica's mutation with an operation's name that was executed and is executed again, at any
  -- time, succeeds, deletes and records nothing, and leaves every key as it was.
  pub execute_mutation_twice :
      (db db' : Db) (q : Query) (now later : ℤ) (deleted : DeleteResult) (events : List Event)
      → has_receipt q ≡ true
      → execute_mutation kv scores json cardinality db q now ≡ ok (db', deleted, events)
      → (db'' : Db) × (execute_mutation kv scores json cardinality db' q later
          ≡ ok (db'', nothing_deleted q, []))
        × ((k : Bytes) → kv.find db'' k ≡ kv.find db' k)
  unfolding execute_mutation settle
  execute_mutation_twice db db' q now later deleted events receipt h =
      let first = stamped q now in
      let second = stamped q later in
      let (staged, at_staged, made) =
        >>=-eq-ok (stage_mutation kv scores json cardinality db first) _ h in
      let at_db : kv.commit db staged.batch ≡ db' =
        ap (λ (r : Db × DeleteResult × List Event). r.0) (ok_inj made) in
      let found : is_found (kv.find db' (receipt_key second.operation_id)) ≡ true =
        ap₂ (λ d i. is_found (kv.find d (receipt_key i))) (sym at_db)
          (stamped-operation_id q later ∙ sym (stamped-operation_id q now))
        ∙ receipt_found db first staged (stamped-has_receipt q now ∙ receipt) at_staged in
      let again = stage_mutation-skipped db' second (stamped-has_receipt q later ∙ receipt) found in
      (
        kv.commit db' [],
        ap (λ r. r >>= finish db' second) again
            ∙ ap (λ (d : DeleteResult). ok (kv.commit db' [], d, []))
                (stamped-nothing_deleted q later),
        λ k. store.find-commit db' [] k,
      )
    where
      finish : Db → Query → Staged → Result (Db × DeleteResult × List Event)
      finish d r staged = ok (
        kv.commit d staged.batch,
        staged.deleted,
        if staged.applied && not r.dry_run && is_write r.type
            then event_of kv scores json cardinality r ∷ []
            else [],
      )
