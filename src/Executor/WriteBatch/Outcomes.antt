-- ===== src/Executor/WriteBatch/Outcomes.antt =====
-- Every item of a batch is accepted or fails, and does so once.
use flamedb.Base.{
  ℕ, ◌+◌, ◌≤◌, ◌≡◌, refl, ◌&&◌, Option, none, some, List, [], ◌∷◌, ◌++◌, arith, Bool-cases, inl,
  inr, ◌⊎◌, subst,
}
use flamedb.Base.Bytes.{Bytes}
use flamedb.Base.Times.{one, times, one_self, times-append}
use flamedb.Executor.{boards_of, has_receipt, is_found}
use flamedb.Executor.WriteBatch.{BatchItemError, Item, Progress, NextScore}
use flamedb.Executor.WriteBatch.Places.{indices, places, times-fail}
use flamedb.Executor.WriteBatch.Staging.{
  next_scores, Read, infinite, stage_known, stage_item, stage_items,
}
use flamedb.Kv.{Kv, settle}
use flamedb.Leaderboard.{Scores}
use flamedb.Query.Types.{Result, ok, err, ok_inj, >>=-eq-ok}
use flamedb.Storage.Codec.{Json}
use flamedb.Storage.Keys.{receipt_key}

-- The places that the callback has dealt with, and those to come.
unfoldable pub dealt : Progress → ℕ → ℕ
dealt p i = times i p.accepted + times i (indices p.errors)

fresh_place :
    (p : Progress) (item : Item) (items : List Item)
    → ((i : ℕ) → dealt p i + times i (places (item ∷ items)) ≤ 1)
    → times item.index (indices p.errors) ≡ 0
unfolding dealt places times
fresh_place p item items fits = omega (arith, fits item.index, one_self item.index)

fits_next :
    (p : Progress) (item : Item) (items : List Item)
    → ((i : ℕ) → dealt p i + times i (places (item ∷ items)) ≤ 1)
    → (i : ℕ) → dealt p i + one i item.index + times i (places items) ≤ 1
unfolding places times
fits_next p item items fits i = omega (arith, fits i)

pub Result-cases :
    {A : Type 0} (r : Result A) → ((a : A) × (r ≡ ok a)) ⊎ ((e : Bytes) × (r ≡ err e))
Result-cases (ok a) = inl (a, refl)
Result-cases (err e) = inr (e, refl)

-- A step accepts its item or lets it fail.
module _ {Db : Type 0} (kv : Kv Db) (scores : Scores) (json : Json) (db : Db) where
  stage_known-accepts :
      (p p' : Progress) (item : Item) (r : Read (Option (List NextScore))) (next : List NextScore)
      → stage_known kv scores json db p item r (some next) ≡ ok p'
      → (p'.accepted ≡ p.accepted ++ item.index ∷ []) × (p'.errors ≡ p.errors)
  stage_known-accepts p p' item r next h = ground (arith, h)

  stage_known-dealt :
      (p p' : Progress) (item : Item) (r : Read (Option (List NextScore)))
      (o : Option (List NextScore)) (i : ℕ)
      → times item.index (indices p.errors) ≡ 0
      → stage_known kv scores json db p item r o ≡ ok p'
      → (dealt p' i ≡ dealt p i + one i item.index)
        × (times i (indices p.errors) ≤ times i (indices p'.errors))
        × (times i (indices p'.errors) ≤ times i (indices p.errors) + one i item.index)
  unfolding dealt
  stage_known-dealt p p' item r none i fresh h =
      subst
        (λ x.
          (dealt x i ≡ dealt p i + one i item.index)
          × (times i (indices p.errors) ≤ times i (indices x.errors))
          × (times i (indices x.errors) ≤ times i (indices p.errors) + one i item.index))
        (ok_inj h)
        (
          omega (arith, times-fail p.errors item.index infinite i fresh),
          omega (arith, times-fail p.errors item.index infinite i fresh),
          omega (arith, times-fail p.errors item.index infinite i fresh),
        )
  stage_known-dealt p p' item r (some next) i fresh h =
      let (accepted, errors) = stage_known-accepts p p' item r next h in
      rw (accepted, errors)
        (
          unfold times in omega (arith, times-append i p.accepted (item.index ∷ [])),
          omega arith,
          omega arith,
        )

  stage_item-dealt :
      (p p' : Progress) (item : Item) (i : ℕ)
      → times item.index (indices p.errors) ≡ 0
      → stage_item kv scores json db p item ≡ ok p'
      → (dealt p' i ≡ dealt p i + one i item.index)
        × (times i (indices p.errors) ≤ times i (indices p'.errors))
        × (times i (indices p'.errors) ≤ times i (indices p.errors) + one i item.index)
  unfolding stage_item
  stage_item-dealt p p' item i fresh h =
      let q = item.query in
      elim (Bool-cases (
        has_receipt q
        && is_found (
            settle p.batch (receipt_key q.operation_id)
              (kv.find db (receipt_key q.operation_id))))) [
                | inl applied ↦
                    subst
                      (λ x.
                        (dealt x i ≡ dealt p i + one i item.index)
                        × (times i (indices p.errors) ≤ times i (indices x.errors))
                        × (times i (indices x.errors)
                            ≤ times i (indices p.errors) + one i item.index))
                      (ok_inj (rw applied at h))
                      (
                        unfold dealt times in
                            omega (arith, times-append i p.accepted (item.index ∷ [])),
                        omega arith,
                        omega arith,
                      )
                | inr pending ↦
                    let (r, read, known) =
                      >>=-eq-ok
                        (next_scores kv scores json db q.metric q.value (boards_of q) p.lookup
                          p.states [])
                        (λ r. stage_known kv scores json db p item r r.got) (rw pending at h) in
                    stage_known-dealt p p' item r r.got i fresh known
              ]

  stage_items-next :
      (p p' : Progress) (item : Item) (items : List Item)
      → stage_item kv scores json db p item ≡ ok p'
      → stage_items kv scores json db p (item ∷ items) ≡ stage_items kv scores json db p' items
  unfolding stage_items
  stage_items-next p p' item items h = rw (h, stage_items) refl

  stage_items-broken :
      (p : Progress) (item : Item) (items : List Item) (e : Bytes)
      → stage_item kv scores json db p item ≡ err e
      → stage_items kv scores json db p (item ∷ items) ≡ (p.errors, err e)
  unfolding stage_items
  stage_items-broken p item items e h = rw (h, stage_items) refl

  -- What the loop keeps: at its end every item is dealt with; where it breaks off, the places that have
  -- failed are those that had and some of the items'.
  abbrev pub Kept : Progress → List Item → List BatchItemError × Result Progress → Type 0
  Kept p items (errors, ok p') =
      (errors ≡ p'.errors)
      × ((i : ℕ)
          → (dealt p' i ≡ dealt p i + times i (places items))
            × (times i (indices p.errors) ≤ times i (indices p'.errors)))
  Kept p items (errors, err e) =
      (i : ℕ)
      → (times i (indices p.errors) ≤ times i (indices errors))
        × (times i (indices errors) ≤ times i (indices p.errors) + times i (places items))

  Kept-next :
      (p p' : Progress) (item : Item) (items : List Item)
      (end : List BatchItemError × Result Progress)
      → ((i : ℕ)
          → (dealt p' i ≡ dealt p i + one i item.index)
            × (times i (indices p.errors) ≤ times i (indices p'.errors))
            × (times i (indices p'.errors) ≤ times i (indices p.errors) + one i item.index))
      → Kept p' items end
      → Kept p (item ∷ items) end
  unfolding places times
  Kept-next p p' item items (errors, ok last) s k =
      (k.0, λ i. (omega (arith, (s i).0, (k.1 i).0), omega (arith, (s i).1, (k.1 i).1)))
  Kept-next p p' item items (errors, err e) s k =
      λ i. (omega (arith, (s i).1, (k i).0), omega (arith, (s i).2, (k i).1))

  pub stage_items-Kept :
      (p : Progress) (items : List Item)
      → ((i : ℕ) → dealt p i + times i (places items) ≤ 1)
      → Kept p items (stage_items kv scores json db p items)
  stage_items-Kept p [] fits =
      unfold stage_items places times in (refl, λ i. (omega arith, omega arith))
  stage_items-Kept p (item ∷ items) fits =
      elim (Result-cases (stage_item kv scores json db p item)) [
        | inl (p', done) ↦
            let step =
              λ (i : ℕ). stage_item-dealt p p' item i (fresh_place p item items fits) done in
            rw (stage_items-next p p' item items done) (
              Kept-next p p' item items (stage_items kv scores json db p' items) step (
                stage_items-Kept p' items
                  (λ i. omega (arith, (step i).0, fits_next p item items fits i))))
        | inr (e, broken) ↦
            rw (stage_items-broken p item items e broken) (λ i. (omega arith, omega arith))
      ]
