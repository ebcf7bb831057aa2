-- ===== src/Executor/WriteBatch/Accounts.antt =====
-- The accounts of a batch: each of its items is accepted or fails, and does so once.
use flamedb.Base.{
  if◌then◌else◌, ltb, length-append, ℕ, zero, suc, subst, ◌==◌, ◌+◌, ◌≤◌, ◌<◌, ◌≡◌, refl, sym, ap,
  ◌∙◌, List, [], ◌∷◌, length, arith, Bool-cases, inl, inr, ◌++◌, ◌⊎◌,
}
use flamedb.Base.Bytes.{Bytes}
use flamedb.Base.Int.{ℤ}
use flamedb.Base.Times.{
  one, times, one_self, times-append, span, times-span, length-times, length-span,
}
use flamedb.Executor.WriteBatch.{BatchItemError, Item, fail, admit, Progress}
use flamedb.Executor.WriteBatch.Outcomes.{dealt, Kept, stage_items-Kept}
use flamedb.Executor.WriteBatch.Places.{
  indices, places, length-indices, times-fail, times-fail_again, times-admit,
}
use flamedb.Executor.WriteBatch.Staging.{
  finished, run_items, stage_items, stage_changed, fail_all, run_batch, Ended, ended,
  empty_progress, execute_write_batch,
}
use flamedb.Kv.{Kv, Batch}
use flamedb.Leaderboard.{Scores}
use flamedb.Query.Types.{Query, Result, ok, err}
use flamedb.Storage.Codec.{Json}

zero_or_more : (n : ℕ) → (n ≡ 0) ⊎ (0 < n)
zero_or_more zero = inl refl
zero_or_more (suc n) = inr (omega arith)

one-apart : (i k : ℕ) → (one i k ≡ 0) ⊎ (k ≡ i)
unfolding one
one-apart i k = elim (Bool-cases (k == i)) [
  | inl same ↦ inr (ground (arith, same))
  | inr other ↦ inl (rw other refl)
]

span_once : (i n : ℕ) → times i (span 0 n) ≤ 1
span_once i n = ground (arith, times-span i 0 n)

-- A place that has failed is not one that has not.
failed_apart :
    (errors : List BatchItemError) (i k : ℕ)
    → 0 < times i (indices errors)
    → times k (indices errors) ≡ 0
    → one i k ≡ 0
failed_apart errors i k h fresh = elim (one-apart i k) [
  | inl apart ↦ apart
  | inr same ↦ absurd (omega (arith, subst (λ x. 0 < times x (indices errors)) (sym same) h, fresh))
]

module _ {Db : Type 0} (kv : Kv Db) (scores : Scores) (json : Json) (db : Db) where
  fail_all-old :
      (errors : List BatchItemError) (items : List Item) (e : Bytes) (i : ℕ)
      → 0 < times i (indices errors)
      → times i (indices (fail_all kv scores json db errors items e)) ≡ times i (indices errors)
  unfolding fail_all
  fail_all-old errors [] e i h = refl
  fail_all-old errors (item ∷ items) e i h =
      elim (zero_or_more (times item.index (indices errors))) [
        | inl fresh ↦
            let now = times-fail errors item.index e i fresh in
            let apart = failed_apart errors i item.index h fresh in
            fail_all-old (fail errors item.index e) items e i (omega (arith, now, h))
            ∙ omega (arith, now, apart)
        | inr again ↦
            rw (times-fail_again errors item.index e again) (fail_all-old errors items e i h)
      ]

  fail_all-new :
      (errors : List BatchItemError) (items : List Item) (e : Bytes) (i : ℕ)
      → times i (indices errors) ≡ 0
      → times i (places items) ≤ 1
      → times i (indices (fail_all kv scores json db errors items e)) ≡ times i (places items)
  unfolding fail_all places times
  fail_all-new errors [] e i h l = h
  fail_all-new errors (item ∷ items) e i h l = elim (one-apart i item.index) [
    | inr same ↦
        let here = subst (λ x. times x (indices errors) ≡ 0) (sym same) h in
        let now = times-fail errors item.index e i here in
        let once = ap (λ x. one i x) same ∙ one_self i in
        fail_all-old (fail errors item.index e) items e i (omega (arith, now, once))
        ∙ omega (arith, now, once, h, l)
    | inl apart ↦ elim (zero_or_more (times item.index (indices errors))) [
      | inl fresh ↦
          let now = times-fail errors item.index e i fresh in
          fail_all-new (fail errors item.index e) items e i (omega (arith, now, h, apart))
            (omega (arith, l))
          ∙ omega (arith, apart)
      | inr again ↦
          rw (times-fail_again errors item.index e again)
            (fail_all-new errors items e i h (omega (arith, l)) ∙ omega (arith, apart))
    ]
  ]

  -- Where no item is acknowledged, every item has failed, once.
  fail_all_total :
      (before errors : List BatchItemError) (items : List Item) (e : Bytes) (i : ℕ)
      → times i (indices before) ≤ times i (indices errors)
      → times i (indices errors) ≤ times i (indices before) + times i (places items)
      → times i (indices before) + times i (places items) ≤ 1
      → times i (indices (fail_all kv scores json db errors items e))
        ≡ times i (indices before) + times i (places items)
  fail_all_total before errors items e i low high fits =
      elim (zero_or_more (times i (indices errors))) [
        | inl fresh ↦
            fail_all-new errors items e i fresh (omega (arith, fits)) ∙ omega (arith, low, fresh)
        | inr failed ↦ fail_all-old errors items e i failed ∙ omega (arith, high, fits, failed)
      ]

  -- How often a place stands in what the callback leaves.
  abbrev counted : Ended → ℕ → ℕ
  counted e i = times i e.accepted + times i (indices e.errors)

  finished-counted :
      (before : List BatchItemError) (items : List Item) (errors : List BatchItemError)
      (p : Progress) (r : Result Batch) (i : ℕ)
      → errors ≡ p.errors
      → times i p.accepted + times i (indices p.errors)
        ≡ times i (indices before) + times i (places items)
      → times i (indices before) ≤ times i (indices p.errors)
      → times i (indices before) + times i (places items) ≤ 1
      → counted (finished kv scores json db items errors p r) i
        ≡ times i (indices before) + times i (places items)
  finished-counted before items errors p (ok batch) i same all_dealt low fits = rw same all_dealt
  finished-counted before items errors p (err e) i same all_dealt low fits =
      unfold times in
      rw same (
        omega (arith, fail_all_total before p.errors items e i low (omega (arith, all_dealt)) fits))

  ended-counted :
      (before : List BatchItemError) (items : List Item)
      (end : List BatchItemError × Result Progress)
      → ((i : ℕ) → times i (indices before) + times i (places items) ≤ 1)
      → Kept kv scores json db (empty_progress kv scores json db items before) items end
      → (i : ℕ)
      → counted (ended kv scores json db items end.0 end.1) i
        ≡ times i (indices before) + times i (places items)
  unfolding times
  ended-counted before items (errors, err e) fits kept i =
      omega (arith, fail_all_total before errors items e i (kept i).0 (kept i).1 (fits i))
  ended-counted before items (errors, ok p) fits (same, kept) i =
      let all_dealt : times i p.accepted + times i (indices p.errors)
          ≡ times i (indices before) + times i (places items) =
        unfold dealt in omega (arith, (kept i).0) in
      finished-counted before items errors p (stage_changed kv scores json db p.batch p.states) i
        same all_dealt (kept i).1 (fits i)

  run_items-counted :
      (items : List Item) (errors : List BatchItemError)
      → ((i : ℕ) → times i (indices errors) + times i (places items) ≤ 1)
      → (i : ℕ)
      → counted (run_items kv scores json db items errors) i
        ≡ times i (indices errors) + times i (places items)
  run_items-counted [] errors fits i = unfold times places in omega arith
  run_items-counted (item ∷ items) errors fits i =
      let p = empty_progress kv scores json db (item ∷ items) errors in
      ended-counted errors (item ∷ items) (stage_items kv scores json db p (item ∷ items)) fits
        (stage_items-Kept kv scores json db p (item ∷ items)
          (λ j. unfold dealt times in omega (arith, fits j)))
        i

  sorted :
      (clock : ℕ → ℤ) (queries : List Query) (i : ℕ)
      → times i (indices (admit clock 0 queries []).1)
          + times i (places (admit clock 0 queries []).0)
        ≡ times i (span 0 (length queries))
  sorted clock queries i =
      let all = times-admit clock 0 queries [] i (λ j l. unfold times indices in refl) in
      let nothing : times i (indices []) ≡ 0 = unfold times indices in refl in
      omega (arith, all, nothing)

  -- Every place of a batch is accepted or fails, and does so once.
  pub run_batch_lem :
      (clock : ℕ → ℤ) (queries : List Query) (i : ℕ)
      → counted (run_batch kv scores json db clock queries) i ≡ times i (span 0 (length queries))
  unfolding run_batch
  run_batch_lem clock queries i =
      run_items-counted (admit clock 0 queries []).0 (admit clock 0 queries []).1
        (λ j. omega (arith, sorted clock queries j, span_once j (length queries))) i
      ∙ sorted clock queries i

  -- Each item of a batch is accepted or has an error, never both, and just once: a place below the
  -- number of the items stands once among the accepted places and the errors, no other place does,
  -- and the counts of the result add up to the number of the items.
  pub execute_write_batch_lem :
      (clock : ℕ → ℤ) (queries : List Query) (i : ℕ)
      → (times i (run_batch kv scores json db clock queries).accepted
            + times i (indices (execute_write_batch kv scores json db clock queries).1.errors)
          ≡ (if ltb i (length queries) then 1 else 0))
        × ((execute_write_batch kv scores json db clock queries).1.accepted
              + (execute_write_batch kv scores json db clock queries).1.failed
            ≡ length queries)
  unfolding execute_write_batch
  execute_write_batch_lem clock queries i =
      let e = run_batch kv scores json db clock queries in
      let same_length =
        length-times (e.accepted ++ indices e.errors) (span 0 (length queries))
          (λ j. times-append j e.accepted (indices e.errors) ∙ run_batch_lem clock queries j) in
      (
        run_batch_lem clock queries i ∙ ground (arith, times-span i 0 (length queries)),
        omega (
          arith,
          same_length,
          length-append {0} e.accepted (indices e.errors),
          length-indices e.errors,
          length-span 0 (length queries),
        ),
      )
