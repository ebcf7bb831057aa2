-- ===== src/Executor/WriteBatch/Places.antt =====
-- The places of a batch's items, and the first loop, which sorts them.
use flamedb.Base.{
  ℕ, suc, ◌+◌, ◌≤◌, ◌<◌, ◌≡◌, refl, ap, true, false, none, some, List, [], ◌∷◌, ◌++◌, length, arith,
  Bool-cases, Option-cases, inl, inr,
}
use flamedb.Base.Bytes.{Bytes}
use flamedb.Base.Int.{ℤ}
use flamedb.Base.Times.{one, times, times-append, span}
use flamedb.Executor.{message}
use flamedb.Executor.WriteBatch.{BatchItemError, Item, has_index, fail, admit, invalid_item}
use flamedb.Query.Types.{Query}

unfoldable pub indices : List BatchItemError → List ℕ
indices [] = []
indices (e ∷ errors) = e.index ∷ indices errors

unfoldable pub places : List Item → List ℕ
places [] = []
places (item ∷ items) = item.index ∷ places items

pub length-indices : (errors : List BatchItemError) → length (indices errors) ≡ length errors
unfolding indices
length-indices [] = refl
length-indices (e ∷ errors) = ap suc (length-indices errors)

has_index-times :
    (errors : List BatchItemError) (i : ℕ)
    → has_index errors i ≡ true
    → 0 < times i (indices errors)
unfolding has_index times indices one
has_index-times [] i h = absurd (cc)
has_index-times (e ∷ errors) i h = ground (arith, has_index-times errors i)

times-has_index :
    (errors : List BatchItemError) (i : ℕ)
    → has_index errors i ≡ false
    → times i (indices errors) ≡ 0
unfolding has_index times indices one
times-has_index [] i h = refl
times-has_index (e ∷ errors) i h = ground (arith, times-has_index errors i)

indices-append :
    (errors more : List BatchItemError) → indices (errors ++ more) ≡ indices errors ++ indices more
unfolding indices
indices-append [] more = refl
indices-append (e ∷ errors) more = ap (λ l. e.index ∷ l) (indices-append errors more)

-- A place that has not failed fails once.
pub times-fail :
    (errors : List BatchItemError) (k : ℕ) (message : Bytes) (i : ℕ)
    → times k (indices errors) ≡ 0
    → times i (indices (fail errors k message)) ≡ times i (indices errors) + one i k
times-fail errors k message i h = elim (Bool-cases (has_index errors k)) [
  | inl failed ↦ absurd (omega (arith, has_index-times errors k failed))
  | inr fresh ↦ rw fresh (
      rw (indices-append errors (record { index = k; error = message } ∷ []))
        (unfold indices times in omega (arith, times-append i (indices errors) (k ∷ []))))
]

-- A place that failed fails no more.
pub times-fail_again :
    (errors : List BatchItemError) (k : ℕ) (message : Bytes)
    → 0 < times k (indices errors)
    → fail errors k message ≡ errors
times-fail_again errors k message h = elim (Bool-cases (has_index errors k)) [
  | inl failed ↦ rw failed refl
  | inr fresh ↦ absurd (omega (arith, times-has_index errors k fresh))
]

one-lt : (i x : ℕ) → x < i → one i x ≡ 0
unfolding one
one-lt i x h = ground arith

fail_below :
    (errors : List BatchItemError) (k : ℕ) (e : Bytes)
    → ((j : ℕ) → k ≤ j → times j (indices errors) ≡ 0)
    → (j : ℕ) → suc k ≤ j
    → times j (indices (fail errors k e)) ≡ 0
fail_below errors k e h j l =
    omega (arith, times-fail errors k e j (h k (omega arith)), h j (omega (arith, l)), one-lt j k l)

module _ (clock : ℕ → ℤ) (k : ℕ) (q : Query) (queries : List Query)
    (errors : List BatchItemError) where
  admit-valid :
      invalid_item q ≡ none
      → (places (admit clock k (q ∷ queries) errors).0
          ≡ k ∷ places (admit clock (suc k) queries errors).0)
        × ((admit clock k (q ∷ queries) errors).1 ≡ (admit clock (suc k) queries errors).1)
  unfolding admit places
  admit-valid h = rw (h, admit) (refl, refl)

  admit-invalid :
      (e : Bytes)
      → invalid_item q ≡ some e
      → admit clock k (q ∷ queries) errors ≡ admit clock (suc k) queries (fail errors k e)
  unfolding admit
  admit-invalid e h = rw (h, admit) refl

-- The first loop sorts every place, once, into the items and the errors.
pub times-admit :
    (clock : ℕ → ℤ) (k : ℕ) (queries : List Query) (errors : List BatchItemError) (i : ℕ)
    → ((j : ℕ) → k ≤ j → times j (indices errors) ≡ 0)
    → times i (places (admit clock k queries errors).0)
        + times i (indices (admit clock k queries errors).1)
      ≡ times i (indices errors) + times i (span k (length queries))
unfolding times span
times-admit clock k [] errors i h = unfold admit places in omega arith
times-admit clock k (q ∷ queries) errors i h = elim (Option-cases (invalid_item q)) [
  | inl valid ↦
      let (items, rest) = admit-valid clock k q queries errors valid in
      rw (items, rest)
        (omega (arith, times-admit clock (suc k) queries errors i (λ j l. h j (omega (arith, l)))))
  | inr (e, invalid) ↦ rw (admit-invalid clock k q queries errors e invalid) (
      omega (
        arith,
        times-fail errors k e i (h k (omega arith)),
        times-admit clock (suc k) queries (fail errors k e) i (fail_below errors k e h),
      ))
]
