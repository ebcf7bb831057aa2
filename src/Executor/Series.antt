-- ===== src/Executor/Series.antt =====
-- aggregateSeriesUTC and addCalendar of internal/query/executor.go: the events of a series in
-- calendar buckets. Times are nanoseconds from the epoch on: for an event before it, which Parse does
-- not let be written, the search for the bucket need not end, since Go's % keeps the sign; the loops have a fuel. `add_date` is
-- time.Time.AddDate, `Sums` is the arithmetic of float64.
pub mod Total
use flamedb.Base.{
  ℕ, zero, suc, ◌+◌, ◌-◌, ◌%◌, Bool, not, ◌&&◌, ◌||◌, Option, none, some, List, [], ◌∷◌,
  if◌then◌else◌, ltb, leb, ◌==◌, length,
}
use flamedb.Base.Int.{ℤ, pos, negsuc}
use flamedb.Query.Duration.{DurSpec}
use flamedb.Query.Types.{AggType, count, avg}
use flamedb.Storage.Event.{Event}

pub record Sums : Type 0 where
  pub plus : ℕ → ℕ → ℕ
  pub over : ℕ → ℕ → ℕ
  pub of_count : ℕ → ℕ

-- The time and the value of an event.
pub record Sample : Type 0 where
  pub timestamp : ℕ
  pub value : ℕ

pub record SeriesPoint : Type 0 where
  pub ts : ℕ
  pub value : ℕ
  pub count : ℕ

unfoldable pub aggregate : Sums → AggType → ℕ → ℕ → ℕ
aggregate sums count sum n = sums.of_count n
aggregate sums avg sum n = if ltb 0 n then sums.over sum (sums.of_count n) else sum
aggregate sums _ sum n = sum

-- The inner loop: the sum and the number of the events in the bucket, and the events behind.
unfoldable pub collect : Sums → ℕ → ℕ → ℕ → ℕ → List Sample → ℕ × ℕ × List Sample
collect sums start end' sum n [] = (sum, n, [])
collect sums start end' sum n (e ∷ events) =
    let rest = collect sums start end' (sums.plus sum e.value) (n + 1) events in
    if ltb e.timestamp start || not (ltb e.timestamp end') then (sum, n, e ∷ events) else rest

abbrev pub is_fixed : DurSpec → Bool
is_fixed spec = spec.years == 0 && spec.months == 0

module _ (add_date : ℕ → ℕ → ℕ → ℕ) (sums : Sums) (spec : DurSpec) where
  unfoldable pub add_calendar : ℕ → ℕ
  add_calendar t =
      let u = if not (is_fixed spec) then add_date t spec.years spec.months else t in
      if not (spec.dur == 0) then u + spec.dur else u

  -- The bucket is moved on until it ends behind the event.
  unfoldable pub advance : ℕ → ℕ → ℕ → ℕ → Option (ℕ × ℕ)
  unfolding add_calendar
  advance zero start end' ts = none
  advance (suc fuel) start end' ts =
      let later = advance fuel end' (add_calendar end') ts in
      if leb end' ts then later else some (start, end')

  -- The bucket in which the search for an event's begins: the event's own where the length is fixed.
  abbrev pub first_bucket : ℕ → ℕ → ℕ → ℕ × ℕ
  first_bucket start end' ts =
      if is_fixed spec then (ts - ts % spec.dur, ts - ts % spec.dur + spec.dur) else (start, end')

  -- The outer loop. An empty bucket ends it.
  unfoldable pub series_from : ℕ → AggType → ℕ → ℕ → List Sample → Option (List SeriesPoint)
  unfolding advance collect aggregate
  series_from zero agg start end' events = none
  series_from (suc fuel) agg start end' [] = some []
  series_from (suc fuel) agg start end' (e ∷ events) =
      let (s, t) = first_bucket start end' e.timestamp in
      elim (advance (e.timestamp + 2) s t e.timestamp) [
        | none ↦ none
        | some (low, high) ↦
            let (sum, n, rest) = collect sums low high (sums.of_count 0) 0 (e ∷ events) in
            let point : SeriesPoint = record {
              ts = low;
              value = aggregate sums agg sum n;
              count = n;
            } in
            let later = series_from fuel agg low high rest in
            if high == low
            then some (point ∷ [])
            else elim later [ none ↦ none | some points ↦ some (point ∷ points) ]
      ]

  unfoldable pub aggregate_series : AggType → List Sample → Option (List SeriesPoint)
  unfolding series_from
  aggregate_series agg events = series_from (length events + 1) agg 0 0 events

  -- The events as samples; none where one is before the epoch.
  unfoldable pub samples_of : List Event → Option (List Sample)
  samples_of [] = some []
  samples_of (e ∷ events) =
      let rest = samples_of events in
      elim e.timestamp [
        | negsuc n ↦ none
        | pos n ↦ elim rest [
          | none ↦ none
          | some samples ↦ some (record { timestamp = n; value = e.value } ∷ samples)
        ]
      ]

  abbrev series_of_samples : AggType → Option (List Sample) → Option (List SeriesPoint)
  series_of_samples agg none = none
  series_of_samples agg (some samples) = aggregate_series agg samples

  -- The loops over events; none where they do not end within the fuel or an event is before the epoch.
  unfoldable pub aggregate_events : AggType → List Event → Option (List SeriesPoint)
  unfolding samples_of aggregate_series
  aggregate_events agg events = series_of_samples agg (samples_of events)
