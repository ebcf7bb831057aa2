-- ===== src/Executor/Series/Total.antt =====
-- A series of events in order of time has every event in one bucket, and the loops end.
use flamedb.Base.{
  ℕ, zero, suc, ◌+◌, ◌≤◌, ◌<◌, ◌≡◌, refl, arith, false, not, ◌||◌, some, List, [], ◌∷◌, Bool-cases,
  inl, inr, ltb, leb, length, ◌==◌, ap, ◌∙◌,
}
use flamedb.Base.Int.{pos}
use flamedb.Executor.Series.{
  Sums, Sample, SeriesPoint, collect, is_fixed, add_calendar, advance, first_bucket, series_from,
  aggregate_series, aggregate, samples_of, aggregate_events,
}
use flamedb.Query.Duration.{DurSpec}
use flamedb.Query.Types.{AggType}
use flamedb.Storage.Event.{Event}

-- No event is before an earlier one, and none before the bound.
abbrev From : ℕ → List Sample → Type 0
From t [] = Unit
From t (e ∷ events) = (t ≤ e.timestamp) × From e.timestamp events

-- The events are at `t` or later, none before an earlier one.
abbrev pub InOrder : ℕ → List Event → Type 0
InOrder t [] = Unit
InOrder t (e ∷ events) = (n : ℕ) × (e.timestamp ≡ pos n) × (t ≤ n) × InOrder n events

abbrev pub total : List SeriesPoint → ℕ
total [] = 0
total (p ∷ points) = p.count + total points

From-weaken : (s t : ℕ) (events : List Sample) → s ≤ t → From t events → From s events
From-weaken s t [] h from = tt
From-weaken s t (e ∷ events) h (low, from) = (omega (arith, h, low), from)

collect_lem :
    (sums : Sums) (start high sum n : ℕ) (events : List Sample)
    → start ≤ high
    → From start events
    → (n ≤ (collect sums start high sum n events).1)
      × ((collect sums start high sum n events).1 + length (collect sums start high sum n events).2
          ≡ n + length events)
      × From high (collect sums start high sum n events).2
unfolding collect
collect_lem sums start high sum n [] le from = (omega arith, refl, tt)
collect_lem sums start high sum n (e ∷ events) le (low, from) =
    elim (Bool-cases (ltb e.timestamp start || not (ltb e.timestamp high))) [
      | inl stop ↦ rw stop (omega arith, refl, (ground (arith, stop, low), from))
      | inr go ↦ rw go (
          let (grown, counted, later) =
            collect_lem sums start high (sums.plus sum e.value) (n + 1) events le
              (From-weaken start e.timestamp events low from) in
          (omega (arith, grown), omega (arith, counted), later))
    ]

module _ (add_date : ℕ → ℕ → ℕ → ℕ) (sums : Sums) (spec : DurSpec)
    (grows : (t : ℕ) → t < add_calendar add_date sums spec t) where
  advance_lem :
      (fuel start high ts : ℕ)
      → start ≤ ts
      → 0 < fuel
      → ts + 1 < high + fuel
      → (s : ℕ) × (t : ℕ) × (advance add_date sums spec fuel start high ts ≡ some (s, t))
        × (s ≤ ts)
        × (ts < t)
  unfolding advance
  advance_lem zero start high ts low some_fuel enough = absurd (omega arith)
  advance_lem (suc fuel) start high ts low some_fuel enough = elim (Bool-cases (leb high ts)) [
    | inl before ↦
        let le : high ≤ ts = ground (arith, before) in
        let more = grows high in
        let (s, t, e, below, above) =
          advance_lem fuel high (add_calendar add_date sums spec high) ts le
            (omega (arith, le, enough)) (omega (arith, le, enough, more)) in
        (s, t, rw before e, below, above)
    | inr inside ↦ (start, high, rw inside refl, low, ground (arith, inside))
  ]

  first_bucket_low :
      (start high ts : ℕ) → start ≤ ts → (first_bucket add_date sums spec start high ts).0 ≤ ts
  first_bucket_low start high ts h = elim (Bool-cases (is_fixed spec)) [
    | inl fixed ↦ rw fixed (omega arith)
    | inr calendar ↦ rw calendar h
  ]

  -- One round of the outer loop.
  series_step :
      (fuel start high : ℕ) (agg : AggType) (e : Sample) (events rest : List Sample) (s t sum n : ℕ)
      (points : List SeriesPoint)
      → advance add_date sums spec
          (e.timestamp + 2)
          (first_bucket add_date sums spec start high e.timestamp).0
          (first_bucket add_date sums spec start high e.timestamp).1
          e.timestamp
        ≡ some (s, t)
      → collect sums s t (sums.of_count 0) 0 (e ∷ events) ≡ (sum, n, rest)
      → (t == s) ≡ false
      → series_from add_date sums spec fuel agg s t rest ≡ some points
      → series_from add_date sums spec (suc fuel) agg start high (e ∷ events)
        ≡ some (record { ts = s; value = aggregate sums agg sum n; count = n } ∷ points)
  unfolding series_from
  series_step fuel start high agg e events rest s t sum n points found collected wide made =
      rw (series_from, found, collected, wide, made)
        (ap
          (λ (c : ℕ × ℕ × List Sample).
            some (record { ts = s; value = aggregate sums agg c.0 c.1; count = c.1 } ∷ points))
          collected)

  series_from_lem :
      (fuel start high : ℕ) (agg : AggType) (events : List Sample)
      → length events < fuel
      → From start events
      → (points : List SeriesPoint) × (series_from add_date sums spec fuel agg start high events
          ≡ some points)
        × (total points ≡ length events)
  unfolding series_from
  series_from_lem zero start high agg events h from = absurd (omega arith)
  series_from_lem (suc fuel) start high agg [] h from = ([], refl, refl)
  series_from_lem (suc fuel) start high agg (e ∷ events) h (low, from) =
      let first = first_bucket add_date sums spec start high e.timestamp in
      let (s, t, found, below, above) =
        advance_lem (e.timestamp + 2) first.0 first.1 e.timestamp
          (first_bucket_low start high e.timestamp low) (omega arith) (omega arith) in
      let one : collect sums s t (sums.of_count 0) 0 (e ∷ events)
          ≡ collect sums s t (sums.plus (sums.of_count 0) e.value) 1 events =
        let inside : (ltb e.timestamp s || not (ltb e.timestamp t)) ≡ false =
          ground (arith, below, above) in
        rw inside refl in
      let (grown, counted, later) =
        collect_lem sums s t (sums.plus (sums.of_count 0) e.value) 1 events
          (omega (arith, below, above)) (From-weaken s e.timestamp events below from) in
      let rest = (collect sums s t (sums.plus (sums.of_count 0) e.value) 1 events).2 in
      let (points, made, counts) =
        series_from_lem fuel s t agg rest (omega (arith, grown, counted, h))
          (From-weaken s t rest (omega (arith, below, above)) later) in
      let sum = (collect sums s t (sums.plus (sums.of_count 0) e.value) 1 events).0 in
      let n = (collect sums s t (sums.plus (sums.of_count 0) e.value) 1 events).1 in
      let point : SeriesPoint = record { ts = s; value = aggregate sums agg sum n; count = n } in
      let wide : (t == s) ≡ false = ground (arith, below, above) in
      (
        point ∷ points,
        series_step fuel start high agg e events rest s t sum n points found one wide made,
        omega (arith, counts, counted),
      )

  samples_lem :
      (agg : AggType) (events : List Sample)
      → From 0 events
      → (points : List SeriesPoint) × (aggregate_series add_date sums spec agg events ≡ some points)
        × (total points ≡ length events)
  unfolding aggregate_series
  samples_lem agg events from =
      series_from_lem (length events + 1) 0 0 agg events (omega arith) from

  samples_of-From :
      (t : ℕ) (events : List Event)
      → InOrder t events
      → (samples : List Sample) × (samples_of add_date sums spec events ≡ some samples)
        × From t samples
        × (length samples ≡ length events)
  unfolding samples_of
  samples_of-From t [] h = ([], refl, tt, refl)
  samples_of-From t (e ∷ events) (n, at, low, rest) =
      let (samples, made, from, same) = samples_of-From n events rest in
      (
        record { timestamp = n; value = e.value } ∷ samples,
        ground (arith, made, at),
        (low, from),
        ap suc same,
      )

  -- For events from the epoch on, in order of time, and a bucket length that moves every time on,
  -- aggregateSeriesUTC ends, and the counts of its points add up to the number of the events.
  pub aggregate_events_lem :
      (agg : AggType) (events : List Event)
      → InOrder 0 events
      → (points : List SeriesPoint) × (aggregate_events add_date sums spec agg events ≡ some points)
        × (total points ≡ length events)
  unfolding aggregate_events
  aggregate_events_lem agg events h =
      let (samples, made, from, same) = samples_of-From 0 events h in
      let (points, found, counted) = samples_lem agg samples from in
      (points, rw made found, counted ∙ same)
