-- ===== src/Query/Duration/Bounds.antt =====
-- parseCalendarSpec ends, and its result fits an int64.
use native.Mathlib.Nat.{div-mul-le_self, mul-le-mul_right}
use flamedb.Base.{
  ℕ, zero, suc, ◌+◌, ◌*◌, ◌/◌, ◌≤◌, ◌<◌, ◌≡◌, ◌≢◌, refl, Bool, Option, none, some, [], ◌∷◌, arith,
  Bool-cases, inl, inr, length, length-drop, ltb, ◌∙◌, ap, subst, ◌-◌, ltb→le, ◌==◌, ◌&&◌,
}
use flamedb.Base.Bytes.{Bytes, codes, has_prefix}
use flamedb.Query.Duration.{
  DurSpec, spec_number, spec_step, spec_loop, span_digits, apply_unit, parse_calendar_spec,
  max_int64, DurUnit, year, month, scaled, unknown, read_unit, parse_number, no_duration,
  require_positive,
}
use flamedb.Query.Types.{Result, ok, err, >>=-eq-ok}

span_digits_rest : (s : Bytes) → length (span_digits s).1 ≤ length s
unfolding span_digits
span_digits_rest [] = omega arith
span_digits_rest (c ∷ s) = ground (arith, span_digits_rest s)

read_unit_rest :
    (calendar : Bool) (u : ℕ) (rest : Bytes) → length (read_unit calendar u rest).1 ≤ length rest
unfolding read_unit
read_unit_rest calendar u rest = elim (Bool-cases (has_prefix (u ∷ rest) (codes "min"))) [
  | inl long ↦ rw long (omega (arith, length-drop 2 rest))
  | inr short ↦ rw short (elim (Bool-cases (has_prefix (u ∷ rest) (codes "mo"))) [
    | inl two ↦ rw two (omega (arith, length-drop 1 rest))
    | inr one ↦ rw one (omega arith)
  ])
]

-- What a successful round has done: its number and its unit, and how much text is left.
spec_number_inv :
    (spec : Bytes) (calendar : Bool) (digits rest : Bytes) (out out' : DurSpec) (rest' : Bytes)
    → spec_number spec calendar digits rest out ≡ ok (out', rest')
    → (unit : DurUnit) × (num : ℕ) × (apply_unit unit num out ≡ ok out')
      × (length rest' < length rest)
unfolding spec_number
spec_number_inv spec calendar [] rest out out' rest' h = absurd (cc)
spec_number_inv spec calendar (c ∷ digits) [] out out' rest' h = absurd (cc)
spec_number_inv spec calendar (c ∷ digits) (u ∷ rest) out out' rest' h =
    let (num, _, applied) = >>=-eq-ok (parse_number (c ∷ digits)) _ h in
    let (made, e, same) = >>=-eq-ok (apply_unit (read_unit calendar u rest).0 num out) _ applied in
    (
      (read_unit calendar u rest).0,
      num,
      e ∙ ap ok (pair_first same),
      subst (λ r. length r < suc (length rest)) (pair_second same)
          (omega (arith, read_unit_rest calendar u rest)),
    )
  where
    pair_first :
        {a b : DurSpec} {s t : Bytes}
        → ◌≡◌ {A = Result (DurSpec × Bytes)} (ok (a, s)) (ok (b, t))
        → a ≡ b
    pair_first e = cc

    pair_second :
        {a b : DurSpec} {s t : Bytes}
        → ◌≡◌ {A = Result (DurSpec × Bytes)} (ok (a, s)) (ok (b, t))
        → s ≡ t
    pair_second e = cc

ok-injective : {a b : DurSpec} → ok a ≡ ok b → a ≡ b
ok-injective h = cc

apply_unit-dur :
    (unit : DurUnit) (num : ℕ) (out out' : DurSpec)
    → apply_unit unit num out ≡ ok out'
    → out.dur ≤ max_int64
    → out'.dur ≤ max_int64
unfolding apply_unit
apply_unit-dur year num out out' h b = ground arith
apply_unit-dur month num out out' h b = ground arith
apply_unit-dur (scaled scale) num out out' h b =
    let room = (max_int64 - out.dur) / scale in
    elim (Bool-cases (ltb room num)) [
      | inl over ↦ absurd (cc (rw over at h))
      | inr fits ↦
          let same : out.dur + num * scale ≡ out'.dur =
            ap (λ (o : DurSpec). o.dur) (ok-injective (rw fits at h)) in
          omega (
            arith,
            ltb→le room num fits,
            mul-le-mul_right scale (ltb→le room num fits),
            div-mul-le_self (max_int64 - out.dur) scale,
            same,
          )
    ]
apply_unit-dur (unknown u) num out out' h b = absurd (cc)

spec_loop_dur :
    (fuel : ℕ) (spec : Bytes) (calendar : Bool) (input : Bytes) (out out' : DurSpec)
    → spec_loop fuel spec calendar input out ≡ some (ok out')
    → out.dur ≤ max_int64
    → out'.dur ≤ max_int64
unfolding spec_loop spec_step
spec_loop_dur fuel spec calendar [] out out' h b = ground arith
spec_loop_dur zero spec calendar (c ∷ input) out out' h b = absurd (cc)
spec_loop_dur (suc fuel) spec calendar (c ∷ input) out out' h b =
    go (spec_step spec calendar (c ∷ input) out) refl
      (λ rest o. spec_loop_dur fuel spec calendar rest o out')
  where
    go :
        (r : Result (DurSpec × Bytes))
        → spec_step spec calendar (c ∷ input) out ≡ r
        → ((rest : Bytes) (o : DurSpec)
            → spec_loop fuel spec calendar rest o ≡ some (ok out')
            → o.dur ≤ max_int64
            → out'.dur ≤ max_int64)
        → out'.dur ≤ max_int64
    go (err e) eq ih = absurd (cc (rw (eq, spec_loop) at h))
    go (ok (o, rest)) eq ih =
        let (unit, num, applied, _) = spec_number_inv spec calendar _ _ out o rest eq in
        ih rest o (rw (eq, spec_loop) at h) (apply_unit-dur unit num out o applied b)

spec_loop_total :
    (fuel : ℕ) (spec : Bytes) (calendar : Bool) (input : Bytes) (out : DurSpec)
    → length input ≤ fuel
    → spec_loop fuel spec calendar input out ≢ none
unfolding spec_loop spec_step
spec_loop_total fuel spec calendar [] out h = λ e. cc
spec_loop_total zero spec calendar (c ∷ input) out h = absurd (omega arith)
spec_loop_total (suc fuel) spec calendar (c ∷ input) out h =
    go (spec_step spec calendar (c ∷ input) out) refl
      (λ rest o. spec_loop_total fuel spec calendar rest o)
  where
    go :
        (r : Result (DurSpec × Bytes))
        → spec_step spec calendar (c ∷ input) out ≡ r
        → ((rest : Bytes) (o : DurSpec)
            → length rest ≤ fuel
            → spec_loop fuel spec calendar rest o ≢ none)
        → spec_loop (suc fuel) spec calendar (c ∷ input) out ≢ none
    go (err e) eq ih = λ n. cc (rw (eq, spec_loop) at n)
    go (ok (o, rest)) eq ih =
        let (_, _, _, shorter) = spec_number_inv spec calendar _ _ out o rest eq in
        λ n. ih rest o (omega (arith, span_digits_rest (c ∷ input))) (rw (eq, spec_loop) at n)

-- The loop of parseCalendarSpec comes to an end on every text, in at most one round per byte.
pub spec_loop-ne-none :
    (spec : Bytes) (calendar : Bool) (out : DurSpec)
    → spec_loop (length spec) spec calendar spec out ≢ none
spec_loop-ne-none spec calendar out =
    spec_loop_total (length spec) spec calendar spec out (omega arith)

require_positive-ok :
    (o : Option (Result DurSpec)) {out : DurSpec}
    → require_positive o ≡ ok out
    → (o ≡ some (ok out)) × (0 < out.years + out.months + out.dur)
require_positive-ok none h = absurd (cc)
require_positive-ok (some (err e)) h = absurd (cc)
require_positive-ok (some (ok made)) {out} h =
    elim (Bool-cases (made.years == 0 && made.months == 0 && made.dur == 0)) [
      | inl empty ↦ absurd (cc (rw empty at h))
      | inr positive ↦
          let same : made ≡ out = ok-injective (rw positive at h) in
          (
            ap (λ o. some (ok o)) same,
            subst (λ (o : DurSpec). 0 < o.years + o.months + o.dur) same (ground arith),
          )
    ]

-- A duration that parseCalendarSpec accepts is not zero, and its fixed part fits an int64.
pub parse_calendar_spec_lem :
    (spec : Bytes) (out : DurSpec)
    → parse_calendar_spec spec ≡ ok out
    → (0 < out.years + out.months + out.dur) × (out.dur ≤ max_int64)
unfolding parse_calendar_spec
parse_calendar_spec_lem spec out h =
    let (ended, positive) = require_positive-ok _ h in
    (positive, spec_loop_dur (length spec) spec _ spec no_duration out ended (omega arith))
