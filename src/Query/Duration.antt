-- ===== src/Query/Duration.antt =====
-- parseCalendarSpec of internal/query/executor.go: durations such as 1y2mo, 90m or 1d12h.
pub mod Bounds
use flamedb.Base.{
  ℕ, zero, suc, ◌+◌, ◌-◌, ◌*◌, ◌/◌, ◌^◌, ◌<◌, Bool, true, false, ◌&&◌, ◌||◌, Option, none, some,
  List, [], ◌∷◌, ◌++◌, ltb, ◌==◌, if◌then◌else◌, drop, length,
}
use flamedb.Base.Bytes.{Bytes, codes, has_prefix, contains_byte}
use flamedb.Base.Decimal.{is_digit, read_digits}
use flamedb.Query.Types.{Result, ok, err, ◌>>=◌}

pub record DurSpec : Type 0 where
  pub years : ℕ
  pub months : ℕ
  pub dur : ℕ

abbrev pub max_int64 : ℕ
max_int64 = 2 ^ 63 - 1

abbrev pub second : ℕ
second = 1000000000

abbrev pub minute : ℕ
minute = 60 * second

abbrev pub hour : ℕ
hour = 60 * minute

-- spec[i:j], the digits at the front, and what follows them.
unfoldable pub span_digits : Bytes → Bytes × Bytes
span_digits [] = ([], [])
span_digits (c ∷ s) =
    let (digits, rest) = span_digits s in if is_digit c then (c ∷ digits, rest) else ([], c ∷ s)

-- What a unit does with its number. `scaled` is one of a fixed length.
pub data DurUnit : Type 0 where
  year month : DurUnit
  scaled : ℕ → DurUnit
  unknown : Bytes → DurUnit

abbrev pub unit_of : Bool → ℕ → DurUnit
unit_of calendar u =
    if u == b'y'
    then year
    else if u == b'm'
    then (if calendar then month else scaled minute)
    else if u == b'w'
    then scaled (7 * 24 * hour)
    else if u == b'd'
    then scaled (24 * hour)
    else if u == b'h'
    then scaled hour
    else if u == b's'
    then scaled second
    else unknown (u ∷ [])

-- The unit at the front of `u ∷ rest`: three letters, two, or one; and the rest of the spec.
unfoldable pub read_unit : Bool → ℕ → Bytes → DurUnit × Bytes
read_unit calendar u rest =
    if has_prefix (u ∷ rest) (codes "min")
    then (scaled minute, drop 2 rest)
    else if has_prefix (u ∷ rest) (codes "mo")
    then (month, drop 1 rest)
    else (unit_of calendar u, rest)

too_large : Bytes
too_large = codes "duration too large"

unfoldable pub apply_unit : DurUnit → ℕ → DurSpec → Result DurSpec
unfolding too_large
apply_unit year num out =
    if ltb 290 num then err too_large else ok (record out { years = out.years + num })
apply_unit month num out =
    if ltb 3480 num then err too_large else ok (record out { months = out.months + num })
apply_unit (scaled scale) num out =
    if ltb ((max_int64 - out.dur) / scale) num
    then err (codes "duration overflow")
    else ok (record out { dur = out.dur + num * scale })
apply_unit (unknown u) num out = err (codes "invalid duration unit: " ++ u)

-- strconv.ParseInt of a text of digits only
unfoldable pub parse_number : Bytes → Result ℕ
parse_number digits = elim (read_digits 0 digits) [
  | none ↦ err (codes "invalid syntax")
  | some num ↦ if ltb max_int64 num then err (codes "value out of range") else ok num
]

abbrev invalid : Bytes → Bytes
invalid spec = codes "invalid duration: " ++ spec

-- The number is read; then its unit.
unfoldable pub spec_number : Bytes → Bool → Bytes → Bytes → DurSpec → Result (DurSpec × Bytes)
unfolding parse_number read_unit apply_unit
spec_number spec calendar [] rest out = err (invalid spec)
spec_number spec calendar (c ∷ digits) [] out = err (invalid spec)
spec_number spec calendar (c ∷ digits) (u ∷ rest) out = parse_number (c ∷ digits) >>= λ num.
    apply_unit (read_unit calendar u rest).0 num out >>= λ out'.
    ok (out', (read_unit calendar u rest).1)

-- One round of the loop: the new sums and what is left of the text.
unfoldable pub spec_step : Bytes → Bool → Bytes → DurSpec → Result (DurSpec × Bytes)
unfolding spec_number span_digits
spec_step spec calendar input out =
    spec_number spec calendar (span_digits input).0 (span_digits input).1 out

-- The loop; `none` where the fuel runs out.
unfoldable pub spec_loop : ℕ → Bytes → Bool → Bytes → DurSpec → Option (Result DurSpec)
unfolding spec_step
spec_loop fuel spec calendar [] out = some (ok out)
spec_loop zero spec calendar (c ∷ input) out = none
spec_loop (suc fuel) spec calendar (c ∷ input) out =
    elim (spec_step spec calendar (c ∷ input) out) [
      | err e ↦ some (err e)
      | ok (out', rest) ↦ spec_loop fuel spec calendar rest out'
    ]

-- strings.Contains(spec, "mo")
unfoldable pub contains_mo : Bytes → Bool
contains_mo [] = false
contains_mo (c ∷ s) = has_prefix (c ∷ s) (codes "mo") || contains_mo s

abbrev require_positive : Option (Result DurSpec) → Result DurSpec
require_positive none = err []
require_positive (some (err e)) = err e
require_positive (some (ok out)) =
    if out.years == 0 && out.months == 0 && out.dur == 0
    then err (codes "duration must be positive")
    else ok out

abbrev pub no_duration : DurSpec
no_duration = record { years = 0; months = 0; dur = 0 }

unfoldable pub parse_calendar_spec : Bytes → Result DurSpec
unfolding spec_loop contains_mo
parse_calendar_spec spec =
    require_positive
      (spec_loop (length spec) spec (contains_byte spec b'y' || contains_mo spec) spec no_duration)

-- parseDurationSpec: the fixed part alone.
unfoldable pub parse_duration_spec : Bytes → Result ℕ
unfolding parse_calendar_spec
parse_duration_spec spec = parse_calendar_spec spec >>= λ d. ok d.dur
