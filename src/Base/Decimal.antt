-- ===== src/Base/Decimal.antt =====
-- Decimal texts: %d of package fmt, and strconv.Atoi and ParseInt at base ten.
use flamedb.Base.{
  ℕ, zero, suc, ◌+◌, ◌-◌, ◌*◌, ◌/◌, ◌%◌, ◌^◌, ◌<◌, ◌≡◌, Bool, true, ◌&&◌, Option, none, some, [],
  ◌∷◌, ◌++◌, arith, ltb, leb, ◌==◌, if◌then◌else◌, Bool-cases, inl, inr, ◌∙◌, ap,
}
use flamedb.Base.Bytes.{Bytes}
use flamedb.Base.Int.{ℤ, pos, negsuc}

abbrev digits : ℕ → ℕ → Bytes
digits zero n = []
digits (suc fuel) n =
    let front = digits fuel (n / 10) in (if ltb n 10 then [] else front) ++ (b'0' + n % 10) ∷ []

-- A number has fewer digits than its successor.
unfoldable pub decimal : ℕ → Bytes
decimal n = digits (suc n) n

unfoldable pub is_digit : ℕ → Bool
is_digit c = leb b'0' c && leb c b'9'

-- The digits of a text, most significant first; `none` where a byte is no digit.
unfoldable pub read_digits : ℕ → Bytes → Option ℕ
unfolding is_digit
read_digits acc [] = some acc
read_digits acc (c ∷ s) = if is_digit c then read_digits (acc * 10 + (c - b'0')) s else none

abbrev at_most : ℕ → Option ℕ → Option ℕ
at_most limit none = none
at_most limit (some n) = if leb n limit then some n else none

abbrev negated : Option ℕ → Option ℤ
negated none = none
negated (some zero) = some (pos 0)
negated (some (suc n)) = some (negsuc n)

abbrev positive : Option ℕ → Option ℤ
positive none = none
positive (some n) = some (pos n)

unsigned : Bytes → Option ℕ
unfolding read_digits
unsigned [] = none
unsigned (c ∷ s) = read_digits 0 (c ∷ s)

-- strconv.ParseInt(s, 10, 64): an optional sign, then at least one digit, in the range of int64.
unfoldable pub parse_int : Bytes → Option ℤ
unfolding unsigned
parse_int [] = none
parse_int (c ∷ s) =
    if c == b'-'
    then negated (at_most (2 ^ 63) (unsigned s))
    else if c == b'+'
    then positive (at_most (2 ^ 63 - 1) (unsigned s))
    else positive (at_most (2 ^ 63 - 1) (unsigned (c ∷ s)))

read_digits-append :
    (acc n : ℕ) (s : Bytes) (c : ℕ)
    → read_digits acc s ≡ some n
    → is_digit c ≡ true
    → read_digits acc (s ++ c ∷ []) ≡ some (n * 10 + (c - b'0'))
unfolding read_digits
read_digits-append acc n [] c h d = ground arith
read_digits-append acc n (x ∷ s) c h d =
    ground (arith, read_digits-append (acc * 10 + (x - b'0')) n s c)

digit_lem : (n : ℕ) → is_digit (b'0' + n % 10) ≡ true
unfolding is_digit
digit_lem n = ground arith

read_digits-digits : (fuel n : ℕ) → n < fuel → read_digits 0 (digits fuel n) ≡ some n
read_digits-digits zero n h = absurd (omega arith)
read_digits-digits (suc fuel) n h = elim (Bool-cases (ltb n 10)) [
  | inl one ↦ rw one (unfold read_digits is_digit in ground arith)
  | inr more ↦ rw more (
      read_digits-append 0 (n / 10) (digits fuel (n / 10)) (b'0' + n % 10)
        (read_digits-digits fuel (n / 10) (ground arith)) (digit_lem n)
      ∙ ap some (omega arith))
]
