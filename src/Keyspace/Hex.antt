-- ===== src/Keyspace/Hex.antt =====
-- Package encoding/hex, as component.go uses it.

use flamedb.Base.{
  ℕ, ◌+◌, ◌-◌, ◌*◌, ◌/◌, ◌%◌, ◌<◌, ◌≡◌, refl, ◌≢◌, ◌&&◌, Option, none, some, ◌⊎◌, [], ◌∷◌, arith,
  ltb, leb, if◌then◌else◌, All,
}
use flamedb.Base.Bytes.{Bytes, IsByte, Lacks}

hex_digit : ℕ → ℕ
hex_digit d = if ltb d 10 then b'0' + d else b'a' + (d - 10)

-- hex.EncodeToString
unfoldable pub hex_encode : Bytes → Bytes
unfolding hex_digit
hex_encode [] = []
hex_encode (b ∷ bs) = hex_digit (b / 16) ∷ hex_digit (b % 16) ∷ hex_encode bs

hex_value : ℕ → Option ℕ
hex_value c =
    if leb b'0' c && leb c b'9'
    then some (c - b'0')
    else if leb b'a' c && leb c b'f'
    then some (c - b'a' + 10)
    else if leb b'A' c && leb c b'F'
    then some (c - b'A' + 10)
    else none

pair : Option ℕ → Option ℕ → Option Bytes → Option Bytes
pair (some h) (some l) (some rest) = some ((h * 16 + l) ∷ rest)
pair _ _ _ = none

-- hex.DecodeString; both of its errors, a bad digit and an odd length, are `none`
unfoldable pub hex_decode : Bytes → Option Bytes
unfolding hex_value pair
hex_decode [] = some []
hex_decode (h ∷ []) = none
hex_decode (h ∷ l ∷ rest) = pair (hex_value h) (hex_value l) (hex_decode rest)

hex_value-hex_digit : (d : ℕ) → d < 16 → hex_value (hex_digit d) ≡ some d
unfolding hex_value hex_digit
hex_value-hex_digit d h = ground arith

pub hex-hex_encode : (s : Bytes) → All IsByte s → hex_decode (hex_encode s) ≡ some s
unfolding hex_decode hex_encode
hex-hex_encode [] h = refl
hex-hex_encode (b ∷ s) h = ground (
  arith,
  hex_value-hex_digit (b / 16) (omega arith),
  hex_value-hex_digit (b % 16) (omega arith),
  hex-hex_encode s h.1,
)

hex_digit_ne : (c d : ℕ) → d < 16 → c < b'0' ⊎ (b'9' < c) × (c < b'a') → hex_digit d ≢ c
unfolding hex_digit
hex_digit_ne c d h k = ground arith

-- No byte below the digits, or between the digits and the letters, occurs in an encoded text.
pub hex_encode-Lacks :
    (c : ℕ) (s : Bytes) → All IsByte s → c < b'0' ⊎ (b'9' < c) × (c < b'a') → Lacks c (hex_encode s)
unfolding hex_encode
hex_encode-Lacks c [] h k = tt
hex_encode-Lacks c (b ∷ s) h k = (
  hex_digit_ne c (b / 16) (omega arith) k,
  (hex_digit_ne c (b % 16) (omega arith) k, hex_encode-Lacks c s h.1 k),
)
