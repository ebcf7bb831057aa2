-- ===== src/Base/Words.antt =====
-- Package encoding/binary: big-endian words of n bytes, and bytes.Compare.
use native.Mathlib.Nat.{pow-suc}
use flamedb.Base.{
  ℕ, zero, suc, ◌+◌, ◌*◌, ◌/◌, ◌%◌, ◌^◌, ◌<◌, ◌≡◌, refl, ap, Bool, true, false, ◌&&◌, ◌||◌, [], ◌∷◌,
  ◌++◌, arith, length, length-append, ltb, ◌==◌, All, All-append, drop, take, subst, drop-append,
  take-append,
}
use flamedb.Base.Bytes.{Bytes, IsByte, bytes_eq, bytes_eq_refl, bytes_eq_iff}

-- PutUint16, PutUint32 and PutUint64 at n = 2, 4, 8.
unfoldable pub put_uint : ℕ → ℕ → Bytes
put_uint zero x = []
put_uint (suc n) x = put_uint n (x / 256) ++ x % 256 ∷ []

unfoldable pub read_from : ℕ → Bytes → ℕ
read_from acc [] = acc
read_from acc (b ∷ bs) = read_from (acc * 256 + b) bs

-- Uint16, Uint32 and Uint64 of a slice that holds exactly the word.
abbrev pub uint : Bytes → ℕ
uint bs = read_from 0 bs

pub length-put_uint : (n x : ℕ) → length (put_uint n x) ≡ n
unfolding put_uint
length-put_uint zero x = refl
length-put_uint (suc n) x =
    omega (arith, length-append (put_uint n (x / 256)) (x % 256 ∷ []), length-put_uint n (x / 256))

pub put_uint-IsByte : (n x : ℕ) → All IsByte (put_uint n x)
unfolding put_uint
put_uint-IsByte zero x = tt
put_uint-IsByte (suc n) x =
    All-append IsByte (put_uint n (x / 256)) _ (put_uint-IsByte n (x / 256)) (omega arith)

read_from-append :
    (acc : ℕ) (xs : Bytes) (b : ℕ) → read_from acc (xs ++ b ∷ []) ≡ read_from acc xs * 256 + b
unfolding read_from
read_from-append acc [] b = refl
read_from-append acc (x ∷ xs) b = read_from-append (acc * 256 + x) xs b

pub uint-put_uint : (n x : ℕ) → x < 256 ^ n → uint (put_uint n x) ≡ x
unfolding put_uint read_from
uint-put_uint zero x h = omega arith
uint-put_uint (suc n) x h = omega (
  arith,
  read_from-append 0 (put_uint n (x / 256)) (x % 256),
  uint-put_uint n (x / 256) (omega (arith, pow-suc 256 n)),
)

pub put_uint-injective :
    (n x y : ℕ) → x < 256 ^ n → y < 256 ^ n → put_uint n x ≡ put_uint n y → x ≡ y
put_uint-injective n x y hx hy e =
    omega (arith, uint-put_uint n x hx, uint-put_uint n y hy, ap (read_from 0) e)

-- bytes.Compare(a, b) < 0
unfoldable pub bytes_lt : Bytes → Bytes → Bool
bytes_lt a [] = false
bytes_lt [] (y ∷ ys) = true
bytes_lt (x ∷ xs) (y ∷ ys) = ltb x y || (x == y && bytes_lt xs ys)

pub bytes_lt-append_left : (p s t : Bytes) → bytes_lt (p ++ s) (p ++ t) ≡ bytes_lt s t
unfolding bytes_lt
bytes_lt-append_left [] s t = refl
bytes_lt-append_left (x ∷ p) s t = ground (arith, bytes_lt-append_left p s t)

pub bytes_lt-snoc :
    (s t : Bytes) (a b : ℕ)
    → length s ≡ length t
    → bytes_lt (s ++ a ∷ []) (t ++ b ∷ []) ≡ (bytes_lt s t || (bytes_eq s t && ltb a b))
unfolding bytes_lt bytes_eq
bytes_lt-snoc [] [] a b h = ground arith
bytes_lt-snoc [] (y ∷ t) a b h = absurd (omega arith)
bytes_lt-snoc (x ∷ s) [] a b h = absurd (omega arith)
bytes_lt-snoc (x ∷ s) (y ∷ t) a b h = ground (arith, bytes_lt-snoc s t a b)

bytes_eq-put_uint :
    (n x y : ℕ) → x < 256 ^ n → y < 256 ^ n → bytes_eq (put_uint n x) (put_uint n y) ≡ (x == y)
bytes_eq-put_uint n x y hx hy = ground (
  arith,
  bytes_eq_iff (put_uint n x) (put_uint n y),
  ap uint {x = put_uint n x} {y = put_uint n y},
  uint-put_uint n x hx,
  uint-put_uint n y hy,
  bytes_eq_refl (put_uint n x),
)

-- Words of one width compare as their values do.
pub bytes_lt-put_uint :
    (n x y : ℕ) → x < 256 ^ n → y < 256 ^ n → bytes_lt (put_uint n x) (put_uint n y) ≡ ltb x y
unfolding put_uint bytes_lt
bytes_lt-put_uint zero x y hx hy = ground arith
bytes_lt-put_uint (suc n) x y hx hy =
    let bx : x / 256 < 256 ^ n = omega (arith, pow-suc 256 n) in
    let by : y / 256 < 256 ^ n = omega (arith, pow-suc 256 n) in
    ground (
      arith,
      bytes_lt-snoc (put_uint n (x / 256)) (put_uint n (y / 256)) (x % 256) (y % 256)
          (omega (arith, length-put_uint n (x / 256), length-put_uint n (y / 256))),
      bytes_lt-put_uint n (x / 256) (y / 256) bx by,
      bytes_eq-put_uint n (x / 256) (y / 256) bx by,
    )

-- A word is read back from the front of a longer text.
pub take-put_uint : (n x : ℕ) (s : Bytes) → take n (put_uint n x ++ s) ≡ put_uint n x
take-put_uint n x s =
    subst (λ k. take k (put_uint n x ++ s) ≡ put_uint n x) (length-put_uint n x)
      (take-append (put_uint n x) s)

pub drop-put_uint : (n x : ℕ) (s : Bytes) → drop n (put_uint n x ++ s) ≡ s
drop-put_uint n x s =
    subst (λ k. drop k (put_uint n x ++ s) ≡ s) (length-put_uint n x) (drop-append (put_uint n x) s)
