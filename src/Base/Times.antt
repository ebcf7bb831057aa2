-- ===== src/Base/Times.antt =====
-- How often a number stands in a list.
use flamedb.Base.{
  ℕ, zero, suc, ◌+◌, ◌<◌, ◌≡◌, refl, List, [], ◌∷◌, ◌++◌, if◌then◌else◌, ◌==◌, length, ltb, leb,
  arith, ==_refl,
}

unfoldable pub one : ℕ → ℕ → ℕ
one i x = if x == i then 1 else 0

unfoldable pub times : ℕ → List ℕ → ℕ
unfolding one
times i [] = 0
times i (x ∷ xs) = one i x + times i xs

pub one_self : (i : ℕ) → one i i ≡ 1
unfolding one
one_self i = ground (arith, ==_refl i)

pub times-append : (i : ℕ) (xs ys : List ℕ) → times i (xs ++ ys) ≡ times i xs + times i ys
unfolding times
times-append i [] ys = omega arith
times-append i (x ∷ xs) ys = omega (arith, times-append i xs ys)

-- The numbers from `from` on.
unfoldable pub span : ℕ → ℕ → List ℕ
span from zero = []
span from (suc n) = from ∷ span (suc from) n

pub length-span : (from n : ℕ) → length (span from n) ≡ n
unfolding span
length-span from zero = refl
length-span from (suc n) = omega (arith, length-span (suc from) n)

-- A number stands in a span once if it lies in it, and not at all elsewhere.
pub times-span :
    (i from n : ℕ)
    → times i (span from n) ≡ (if leb from i then (if ltb i (from + n) then 1 else 0) else 0)
unfolding times span one
times-span i from zero = ground arith
times-span i from (suc n) = ground (arith, times-span i (suc from) n)

-- Without the first occurrence.
drop_one : ℕ → List ℕ → List ℕ
drop_one x [] = []
drop_one x (y ∷ ys) = if y == x then ys else y ∷ drop_one x ys

times-drop_one :
    (i x : ℕ) (ys : List ℕ) → 0 < times x ys → times i ys ≡ one i x + times i (drop_one x ys)
unfolding times drop_one one
times-drop_one i x [] h = absurd (omega (arith, h))
times-drop_one i x (y ∷ ys) h = ground (arith, times-drop_one i x ys)

length-drop_one : (x : ℕ) (ys : List ℕ) → 0 < times x ys → length ys ≡ suc (length (drop_one x ys))
unfolding times drop_one one
length-drop_one x [] h = absurd (omega (arith, h))
length-drop_one x (y ∷ ys) h = ground (arith, length-drop_one x ys)

-- Lists in which every number stands equally often have one length.
pub length-times : (xs ys : List ℕ) → ((i : ℕ) → times i xs ≡ times i ys) → length xs ≡ length ys
unfolding times
length-times [] [] h = refl
length-times [] (y ∷ ys) h = absurd (omega (arith, h y, one_self y))
length-times (x ∷ xs) ys h = omega (
  arith,
  length-drop_one x ys (omega (arith, h x, one_self x)),
  length-times xs (drop_one x ys)
      (λ i. omega (arith, h i, times-drop_one i x ys (omega (arith, h x, one_self x)))),
)
