-- ===== src/Executor/Stripes.antt =====
-- The locks of a mutation are taken in one order, whatever its keys: each once, and ascending.
use flamedb.Base.{ℕ, ◌%◌, ◌<◌, ◌≤◌, arith, List, [], ◌∷◌, inl, inr, In, Bool-cases, ◌==◌, ap, All}
use flamedb.Base.Bytes.{Bytes}
use flamedb.Base.Pairs.{Pairs}
use flamedb.Base.Sort.{sort, IsSorted, sort-IsSorted, In-sort, sort-In}
use flamedb.Executor.{distinct, stripes_of, lock_order}

In-distinct : (a : ℕ) (xs : List ℕ) → In a (distinct xs) → In a xs
unfolding distinct
In-distinct a [] i = i
In-distinct a (x ∷ []) i = i
In-distinct a (x ∷ y ∷ xs) i = elim (Bool-cases (x == y)) [
  | inl same ↦ inr (In-distinct a (y ∷ xs) (rw same at i))
  | inr other ↦ first (rw other at i) (In-distinct a (y ∷ xs))
]
  where
    first :
        In a (x ∷ distinct (y ∷ xs))
        → (In a (distinct (y ∷ xs)) → In a (y ∷ xs))
        → In a (x ∷ y ∷ xs)
    first (inl e) rest = inl e
    first (inr j) rest = inr (rest j)

distinct-In : (a : ℕ) (xs : List ℕ) → In a xs → In a (distinct xs)
unfolding distinct
distinct-In a [] i = i
distinct-In a (x ∷ []) i = i
distinct-In a (x ∷ y ∷ xs) (inl e) = elim (Bool-cases (x == y)) [
  | inl same ↦ rw same (distinct-In a (y ∷ xs) (inl (ground (arith, same, e))))
  | inr other ↦ rw other (inl e)
]
distinct-In a (x ∷ y ∷ xs) (inr i) = elim (Bool-cases (x == y)) [
  | inl same ↦ rw same (distinct-In a (y ∷ xs) i)
  | inr other ↦ rw other (inr (distinct-In a (y ∷ xs) i))
]

In-stripes_of :
    (hash : Bytes → ℕ) (a : ℕ) (keys : List Bytes) → In a (stripes_of hash keys) → a < 1024
unfolding stripes_of
In-stripes_of hash a [] i = absurd i
In-stripes_of hash a (k ∷ keys) (inl e) = omega (arith, e)
In-stripes_of hash a (k ∷ keys) (inr i) = In-stripes_of hash a keys i

stripes_of-In :
    (hash : Bytes → ℕ) (k : Bytes) (keys : List Bytes)
    → In k keys
    → In (hash k % 1024) (stripes_of hash keys)
unfolding stripes_of
stripes_of-In hash k [] i = absurd i
stripes_of-In hash k (j ∷ keys) (inl e) = inl (ap (λ x. hash x % 1024) e)
stripes_of-In hash k (j ∷ keys) (inr i) = inr (stripes_of-In hash k keys i)

from_least : (y z : ℕ) (xs : List ℕ) → All (λ w. y ≤ w) xs → In z (y ∷ xs) → y ≤ z
from_least y z [] h (inl e) = omega (arith, e)
from_least y z [] h (inr i) = absurd i
from_least y z (w ∷ xs) (first, h) (inl e) = omega (arith, e)
from_least y z (w ∷ xs) (first, h) (inr (inl e)) = omega (arith, e, first)
from_least y z (w ∷ xs) (first, h) (inr (inr i)) = from_least y z xs h (inr i)

distinct-Pairs : (xs : List ℕ) → IsSorted xs → Pairs (λ a b. a < b) (distinct xs)
unfolding distinct
distinct-Pairs [] sorted = tt
distinct-Pairs (x ∷ []) sorted = (λ y i. absurd i, tt)
distinct-Pairs (x ∷ y ∷ xs) ((le, _), (least, sorted)) = elim (Bool-cases (x == y)) [
  | inl same ↦ rw same (distinct-Pairs (y ∷ xs) (least, sorted))
  | inr other ↦ rw other (
    λ z i.
        let above = from_least y z xs least (In-distinct z (y ∷ xs) i) in
        ground (arith, other, le, above),
    distinct-Pairs (y ∷ xs) (least, sorted),
  )
]

-- The locks of a mutation are taken in strictly ascending order, whatever the order of its keys;
-- each is one of 1024, and the stripe of every key is among them.
pub lock_order_lem :
    (hash : Bytes → ℕ) (keys : List Bytes)
    → Pairs (λ a b. a < b) (lock_order hash keys)
      × ((a : ℕ) → In a (lock_order hash keys) → a < 1024)
      × ((k : Bytes) → In k keys → In (hash k % 1024) (lock_order hash keys))
unfolding lock_order
lock_order_lem hash keys =
    let stripes = stripes_of hash keys in
    (
      distinct-Pairs (sort stripes) (sort-IsSorted stripes),
      λ a i. In-stripes_of hash a keys (In-sort a stripes (In-distinct a (sort stripes) i)),
      λ k i.
          distinct-In (hash k % 1024) (sort stripes)
            (sort-In (hash k % 1024) stripes (stripes_of-In hash k keys i)),
    )
