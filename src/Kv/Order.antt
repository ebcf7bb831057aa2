-- ===== src/Kv/Order.antt =====
-- The order of keys is a strict total order.
use flamedb.Base.{
  refl, ◌++◌, length, In, List, sym, subst, ◌≡◌, true, false, [], ◌∷◌, arith, inl, inr, ℕ,
}
use flamedb.Base.Bytes.{Bytes, bytes_eq}
use flamedb.Base.Pairs.{Pairs}
use flamedb.Base.Words.{bytes_lt}
use flamedb.Kv.{Row, Ascending}

pub bytes_lt_trans :
    (a b c : Bytes) → bytes_lt a b ≡ true → bytes_lt b c ≡ true → bytes_lt a c ≡ true
unfolding bytes_lt
bytes_lt_trans a b [] h k = k
bytes_lt_trans [] b (z ∷ c) h k = cc
bytes_lt_trans (x ∷ a) [] (z ∷ c) h k = absurd (cc)
bytes_lt_trans (x ∷ a) (y ∷ b) (z ∷ c) h k = ground (arith, bytes_lt_trans a b c)

pub bytes_lt_irrefl : (a : Bytes) → bytes_lt a a ≡ false
unfolding bytes_lt
bytes_lt_irrefl [] = cc
bytes_lt_irrefl (x ∷ a) = ground (arith, bytes_lt_irrefl a)

-- Where neither of two keys is below the other they are equal.
pub bytes_lt_total :
    (a b : Bytes) → bytes_eq a b ≡ false → bytes_lt a b ≡ false → bytes_lt b a ≡ true
unfolding bytes_lt bytes_eq
bytes_lt_total [] [] h k = absurd (cc)
bytes_lt_total [] (y ∷ b) h k = absurd (cc)
bytes_lt_total (x ∷ a) [] h k = cc
bytes_lt_total (x ∷ a) (y ∷ b) h k = ground (arith, bytes_lt_total a b)

-- A key that is not below another, and above it in turn is a third.
pub bytes_le_trans :
    (a b c : Bytes) → bytes_lt b a ≡ false → bytes_lt b c ≡ true → bytes_lt a c ≡ true
unfolding bytes_lt
bytes_le_trans a b [] h k = k
bytes_le_trans [] b (z ∷ c) h k = cc
bytes_le_trans (x ∷ a) [] (z ∷ c) h k = absurd (cc)
bytes_le_trans (x ∷ a) (y ∷ b) (z ∷ c) h k = ground (arith, bytes_le_trans a b c)

abbrev pub Sorted : List Row → Type 0
Sorted = Pairs (λ r s. bytes_lt r.0 s.0 ≡ true)

below_rest :
    (r : Row) (rows : List Row)
    → Ascending (r ∷ rows)
    → (s : Row) → In s rows
    → bytes_lt r.0 s.0 ≡ true
below_rest r [] a s i = absurd i
below_rest r (q ∷ rows) (first, a) s (inl e) =
    subst (λ (t : Row). bytes_lt r.0 t.0 ≡ true) (sym e) first
below_rest r (q ∷ rows) (first, a) s (inr i) =
    bytes_lt_trans r.0 q.0 s.0 first (below_rest q rows a s i)

-- Rows in ascending order ascend from each to every later one.
pub Ascending-Sorted : (rows : List Row) → Ascending rows → Sorted rows
Ascending-Sorted [] a = tt
Ascending-Sorted (r ∷ []) a = (λ s i. absurd i, tt)
Ascending-Sorted (r ∷ q ∷ rows) (first, a) =
    (below_rest r (q ∷ rows) (first, a), Ascending-Sorted (q ∷ rows) a)

-- What two texts say of parts of one length at their fronts.
pub bytes_lt_front :
    (a b s t : Bytes)
    → length a ≡ length b
    → bytes_lt (a ++ s) (b ++ t) ≡ true
    → bytes_lt b a ≡ false
unfolding bytes_lt
bytes_lt_front [] b s t l h = cc
bytes_lt_front (x ∷ a) [] s t l h = cc
bytes_lt_front (x ∷ a) (y ∷ b) s t l h = ground (arith, bytes_lt_front a b s t (omega arith))

-- What lies from a text on and before the text with one more byte begins with the text.
pub prefix_between :
    (p : Bytes) (c : ℕ) (key : Bytes)
    → bytes_lt key p ≡ false
    → bytes_lt key (p ++ c ∷ []) ≡ true
    → (rest : Bytes) × (key ≡ p ++ rest)
unfolding bytes_lt
prefix_between [] c key low high = (key, refl)
prefix_between (y ∷ p) c [] low high = absurd (ground arith)
prefix_between (y ∷ p) c (x ∷ key) low high =
    let (rest, e) = prefix_between p c key (ground arith) (ground arith) in (rest, ground arith)
