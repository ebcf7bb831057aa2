-- ===== src/Storage/CardCache/Weight.antt =====
-- What the entries of the cardinality cache take, and how its operations change that.
use flamedb.Base.{
  ℕ, suc, ◌+◌, ◌≡◌, refl, none, some, [], ◌∷◌, arith, Bool-cases, inl, inr, subst, length,
}
use flamedb.Base.Bytes.{Bytes, bytes_eq, bytes_eq_iff, bytes_eq_sound}
use flamedb.Base.Map.{Map, get, set, delete, Distinct, Fresh}
use flamedb.Storage.CardCache.{size_of}

-- What the entries take.
unfoldable pub weight : Map ℕ → ℕ
weight [] = 0
weight ((key, ts) ∷ m) = size_of key + weight m

pub weight-set-some :
    (m : Map ℕ) (k : Bytes) (v w : ℕ)
    → get m k ≡ some w
    → (weight (set m k v) ≡ weight m) × (length (set m k v) ≡ length m)
unfolding get set weight
weight-set-some [] k v w h = absurd (cc)
weight-set-some ((j, u) ∷ m) k v w h = elim (Bool-cases (bytes_eq j k)) [
  | inl same ↦ ground (arith, same)
  | inr other ↦ ground (arith, other, weight-set-some m k v w (rw other at h))
]

pub weight-set-none :
    (m : Map ℕ) (k : Bytes) (v : ℕ)
    → get m k ≡ none
    → (weight (set m k v) ≡ size_of k + weight m) × (length (set m k v) ≡ suc (length m))
unfolding get set weight
weight-set-none [] k v h = (refl, refl)
weight-set-none ((j, u) ∷ m) k v h = elim (Bool-cases (bytes_eq j k)) [
  | inl same ↦ absurd (cc (rw same at h))
  | inr other ↦ ground (arith, other, weight-set-none m k v (rw other at h))
]

delete-Fresh : (m : Map ℕ) (k : Bytes) → Fresh k m → delete m k ≡ m
unfolding delete
delete-Fresh [] k h = refl
delete-Fresh ((j, u) ∷ m) k h = ground (arith, bytes_eq_iff j k, delete-Fresh m k h.1)

pub weight-delete :
    (m : Map ℕ) (k : Bytes) (w : ℕ)
    → Distinct m
    → get m k ≡ some w
    → (weight m ≡ size_of k + weight (delete m k)) × (length m ≡ suc (length (delete m k)))
unfolding get delete weight
weight-delete [] k w d h = absurd (cc)
weight-delete ((j, u) ∷ m) k w d h = elim (Bool-cases (bytes_eq j k)) [
  | inl same ↦ ground (
    arith,
    same,
    bytes_eq_sound j k same,
    delete-Fresh m k (subst (λ i. Fresh i m) (bytes_eq_sound j k same) d.0),
  )
  | inr other ↦ ground (arith, other, weight-delete m k w d.1 (rw other at h))
]
