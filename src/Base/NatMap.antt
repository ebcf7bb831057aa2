-- ===== src/Base/NatMap.antt =====
-- Go's map[uint64]V as an association list over the hashes.
use flamedb.Base.{
  ℕ, ◌≡◌, refl, inl, inr, Option, none, some, List, [], ◌∷◌, arith, if◌then◌else◌, ◌==◌, In,
  Bool-cases,
}

abbrev pub NatMap {ℓ} : Type ℓ → Type ℓ
NatMap V = List (ℕ × V)

module _ {ℓ} {V : Type ℓ} where
  unfoldable pub get : NatMap V → ℕ → Option V
  get [] k = none
  get ((j, v) ∷ m) k = if j == k then some v else get m k

  unfoldable pub set : NatMap V → ℕ → V → NatMap V
  set [] k v = (k, v) ∷ []
  set ((j, w) ∷ m) k v = if j == k then (j, v) ∷ m else (j, w) ∷ set m k v

  unfoldable pub delete : NatMap V → ℕ → NatMap V
  delete [] k = []
  delete ((j, w) ∷ m) k = let rest = delete m k in if j == k then rest else (j, w) ∷ rest

  -- The keys, in the order of the list.
  unfoldable pub keys : NatMap V → List ℕ
  keys [] = []
  keys ((j, w) ∷ m) = j ∷ keys m

module _ {ℓ} {V : Type ℓ} where
  pub get-set :
      (m : NatMap V) (k j : ℕ) (v : V) → get (set m k v) j ≡ (if k == j then some v else get m j)
  unfolding get set
  get-set [] k j v = refl
  get-set ((i, w) ∷ m) k j v = ground (arith, get-set m k j v)

  pub get-delete :
      (m : NatMap V) (k j : ℕ) → get (delete m k) j ≡ (if k == j then none else get m j)
  unfolding get delete
  get-delete [] k j = ground arith
  get-delete ((i, w) ∷ m) k j = ground (arith, get-delete m k j)

  -- A key of the list is a key that is found, and the other way round.
  pub In-keys : (m : NatMap V) (k : ℕ) → In k (keys m) → (v : V) × (get m k ≡ some v)
  unfolding get keys
  In-keys [] k i = elim i [ ]
  In-keys ((j, w) ∷ m) k (inl e) = (w, ground arith)
  In-keys ((j, w) ∷ m) k (inr i) = elim (Bool-cases (j == k)) [
    | inl same ↦ (w, rw same refl)
    | inr other ↦ let (v, e) = In-keys m k i in (v, rw other e)
  ]

  pub keys-In : (m : NatMap V) (k : ℕ) (v : V) → get m k ≡ some v → In k (keys m)
  unfolding get keys
  keys-In [] k v e = absurd (cc)
  keys-In ((j, w) ∷ m) k v e = elim (Bool-cases (j == k)) [
    | inl same ↦ inl (ground arith)
    | inr other ↦ inr (keys-In m k v (rw other at e))
  ]
