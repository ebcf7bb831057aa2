-- ===== src/Base/Map.antt =====
-- Go's map[string]V as an association list. The list's order is the order in which one run of the
-- program happens to range over the map, which Go leaves open: theorems hold for every list.
use flamedb.Base.{
  ◌≡◌, refl, sym, ◌≢◌, Option, none, some, List, [], ◌∷◌, ◌++◌, Bool-cases, inl, inr, arith,
  if◌then◌else◌, ap,
}
use flamedb.Base.Bytes.{Bytes, bytes_eq, bytes_eq_iff, bytes_eq_refl}

abbrev pub Map {ℓ} : Type ℓ → Type ℓ
Map V = List (Bytes × V)

module _ {ℓ} {V : Type ℓ} where
  -- v, ok := m[k]
  unfoldable pub get : Map V → Bytes → Option V
  get [] k = none
  get ((j, v) ∷ m) k = if bytes_eq j k then some v else get m k

  -- m[k] = v
  unfoldable pub set : Map V → Bytes → V → Map V
  set [] k v = (k, v) ∷ []
  set ((j, w) ∷ m) k v = if bytes_eq j k then (j, v) ∷ m else (j, w) ∷ set m k v

  -- delete(m, k)
  unfoldable pub delete : Map V → Bytes → Map V
  delete [] k = []
  delete ((j, w) ∷ m) k = let rest = delete m k in if bytes_eq j k then rest else (j, w) ∷ rest

  -- No entry has the key `k`.
  abbrev pub Fresh : Bytes → Map V → Type ℓ
  Fresh k [] = Unit
  Fresh k ((j, v) ∷ m) = (j ≢ k) × Fresh k m

  -- No two entries have one key.
  abbrev pub Distinct : Map V → Type ℓ
  Distinct [] = Unit
  Distinct ((k, v) ∷ m) = Fresh k m × Distinct m

module _ {ℓ} {V : Type ℓ} where
  pub get-set :
      (m : Map V) (k j : Bytes) (v : V)
      → get (set m k v) j ≡ (if bytes_eq k j then some v else get m j)
  unfolding get set
  get-set [] k j v = refl
  get-set ((i, w) ∷ m) k j v =
      ground (arith, bytes_eq_iff k j, bytes_eq_iff i k, bytes_eq_iff i j, get-set m k j v)

  pub get-delete :
      (m : Map V) (k j : Bytes) → get (delete m k) j ≡ (if bytes_eq k j then none else get m j)
  unfolding get delete
  get-delete [] k j = ground arith
  get-delete ((i, w) ∷ m) k j =
      ground (arith, bytes_eq_iff k j, bytes_eq_iff i k, bytes_eq_iff i j, get-delete m k j)

  -- A new key is added at the end.
  pub set-Fresh : (m : Map V) (k : Bytes) (v : V) → Fresh k m → set m k v ≡ m ++ (k, v) ∷ []
  unfolding set
  set-Fresh [] k v h = refl
  set-Fresh ((j, w) ∷ m) k v h = ground (arith, bytes_eq_iff j k, set-Fresh m k v h.1)

  pub get-Fresh : (m : Map V) (k : Bytes) → Fresh k m → get m k ≡ none
  unfolding get
  get-Fresh [] k h = refl
  get-Fresh ((j, w) ∷ m) k h = ground (arith, bytes_eq_iff j k, get-Fresh m k h.1)

  pub Fresh-snoc :
      (j : Bytes) (m : Map V) (k : Bytes) (v : V) → Fresh j m → k ≢ j → Fresh j (m ++ (k, v) ∷ [])
  Fresh-snoc j [] k v h n = (n, tt)
  Fresh-snoc j ((i, w) ∷ m) k v h n = (h.0, Fresh-snoc j m k v h.1 n)

  pub Fresh-delete : (j k : Bytes) (m : Map V) → Fresh j m → Fresh j (delete m k)
  unfolding delete
  Fresh-delete j k [] h = tt
  Fresh-delete j k ((i, w) ∷ m) h = ground (arith, Fresh-delete j k m h.1)

  pub Distinct-delete : (k : Bytes) (m : Map V) → Distinct m → Distinct (delete m k)
  unfolding delete
  Distinct-delete k [] h = tt
  Distinct-delete k ((i, w) ∷ m) h = ground (arith, Distinct-delete k m h.1, Fresh-delete i k m h.0)

  pub Fresh-set : (j k : Bytes) (v : V) (m : Map V) → Fresh j m → k ≢ j → Fresh j (set m k v)
  unfolding set
  Fresh-set j k v [] h n = (n, tt)
  Fresh-set j k v ((i, w) ∷ m) h n = ground (arith, Fresh-set j k v m h.1 n)

  pub Distinct-set : (k : Bytes) (v : V) (m : Map V) → Distinct m → Distinct (set m k v)
  unfolding set
  Distinct-set k v [] h = (tt, tt)
  Distinct-set k v ((i, w) ∷ m) h = elim (Bool-cases (bytes_eq i k)) [
    | inl same ↦ rw same h
    | inr other ↦ rw other (
      Fresh-set i k v m h.0 (λ e. cc (bytes_eq_refl k, ap (λ x. bytes_eq x k) e)),
      Distinct-set k v m h.1,
    )
  ]

  -- None of the keys of the second map is in the first.
  abbrev pub FreshAll : Map V → Map V → Type ℓ
  FreshAll acc [] = Unit
  FreshAll acc ((k, v) ∷ tags) = Fresh k acc × FreshAll acc tags

  pub FreshAll-snoc :
      (acc tags : Map V) (k : Bytes) (v : V)
      → FreshAll acc tags
      → Fresh k tags
      → FreshAll (acc ++ (k, v) ∷ []) tags
  FreshAll-snoc acc [] k v h f = tt
  FreshAll-snoc acc ((j, w) ∷ tags) k v h f =
      (Fresh-snoc j acc k v h.0 (λ e. f.0 (sym e)), FreshAll-snoc acc tags k v h.1 f.1)

  pub FreshAll-nil : (tags : Map V) → FreshAll [] tags
  FreshAll-nil [] = tt
  FreshAll-nil ((k, v) ∷ tags) = (tt, FreshAll-nil tags)
