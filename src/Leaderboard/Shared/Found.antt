-- ===== src/Leaderboard/Shared/Found.antt =====
-- The scores that a scan has found: no more than the entities that are wanted.
use flamedb.Base.{
  ℕ, suc, ◌≤◌, ◌≡◌, ◌≢◌, refl, sym, true, false, Option, none, some, List, [], ◌∷◌, if◌then◌else◌,
  length, arith, Bool-cases, inl, inr, ap, ◌∙◌,
}
use flamedb.Base.Bytes.{Bytes, bytes_eq, bytes_eq_iff, bytes_eq_refl, bytes_eq_ne}
use flamedb.Base.Map.{Map, get, set, get-set}
use flamedb.Leaderboard.Shared.{has_text, keep_first}

-- Every key of the scores found is wanted, and none stands twice.
abbrev pub Found : List Bytes → Map ℕ → Type 0
Found wanted [] = Unit
Found wanted ((k, v) ∷ values) =
    (has_text wanted k ≡ true) × (get values k ≡ none) × Found wanted values

-- The list without the first occurrence.
without : List Bytes → Bytes → List Bytes
without [] s = []
without (t ∷ ts) s = if bytes_eq t s then ts else t ∷ without ts s

length-without :
    (ts : List Bytes) (s : Bytes) → has_text ts s ≡ true → length ts ≡ suc (length (without ts s))
unfolding without has_text
length-without [] s h = absurd (cc)
length-without (t ∷ ts) s h = elim (Bool-cases (bytes_eq t s)) [
  | inl same ↦ rw same refl
  | inr other ↦ rw other (ap suc (length-without ts s (rw other at h)))
]

has_text-without :
    (ts : List Bytes) (s u : Bytes)
    → bytes_eq s u ≡ false
    → has_text (without ts s) u ≡ has_text ts u
unfolding without has_text
has_text-without [] s u h = refl
has_text-without (t ∷ ts) s u h =
    ground (arith, bytes_eq_iff t s, bytes_eq_iff t u, bytes_eq_iff s u, has_text-without ts s u h)

Found-without :
    (ts : List Bytes) (s : Bytes) (values : Map ℕ)
    → get values s ≡ none
    → Found ts values
    → Found (without ts s) values
unfolding get
Found-without ts s [] h f = tt
Found-without ts s ((k, v) ∷ values) h f = elim (Bool-cases (bytes_eq k s)) [
  | inl same ↦ absurd (cc (rw same at h))
  | inr other ↦ (
    has_text-without ts s k (ground (arith, bytes_eq_iff k s, bytes_eq_iff s k)) ∙ f.0,
    f.1,
    Found-without ts s values (rw other at h) f.2,
  )
]

-- There are no more scores than texts that are wanted.
length-Found :
    (wanted : List Bytes) (values : Map ℕ) → Found wanted values → length values ≤ length wanted
length-Found wanted [] f = omega arith
length-Found wanted ((k, v) ∷ values) f = omega (
  arith,
  length-without wanted k f.0,
  length-Found (without wanted k) values (Found-without wanted k values f.1 f.2),
)

length-set :
    (values : Map ℕ) (k : Bytes) (v : ℕ)
    → get values k ≡ none
    → length (set values k v) ≡ suc (length values)
unfolding get set
length-set [] k v h = refl
length-set ((j, w) ∷ values) k v h = elim (Bool-cases (bytes_eq j k)) [
  | inl same ↦ absurd (cc (rw same at h))
  | inr other ↦ rw other (ap suc (length-set values k v (rw other at h)))
]

pub Found-set :
    (wanted : List Bytes) (values : Map ℕ) (k : Bytes) (v : ℕ)
    → has_text wanted k ≡ true
    → get values k ≡ none
    → Found wanted values
    → Found wanted (set values k v)
unfolding get set
Found-set wanted [] k v t h f = (t, refl, tt)
Found-set wanted ((j, w) ∷ values) k v t h f = elim (Bool-cases (bytes_eq j k)) [
  | inl same ↦ absurd (cc (rw same at h))
  | inr other ↦ rw other (
    f.0,
    get-set values k j v
        ∙ rw (bytes_eq_ne k j (λ e. cc (bytes_eq_refl k, ap (λ x. bytes_eq x k) (sym e)))) f.1,
    Found-set wanted values k v t (rw other at h) f.2,
  )
]

-- Where the scores are as many as the texts that are wanted, each of these has a score.
pub full_has_all :
    (wanted : List Bytes) (values : Map ℕ) (e : Bytes)
    → Found wanted values
    → length values ≡ length wanted
    → has_text wanted e ≡ true
    → get values e ≢ none
full_has_all wanted values e f full w h = absurd (
    omega (
      arith,
      length-set values e 0 h,
      length-Found wanted (set values e 0) (Found-set wanted values e 0 w h f),
    ))

pub keep_first-Found :
    (wanted : List Bytes) (values : Map ℕ) (k : Bytes) (v : ℕ) (o : Option ℕ)
    → has_text wanted k ≡ true
    → get values k ≡ o
    → Found wanted values
    → Found wanted (keep_first values k v o)
keep_first-Found wanted values k v none t e f = Found-set wanted values k v t e f
keep_first-Found wanted values k v (some old) t e f = f
