-- ===== src/Base/Lists.antt =====
-- Lists measured and indexed by native numbers, under the library's names, and predicates on lists.
use Prim.Native.Nat.{ℕ, zero, suc, ◌+◌, ◌-◌, min}
use mathlib.Core.List.{List, [], ◌∷◌, ◌++◌}
use mathlib.Core.Logic.{◌⊎◌, inl, inr}
use mathlib.Core.Option.{Option, none, some}
use mathlib.Core.Path.{◌≡◌, refl, ap}
use native.Mathlib.Nat.{zero-add, suc-add}
use native.Mathlib.Omega.{arith}

module _ {ℓ} {A : Type ℓ} where
  abbrev pub length : List A → ℕ
  length [] = 0
  length (x ∷ xs) = suc (length xs)

  abbrev pub get_elem? : List A → ℕ → Option A
  get_elem? [] i = none
  get_elem? (x ∷ xs) zero = some x
  get_elem? (x ∷ xs) (suc i) = get_elem? xs i

  abbrev pub take : ℕ → List A → List A
  take zero xs = []
  take (suc n) [] = []
  take (suc n) (x ∷ xs) = x ∷ take n xs

  abbrev pub drop : ℕ → List A → List A
  drop zero xs = xs
  drop (suc n) [] = []
  drop (suc n) (x ∷ xs) = drop n xs

  abbrev pub reverse : List A → List A
  reverse [] = []
  reverse (x ∷ xs) = reverse xs ++ x ∷ []

  pub length-append : (xs ys : List A) → length (xs ++ ys) ≡ length xs + length ys
  length-append [] ys = omega arith
  length-append (x ∷ xs) ys = omega (arith, length-append xs ys)

module _ {ℓ} {A : Type ℓ} where
  pub length-take : (n : ℕ) (xs : List A) → length (take n xs) ≡ min n (length xs)
  length-take zero xs = omega arith
  length-take (suc n) [] = omega arith
  length-take (suc n) (x ∷ xs) = omega (arith, length-take n xs)

  pub length-drop : (n : ℕ) (xs : List A) → length (drop n xs) ≡ length xs - n
  length-drop zero xs = omega arith
  length-drop (suc n) [] = omega arith
  length-drop (suc n) (x ∷ xs) = omega (arith, length-drop n xs)

  -- A run that is cut off a longer text at its own length comes back, and so does the rest.
  pub take-append : (xs ys : List A) → take (length xs) (xs ++ ys) ≡ xs
  take-append [] ys = refl
  take-append (x ∷ xs) ys = ap (λ r. x ∷ r) (take-append xs ys)

  pub drop-append : (xs ys : List A) → drop (length xs) (xs ++ ys) ≡ ys
  drop-append [] ys = refl
  drop-append (x ∷ xs) ys = drop-append xs ys

module _ {ℓ} {A : Type ℓ} where
  drop-nil : (n : ℕ) → drop {A = A} n [] ≡ []
  drop-nil zero = refl
  drop-nil (suc n) = refl

  -- Two cuts are one cut of the sum.
  pub drop-drop : (m n : ℕ) (xs : List A) → drop (m + n) xs ≡ drop n (drop m xs)
  drop-drop zero n xs = rw zero-add refl
  drop-drop (suc m) n [] = rw (suc-add, drop-nil n) refl
  drop-drop (suc m) n (x ∷ xs) = rw suc-add (drop-drop m n xs)

module _ {ℓ} {A : Type ℓ} where
  -- Texts that end in parts of one length are equal part by part.
  pub append_suffix_unique :
      (a b s t : List A) → length s ≡ length t → a ++ s ≡ b ++ t → (a ≡ b) × (s ≡ t)
  append_suffix_unique [] [] s t h e = (refl, e)
  append_suffix_unique [] (y ∷ b) s t h e =
      absurd (omega (arith, ap (λ (l : List A). length l) e, length-append b t))
  append_suffix_unique (x ∷ a) [] s t h e =
      absurd (omega (arith, ap (λ (l : List A). length l) e, length-append a s))
  append_suffix_unique (x ∷ a) (y ∷ b) s t h e =
      let r = append_suffix_unique a b s t h (cc e) in (cc (e, r.0), r.1)

  -- So are texts that begin with parts of one length.
  pub append_prefix_unique :
      (a b s t : List A) → length a ≡ length b → a ++ s ≡ b ++ t → (a ≡ b) × (s ≡ t)
  append_prefix_unique [] [] s t h e = (refl, e)
  append_prefix_unique [] (y ∷ b) s t h e = absurd (omega arith)
  append_prefix_unique (x ∷ a) [] s t h e = absurd (omega arith)
  append_prefix_unique (x ∷ a) (y ∷ b) s t h e =
      let r = append_prefix_unique a b s t (omega arith) (cc e) in (cc (e, r.0), r.1)

-- A predicate by recursion computes to tuples, which the tactics read and build.
abbrev pub All {κ ℓ} : {A : Type ℓ} (P : A → Type κ) → List A → Type κ
All P [] = Unit
All P (a ∷ rest) = P a × All P rest

pub All-append {ℓ κ} :
    {A : Type ℓ} (P : A → Type κ) (front back : List A)
    → All P front
    → All P back
    → All P (front ++ back)
All-append P (a ∷ front) back (here, there) h = (here, All-append P front back there h)
All-append P [] back h h' = h'

-- Membership that keeps the place.
abbrev pub In : {A : Type 0} → A → List A → Type 0
In a [] = ⊥
In a (b ∷ rest) = (a ≡ b) ⊎ In a rest

module _ {A : Type 0} where
  pub In-append : (a : A) (xs ys : List A) → In a (xs ++ ys) → In a xs ⊎ In a ys
  In-append a [] ys i = inr i
  In-append a (x ∷ xs) ys (inl e) = inl (inl e)
  In-append a (x ∷ xs) ys (inr i) = elim (In-append a xs ys i) [
    | inl j ↦ inl (inr j)
    | inr j ↦ inr j
  ]

  pub append-In : (a : A) (xs ys : List A) → In a xs ⊎ In a ys → In a (xs ++ ys)
  append-In a [] ys (inl i) = elim i [ ]
  append-In a [] ys (inr i) = i
  append-In a (x ∷ xs) ys (inl (inl e)) = inl e
  append-In a (x ∷ xs) ys (inl (inr i)) = inr (append-In a xs ys (inl i))
  append-In a (x ∷ xs) ys (inr i) = inr (append-In a xs ys (inr i))

  pub In-length : (a : A) (xs : List A) → In a xs → length xs ≡ 0 → ⊥
  In-length a [] i h = elim i [ ]
  In-length a (x ∷ xs) i h = omega arith

  pub nonempty_or : (xs : List A) → ((a : A) × In a xs) ⊎ (xs ≡ [])
  nonempty_or [] = inr refl
  nonempty_or (x ∷ xs) = inl (x, inl refl)
