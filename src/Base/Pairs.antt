-- ===== src/Base/Pairs.antt =====
-- A relation between every element of a list and every later one.
use mathlib.Core.List.{List, [], ◌∷◌, ◌++◌}
use mathlib.Core.Logic.{inl, inr}
use mathlib.Core.Path.{refl, subst, sym}
use flamedb.Base.Lists.{In, In-append, append-In, reverse}

abbrev pub Pairs : {A : Type 0} → (A → A → Type 0) → List A → Type 0
Pairs R [] = Unit
Pairs R (x ∷ xs) = ((y : _) → In y xs → R x y) × Pairs R xs

module _ {A : Type 0} where
  pub Pairs-append :
      (R : A → A → Type 0) (xs ys : List A)
      → Pairs R xs
      → Pairs R ys
      → ((x y : A) → In x xs → In y ys → R x y)
      → Pairs R (xs ++ ys)
  Pairs-append R [] ys p q cross = q
  Pairs-append R (x ∷ xs) ys (first, p) q cross = (
    λ y i. elim (In-append y xs ys i) [ inl j ↦ first y j | inr j ↦ cross x y (inl refl) j ],
    Pairs-append R xs ys p q (λ z y i j. cross z y (inr i) j),
  )

  pub Pairs-map :
      (R S : A → A → Type 0) (xs : List A)
      → ((x y : A) → In x xs → In y xs → R x y → S x y)
      → Pairs R xs
      → Pairs S xs
  Pairs-map R S [] f p = tt
  Pairs-map R S (x ∷ xs) f (first, p) = (
    λ y i. f x y (inl refl) (inr i) (first y i),
    Pairs-map R S xs (λ z y i j. f z y (inr i) (inr j)) p,
  )

  pub In-reverse : (x : A) (xs : List A) → In x (reverse xs) → In x xs
  In-reverse x [] i = i
  In-reverse x (y ∷ xs) i = elim (In-append x (reverse xs) (y ∷ []) i) [
    | inl j ↦ inr (In-reverse x xs j)
    | inr (inl e) ↦ inl e
    | inr (inr j) ↦ absurd j
  ]

  pub reverse-In : (x : A) (xs : List A) → In x xs → In x (reverse xs)
  reverse-In x [] i = i
  reverse-In x (y ∷ xs) (inl e) = append-In x (reverse xs) (y ∷ []) (inr (inl e))
  reverse-In x (y ∷ xs) (inr i) = append-In x (reverse xs) (y ∷ []) (inl (reverse-In x xs i))

  pub Pairs-reverse :
      (R S : A → A → Type 0) (xs : List A)
      → ((x y : A) → R x y → S y x)
      → Pairs R xs
      → Pairs S (reverse xs)
  Pairs-reverse R S [] f p = tt
  Pairs-reverse R S (x ∷ xs) f (first, p) =
      Pairs-append S (reverse xs) (x ∷ []) (Pairs-reverse R S xs f p) ((λ y i. absurd i), tt)
        (λ z y i j. elim j [
          | inl e ↦ subst (λ w. S z w) (sym e) (f x z (first z (In-reverse z xs i)))
          | inr k ↦ absurd k
        ])
