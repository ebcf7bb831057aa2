-- ===== src/Base/Sort.antt =====
-- Sorting hashes: what sort.Slice does with the order of the numbers.
use flamedb.Base.{
  ℕ, ◌≤◌, ◌≡◌, ◌⊎◌, inl, inr, List, [], ◌∷◌, arith, leb, if◌then◌else◌, In, All, Bool-cases,
}

insert : ℕ → List ℕ → List ℕ
insert x [] = x ∷ []
insert x (y ∷ ys) = if leb x y then x ∷ y ∷ ys else y ∷ insert x ys

unfoldable pub sort : List ℕ → List ℕ
unfolding insert
sort [] = []
sort (x ∷ xs) = insert x (sort xs)

abbrev pub IsSorted : List ℕ → Type 0
IsSorted [] = Unit
IsSorted (x ∷ xs) = All (λ y. x ≤ y) xs × IsSorted xs

All-insert : (b x : ℕ) (ys : List ℕ) → b ≤ x → All (λ y. b ≤ y) ys → All (λ y. b ≤ y) (insert x ys)
unfolding insert
All-insert b x [] h a = (h, tt)
All-insert b x (y ∷ ys) h a = elim (Bool-cases (leb x y)) [
  | inl le ↦ rw le (h, a)
  | inr gt ↦ rw gt (a.0, All-insert b x ys h a.1)
]

All-weaken : (a b : ℕ) (ys : List ℕ) → a ≤ b → All (λ y. b ≤ y) ys → All (λ y. a ≤ y) ys
All-weaken a b [] h k = tt
All-weaken a b (y ∷ ys) h k = (omega arith, All-weaken a b ys h k.1)

insert-IsSorted : (x : ℕ) (ys : List ℕ) → IsSorted ys → IsSorted (insert x ys)
unfolding insert
insert-IsSorted x [] s = (tt, tt)
insert-IsSorted x (y ∷ ys) s = elim (Bool-cases (leb x y)) [
  | inl le ↦ rw le ((ground arith, All-weaken x y ys (ground arith) s.0), s)
  | inr gt ↦ rw gt (All-insert y x ys (ground arith) s.0, insert-IsSorted x ys s.1)
]

pub sort-IsSorted : (xs : List ℕ) → IsSorted (sort xs)
unfolding sort
sort-IsSorted [] = tt
sort-IsSorted (x ∷ xs) = insert-IsSorted x (sort xs) (sort-IsSorted xs)

In-insert : (a x : ℕ) (ys : List ℕ) → In a (insert x ys) → (a ≡ x) ⊎ In a ys
unfolding insert
In-insert a x [] i = i
In-insert a x (y ∷ ys) i = elim (Bool-cases (leb x y)) [
  | inl le ↦ rw le at i
  | inr gt ↦ elim (rw gt at i) [
    | inl e ↦ inr (inl e)
    | inr r ↦ elim (In-insert a x ys r) [ inl e ↦ inl e | inr s ↦ inr (inr s) ]
  ]
]

insert-In : (a x : ℕ) (ys : List ℕ) → (a ≡ x) ⊎ In a ys → In a (insert x ys)
unfolding insert
insert-In a x [] i = i
insert-In a x (y ∷ ys) i = elim (Bool-cases (leb x y)) [
  | inl le ↦ rw le i
  | inr gt ↦ rw gt (elim i [
    | inl e ↦ inr (insert-In a x ys (inl e))
    | inr r ↦ elim r [ inl e ↦ inl e | inr s ↦ inr (insert-In a x ys (inr s)) ]
  ])
]

pub In-sort : (a : ℕ) (xs : List ℕ) → In a (sort xs) → In a xs
unfolding sort
In-sort a (x ∷ xs) i = elim (In-insert a x (sort xs) i) [
  | inl e ↦ inl e
  | inr r ↦ inr (In-sort a xs r)
]
In-sort a [] i = i

pub sort-In : (a : ℕ) (xs : List ℕ) → In a xs → In a (sort xs)
unfolding sort
sort-In a [] i = i
sort-In a (x ∷ xs) (inl e) = insert-In a x (sort xs) (inl e)
sort-In a (x ∷ xs) (inr i) = insert-In a x (sort xs) (inr (sort-In a xs i))
