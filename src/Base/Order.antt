-- ===== src/Base/Order.antt =====
-- Sorting by a comparison, as sort.SliceStable does.
use flamedb.Base.{
  suc, ◌≡◌, refl, ap, ◌∙◌, Bool, true, false, List, [], ◌∷◌, if◌then◌else◌, length, In, ◌⊎◌, inl,
  inr, Bool-cases, ◌↔◌, subst, sym,
}
use flamedb.Base.Pairs.{Pairs}

module _ {A : Type 0} (less : A → A → Bool) where
  unfoldable pub insert_by : A → List A → List A
  insert_by x [] = x ∷ []
  insert_by x (y ∷ ys) = if less y x then y ∷ insert_by x ys else x ∷ y ∷ ys

  unfoldable pub sort_by : List A → List A
  unfolding insert_by
  sort_by [] = []
  sort_by (x ∷ xs) = insert_by x (sort_by xs)

  length-insert_by : (x : A) (ys : List A) → length (insert_by x ys) ≡ suc (length ys)
  unfolding insert_by
  length-insert_by x [] = refl
  length-insert_by x (y ∷ ys) = elim (Bool-cases (less y x)) [
    | inl later ↦ rw later (ap suc (length-insert_by x ys))
    | inr here ↦ rw here refl
  ]

  pub length-sort_by : (xs : List A) → length (sort_by xs) ≡ length xs
  unfolding sort_by
  length-sort_by [] = refl
  length-sort_by (x ∷ xs) = length-insert_by x (sort_by xs) ∙ ap suc (length-sort_by xs)

  In-insert_by : (e x : A) (ys : List A) → In e (insert_by x ys) ↔ ((e ≡ x) ⊎ In e ys)
  unfolding insert_by
  In-insert_by e x [] = ((λ i. i), λ i. i)
  In-insert_by e x (y ∷ ys) = elim (Bool-cases (less y x)) [
    | inr here ↦ rw here ((λ i. i), λ i. i)
    | inl later ↦ rw later (
      (λ i. elim i [
        | inl f ↦ inr (inl f)
        | inr j ↦ elim ((In-insert_by e x ys).0 j) [ inl f ↦ inl f | inr k ↦ inr (inr k) ]
      ]),
      λ i. elim i [
        | inl f ↦ inr ((In-insert_by e x ys).1 (inl f))
        | inr (inl f) ↦ inl f
        | inr (inr k) ↦ inr ((In-insert_by e x ys).1 (inr k))
      ],
    )
  ]

  pub In-sort_by : (e : A) (xs : List A) → In e (sort_by xs) ↔ In e xs
  unfolding sort_by
  In-sort_by e [] = ((λ i. i), λ i. i)
  In-sort_by e (x ∷ xs) = (
    (λ i. elim ((In-insert_by e x (sort_by xs)).0 i) [
      | inl f ↦ inl f
      | inr j ↦ inr ((In-sort_by e xs).0 j)
    ]),
    λ i. elim i [
      | inl f ↦ (In-insert_by e x (sort_by xs)).1 (inl f)
      | inr j ↦ (In-insert_by e x (sort_by xs)).1 (inr ((In-sort_by e xs).1 j))
    ],
  )

  module _ (asym : (a b : A) → less a b ≡ true → less b a ≡ false)
      (weak : (a b c : A) → less a b ≡ false → less b c ≡ false → less a c ≡ false) where
    insert_by-Pairs :
        (x : A) (ys : List A)
        → Pairs (λ a b. less b a ≡ false) ys
        → Pairs (λ a b. less b a ≡ false) (insert_by x ys)
    unfolding insert_by
    insert_by-Pairs x [] p = ((λ y i. elim i [ ]), tt)
    insert_by-Pairs x (y ∷ ys) (first, p) = elim (Bool-cases (less y x)) [
      | inr here ↦ rw here (
        (λ z i. elim i [
          | inl f ↦ subst (λ w. less w x ≡ false) (sym f) here
          | inr j ↦ weak z y x (first z j) here
        ]),
        (first, p),
      )
      | inl later ↦ rw later (
        (λ z i. elim ((In-insert_by z x ys).0 i) [
          | inl f ↦ subst (λ w. less w y ≡ false) (sym f) (asym y x later)
          | inr j ↦ first z j
        ]),
        insert_by-Pairs x ys p,
      )
    ]

    -- No later element is less than an earlier one.
    pub sort_by-Pairs : (xs : List A) → Pairs (λ a b. less b a ≡ false) (sort_by xs)
    unfolding sort_by
    sort_by-Pairs [] = tt
    sort_by-Pairs (x ∷ xs) = insert_by-Pairs x (sort_by xs) (sort_by-Pairs xs)
