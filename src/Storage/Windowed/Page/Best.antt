-- ===== src/Storage/Windowed/Page/Best.antt =====
-- leaderboardPage returns a slice of the best entries in order.
use flamedb.Base.{
  if◌then◌else◌, ◌==◌, ◌||◌, ℕ, zero, suc, ◌/◌, ◌≤◌, ◌<◌, ◌≡◌, refl, sym, ap, false, inl, inr, List,
  [], ◌∷◌, ◌++◌, ltb, leb, length, take, drop, In, arith, Bool-cases, subst, length-take,
  length-drop, append-In, In-append, ◌+◌,
}
use flamedb.Base.Pairs.{Pairs}
use flamedb.Storage.Windowed.{
  Ordering, leaderboard_before, select, leaderboard_page, wanted, chosen,
}
use flamedb.Storage.Windowed.Page.{Entry, IsOrdering}
use flamedb.Storage.Windowed.Page.Choice.{Split, select-Split}

take-drop : (k : ℕ) (xs : List Entry) → take k xs ++ drop k xs ≡ xs
take-drop zero xs = refl
take-drop (suc k) [] = refl
take-drop (suc k) (x ∷ xs) = ap (λ l. x ∷ l) (take-drop k xs)

take_all : (k : ℕ) (xs : List Entry) → length xs ≤ k → take k xs ≡ xs
take_all zero [] h = refl
take_all zero (x ∷ xs) h = absurd (omega (arith, h))
take_all (suc k) [] h = refl
take_all (suc k) (x ∷ xs) h = ap (λ l. x ∷ l) (take_all k xs (omega (arith, h)))

Pairs-front :
    (R : Entry → Entry → Type 0) (xs ys : List Entry)
    → Pairs R (xs ++ ys)
    → Pairs R xs × ((x y : Entry) → In x xs → In y ys → R x y)
Pairs-front R [] ys p = (tt, λ x y i j. elim i [ ])
Pairs-front R (z ∷ xs) ys (first, p) =
    let (front, cross) = Pairs-front R xs ys p in
    (
      (λ y i. first y (append-In y xs ys (inl i)), front),
      λ x y i j. elim i [
        | inl e ↦ subst (λ w. R w y) (sym e) (first y (append-In y xs ys (inr j)))
        | inr k ↦ cross x y k j
      ],
    )

module _ {o : Ordering} (laws : IsOrdering o) where
  abbrev NoBetter : Entry → Entry → Type 0
  NoBetter a b = leaderboard_before o b a ≡ false

  -- The best `k` of the entries in their order, and the others.
  pub record Best (sums : List Entry) (k : ℕ) (top rest : List Entry) : Type 0 where
    pub size : length top ≡ k
    pub sorted : Pairs NoBetter top
    pub split : Split laws sums top rest

  sorted-Split :
      (sums heap rest : List Entry) → Split laws sums heap rest → Split laws sums (o.sort heap) rest
  sorted-Split sums heap rest v = record {
    ordered = λ r s i j. v.ordered r s i ((laws.sort_same s heap).0 j);
    kept = λ e i. elim (v.kept e i) [ inl j ↦ inl ((laws.sort_same e heap).1 j) | inr j ↦ inr j ];
    from_heap = λ e i. v.from_heap e ((laws.sort_same e heap).0 i);
    from_rest = v.from_rest;
    counted = omega (arith, laws.length-sort heap, v.counted);
  }

  -- Of a sorted list the first `k` are the best.
  take-Best :
      (sums : List Entry) (k : ℕ)
      → k ≤ length sums
      → Best sums k (take k (o.sort sums)) (drop k (o.sort sums))
  take-Best sums k h =
      let all = take-drop k (o.sort sums) in
      let (front, cross) =
        Pairs-front NoBetter (take k (o.sort sums)) (drop k (o.sort sums))
          (subst (λ l. Pairs NoBetter l) (sym all) (laws.sort_sorted sums)) in
      record {
        size = ground (arith, length-take {0} k (o.sort sums), laws.length-sort sums, h);
        sorted = front;
        split = record {
          ordered = λ r s i j. cross s r j i;
          kept = λ e i.
              In-append e (take k (o.sort sums)) (drop k (o.sort sums))
                (subst (λ l. In e l) (sym all) ((laws.sort_same e sums).1 i));
          from_heap = λ e i. (laws.sort_same e sums).0 (
              subst (λ l. In e l) all
                (append-In e (take k (o.sort sums)) (drop k (o.sort sums)) (inl i)));
          from_rest = λ e i. (laws.sort_same e sums).0 (
              subst (λ l. In e l) all
                (append-In e (take k (o.sort sums)) (drop k (o.sort sums)) (inr i)));
          counted = ground (
            arith,
            length-take {0} k (o.sort sums),
            length-drop {0} k (o.sort sums),
            laws.length-sort sums,
            h,
          );
        };
      }

  first_Split : (es : List Entry) → Split laws es (o.init es) []
  first_Split es = record {
    ordered = λ r s i j. elim i [ ];
    kept = λ e i. inl ((laws.init_same e es).1 i);
    from_heap = λ e i. (laws.init_same e es).0 i;
    from_rest = λ e i. elim i [ ];
    counted = omega (arith, laws.length-init es);
  }

  chosen-Best :
      (sums : List Entry) (k : ℕ)
      → 0 < k
      → k ≤ length sums
      → (rest : List Entry) × Best sums k (take k (o.sort (chosen o k sums))) rest
  chosen-Best sums k some_wanted h = elim (Bool-cases (ltb k (length sums / 2))) [
    | inr many ↦ (drop k (o.sort sums), rw many (take-Best sums k h))
    | inl few ↦
        let size : length (take k sums) ≡ k = ground (arith, length-take {0} k sums, h) in
        let (rest, v, l) =
          select-Split laws (take k sums) (o.init (take k sums)) [] (drop k sums)
            (laws.init-IsHeap (take k sums)) (omega (arith, laws.length-init (take k sums), size))
            (first_Split (take k sums)) in
        let top = o.sort (select o (o.init (take k sums)) (drop k sums)) in
        let full : length top ≡ k = omega (
          arith,
          laws.length-sort (select o (o.init (take k sums)) (drop k sums)),
          l,
          laws.length-init (take k sums),
          size,
        ) in
        (
          rest,
          rw (few, take_all k top (omega (arith, full)))
              record {
                size = full;
                sorted = laws.sort_sorted (select o (o.init (take k sums)) (drop k sums));
                split = sorted-Split sums (select o (o.init (take k sums)) (drop k sums)) rest (
                    subst (λ l. Split laws l (select o (o.init (take k sums)) (drop k sums)) rest)
                      (take-drop k sums) v);
              },
        )
  ]

  wanted_lem :
      (limit offset n : ℕ)
      → offset < n
      → wanted limit offset n ≡ (if limit == 0 || leb n (offset + limit) then n else offset + limit)
  wanted_lem limit offset n h = ground arith

  -- With the heap or without it, leaderboardPage returns, for an offset within the entries, the
  -- slice from the offset on of the best entries in their order, of which there are as many as the
  -- offset and the limit take, or all of them where the limit is zero.
  pub leaderboard_page_lem :
      (sums : List Entry) (limit offset : ℕ)
      → offset < length sums
      → (top rest : List Entry) × (leaderboard_page o sums limit offset ≡ drop offset top)
        × Best sums
            (if limit == 0 || leb (length sums) (offset + limit)
              then length sums
              else offset + limit)
            top
            rest
  unfolding leaderboard_page
  leaderboard_page_lem sums limit offset h =
      let k = wanted limit offset (length sums) in
      let (rest, best) = chosen-Best sums k (ground arith) (ground arith) in
      let within : leb (length sums) offset ≡ false = ground arith in
      (
        take k (o.sort (chosen o k sums)),
        rest,
        rw within refl,
        subst (λ n. Best sums n (take k (o.sort (chosen o k sums))) rest)
            (wanted_lem limit offset (length sums) h) best,
      )
