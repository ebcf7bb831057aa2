-- ===== src/Storage/Windowed/Page/Choice.antt =====
-- The selection of a page's candidates with a heap, and the page.
use flamedb.Base.{
  ◌+◌, ◌<◌, ◌≡◌, refl, sym, ◌∙◌, true, false, ◌⊎◌, inl, inr, List, [], ◌∷◌, ◌++◌, length, In, arith,
  Bool-cases, subst, append-In, In-append, length-append, append-nil, append_assoc,
}
use flamedb.Storage.Windowed.{Ordering, leaderboard_before, select}
use flamedb.Storage.Windowed.Page.{Entry, IsOrdering, before_asym, before_weak}

module _ {o : Ordering} (laws : IsOrdering o) where
  -- `heap` and `rest` are the entries seen, and none of the rest comes before one of the heap.
  pub record Split (seen heap rest : List Entry) : Type 0 where
    pub ordered : (r s : Entry) → In r rest → In s heap → leaderboard_before o r s ≡ false
    pub kept : (e : Entry) → In e seen → In e heap ⊎ In e rest
    pub from_heap : (e : Entry) → In e heap → In e seen
    pub from_rest : (e : Entry) → In e rest → In e seen
    pub counted : length seen ≡ length heap + length rest

  -- The worst entry of the heap is replaced.
  replaced-Split :
      (seen heap rest : List Entry) (worst e : Entry)
      → laws.IsHeap (worst ∷ heap)
      → leaderboard_before o e worst ≡ true
      → Split seen (worst ∷ heap) rest
      → Split (seen ++ e ∷ []) (o.fix (e ∷ heap)) (worst ∷ rest)
  replaced-Split seen heap rest worst e h better v = record {
    ordered = λ r s i j. elim ((laws.fix_same s (e ∷ heap)).0 j) [
      | inl same ↦ rw same (new_last r i)
      | inr old ↦ old_order r s i old
    ];
    kept = λ x i. elim (In-append x seen (e ∷ []) i) [
      | inl old ↦ elim (v.kept x old) [
        | inl (inl w) ↦ inr (inl w)
        | inl (inr j) ↦ inl ((laws.fix_same x (e ∷ heap)).1 (inr j))
        | inr j ↦ inr (inr j)
      ]
      | inr (inl new) ↦ inl ((laws.fix_same x (e ∷ heap)).1 (inl new))
      | inr (inr nothing) ↦ elim nothing [ ]
    ];
    from_heap = λ x i. append-In x seen (e ∷ []) (elim ((laws.fix_same x (e ∷ heap)).0 i) [
      | inl new ↦ inr (inl new)
      | inr j ↦ inl (v.from_heap x (inr j))
    ]);
    from_rest = λ x i.
        append-In x seen (e ∷ [])
          (inl (elim i [ inl w ↦ v.from_heap x (inl w) | inr j ↦ v.from_rest x j ]));
    counted = omega (arith, length-append {0} seen (e ∷ []), laws.length-fix (e ∷ heap), v.counted);
  }
    where
      new_last : (r : Entry) → In r (worst ∷ rest) → leaderboard_before o r e ≡ false
      new_last r (inl w) = rw w (before_asym laws e worst better)
      new_last r (inr i) =
          before_weak laws r worst e (v.ordered r worst i (inl refl))
            (before_asym laws e worst better)

      old_order : (r s : Entry) → In r (worst ∷ rest) → In s heap → leaderboard_before o r s ≡ false
      old_order r s (inl w) j = rw w (laws.head_worst worst s heap h j)
      old_order r s (inr i) j = v.ordered r s i (inr j)

  -- The entry is not better than the worst of the heap.
  passed-Split :
      (seen heap rest : List Entry) (worst e : Entry)
      → laws.IsHeap (worst ∷ heap)
      → leaderboard_before o e worst ≡ false
      → Split seen (worst ∷ heap) rest
      → Split (seen ++ e ∷ []) (worst ∷ heap) (e ∷ rest)
  passed-Split seen heap rest worst e h no_better v = record {
    ordered = λ r s i j. passed r s i j;
    kept = λ x i. elim (In-append x seen (e ∷ []) i) [
      | inl old ↦ elim (v.kept x old) [ inl j ↦ inl j | inr j ↦ inr (inr j) ]
      | inr (inl new) ↦ inr (inl new)
      | inr (inr nothing) ↦ elim nothing [ ]
    ];
    from_heap = λ x i. append-In x seen (e ∷ []) (inl (v.from_heap x i));
    from_rest = λ x i.
        append-In x seen (e ∷ [])
          (elim i [ inl new ↦ inr (inl new) | inr j ↦ inl (v.from_rest x j) ]);
    counted = omega (arith, length-append {0} seen (e ∷ []), v.counted);
  }
    where
      below_heap : (s : Entry) → In s (worst ∷ heap) → leaderboard_before o e s ≡ false
      below_heap s (inl w) = subst (λ x. leaderboard_before o e x ≡ false) (sym w) no_better
      below_heap s (inr j) = before_weak laws e worst s no_better (laws.head_worst worst s heap h j)

      passed :
          (r s : Entry) → In r (e ∷ rest) → In s (worst ∷ heap) → leaderboard_before o r s ≡ false
      passed r s (inl new) j =
          subst (λ x. leaderboard_before o x s ≡ false) (sym new) (below_heap s j)
      passed r s (inr i) j = v.ordered r s i j

  -- The loop keeps the split, the number of the candidates and the heap.
  pub select-Split :
      (seen heap rest entries : List Entry)
      → laws.IsHeap heap
      → 0 < length heap
      → Split seen heap rest
      → (rest' : List Entry) × Split (seen ++ entries) (select o heap entries) rest'
        × (length (select o heap entries) ≡ length heap)
  unfolding select
  select-Split seen [] rest entries h some_heap v = absurd (omega (arith, some_heap))
  select-Split seen (worst ∷ heap) rest [] h some_heap v = (rest, rw (append-nil seen) v, refl)
  select-Split seen (worst ∷ heap) rest (e ∷ entries) h some_heap v =
      elim (Bool-cases (leaderboard_before o e worst)) [
        | inl better ↦
            let (rest', w, l) =
              select-Split (seen ++ e ∷ []) (o.fix (e ∷ heap)) (worst ∷ rest) entries
                (laws.fix-IsHeap worst e heap h) (omega (arith, laws.length-fix (e ∷ heap)))
                (replaced-Split seen heap rest worst e h better v) in
            (
              rest',
              rw (better, sym (append_assoc seen (e ∷ []) entries)) w,
              rw better (l ∙ laws.length-fix (e ∷ heap)),
            )
        | inr no_better ↦
            let (rest', w, l) =
              select-Split (seen ++ e ∷ []) (worst ∷ heap) (e ∷ rest) entries h some_heap
                (passed-Split seen heap rest worst e h no_better v) in
            (rest', rw (no_better, sym (append_assoc seen (e ∷ []) entries)) w, rw no_better l)
      ]
