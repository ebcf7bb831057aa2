-- ===== src/Kv/Memory.antt =====
-- A store in memory: an association list, read in key order. It shows that the laws of a store can
-- be met, and runs the model on concrete data.
use flamedb.Base.{
  ◌≡◌, refl, true, false, some, some_inj, List, [], ◌∷◌, if◌then◌else◌, In, arith, inl, inr, not,
  ◌&&◌, Bool-cases, ap, ◌∙◌, sym, subst,
}
use flamedb.Base.Bytes.{Bytes, bytes_eq, bytes_eq_sound, bytes_eq_refl, bytes_eq_iff, bytes_eq_sym}
use flamedb.Base.Map.{Map, get, set, delete, get-set, get-delete}
use flamedb.Base.Words.{bytes_lt}
use flamedb.Kv.{Batch, put, del, settle, Row, Ascending, Kv, IsStore}
use flamedb.Kv.Order.{bytes_lt_trans, bytes_lt_irrefl, bytes_lt_total}

unfoldable pub apply : Map Bytes → Batch → Map Bytes
apply db [] = db
apply db (put k v ∷ ops) = apply (set db k v) ops
apply db (del k ∷ ops) = apply (delete db k) ops

-- A row into its place; a row of the same key is replaced.
unfoldable pub insert : Bytes → Bytes → List Row → List Row
insert k v [] = (k, v) ∷ []
insert k v ((j, w) ∷ rows) =
    let later = insert k v rows in
    if bytes_eq j k
    then (k, v) ∷ rows
    else if bytes_lt k j
    then (k, v) ∷ (j, w) ∷ rows
    else (j, w) ∷ later

unfoldable pub rows_of : Map Bytes → List Row
unfolding insert
rows_of [] = []
rows_of ((k, v) ∷ db) = insert k v (rows_of db)

unfoldable pub within : Bytes → Bytes → List Row → List Row
within low high [] = []
within low high ((k, v) ∷ rows) =
    let rest = within low high rows in
    if not (bytes_lt k low) && bytes_lt k high then (k, v) ∷ rest else rest

-- `k` is below every row.
abbrev Below : Bytes → List Row → Type 0
Below k [] = Unit
Below k (r ∷ rows) = (bytes_lt k r.0 ≡ true) × Below k rows

-- Each row is below all that follow.
abbrev Sorted : List Row → Type 0
Sorted [] = Unit
Sorted (r ∷ rows) = Below r.0 rows × Sorted rows

Below-trans : (k j : Bytes) (rows : List Row) → bytes_lt k j ≡ true → Below j rows → Below k rows
Below-trans k j [] h b = tt
Below-trans k j (r ∷ rows) h (first, b) = (bytes_lt_trans k j r.0 h first, Below-trans k j rows h b)

Below-insert :
    (k j v : Bytes) (rows : List Row)
    → bytes_lt k j ≡ true
    → Below k rows
    → Below k (insert j v rows)
unfolding insert
Below-insert k j v [] h b = (h, tt)
Below-insert k j v ((i, w) ∷ rows) h (first, b) = ground (arith, Below-insert k j v rows h b)

insert-Sorted : (k v : Bytes) (rows : List Row) → Sorted rows → Sorted (insert k v rows)
unfolding insert
insert-Sorted k v [] s = (tt, tt)
insert-Sorted k v ((j, w) ∷ rows) (b, s) = elim (Bool-cases (bytes_eq j k)) [
  | inl same ↦ rw same (subst (λ i. Below i rows) (bytes_eq_sound j k same) b, s)
  | inr other ↦ elim (Bool-cases (bytes_lt k j)) [
    | inl before ↦ rw (other, before) ((before, Below-trans k j rows before b), (b, s))
    | inr after ↦
        rw (other, after)
          (
            Below-insert j k v rows (bytes_lt_total k j (bytes_eq_sym j k other) after) b,
            insert-Sorted k v rows s,
          )
  ]
]

rows_of-Sorted : (db : Map Bytes) → Sorted (rows_of db)
unfolding rows_of
rows_of-Sorted [] = tt
rows_of-Sorted ((k, v) ∷ db) = insert-Sorted k v (rows_of db) (rows_of-Sorted db)

Below-In :
    (k : Bytes) (rows : List Row) (r : Row) → Below k rows → In r rows → bytes_lt k r.0 ≡ true
Below-In k [] r b i = absurd i
Below-In k (q ∷ rows) r (first, b) (inl e) = ap (λ (p : Row). bytes_lt k p.0) e ∙ first
Below-In k (q ∷ rows) r (first, b) (inr i) = Below-In k rows r b i

-- Reading a sorted list of rows.
get-In : (rows : List Row) (k v : Bytes) → get rows k ≡ some v → In (k, v) rows
unfolding get
get-In [] k v e = absurd (cc)
get-In ((j, w) ∷ rows) k v e = elim (Bool-cases (bytes_eq j k)) [
  | inl same ↦ inl (ground (arith, bytes_eq_sound j k same, some_inj (rw same at e)))
  | inr other ↦ inr (get-In rows k v (rw other at e))
]

In-get : (rows : List Row) (k v : Bytes) → Sorted rows → In (k, v) rows → get rows k ≡ some v
unfolding get
In-get [] k v s i = absurd i
In-get ((j, w) ∷ rows) k v (b, s) (inl e) = ground (arith, bytes_eq_refl j)
In-get ((j, w) ∷ rows) k v (b, s) (inr i) =
    ground
      (arith, bytes_eq_iff j k, bytes_lt_irrefl k, Below-In j rows (k, v) b i, In-get rows k v s i)

get-insert :
    (k v j : Bytes) (rows : List Row)
    → get (insert k v rows) j ≡ (if bytes_eq k j then some v else get rows j)
unfolding get insert
get-insert k v j [] = refl
get-insert k v j ((i, w) ∷ rows) =
    ground (arith, bytes_eq_iff k j, bytes_eq_iff i k, bytes_eq_iff i j, get-insert k v j rows)

get-rows_of : (db : Map Bytes) (k : Bytes) → get (rows_of db) k ≡ get db k
unfolding rows_of get
get-rows_of [] k = refl
get-rows_of ((j, v) ∷ db) k =
    get-insert j v k (rows_of db) ∙ ap (λ r. if bytes_eq j k then some v else r) (get-rows_of db k)

find-apply :
    (db : Map Bytes) (ops : Batch) (k : Bytes) → get (apply db ops) k ≡ settle ops k (get db k)
unfolding apply settle
find-apply db [] k = refl
find-apply db (put j v ∷ ops) k =
    find-apply (set db j v) ops k ∙ ap (settle ops k) (get-set db j k v)
find-apply db (del j ∷ ops) k =
    find-apply (delete db j) ops k ∙ ap (settle ops k) (get-delete db j k)

abbrev InRange : Bytes → Bytes → Bytes → Type 0
InRange low high k = (bytes_lt k low ≡ false) × (bytes_lt k high ≡ true)

In-within :
    (low high : Bytes) (rows : List Row) (r : Row)
    → In r (within low high rows)
    → In r rows × InRange low high r.0
unfolding within
In-within low high [] r i = absurd i
In-within low high ((k, v) ∷ rows) r i =
    elim (Bool-cases (not (bytes_lt k low) && bytes_lt k high)) [
      | inl inside ↦ kept inside (In-within low high rows r) (rw inside at i)
      | inr outside ↦ later (In-within low high rows r (rw outside at i))
    ]
  where
    later : In r rows × InRange low high r.0 → In r ((k, v) ∷ rows) × InRange low high r.0
    later (j, range) = (inr j, range)

    kept :
        not (bytes_lt k low) && bytes_lt k high ≡ true
        → (In r (within low high rows) → In r rows × InRange low high r.0)
        → In r ((k, v) ∷ within low high rows)
        → In r ((k, v) ∷ rows) × InRange low high r.0
    kept inside ih (inl e) =
        (inl e, subst (λ (q : Row). InRange low high q.0) (sym e) (ground (arith, inside)))
    kept inside ih (inr j) = later (ih j)

within-In :
    (low high : Bytes) (rows : List Row) (r : Row)
    → In r rows
    → InRange low high r.0
    → In r (within low high rows)
unfolding within
within-In low high [] r i range = absurd i
within-In low high ((k, v) ∷ rows) r i range =
    elim (Bool-cases (not (bytes_lt k low) && bytes_lt k high)) [
      | inl inside ↦
          rw inside (elim i [ inl e ↦ inl e | inr j ↦ inr (within-In low high rows r j range) ])
      | inr outside ↦ rw outside (elim i [
        | inl e ↦ absurd (excluded outside (subst (λ (q : Row). InRange low high q.0) e range))
        | inr j ↦ within-In low high rows r j range
      ])
    ]
  where
    excluded : not (bytes_lt k low) && bytes_lt k high ≡ false → InRange low high k → ⊥
    excluded h (l, u) = ground (arith, l, u)

Below-within :
    (k low high : Bytes) (rows : List Row) → Below k rows → Below k (within low high rows)
unfolding within
Below-within k low high [] b = tt
Below-within k low high ((j, v) ∷ rows) (first, b) = ground (arith, Below-within k low high rows b)

within-Sorted : (low high : Bytes) (rows : List Row) → Sorted rows → Sorted (within low high rows)
unfolding within
within-Sorted low high [] s = tt
within-Sorted low high ((k, v) ∷ rows) (b, s) =
    ground (arith, Below-within k low high rows b, within-Sorted low high rows s)

Sorted-Ascending : (rows : List Row) → Sorted rows → Ascending rows
Sorted-Ascending [] s = tt
Sorted-Ascending (r ∷ []) s = tt
Sorted-Ascending (r ∷ q ∷ rows) ((first, _), s) = (first, Sorted-Ascending (q ∷ rows) s)

abbrev pub memory : Kv (Map Bytes)
memory = record {
  find = λ db k. get db k;
  commit = λ db ops. apply db ops;
  scan = λ db low high. within low high (rows_of db);
}

pub memory-IsStore : IsStore memory
memory-IsStore = record {
  find-commit = find-apply;
  In-scan = λ db low high k v i.
      let (j, (above, below)) = In-within low high (rows_of db) (k, v) i in
      (sym (get-rows_of db k) ∙ In-get (rows_of db) k v (rows_of-Sorted db) j, above, below);
  scan-In = λ db low high k v e above below.
      within-In low high (rows_of db) (k, v) (get-In (rows_of db) k v (get-rows_of db k ∙ e))
        (above, below);
  scan-Ascending = λ db low high.
      Sorted-Ascending (within low high (rows_of db))
        (within-Sorted low high (rows_of db) (rows_of-Sorted db));
}
