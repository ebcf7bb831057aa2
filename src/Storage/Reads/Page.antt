-- ===== src/Storage/Reads/Page.antt =====
-- ReadPage and ScanDeleteWhere visit the same events: those that the filter selects.
use flamedb.Base.{
  ℕ, if◌then◌else◌, suc, zero, ◌≡◌, refl, arith, Option, none, some, List, ◌∷◌, [], ◌++◌, true,
  false, Bool, inl, inr, sym, ap, ◌∙◌, length, drop, reverse, ltb, leb, ◌&&◌, append-nil, ◌⊎◌,
  length-append, Bool-cases, ◌+◌, append_assoc,
}
use flamedb.Base.Bytes.{Bytes}
use flamedb.Base.Int.{ℤ, pos}
use flamedb.Base.Map.{Map}
use flamedb.Base.Window.{window, room, room-nil, room-last, room-next, window-room, drop_nil}
use flamedb.Kv.{Kv, Batch, Row, del}
use flamedb.Storage.Codec.{Json, ok, err, Result, ◌>>=◌, bind-ok, ok_inj, StorageError}
use flamedb.Storage.Event.{Event}
use flamedb.Storage.Reads.{
  read_rows, read_page, rows_between, delete_rows, scan_delete_where, matching_event, index_dels,
  read_range_with_tags,
}

-- The outcomes of one row.
outcome :
    (r : Result (Option (Bytes × Event)))
    → ((e : StorageError) × (r ≡ err e))
      ⊎ ((r ≡ ok none) ⊎ ((k : Bytes) × (e : Event) × (r ≡ ok (some (k, e)))))
outcome (err e) = inl (e, refl)
outcome (ok none) = inr (inl refl)
outcome (ok (some (k, e))) = inr (inr (k, e, refl))

module _ {Db : Type 0} (kv : Kv Db) (json : Json) (cardinality : Bytes → ℕ) where
  -- The events that the rows stand for and the filter lets through, if all can be read.
  unfoldable pub selected : Db → Bytes → Map Bytes → List Row → Result (List Event)
  selected db metric tags [] = ok []
  selected db metric tags (row ∷ rows) =
      let rest = selected db metric tags rows in
      elim (matching_event kv json cardinality db metric tags row) [
        | err e ↦ err e
        | ok none ↦ rest
        | ok (some (k, e)) ↦ rest >>= λ events. ok (e ∷ events)
      ]

  selected_there :
      (db : Db) (metric : Bytes) (tags : Map Bytes) (row : Row) (rows : List Row) (k : Bytes)
      (e : Event) (events : List Event)
      → matching_event kv json cardinality db metric tags row ≡ ok (some (k, e))
      → selected db metric tags (row ∷ rows) ≡ ok events
      → (selected db metric tags rows >>= λ more. ok (e ∷ more)) ≡ ok events
  unfolding selected
  selected_there db metric tags row rows k e events there h = ground (arith, there, h)

  read_rows-window :
      (db : Db) (metric : Bytes) (tags : Map Bytes) (limit : ℕ) (rows : List Row) (offset : ℕ)
      (before events : List Event)
      → (ltb 0 limit && leb limit (length before)) ≡ false
      → selected db metric tags rows ≡ ok events
      → read_rows kv json cardinality db metric tags limit rows offset before
        ≡ ok (before ++ room limit (length before) (drop offset events))
  unfolding selected read_rows
  read_rows-window db metric tags limit [] offset before events space h =
      let nothing : [] ≡ events = ok_inj h in
      ap ok (
        sym (
          ap (λ es. before ++ room limit (length before) (drop offset es)) (sym nothing)
          ∙ ap (λ es. before ++ room limit (length before) es) (drop_nil offset)
          ∙ ap (λ es. before ++ es) (room-nil limit (length before))
          ∙ append-nil before))
  read_rows-window db metric tags limit (row ∷ rows) zero before events space h =
      elim (outcome (matching_event kv json cardinality db metric tags row)) [
        | inl (e, bad) ↦ absurd (ground (arith, bad, h))
        | inr (inl gone) ↦
            let rest = read_rows-window db metric tags limit rows 0 before events space in
            ground (arith, gone, h, rest)
        | inr (inr (k, e, there)) ↦
            let (more, at_more, made) =
              bind-ok (selected db metric tags rows) _ events
                (selected_there db metric tags row rows k e events there h) in
            let grown = length-append before (e ∷ []) in
            let at_events : events ≡ e ∷ more = sym (ok_inj made) in
            elim (Bool-cases (ltb 0 limit && leb limit (length before + 1))) [
              | inl full ↦
                  let last = room-last limit (length before) e more space full in
                  ground (arith, there, grown, full, last, at_events)
              | inr left ↦
                  let left' : (ltb 0 limit && leb limit (length (before ++ e ∷ []))) ≡ false =
                    rw grown left in
                  let rest =
                    read_rows-window db metric tags limit rows 0 (before ++ e ∷ []) more left'
                      at_more in
                  let next = room-next limit (length before) e more space in
                  let flat = append_assoc before (e ∷ []) (room limit (length before + 1) more) in
                  ground (arith, there, grown, left, rest, next, flat, at_events)
            ]
      ]
  read_rows-window db metric tags limit (row ∷ rows) (suc offset) before events space h =
      elim (outcome (matching_event kv json cardinality db metric tags row)) [
        | inl (e, bad) ↦ absurd (ground (arith, bad, h))
        | inr (inl gone) ↦
            let rest =
              read_rows-window db metric tags limit rows (suc offset) before events space in
            ground (arith, gone, h, rest)
        | inr (inr (k, e, there)) ↦
            let (more, at_more, made) =
              bind-ok (selected db metric tags rows) _ events
                (selected_there db metric tags row rows k e events there h) in
            let rest =
              read_rows-window db metric tags limit rows offset before more space at_more in
            let at_events : events ≡ e ∷ more = sym (ok_inj made) in
            ground (arith, there, rest, at_events)
      ]

  -- The count is of the same events.
  delete_rows-length :
      (db : Db) (metric : Bytes) (tags : Map Bytes) (rows : List Row) (events : List Event)
      → selected db metric tags rows ≡ ok events
      → (ops : Batch) × (delete_rows kv json cardinality db metric tags rows
          ≡ ok (length events, ops))
  unfolding selected delete_rows
  delete_rows-length db metric tags [] events h =
      ([], ap (λ (es : List Event). ok (length es, [])) (ok_inj h))
  delete_rows-length db metric tags (row ∷ rows) events h =
      elim (outcome (matching_event kv json cardinality db metric tags row)) [
        | inl (e, bad) ↦ absurd (ground (arith, bad, h))
        | inr (inl gone) ↦
            let (ops, rest) =
              delete_rows-length db metric tags rows events (ground (arith, gone, h)) in
            (ops, ground (arith, gone, rest))
        | inr (inr (k, e, there)) ↦
            let (more, at_more, made) =
              bind-ok (selected db metric tags rows) _ events
                (selected_there db metric tags row rows k e events there h) in
            let (ops, rest) = delete_rows-length db metric tags rows more at_more in
            let at_events : events ≡ e ∷ more = sym (ok_inj made) in
            (
              index_dels (record e { metric = metric }) e.tags ++ del k ∷ ops,
              ground (arith, there, rest, at_events),
            )
      ]

  selected-append :
      (db : Db) (metric : Bytes) (tags : Map Bytes) (front back : List Row) (es fs : List Event)
      → selected db metric tags front ≡ ok es
      → selected db metric tags back ≡ ok fs
      → selected db metric tags (front ++ back) ≡ ok (es ++ fs)
  unfolding selected
  selected-append db metric tags [] back es fs h h' =
      h' ∙ ap (λ (xs : List Event). ok (xs ++ fs)) (ok_inj h)
  selected-append db metric tags (row ∷ front) back es fs h h' =
      elim (outcome (matching_event kv json cardinality db metric tags row)) [
        | inl (e, bad) ↦ absurd (ground (arith, bad, h))
        | inr (inl gone) ↦
            let rest =
              selected-append db metric tags front back es fs (ground (arith, gone, h)) h' in
            ground (arith, gone, rest)
        | inr (inr (k, e, there)) ↦
            let (more, at_more, made) =
              bind-ok (selected db metric tags front) _ es
                (selected_there db metric tags row front k e es there h) in
            let rest = selected-append db metric tags front back more fs at_more h' in
            let at_es : es ≡ e ∷ more = sym (ok_inj made) in ground (arith, there, rest, at_es)
      ]

  selected-reverse :
      (db : Db) (metric : Bytes) (tags : Map Bytes) (rows : List Row) (events : List Event)
      → selected db metric tags rows ≡ ok events
      → selected db metric tags (reverse rows) ≡ ok (reverse events)
  unfolding selected
  selected-reverse db metric tags [] events h = ap (λ (es : List Event). ok (reverse es)) (ok_inj h)
  selected-reverse db metric tags (row ∷ rows) events h =
      elim (outcome (matching_event kv json cardinality db metric tags row)) [
        | inl (e, bad) ↦ absurd (ground (arith, bad, h))
        | inr (inl gone) ↦
            let rest = selected-reverse db metric tags rows events (ground (arith, gone, h)) in
            let one : selected db metric tags (row ∷ []) ≡ ok [] = ground (arith, gone) in
            selected-append db metric tags (reverse rows) (row ∷ []) (reverse events) [] rest one
            ∙ ap ok (append-nil (reverse events))
        | inr (inr (k, e, there)) ↦
            let (more, at_more, made) =
              bind-ok (selected db metric tags rows) _ events
                (selected_there db metric tags row rows k e events there h) in
            let rest = selected-reverse db metric tags rows more at_more in
            let one : selected db metric tags (row ∷ []) ≡ ok (e ∷ []) = ground (arith, there) in
            selected-append db metric tags (reverse rows) (row ∷ []) (reverse more) (e ∷ []) rest
              one
            ∙ ap (λ (es : List Event). ok (reverse es)) (ok_inj made)
      ]

  -- ReadPage returns the page of the events that are selected.
  pub read_page-window :
      (db : Db) (metric : Bytes) (from to : ℤ) (tags : Map Bytes) (limit offset : ℕ) (desc : Bool)
      (events : List Event)
      → selected db metric tags (rows_between kv json cardinality db metric from to tags)
        ≡ ok events
      → read_page kv json cardinality db metric from to tags (pos limit) (pos offset) desc
        ≡ ok (window limit offset (if desc then reverse events else events))
  unfolding read_page
  read_page-window db metric from to tags limit offset false events h =
      read_rows-window db metric tags limit _ offset [] events (ground arith) h
      ∙ ap ok (window-room limit offset events)
  read_page-window db metric from to tags limit offset true events h =
      read_rows-window db metric tags limit _ offset [] (reverse events) (ground arith)
        (selected-reverse db metric tags _ events h)
      ∙ ap ok (window-room limit offset (reverse events))

  -- Where every row of the range can be read, ScanDeleteWhere, with a batch or as a dry run, counts
  -- as many events as ReadRangeWithTags returns.
  pub scan_delete_where-read_range_with_tags :
      (db : Db) (batch : Option Batch) (metric : Bytes) (from to : ℤ) (tags : Map Bytes)
      (events : List Event)
      → selected db metric tags (rows_between kv json cardinality db metric from to tags)
        ≡ ok events
      → (read_range_with_tags kv json cardinality db metric from to tags ≡ ok events)
        × ((staged : Option Batch) × (scan_delete_where kv json cardinality db batch metric from to
                tags
              ≡ ok (length events, staged)))
  unfolding scan_delete_where read_range_with_tags window
  scan_delete_where-read_range_with_tags db batch metric from to tags events h =
      let (ops, counted) = delete_rows-length db metric tags _ events h in
      (
        read_page-window db metric from to tags 0 0 false events h,
        (
          _,
          ap (λ r. r >>= λ (n, ops). ok (n, elim batch [ none ↦ none | some b ↦ some (b ++ ops) ]))
              counted,
        ),
      )
