-- ===== src/Leaderboard/Page.antt =====
-- Paging: the two passes of TopN are one pass over their rows together, and that pass cuts the page
-- out of the entries.
use flamedb.Base.{
  ℕ, ◌≡◌, arith, false, List, [], ◌∷◌, ◌++◌, Bool-cases, inl, inr, if◌then◌else◌, ltb, ◌-◌, length,
  drop, some, suc, zero, append_assoc, length-append, Option-cases, ap, sym, ◌+◌, ◌∙◌, append-nil,
  reverse,
}
use flamedb.Base.Window.{window, room, room-nil, room-last, room-next, window-room, drop_nil}
use flamedb.Kv.{Row}
use flamedb.Leaderboard.{LeaderboardEntry, Scores, page, second_pass, is_full}
use flamedb.Query.Types.{ok, ◌>>=◌}

-- Each row's bytes are read as the entry beside it.
abbrev pub Reads : Scores → List Row → List LeaderboardEntry → Type 0
Reads scores [] [] = Unit
Reads scores (r ∷ rows) (e ∷ entries) = (scores.unmarshal r.1 ≡ some e) × Reads scores rows entries
Reads scores _ _ = ⊥

module _ (scores : Scores) (limit : ℕ) where
  -- The second pass goes on where the first ended.
  pub page-append :
      (front back : List Row) (offset : ℕ) (results : List LeaderboardEntry)
      → is_full limit results ≡ false
      → (page scores limit front offset results >>= second_pass scores limit back)
        ≡ (page scores limit (front ++ back) offset results >>= λ r. ok r.1)
  unfolding page
  page-append [] back offset results h = ground (arith, h)
  page-append ((k, bytes) ∷ front) back offset results h =
      elim (Option-cases (scores.unmarshal bytes)) [
        | inl bad ↦ ground (arith, bad)
        | inr (entry, read) ↦
            let results' = if ltb 0 offset then results else results ++ entry ∷ [] in
            elim (Bool-cases (is_full limit results')) [
              | inl full ↦ ground (arith, read, full)
              | inr space ↦
                  ground (arith, read, space, page-append front back (offset - 1) results' space)
            ]
      ]

  -- One pass from some results on, over rows that can be read.
  page_window :
      (rows : List Row) (entries : List LeaderboardEntry) (offset : ℕ)
      (results : List LeaderboardEntry)
      → Reads scores rows entries
      → is_full limit results ≡ false
      → (page scores limit rows offset results >>= λ r. ok r.1)
        ≡ ok (results ++ room limit (length results) (drop offset entries))
  unfolding page
  page_window [] [] offset results reads h = ap ok (
      sym (
        ap (λ es. results ++ room limit (length results) es) (drop_nil offset)
        ∙ ap (λ es. results ++ es) (room-nil limit (length results))
        ∙ append-nil results))
  page_window [] (e ∷ entries) offset results reads h = absurd reads
  page_window (r ∷ rows) [] offset results reads h = absurd reads
  page_window ((k, bytes) ∷ rows) (e ∷ entries) zero results (read, reads) h =
      let grown = length-append results (e ∷ []) in
      elim (Bool-cases (is_full limit (results ++ e ∷ []))) [
        | inl full ↦
            let last = room-last limit (length results) e entries h (rw (sym grown) full) in
            ground (arith, read, full, last)
        | inr space ↦
            let rest = page_window rows entries 0 (results ++ e ∷ []) reads space in
            let next = room-next limit (length results) e entries h in
            ground (
              arith,
              read,
              space,
              rest,
              grown,
              next,
              append_assoc results (e ∷ []) (room limit (length results + 1) entries),
            )
      ]
  page_window ((k, bytes) ∷ rows) (e ∷ entries) (suc offset) results (read, reads) h =
      ground (arith, read, h, page_window rows entries offset results reads h)

  pub pages_window :
      (front back : List Row) (offset : ℕ) (entries : List LeaderboardEntry)
      → Reads scores (front ++ back) entries
      → (page scores limit front offset [] >>= second_pass scores limit back)
        ≡ ok (window limit offset entries)
  pages_window front back offset entries reads =
      let h : is_full limit [] ≡ false = ground arith in
      page-append front back offset [] h
      ∙ page_window (front ++ back) entries offset [] reads h
      ∙ ap ok (window-room limit offset entries)

-- Reading row by row.
pub Reads-append :
    (scores : Scores) (front back : List Row) (es fs : List LeaderboardEntry)
    → Reads scores front es
    → Reads scores back fs
    → Reads scores (front ++ back) (es ++ fs)
Reads-append scores [] back [] fs p q = q
Reads-append scores [] back (e ∷ es) fs p q = absurd p
Reads-append scores (r ∷ front) back [] fs p q = absurd p
Reads-append scores (r ∷ front) back (e ∷ es) fs (read, p) q =
    (read, Reads-append scores front back es fs p q)

pub Reads-reverse :
    (scores : Scores) (rows : List Row) (es : List LeaderboardEntry)
    → Reads scores rows es
    → Reads scores (reverse rows) (reverse es)
Reads-reverse scores [] [] p = tt
Reads-reverse scores [] (e ∷ es) p = absurd p
Reads-reverse scores (r ∷ rows) [] p = absurd p
Reads-reverse scores (r ∷ rows) (e ∷ es) (read, p) =
    Reads-append scores (reverse rows) (r ∷ []) (reverse es) (e ∷ [])
      (Reads-reverse scores rows es p) (read, tt)
