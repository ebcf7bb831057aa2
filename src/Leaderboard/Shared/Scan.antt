-- ===== src/Leaderboard/Shared/Scan.antt =====
-- The scan of a board finds the first row of each entity that is wanted.
use flamedb.Base.{
  ℕ, suc, ◌≡◌, refl, sym, true, false, Option, none, some, List, [], ◌∷◌, if◌then◌else◌, length,
  ◌==◌, arith, Bool-cases, Option-cases, inl, inr, ◌∙◌, subst,
}
use flamedb.Base.Bytes.{Bytes, bytes_eq, bytes_eq_sound, bytes_eq_ne}
use flamedb.Base.Map.{Map, get, get-set}
use flamedb.Kv.{Kv, Row}
use flamedb.Leaderboard.{Scores, legacy_value, LeaderboardEntry}
use flamedb.Leaderboard.Shared.{collect, has_text, score_or_zero, with_first, keep_first}
use flamedb.Leaderboard.Shared.Found.{Found, full_has_all, keep_first-Found}

-- What the scores found so far and the rest of the rows say of an entity.
abbrev pub first_score : Option ℕ → ℕ → ℕ
first_score none rest = rest
first_score (some v) rest = v

first_score-keep_first :
    (values : Map ℕ) (k e : Bytes) (v rest : ℕ) (o : Option ℕ)
    → get values k ≡ o
    → first_score (get (keep_first values k v o) e) rest
      ≡ first_score (get values e) (if bytes_eq k e then v else rest)
first_score-keep_first values k e v rest none h = elim (Bool-cases (bytes_eq k e)) [
  | inl same ↦
      let none_here : get values e ≡ none =
        subst (λ x. get values x ≡ none) (bytes_eq_sound k e same) h in
      rw (get-set values k e v, same, none_here) refl
  | inr other ↦ rw (get-set values k e v, other) refl
]
first_score-keep_first values k e v rest (some old) h = elim (Bool-cases (bytes_eq k e)) [
  | inl same ↦
      let there : get values e ≡ some old =
        subst (λ x. get values x ≡ some old) (bytes_eq_sound k e same) h in
      rw (same, there) refl
  | inr other ↦ rw other refl
]

full_first_score :
    (wanted : List Bytes) (values : Map ℕ) (e : Bytes) (rest : ℕ)
    → Found wanted values
    → length values ≡ length wanted
    → has_text wanted e ≡ true
    → score_or_zero (get values e) ≡ first_score (get values e) rest
full_first_score wanted values e rest f full w = elim (Option-cases (get values e)) [
  | inl missing ↦ absurd (full_has_all wanted values e f full w missing)
  | inr (v, there) ↦ rw there refl
]

module _ {Db : Type 0} (kv : Kv Db) (scores : Scores) (wanted : List Bytes) where
  collect-unread :
      (k bytes : Bytes) (rows : List Row) (values : Map ℕ)
      → scores.unmarshal bytes ≡ none
      → collect kv scores wanted ((k, bytes) ∷ rows) values ≡ collect kv scores wanted rows values
  unfolding collect
  collect-unread k bytes rows values e = ground (arith, e)

  collect-read :
      (k bytes : Bytes) (rows : List Row) (values : Map ℕ) (entry : LeaderboardEntry)
      → scores.unmarshal bytes ≡ some entry
      → collect kv scores wanted ((k, bytes) ∷ rows) values ≡ (
          if has_text wanted entry.entity_id
          then (let found = with_first values entry.entity_id entry.value in
              if length found == length wanted then found else collect kv scores wanted rows found)
          else collect kv scores wanted rows values)
  unfolding collect
  collect-read k bytes rows values entry e = ground (arith, e)

  legacy_value-unread :
      (e k bytes : Bytes) (rows : List Row) (n : ℕ)
      → scores.unmarshal bytes ≡ none
      → legacy_value scores e ((k, bytes) ∷ rows) n ≡ legacy_value scores e rows (suc n)
  unfolding legacy_value
  legacy_value-unread e k bytes rows n h = ground (arith, h)

  legacy_value-read :
      (e k bytes : Bytes) (rows : List Row) (n : ℕ) (entry : LeaderboardEntry)
      → scores.unmarshal bytes ≡ some entry
      → (legacy_value scores e ((k, bytes) ∷ rows) n).0 ≡ (
          if bytes_eq entry.entity_id e
          then entry.value
          else (legacy_value scores e rows (suc n)).0)
  unfolding legacy_value
  legacy_value-read e k bytes rows n entry h = ground (arith, h)

  not_wanted :
      (k e : Bytes) → has_text wanted e ≡ true → has_text wanted k ≡ false → bytes_eq k e ≡ false
  not_wanted k e w n =
      bytes_eq_ne k e (λ same. cc (subst (λ x. has_text wanted x ≡ true) (sym same) w))

  collect_row :
      (k bytes : Bytes) (rows : List Row) (values : Map ℕ) (e : Bytes) (n : ℕ)
      (entry : LeaderboardEntry)
      → scores.unmarshal bytes ≡ some entry
      → Found wanted values
      → has_text wanted e ≡ true
      → ((found : Map ℕ)
          → Found wanted found
          → score_or_zero (get (collect kv scores wanted rows found) e)
            ≡ first_score (get found e) (legacy_value scores e rows (suc n)).0)
      → score_or_zero (get (collect kv scores wanted ((k, bytes) ∷ rows) values) e)
        ≡ first_score (get values e) (legacy_value scores e ((k, bytes) ∷ rows) n).0
  collect_row k bytes rows values e n entry read f w later =
      rw
        (collect-read k bytes rows values entry read, legacy_value-read e k bytes rows n entry read)
        (elim (Bool-cases (has_text wanted entry.entity_id)) [
          | inr other ↦ rw (other, not_wanted entry.entity_id e w other) (later values f)
          | inl one ↦
              let found = with_first values entry.entity_id entry.value in
              let g =
                keep_first-Found wanted values entry.entity_id entry.value
                  (get values entry.entity_id) one refl f in
              let rest = (legacy_value scores e rows (suc n)).0 in
              let kept =
                first_score-keep_first values entry.entity_id e entry.value rest
                  (get values entry.entity_id) refl in
              elim (Bool-cases (length found == length wanted)) [
                | inl full ↦
                    rw (one, full)
                      (full_first_score wanted found e rest g (ground (arith, full)) w ∙ kept)
                | inr some_left ↦ rw (one, some_left) (later found g ∙ kept)
              ]
        ])

  pub collect_lem :
      (rows : List Row) (values : Map ℕ) (e : Bytes) (n : ℕ)
      → Found wanted values
      → has_text wanted e ≡ true
      → score_or_zero (get (collect kv scores wanted rows values) e)
        ≡ first_score (get values e) (legacy_value scores e rows n).0
  collect_lem [] values e n f w = elim (Option-cases (get values e)) [
    | inl missing ↦ unfold collect legacy_value in rw missing refl
    | inr (v, there) ↦ unfold collect legacy_value in rw there refl
  ]
  collect_lem ((k, bytes) ∷ rows) values e n f w = elim (Option-cases (scores.unmarshal bytes)) [
    | inl bad ↦
        rw (collect-unread k bytes rows values bad, legacy_value-unread e k bytes rows n bad)
          (collect_lem rows values e (suc n) f w)
    | inr (entry, read) ↦
        collect_row k bytes rows values e n entry read f w
          (λ found g. collect_lem rows found e (suc n) g w)
  ]
