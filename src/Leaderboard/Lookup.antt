-- ===== src/Leaderboard/Lookup.antt =====
-- Looking a score up: the index by entity, and the scan of the rows where it has no entry.
use flamedb.Base.{
  refl, ◌≡◌, true, false, Option, none, some, ℕ, In, ◌∷◌, [], ◌<◌, Bool, Bool-cases, ◌^◌, List,
  ◌==◌, Option-cases, ap, inl, sym, arith, inr, ◌∙◌, some_inj, subst, suc,
}
use flamedb.Base.Bytes.{bytes_eq_ne}
use flamedb.Base.Words.{length-put_uint, bytes_lt, uint-put_uint}
use flamedb.Kv.{Kv, IsStore, Row}
use flamedb.Leaderboard.{
  Scores, encode_float64, decode_float64, get_score, has_score, get_with_lookup_stats, legacy_value,
  lb_prefix, lb_upper, Bytes, lb_key, bytes_eq,
}
use flamedb.Leaderboard.Board.{Board, Holds, IsJson, IsFloat64, row_entry}
use flamedb.Leaderboard.Keys.{board_of_range, row_of_range}
use flamedb.Storage.Keys.Injective.{IsText}

pub decode-encode_float64 : (v : ℕ) → v < 2 ^ 64 → decode_float64 (encode_float64 v) ≡ some v
unfolding decode_float64 encode_float64
decode-encode_float64 v h =
    rw (length-put_uint 8 v) (ap some (uint-put_uint 8 v (omega (arith, h))))

abbrev pub value_or_zero : Option ℕ → ℕ
value_or_zero none = 0
value_or_zero (some v) = v

row_entry-some :
    (scores : Scores) (e : Bytes) (v : ℕ) (s : Option ℕ) (bytes : Bytes)
    → row_entry scores e v s ≡ some bytes
    → (s ≡ some v) × (bytes ≡ scores.marshal (record { entity_id = e; value = v }))
row_entry-some scores e v none bytes h = absurd (cc)
row_entry-some scores e v (some w) bytes h = elim (Bool-cases (w == v)) [
  | inl same ↦ (ground (arith, same), sym (some_inj (rw same at h)))
  | inr other ↦ absurd (cc (rw other at h))
]

module _ {Db : Type 0} {kv : Kv Db} {scores : Scores} {is_utf8 : Bytes → Bool} (store : IsStore kv)
    (json : IsJson scores is_utf8) where
  -- What a row between the bounds of a metric's board says.
  unfoldable pub Tells : Board → Bytes → Row → Type 0
  Tells board m r =
      (e : Bytes) × (v : ℕ) × (r.0 ≡ lb_key m e v)
      × IsFloat64 v
      × (board m e ≡ some v)
      × (scores.unmarshal r.1 ≡ some (record { entity_id = e; value = v }))

  row_Tells :
      (db : Db) (board : Board) (m e : Bytes) (v : ℕ) (bytes : Bytes)
      → Holds kv scores is_utf8 db board
      → IsText m
      → v < 2 ^ 64
      → kv.find db (lb_key m e v) ≡ some bytes
      → Tells board m (lb_key m e v, bytes)
  unfolding Tells
  row_Tells db board m e v bytes holds hm hv found =
      let (scored, written) =
        row_entry-some scores e v (board m e) bytes (sym (holds.row m e v hm hv) ∙ found) in
      let (float, text) = holds.score m e v scored in
      (
        e,
        v,
        refl,
        float,
        scored,
        ap scores.unmarshal written ∙ json.unmarshal-marshal e v text float,
      )

  pub range_Tells :
      (db : Db) (board : Board) (m k bytes : Bytes)
      → Holds kv scores is_utf8 db board
      → IsText m
      → kv.find db k ≡ some bytes
      → bytes_lt k (lb_prefix m) ≡ false
      → bytes_lt k (lb_upper m) ≡ true
      → Tells board m (k, bytes)
  range_Tells db board m k bytes holds hm found above below =
      let (rest, e) = row_of_range m k above below in
      let (n, b, v, hn, hv, named) =
        holds.shape rest bytes (subst (λ i. kv.find db i ≡ some bytes) e found) in
      let here : k ≡ lb_key n b v = e ∙ named in
      let same =
        board_of_range m n b v hm hn (subst (λ i. bytes_lt i (lb_prefix m) ≡ false) here above)
          (subst (λ i. bytes_lt i (lb_upper m) ≡ true) here below) in
      let at_m : k ≡ lb_key m b v = here ∙ ap (λ i. lb_key i b v) same in
      subst (λ i. Tells board m (i, bytes)) (sym at_m)
        (row_Tells db board m b v bytes holds hm hv
          (subst (λ i. kv.find db i ≡ some bytes) at_m found))

  pub scan_Tells :
      (db : Db) (board : Board) (m : Bytes) (r : Row)
      → Holds kv scores is_utf8 db board
      → IsText m
      → In r (kv.scan db (lb_prefix m) (lb_upper m))
      → Tells board m r
  scan_Tells db board m (k, bytes) holds hm i =
      let (found, above, below) = store.In-scan db (lb_prefix m) (lb_upper m) k bytes i in
      range_Tells db board m k bytes holds hm found above below

  -- An entity without a score is in none of the rows.
  legacy_value-absent :
      (board : Board) (m e : Bytes) (rows : List Row) (n : ℕ)
      → board m e ≡ none
      → ((r : Row) → In r rows → Tells board m r)
      → (legacy_value scores e rows n).0 ≡ 0
  unfolding legacy_value Tells
  legacy_value-absent board m e [] n absent tell = refl
  legacy_value-absent board m e ((k, bytes) ∷ rows) n absent tell =
      let (b, v, _, _, scored, read) = tell (k, bytes) (inl refl) in
      let other : bytes_eq b e ≡ false =
        bytes_eq_ne b e (λ same. cc (subst (λ i. board m i ≡ some v) same scored, absent)) in
      let rest = legacy_value-absent board m e rows (suc n) absent (λ r i. tell r (inr i)) in
      ground (arith, read, other, rest)

  -- In a store that holds a board, Get returns the entity's score, and zero where the board has
  -- none.
  pub get_score_lem :
      (db : Db) (board : Board) (m e : Bytes)
      → Holds kv scores is_utf8 db board
      → IsText m
      → get_score kv scores db m e ≡ value_or_zero (board m e)
  unfolding get_score get_with_lookup_stats
  get_score_lem db board m e holds hm = elim (Option-cases (board m e)) [
    | inl absent ↦
        let rest =
          legacy_value-absent board m e (kv.scan db (lb_prefix m) (lb_upper m)) 0 absent
            (λ r i. scan_Tells db board m r holds hm i) in
        ground (arith, holds.index m e hm, absent, rest)
    | inr (v, scored) ↦
        ground (
          arith,
          holds.index m e hm,
          scored,
          decode-encode_float64 v (holds.score m e v scored).0.0,
        )
  ]

  -- An entity is known where the board has a score for it, zero included.
  pub has_score_lem :
      (db : Db) (board : Board) (m e : Bytes)
      → Holds kv scores is_utf8 db board
      → IsText m
      → has_score kv scores db m e ≡ elim (board m e) [ none ↦ false | some v ↦ true ]
  unfolding has_score
  has_score_lem db board m e holds hm = elim (Option-cases (board m e)) [
    | inl absent ↦ ground (arith, holds.index m e hm, absent)
    | inr (v, scored) ↦ ground (arith, holds.index m e hm, scored)
  ]
