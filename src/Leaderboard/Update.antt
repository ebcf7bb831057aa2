-- ===== src/Leaderboard/Update.antt =====
-- Setting, raising and removing a score: each is one change of the board.
use flamedb.Base.{
  ◌≡◌, ap, sym, ◌∙◌, arith, Bool-cases, inl, inr, ◌&&◌, some_inj, subst, true, Bool, ◌<◌, ◌^◌, ◌⊎◌,
  ◌∷◌, ◌++◌, ℕ, Option, none, some, refl,
}
use flamedb.Base.Bytes.{Bytes, codes, bytes_eq, bytes_eq_sound}
use flamedb.Kv.{Kv, IsStore, Batch, settle}
use flamedb.Leaderboard.{
  Scores, canonical, set_batch, set_locked, set_score, increment, get_score, delete_score, colon,
}
use flamedb.Leaderboard.Board.{Board, Holds, IsJson, IsFloat64, update, row_entry, index_entry}
use flamedb.Leaderboard.Lookup.{get_score_lem, value_or_zero}
use flamedb.Leaderboard.Writes.{
  IsCurrent, score_writes, score_writes-index, score_writes-row, score_writes-shape, score_removal,
  score_removal-index, score_removal-row, score_removal-shape,
}
use flamedb.Query.Types.{ok}
use flamedb.Query.Validate.{not_finite}
use flamedb.Storage.Keys.{lb_key, lb_entity_key}
use flamedb.Storage.Keys.Injective.{IsText}

pub canonical-IsFloat64 : (v : ℕ) → IsFloat64 v → IsFloat64 (canonical v)
unfolding canonical not_finite
canonical-IsFloat64 v h = ground arith

IsCurrent-value :
    (s : Option ℕ) (c : ℕ)
    → ((v : ℕ) → s ≡ some v → v < 2 ^ 64)
    → c ≡ value_or_zero s
    → IsCurrent s c × (c < 2 ^ 64)
IsCurrent-value none c small e = (tt, omega arith)
IsCurrent-value (some v) c small e = (e, omega (arith, small v refl))

IsCurrent-same :
    (board : Board) (m n e b : Bytes) (c : ℕ)
    → IsCurrent (board m e) c
    → (bytes_eq m n && bytes_eq e b) ≡ true
    → IsCurrent (board n b) c
IsCurrent-same board m n e b c now same =
    subst (λ i. IsCurrent (board i b) c) (bytes_eq_sound m n (ground (arith, same)))
      (subst (λ i. IsCurrent (board m i) c) (bytes_eq_sound e b (ground (arith, same))) now)

module _ {Db : Type 0} {kv : Kv Db} {scores : Scores} {is_utf8 : Bytes → Bool}
    (store : IsStore kv) where
  -- Operations that change the indexes at one entity change the board there.
  Holds-commit :
      (db : Db) (board : Board) (m e : Bytes) (s : Option ℕ) (ops : Batch)
      → Holds kv scores is_utf8 db board
      → ((v : ℕ) → s ≡ some v → IsFloat64 v × (is_utf8 e ≡ true))
      → ((n b : Bytes)
          → IsText n
          → settle ops (lb_entity_key n b) (index_entry (board n b))
            ≡ index_entry (update board m e s n b))
      → ((n b : Bytes) (w : ℕ)
          → IsText n
          → w < 2 ^ 64
          → settle ops (lb_key n b w) (row_entry scores b w (board n b))
            ≡ row_entry scores b w (update board m e s n b))
      → ((rest bytes : Bytes) (old : Option Bytes)
          → settle ops (codes "lb" ++ colon ∷ rest) old ≡ some bytes
          → ((v : ℕ) × IsText m × (v < 2 ^ 64) × (codes "lb" ++ colon ∷ rest ≡ lb_key m e v))
            ⊎ (old ≡ some bytes))
      → Holds kv scores is_utf8 (kv.commit db ops) (update board m e s)
  Holds-commit db board m e s ops holds valid on_index on_row on_shape = record {
    index = λ n b hn.
        store.find-commit db ops (lb_entity_key n b)
        ∙ ap (settle ops (lb_entity_key n b)) (holds.index n b hn)
        ∙ on_index n b hn;
    row = λ n b w hn hw.
        store.find-commit db ops (lb_key n b w)
        ∙ ap (settle ops (lb_key n b w)) (holds.row n b w hn hw)
        ∙ on_row n b w hn hw;
    score = λ n b v h. elim (Bool-cases (bytes_eq m n && bytes_eq e b)) [
      | inl same ↦
          let (float, text) = valid v (rw same at h) in
          (float, subst (λ i. is_utf8 i ≡ true) (bytes_eq_sound e b (ground (arith, same))) text)
      | inr other ↦ holds.score n b v (rw other at h)
    ];
    shape = λ rest bytes h.
        elim (on_shape rest bytes (kv.find db (codes "lb" ++ colon ∷ rest))
          (sym (store.find-commit db ops (codes "lb" ++ colon ∷ rest)) ∙ h)) [
            | inl (v, hm, hv, e') ↦ (m, e, v, hm, hv, e')
            | inr old ↦ holds.shape rest bytes old
          ];
  }

  current_lem :
      (db : Db) (board : Board) (m e : Bytes)
      → Holds kv scores is_utf8 db board
      → IsJson scores is_utf8
      → IsText m
      → IsCurrent (board m e) (get_score kv scores db m e) × (get_score kv scores db m e < 2 ^ 64)
  current_lem db board m e holds json hm =
      IsCurrent-value (board m e) (get_score kv scores db m e) (λ v h. (holds.score m e v h).0.0)
        (get_score_lem store json db board m e holds hm)

  pub score_writes-Holds :
      (db : Db) (board : Board) (m e : Bytes) (v : ℕ)
      → Holds kv scores is_utf8 db board
      → IsJson scores is_utf8
      → IsText m
      → is_utf8 e ≡ true
      → IsFloat64 v
      → Holds kv scores is_utf8
          (kv.commit db (score_writes scores m e (get_score kv scores db m e) v))
          (update board m e (some v))
  score_writes-Holds db board m e v holds json hm he hv =
      let (now, small) = current_lem db board m e holds json hm in
      let current = get_score kv scores db m e in
      Holds-commit db board m e (some v) (score_writes scores m e current v) holds
        (λ w h. (subst IsFloat64 (some_inj h) hv, he))
        (λ n b hn. score_writes-index scores m n e b current v (board n b) hm hn)
        (λ n b w hn hw.
          score_writes-row scores m n e b current v w (board n b) hm hn small hv.0 hw
            (IsCurrent-same board m n e b current now))
        (λ rest bytes old h. elim (score_writes-shape scores m e rest bytes current v old h) [
          | inl new ↦ inl (v, hm, hv.0, new)
          | inr there ↦ inr there
        ])

  score_removal-Holds :
      (db : Db) (board : Board) (m e : Bytes)
      → Holds kv scores is_utf8 db board
      → IsJson scores is_utf8
      → IsText m
      → Holds kv scores is_utf8
          (kv.commit db (score_removal m e (get_score kv scores db m e)))
          (update board m e none)
  score_removal-Holds db board m e holds json hm =
      let (now, small) = current_lem db board m e holds json hm in
      let current = get_score kv scores db m e in
      Holds-commit db board m e none (score_removal m e current) holds (λ w h. absurd (cc))
        (λ n b hn. score_removal-index m n e b current (board n b) hm hn)
        (λ n b w hn hw.
          score_removal-row scores m n e b current w (board n b) hm hn small hw
            (IsCurrent-same board m n e b current now))
        (λ rest bytes old h. inr (score_removal-shape m e rest bytes current old h))

  -- In a store that holds a board, setting a finite score of an entity in valid UTF-8 succeeds, and
  -- the store then holds that board with the entity's score replaced, minus zero as zero, and
  -- nothing else changed.
  pub set_score-Holds :
      (db : Db) (board : Board) (m e : Bytes) (v : ℕ)
      → Holds kv scores is_utf8 db board
      → IsJson scores is_utf8
      → IsText m
      → is_utf8 e ≡ true
      → IsFloat64 v
      → (db' : Db) × (set_score kv scores db m e v ≡ ok db')
        × Holds kv scores is_utf8 db' (update board m e (some (canonical v)))
  unfolding set_score set_locked set_batch
  set_score-Holds db board m e v holds json hm he hv = (
    kv.commit db (score_writes scores m e (get_score kv scores db m e) (canonical v)),
    ground (arith, hv.1),
    score_writes-Holds db board m e (canonical v) holds json hm he (canonical-IsFloat64 v hv),
  )

  -- In a store that holds a board, incrementing a score whose sum is finite succeeds, and the board
  -- then has the sum for the entity, counted from zero where it had none, and is otherwise the
  -- same.
  pub increment-Holds :
      (db : Db) (board : Board) (m e : Bytes) (delta : ℕ)
      → Holds kv scores is_utf8 db board
      → IsJson scores is_utf8
      → IsText m
      → is_utf8 e ≡ true
      → IsFloat64 (scores.add (value_or_zero (board m e)) delta)
      → (db' : Db) × (increment kv scores db m e delta ≡ ok db')
        × Holds kv scores is_utf8 db'
            (update board m e (some (canonical (scores.add (value_or_zero (board m e)) delta))))
  unfolding increment set_locked set_batch
  increment-Holds db board m e delta holds json hm he hv =
      let v = scores.add (value_or_zero (board m e)) delta in
      let now = get_score_lem store json db board m e holds hm in
      (
        kv.commit db (score_writes scores m e (get_score kv scores db m e) (canonical v)),
        ground (arith, hv.1, now),
        score_writes-Holds db board m e (canonical v) holds json hm he (canonical-IsFloat64 v hv),
      )

  -- In a store that holds a board, deleting a score takes the entity off the board and changes
  -- nothing else on it.
  pub delete_score-Holds :
      (db : Db) (board : Board) (m e : Bytes)
      → Holds kv scores is_utf8 db board
      → IsJson scores is_utf8
      → IsText m
      → Holds kv scores is_utf8 (delete_score kv scores db m e) (update board m e none)
  unfolding delete_score
  delete_score-Holds db board m e holds json hm = score_removal-Holds db board m e holds json hm
