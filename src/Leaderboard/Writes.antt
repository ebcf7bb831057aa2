-- ===== src/Leaderboard/Writes.antt =====
-- The writes of one score: what they leave at the keys of rows and at those of the index.
use flamedb.Base.{
  if◌then◌else◌, ◌&&◌, ◌≡◌, true, Option, none, some, ℕ, ◌∷◌, [], ◌<◌, ◌^◌, arith, ◌++◌, ◌⊎◌,
  Bool-cases, inl, sym, inr,
}
use flamedb.Base.Bytes.{Bytes, codes, bytes_eq, bytes_eq_sound}
use flamedb.Kv.{Batch, put, del, settle}
use flamedb.Leaderboard.{Scores, encode_float64, colon}
use flamedb.Leaderboard.Board.{row_entry, index_entry}
use flamedb.Leaderboard.Keys.{
  bytes_eq-lb_key, bytes_eq-lb_entity_key, lb_key_apart, lb_entity_key_apart, lb_entity_key_outside,
}
use flamedb.Storage.Keys.{lb_key, lb_entity_key}
use flamedb.Storage.Keys.Injective.{IsText}

-- The writes of one new score, and the removal of one.
abbrev pub score_writes : Scores → Bytes → Bytes → ℕ → ℕ → Batch
score_writes scores m e current v =
    del (lb_key m e current)
    ∷ put (lb_key m e v) (scores.marshal (record { entity_id = e; value = v }))
    ∷ put (lb_entity_key m e) (encode_float64 v)
    ∷ []

abbrev pub score_removal : Bytes → Bytes → ℕ → Batch
score_removal m e current = del (lb_key m e current) ∷ del (lb_entity_key m e) ∷ []

-- The current score, or any number where there is none.
abbrev pub IsCurrent : Option ℕ → ℕ → Type 0
IsCurrent none current = Unit
IsCurrent (some v) current = current ≡ v

-- What the writes leave at the key of a row.
pub score_writes-row :
    (scores : Scores) (m n e b : Bytes) (current v w : ℕ) (s : Option ℕ)
    → IsText m
    → IsText n
    → current < 2 ^ 64
    → v < 2 ^ 64
    → w < 2 ^ 64
    → ((bytes_eq m n && bytes_eq e b) ≡ true → IsCurrent s current)
    → settle (score_writes scores m e current v) (lb_key n b w) (row_entry scores b w s)
      ≡ row_entry scores b w (if bytes_eq m n && bytes_eq e b then some v else s)
unfolding settle
score_writes-row scores m n e b current v w none hm hn hc hv hw now = ground (
  arith,
  bytes_eq-lb_key m n e b current w hm hn hc hw,
  bytes_eq-lb_key m n e b v w hm hn hv hw,
  lb_entity_key_apart m n e b w,
  bytes_eq_sound e b,
)
score_writes-row scores m n e b current v w (some u) hm hn hc hv hw now = ground (
  arith,
  bytes_eq-lb_key m n e b current w hm hn hc hw,
  bytes_eq-lb_key m n e b v w hm hn hv hw,
  lb_entity_key_apart m n e b w,
  bytes_eq_sound e b,
)

pub score_removal-row :
    (scores : Scores) (m n e b : Bytes) (current w : ℕ) (s : Option ℕ)
    → IsText m
    → IsText n
    → current < 2 ^ 64
    → w < 2 ^ 64
    → ((bytes_eq m n && bytes_eq e b) ≡ true → IsCurrent s current)
    → settle (score_removal m e current) (lb_key n b w) (row_entry scores b w s)
      ≡ row_entry scores b w (if bytes_eq m n && bytes_eq e b then none else s)
unfolding settle
score_removal-row scores m n e b current w none hm hn hc hw now =
    ground (arith, bytes_eq-lb_key m n e b current w hm hn hc hw, lb_entity_key_apart m n e b w)
score_removal-row scores m n e b current w (some u) hm hn hc hw now =
    ground (arith, bytes_eq-lb_key m n e b current w hm hn hc hw, lb_entity_key_apart m n e b w)

pub score_writes-index :
    (scores : Scores) (m n e b : Bytes) (current v : ℕ) (s : Option ℕ)
    → IsText m
    → IsText n
    → settle (score_writes scores m e current v) (lb_entity_key n b) (index_entry s)
      ≡ index_entry (if bytes_eq m n && bytes_eq e b then some v else s)
unfolding settle
score_writes-index scores m n e b current v s hm hn = ground (
  arith,
  bytes_eq-lb_entity_key m n e b hm hn,
  lb_key_apart n m b e current,
  lb_key_apart n m b e v,
)

pub score_removal-index :
    (m n e b : Bytes) (current : ℕ) (s : Option ℕ)
    → IsText m
    → IsText n
    → settle (score_removal m e current) (lb_entity_key n b) (index_entry s)
      ≡ index_entry (if bytes_eq m n && bytes_eq e b then none else s)
unfolding settle
score_removal-index m n e b current s hm hn =
    ground (arith, bytes_eq-lb_entity_key m n e b hm hn, lb_key_apart n m b e current)

-- A key of the rows' kind that is there after the writes is the new row or was there before.
pub score_writes-shape :
    (scores : Scores) (m e rest bytes : Bytes) (current v : ℕ) (old : Option Bytes)
    → settle (score_writes scores m e current v) (codes "lb" ++ colon ∷ rest) old ≡ some bytes
    → (codes "lb" ++ colon ∷ rest ≡ lb_key m e v) ⊎ (old ≡ some bytes)
unfolding settle
score_writes-shape scores m e rest bytes current v old h =
    elim (Bool-cases (bytes_eq (lb_key m e v) (codes "lb" ++ colon ∷ rest))) [
      | inl same ↦ inl (sym (bytes_eq_sound _ _ same))
      | inr other ↦ inr (ground (arith, other, lb_entity_key_outside m e rest, h))
    ]

pub score_removal-shape :
    (m e rest bytes : Bytes) (current : ℕ) (old : Option Bytes)
    → settle (score_removal m e current) (codes "lb" ++ colon ∷ rest) old ≡ some bytes
    → old ≡ some bytes
unfolding settle
score_removal-shape m e rest bytes current old h = ground (arith, lb_entity_key_outside m e rest, h)
