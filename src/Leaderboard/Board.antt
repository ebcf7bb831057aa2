-- ===== src/Leaderboard/Board.antt =====
-- What the two indexes of the scores stand for: a board gives each entity of a metric a score or
-- none. `IsFloat64` holds of the bit patterns of the finite numbers.
use flamedb.Base.{◌<◌, ◌==◌, ◌^◌, ◌≡◌, none, true, ◌&&◌, false, ◌++◌, ◌∷◌}
use flamedb.Kv.{Kv}
use flamedb.Leaderboard.{
  Scores, encode_float64, Bytes, Option, ℕ, Bool, if◌then◌else◌, some, bytes_eq, not_finite, codes,
  colon,
}
use flamedb.Storage.Keys.{lb_key, lb_entity_key}
use flamedb.Storage.Keys.Injective.{IsText}

abbrev pub Board : Type 0
Board = Bytes → Bytes → Option ℕ

abbrev pub IsFloat64 : ℕ → Type 0
IsFloat64 v = v < 2 ^ 64 × (not_finite v ≡ false)

abbrev pub update : Board → Bytes → Bytes → Option ℕ → Board
update board m e score n b = if bytes_eq m n && bytes_eq e b then score else board n b

-- What encoding/json promises: an entry whose entity is valid UTF-8 and whose value is finite is
-- read back as it was written.
pub record IsJson (scores : Scores) (is_utf8 : Bytes → Bool) : Type 0 where
  pub unmarshal-marshal :
      (e : Bytes) (v : ℕ)
      → is_utf8 e ≡ true
      → IsFloat64 v
      → scores.unmarshal (scores.marshal (record { entity_id = e; value = v }))
        ≡ some (record { entity_id = e; value = v })

-- The index by entity and the rows in score order that a score makes.
abbrev pub index_entry : Option ℕ → Option Bytes
index_entry none = none
index_entry (some v) = some (encode_float64 v)

abbrev pub row_entry : Scores → Bytes → ℕ → Option ℕ → Option Bytes
row_entry scores e v none = none
row_entry scores e v (some w) =
    if w == v then some (scores.marshal (record { entity_id = e; value = v })) else none

module _ {Db : Type 0} (kv : Kv Db) (scores : Scores) (is_utf8 : Bytes → Bool) where
  -- The store holds exactly the board.
  pub record Holds (db : Db) (board : Board) : Type 0 where
    pub index : (m e : Bytes) → IsText m → kv.find db (lb_entity_key m e) ≡ index_entry (board m e)
    pub row :
        (m e : Bytes) (v : ℕ)
        → IsText m
        → v < 2 ^ 64
        → kv.find db (lb_key m e v) ≡ row_entry scores e v (board m e)
    pub score : (m e : Bytes) (v : ℕ) → board m e ≡ some v → IsFloat64 v × (is_utf8 e ≡ true)
    -- Nothing else has a key that begins as the rows' do.
    pub shape :
        (rest bytes : Bytes)
        → kv.find db (codes "lb" ++ colon ∷ rest) ≡ some bytes
        → (m : Bytes) × (e : Bytes) × (v : ℕ) × IsText m
          × (v < 2 ^ 64)
          × (codes "lb" ++ colon ∷ rest ≡ lb_key m e v)
