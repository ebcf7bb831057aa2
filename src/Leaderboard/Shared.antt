-- ===== src/Leaderboard/Shared.antt =====
-- LockedBatchLookup of internal/aggregates/batch_lookup.go: the score lookups of one batch, which
-- share a scan of the rows in the old form.
pub mod Found
pub mod Scan
pub mod Agrees
use flamedb.Base.{
  ℕ, Bool, true, false, ◌||◌, Option, none, some, List, [], ◌∷◌, if◌then◌else◌, length, ◌==◌,
}
use flamedb.Base.Bytes.{Bytes, codes, bytes_eq}
use flamedb.Base.Map.{Map, get, set}
use flamedb.Kv.{Kv, Row}
use flamedb.Leaderboard.{Scores, read_index, lb_prefix, lb_upper}
use flamedb.Query.Types.{Result, ok, err}
use flamedb.Storage.Keys.{lb_entity_key}

-- `targets` holds the entities of each board, each once; `legacy` the scores that a scan of a board
-- has found.
pub record SharedLookup : Type 0 where
  pub targets : Map (List Bytes)
  pub legacy : Map (Map ℕ)

unfoldable pub has_text : List Bytes → Bytes → Bool
has_text [] s = false
has_text (t ∷ ts) s = bytes_eq t s || has_text ts s

-- A missing key of a map of maps or of scores.
abbrev pub entities_of : Option (List Bytes) → List Bytes
entities_of none = []
entities_of (some es) = es

abbrev pub score_or_zero : Option ℕ → ℕ
score_or_zero none = 0
score_or_zero (some v) = v

-- The first score of an entity stays.
abbrev pub keep_first : Map ℕ → Bytes → ℕ → Option ℕ → Map ℕ
keep_first values entity v none = set values entity v
keep_first values entity v (some old) = values

abbrev pub with_first : Map ℕ → Bytes → ℕ → Map ℕ
with_first values entity v = keep_first values entity v (get values entity)

module _ {Db : Type 0} (kv : Kv Db) (scores : Scores) where
  -- The loop over the rows of a board.
  unfoldable pub collect : List Bytes → List Row → Map ℕ → Map ℕ
  unfolding has_text
  collect wanted [] values = values
  collect wanted ((k, bytes) ∷ rows) values =
      let skip = collect wanted rows values in
      elim (scores.unmarshal bytes) [
        | none ↦ skip
        | some entry ↦
            let values' = with_first values entry.entity_id entry.value in
            let rest = collect wanted rows values' in
            if has_text wanted entry.entity_id
            then (if length values' == length wanted then values' else rest)
            else skip
      ]

  abbrev pub from_legacy :
      Db → SharedLookup → Bytes → Bytes → Option (Map ℕ) → Result ℕ × SharedLookup
  from_legacy db l metric entity (some values) = (ok (score_or_zero (get values entity)), l)
  from_legacy db l metric entity none =
      let values =
        collect (entities_of (get l.targets metric))
          (kv.scan db (lb_prefix metric) (lb_upper metric)) [] in
      (ok (score_or_zero (get values entity)), record l { legacy = set l.legacy metric values })

  -- LockedBatchLookup.Get
  unfoldable pub shared_get : Db → SharedLookup → Bytes → Bytes → Result ℕ × SharedLookup
  unfolding collect has_text
  shared_get db l metric entity =
      if has_text (entities_of (get l.targets metric)) entity
      then (elim (read_index (kv.find db (lb_entity_key metric entity))) [
        | some v ↦ (ok v, l)
        | none ↦ from_legacy db l metric entity (get l.legacy metric)
      ])
      else (err (codes "score lookup target is not locked"), l)
