-- ===== src/Leaderboard.antt =====
-- internal/aggregates/leaderboard.go: scores in two indexes, one in score order and one by entity. A
-- float64 is its bit pattern. The striped locks make each method one step on the store.
pub mod Keys
pub mod Board
pub mod Lookup
pub mod Writes
pub mod Update
pub mod Page
pub mod Rank
pub mod Entries
pub mod Top
pub mod Shared
use flamedb.Base.{
  ℕ, suc, ◌+◌, ◌-◌, ◌^◌, Bool, true, false, ◌&&◌, ◌||◌, Option, none, some, List, [], ◌∷◌, ◌++◌,
  if◌then◌else◌, ltb, leb, ◌==◌, length, reverse,
}
use flamedb.Base.Bytes.{Bytes, codes, bytes_eq}
use flamedb.Base.Int.{ℤ, pos, negsuc}
use flamedb.Base.Words.{put_uint, uint}
use flamedb.Keyspace.{component, colon}
use flamedb.Kv.{Kv, Op, Batch, put, del, Row}
use flamedb.Query.Types.{Result, ok, err, ◌>>=◌}
use flamedb.Query.Validate.{not_finite}
use flamedb.Storage.Keys.{lb_key, lb_entity_key}

-- types.LeaderboardEntry
pub record LeaderboardEntry : Type 0 where
  pub entity_id : Bytes
  pub value : ℕ

-- encoding/json at LeaderboardEntry, and the addition of float64.
pub record Scores : Type 0 where
  pub marshal : LeaderboardEntry → Bytes
  pub unmarshal : Bytes → Option LeaderboardEntry
  pub add : ℕ → ℕ → ℕ

pub record LookupStats : Type 0 where
  pub legacy_scans : ℕ
  pub legacy_entries : ℕ

unfoldable pub encode_float64 : ℕ → Bytes
encode_float64 v = put_uint 8 v

unfoldable pub decode_float64 : Bytes → Option ℕ
decode_float64 b = if length b == 8 then some (uint b) else none

-- `if value == 0 { value = 0 }`: negative zero becomes positive zero.
unfoldable pub canonical : ℕ → ℕ
canonical v = if v == 2 ^ 63 then 0 else v

-- The bounds of a board's rows, and where the rows of the nonnegative scores begin.
unfoldable pub lb_prefix : Bytes → Bytes
lb_prefix metric = codes "lb" ++ colon ∷ (component metric ++ colon ∷ [])

unfoldable pub lb_upper : Bytes → Bytes
lb_upper metric = codes "lb" ++ colon ∷ (component metric ++ b';' ∷ [])

unfoldable pub lb_split : Bytes → Bytes
lb_split metric = codes "lb" ++ colon ∷ (component metric ++ colon ∷ 0x80 ∷ [])

abbrev pub read_index : Option Bytes → Option ℕ
read_index none = none
read_index (some b) = decode_float64 b

abbrev pub bad_score : Bytes
bad_score = codes "leaderboard value must be finite"

-- `if limit > 0 && len(results) >= limit`
abbrev pub is_full : ℕ → List LeaderboardEntry → Bool
is_full limit results = ltb 0 limit && leb limit (length results)

module _ (scores : Scores) where
  -- The fallback loop of GetWithLookupStats, with the number of entries it read.
  unfoldable pub legacy_value : Bytes → List Row → ℕ → ℕ × ℕ
  legacy_value entity [] n = (0, n)
  legacy_value entity ((k, bytes) ∷ rows) n = elim (scores.unmarshal bytes) [
    | none ↦ legacy_value entity rows (suc n)
    | some entry ↦
        let rest = legacy_value entity rows (suc n) in
        if bytes_eq entry.entity_id entity then (entry.value, suc n) else rest
  ]

  -- The batch of setLocked.
  unfoldable pub set_batch : Bytes → Bytes → ℕ → ℕ → Result Batch
  unfolding canonical encode_float64
  set_batch metric entity current value =
      let v = canonical value in
      if not_finite value
      then err bad_score
      else ok (
          del (lb_key metric entity current)
          ∷ put (lb_key metric entity v) (scores.marshal (record { entity_id = entity; value = v }))
          ∷ put (lb_entity_key metric entity) (encode_float64 v)
          ∷ [])

  unfoldable pub stage_value_from_current : Batch → Bytes → Bytes → ℕ → ℕ → Bool → Result Batch
  unfolding set_batch
  stage_value_from_current batch metric entity current value remove =
      if remove
      then ok (batch ++ del (lb_key metric entity current) ∷ del (lb_entity_key metric entity) ∷ [])
      else (set_batch metric entity current value >>= λ ops. ok (batch ++ ops))

  -- One pass of TopN over rows in reading order, from `offset` and `results` on.
  unfoldable pub page :
      ℕ → List Row → ℕ → List LeaderboardEntry → Result (ℕ × List LeaderboardEntry)
  page limit [] offset results = ok (offset, results)
  page limit ((k, bytes) ∷ rows) offset results = elim (scores.unmarshal bytes) [
    | none ↦ err (codes "invalid leaderboard entry")
    | some entry ↦
        let results' = if ltb 0 offset then results else results ++ entry ∷ [] in
        let rest = page limit rows (offset - 1) results' in
        if is_full limit results' then ok (offset - 1, results') else rest
  ]

  abbrev pub second_pass : ℕ → List Row → ℕ × List LeaderboardEntry → Result (List LeaderboardEntry)
  second_pass limit rows (offset, results) =
      if is_full limit results then ok results else (page limit rows offset results >>= λ r. ok r.1)

module _ {Db : Type 0} (kv : Kv Db) (scores : Scores) where
  unfoldable pub get_with_lookup_stats : Db → Bytes → Bytes → LookupStats → ℕ × LookupStats
  unfolding legacy_value decode_float64
  get_with_lookup_stats db metric entity stats =
      elim (read_index (kv.find db (lb_entity_key metric entity))) [
        | some v ↦ (v, stats)
        | none ↦
            let (v, entries) =
              legacy_value scores entity (kv.scan db (lb_prefix metric) (lb_upper metric))
                stats.legacy_entries in
            (v, record { legacy_scans = suc stats.legacy_scans; legacy_entries = entries })
      ]

  -- Get
  unfoldable pub get_score : Db → Bytes → Bytes → ℕ
  unfolding get_with_lookup_stats
  get_score db metric entity =
      (get_with_lookup_stats db metric entity (record { legacy_scans = 0; legacy_entries = 0 })).0

  unfoldable pub set_locked : Db → Bytes → Bytes → ℕ → ℕ → Result Db
  unfolding set_batch
  set_locked db metric entity current value =
      set_batch scores metric entity current value >>= λ ops. ok (kv.commit db ops)

  -- Set
  unfoldable pub set_score : Db → Bytes → Bytes → ℕ → Result Db
  unfolding set_locked get_score
  set_score db metric entity value = set_locked db metric entity (get_score db metric entity) value

  unfoldable pub increment : Db → Bytes → Bytes → ℕ → Result Db
  unfolding set_locked get_score
  increment db metric entity delta =
      let current = get_score db metric entity in
      set_locked db metric entity current (scores.add current delta)

  -- Delete
  unfoldable pub delete_score : Db → Bytes → Bytes → Db
  unfolding get_score
  delete_score db metric entity = kv.commit db (
      del (lb_key metric entity (get_score db metric entity))
      ∷ del (lb_entity_key metric entity)
      ∷ [])

  unfoldable pub stage_value : Db → Batch → Bytes → Bytes → ℕ → Bool → Result Batch
  unfolding stage_value_from_current get_score
  stage_value db batch metric entity value remove =
      stage_value_from_current scores batch metric entity (get_score db metric entity) value remove

  -- Exists
  unfoldable pub has_score : Db → Bytes → Bytes → Bool
  has_score db metric entity = elim (kv.find db (lb_entity_key metric entity)) [
    | none ↦ false
    | some b ↦ true
  ]

  -- Forward over the rows from the split on, then backward over the rows before it.
  unfoldable pub top_n : Db → Bytes → ℤ → ℤ → Result (List LeaderboardEntry)
  unfolding page
  top_n db metric (pos limit) (pos offset) =
      page scores limit (kv.scan db (lb_split metric) (lb_upper metric)) offset []
      >>= second_pass scores limit (reverse (kv.scan db (lb_prefix metric) (lb_split metric)))
  top_n db metric limit offset = err (codes "invalid pagination")
