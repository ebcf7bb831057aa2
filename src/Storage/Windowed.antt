-- ===== src/Storage/Windowed.antt =====
-- internal/storage/windowed_lb.go: the leaderboards of a range of time. The heap of package
-- container/heap, sort.Slice and the order and the addition of float64 are parameters.
pub mod Page
use flamedb.Base.{
  ℕ, zero, suc, ◌+◌, ◌-◌, ◌/◌, ◌^◌, Bool, true, false, not, ◌&&◌, ◌||◌, Option, none, some, List,
  [], ◌∷◌, ◌++◌, if◌then◌else◌, ltb, leb, length, take, drop, ◌==◌,
}
use flamedb.Base.Bytes.{Bytes, bytes_eq}
use flamedb.Base.Int.{ℤ, pos, negsuc, ltb_ℤ}
use flamedb.Base.Map.{Map, get, set}
use flamedb.Base.Words.{bytes_lt}
use flamedb.Kv.{Kv, Row}
use flamedb.Leaderboard.{LeaderboardEntry}
use flamedb.Storage.Codec.{
  Json, Result, ok, err, ◌>>=◌, event_entity_value, EntityValue, invalid_pagination,
}
use flamedb.Storage.Keys.{event_key, index_key}

pub record Ordering : Type 0 where
  -- a > b and a != b at float64
  pub greater : ℕ → ℕ → Bool
  pub differs : ℕ → ℕ → Bool
  -- heap.Init, and heap.Fix at the first place
  pub init : List LeaderboardEntry → List LeaderboardEntry
  pub fix : List LeaderboardEntry → List LeaderboardEntry
  -- sort.Slice by leaderboardBefore
  pub sort : List LeaderboardEntry → List LeaderboardEntry

-- leaderboardBefore; the order of strings is that of their bytes.
unfoldable pub leaderboard_before : Ordering → LeaderboardEntry → LeaderboardEntry → Bool
leaderboard_before o a b =
    if o.differs a.value b.value
    then o.greater a.value b.value
    else bytes_lt a.entity_id b.entity_id

-- The loop over the entries that are not in the heap at first. The head of the heap is the worst.
unfoldable pub select :
    Ordering → List LeaderboardEntry → List LeaderboardEntry → List LeaderboardEntry
unfolding leaderboard_before
select o heap [] = heap
select o [] (entry ∷ entries) = []
select o (worst ∷ heap) (entry ∷ entries) =
    select o (if leaderboard_before o entry worst then o.fix (entry ∷ heap) else worst ∷ heap)
      entries

-- leaderboardPage, for a limit and an offset that are not negative. The page is a slice of the
-- entries up to the last one that is wanted.
abbrev pub wanted : ℕ → ℕ → ℕ → ℕ
wanted limit offset n = if ltb 0 limit && ltb limit (n - offset) then offset + limit else n

abbrev pub chosen : Ordering → ℕ → List LeaderboardEntry → List LeaderboardEntry
chosen o k sums =
    if ltb k (length sums / 2) then select o (o.init (take k sums)) (drop k sums) else sums

unfoldable pub leaderboard_page : Ordering → List LeaderboardEntry → ℕ → ℕ → List LeaderboardEntry
unfolding select
leaderboard_page o sums limit offset =
    let k = wanted limit offset (length sums) in
    if leb (length sums) offset then [] else drop offset (take k (o.sort (chosen o k sums)))

-- The value is added to the entity's sum, or the entity is new.
unfoldable pub add_sum : (ℕ → ℕ → ℕ) → List LeaderboardEntry → Bytes → ℕ → List LeaderboardEntry
add_sum plus [] id value = record { entity_id = id; value = value } ∷ []
add_sum plus (e ∷ sums) id value =
    if bytes_eq e.entity_id id
    then record e { value = plus e.value value } ∷ sums
    else e ∷ add_sum plus sums id value

abbrev is_named : EntityValue → Bool
is_named r = r.found && not (length r.id == 0)

-- to and from as WindowedLeaderboard and WindowedEntitySums read them.
abbrev pub window_end : ℤ → ℤ
window_end to = if ltb_ℤ (pos 0) to then to else pos (2 ^ 63 - 1)

abbrev pub window_start : ℤ → ℤ
window_start (pos n) = pos n
window_start (negsuc n) = pos 0

module _ {Db : Type 0} (kv : Kv Db) (json : Json) (plus : ℕ → ℕ → ℕ) where
  -- The loop over the events of the range.
  unfoldable pub sum_rows :
      Bytes → List Row → List LeaderboardEntry → Result (List LeaderboardEntry)
  unfolding add_sum
  sum_rows tag [] sums = ok sums
  sum_rows tag ((k, bytes) ∷ rows) sums = event_entity_value json bytes tag >>= λ r.
      sum_rows tag rows (if is_named r then add_sum plus sums r.id r.value else sums)

  unfoldable pub windowed_leaderboard :
      Ordering → Db → Bytes → Bytes → ℤ → ℤ → ℤ → ℤ → Result (List LeaderboardEntry)
  unfolding sum_rows leaderboard_page
  windowed_leaderboard o db metric tag from to (pos limit) (pos offset) =
      let first = window_start from in
      let last = window_end to in
      if not (ltb_ℤ first last)
      then ok []
      else (sum_rows tag (kv.scan db (event_key metric first) (event_key metric last)) []
          >>= λ sums. ok (leaderboard_page o sums limit offset))
  windowed_leaderboard o db metric tag from to limit offset = err invalid_pagination

  abbrev event_value : Option Bytes → Bytes → Bytes → Result (Option ℕ)
  event_value none tag id = ok none
  event_value (some bytes) tag id = event_entity_value json bytes tag >>= λ r.
      ok (if r.found && bytes_eq r.id id then some r.value else none)

  abbrev added : ℕ → Option ℕ → ℕ
  added sum none = sum
  added sum (some v) = plus sum v

  -- The loop over the rows of one member's index; a longer key is another member's.
  unfoldable pub sum_index : Db → Bytes → Bytes → ℕ → List Row → ℕ → Result ℕ
  sum_index db tag id width [] sum = ok sum
  sum_index db tag id width ((k, key) ∷ rows) sum =
      let skip = sum_index db tag id width rows sum in
      if length k == width
      then (event_value (kv.find db key) tag id >>= λ v.
          sum_index db tag id width rows (added sum v))
      else skip

  abbrev member_sum : Db → Bytes → Bytes → Bytes → ℤ → ℤ → Result ℕ
  member_sum db metric tag id first last =
      let lower = index_key metric tag id first in
      if not (ltb_ℤ first last)
      then ok 0
      else sum_index db tag id (length lower) (kv.scan db lower (index_key metric tag id last)) 0

  -- WindowedEntitySums: the sum of each member, which is read once.
  unfoldable pub entity_sums : Db → Bytes → Bytes → ℤ → ℤ → List Bytes → Map ℕ → Result (Map ℕ)
  unfolding sum_index
  entity_sums db metric tag first last [] sums = ok sums
  entity_sums db metric tag first last (id ∷ ids) sums =
      let fresh = member_sum db metric tag id first last >>= λ v.
      entity_sums db metric tag first last ids (set sums id v) in
      let skip = entity_sums db metric tag first last ids sums in
      elim (get sums id) [ none ↦ fresh | some v ↦ skip ]

  unfoldable pub windowed_entity_sums : Db → Bytes → Bytes → List Bytes → ℤ → ℤ → Result (Map ℕ)
  unfolding entity_sums
  windowed_entity_sums db metric tag ids from to =
      entity_sums db metric tag (window_start from) (window_end to) ids []
