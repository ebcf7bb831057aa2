-- ===== src/Executor/Reads.antt =====
-- The reads of internal/query/executor.go: executeGet, executeLeaderboard, executeGroupLeaderboard and
-- ListMetrics over one store.
pub mod Groups
use flamedb.Base.{
  ℕ, Bool, true, false, not, ◌&&◌, ◌||◌, Option, none, some, List, [], ◌∷◌, ◌++◌, if◌then◌else◌,
  ltb, leb, length, take, drop, map,
}
use flamedb.Base.Bytes.{Bytes, codes, bytes_eq}
use flamedb.Base.Int.{ℤ, pos, negsuc}
use flamedb.Base.Map.{get}
use flamedb.Base.Order.{sort_by}
use flamedb.Executor.{is_nil, end_of, stored}
use flamedb.Executor.Series.{
  aggregate_events, Sums, Sample, SeriesPoint, aggregate, aggregate_series,
}
use flamedb.Kv.{Kv}
use flamedb.Leaderboard.{LeaderboardEntry, Scores, get_score, top_n}
use flamedb.Query.Duration.{DurSpec}
use flamedb.Query.Types.{Query, AggType, no_aggregate, GroupDef, Result, ok, err, ◌>>=◌}
use flamedb.Query.Validate.{is_zero}
use flamedb.Storage.Codec.{Json}
use flamedb.Storage.Event.{Event}
use flamedb.Storage.Keys.{board_metric}
use flamedb.Storage.Reads.{read_page}
use flamedb.Storage.Windowed.{
  Ordering, leaderboard_before, windowed_leaderboard, windowed_entity_sums,
}

abbrev pub is_given : Query → Bool
is_given q = not (is_zero q.from && is_zero q.to)

-- A missing key of a map of sums reads as zero.
abbrev pub sum_or_zero : Option ℕ → ℕ
sum_or_zero none = 0
sum_or_zero (some v) = v

-- The members of all groups, each once, in order.
unfoldable pub has_member : List Bytes → Bytes → Bool
has_member [] id = false
has_member (m ∷ members) id = bytes_eq m id || has_member members id

unfoldable pub new_members : List Bytes → List Bytes → List Bytes
unfolding has_member
new_members seen [] = seen
new_members seen (m ∷ members) =
    new_members (if has_member seen m then seen else seen ++ m ∷ []) members

unfoldable pub all_members : List Bytes → List GroupDef → List Bytes
unfolding new_members
all_members seen [] = seen
all_members seen (g ∷ groups) = all_members (new_members seen g.members) groups

module _ (plus : ℕ → ℕ → ℕ) (score : Bytes → ℕ) where
  -- The sum over a group's members, from zero on.
  unfoldable pub member_total : ℕ → List Bytes → ℕ
  member_total total [] = total
  member_total total (m ∷ members) = member_total (plus total (score m)) members

  unfoldable pub group_entries : List GroupDef → List LeaderboardEntry
  unfolding member_total
  group_entries [] = []
  group_entries (g ∷ groups) =
      record { entity_id = g.name; value = member_total 0 g.members } ∷ group_entries groups

-- The page of the sorted groups; a negative offset or limit does not come through validateQuery.
unfoldable pub cut_page : List LeaderboardEntry → ℕ → ℕ → List LeaderboardEntry
cut_page entries limit offset =
    let rest = drop offset entries in
    if leb (length entries) offset
    then []
    else if ltb 0 limit && ltb limit (length rest)
    then take limit rest
    else rest

abbrev pub natural : ℤ → ℕ
natural (pos n) = n
natural (negsuc n) = 0

abbrev pub ranked : Ordering → Query → List LeaderboardEntry → List LeaderboardEntry
ranked o q entries =
    cut_page (sort_by (leaderboard_before o) entries) (natural q.limit) (natural q.offset)

module _ {Db : Type 0} (kv : Kv Db) (json : Json) (scores : Scores) (o : Ordering) where
  -- executeGroupLeaderboard. The windowed sums are added as the scores are.
  unfoldable pub execute_group_leaderboard : Db → Query → Result (List LeaderboardEntry)
  unfolding all_members group_entries cut_page windowed_entity_sums
  execute_group_leaderboard db q =
      if is_nil q.groups
      then ok []
      else if is_given q
      then (if is_nil q.entity_tag
          then err (codes "GROUP_LEADERBOARD mit FROM/TO erfordert ENTITY <tag-key>")
          else (stored (
                windowed_entity_sums kv json scores.add db q.metric q.entity_tag
                  (all_members [] q.groups) q.from (end_of q.to))
              >>= λ sums.
                  ok (
                    ranked o q
                      (group_entries scores.add (λ m. sum_or_zero (get sums m)) q.groups))))
      else ok (
          ranked o q (
            group_entries scores.add (λ m. get_score kv scores db (board_metric q.metric q.board) m)
              q.groups))

  -- executeLeaderboard
  unfoldable pub execute_leaderboard : Db → Query → Result (List LeaderboardEntry)
  unfolding windowed_leaderboard top_n
  execute_leaderboard db q =
      if is_given q
      then (if is_nil q.entity_tag
          then err (codes "LEADERBOARD mit FROM/TO erfordert ENTITY <tag-key>")
          else stored (
              windowed_leaderboard kv json scores.add o db q.metric q.entity_tag q.from
                (end_of q.to) q.limit q.offset))
      else top_n kv scores db (board_metric q.metric q.board) q.limit q.offset

unfoldable pub sum_values : (ℕ → ℕ → ℕ) → ℕ → List Event → ℕ
sum_values plus total [] = total
sum_values plus total (e ∷ events) = sum_values plus (plus total e.value) events

-- What a GET returns for one metric.
pub data GetAnswer : Type 0 where
  events : List Event → GetAnswer
  aggregated : ℕ → ℕ → GetAnswer
  series : List SeriesPoint → GetAnswer
  -- No answer: the loop of the series need not end.
  unending : GetAnswer

abbrev pub is_aggregate : AggType → Bool
is_aggregate no_aggregate = false
is_aggregate _ = true

module _ {Db : Type 0} (kv : Kv Db) (json : Json) (cardinality : Bytes → Bytes → ℕ) (sums : Sums)
    (add_date : ℕ → ℕ → ℕ → ℕ) (spec_of : Bytes → Result DurSpec) where
  -- A series of a specification that cannot be read is empty.
  abbrev series_of : Result DurSpec → AggType → List Event → GetAnswer
  series_of (err e) agg read = series []
  series_of (ok spec) agg read = elim (aggregate_events add_date sums spec agg read) [
    | none ↦ unending
    | some points ↦ series points
  ]

  abbrev pub answer_of : Query → List Event → GetAnswer
  answer_of q read =
      if not (is_nil q.group_by_spec)
      then series_of (spec_of q.group_by_spec) q.aggregate read
      else if is_aggregate q.aggregate
      then aggregated (aggregate sums q.aggregate (sum_values sums.plus 0 read) (length read))
          (length read)
      else events read

  -- One round of executeGet's loop: a series and an aggregate read the whole range, upwards.
  unfoldable pub get_metric : Db → Query → Bytes → Result GetAnswer
  unfolding read_page sum_values
  get_metric db q metric =
      let whole = not (is_nil q.group_by_spec) || is_aggregate q.aggregate in
      stored (
        read_page kv json (cardinality metric) db metric q.from (end_of q.to) q.conditions
          (if whole then pos 0 else q.limit) (if whole then pos 0 else q.offset)
          (if whole then false else bytes_eq q.order (codes "DESC")))
      >>= λ read. ok (answer_of q read)

  unfoldable pub get_metrics : Db → Query → List Bytes → Result (List (Bytes × GetAnswer))
  unfolding get_metric
  get_metrics db q [] = ok []
  get_metrics db q (m ∷ metrics) =
      get_metric db q m >>= λ answer. get_metrics db q metrics >>= λ more. ok ((m, answer) ∷ more)

  -- executeGet: without a list of metrics the one metric.
  unfoldable pub execute_get : Db → Query → Result (List (Bytes × GetAnswer))
  unfolding get_metrics
  execute_get db q = get_metrics db q (if is_nil q.metrics then q.metric ∷ [] else q.metrics)
