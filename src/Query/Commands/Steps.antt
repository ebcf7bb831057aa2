-- ===== src/Query/Commands/Steps.antt =====
-- One round of each of the loops in Parse.
use flamedb.Base.{true, [], ◌∷◌, ◌++◌, if◌then◌else◌}
use flamedb.Base.Bytes.{Bytes, codes}
use flamedb.Query.Commands.Clauses.{
  where_clause, delete_where, get_where, with_value, set_from, set_to, set_limit, set_offset,
  set_order, set_entity, set_board,
}
use flamedb.Query.Commands.Text.{
  Tokens, assign, assign_write, parse_time_value, Progress, parse_group_spec, upper_is, is_equals,
  is_get, is_board_type, is_leaderboard,
}
use flamedb.Query.Duration.{parse_duration_spec}
use flamedb.Query.Tokenize.{token_value}
use flamedb.Query.Types.{Query, AggType, ok, err, ◌>>=◌, Std}

abbrev set_aggregate : Query → AggType → Bytes → Tokens → Progress
set_aggregate q agg word rest =
    if is_get q.type
    then ok (record q { aggregate = agg }, rest)
    else err (word ++ codes " is only valid for GET")

module _ (std : Std) where
  abbrev pub write_pair : Query → Bytes → Tokens → Progress
  write_pair q key (eq ∷ value ∷ rest) =
      if is_equals eq
      then (assign_write q key (token_value std value) >>= λ q'. ok (q', rest))
      else err (codes "expected =")
  write_pair q key _ = err (codes "incomplete WRITE argument")

  unfoldable pub write_step : Query → Bytes → Tokens → Progress
  unfolding assign_write
  write_step q key rest =
      if upper_is std key (codes "QUORUM")
      then ok (record q { quorum = true }, rest)
      else if upper_is std key (codes "__REPLICA")
      then ok (record q { is_replica = true }, rest)
      else if upper_is std key (codes "__LOCAL")
      then ok (record q { force_local = true }, rest)
      else write_pair q key rest

  -- Where no = follows the key the loop is left: what is not read is dropped.
  abbrev pub set_pair : Query → Bytes → Tokens → Progress
  set_pair q key (eq ∷ value ∷ rest) =
      if is_equals eq then ok (assign q key (token_value std value), rest) else ok (q, [])
  set_pair q key _ = err (codes "incomplete SET argument")

  unfoldable pub set_step : Query → Bytes → Tokens → Progress
  unfolding assign
  set_step q key rest =
      if upper_is std key (codes "__REPLICA")
      then ok (record q { is_replica = true }, rest)
      else if upper_is std key (codes "__LOCAL")
      then ok (record q { force_local = true }, rest)
      else set_pair q key rest

  abbrev pub delete_pair : Query → Bytes → Tokens → Progress
  delete_pair q key (eq ∷ value ∷ rest) =
      if is_equals eq
      then ok (assign q key (token_value std value), rest)
      else err (codes "unexpected DELETE argument: " ++ key)
  delete_pair q key _ = err (codes "unexpected DELETE argument: " ++ key)

  unfoldable pub delete_step : Query → Bytes → Tokens → Progress
  unfolding assign where_clause parse_time_value
  delete_step q key rest =
      if upper_is std key (codes "WHERE")
      then delete_where std q rest
      else if upper_is std key (codes "DRY_RUN")
      then ok (record q { dry_run = true }, rest)
      else if upper_is std key (codes "QUORUM")
      then ok (record q { quorum = true }, rest)
      else if upper_is std key (codes "__REPLICA")
      then ok (record q { is_replica = true }, rest)
      else if upper_is std key (codes "__LOCAL")
      then ok (record q { force_local = true }, rest)
      else if upper_is std key (codes "FROM")
      then set_from std q rest
      else if upper_is std key (codes "TO")
      then set_to std q rest
      else delete_pair q key rest

  -- GROUP BY <duration>
  abbrev pub group_by : Query → Tokens → Progress
  group_by q [] = err (codes "expected GROUP BY")
  group_by q (by ∷ []) =
      if upper_is std by (codes "BY")
      then err (codes "missing GROUP BY value")
      else err (codes "expected GROUP BY")
  group_by q (by ∷ value ∷ rest) =
      if upper_is std by (codes "BY")
      then (parse_duration_spec (token_value std value) >>= λ d.
          ok (record q { group_by_spec = token_value std value; group_by = d }, rest))
      else err (codes "expected GROUP BY")

  -- The keywords of GET and LEADERBOARD.
  unfoldable pub read_step : Query → Bytes → Tokens → Progress
  unfolding where_clause parse_time_value
  read_step q key rest =
      if upper_is std key (codes "__LOCAL")
      then ok (record q { force_local = true }, rest)
      else if upper_is std key (codes "GROUP")
      then group_by q rest
      else if upper_is std key (codes "WHERE")
      then get_where std q rest
      else if upper_is std key (codes "FROM")
      then set_from std q rest
      else if upper_is std key (codes "COUNT")
      then set_aggregate q AggType.count (codes "COUNT") rest
      else if upper_is std key (codes "SUM")
      then set_aggregate q AggType.sum (codes "SUM") rest
      else if upper_is std key (codes "AVG")
      then set_aggregate q AggType.avg (codes "AVG") rest
      else if upper_is std key (codes "TO")
      then set_to std q rest
      else if upper_is std key (codes "LIMIT")
      then set_limit q rest
      else if upper_is std key (codes "OFFSET")
      then set_offset q rest
      else if upper_is std key (codes "ORDER")
      then set_order std q rest
      else if upper_is std key (codes "ENTITY")
      then (if is_board_type q.type
          then set_entity std q rest
          else err (codes "ENTITY is only valid for LEADERBOARD"))
      else if upper_is std key (codes "BOARD")
      then (if is_leaderboard q.type
          then set_board std q rest
          else err (codes "BOARD is only valid for LEADERBOARD"))
      else err (codes "unknown keyword: " ++ key)

  -- The keywords of GROUP_LEADERBOARD.
  unfoldable pub group_step : Query → Bytes → Tokens → Progress
  unfolding parse_time_value parse_group_spec
  group_step q key rest =
      if upper_is std key (codes "__LOCAL")
      then ok (record q { force_local = true }, rest)
      else if upper_is std key (codes "GROUP")
      then (with_value (codes "missing GROUP spec") rest λ v.
          parse_group_spec std (token_value std v) >>= λ g.
          ok (record q { groups = q.groups ++ g ∷ [] }))
      else if upper_is std key (codes "FROM")
      then set_from std q rest
      else if upper_is std key (codes "TO")
      then set_to std q rest
      else if upper_is std key (codes "LIMIT")
      then set_limit q rest
      else if upper_is std key (codes "OFFSET")
      then set_offset q rest
      else if upper_is std key (codes "ORDER")
      then set_order std q rest
      else if upper_is std key (codes "ENTITY")
      then set_entity std q rest
      else if upper_is std key (codes "BOARD")
      then set_board std q rest
      else err (codes "unknown keyword: " ++ key)

  -- strings.ToUpper(token) == "__LOCAL", or a tag key
  unfoldable pub stats_tags : Query → Tokens → Query
  stats_tags q [] = q
  stats_tags q (token ∷ rest) =
      stats_tags
        (if upper_is std token (codes "__LOCAL")
          then record q { force_local = true }
          else record q { tag_keys = q.tag_keys ++ token ∷ [] })
        rest
