-- ===== src/Query/Parse.antt =====
-- Parse and parseRanking of internal/query/parser.go and ranking.go.
pub mod Valid
use flamedb.Base.{
  ℕ, zero, suc, ◌+◌, Bool, true, false, ◌&&◌, ◌||◌, not, Option, none, some, List, [], ◌∷◌, ◌++◌,
  ◌==◌, if◌then◌else◌, drop, length, leb,
}
use flamedb.Base.Bytes.{Bytes, codes, bytes_eq, has_prefix, contains_byte, contains_any}
use flamedb.Base.Decimal.{parse_int, is_digit}
use flamedb.Base.Int.{ℤ, pos, ltb_ℤ}
use flamedb.Query.Commands.Clauses.{metrics_where}
use flamedb.Query.Commands.Loop.{each_token}
use flamedb.Query.Commands.Steps.{
  stats_tags, group_step, write_step, set_step, delete_step, read_step,
}
use flamedb.Query.Commands.Text.{Tokens, Progress, upper_is, split_metrics}
use flamedb.Query.Tokenize.{tokenize, token_value, quote, join}
use flamedb.Query.Types.{Query, QueryType, new_query, Result, ok, err, ◌>>=◌, or_error, Std}
use flamedb.Query.Validate.{validate_query, is_empty}

-- The text before the last occurrence of `p`, and the text behind it.
unfoldable pub last_cut : Bytes → Bytes → Option (Bytes × Bytes)
last_cut p [] = none
last_cut p (x ∷ s) = elim (last_cut p s) [
  | some (front, back) ↦ some (x ∷ front, back)
  | none ↦ if has_prefix (x ∷ s) p then some ([], drop (length p) (x ∷ s)) else none
]

abbrev is_hex : Bytes → Bool
is_hex [] = true
is_hex (c ∷ s) = (is_digit c || (leb b'a' c && leb c b'f')) && is_hex s

-- The operation identifier at the end of a replicated command, and the command without it.
abbrev without_operation : Bytes → Option (Bytes × Bytes) → Bytes × Bytes
without_operation input none = ([], input)
without_operation input (some (front, candidate)) =
    if length candidate == 32 && is_hex candidate then (candidate, front) else ([], input)

unfoldable pub operation_of : Bytes → Bytes × Bytes
unfolding last_cut
operation_of input = without_operation input (last_cut (codes " __op=") input)

-- The deferred check.
abbrev pub validated : Result Query → Result Query
validated (err e) = err e
validated (ok q) = elim (validate_query q) [ none ↦ ok q | some e ↦ err e ]

module _ (std : Std) where
  abbrev badly_quoted : Tokens → Bool
  badly_quoted [] = false
  badly_quoted (token ∷ rest) =
      (contains_byte token quote && (elim (std.unquote token) [ none ↦ true | some v ↦ false ]))
      || badly_quoted rest

  -- METRICS, then optionally WHERE and its clauses, then optionally __LOCAL, and nothing else.
  abbrev metrics_end : Query → Tokens → Result Query
  metrics_end q [] = ok q
  metrics_end q (t ∷ []) =
      if std.equal_fold t (codes "__LOCAL")
      then ok (record q { force_local = true })
      else err (codes "unexpected METRICS argument")
  metrics_end q _ = err (codes "unexpected METRICS argument")

  unfoldable pub parse_metrics : Query → Tokens → Result Query
  parse_metrics q [] = ok q
  parse_metrics q (t ∷ rest) =
      if std.equal_fold t (codes "WHERE")
      then (metrics_where std q rest >>= λ (q', rest'). metrics_end q' rest')
      else metrics_end q (t ∷ rest)

  unfoldable pub parse_stats : Query → Tokens → Result Query
  unfolding stats_tags
  parse_stats q [] = err (codes "STATS requires metric")
  parse_stats q (metric ∷ []) = ok (record q { metric = metric })
  parse_stats q (metric ∷ word ∷ rest) =
      if upper_is std word (codes "TAGS")
      then ok (stats_tags std (record q { metric = metric }) rest)
      else ok (record q { metric = metric })

  unfoldable pub parse_group_leaderboard : Query → Tokens → Result Query
  unfolding each_token group_step
  parse_group_leaderboard q [] = err (codes "missing metric")
  parse_group_leaderboard q (metric ∷ rest) =
      each_token (group_step std) (record q { metric = metric }) rest

  abbrev valued : Bytes → Option ℕ → (ℕ → Result Query) → Result Query
  valued token v f = or_error v (codes "invalid value: " ++ token) >>= f

  unfoldable pub parse_write : Query → Tokens → Result Query
  unfolding each_token write_step
  parse_write q (metric ∷ value ∷ rest) =
      valued value (std.parse_float value)
        λ bits. each_token (write_step std) (record q { metric = metric; value = bits }) rest
  parse_write q _ = err (codes "WRITE requires metric and value")

  unfoldable pub parse_set : Query → Tokens → Result Query
  unfolding each_token set_step
  parse_set q (metric ∷ value ∷ rest) =
      valued value (std.parse_float value)
        λ bits. each_token (set_step std) (record q { metric = metric; value = bits }) rest
  parse_set q _ = err (codes "SET requires metric and value")

  unfoldable pub parse_delete : Query → Tokens → Result Query
  unfolding each_token delete_step
  parse_delete q [] = err (codes "DELETE requires metric")
  parse_delete q (metric ∷ rest) = each_token (delete_step std) (record q { metric = metric }) rest

  abbrev get_metrics : Query → List Bytes → Tokens → Result Query
  get_metrics q [] rest = err (codes "missing metric")
  get_metrics q (m ∷ ms) rest =
      each_token (read_step std) (record q { metric = m; metrics = m ∷ ms }) rest

  unfoldable pub parse_get : Query → Tokens → Result Query
  unfolding each_token read_step split_metrics
  parse_get q [] = err (codes "missing metric")
  parse_get q (names ∷ rest) = get_metrics q (split_metrics std names) rest

  unfoldable pub parse_leaderboard : Query → Tokens → Result Query
  unfolding each_token read_step
  parse_leaderboard q [] = err (codes "missing metric")
  parse_leaderboard q (metric ∷ rest) =
      if contains_byte metric b','
      then err (codes "multiple metrics only supported for GET")
      else each_token (read_step std) (record q { metric = metric }) rest

  -- The switch on the command; the ranking commands are not among them.
  unfoldable pub parse_command : Bytes → Bytes → Tokens → Result Query
  unfolding parse_metrics parse_stats parse_group_leaderboard parse_write parse_set parse_delete
      parse_get parse_leaderboard
  parse_command operation command rest =
      let start = new_query operation in
      if upper_is std command (codes "METRICS")
      then parse_metrics (start QueryType.metrics) rest
      else if upper_is std command (codes "STATS")
      then parse_stats (start QueryType.stats) rest
      else if upper_is std command (codes "GROUP_LEADERBOARD")
      then parse_group_leaderboard (start QueryType.group_leaderboard) rest
      else if upper_is std command (codes "WRITE")
      then parse_write (start QueryType.write) rest
      else if upper_is std command (codes "SET")
      then parse_set (start QueryType.set) rest
      else if upper_is std command (codes "DELETE") || upper_is std command (codes "PREVIEW_DELETE")
      then parse_delete
          (record (start QueryType.delete) {
            dry_run = std.equal_fold command (codes "PREVIEW_DELETE");
          })
          rest
      else if upper_is std command (codes "GET")
      then parse_get (start QueryType.get) rest
      else if upper_is std command (codes "LEADERBOARD")
      then parse_leaderboard (start QueryType.leaderboard) rest
      else err (codes "unknown command: " ++ command)

  -- isRankingCommand, with the type that the command stands for.
  abbrev ranking_type : Bytes → Option QueryType
  ranking_type command =
      if upper_is std command (codes "RANK")
      then some QueryType.rank
      else if upper_is std command (codes "SCORE")
      then some QueryType.score
      else if upper_is std command (codes "AROUND")
      then some QueryType.around
      else if upper_is std command (codes "LEADERBOARD_COUNT")
      then some QueryType.leaderboard_count
      else none

  abbrev bad_radius : ℤ → Bool
  bad_radius r = ltb_ℤ r (pos 0) || ltb_ℤ (pos 100000) r

  -- parseRanking: the rest is parsed as a LEADERBOARD command.
  abbrev as_leaderboard :
      (Bytes → Result Query) → QueryType → Bytes → Bytes → ℤ → Tokens → Result Query
  as_leaderboard parse_line type metric entity radius rest =
      parse_line (codes "LEADERBOARD " ++ (metric ++ b' ' ∷ join rest)) >>= λ q.
      ok (record q { type = type; entity_id = entity; radius = radius })

  abbrev around_radius : (ℤ → Result Query) → Bytes → Result Query
  around_radius f token = elim (parse_int token) [
    | none ↦ err (codes "invalid radius")
    | some r ↦ if bad_radius r then err (codes "invalid radius") else f r
  ]

  abbrev around_rest : (Bytes → Result Query) → Bytes → Bytes → Tokens → Result Query
  around_rest parse_line metric entity [] = err (codes "AROUND requires radius")
  around_rest parse_line metric entity (token ∷ rest) =
      around_radius (λ r. as_leaderboard parse_line QueryType.around metric entity r rest) token

  abbrev ranking_rest :
      (Bytes → Result Query) → QueryType → Bytes → Bytes → Bytes → Tokens → Result Query
  ranking_rest parse_line QueryType.around command metric entity rest =
      around_rest parse_line metric entity rest
  ranking_rest parse_line type command metric entity rest =
      as_leaderboard parse_line type metric entity (pos 0) rest

  abbrev ranking_entity : (Bytes → Result Query) → QueryType → Bytes → Bytes → Tokens → Result Query
  ranking_entity parse_line type command metric [] =
      err (std.to_upper command ++ codes " requires entity")
  ranking_entity parse_line type command metric (token ∷ rest) =
      if is_empty (token_value std token)
      then err (std.to_upper command ++ codes " requires entity")
      else ranking_rest parse_line type command metric (token_value std token) rest

  unfoldable pub parse_ranking : (Bytes → Result Query) → QueryType → Bytes → Tokens → Result Query
  unfolding join
  parse_ranking parse_line type command [] = err (std.to_upper command ++ codes " requires metric")
  parse_ranking parse_line QueryType.leaderboard_count command (metric ∷ rest) =
      as_leaderboard parse_line QueryType.leaderboard_count metric [] (pos 0) rest
  parse_ranking parse_line type command (metric ∷ rest) =
      ranking_entity parse_line type command metric rest

  abbrev dispatch : (Bytes → Result Query) → Bytes → Tokens → Result Query
  dispatch parse_line operation [] = err (codes "empty query")
  dispatch parse_line operation (command ∷ rest) = elim (ranking_type command) [
    | some type ↦ parse_ranking parse_line type command rest
    | none ↦ parse_command operation command rest
  ]

  abbrev framing : Bytes
  framing = 0x0d ∷ 0x0a ∷ 0x00 ∷ 0x1f ∷ []

  -- The body of Parse, before the deferred check; `parse_line` is Parse itself.
  unfoldable pub parse_body : (Bytes → Result Query) → Bytes → Result Query
  unfolding operation_of parse_ranking parse_command
  parse_body parse_line input =
      if contains_any input framing
      then err (codes "invalid query framing or unterminated quote")
      else let (operation, command_line) = operation_of input in
        let tokens = tokenize command_line in
        if badly_quoted tokens
        then err (codes "invalid quoted value")
        else dispatch parse_line operation tokens

  -- Parse calls itself for the ranking commands alone, at most `depth` deep.
  unfoldable pub parse_at : ℕ → Bytes → Result Query
  unfolding parse_body validate_query
  parse_at zero input = err []
  parse_at (suc depth) input = let inner = parse_at depth in validated (parse_body inner input)

  unfoldable pub parse : Bytes → Result Query
  unfolding parse_at
  parse input = parse_at 2 input
