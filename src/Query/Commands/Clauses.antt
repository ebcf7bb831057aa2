-- ===== src/Query/Commands/Clauses.antt =====
-- Clauses that several commands share.
use flamedb.Base.{Bool, [], ◌∷◌, ◌++◌, if◌then◌else◌}
use flamedb.Base.Bytes.{Bytes, codes}
use flamedb.Base.Decimal.{parse_int}
use flamedb.Base.Map.{set}
use flamedb.Query.Commands.Text.{Tokens, Progress, is_equals, parse_time_value, upper_is}
use flamedb.Query.Tokenize.{token_value}
use flamedb.Query.Types.{Query, Result, ok, err, ◌>>=◌, or_error, Std}
use flamedb.Query.Validate.{is_empty}

-- The keywords that take one value.
abbrev pub with_value : Bytes → Tokens → (Bytes → Result Query) → Progress
with_value e [] f = err e
with_value e (value ∷ rest) f = f value >>= λ q. ok (q, rest)

abbrev pub set_limit : Query → Tokens → Progress
set_limit q rest =
    with_value (codes "missing LIMIT value") rest λ v.
      or_error (parse_int v) (codes "invalid LIMIT: " ++ v) >>= λ n. ok (record q { limit = n })

abbrev pub set_offset : Query → Tokens → Progress
set_offset q rest = with_value (codes "missing OFFSET value") rest λ v.
    or_error (parse_int v) (codes "invalid OFFSET: " ++ v) >>= λ n. ok (record q { offset = n })

abbrev pub named_board : Query → Bytes → Result Query
named_board q board =
    if is_empty board then err (codes "BOARD requires a name") else ok (record q { board = board })

module _ (std : Std) where
  -- key = value, and after AND the next. `missing` and `no_equals` are the two errors, and `is_and`
  -- is the test for AND, which differ between the commands.
  unfoldable pub where_clause : Bytes → (Bytes → Bytes) → (Bytes → Bool) → Query → Tokens → Progress
  where_clause missing no_equals is_and q (key ∷ eq ∷ value ∷ []) =
      if is_equals eq
      then ok (record q { conditions = set q.conditions key (token_value std value) }, [])
      else err (no_equals key)
  where_clause missing no_equals is_and q (key ∷ eq ∷ value ∷ next ∷ rest) =
      let q' = record q { conditions = set q.conditions key (token_value std value) } in
      let more = where_clause missing no_equals is_and q' rest in
      if is_equals eq
      then (if is_and next then more else ok (q', next ∷ rest))
      else err (no_equals key)
  where_clause missing no_equals is_and q _ = err missing

  abbrev pub delete_where : Query → Tokens → Progress
  delete_where q rest =
      where_clause (codes "invalid DELETE WHERE clause")
        (λ key. codes "invalid DELETE WHERE clause") (λ next. std.equal_fold next (codes "AND")) q
        rest

  abbrev pub metrics_where : Query → Tokens → Progress
  metrics_where q rest =
      where_clause (codes "invalid METRICS WHERE clause")
        (λ key. codes "invalid METRICS WHERE clause") (λ next. std.equal_fold next (codes "AND")) q
        rest

  abbrev pub get_where : Query → Tokens → Progress
  get_where q rest =
      where_clause (codes "invalid WHERE clause") (λ key. codes "expected = after " ++ key)
        (λ next. upper_is std next (codes "AND")) q rest

  abbrev pub set_from : Query → Tokens → Progress
  set_from q rest =
      with_value (codes "missing FROM value") rest
        λ v. parse_time_value std v >>= λ ts. ok (record q { from = ts })

  abbrev pub set_to : Query → Tokens → Progress
  set_to q rest =
      with_value (codes "missing TO value") rest
        λ v. parse_time_value std v >>= λ ts. ok (record q { to = ts })

  abbrev pub set_order : Query → Tokens → Progress
  set_order q rest =
      with_value (codes "missing ORDER value") rest λ v. ok (record q { order = std.to_upper v })

  abbrev pub set_entity : Query → Tokens → Progress
  set_entity q rest =
      with_value (codes "missing ENTITY value") rest
        λ v. ok (record q { entity_tag = token_value std v })

  abbrev pub set_board : Query → Tokens → Progress
  set_board q rest =
      with_value (codes "missing BOARD value") rest λ v. named_board q (token_value std v)
