-- ===== src/Query/Commands/Text.antt =====
-- The texts of commands: splitting, times, and the assignments key = value.
use flamedb.Base.{
  ℕ, Bool, true, false, ◌&&◌, ◌||◌, Option, none, some, List, [], ◌∷◌, ◌++◌, ◌==◌, if◌then◌else◌,
  drop,
}
use flamedb.Base.Bytes.{Bytes, codes, bytes_eq, has_prefix}
use flamedb.Base.Decimal.{parse_int}
use flamedb.Base.Int.{ℤ}
use flamedb.Base.Map.{set}
use flamedb.Query.Duration.{DurSpec, parse_calendar_spec}
use flamedb.Query.Tokenize.{token_value}
use flamedb.Query.Types.{Query, QueryType, GroupDef, Result, ok, err, ◌>>=◌, or_error, Std}
use flamedb.Query.Validate.{is_empty}

abbrev pub Tokens : Type 0
Tokens = List Bytes

-- A query under construction and the tokens not read yet.
abbrev pub Progress : Type 0
Progress = Result (Query × Tokens)

abbrev pub onto : ℕ → List Bytes → List Bytes
onto x [] = (x ∷ []) ∷ []
onto x (part ∷ parts) = (x ∷ part) ∷ parts

abbrev pub before : ℕ → Option (Bytes × Bytes) → Option (Bytes × Bytes)
before x none = none
before x (some (a, b)) = some (x ∷ a, b)

-- strings.Split at one byte
unfoldable pub split : ℕ → Bytes → List Bytes
split c [] = [] ∷ []
split c (x ∷ s) = if x == c then [] ∷ split c s else onto x (split c s)

-- strings.SplitN at the first such byte; `none` where there is none.
unfoldable pub cut : ℕ → Bytes → Option (Bytes × Bytes)
cut c [] = none
cut c (x ∷ s) = if x == c then some ([], s) else before x (cut c s)

abbrev pub is_get : QueryType → Bool
is_get QueryType.get = true
is_get _ = false

abbrev pub is_leaderboard : QueryType → Bool
is_leaderboard QueryType.leaderboard = true
is_leaderboard _ = false

abbrev pub is_board_type : QueryType → Bool
is_board_type QueryType.leaderboard = true
is_board_type QueryType.group_leaderboard = true
is_board_type _ = false

abbrev pub is_equals : Bytes → Bool
is_equals token = bytes_eq token (codes "=")

-- The key and value forms shared by SET and DELETE: lb, lb.board, or a tag.
unfoldable pub assign : Query → Bytes → Bytes → Query
assign q key value =
    if bytes_eq key (codes "lb")
    then record q { update_lb = true; lb_entity_id = value }
    else if has_prefix key (codes "lb.")
    then record q { lb_entities = set q.lb_entities (drop 3 key) value }
    else record q { tags = set q.tags key value }

-- The switch of WRITE on a key: ts besides.
unfoldable pub assign_write : Query → Bytes → Bytes → Result Query
unfolding assign
assign_write q key value =
    if bytes_eq key (codes "ts")
    then (or_error (parse_int value) (codes "invalid ts: " ++ value) >>= λ ts.
        ok (record q { timestamp = ts }))
    else ok (assign q key value)

abbrev group_of : Bytes → List Bytes → Result GroupDef
group_of name [] = err (codes "GROUP has no members: " ++ name)
group_of name (m ∷ ms) = ok (record { name = name; members = m ∷ ms })

module _ (std : Std) where
  -- strings.ToUpper(token) == word
  abbrev pub upper_is : Bytes → Bytes → Bool
  upper_is token word = bytes_eq (std.to_upper token) word

  -- spec.dur and the calendar part are added only where they are not zero.
  unfoldable pub apply_calendar_offset : ℤ → DurSpec → Bool → ℤ
  apply_calendar_offset base spec forward =
      let moved =
        if spec.years == 0 && spec.months == 0
        then base
        else std.add_date base forward spec.years spec.months in
      if spec.dur == 0 then moved else std.add_duration moved forward spec.dur

  abbrev relative_time : Bytes → Bytes → Result ℤ
  relative_time token (n ∷ o ∷ w ∷ op ∷ s ∷ spec) =
      if op == b'-' || op == b'+'
      then (parse_calendar_spec (s ∷ spec) >>= λ d.
          ok (apply_calendar_offset std.now d (op == b'+')))
      else err (codes "invalid relative time: " ++ token)
  relative_time token _ = err (codes "invalid relative time: " ++ token)

  abbrev absolute_time : Bytes → Result ℤ
  absolute_time token = elim (std.parse_rfc3339 token) [
    | some t ↦ ok t
    | none ↦ or_error (std.parse_date token) (codes "invalid date: " ++ token)
  ]

  unfoldable pub parse_time_value : Bytes → Result ℤ
  unfolding apply_calendar_offset
  parse_time_value token =
      let value = token_value std token in
      if has_prefix value (codes "now")
      then (if bytes_eq value (codes "now") then ok std.now else relative_time value value)
      else absolute_time value

  abbrev trimmed_members : List Bytes → List Bytes
  trimmed_members [] = []
  trimmed_members (m ∷ ms) =
      let member = std.trim_space m in
      let rest = trimmed_members ms in if is_empty member then rest else member ∷ rest

  abbrev group_parts : Bytes → Option (Bytes × Bytes) → Result GroupDef
  group_parts spec none = err (codes "invalid GROUP spec: " ++ spec)
  group_parts spec (some (name, members)) =
      if is_empty (std.trim_space name)
      then err (codes "invalid GROUP spec: " ++ spec)
      else group_of (std.trim_space name) (trimmed_members (split b',' members))

  -- name:member,member,…
  unfoldable pub parse_group_spec : Bytes → Result GroupDef
  unfolding split cut
  parse_group_spec spec = group_parts spec (cut b':' spec)

  -- splitMetrics
  unfoldable pub split_metrics : Bytes → List Bytes
  unfolding split
  split_metrics s = trimmed_members (split b',' s)
