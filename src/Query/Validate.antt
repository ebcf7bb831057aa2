-- ===== src/Query/Validate.antt =====
-- validateQuery of internal/query/parser.go.
pub mod Names
pub mod Valid
use flamedb.Base.{
  ℕ, ◌+◌, ◌/◌, ◌%◌, ◌^◌, Bool, true, false, ◌&&◌, ◌||◌, not, Option, none, some, List, [], ◌∷◌,
  ◌++◌, ◌==◌, ltb, if◌then◌else◌,
}
use flamedb.Base.Bytes.{Bytes, codes, bytes_eq, contains_any}
use flamedb.Base.Int.{ℤ, pos, ltb_ℤ}
use flamedb.Base.Map.{Map}
use flamedb.Query.Types.{Query, QueryType}

abbrev pub is_empty {ℓ} : {A : Type ℓ} → List A → Bool
is_empty [] = true
is_empty (x ∷ xs) = false

-- math.IsNaN(v) || math.IsInf(v, 0): the exponent bits are all set.
unfoldable pub not_finite : ℕ → Bool
not_finite bits = bits / 2 ^ 52 % 2048 == 2047

abbrev pub is_zero : ℤ → Bool
is_zero (pos n) = n == 0
is_zero _ = false

abbrev pub is_type : QueryType → QueryType → Bool
is_type QueryType.metrics QueryType.metrics = true
is_type QueryType.set QueryType.set = true
is_type QueryType.delete QueryType.delete = true
is_type a b = false

unfoldable pub reserved_metric : Bytes → Bool
reserved_metric m =
    bytes_eq m (codes "idx")
    || bytes_eq m (codes "lb")
    || bytes_eq m (codes "lb-entity")
    || bytes_eq m (codes "card")
    || bytes_eq m (codes "card-count")
    || bytes_eq m (codes "repl-applied")
    || bytes_eq m (codes "repl-outbox")

unfoldable pub bad_metric : Bytes → Bool
unfolding reserved_metric
bad_metric m =
    is_empty m
    || contains_any m (b',' ∷ b'=' ∷ 0x22 ∷ b' ' ∷ 0x09 ∷ 0x0d ∷ 0x0a ∷ [])
    || reserved_metric m

abbrev pub key_delimiters : Bytes
key_delimiters = b'=' ∷ 0x22 ∷ b' ' ∷ 0x09 ∷ []

abbrev pub board_delimiters : Bytes
board_delimiters = b':' ∷ b'=' ∷ 0x22 ∷ b' ' ∷ 0x09 ∷ 0x1f ∷ []

-- The first metric name that is refused.
unfoldable pub first_bad_metric : List Bytes → Option Bytes
unfolding bad_metric
first_bad_metric [] = none
first_bad_metric (m ∷ ms) = let rest = first_bad_metric ms in if bad_metric m then some m else rest

-- METRICS has no metric name to check.
abbrev pub metric_error : Query → Option Bytes
metric_error q =
    if is_type q.type QueryType.metrics then none else first_bad_metric (q.metric ∷ q.metrics)

unfoldable pub any_bad_key : Map Bytes → Bool
any_bad_key [] = false
any_bad_key ((k, v) ∷ m) = is_empty k || contains_any k key_delimiters || any_bad_key m

unfoldable pub any_bad_board : Map Bytes → Bool
any_bad_board [] = false
any_bad_board ((board, entity) ∷ m) =
    is_empty board || contains_any board board_delimiters || is_empty entity || any_bad_board m

-- Checks in a row, each with its error: the first that holds is returned.
unfoldable pub first_error : List (Bool × Bytes) → Option Bytes
first_error [] = none
first_error ((failed, message) ∷ checks) = if failed then some message else first_error checks

-- The checks before those of the metric names.
abbrev pub head_checks : Query → List (Bool × Bytes)
head_checks q =
    (
      q.dry_run && (q.is_replica || q.quorum),
      codes "DRY_RUN cannot be combined with replication flags or QUORUM",
    )
    ∷ (
      ltb_ℤ q.limit (pos 0) || ltb_ℤ q.offset (pos 0) || ltb_ℤ (pos 1000000) q.limit,
      codes "invalid pagination (LIMIT must be between 0 and 1000000)",
    )
    ∷ (
      not (bytes_eq q.order (codes "ASC")) && not (bytes_eq q.order (codes "DESC")),
      codes "invalid ORDER",
    )
    ∷ (not_finite q.value, codes "value must be finite")
    ∷ (
      ltb_ℤ q.timestamp (pos 0)
          || ltb_ℤ q.from (pos 0)
          || ltb_ℤ q.to (pos 0)
          || (not (is_zero q.to) && ltb_ℤ q.to q.from),
      codes "invalid time range",
    )
    ∷ []

-- The checks behind those of the metric names.
abbrev pub tail_checks : Query → List (Bool × Bytes)
tail_checks q =
    (any_bad_key q.tags || any_bad_key q.conditions, codes "invalid tag key")
    ∷ (
      not (is_empty q.entity_tag) && contains_any q.entity_tag key_delimiters,
      codes "invalid entity tag",
    )
    ∷ (
      is_type q.type QueryType.delete && not (is_empty q.tags),
      codes "DELETE supports WHERE, lb and time ranges only",
    )
    ∷ (any_bad_board q.lb_entities, codes "invalid leaderboard board or entity")
    ∷ (
      not (is_empty q.board) && contains_any q.board board_delimiters,
      codes "invalid leaderboard board",
    )
    ∷ (
      not (is_empty q.board) && (not (is_zero q.from) || not (is_zero q.to)),
      codes "BOARD cannot be combined with FROM or TO",
    )
    ∷ (q.update_lb && is_empty q.lb_entity_id, codes "lb requires an entity")
    ∷ (
      is_type q.type QueryType.set && not q.update_lb && is_empty q.lb_entities,
      codes "SET requires lb",
    )
    ∷ []

abbrev pub or_else : Option Bytes → Option Bytes → Option Bytes
or_else (some e) later = some e
or_else none later = later

abbrev pub metric_message : Option Bytes → Option Bytes
metric_message none = none
metric_message (some m) = some (codes "invalid or reserved metric: " ++ m)

unfoldable pub validate_query : Query → Option Bytes
unfolding not_finite first_bad_metric first_error any_bad_key any_bad_board
validate_query q =
    or_else (first_error (head_checks q))
      (or_else (metric_message (metric_error q)) (first_error (tail_checks q)))
