-- ===== src/Examples/QueryRuns.antt =====
-- The parser's theorems at short commands. The texts are upper case, and no value is quoted.
use flamedb.Base.{◌≡◌, ◌≢◌, refl, none, some, List, [], ◌∷◌, ◌≤◌, ◌<◌, ◌+◌, All, length}
use flamedb.Base.Bytes.{Bytes, codes, bytes_eq, contains_any, contains_byte, has_prefix}
use flamedb.Base.Decimal.{is_digit, read_digits}
use flamedb.Base.Int.{pos}
use flamedb.Query.Batch.{parse_write_batch}
use flamedb.Query.Batch.Items.{IsRead, parse_write_batch-IsRead}
use flamedb.Query.Commands.Ends.{loops_end}
use flamedb.Query.Commands.Loop.{run}
use flamedb.Query.Commands.Steps.{write_step, set_step, delete_step, read_step, group_step}
use flamedb.Query.Commands.Text.{Tokens}
use flamedb.Query.Duration.{DurSpec, parse_calendar_spec, spec_loop, max_int64}
use flamedb.Query.Duration.Bounds.{parse_calendar_spec_lem}
use flamedb.Query.Parse.{parse}
use flamedb.Query.Parse.Valid.{parse-IsValid}
use flamedb.Query.Tokenize.{tokenize}
use flamedb.Query.Tokenize.Plain.{IsWord}
use flamedb.Query.Types.{Query, QueryType, new_query, ok, Std}
use flamedb.Query.Validate.{validate_query}
use flamedb.Query.Validate.Valid.{IsValid}

abbrev pub plain_std : Std
plain_std = record {
  to_upper = λ s. s;
  equal_fold = λ s t. bytes_eq s t;
  trim_space = λ s. s;
  unquote = λ s. none;
  parse_float = λ s. some 0;
  parse_rfc3339 = λ s. none;
  parse_date = λ s. none;
  now = pos 0;
  add_date = λ t forward years months. t;
  add_duration = λ t forward d. t;
}

abbrev stats_query : Query
stats_query = record (new_query [] QueryType.stats) { metric = codes "cpu" }

stats_checked : validate_query stats_query ≡ none
unfolding validate_query bytes_eq contains_any contains_byte
stats_checked = refl

stats_parsed : parse plain_std (codes "STATS cpu") ≡ ok stats_query
unfolding parse contains_any contains_byte tokenize has_prefix bytes_eq
stats_parsed = refl

parse-IsValid_example : IsValid stats_query
parse-IsValid_example = parse-IsValid plain_std (codes "STATS cpu") stats_query stats_parsed

abbrev words : List Bytes
words = codes "GET" ∷ codes "cpu" ∷ []

words-IsWord : All IsWord words
words-IsWord =
    (((λ e. cc), (refl, (refl, (refl, tt)))), (((λ e. cc), (refl, (refl, (refl, tt)))), tt))

abbrev a_year : DurSpec
a_year = record { years = 1; months = 2; dur = 0 }

a_year_parsed : parse_calendar_spec (codes "1y2mo") ≡ ok a_year
unfolding parse_calendar_spec spec_loop is_digit read_digits has_prefix
a_year_parsed = refl

parse_calendar_spec_lem_example : (0 < 1 + 2 + 0) × (0 ≤ max_int64)
parse_calendar_spec_lem_example = parse_calendar_spec_lem (codes "1y2mo") a_year a_year_parsed

abbrev tokens : Tokens
tokens = codes "host" ∷ codes "=" ∷ codes "a" ∷ codes "QUORUM" ∷ []

loops_end_example :
    (run (write_step plain_std) (length tokens) stats_query tokens ≢ none)
    × (run (set_step plain_std) (length tokens) stats_query tokens ≢ none)
    × (run (delete_step plain_std) (length tokens) stats_query tokens ≢ none)
    × (run (read_step plain_std) (length tokens) stats_query tokens ≢ none)
    × (run (group_step plain_std) (length tokens) stats_query tokens ≢ none)
loops_end_example = loops_end plain_std stats_query tokens

abbrev batch : List Bytes
batch = [] ∷ codes "STATS cpu" ∷ codes "WRITE cpu 1" ∷ []

parse_write_batch-IsRead_example : IsRead plain_std 0 batch (parse_write_batch plain_std batch)
parse_write_batch-IsRead_example = parse_write_batch-IsRead plain_std batch
