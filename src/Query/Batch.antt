-- ===== src/Query/Batch.antt =====
-- ParseWriteBatch of internal/query/parser.go: the lines of one batch.
pub mod Items
use flamedb.Base.{ℕ, suc, ◌+◌, Bool, true, false, List, [], ◌∷◌, if◌then◌else◌}
use flamedb.Base.Bytes.{Bytes, codes}
use flamedb.Query.Parse.{parse}
use flamedb.Query.Types.{Query, QueryType, Result, ok, err, Std}
use flamedb.Query.Validate.{is_empty}

-- BatchItemError
pub record BatchItemError : Type 0 where
  pub index : ℕ
  pub error : Bytes

abbrev pub is_write : QueryType → Bool
is_write QueryType.write = true
is_write _ = false

abbrev pub Batch : Type 0
Batch = List Query × List BatchItemError

abbrev reject : ℕ → Bytes → Batch → Batch
reject i message (queries, errors) = (queries, (record { index = i; error = message }) ∷ errors)

abbrev take_item : ℕ → Result Query → Batch → Batch
take_item i (err e) rest = reject i e rest
take_item i (ok q) rest =
    if is_write q.type
    then (q ∷ rest.0, rest.1)
    else reject i (codes "WRITE_BATCH only supports WRITE items") rest

-- The loop from line `i` on.
unfoldable pub parse_lines : Std → ℕ → List Bytes → Batch
parse_lines std i [] = ([], [])
parse_lines std i (line ∷ lines) =
    let rest = parse_lines std (suc i) lines in
    if is_empty (std.trim_space line)
    then rest
    else take_item i (parse std (std.trim_space line)) rest

unfoldable pub parse_write_batch : Std → List Bytes → Batch
unfolding parse_lines
parse_write_batch std lines = parse_lines std 0 lines
