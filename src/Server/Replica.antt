-- ===== src/Server/Replica.antt =====
-- The line that goes to the replicas, replicaLine of internal/server/server.go.
use flamedb.Base.{suc, [], ◌∷◌, ◌++◌, if◌then◌else◌}
use flamedb.Base.Bytes.{Bytes, codes}
use flamedb.Base.Decimal.{decimal}
use flamedb.Base.Int.{ℤ, pos, negsuc}
use flamedb.Query.Types.{Query, QueryType, write, delete}
use flamedb.Query.Validate.{is_zero}

-- %d
abbrev pub signed_decimal : ℤ → Bytes
signed_decimal (pos n) = decimal n
signed_decimal (negsuc n) = b'-' ∷ decimal (suc n)

-- `format_time` is time.Unix(0, t).UTC().Format(time.RFC3339Nano).
module _ (format_time : ℤ → Bytes) where
  abbrev bound : Bytes → ℤ → Bytes
  bound word t = if is_zero t then [] else word ++ format_time t

  abbrev parameters : QueryType → Query → Bytes
  parameters write q = codes " ts=" ++ signed_decimal q.timestamp
  parameters delete q = bound (codes " FROM ") q.from ++ bound (codes " TO ") q.to
  parameters _ q = []

  unfoldable pub replica_line : Bytes → Query → Bytes
  replica_line line q =
      line ++ (parameters q.type q ++ (codes " __replica __op=" ++ q.operation_id))
