-- ===== src/Storage/Event.antt =====
-- internal/storage/event.go. A float64 is its bit pattern, math.Float64bits of it.
use flamedb.Base.{ℕ, ◌^◌, ◌<◌}
use flamedb.Base.Bytes.{Bytes}
use flamedb.Base.Int.{ℤ, IsInt64}
use flamedb.Base.Map.{Map, Distinct}

pub record Event : Type 0 where
  pub timestamp : ℤ
  pub metric : Bytes
  pub value : ℕ
  pub tags : Map Bytes

-- What Go's types give: an int64, a float64, and a map with distinct keys.
pub record IsEvent (e : Event) : Type 0 where
  pub timestamp_range : IsInt64 e.timestamp
  pub value_range : e.value < 2 ^ 64
  pub tags_distinct : Distinct e.tags
