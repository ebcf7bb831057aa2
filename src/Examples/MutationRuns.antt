-- ===== src/Examples/MutationRuns.antt =====
-- Mutations, their locks and series at small inputs.
use flamedb.Base.{
  ℕ, ◌≡◌, ◌<◌, ◌+◌, refl, arith, true, some, [], ◌∷◌, length, List, In, ◌%◌, ◌*◌, ◌-◌, ◌/◌,
}
use flamedb.Base.Bytes.{Bytes, codes}
use flamedb.Base.Int.{pos}
use flamedb.Base.Map.{Map, get}
use flamedb.Base.Pairs.{Pairs}
use flamedb.Examples.BoardRuns.{plain_scores}
use flamedb.Examples.StoreRuns.{no_json}
use flamedb.Executor.{execute_mutation, DeleteResult, nothing_deleted, lock_order}
use flamedb.Executor.Replay.{execute_mutation_twice}
use flamedb.Executor.Series.{Sums, SeriesPoint, aggregate_events, add_calendar}
use flamedb.Executor.Series.Total.{aggregate_events_lem, total}
use flamedb.Executor.Stripes.{lock_order_lem}
use flamedb.Kv.Memory.{memory, memory-IsStore}
use flamedb.Query.Duration.{DurSpec}
use flamedb.Query.Types.{
  Query, new_query, set, sum, Result as Replied, ok as replied, err as failed,
}
use flamedb.Storage.Event.{Event}

-- A replica's SET of one score.
abbrev replica_set : Query
replica_set = record (new_query (codes "op") set) {
  metric = codes "kills";
  is_replica = true;
  update_lb = true;
  lb_entity_id = codes "steve";
  value = 7;
}

abbrev no_cards : Bytes → Bytes → ℕ
no_cards metric tag = 0

abbrev executed_of : Replied (Map Bytes × DeleteResult × List Event) → Map Bytes
executed_of (replied (db, deleted, events)) = db
executed_of (failed e) = []

abbrev after_set : Map Bytes
after_set =
    executed_of (execute_mutation memory plain_scores no_json no_cards [] replica_set (pos 9))

execute_mutation_twice_example :
    (db'' : Map Bytes) × (execute_mutation memory plain_scores no_json no_cards after_set
        replica_set
        (pos 10)
      ≡ replied (db'', nothing_deleted replica_set, []))
    × ((k : Bytes) → get db'' k ≡ get after_set k)
unfolding execute_mutation get flamedb.Executor.boards_of flamedb.Leaderboard.stage_value
    flamedb.Query.Validate.not_finite
execute_mutation_twice_example =
    execute_mutation_twice memory-IsStore plain_scores no_json no_cards [] after_set replica_set
      (pos 9) (pos 10) (nothing_deleted replica_set) [] refl refl

abbrev key_length : Bytes → ℕ
key_length k = 1030 - length k

lock_order_lem_example :
    Pairs (λ a b. a < b) (lock_order key_length (codes "ab" ∷ codes "abcdefghi" ∷ codes "cd" ∷ []))
    × ((a : ℕ)
        → In a (lock_order key_length (codes "ab" ∷ codes "abcdefghi" ∷ codes "cd" ∷ []))
        → a < 1024)
    × ((k : Bytes)
        → In k (codes "ab" ∷ codes "abcdefghi" ∷ codes "cd" ∷ [])
        → In
            (key_length k % 1024)
            (lock_order key_length (codes "ab" ∷ codes "abcdefghi" ∷ codes "cd" ∷ [])))
lock_order_lem_example =
    lock_order_lem key_length (codes "ab" ∷ codes "abcdefghi" ∷ codes "cd" ∷ [])

abbrev plain_sums : Sums
plain_sums = record { plus = λ a b. a + b; over = λ a b. a / b; of_count = λ n. n }

-- Buckets of ten, and a calendar of fixed months.
abbrev tens : DurSpec
tens = record { years = 0; months = 0; dur = 10 }

abbrev add_months : ℕ → ℕ → ℕ → ℕ
add_months t years months = t + 365 * years + 30 * months

tens-grow : (t : ℕ) → t < add_calendar add_months plain_sums tens t
unfolding add_calendar
tens-grow t = omega arith

abbrev at_time : ℕ → Event
at_time t = record { timestamp = pos t; metric = codes "cpu"; value = 1; tags = [] }

abbrev three_events : List Event
three_events = at_time 3 ∷ at_time 8 ∷ at_time 25 ∷ []

aggregate_events_lem_example :
    (points : List SeriesPoint) × (aggregate_events add_months plain_sums tens sum three_events
      ≡ some points)
    × (total points ≡ 3)
aggregate_events_lem_example =
    aggregate_events_lem add_months plain_sums tens tens-grow sum three_events
      ((3, refl, omega arith, (8, refl, omega arith, (25, refl, omega arith, tt))))
