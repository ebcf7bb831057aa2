-- ===== src/Examples/BatchRuns.antt =====
-- Batches of writes and the pages of windowed leaderboards at small inputs, over the store in memory.
use flamedb.Base.{◌≡◌, ◌+◌, refl, true, false, none, List, [], ◌∷◌}
use flamedb.Base.Bytes.{Bytes, codes, bytes_eq}
use flamedb.Base.Int.{pos, ◌+ℤ◌}
use flamedb.Base.Map.{get}
use flamedb.Base.Times.{times}
use flamedb.Examples.BoardRuns.{plain_scores}
use flamedb.Examples.QueryRuns.{plain_std}
use flamedb.Examples.RingRuns.{first_byte, node_a}
use flamedb.Examples.ServerRuns.{cluster_of, write_bx}
use flamedb.Examples.StoreRuns.{no_json}
use flamedb.Executor.WriteBatch.Accounts.{execute_write_batch_lem}
use flamedb.Executor.WriteBatch.Places.{indices}
use flamedb.Executor.WriteBatch.Staging.{run_batch, execute_write_batch}
use flamedb.Kv.Memory.{memory}
use flamedb.Leaderboard.{get_score}
use flamedb.Leaderboard.Shared.{SharedLookup, shared_get, has_text, entities_of}
use flamedb.Leaderboard.Shared.Agrees.{IsConsistent, shared_get_lem, new_lookup-IsConsistent}
use flamedb.Query.Types.{Query, ok, err, new_query, set}
use flamedb.Server.Batch.Answer.{handle_lines}
use flamedb.Server.Batch.Total.{handle_lines_lem}

abbrev three_queries : List Query
three_queries = write_bx ∷ new_query [] set ∷ record write_bx { update_lb = true } ∷ []

execute_write_batch_lem_example :
    (times 1 (run_batch memory plain_scores no_json [] (λ n. pos 7) three_queries).accepted
        + times 1 (
            indices
              (execute_write_batch memory plain_scores no_json []
                (λ n. pos 7)
                three_queries).1.errors)
      ≡ 1)
    × ((execute_write_batch memory plain_scores no_json [] (λ n. pos 7) three_queries).1.accepted
          + (execute_write_batch memory plain_scores no_json [] (λ n. pos 7) three_queries).1.failed
        ≡ 3)
execute_write_batch_lem_example =
    execute_write_batch_lem memory plain_scores no_json [] (λ n. pos 7) three_queries 1

abbrev batch_lines : List Bytes
batch_lines = codes "WRITE ax 1" ∷ codes "WRITE bx 1" ∷ codes "GET ax" ∷ []

handle_lines_lem_example :
    (handle_lines plain_std first_byte
        (λ t. [])
        (λ n. pos 7)
        (cluster_of node_a)
        (λ n s. err (codes "timeout"))
        (λ queries. ok (execute_write_batch memory plain_scores no_json [] (λ n. pos 7) queries).1)
        (λ items. none)
        false
        (codes "WRITE_BATCH")
        (λ n. [])
        batch_lines).accepted
      +ℤ (handle_lines plain_std first_byte
          (λ t. [])
          (λ n. pos 7)
          (cluster_of node_a)
          (λ n s. err (codes "timeout"))
          (λ queries.
            ok (execute_write_batch memory plain_scores no_json [] (λ n. pos 7) queries).1)
          (λ items. none)
          false
          (codes "WRITE_BATCH")
          (λ n. [])
          batch_lines).failed
    ≡ pos 3
handle_lines_lem_example =
    handle_lines_lem memory plain_scores no_json [] plain_std first_byte (λ t. []) (λ n. pos 7)
      (cluster_of node_a) (λ n s. err (codes "timeout")) (λ items. none) false (codes "WRITE_BATCH")
      (λ n. []) batch_lines _ refl

abbrev lookup : SharedLookup
lookup = record { targets = (codes "kills", codes "steve" ∷ []) ∷ []; legacy = [] }

steve_wanted : has_text (entities_of (get lookup.targets (codes "kills"))) (codes "steve") ≡ true
unfolding has_text get bytes_eq
steve_wanted = refl

shared_get_lem_example :
    ((shared_get memory plain_scores [] lookup (codes "kills") (codes "steve")).0
      ≡ ok (get_score memory plain_scores [] (codes "kills") (codes "steve")))
    × IsConsistent memory plain_scores []
        (shared_get memory plain_scores [] lookup (codes "kills") (codes "steve")).1
    × ((shared_get memory plain_scores [] lookup (codes "kills") (codes "steve")).1.targets
        ≡ lookup.targets)
shared_get_lem_example =
    shared_get_lem memory plain_scores [] lookup (codes "kills") (codes "steve")
      (new_lookup-IsConsistent memory plain_scores [] lookup.targets) steve_wanted
