-- ===== src/Examples/OrderRuns.antt =====
-- The page of a windowed leaderboard, with sorted lists for heaps and natural numbers for scores.
use flamedb.Base.{
  refl, ℕ, ◌≡◌, arith, true, false, Bool, not, List, [], ◌∷◌, ltb, if◌then◌else◌, drop, ◌==◌,
  Bool-cases, inl, inr, length, In, ◌↔◌,
}
use flamedb.Base.Bytes.{Bytes, codes}
use flamedb.Base.Order.{sort_by, In-sort_by, length-sort_by, sort_by-Pairs}
use flamedb.Base.Pairs.{Pairs}
use flamedb.Base.Window.{window}
use flamedb.Base.Words.{bytes_lt}
use flamedb.Examples.BoardRuns.{plain_scores}
use flamedb.Examples.StoreRuns.{no_json}
use flamedb.Executor.Reads.{execute_group_leaderboard, is_given}
use flamedb.Executor.Reads.Groups.{IsTotal, execute_group_leaderboard_lem}
use flamedb.Kv.Memory.{memory}
use flamedb.Kv.Order.{bytes_lt_trans, bytes_lt_irrefl, bytes_le_trans}
use flamedb.Leaderboard.{get_score}
use flamedb.Query.Types.{Query, new_query, GroupDef, group_leaderboard, ok}
use flamedb.Storage.Keys.{board_metric}
use flamedb.Storage.Windowed.{Ordering, leaderboard_before, leaderboard_page}
use flamedb.Storage.Windowed.Page.{Entry, IsOrdering}
use flamedb.Storage.Windowed.Page.Best.{Best, leaderboard_page_lem}

abbrev better : Entry → Entry → Bool
better a b =
    if not (a.value == b.value) then ltb b.value a.value else bytes_lt a.entity_id b.entity_id

abbrev worse : Entry → Entry → Bool
worse a b = better b a

abbrev sorting : Ordering
sorting = record {
  greater = λ a b. ltb b a;
  differs = λ a b. not (a == b);
  init = sort_by worse;
  fix = sort_by worse;
  sort = sort_by better;
}

bytes_asym : (s t : Bytes) → bytes_lt s t ≡ true → bytes_lt t s ≡ false
bytes_asym s t e = elim (Bool-cases (bytes_lt t s)) [
  | inl back ↦ absurd (cc (bytes_lt_trans s t s e back, bytes_lt_irrefl s))
  | inr apart ↦ apart
]

better_asym : (a b : Entry) → better a b ≡ true → better b a ≡ false
better_asym a b h = ground (arith, h, bytes_asym a.entity_id b.entity_id)

better_weak : (a b c : Entry) → better a b ≡ false → better b c ≡ false → better a c ≡ false
better_weak a b c h k = ground (arith, h, k, bytes_le_trans b.entity_id a.entity_id c.entity_id)

sorting-IsOrdering : IsOrdering sorting
unfolding leaderboard_before
sorting-IsOrdering = record {
  differs_iff = λ a b. ground arith;
  greater_asym = λ a b h. ground (arith, h);
  greater_weak = λ a b c h k. ground (arith, h, k);
  IsHeap = Pairs (λ a b. worse b a ≡ false);
  init-IsHeap =
      λ es. sort_by-Pairs worse (λ a b. better_asym b a) (λ a b c h k. better_weak c b a k h) es;
  fix-IsHeap = λ w e h p.
      sort_by-Pairs worse (λ a b. better_asym b a) (λ a b c h k. better_weak c b a k h) (e ∷ h);
  head_worst = λ w e h p i. p.0 e i;
  init_same = λ e es. In-sort_by worse e es;
  fix_same = λ e es. In-sort_by worse e es;
  sort_same = λ e es. In-sort_by better e es;
  length-init = λ es. length-sort_by worse es;
  length-fix = λ es. length-sort_by worse es;
  length-sort = λ es. length-sort_by better es;
  sort_sorted = λ es. sort_by-Pairs better better_asym better_weak es;
}

abbrev entry : Bytes → ℕ → Entry
entry id v = record { entity_id = id; value = v }

abbrev five : List Entry
five =
    entry (codes "a") 3
    ∷ entry (codes "b") 9
    ∷ entry (codes "c") 1
    ∷ entry (codes "d") 9
    ∷ entry (codes "e") 4
    ∷ []

leaderboard_page_lem_example :
    (top rest : List Entry) × (leaderboard_page sorting five 1 0 ≡ drop 0 top)
    × Best sorting-IsOrdering five 1 top rest
leaderboard_page_lem_example = leaderboard_page_lem sorting-IsOrdering five 1 0 (omega arith)

abbrev team_query : Query
team_query = record (new_query [] group_leaderboard) {
  metric = codes "kills";
  groups =
      record { name = codes "red"; members = codes "a" ∷ codes "b" ∷ [] }
      ∷ record { name = codes "blue"; members = codes "c" ∷ [] }
      ∷ [];
}

without_range : is_given team_query ≡ false
without_range = refl

execute_group_leaderboard_lem_example :
    (sorted : List Entry) × (execute_group_leaderboard memory no_json plain_scores sorting []
        team_query
      ≡ ok (window 10 0 sorted))
    × Pairs (λ a b. leaderboard_before sorting b a ≡ false) sorted
    × (length sorted ≡ 2)
    × ((e : Entry)
        → In e sorted ↔ (
            (g : GroupDef) × In g team_query.groups
            × IsTotal plain_scores.add
                (λ m.
                  get_score memory plain_scores []
                    (board_metric team_query.metric team_query.board)
                    m)
                g
                e))
execute_group_leaderboard_lem_example =
    execute_group_leaderboard_lem memory no_json plain_scores sorting sorting-IsOrdering []
      team_query 10 0 without_range refl refl
