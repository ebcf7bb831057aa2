-- ===== src/Executor/Reads/Groups.antt =====
-- The group leaderboards of executeGroupLeaderboard over all time.
use flamedb.Base.{
  map, ℕ, zero, suc, ◌≡◌, ◌↔◌, inl, inr, refl, ap, false, List, [], ◌∷◌, length, In, arith, sym,
  ◌∙◌, take, drop, length-drop, ◌≤◌,
}
use flamedb.Base.Bytes.{Bytes}
use flamedb.Base.Int.{pos}
use flamedb.Base.Order.{sort_by, In-sort_by, length-sort_by, sort_by-Pairs}
use flamedb.Base.Pairs.{Pairs}
use flamedb.Base.Window.{window, drop_nil}
use flamedb.Executor.Reads.{
  execute_group_leaderboard, group_entries, member_total, cut_page, natural, is_given,
}
use flamedb.Kv.{Kv}
use flamedb.Leaderboard.{LeaderboardEntry, Scores, get_score}
use flamedb.Query.Types.{Query, GroupDef, ok}
use flamedb.Storage.Codec.{Json}
use flamedb.Storage.Keys.{board_metric}
use flamedb.Storage.Windowed.{Ordering, leaderboard_before}
use flamedb.Storage.Windowed.Page.{IsOrdering, before_asym, before_weak}

-- The sum of the values from the left on.
unfoldable pub left_sum : (ℕ → ℕ → ℕ) → ℕ → List ℕ → ℕ
left_sum plus total [] = total
left_sum plus total (v ∷ values) = left_sum plus (plus total v) values

-- A group's entry: its name, and its members' scores added up from zero on, from left to right.
abbrev pub IsTotal : (ℕ → ℕ → ℕ) → (Bytes → ℕ) → GroupDef → LeaderboardEntry → Type 0
IsTotal plus score g e = (e.entity_id ≡ g.name) × (e.value ≡ left_sum plus 0 (map score g.members))

nothing_left : (xs : List LeaderboardEntry) → length xs ≡ 0 → xs ≡ []
nothing_left [] h = refl
nothing_left (x ∷ xs) h = absurd (omega arith)

take_enough : (k : ℕ) (xs : List LeaderboardEntry) → length xs ≤ k → take k xs ≡ xs
take_enough zero xs h = sym (nothing_left xs (omega arith))
take_enough (suc k) [] h = refl
take_enough (suc k) (x ∷ xs) h = ap (λ l. x ∷ l) (take_enough k xs (omega arith))

window_nil : (limit offset : ℕ) → window {A = LeaderboardEntry} limit offset [] ≡ []
unfolding window
window_nil limit offset =
    ground (arith, drop_nil {A = LeaderboardEntry} offset, take_enough limit [])

-- The two cuts of the code are one window.
cut_page-window :
    (entries : List LeaderboardEntry) (limit offset : ℕ)
    → cut_page entries limit offset ≡ window limit offset entries
unfolding cut_page window
cut_page-window entries limit offset = ground (
  arith,
  nothing_left (drop offset entries),
  length-drop offset entries,
  take_enough limit (drop offset entries),
)

module _ (plus : ℕ → ℕ → ℕ) (score : Bytes → ℕ) where
  member_total-left_sum :
      (total : ℕ) (members : List Bytes)
      → member_total plus score total members ≡ left_sum plus total (map score members)
  unfolding member_total left_sum
  member_total-left_sum total [] = refl
  member_total-left_sum total (m ∷ members) = member_total-left_sum (plus total (score m)) members

  length-group_entries :
      (groups : List GroupDef) → length (group_entries plus score groups) ≡ length groups
  unfolding group_entries
  length-group_entries [] = refl
  length-group_entries (g ∷ groups) = ap suc (length-group_entries groups)

  In-group_entries :
      (e : LeaderboardEntry) (groups : List GroupDef)
      → In e (group_entries plus score groups)
        ↔ ((g : GroupDef) × In g groups × IsTotal plus score g e)
  unfolding group_entries
  In-group_entries e [] = ((λ i. elim i [ ]), λ (g, i, t). elim i [ ])
  In-group_entries e (g ∷ groups) = (
    (λ i. elim i [
      | inl f ↦ (
        g,
        inl refl,
        (ap (λ x. x.entity_id) f, ap (λ x. x.value) f ∙ member_total-left_sum 0 g.members),
      )
      | inr j ↦ let (h, k, t) = (In-group_entries e groups).0 j in (h, inr k, t)
    ]),
    λ (h, i, t). elim i [
      | inl f ↦ inl (same_entry f t)
      | inr j ↦ inr ((In-group_entries e groups).1 (h, j, t))
    ],
  )
    where
      same_entry :
          {h : GroupDef}
          → h ≡ g
          → IsTotal plus score h e
          → e ≡ record { entity_id = g.name; value = member_total plus score 0 g.members }
      same_entry f (n, v) = cc (f, n, v, member_total-left_sum 0 g.members)

module _ {Db : Type 0} (kv : Kv Db) (json : Json) (scores : Scores) (o : Ordering)
    (laws : IsOrdering o) where
  all_time :
      (db : Db) (q : Query)
      → is_given q ≡ false
      → execute_group_leaderboard kv json scores o db q
        ≡ ok (
            window (natural q.limit) (natural q.offset) (
              sort_by (leaderboard_before o) (
                group_entries scores.add
                  (λ m. get_score kv scores db (board_metric q.metric q.board) m)
                  q.groups)))
  unfolding execute_group_leaderboard group_entries sort_by
  all_time db q h = none_or_some q.groups
    where
      none_or_some :
          (groups : List GroupDef)
          → execute_group_leaderboard kv json scores o db (record q { groups = groups })
            ≡ ok (
                window (natural q.limit) (natural q.offset) (
                  sort_by (leaderboard_before o) (
                    group_entries scores.add
                      (λ m. get_score kv scores db (board_metric q.metric q.board) m)
                      groups)))
      none_or_some [] = ap ok (sym (window_nil (natural q.limit) (natural q.offset)))
      none_or_some (g ∷ groups) =
          rw h (ap ok (cut_page-window _ (natural q.limit) (natural q.offset)))

  -- A group leaderboard without FROM and TO, with a limit and an offset that are not negative, is
  -- the page of one list, in the order of leaderboardBefore, in which each group stands with the
  -- sum of its members' scores from left to right, and nothing else; the list has as many entries
  -- as there are groups.
  pub execute_group_leaderboard_lem :
      (db : Db) (q : Query) (limit offset : ℕ)
      → is_given q ≡ false
      → q.limit ≡ pos limit
      → q.offset ≡ pos offset
      → (sorted : List LeaderboardEntry) × (execute_group_leaderboard kv json scores o db q
          ≡ ok (window limit offset sorted))
        × Pairs (λ a b. leaderboard_before o b a ≡ false) sorted
        × (length sorted ≡ length q.groups)
        × ((e : LeaderboardEntry)
            → In e sorted ↔ (
                (g : GroupDef) × In g q.groups
                × IsTotal scores.add
                    (λ m. get_score kv scores db (board_metric q.metric q.board) m)
                    g
                    e))
  execute_group_leaderboard_lem db q limit offset h at_limit at_offset =
      let score = λ (m : Bytes). get_score kv scores db (board_metric q.metric q.board) m in
      let entries = group_entries scores.add score q.groups in
      (
        sort_by (leaderboard_before o) entries,
        all_time db q h ∙ rw (at_limit, at_offset) refl,
        sort_by-Pairs (leaderboard_before o) (before_asym laws) (before_weak laws) entries,
        length-sort_by (leaderboard_before o) entries
            ∙ length-group_entries scores.add score q.groups,
        λ e. (
          (λ i.
              (In-group_entries scores.add score e q.groups).0
                ((In-sort_by (leaderboard_before o) e entries).0 i)),
          λ t.
              (In-sort_by (leaderboard_before o) e entries).1
                ((In-group_entries scores.add score e q.groups).1 t),
        ),
      )
