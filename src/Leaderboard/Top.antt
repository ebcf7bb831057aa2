-- ===== src/Leaderboard/Top.antt =====
-- TopN: the page it returns is cut out of the board, in descending order of scores.
use flamedb.Base.{
  ℕ, ◌≡◌, ◌≤◌, ◌<◌, ◌^◌, refl, arith, Bool, true, false, List, [], ◌∷◌, ◌++◌, Bool-cases, inl, inr,
  some, In, reverse, ap, sym, ◌∙◌, subst, In-append, append-In, ap₂, some_inj, ◌↔◌,
}
use flamedb.Base.Bytes.{Bytes, bytes_eq_ne, bytes_eq_sym}
use flamedb.Base.Int.{pos}
use flamedb.Base.Pairs.{Pairs, Pairs-append, Pairs-map, Pairs-reverse, In-reverse, reverse-In}
use flamedb.Base.Window.{window}
use flamedb.Base.Words.{bytes_lt, bytes_lt-append_left}
use flamedb.Keyspace.{component, colon}
use flamedb.Kv.{Kv, IsStore, Row}
use flamedb.Kv.Order.{Ascending-Sorted, bytes_lt_trans}
use flamedb.Leaderboard.{LeaderboardEntry, Scores, top_n, lb_split, lb_prefix, lb_upper}
use flamedb.Leaderboard.Board.{Board, Holds, IsJson}
use flamedb.Leaderboard.Entries.{
  Named, Names, entries_of, Names-Reads, Names-In, In-Names, Names-Over,
}
use flamedb.Leaderboard.Keys.{lb_key_above, lb_key_below}
use flamedb.Leaderboard.Lookup.{Tells, range_Tells}
use flamedb.Leaderboard.Page.{pages_window, Reads-append, Reads-reverse}
use flamedb.Leaderboard.Rank.{Over, Ranks, rank, lb_key_negative}
use flamedb.Query.Types.{ok}
use flamedb.Storage.Keys.{lb_key}
use flamedb.Storage.Keys.Injective.{IsText, lb_key-injective}

-- The split lies between the bounds.
prefix_split : (m : Bytes) → bytes_lt (lb_prefix m) (lb_split m) ≡ true
unfolding lb_prefix lb_split bytes_lt
prefix_split m = bytes_lt-append_left (component m) (colon ∷ []) (colon ∷ 0x80 ∷ [])

split_upper : (m : Bytes) → bytes_lt (lb_split m) (lb_upper m) ≡ true
unfolding lb_split lb_upper bytes_lt
split_upper m = bytes_lt-append_left (component m) (colon ∷ 0x80 ∷ []) (b';' ∷ [])

split_above : (m k : Bytes) → bytes_lt k (lb_split m) ≡ false → bytes_lt k (lb_prefix m) ≡ false
split_above m k h = ground (arith, bytes_lt_trans k (lb_prefix m) (lb_split m), prefix_split m)

module _ {Db : Type 0} {kv : Kv Db} {scores : Scores} {is_utf8 : Bytes → Bool} (store : IsStore kv)
    (json : IsJson scores is_utf8) (db : Db) (board : Board)
    (holds : Holds kv scores is_utf8 db board) (m : Bytes) (hm : IsText m) where
  abbrev upper_half : List Row
  upper_half = kv.scan db (lb_split m) (lb_upper m)

  abbrev lower_half : List Row
  lower_half = kv.scan db (lb_prefix m) (lb_split m)

  Tells-Named :
      (r : Row) → Tells store json board m r → (x : LeaderboardEntry) × Named scores board m r x
  unfolding Tells
  Tells-Named r (e, v, key, float, scored, read) =
      (record { entity_id = e; value = v }, (key, float, scored, read))

  upper-Named : (r : Row) → In r upper_half → (x : LeaderboardEntry) × Named scores board m r x
  upper-Named (k, bytes) i =
      let (found, above, below) = store.In-scan db (lb_split m) (lb_upper m) k bytes i in
      Tells-Named (k, bytes)
        (range_Tells store json db board m k bytes holds hm found (split_above m k above) below)

  lower-Named : (r : Row) → In r lower_half → (x : LeaderboardEntry) × Named scores board m r x
  lower-Named (k, bytes) i =
      let (found, above, below) = store.In-scan db (lb_prefix m) (lb_split m) k bytes i in
      Tells-Named (k, bytes)
        (range_Tells store json db board m k bytes holds hm found above
          (bytes_lt_trans k (lb_split m) (lb_upper m) below (split_upper m)))

  upper_entries : (es : List LeaderboardEntry) × Names scores board m upper_half es
  upper_entries = entries_of scores board m upper_half upper-Named

  lower_entries : (es : List LeaderboardEntry) × Names scores board m lower_half es
  lower_entries = entries_of scores board m lower_half lower-Named

  -- All scores of the board, the nonnegative ones downward and then the negative ones downward.
  abbrev standing : List LeaderboardEntry
  standing = upper_entries.0 ++ reverse lower_entries.0

  upper_nonnegative : (x : LeaderboardEntry) → In x upper_entries.0 → x.value < 2 ^ 63
  upper_nonnegative x i =
      let ((k, bytes), j, (key, float, _, _)) =
        Names-In scores board m upper_half upper_entries.0 x upper_entries.1 i in
      let (_, above, _) = store.In-scan db (lb_split m) (lb_upper m) k bytes j in
      let sign = lb_key_negative m x.entity_id x.value float.0 in
      let here = subst (λ i. bytes_lt i (lb_split m) ≡ false) key above in
      ground (arith, sign, here)

  lower_negative :
      (x : LeaderboardEntry) → In x lower_entries.0 → (2 ^ 63 ≤ x.value) × (x.value < 2 ^ 64)
  lower_negative x i =
      let ((k, bytes), j, (key, float, _, _)) =
        Names-In scores board m lower_half lower_entries.0 x lower_entries.1 i in
      let (_, _, below) = store.In-scan db (lb_prefix m) (lb_split m) k bytes j in
      let sign = lb_key_negative m x.entity_id x.value float.0 in
      let here = subst (λ i. bytes_lt i (lb_split m) ≡ true) key below in
      (ground (arith, sign, here), float.0)

  entry_score : (x : LeaderboardEntry) → In x standing → board m x.entity_id ≡ some x.value
  entry_score x i = elim (In-append x upper_entries.0 (reverse lower_entries.0) i) [
    | inl j ↦
        let (_, _, (_, _, scored, _)) =
          Names-In scores board m upper_half upper_entries.0 x upper_entries.1 j in
        scored
    | inr j ↦
        let (_, _, (_, _, scored, _)) =
          Names-In scores board m lower_half lower_entries.0 x lower_entries.1
            (In-reverse x lower_entries.0 j) in
        scored
  ]

  -- The row that names a score is read as that score.
  names_same :
      (r : Row) (x : LeaderboardEntry) (e : Bytes) (v : ℕ)
      → Named scores board m r x
      → v < 2 ^ 64
      → r.0 ≡ lb_key m e v
      → x ≡ record { entity_id = e; value = v }
  names_same r x e v (key, float, _, _) hv at_r =
      let (_, same, value) =
        lb_key-injective m m x.entity_id e x.value v hm hm float.0 hv (sym key ∙ at_r) in
      ap₂ (λ i w. record { entity_id = i; value = w }) same value

  score_entry :
      (e : Bytes) (v : ℕ) → board m e ≡ some v → In (record { entity_id = e; value = v }) standing
  score_entry e v scored =
      let (float, _) = holds.score m e v scored in
      let bytes = scores.marshal (record { entity_id = e; value = v }) in
      let k = lb_key m e v in
      let found : kv.find db k ≡ some bytes = holds.row m e v hm float.0 ∙ ground (arith, scored) in
      elim (Bool-cases (bytes_lt k (lb_split m))) [
        | inl before ↦
            let i =
              store.scan-In db (lb_prefix m) (lb_split m) k bytes found (lb_key_above m e v)
                before in
            let (x, j, named) =
              In-Names scores board m lower_half lower_entries.0 (k, bytes) lower_entries.1 i in
            append-In _ upper_entries.0 (reverse lower_entries.0) (
              inr (
                reverse-In _ lower_entries.0 (
                  subst (λ y. In y lower_entries.0) (names_same (k, bytes) x e v named float.0 refl)
                    j)))
        | inr after ↦
            let i =
              store.scan-In db (lb_split m) (lb_upper m) k bytes found after (lb_key_below m e v) in
            let (x, j, named) =
              In-Names scores board m upper_half upper_entries.0 (k, bytes) upper_entries.1 i in
            append-In _ upper_entries.0 (reverse lower_entries.0) (
              inl (
                subst (λ y. In y upper_entries.0) (names_same (k, bytes) x e v named float.0 refl)
                  j))
      ]

  cross_Ranks :
      (x y : LeaderboardEntry) → In x upper_entries.0 → In y (reverse lower_entries.0) → Ranks x y
  unfolding rank
  cross_Ranks x y i j =
      let high = upper_nonnegative x i in
      let low = lower_negative y (In-reverse y lower_entries.0 j) in
      let at_x = entry_score x (append-In x upper_entries.0 (reverse lower_entries.0) (inl i)) in
      let at_y = entry_score y (append-In y upper_entries.0 (reverse lower_entries.0) (inr j)) in
      (
        ground (arith, high, low),
        bytes_eq_ne x.entity_id y.entity_id (λ same.
            let values : x.value ≡ y.value =
              some_inj (sym at_x ∙ ap (λ i. board m i) same ∙ at_y) in
            omega (arith, high, low.0, values)),
      )

  standing-Ranks : Pairs Ranks standing
  unfolding rank
  standing-Ranks =
      Pairs-append Ranks upper_entries.0 (reverse lower_entries.0)
        (Pairs-map Over Ranks upper_entries.0
          (λ x y i j (down, apart).
            (ground (arith, upper_nonnegative x i, upper_nonnegative y j, down), apart))
          (Names-Over scores board m upper_half upper_entries.0
            (Ascending-Sorted upper_half (store.scan-Ascending db (lb_split m) (lb_upper m)))
            upper_entries.1))
        (Pairs-reverse (λ x y. Ranks y x) Ranks lower_entries.0 (λ x y h. h)
          (Pairs-map Over (λ x y. Ranks y x) lower_entries.0
            (λ x y i j (down, apart). (
              ground (arith, lower_negative x i, lower_negative y j, down),
              bytes_eq_sym x.entity_id y.entity_id apart,
            ))
            (Names-Over scores board m lower_half lower_entries.0
              (Ascending-Sorted lower_half (store.scan-Ascending db (lb_prefix m) (lb_split m)))
              lower_entries.1)))
        cross_Ranks

  -- In a store that holds a board, whose laws and whose JSON are those of their documentation, TopN
  -- returns, for every limit and offset that are not negative, a page of one list: it has each
  -- entity with a score on the metric's board once, with that score, and its scores do not ascend
  -- in the order of the finite numbers. A limit of zero is no limit.
  pub top_n-Holds :
      (entries : List LeaderboardEntry) × ((limit offset : ℕ)
        → top_n kv scores db m (pos limit) (pos offset) ≡ ok (window limit offset entries))
      × Pairs Ranks entries
      × ((e : Bytes) (v : ℕ)
          → In (record { entity_id = e; value = v }) entries ↔ (board m e ≡ some v))
  unfolding top_n
  top_n-Holds = (
    standing,
    λ limit offset. pages_window scores limit upper_half (reverse lower_half) offset standing (
        Reads-append scores upper_half (reverse lower_half) upper_entries.0
          (reverse lower_entries.0)
          (Names-Reads scores board m upper_half upper_entries.0 upper_entries.1)
          (Reads-reverse scores lower_half lower_entries.0
            (Names-Reads scores board m lower_half lower_entries.0 lower_entries.1))),
    standing-Ranks,
    λ e v. (λ i. entry_score (record { entity_id = e; value = v }) i, score_entry e v),
  )
