-- ===== src/Leaderboard/Entries.antt =====
-- The entries that the rows of a board are read as, in the order of the rows.
use flamedb.Base.{
  ◌≡◌, refl, true, List, [], ◌∷◌, inl, inr, some, In, ap, sym, ◌∙◌, subst, some_inj, ap₂,
}
use flamedb.Base.Bytes.{Bytes, bytes_eq_ne}
use flamedb.Base.Pairs.{Pairs}
use flamedb.Base.Words.{bytes_lt}
use flamedb.Kv.{Row}
use flamedb.Kv.Order.{Sorted, bytes_lt_irrefl}
use flamedb.Leaderboard.{LeaderboardEntry, Scores}
use flamedb.Leaderboard.Board.{Board, IsFloat64}
use flamedb.Leaderboard.Page.{Reads}
use flamedb.Leaderboard.Rank.{Over, lb_key_order}
use flamedb.Storage.Keys.{lb_key}

module _ (scores : Scores) (board : Board) (m : Bytes) where
  abbrev pub Named : Row → LeaderboardEntry → Type 0
  Named r x =
      (r.0 ≡ lb_key m x.entity_id x.value)
      × IsFloat64 x.value
      × (board m x.entity_id ≡ some x.value)
      × (scores.unmarshal r.1 ≡ some x)

  abbrev pub Names : List Row → List LeaderboardEntry → Type 0
  Names [] [] = Unit
  Names (r ∷ rows) (x ∷ es) = Named r x × Names rows es
  Names _ _ = ⊥

  pub entries_of :
      (rows : List Row)
      → ((r : Row) → In r rows → (x : LeaderboardEntry) × Named r x)
      → (es : List LeaderboardEntry) × Names rows es
  entries_of [] tell = ([], tt)
  entries_of (r ∷ rows) tell =
      let (x, named) = tell r (inl refl) in
      let (es, names) = entries_of rows (λ s i. tell s (inr i)) in (x ∷ es, (named, names))

  pub Names-Reads :
      (rows : List Row) (es : List LeaderboardEntry) → Names rows es → Reads scores rows es
  Names-Reads [] [] names = tt
  Names-Reads [] (x ∷ es) names = absurd names
  Names-Reads (r ∷ rows) [] names = absurd names
  Names-Reads (r ∷ rows) (x ∷ es) ((_, _, _, read), names) = (read, Names-Reads rows es names)

  pub Names-In :
      (rows : List Row) (es : List LeaderboardEntry) (x : LeaderboardEntry)
      → Names rows es
      → In x es
      → (r : Row) × In r rows × Named r x
  Names-In [] [] x names i = absurd i
  Names-In [] (y ∷ es) x names i = absurd names
  Names-In (r ∷ rows) [] x names i = absurd i
  Names-In (r ∷ rows) (y ∷ es) x (named, names) (inl e) =
      (r, inl refl, subst (λ z. Named r z) (sym e) named)
  Names-In (r ∷ rows) (y ∷ es) x (_, names) (inr i) =
      let (s, j, named) = Names-In rows es x names i in (s, inr j, named)

  pub In-Names :
      (rows : List Row) (es : List LeaderboardEntry) (r : Row)
      → Names rows es
      → In r rows
      → (x : LeaderboardEntry) × In x es × Named r x
  In-Names [] es r names i = absurd i
  In-Names (s ∷ rows) [] r names i = absurd names
  In-Names (s ∷ rows) (y ∷ es) r (named, names) (inl e) =
      (y, inl refl, subst (λ t. Named t y) (sym e) named)
  In-Names (s ∷ rows) (y ∷ es) r (_, names) (inr i) =
      let (x, j, named) = In-Names rows es r names i in (x, inr j, named)

  -- One row before another: a higher or equal word, and another entity.
  Named-Over :
      (r s : Row) (x y : LeaderboardEntry)
      → Named r x
      → Named s y
      → bytes_lt r.0 s.0 ≡ true
      → Over x y
  Named-Over r s x y (at_r, float_x, scored_x, _) (at_s, float_y, scored_y, _) h =
      let keys : bytes_lt (lb_key m x.entity_id x.value) (lb_key m y.entity_id y.value) ≡ true =
        sym (ap₂ bytes_lt at_r at_s) ∙ h in
      (
        lb_key_order m x.entity_id y.entity_id x.value y.value float_x.0 float_y.0 keys,
        bytes_eq_ne x.entity_id y.entity_id (apart keys),
      )
    where
      apart :
          bytes_lt (lb_key m x.entity_id x.value) (lb_key m y.entity_id y.value) ≡ true
          → x.entity_id ≡ y.entity_id
          → ⊥
      apart keys same =
          let values : x.value ≡ y.value =
            some_inj (sym scored_x ∙ ap (λ i. board m i) same ∙ scored_y) in
          let key : lb_key m y.entity_id y.value ≡ lb_key m x.entity_id x.value =
            ap₂ (λ i v. lb_key m i v) (sym same) (sym values) in
          cc (
            bytes_lt_irrefl (lb_key m x.entity_id x.value),
            subst (λ k. bytes_lt (lb_key m x.entity_id x.value) k ≡ true) key keys,
          )

  pub Names-Over :
      (rows : List Row) (es : List LeaderboardEntry) → Sorted rows → Names rows es → Pairs Over es
  Names-Over [] [] sorted names = tt
  Names-Over [] (x ∷ es) sorted names = absurd names
  Names-Over (r ∷ rows) [] sorted names = absurd names
  Names-Over (r ∷ rows) (x ∷ es) (first, sorted) (named, names) = (
    λ y i.
        let (s, j, other) = Names-In rows es y names i in
        Named-Over r s x y named other (first s j),
    Names-Over rows es sorted names,
  )
