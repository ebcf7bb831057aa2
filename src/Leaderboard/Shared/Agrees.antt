-- ===== src/Leaderboard/Shared/Agrees.antt =====
-- The shared lookup of a batch returns the scores that Get returns.
use flamedb.Base.{
  ℕ, ◌≡◌, refl, sym, true, Option, none, some, List, [], arith, Bool-cases, Option-cases, inl, inr,
  ap, ◌∙◌, subst, some_inj,
}
use flamedb.Base.Bytes.{Bytes, bytes_eq, bytes_eq_sound}
use flamedb.Base.Map.{Map, get, set, get-set}
use flamedb.Kv.{Kv, Row}
use flamedb.Leaderboard.{
  Scores, legacy_value, get_score, get_with_lookup_stats, lb_prefix, lb_upper, read_index,
}
use flamedb.Leaderboard.Shared.{
  SharedLookup, shared_get, collect, has_text, entities_of, score_or_zero, from_legacy,
}
use flamedb.Leaderboard.Shared.Scan.{collect_lem}
use flamedb.Query.Types.{ok}
use flamedb.Storage.Keys.{lb_entity_key}

module _ {Db : Type 0} (kv : Kv Db) (scores : Scores) (db : Db) where
  abbrev board_rows : Bytes → List Row
  board_rows metric = kv.scan db (lb_prefix metric) (lb_upper metric)

  -- The scores that scans have found are those of Get's scan, for the entities of the batch.
  abbrev pub IsConsistent : SharedLookup → Type 0
  IsConsistent l =
      (metric : Bytes) (values : Map ℕ) (e : Bytes)
      → get l.legacy metric ≡ some values
      → has_text (entities_of (get l.targets metric)) e ≡ true
      → score_or_zero (get values e) ≡ (legacy_value scores e (board_rows metric) 0).0

  -- Before its first scan a lookup is consistent.
  pub new_lookup-IsConsistent :
      (targets : Map (List Bytes)) → IsConsistent (record { targets = targets; legacy = [] })
  unfolding get
  new_lookup-IsConsistent targets metric values e h w = absurd (cc)

  collected :
      (l : SharedLookup) (metric e : Bytes)
      → has_text (entities_of (get l.targets metric)) e ≡ true
      → score_or_zero
          (get (collect kv scores (entities_of (get l.targets metric)) (board_rows metric) []) e)
        ≡ (legacy_value scores e (board_rows metric) 0).0
  unfolding get
  collected l metric e w =
      collect_lem kv scores (entities_of (get l.targets metric)) (board_rows metric) [] e 0 tt w

  scanned-IsConsistent :
      (l : SharedLookup) (metric : Bytes)
      → IsConsistent l
      → IsConsistent (record l {
        legacy =
            set l.legacy metric
              (collect kv scores (entities_of (get l.targets metric)) (board_rows metric) []);
      })
  scanned-IsConsistent l metric c other values e h w =
      let found = collect kv scores (entities_of (get l.targets metric)) (board_rows metric) [] in
      let now = sym (get-set l.legacy metric other found) ∙ h in
      elim (Bool-cases (bytes_eq metric other)) [
        | inl same ↦
            let here = bytes_eq_sound metric other same in
            subst (λ x. score_or_zero (get x e) ≡ (legacy_value scores e (board_rows other) 0).0)
              (some_inj (rw same at now))
              (subst (λ m. score_or_zero (get found e) ≡ (legacy_value scores e (board_rows m) 0).0)
                here
                (collected l metric e
                  (subst (λ m. has_text (entities_of (get l.targets m)) e ≡ true) (sym here) w)))
        | inr apart ↦ c other values e (rw apart at now) w
      ]

  from_legacy-score :
      (l : SharedLookup) (metric entity : Bytes) (o : Option (Map ℕ))
      → get l.legacy metric ≡ o
      → IsConsistent l
      → has_text (entities_of (get l.targets metric)) entity ≡ true
      → ((from_legacy kv scores db l metric entity o).0
          ≡ ok (legacy_value scores entity (board_rows metric) 0).0)
        × IsConsistent (from_legacy kv scores db l metric entity o).1
        × ((from_legacy kv scores db l metric entity o).1.targets ≡ l.targets)
  from_legacy-score l metric entity (some values) h c w =
      (ap ok (c metric values entity h w), c, refl)
  from_legacy-score l metric entity none h c w =
      (ap ok (collected l metric entity w), scanned-IsConsistent l metric c, refl)

  get_score-indexed :
      (metric entity : Bytes) (v : ℕ)
      → read_index (kv.find db (lb_entity_key metric entity)) ≡ some v
      → get_score kv scores db metric entity ≡ v
  unfolding get_score get_with_lookup_stats
  get_score-indexed metric entity v h = ground (arith, h)

  get_score-legacy :
      (metric entity : Bytes)
      → read_index (kv.find db (lb_entity_key metric entity)) ≡ none
      → get_score kv scores db metric entity ≡ (legacy_value scores entity (board_rows metric) 0).0
  unfolding get_score get_with_lookup_stats
  get_score-legacy metric entity h = ground (arith, h)

  -- In a consistent lookup, Get of an entity of the batch returns what the leaderboard's Get
  -- returns, and leaves the lookup consistent, with the same entities.
  pub shared_get_lem :
      (l : SharedLookup) (metric entity : Bytes)
      → IsConsistent l
      → has_text (entities_of (get l.targets metric)) entity ≡ true
      → ((shared_get kv scores db l metric entity).0 ≡ ok (get_score kv scores db metric entity))
        × IsConsistent (shared_get kv scores db l metric entity).1
        × ((shared_get kv scores db l metric entity).1.targets ≡ l.targets)
  unfolding shared_get
  shared_get_lem l metric entity c w =
      elim (Option-cases (read_index (kv.find db (lb_entity_key metric entity)))) [
        | inl old ↦
            rw (w, old, get_score-legacy metric entity old)
              (from_legacy-score l metric entity (get l.legacy metric) refl c w)
        | inr (v, indexed) ↦
            rw (w, indexed, get_score-indexed metric entity v indexed) (refl, c, refl)
      ]
