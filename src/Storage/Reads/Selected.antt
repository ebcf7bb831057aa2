-- ===== src/Storage/Reads/Selected.antt =====
-- The page that ReadPage returns, and the events it is a page of: the range of keys that is read, what
-- a row of it stands for, and what the filter asks of an event.
use flamedb.Base.{
  ℕ, ◌≡◌, ◌≢◌, refl, sym, ap, ◌∙◌, ◌⊎◌, inl, inr, Bool, true, false, Option, none, some, List, [],
  ◌∷◌, In, All, if◌then◌else◌, arith, Bool-cases, reverse,
}
use flamedb.Base.Bytes.{Bytes, bytes_eq_refl, bytes_eq_sound}
use flamedb.Base.Int.{ℤ, pos}
use flamedb.Base.Map.{Map, get}
use flamedb.Base.Window.{window}
use flamedb.Kv.{Kv, Row}
use flamedb.Storage.Cardinality.{is_unset, best_index_tag}
use flamedb.Storage.Cardinality.Chosen.{best_index_tag_lem}
use flamedb.Storage.Codec.{Json, ok, decode_event_value}
use flamedb.Storage.Event.{Event}
use flamedb.Storage.Keys.{event_key, index_key}
use flamedb.Storage.Reads.{
  read_page, rows_between, primary_row, matching_event, matches, is_indexed, has_value,
}
use flamedb.Storage.Reads.Page.{selected, read_page-window}

-- The event has every tag of the filter, with its value.
abbrev pub Has : Event → Map Bytes → Type 0
Has e tags = All (λ (t : Bytes × Bytes). get e.tags t.0 ≡ some t.1) tags

-- The event has another value at a tag of the filter, or none.
abbrev pub Misses : Event → Map Bytes → Type 0
Misses e tags = (k v : Bytes) × In (k, v) tags × (get e.tags k ≢ some v)

module _ {Db : Type 0} (kv : Kv Db) where
  -- The rows of a range: without a filter the events' own, and otherwise the index of one of its tags.
  abbrev pub IsRange : Db → Bytes → ℤ → ℤ → Map Bytes → List Row → Type 0
  IsRange db metric from to tags rows =
      ((tags ≡ []) × (rows ≡ kv.scan db (event_key metric from) (event_key metric to)))
      ⊎ ((k v : Bytes) × In (k, v) tags
          × (rows ≡ kv.scan db (index_key metric k v from) (index_key metric k v to)))

  -- The stored event of a row: its own value, or what stands at the key that an index row names.
  abbrev pub IsStored : Db → Map Bytes → Row → Bytes → Type 0
  IsStored db tags row bytes =
      ((tags ≡ []) × (row.1 ≡ bytes)) ⊎ ((tags ≢ []) × (kv.find db row.1 ≡ some bytes))

  module _ (json : Json) (db : Db) (metric : Bytes) (tags : Map Bytes) where
    -- The events of the rows that have the tags. An index row may name a key that is gone.
    pub data Selects : List Row → List Event → Type 0 where
      no_rows : Selects [] []
      gone :
          {row : Row} {rows : List Row} {events : List Event}
          → tags ≢ []
          → kv.find db row.1 ≡ none
          → Selects rows events
          → Selects (row ∷ rows) events
      taken :
          {row : Row} {rows : List Row} {events : List Event} (bytes : Bytes) (e : Event)
          → IsStored db tags row bytes
          → decode_event_value json bytes metric ≡ ok e
          → Has e tags
          → Selects rows events
          → Selects (row ∷ rows) (e ∷ events)
      left_out :
          {row : Row} {rows : List Row} {events : List Event} (bytes : Bytes) (e : Event)
          → IsStored db tags row bytes
          → decode_event_value json bytes metric ≡ ok e
          → Misses e tags
          → Selects rows events
          → Selects (row ∷ rows) events

has_value_there : (o : Option Bytes) (v : Bytes) → o ≡ some v → has_value o v ≡ true
has_value_there o v h = rw h (bytes_eq_refl v)

has_value_sound : (o : Option Bytes) (v : Bytes) → has_value o v ≡ true → o ≡ some v
has_value_sound none v h = absurd (cc)
has_value_sound (some w) v h = ap some (bytes_eq_sound w v h)

matches-Has : (e : Event) (tags : Map Bytes) → Has e tags → matches e tags ≡ true
unfolding matches
matches-Has e [] h = refl
matches-Has e ((k, v) ∷ tags) (here, rest) =
    rw (has_value_there (get e.tags k) v here) (matches-Has e tags rest)

matches-Misses :
    (e : Event) (tags : Map Bytes) (k v : Bytes)
    → In (k, v) tags
    → get e.tags k ≢ some v
    → matches e tags ≡ false
unfolding matches
matches-Misses e [] k v i other = absurd i
matches-Misses e ((j, w) ∷ tags) k v (inl f) other =
    elim (Bool-cases (has_value (get e.tags j) w)) [
      | inl there ↦ absurd (
          other (
            ap (λ (t : Bytes × Bytes). get e.tags t.0) f
            ∙ has_value_sound _ w there
            ∙ ap (λ (t : Bytes × Bytes). some t.1) (sym f)))
      | inr missing ↦ rw missing refl
    ]
matches-Misses e ((j, w) ∷ tags) k v (inr i) other =
    elim (Bool-cases (has_value (get e.tags j) w)) [
      | inl there ↦ rw there (matches-Misses e tags k v i other)
      | inr missing ↦ rw missing refl
    ]

module _ {Db : Type 0} (kv : Kv Db) (json : Json) (cardinality : Bytes → ℕ) (db : Db)
    (metric : Bytes) where
  primary_row-IsStored :
      (tags : Map Bytes) (row : Row) (bytes : Bytes)
      → IsStored kv db tags row bytes
      → (k : Bytes) × (primary_row kv json cardinality db (is_indexed tags) row ≡ some (k, bytes))
  unfolding primary_row
  primary_row-IsStored [] (k, value) bytes (inl (e, same)) = (k, rw same refl)
  primary_row-IsStored [] row bytes (inr (ne, there)) = absurd (ne refl)
  primary_row-IsStored (t ∷ tags) row bytes (inl (e, same)) = absurd (cc)
  primary_row-IsStored (t ∷ tags) (k, primary) bytes (inr (ne, there)) = (primary, rw there refl)

  primary_row-gone :
      (tags : Map Bytes) (row : Row)
      → tags ≢ []
      → kv.find db row.1 ≡ none
      → primary_row kv json cardinality db (is_indexed tags) row ≡ none
  unfolding primary_row
  primary_row-gone [] row ne h = absurd (ne refl)
  primary_row-gone (t ∷ tags) (k, primary) ne h = rw h refl

  matching_event-read :
      (tags : Map Bytes) (row : Row) (k bytes : Bytes) (e : Event) (b : Bool)
      → primary_row kv json cardinality db (is_indexed tags) row ≡ some (k, bytes)
      → decode_event_value json bytes metric ≡ ok e
      → matches e tags ≡ b
      → matching_event kv json cardinality db metric tags row ≡ ok (if b then some (k, e) else none)
  unfolding matching_event
  matching_event-read tags row k bytes e b found decoded m = ground (arith, found, decoded, m)

  matching_event-gone :
      (tags : Map Bytes) (row : Row)
      → primary_row kv json cardinality db (is_indexed tags) row ≡ none
      → matching_event kv json cardinality db metric tags row ≡ ok none
  unfolding matching_event
  matching_event-gone tags row h = ground (arith, h)

  selected-Selects :
      (tags : Map Bytes) {rows : List Row} {events : List Event}
      → Selects kv json db metric tags rows events
      → selected kv json cardinality db metric tags rows ≡ ok events
  unfolding selected
  selected-Selects tags no_rows = refl
  selected-Selects tags (gone {row} ne missing rest) =
      let nothing = matching_event-gone tags row (primary_row-gone tags row ne missing) in
      ground (arith, nothing, selected-Selects tags rest)
  selected-Selects tags (taken {row} bytes e stored decoded has rest) =
      let (k, found) = primary_row-IsStored tags row bytes stored in
      let there =
        matching_event-read tags row k bytes e true found decoded (matches-Has e tags has) in
      ground (arith, there, selected-Selects tags rest)
  selected-Selects tags (left_out {row} bytes e stored decoded (k, v, i, other) rest) =
      let (primary, found) = primary_row-IsStored tags row bytes stored in
      let out =
        matching_event-read tags row primary bytes e false found decoded
          (matches-Misses e tags k v i other) in
      ground (arith, out, selected-Selects tags rest)

  rows_between-IsRange :
      (from to : ℤ) (tags : Map Bytes)
      → All (λ (t : Bytes × Bytes). is_unset t.0 ≡ false) tags
      → IsRange kv db metric from to tags (rows_between kv json cardinality db metric from to tags)
  unfolding rows_between
  rows_between-IsRange from to [] named = inl (refl, refl)
  rows_between-IsRange from to ((k, v) ∷ tags) named =
      let (member, _) = best_index_tag_lem cardinality k v tags named in
      let t = best_index_tag cardinality ((k, v) ∷ tags) in inr (t.0, t.1, member, refl)

  -- For a filter without empty keys, ReadPage reads the events' own rows of the range or, with a
  -- filter, those of the index of one of its tags. Where they can be read, it returns the page of
  -- the events that these rows stand for and that have every tag of the filter with its value, in
  -- the order of the rows or in the reverse order.
  pub read_page_lem :
      (from to : ℤ) (tags : Map Bytes) (limit offset : ℕ) (desc : Bool) (events : List Event)
      → All (λ (t : Bytes × Bytes). is_unset t.0 ≡ false) tags
      → Selects kv json db metric tags
          (rows_between kv json cardinality db metric from to tags)
          events
      → IsRange kv db metric from to tags (rows_between kv json cardinality db metric from to tags)
        × (read_page kv json cardinality db metric from to tags (pos limit) (pos offset) desc
            ≡ ok (window limit offset (if desc then reverse events else events)))
  read_page_lem from to tags limit offset desc events named s = (
    rows_between-IsRange from to tags named,
    read_page-window kv json cardinality db metric from to tags limit offset desc events
        (selected-Selects tags s),
  )
