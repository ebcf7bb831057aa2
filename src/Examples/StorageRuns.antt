-- ===== src/Examples/StorageRuns.antt =====
-- The storage theorems at one event, and at a cache of one entry.
use flamedb.Base.{ℕ, ◌≡◌, refl, true, false, some, [], ◌∷◌, arith, ◌++◌, length}
use flamedb.Base.Bytes.{Bytes, codes, contains_any, has_prefix, contains_byte}
use flamedb.Base.Int.{pos, negsuc, to_word64}
use flamedb.Base.Words.{bytes_lt, put_uint}
use flamedb.Keyspace.{component, decode_component, colon, hex_encode}
use flamedb.Keyspace.Roundtrip.{decode-component}
use flamedb.Storage.CardCache.{CardCache, add}
use flamedb.Storage.CardCache.Bounds.{IsBounded, add-IsBounded}
use flamedb.Storage.CardCache.Weight.{weight}
use flamedb.Storage.Codec.{
  Json, ok, encode_event_value, decode_event_value, event_binary_version, body_of,
  event_entity_value, map_ok, entity_of, oversized,
}
use flamedb.Storage.Codec.Entity.{entity_value-eq-decode}
use flamedb.Storage.Codec.Roundtrip.{KeepsEvent, BinaryFits, decode-encode}
use flamedb.Storage.Event.{Event, IsEvent}
use flamedb.Storage.Keys.{event_key, index_key}
use flamedb.Storage.Keys.Injective.{IsText, index_key-injective}

abbrev sample : Event
sample = record {
  timestamp = negsuc 4;
  metric = codes "cpu";
  value = 42;
  tags = (codes "host", codes "a") ∷ [];
}

abbrev sample_json : Json
sample_json = record { marshal = λ e. some (b'{' ∷ e.metric); unmarshal = λ bytes. some sample }

sample-IsEvent : IsEvent sample
sample-IsEvent = record {
  timestamp_range = (omega arith, omega arith);
  value_range = omega arith;
  tags_distinct = (tt, tt);
}

sample-KeepsEvent : KeepsEvent sample_json sample
sample-KeepsEvent = record {
  is_object = λ bytes e. (codes "cpu", cc);
  unmarshals = λ bytes e. refl;
}

abbrev sample_bytes : Bytes
sample_bytes = event_binary_version ∷ body_of sample

sample_encoded : encode_event_value sample_json sample ≡ ok sample_bytes
unfolding encode_event_value oversized
sample_encoded = refl

sample-BinaryFits : BinaryFits sample
unfolding oversized
sample-BinaryFits = (omega arith, refl)

decode-encode_example : decode_event_value sample_json sample_bytes (codes "cpu") ≡ ok sample
decode-encode_example =
    decode-encode sample_json sample sample_bytes sample-KeepsEvent sample-IsEvent sample_encoded

entity_value-eq-decode_example :
    event_entity_value sample_json (1 ∷ 2 ∷ []) (codes "host")
    ≡ map_ok (entity_of (codes "host")) (decode_event_value sample_json (1 ∷ 2 ∷ []) [])
entity_value-eq-decode_example = entity_value-eq-decode sample_json (1 ∷ 2 ∷ []) (codes "host")

-- A name that holds the delimiter.
abbrev name : Bytes
name = codes "a:b"

name-IsText : IsText name
name-IsText = (omega arith, (omega arith, (omega arith, tt)))

decode-component_example : decode_component (component name) ≡ name
decode-component_example = decode-component name name-IsText

index_key-injective_example : (name ≡ name) × (name ≡ name) × (name ≡ name) × (pos 7 ≡ pos 7)
index_key-injective_example =
    index_key-injective name name name name name name (pos 7) (pos 7) name-IsText name-IsText
      name-IsText name-IsText (omega arith, omega arith) (omega arith, omega arith) refl

abbrev score : ℕ
score = 42

idx-IsText : IsText (codes "idx")
idx-IsText = (omega arith, (omega arith, (omega arith, tt)))

idx_event_key :
    event_key (codes "idx") (pos 7) ≡ codes "idx" ++ colon ∷ (0 ∷ 0 ∷ 0 ∷ 0 ∷ 0 ∷ 0 ∷ 0 ∷ 7 ∷ [])
unfolding event_key component put_uint to_word64 contains_any has_prefix contains_byte
idx_event_key = refl

same_length :
    length (index_key name name (codes "v") (pos 5))
    ≡ length (index_key name name (codes "v") (pos 3))
unfolding index_key put_uint to_word64 component contains_byte hex_encode
same_length = refl

not_below :
    bytes_lt (index_key name name (codes "v") (pos 5)) (index_key name name (codes "v") (pos 3))
    ≡ false
unfolding index_key put_uint to_word64 bytes_lt component contains_byte hex_encode
not_below = refl

below :
    bytes_lt (index_key name name (codes "v") (pos 5)) (index_key name name (codes "v") (pos 9))
    ≡ true
unfolding index_key put_uint to_word64 bytes_lt component contains_byte hex_encode
below = refl

abbrev one_entry : CardCache
one_entry = record {
  entries = (codes "k", 5) ∷ [];
  max_entries = 1;
  ttl = 10;
  bytes = 65;
  peak = 1;
  next_sweep = 6;
}

one_entry-IsBounded : IsBounded one_entry
unfolding weight
one_entry-IsBounded = record {
  distinct = (tt, tt);
  counted = refl;
  bytes_bound = omega arith;
  entries_bound = omega arith;
  peak_bound = omega arith;
}

-- The cache is full, so that the map is cleared.
add-IsBounded_example : IsBounded (add one_entry (codes "l") 20)
add-IsBounded_example = add-IsBounded one_entry (codes "l") 20 one_entry-IsBounded (omega arith)
