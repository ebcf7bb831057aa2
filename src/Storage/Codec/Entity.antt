-- ===== src/Storage/Codec/Entity.antt =====
-- eventEntityValue is decodeEventValue followed by a lookup of one tag.
use flamedb.Base.{
  ◌==◌, ap, sym, ◌∙◌, ℕ, zero, suc, ◌≡◌, refl, true, false, none, some, [], ◌∷◌, arith,
  if◌then◌else◌, take, drop, Bool-cases, inr, inl, ltb, length,
}
use flamedb.Base.Bytes.{Bytes, bytes_eq}
use flamedb.Base.Map.{Map, get, set, get-set}
use flamedb.Base.Words.{uint}
use flamedb.Storage.Codec.{
  Result, ok, err, Json, EntityValue, entity_of, map_ok, read_tag, read_tags, event_entity_value,
  event_of, scan_entity, decode_event_value, read_binary, event_binary_version,
}

abbrev entity_in : Bytes → ℕ → Map Bytes → EntityValue
entity_in tag value tags = elim (get tags tag) [
  | none ↦ record { id = []; value = value; found = false }
  | some id ↦ record { id = id; value = value; found = true }
]

entity_in-set :
    (tag : Bytes) (v : ℕ) (m : Map Bytes) (key value : Bytes)
    → (if bytes_eq key tag
        then record { id = value; value = (entity_in tag v m).value; found = true }
        else entity_in tag v m)
      ≡ entity_in tag v (set m key value)
entity_in-set tag v m key value = ground (arith, get-set m key tag value)

-- The scan keeps what a lookup in the map that decoding builds would find.
scan-read :
    (n : ℕ) (input tag : Bytes) (v : ℕ) (m : Map Bytes)
    → scan_entity n input tag (entity_in tag v m) ≡ map_ok (entity_in tag v) (read_tags n input m)
unfolding scan_entity read_tags
scan-read zero input tag v m = refl
scan-read (suc n) input tag v m = step (read_tag input) refl (λ rest m'. scan-read n rest tag v m')
  where
    step :
        (r : Result (Bytes × Bytes × Bytes))
        → read_tag input ≡ r
        → ((rest : Bytes) (m' : Map Bytes)
            → scan_entity n rest tag (entity_in tag v m')
              ≡ map_ok (entity_in tag v) (read_tags n rest m'))
        → scan_entity (suc n) input tag (entity_in tag v m)
          ≡ map_ok (entity_in tag v) (read_tags (suc n) input m)
    step (err e) h ih = rw (h, scan_entity, read_tags) refl
    step (ok (key, value, rest)) h ih =
        rw (h, scan_entity, read_tags)
          (ap (scan_entity n rest tag) (entity_in-set tag v m key value)
            ∙ ih rest (set m key value))

event_of-entity :
    (tag : Bytes) (ts v : ℕ) (r : Result (Map Bytes))
    → map_ok (entity_of tag) (event_of ts v [] r) ≡ map_ok (entity_in tag v) r
event_of-entity tag ts v (ok tags) = refl
event_of-entity tag ts v (err e) = refl

-- On every input, eventEntityValue returns what decoding the event and looking the tag up returns,
-- and fails with the same error.
pub entity_value-eq-decode :
    (json : Json) (input tag : Bytes)
    → event_entity_value json input tag ≡ map_ok (entity_of tag) (decode_event_value json input [])
unfolding event_entity_value decode_event_value read_binary get
entity_value-eq-decode json [] tag = refl
entity_value-eq-decode json (b ∷ body) tag = elim (Bool-cases (b == event_binary_version)) [
  | inr json_form ↦ rw json_form refl
  | inl binary ↦ rw binary (elim (Bool-cases (ltb (length body) 18)) [
    | inl short ↦ rw (short, read_binary) refl
    | inr long ↦
        rw (long, read_binary)
          (scan-read (uint (take 2 (drop 16 body))) (drop 18 body) tag (uint (take 8 (drop 8 body)))
              []
            ∙ sym (event_of-entity tag (uint (take 8 body)) _ _))
  ])
]
