-- ===== src/Storage/Codec.antt =====
-- internal/storage/event_codec.go. Package encoding/json is a parameter.
pub mod Roundtrip
pub mod Entity
use flamedb.Base.{
  refl, ℕ, zero, suc, ◌+◌, ◌<◌, Bool, true, false, ◌||◌, ◌&&◌, Option, none, some, List, [], ◌∷◌,
  ◌++◌, ltb, ◌==◌, if◌then◌else◌, length, take, drop, ◌≡◌, ap,
}
use flamedb.Base.Bytes.{Bytes, bytes_eq}
use flamedb.Base.Int.{of_word64, to_word64}
use flamedb.Base.Map.{Map, get, set}
use flamedb.Base.Words.{put_uint, uint, read_from}
use flamedb.Storage.Event.{Event}

abbrev pub event_binary_version : ℕ
event_binary_version = 1

abbrev pub max_uint16 : ℕ
max_uint16 = 65535

pub data StorageError : Type 0 where
  empty_event invalid_encoding bad_json invalid_pagination : StorageError

pub data Result {ℓ} (A : Type ℓ) : Type ℓ where
  ok : A → Result A
  err : StorageError → Result A

infixl 5 ◌>>=◌
abbrev pub ◌>>=◌ {κ ℓ} :
    {B : Type κ} {A : Type ℓ} (step : Result A) (next : A → Result B) → Result B
err e >>= next = err e
ok a >>= next = next a

-- What a successful chain says of its steps.
pub bind-ok {κ ℓ} :
    {B : Type κ} {A : Type ℓ} (step : Result A) (next : A → Result B) (b : B)
    → (step >>= next) ≡ ok b
    → (a : A) × (step ≡ ok a) × (next a ≡ ok b)
bind-ok (ok a) next b h = (a, refl, h)
bind-ok (err e) next b h = absurd (cc)

pub ok_inj {ℓ} : {A : Type ℓ} {a b : A} → ok a ≡ ok b → a ≡ b
ok_inj {a = a} h = ap (λ r. elim r [ ok x ↦ x | err e ↦ a ]) h

-- json.Marshal and json.Unmarshal at `Event`
pub record Json : Type 0 where
  pub marshal : Event → Option Bytes
  pub unmarshal : Bytes → Option Event

unfoldable pub put_tags : Map Bytes → Bytes
put_tags [] = []
put_tags ((k, v) ∷ tags) =
    (put_uint 2 (length k) ++ k ++ put_uint 2 (length v) ++ v) ++ put_tags tags

-- The test in the first loop of encodeEventValue: some key or value is too long.
unfoldable pub oversized : Map Bytes → Bool
oversized [] = false
oversized ((k, v) ∷ tags) = ltb max_uint16 (length k) || ltb max_uint16 (length v) || oversized tags

abbrev from_option {ℓ} : {A : Type ℓ} → Option A → Result A
from_option none = err bad_json
from_option (some a) = ok a

-- The words behind the version byte, and the tags.
abbrev pub words : ℕ → ℕ → ℕ → Bytes → Bytes
words ts value count rest = put_uint 8 ts ++ (put_uint 8 value ++ (put_uint 2 count ++ rest))

abbrev pub body_of : Event → Bytes
body_of e = words (to_word64 e.timestamp) e.value (length e.tags) (put_tags e.tags)

unfoldable pub encode_event_value : Json → Event → Result Bytes
unfolding put_tags oversized
encode_event_value json e =
    if ltb max_uint16 (length e.tags) || oversized e.tags
    then from_option (json.marshal e)
    else ok (event_binary_version ∷ body_of e)

-- One round of the loops over the encoded tags: the key, the value and what follows them.
unfoldable pub read_tag : Bytes → Result (Bytes × Bytes × Bytes)
read_tag input =
    if ltb (length input) 2
    then err invalid_encoding
    else let klen = uint (take 2 input) in
      let rest = drop 2 input in
      if ltb (length rest) (klen + 2)
      then err invalid_encoding
      else let key = take klen rest in
        let after_key = drop klen rest in
        let vlen = uint (take 2 after_key) in
        let tail = drop 2 after_key in
        if ltb (length tail) vlen
        then err invalid_encoding
        else ok (key, take vlen tail, drop vlen tail)

unfoldable pub read_tags : ℕ → Bytes → Map Bytes → Result (Map Bytes)
unfolding read_tag
read_tags zero input tags = ok tags
read_tags (suc n) input tags = elim (read_tag input) [
  | err e ↦ err e
  | ok (key, value, rest) ↦ read_tags n rest (set tags key value)
]

with_metric : Bytes → Event → Event
with_metric [] e = e
with_metric (b ∷ metric) e = record e { metric = b ∷ metric }

abbrev from_json : Bytes → Option Event → Result Event
from_json metric none = err bad_json
from_json metric (some e) = ok (with_metric metric e)

abbrev event_of : ℕ → ℕ → Bytes → Result (Map Bytes) → Result Event
event_of ts value metric (err e) = err e
event_of ts value metric (ok tags) =
    ok (record { timestamp = of_word64 ts; metric = metric; value = value; tags = tags })

-- The fields behind the version byte.
read_binary : Bytes → Bytes → Result Event
unfolding read_tags
read_binary body metric =
    if ltb (length body) 18
    then err invalid_encoding
    else event_of (uint (take 8 body)) (uint (take 8 (drop 8 body))) metric
        (read_tags (uint (take 2 (drop 16 body))) (drop 18 body) [])

unfoldable pub decode_event_value : Json → Bytes → Bytes → Result Event
unfolding with_metric read_binary
decode_event_value json [] metric = err empty_event
decode_event_value json (version ∷ body) metric =
    if version == event_binary_version
    then read_binary body metric
    else from_json metric (json.unmarshal (version ∷ body))

-- What eventEntityValue returns: the tag's value if it is there, and the event's value.
pub record EntityValue : Type 0 where
  pub id : Bytes
  pub value : ℕ
  pub found : Bool

unfoldable pub scan_entity : ℕ → Bytes → Bytes → EntityValue → Result EntityValue
unfolding read_tag
scan_entity zero input tag r = ok r
scan_entity (suc n) input tag r = elim (read_tag input) [
  | err e ↦ err e
  | ok (key, value, rest) ↦
      scan_entity n rest tag
        (if bytes_eq key tag then record { id = value; value = r.value; found = true } else r)
]

abbrev pub entity_of : Bytes → Event → EntityValue
entity_of tag e = elim (get e.tags tag) [
  | none ↦ record { id = []; value = e.value; found = false }
  | some id ↦ record { id = id; value = e.value; found = true }
]

abbrev pub map_ok {ℓ κ} : {A : Type ℓ} {B : Type κ} → (A → B) → Result A → Result B
map_ok f (ok a) = ok (f a)
map_ok f (err e) = err e

unfoldable pub event_entity_value : Json → Bytes → Bytes → Result EntityValue
unfolding scan_entity
event_entity_value json [] tag = map_ok (entity_of tag) (decode_event_value json [] [])
event_entity_value json (version ∷ body) tag =
    if version == event_binary_version
    then (if ltb (length body) 18
        then err invalid_encoding
        else scan_entity (uint (take 2 (drop 16 body))) (drop 18 body) tag
            (record { id = []; value = uint (take 8 (drop 8 body)); found = false }))
    else map_ok (entity_of tag) (decode_event_value json (version ∷ body) [])
