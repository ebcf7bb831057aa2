-- ===== src/Storage/Codec/Roundtrip.antt =====
-- Decoding an encoded event gives the event back.
use flamedb.Base.{
  ◌+◌, ◌≤◌, ◌≡◌, ap, sym, ◌∙◌, false, [], ◌∷◌, ◌++◌, arith, le→ltb, length, length-append,
  take-append, drop-append, append_assoc, append-nil, some, ℕ, ◌<◌, ◌^◌, drop, drop-drop,
  Bool-cases, Option, ltb, ◌||◌, inl, inr, refl, none, subst,
}
use flamedb.Base.Bytes.{Bytes}
use flamedb.Base.Int.{to_word64-lt, of_word64-to_word64}
use flamedb.Base.Map.{Map, Distinct, set-Fresh, FreshAll, FreshAll-snoc, FreshAll-nil}
use flamedb.Base.Words.{put_uint, length-put_uint, uint-put_uint, take-put_uint, drop-put_uint}
use flamedb.Storage.Codec.{
  ok, read_tag, read_tags, put_tags, oversized, max_uint16, Event, Json, decode_event_value,
  encode_event_value, read_binary, with_metric, event_binary_version, body_of, words, event_of,
  to_word64, from_option,
}
use flamedb.Storage.Event.{IsEvent}

read_tag-put :
    (k v more : Bytes)
    → length k ≤ max_uint16
    → length v ≤ max_uint16
    → read_tag ((put_uint 2 (length k) ++ k ++ put_uint 2 (length v) ++ v) ++ more)
      ≡ ok (k, v, more)
unfolding read_tag
read_tag-put k v more hk hv =
    simp
      (
        append_assoc,
        take-put_uint,
        drop-put_uint,
        uint-put_uint 2 (length k) (omega arith),
        uint-put_uint 2 (length v) (omega arith),
        take-append,
        drop-append,
      )
      (simp (length-append, length-put_uint)
        (rw (
          le→ltb (2 + (length k + (2 + (length v + length more)))) 2 (omega arith),
          le→ltb (length k + (2 + (length v + length more))) (length k + 2) (omega arith),
          le→ltb (length v + length more) (length v) (omega arith),
        )))

read_tags-put_tags :
    (tags acc : Map Bytes)
    → oversized tags ≡ false
    → Distinct tags
    → FreshAll acc tags
    → read_tags (length tags) (put_tags tags) acc ≡ ok (acc ++ tags)
unfolding read_tags put_tags
read_tags-put_tags [] acc h d f = rw append-nil
read_tags-put_tags ((k, v) ∷ tags) acc h d f =
    rw
      (
        read_tag-put k v (put_tags tags) (unfold oversized in ground arith)
            (unfold oversized in ground arith),
        read_tags,
      )
      (rw (set-Fresh acc k v f.0) (
        read_tags-put_tags tags (acc ++ (k, v) ∷ []) (unfold oversized in ground arith) d.1
          (FreshAll-snoc acc tags k v f.1 d.0)
        ∙ ap ok (append_assoc acc ((k, v) ∷ []) tags)))

-- The fixed part of the encoding, read back word by word.
read_binary-words :
    (ts value count : ℕ) (rest metric : Bytes)
    → ts < 2 ^ 64
    → value < 2 ^ 64
    → count ≤ max_uint16
    → read_binary (words ts value count rest) metric
      ≡ event_of ts value metric (read_tags count rest [])
unfolding read_binary
read_binary-words ts value count rest metric ht hv hc =
    simp
      (
        length-append,
        length-put_uint,
        le→ltb (8 + (8 + (2 + length rest))) 18 (omega arith),
        drop_16,
        drop_18,
        take-put_uint,
        drop-put_uint,
        uint-put_uint 8 ts (omega arith),
        uint-put_uint 8 value (omega arith),
        uint-put_uint 2 count (omega arith),
      )
      refl
  where
    drop_16 : drop 16 (words ts value count rest) ≡ put_uint 2 count ++ rest
    drop_16 = drop-drop 8 8 (words ts value count rest) ∙ simp drop-put_uint

    drop_18 : drop 18 (words ts value count rest) ≡ rest
    drop_18 = drop-drop 16 2 (words ts value count rest) ∙ simp (drop_16, drop-put_uint)

abbrev pub BinaryFits : Event → Type 0
BinaryFits e = (length e.tags ≤ max_uint16) × (oversized e.tags ≡ false)

-- An event whose tags fit the binary form is encoded without JSON, and decoding the bytes under any
-- metric gives the event with that metric.
pub decode-encode_binary :
    (json : Json) (e : Event) (metric : Bytes)
    → IsEvent e
    → BinaryFits e
    → (bytes : Bytes) × (encode_event_value json e ≡ ok bytes)
      × (decode_event_value json bytes metric ≡ ok (record e { metric = metric }))
unfolding encode_event_value decode_event_value
decode-encode_binary json e metric is fits = (
  event_binary_version ∷ body_of e,
  rw (le→ltb max_uint16 (length e.tags) fits.0, fits.1) refl,
  read_binary-words (to_word64 e.timestamp) e.value (length e.tags) (put_tags e.tags) metric
        (to_word64-lt e.timestamp is.timestamp_range) is.value_range fits.0
      ∙ rw
          (
            read_tags-put_tags e.tags [] fits.1 is.tags_distinct (FreshAll-nil e.tags),
            of_word64-to_word64 e.timestamp is.timestamp_range,
          )
          refl,
)

-- What encoding/json does with an event that it can represent.
pub record KeepsEvent (json : Json) (e : Event) : Type 0 where
  pub is_object :
      (bytes : Bytes) → json.marshal e ≡ some bytes → (rest : Bytes) × (bytes ≡ b'{' ∷ rest)
  pub unmarshals : (bytes : Bytes) → json.marshal e ≡ some bytes → json.unmarshal bytes ≡ some e

with_own_metric : (e : Event) → with_metric e.metric e ≡ e
with_own_metric e = go e.metric refl
  where
    go : (m : Bytes) → e.metric ≡ m → with_metric m e ≡ e
    go [] h = unfold with_metric in refl
    go (b ∷ m) h = unfold with_metric in λ i. record e { metric = sym h i }

json-decode :
    (json : Json) (e : Event) (bytes : Bytes)
    → KeepsEvent json e
    → json.marshal e ≡ some bytes
    → decode_event_value json bytes e.metric ≡ ok e
unfolding decode_event_value
json-decode json e bytes keeps h =
    let (rest, shape) = keeps.is_object bytes h in
    rw shape (rw (← shape) (rw (keeps.unmarshals bytes h) (ap ok (with_own_metric e))))

ok-injective : {a b : Bytes} → ok a ≡ ok b → a ≡ b
ok-injective h = cc

from_option-ok : (o : Option Bytes) {b : Bytes} → from_option o ≡ ok b → o ≡ some b
from_option-ok none h = cc
from_option-ok (some a) h = cc

-- What encodeEventValue produced, in the binary form or as JSON, decodeEventValue reads back, under
-- the event's own metric, as the event; of encoding/json it uses that a marshalled event begins
-- with a brace and unmarshals to itself.
pub decode-encode :
    (json : Json) (e : Event) (bytes : Bytes)
    → KeepsEvent json e
    → IsEvent e
    → encode_event_value json e ≡ ok bytes
    → decode_event_value json bytes e.metric ≡ ok e
unfolding encode_event_value
decode-encode json e bytes keeps is h =
    elim (Bool-cases (ltb max_uint16 (length e.tags) || oversized e.tags)) [
      | inl too_large ↦ json-decode json e bytes keeps (from_option-ok _ (rw too_large at h))
      | inr fits ↦
          let (made, encoded, decoded) = decode-encode_binary json e e.metric is (ground arith) in
          subst (λ b. decode_event_value json b e.metric ≡ ok e) (ok-injective (sym encoded ∙ h))
            decoded
    ]
