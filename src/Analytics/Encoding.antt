-- ===== src/Analytics/Encoding.antt =====
-- internal/analytics/encoding.go. Packages base64 and utf8 are parameters.
pub mod Roundtrip
use flamedb.Base.{Bool, ◌||◌, not, Option, none, some, [], ◌∷◌, ◌++◌, if◌then◌else◌, length, drop}
use flamedb.Base.Bytes.{Bytes, codes, has_prefix, contains_byte}
use flamedb.Base.Map.{Map, set}

-- base64.StdEncoding's EncodeToString and DecodeString, and utf8.ValidString
pub record TextCodec : Type 0 where
  pub to_base64 : Bytes → Bytes
  pub from_base64 : Bytes → Option Bytes
  pub is_valid_utf8 : Bytes → Bool

-- "\x1eFlame64:"
abbrev pub string_prefix : Bytes
string_prefix = 0x1e ∷ codes "Flame64:"

module _ (text : TextCodec) where
  abbrev pub needs_encoding : Bytes → Bool
  needs_encoding value =
      contains_byte value 0 || not (text.is_valid_utf8 value) || has_prefix value string_prefix

  unfoldable pub encode_string : Bytes → Bytes
  encode_string value =
      if needs_encoding value then string_prefix ++ text.to_base64 value else value

  -- `none` is the error.
  unfoldable pub decode_string : Bytes → Option Bytes
  decode_string value =
      if not (has_prefix value string_prefix)
      then some value
      else text.from_base64 (drop (length string_prefix) value)

  -- The loop of EncodeTags, into the map `out`.
  unfoldable pub encode_into : Map Bytes → Map Bytes → Map Bytes
  unfolding encode_string
  encode_into out [] = out
  encode_into out ((k, v) ∷ tags) = encode_into (set out (encode_string k) (encode_string v)) tags

  unfoldable pub encode_tags : Map Bytes → Map Bytes
  unfolding encode_into
  encode_tags tags = encode_into [] tags

  -- The loop of decodeTags.
  unfoldable pub decode_into : Map Bytes → Map Bytes → Option (Map Bytes)
  unfolding decode_string
  decode_into out [] = some out
  decode_into out ((k, v) ∷ tags) = elim (decode_string k) [
    | none ↦ none
    | some key ↦ elim (decode_string v) [
      | none ↦ none
      | some value ↦ decode_into (set out key value) tags
    ]
  ]

  unfoldable pub decode_tags : Map Bytes → Option (Map Bytes)
  unfolding decode_into
  decode_tags tags = decode_into [] tags
