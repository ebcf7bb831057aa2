-- ===== src/Analytics/Encoding/Roundtrip.antt =====
-- Strings and tags come back from the database's form.
use flamedb.Analytics.Encoding.{
  TextCodec, string_prefix, needs_encoding, encode_string, decode_string, encode_into, encode_tags,
  decode_into, decode_tags,
}
use flamedb.Base.{
  ◌≡◌, refl, sym, ap, ◌∙◌, Bool-cases, inl, inr, some, some_inj, [], ◌∷◌, ◌++◌, append_assoc,
  append-nil, false, arith,
}
use flamedb.Base.Bytes.{Bytes, has_prefix}
use flamedb.Base.Map.{
  Map, Fresh, Distinct, set-Fresh, Fresh-snoc, FreshAll, FreshAll-snoc, FreshAll-nil,
}

module _ (text : TextCodec)
    (from-to : (s : Bytes) → text.from_base64 (text.to_base64 s) ≡ some s) where
  prefixed : (s : Bytes) → decode_string text (string_prefix ++ s) ≡ text.from_base64 s
  unfolding decode_string has_prefix
  prefixed s = refl

  unprefixed : (s : Bytes) → has_prefix s string_prefix ≡ false → decode_string text s ≡ some s
  unfolding decode_string
  unprefixed s h = rw h refl

  -- Every string comes back from its stored form, where base64 decodes what it encoded.
  pub decode-encode_string : (s : Bytes) → decode_string text (encode_string text s) ≡ some s
  unfolding encode_string
  decode-encode_string s = elim (Bool-cases (needs_encoding text s)) [
    | inl coded ↦ rw coded (prefixed (text.to_base64 s) ∙ from-to s)
    | inr plain ↦ rw plain (unprefixed s (ground (arith, plain)))
  ]

  encode_string-injective : (s t : Bytes) → encode_string text s ≡ encode_string text t → s ≡ t
  encode_string-injective s t e =
      some_inj (sym (decode-encode_string s) ∙ ap (decode_string text) e ∙ decode-encode_string t)

  abbrev encoded : Map Bytes → Map Bytes
  encoded [] = []
  encoded ((k, v) ∷ tags) = (encode_string text k, encode_string text v) ∷ encoded tags

  -- No tag is in the map yet.
  abbrev AllNew : Map Bytes → Map Bytes → Type 0
  AllNew out [] = Unit
  AllNew out ((k, v) ∷ tags) = Fresh (encode_string text k) out × AllNew out tags

  AllNew-snoc :
      (out tags : Map Bytes) (k v : Bytes)
      → Fresh k tags
      → AllNew out tags
      → AllNew (out ++ (encode_string text k, v) ∷ []) tags
  AllNew-snoc out [] k v f h = tt
  AllNew-snoc out ((j, w) ∷ tags) k v (ne, f) (new, h) = (
    Fresh-snoc (encode_string text j) out (encode_string text k) v new
        (λ e. ne (sym (encode_string-injective k j e))),
    AllNew-snoc out tags k v f h,
  )

  encode_into-encoded :
      (out tags : Map Bytes)
      → Distinct tags
      → AllNew out tags
      → encode_into text out tags ≡ out ++ encoded tags
  unfolding encode_into
  encode_into-encoded out [] d h = sym (append-nil out)
  encode_into-encoded out ((k, v) ∷ tags) (f, d) (new, h) =
      ap (λ o. encode_into text o tags)
        (set-Fresh out (encode_string text k) (encode_string text v) new)
      ∙ encode_into-encoded (out ++ (encode_string text k, encode_string text v) ∷ []) tags d
          (AllNew-snoc out tags k (encode_string text v) f h)
      ∙ append_assoc out ((encode_string text k, encode_string text v) ∷ []) (encoded tags)

  decode_into-encoded :
      (out tags : Map Bytes)
      → Distinct tags
      → FreshAll out tags
      → decode_into text out (encoded tags) ≡ some (out ++ tags)
  unfolding decode_into
  decode_into-encoded out [] d h = ap some (sym (append-nil out))
  decode_into-encoded out ((k, v) ∷ tags) (f, d) (new, h) =
      rw (decode_into, decode-encode_string k, decode-encode_string v)
        (ap (λ o. decode_into text o (encoded tags)) (set-Fresh out k v new)
          ∙ decode_into-encoded (out ++ (k, v) ∷ []) tags d (FreshAll-snoc out tags k v h f)
          ∙ ap some (append_assoc out ((k, v) ∷ []) tags))

  all_new : (tags : Map Bytes) → AllNew [] tags
  all_new [] = tt
  all_new ((k, v) ∷ tags) = (tt, all_new tags)

  -- The tags of an event come back from their stored form, where base64 decodes what it encoded.
  pub decode-encode_tags :
      (tags : Map Bytes) → Distinct tags → decode_tags text (encode_tags text tags) ≡ some tags
  unfolding decode_tags encode_tags
  decode-encode_tags tags d =
      ap (decode_into text []) (encode_into-encoded [] tags d (all_new tags))
      ∙ decode_into-encoded [] tags d (FreshAll-nil tags)
