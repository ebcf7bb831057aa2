-- ===== src/Storage/Keys/Ranges.antt =====
-- What the order of keys means: a range of keys is a range of timestamps or of scores.
use flamedb.Base.{
  ℕ, ◌^◌, ◌<◌, ◌≡◌, refl, ap, sym, ◌∙◌, true, false, [], ◌∷◌, ◌++◌, arith, length, ltb, subst,
  append_assoc, append_suffix_unique,
}
use flamedb.Base.Bytes.{Bytes, codes, append_left_cancel}
use flamedb.Base.Int.{ℤ, pos, to_word64}
use flamedb.Base.Words.{
  put_uint, bytes_lt, bytes_lt-append_left, bytes_lt-put_uint, length-put_uint,
}
use flamedb.Keyspace.{component, colon}
use flamedb.Storage.Keys.{event_key, index_key}

-- The keys of one metric's events, from the epoch on, are ordered as their timestamps.
pub bytes_lt-event_key :
    (m : Bytes) (s t : ℕ)
    → s < 2 ^ 63
    → t < 2 ^ 63
    → bytes_lt (event_key m (pos s)) (event_key m (pos t)) ≡ ltb s t
unfolding event_key to_word64
bytes_lt-event_key m s t hs ht =
    bytes_lt-append_left (component m) _ _
    ∙ bytes_lt-append_left (colon ∷ []) _ _
    ∙ bytes_lt-put_uint 8 s t (omega arith) (omega arith)

-- A text between two of its length that begin alike begins so too.
between_prefix :
    (p a b key : Bytes)
    → length key ≡ length (p ++ a)
    → bytes_lt key (p ++ a) ≡ false
    → bytes_lt key (p ++ b) ≡ true
    → (rest : Bytes) × (key ≡ p ++ rest) × (length rest ≡ length a)
unfolding bytes_lt
between_prefix [] a b key h lo hi = (key, refl, h)
between_prefix (x ∷ p) a b [] h lo hi = absurd (omega arith)
between_prefix (x ∷ p) a b (y ∷ key) h lo hi =
    let (rest, e, l) = between_prefix p a b key (omega arith) (ground arith) (ground arith) in
    (rest, ground arith, l)

index_prefix : Bytes → Bytes → Bytes → Bytes
index_prefix m k v =
    codes "idx" ++ colon ∷ (component m ++ colon ∷ (component k ++ colon ∷ (v ++ colon ∷ [])))

index_key-split :
    (m k v : Bytes) (t : ℤ) → index_key m k v t ≡ index_prefix m k v ++ put_uint 8 (to_word64 t)
unfolding index_key index_prefix
index_key-split m k v t = simp append_assoc

value_of :
    (m k v w rest : Bytes) (t : ℕ)
    → length rest ≡ 8
    → index_prefix m k w ++ put_uint 8 t ≡ index_prefix m k v ++ rest
    → w ≡ v
unfolding index_prefix
value_of m k v w rest t l e =
    let metric =
      append_left_cancel (component m)
        (colon ∷ (component k ++ colon ∷ (w ++ colon ∷ put_uint 8 t)))
        (colon ∷ (component k ++ colon ∷ (v ++ colon ∷ rest)))
        (append_left_cancel (codes "idx:") _ _ (simp append_assoc at e)) in
    let tag =
      append_left_cancel (component k) (colon ∷ (w ++ colon ∷ put_uint 8 t))
        (colon ∷ (v ++ colon ∷ rest)) (append_left_cancel (colon ∷ []) _ _ metric) in
    (append_suffix_unique w v (colon ∷ put_uint 8 t) (colon ∷ rest)
      (omega (arith, length-put_uint 8 t)) (append_left_cancel (colon ∷ []) _ _ tag)).0

-- A key of an index entry that lies between the bounds for one tag value, and has their length, is
-- of that tag value.
pub index_key_between :
    (m k v w : Bytes) (from to t : ℤ)
    → length (index_key m k w t) ≡ length (index_key m k v from)
    → bytes_lt (index_key m k w t) (index_key m k v from) ≡ false
    → bytes_lt (index_key m k w t) (index_key m k v to) ≡ true
    → w ≡ v
index_key_between m k v w from to t h lo hi =
    let p = index_prefix m k v in
    let (rest, e, l) =
      between_prefix p (put_uint 8 (to_word64 from)) (put_uint 8 (to_word64 to)) (index_key m k w t)
        (h ∙ ap (λ (x : Bytes). length x) (index_key-split m k v from))
        (subst (λ x. bytes_lt (index_key m k w t) x ≡ false) (index_key-split m k v from) lo)
        (subst (λ x. bytes_lt (index_key m k w t) x ≡ true) (index_key-split m k v to) hi) in
    value_of m k v w rest (to_word64 t) (l ∙ length-put_uint 8 (to_word64 from))
      (sym (index_key-split m k w t) ∙ e)
