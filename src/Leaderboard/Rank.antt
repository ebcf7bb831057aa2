-- ===== src/Leaderboard/Rank.antt =====
-- The order of a board's rows is the order of the scores: down from the split on, up before it.
use flamedb.Base.{
  ℕ, ◌≡◌, ◌≤◌, ◌<◌, ◌^◌, ◌-◌, refl, arith, true, false, [], ◌∷◌, ◌++◌, ltb, sym, ◌∙◌, if◌then◌else◌,
  ◌+◌, length, All, not,
}
use flamedb.Base.Bytes.{Bytes, bytes_eq}
use flamedb.Base.Words.{
  put_uint, bytes_lt, length-put_uint, bytes_lt-put_uint, bytes_lt-append_left,
}
use flamedb.Keyspace.{component, colon}
use flamedb.Kv.Order.{bytes_lt_front}
use flamedb.Leaderboard.{LeaderboardEntry, lb_split}
use flamedb.Storage.Keys.{lb_key}

-- The order of the bit patterns of the finite numbers.
unfoldable pub rank : ℕ → ℕ
rank v = if ltb v (2 ^ 63) then 2 ^ 63 + v else 2 ^ 64 - 1 - v

-- Above by the stored words, and by the scores; of different entities.
abbrev pub Over : LeaderboardEntry → LeaderboardEntry → Type 0
Over x y = (y.value ≤ x.value) × (bytes_eq x.entity_id y.entity_id ≡ false)

abbrev pub Ranks : LeaderboardEntry → LeaderboardEntry → Type 0
Ranks x y = (rank y.value ≤ rank x.value) × (bytes_eq x.entity_id y.entity_id ≡ false)

-- Two rows of a board compare as the words in them do.
lb_key_words :
    (m a b : Bytes) (v w : ℕ)
    → bytes_lt (lb_key m a v) (lb_key m b w)
      ≡ bytes_lt
          (put_uint 8 (2 ^ 64 - 1 - v) ++ colon ∷ a)
          (put_uint 8 (2 ^ 64 - 1 - w) ++ colon ∷ b)
unfolding lb_key bytes_lt
lb_key_words m a b v w =
    bytes_lt-append_left (component m) (colon ∷ (put_uint 8 (2 ^ 64 - 1 - v) ++ colon ∷ a))
      (colon ∷ (put_uint 8 (2 ^ 64 - 1 - w) ++ colon ∷ b))

lb_key_at_split :
    (m a : Bytes) (v : ℕ)
    → bytes_lt (lb_key m a v) (lb_split m)
      ≡ bytes_lt (put_uint 8 (2 ^ 64 - 1 - v) ++ colon ∷ a) (0x80 ∷ [])
unfolding lb_key lb_split bytes_lt
lb_key_at_split m a v =
    bytes_lt-append_left (component m) (colon ∷ (put_uint 8 (2 ^ 64 - 1 - v) ++ colon ∷ a))
      (colon ∷ 0x80 ∷ [])

not_below_zeros : (t z : Bytes) → All (λ c. c ≡ 0) z → length t ≡ length z → bytes_lt t z ≡ false
unfolding bytes_lt
not_below_zeros t [] zeros h = refl
not_below_zeros [] (c ∷ z) zeros h = absurd (omega arith)
not_below_zeros (b ∷ t) (c ∷ z) (zero, zeros) h =
    let rest = not_below_zeros t z zeros (omega (arith, h)) in ground (arith, zero, rest)

-- The word with the top bit alone.
top_word : put_uint 8 (2 ^ 63) ≡ 0x80 ∷ 0 ∷ 0 ∷ 0 ∷ 0 ∷ 0 ∷ 0 ∷ 0 ∷ []
unfolding put_uint
top_word = refl

-- A text is below the byte 0x80 where the word at its front has no top bit.
below_top :
    (p s : Bytes) → length p ≡ 8 → bytes_lt (p ++ s) (0x80 ∷ []) ≡ bytes_lt p (put_uint 8 (2 ^ 63))
unfolding bytes_lt
below_top [] s h = absurd (omega arith)
below_top (b ∷ t) s h =
    let rest =
      not_below_zeros t (0 ∷ 0 ∷ 0 ∷ 0 ∷ 0 ∷ 0 ∷ 0 ∷ [])
        (refl, (refl, (refl, (refl, (refl, (refl, (refl, tt))))))) (omega (arith, h)) in
    rw top_word (ground (arith, rest))

-- A row is before the split where its score is negative.
pub lb_key_negative :
    (m a : Bytes) (v : ℕ) → v < 2 ^ 64 → bytes_lt (lb_key m a v) (lb_split m) ≡ not (ltb v (2 ^ 63))
lb_key_negative m a v hv =
    let x = 2 ^ 64 - 1 - v in
    lb_key_at_split m a v
    ∙ below_top (put_uint 8 x) (colon ∷ a) (length-put_uint 8 x)
    ∙ bytes_lt-put_uint 8 x (2 ^ 63) (omega arith) (omega arith)
    ∙ ground arith

-- Rows of a board in key order go down in the stored words.
pub lb_key_order :
    (m a b : Bytes) (v w : ℕ)
    → v < 2 ^ 64
    → w < 2 ^ 64
    → bytes_lt (lb_key m a v) (lb_key m b w) ≡ true
    → w ≤ v
lb_key_order m a b v w hv hw h =
    let x = 2 ^ 64 - 1 - v in
    let y = 2 ^ 64 - 1 - w in
    let cut =
      bytes_lt_front (put_uint 8 x) (put_uint 8 y) (colon ∷ a) (colon ∷ b)
        (length-put_uint 8 x ∙ sym (length-put_uint 8 y)) (sym (lb_key_words m a b v w) ∙ h) in
    let words : ltb y x ≡ false = sym (bytes_lt-put_uint 8 y x (omega arith) (omega arith)) ∙ cut in
    ground (arith, words)
