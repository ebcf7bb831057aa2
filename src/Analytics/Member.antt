-- ===== src/Analytics/Member.antt =====
-- encodeMember and decodeMember of internal/analytics/ranking.go: a score and its entity as a member
-- of a sorted set of Redis, which orders members of one score as bytes. A float64 is its bit pattern.
pub mod Roundtrip
pub mod Order
use flamedb.Base.{
  ℕ, ◌+◌, ◌-◌, ◌*◌, ◌^◌, Bool, ◌&&◌, Option, none, some, [], ◌∷◌, ◌++◌, ltb, leb, ◌==◌,
  if◌then◌else◌, length, take, drop,
}
use flamedb.Base.Bytes.{Bytes}
use flamedb.Base.Words.{put_uint, uint}
use flamedb.Leaderboard.{LeaderboardEntry, canonical}
use flamedb.Query.Validate.{not_finite}

-- `value < 0`: below minus zero, and not a NaN.
unfoldable pub is_negative : ℕ → Bool
is_negative v = ltb (2 ^ 63) v && leb v (2 ^ 63 + 2047 * 2 ^ 52)

-- ^bits, and bits ^ 1<<63
abbrev pub complement : ℕ → ℕ
complement bits = 2 ^ 64 - 1 - bits

abbrev pub flip_sign : ℕ → ℕ
flip_sign bits = if ltb bits (2 ^ 63) then bits + 2 ^ 63 else bits - 2 ^ 63

-- The word of a score: greater scores have smaller words.
unfoldable pub member_word : ℕ → ℕ
member_word v = complement (if ltb v (2 ^ 63) then flip_sign v else complement v)

-- Each byte complemented behind a zero, and a one at the end.
unfoldable pub reversed_entity : Bytes → Bytes
reversed_entity [] = 1 ∷ []
reversed_entity (b ∷ entity) = 0 ∷ (255 - b) ∷ reversed_entity entity

unfoldable pub encode_member : ℕ → Bytes → Bytes
unfolding member_word is_negative reversed_entity canonical
encode_member value entity =
    let v = canonical value in
    put_uint 8 (member_word v) ++ (if is_negative v then reversed_entity entity else entity)

-- The loop over the pairs, with the checks of the length and of the last byte.
unfoldable pub restored_entity : Bytes → Option Bytes
restored_entity [] = none
restored_entity (c ∷ []) = if c == 1 then some [] else none
restored_entity (c ∷ d ∷ rest) =
    let later = restored_entity rest in
    if c == 0 then elim later [ none ↦ none | some entity ↦ some ((255 - d) ∷ entity) ] else none

unfoldable pub score_of_word : ℕ → ℕ
score_of_word word =
    let bits = complement word in if ltb bits (2 ^ 63) then complement bits else flip_sign bits

-- What follows once the score is read.
unfoldable pub decoded : ℕ → Bytes → Option LeaderboardEntry
unfolding restored_entity is_negative
decoded value entity =
    if not_finite value
    then none
    else elim (if is_negative value then restored_entity entity else some entity) [
      | none ↦ none
      | some id ↦ some (record { entity_id = id; value = value })
    ]

unfoldable pub decode_member : Bytes → Option LeaderboardEntry
unfolding score_of_word decoded
decode_member member =
    if ltb (length member) 8
    then none
    else decoded (score_of_word (uint (take 8 member))) (drop 8 member)
