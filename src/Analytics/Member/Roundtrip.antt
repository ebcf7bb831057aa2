-- ===== src/Analytics/Member/Roundtrip.antt =====
-- A member is read back as the score and the entity that it was made of.
use flamedb.Analytics.Member.{
  is_negative, member_word, reversed_entity, encode_member, restored_entity, score_of_word,
  decode_member, take, decoded, ltb, not_finite,
}
use flamedb.Base.{
  if◌then◌else◌, ℕ, ◌<◌, ◌^◌, ◌-◌, ◌≡◌, refl, arith, false, some, [], ◌∷◌, ◌++◌, Bool-cases, inl,
  inr, ap, ◌∙◌, length, All, length-append, ap₂,
}
use flamedb.Base.Bytes.{Bytes, IsByte}
use flamedb.Base.Words.{
  put_uint, uint, take-put_uint, drop-put_uint, uint-put_uint, length-put_uint,
}
use flamedb.Leaderboard.{canonical}
use flamedb.Leaderboard.Board.{IsFloat64}
use flamedb.Leaderboard.Update.{canonical-IsFloat64}

restored-reversed_entity : (e : Bytes) → All IsByte e → restored_entity (reversed_entity e) ≡ some e
unfolding restored_entity reversed_entity
restored-reversed_entity [] h = refl
restored-reversed_entity (b ∷ e) (here, h) =
    let rest = restored-reversed_entity e h in
    let back : 255 - (255 - b) ≡ b = omega (arith, here) in ground (arith, rest, back)

member_word-lt : (v : ℕ) → v < 2 ^ 64 → member_word v < 2 ^ 64
unfolding member_word
member_word-lt v h = ground arith

pub score_of_word-member_word : (v : ℕ) → v < 2 ^ 64 → score_of_word (member_word v) ≡ v
unfolding score_of_word member_word
score_of_word-member_word v h = ground (arith, h)

decoded_lem :
    (w : ℕ) (e : Bytes)
    → not_finite w ≡ false
    → restored_entity (reversed_entity e) ≡ some e
    → decoded w (if is_negative w then reversed_entity e else e)
      ≡ some (record { entity_id = e; value = w })
unfolding decoded
decoded_lem w e finite restored = elim (Bool-cases (is_negative w)) [
  | inl negative ↦ rw (decoded, negative, finite, restored) refl
  | inr positive ↦ rw (decoded, positive, finite) refl
]

-- A member of a ranking is read back as its finite score, minus zero as zero, and its entity.
pub decode-encode_member :
    (v : ℕ) (e : Bytes)
    → IsFloat64 v
    → All IsByte e
    → decode_member (encode_member v e) ≡ some (record { entity_id = e; value = canonical v })
unfolding decode_member encode_member
decode-encode_member v e hv he =
    let w = canonical v in
    let (small, finite) = canonical-IsFloat64 v hv in
    let tail = if is_negative w then reversed_entity e else e in
    let word = member_word w in
    let at_word : score_of_word (uint (take 8 (put_uint 8 word ++ tail))) ≡ w =
      ap (λ b. score_of_word (uint b)) (take-put_uint 8 word tail)
      ∙ ap score_of_word (uint-put_uint 8 word (omega (arith, member_word-lt w small)))
      ∙ score_of_word-member_word w small in
    let at_tail = drop-put_uint 8 word tail in
    let long = length-append (put_uint 8 word) tail in
    let eight = length-put_uint 8 word in
    let enough : ltb (length (put_uint 8 word ++ tail)) 8 ≡ false = ground (arith, long, eight) in
    rw enough (ap₂ decoded at_word at_tail ∙ decoded_lem w e finite (restored-reversed_entity e he))
