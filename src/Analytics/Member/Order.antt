-- ===== src/Analytics/Member/Order.antt =====
-- The order of members as bytes is the order of a leaderboard.
use flamedb.Analytics.Member.{is_negative, member_word, encode_member, reversed_entity}
use flamedb.Base.{
  if◌then◌else◌, ℕ, ◌<◌, ◌≤◌, ◌^◌, ◌-◌, ◌≡◌, refl, arith, true, false, ltb, [], ◌∷◌, sym, ◌∙◌, All,
  Bool-cases, inl, inr,
}
use flamedb.Base.Bytes.{Bytes, IsByte}
use flamedb.Base.Words.{
  put_uint, bytes_lt, bytes_lt-put_uint, length-put_uint, bytes_lt-append_left,
}
use flamedb.Kv.Order.{bytes_lt_front}
use flamedb.Leaderboard.{canonical}
use flamedb.Leaderboard.Board.{IsFloat64}
use flamedb.Leaderboard.Rank.{rank}
use flamedb.Leaderboard.Update.{canonical-IsFloat64}

member_word-rank : (v : ℕ) → v < 2 ^ 64 → member_word v ≡ 2 ^ 64 - 1 - rank v
unfolding member_word rank
member_word-rank v h = ground arith

rank-lt : (v : ℕ) → v < 2 ^ 64 → rank v < 2 ^ 64
unfolding rank
rank-lt v h = ground arith

-- Of two members of finite scores the one that is less as bytes has the greater or an equal score.
pub encode_member_order :
    (v w : ℕ) (e f : Bytes)
    → IsFloat64 v
    → IsFloat64 w
    → bytes_lt (encode_member v e) (encode_member w f) ≡ true
    → rank (canonical w) ≤ rank (canonical v)
unfolding encode_member
encode_member_order v w e f hv hw h =
    let x = canonical v in
    let y = canonical w in
    let (sx, _) = canonical-IsFloat64 v hv in
    let (sy, _) = canonical-IsFloat64 w hw in
    let ex = member_word-rank x sx in
    let ey = member_word-rank y sy in
    let bx = rank-lt x sx in
    let by = rank-lt y sy in
    let cut =
      bytes_lt_front (put_uint 8 (member_word x)) (put_uint 8 (member_word y)) _ _
        (length-put_uint 8 (member_word x) ∙ sym (length-put_uint 8 (member_word y))) h in
    let words : ltb (member_word y) (member_word x) ≡ false =
      sym (
        bytes_lt-put_uint 8 (member_word y) (member_word x) (omega (arith, ey, by))
          (omega (arith, ex, bx)))
      ∙ cut in
    ground (arith, words, ex, ey, bx, by)

bytes_lt-reversed_entity :
    (e f : Bytes)
    → All IsByte e
    → All IsByte f
    → bytes_lt (reversed_entity e) (reversed_entity f) ≡ bytes_lt f e
unfolding bytes_lt reversed_entity
bytes_lt-reversed_entity [] [] he hf = refl
bytes_lt-reversed_entity [] (c ∷ f) he hf = ground arith
bytes_lt-reversed_entity (b ∷ e) [] he hf = ground arith
bytes_lt-reversed_entity (b ∷ e) (c ∷ f) (hb, he) (hc, hf) =
    let rest = bytes_lt-reversed_entity e f he hf in ground (arith, rest, hb, hc)

-- Members of one score compare as their entities do, and the other way round where the score is
-- negative.
pub encode_member_ties :
    (v : ℕ) (e f : Bytes)
    → All IsByte e
    → All IsByte f
    → bytes_lt (encode_member v e) (encode_member v f)
      ≡ (if is_negative (canonical v) then bytes_lt f e else bytes_lt e f)
unfolding encode_member
encode_member_ties v e f he hf =
    let x = canonical v in
    elim (Bool-cases (is_negative x)) [
      | inl negative ↦ rw negative (
          bytes_lt-append_left (put_uint 8 (member_word x)) (reversed_entity e) (reversed_entity f)
          ∙ bytes_lt-reversed_entity e f he hf)
      | inr positive ↦ rw positive (bytes_lt-append_left (put_uint 8 (member_word x)) e f)
    ]
