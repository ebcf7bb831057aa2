-- ===== src/Examples/BoardRuns.antt =====
-- The leaderboards and the members of Redis at small inputs, over the store in memory.
use flamedb.Analytics.Member.{encode_member, decode_member}
use flamedb.Analytics.Member.Order.{encode_member_order}
use flamedb.Analytics.Member.Roundtrip.{decode-encode_member}
use flamedb.Base.{
  ℕ, ◌≡◌, ◌^◌, ◌≤◌, refl, arith, true, false, Bool, none, some, [], ◌++◌, if◌then◌else◌, length,
  ltb, List, In, ap, ◌∙◌, take, drop, length-append, ◌+◌, ◌↔◌,
}
use flamedb.Base.Bytes.{Bytes, codes}
use flamedb.Base.Int.{pos}
use flamedb.Base.Map.{Map, get}
use flamedb.Base.Pairs.{Pairs}
use flamedb.Base.Window.{window}
use flamedb.Base.Words.{
  put_uint, uint, bytes_lt, take-put_uint, drop-put_uint, uint-put_uint, length-put_uint,
}
use flamedb.Kv.Memory.{memory, memory-IsStore}
use flamedb.Leaderboard.{LeaderboardEntry, Scores, top_n, set_score, get_score, canonical}
use flamedb.Leaderboard.Board.{Board, Holds, IsJson, update, IsFloat64}
use flamedb.Leaderboard.Lookup.{get_score_lem, value_or_zero}
use flamedb.Leaderboard.Rank.{Ranks, rank}
use flamedb.Leaderboard.Top.{top_n-Holds}
use flamedb.Leaderboard.Update.{set_score-Holds, score_writes-Holds}
use flamedb.Leaderboard.Writes.{score_writes}
use flamedb.Query.Types.{ok}
use flamedb.Query.Validate.{not_finite}

-- In place of JSON the score's word and the entity. Adding is adding the patterns.
abbrev pub plain_scores : Scores
plain_scores = record {
  marshal = λ x. put_uint 8 x.value ++ x.entity_id;
  unmarshal = λ b.
      if ltb (length b) 8
      then none
      else some (record { entity_id = drop 8 b; value = uint (take 8 b) });
  add = λ v w. if ltb v w then w else v;
}

abbrev any_text : Bytes → Bool
any_text s = true

plain-IsJson : IsJson plain_scores any_text
plain-IsJson = record {
  unmarshal-marshal = λ e v text float.
      let long : ltb (length (put_uint 8 v ++ e)) 8 ≡ false =
        ground (arith, length-append (put_uint 8 v) e, length-put_uint 8 v) in
      let word : uint (take 8 (put_uint 8 v ++ e)) ≡ v =
        ap uint (take-put_uint 8 v e) ∙ uint-put_uint 8 v (omega (arith, float.0)) in
      rw (long, word, drop-put_uint 8 v e) refl;
}

abbrev empty_board : Board
empty_board m e = none

empty_Holds : Holds memory plain_scores any_text [] empty_board
unfolding get
empty_Holds = record {
  index = λ m e hm. refl;
  row = λ m e v hm hv. refl;
  score = λ m e v h. absurd (cc);
  shape = λ rest bytes h. absurd (cc);
}

abbrev kills : Bytes
kills = codes "kills"

abbrev steve : Bytes
steve = codes "steve"

-- The pattern of two.
abbrev two : ℕ
two = 2 ^ 62

two-IsFloat64 : IsFloat64 two
unfolding not_finite
two-IsFloat64 = (omega arith, refl)

set_score-Holds_example :
    (db' : Map Bytes) × (set_score memory plain_scores [] kills steve two ≡ ok db')
    × Holds memory plain_scores any_text db' (update empty_board kills steve (some (canonical two)))
set_score-Holds_example =
    set_score-Holds memory-IsStore [] empty_board kills steve two empty_Holds plain-IsJson
      (omega arith) refl two-IsFloat64

-- The store with one score.
abbrev one_score : Map Bytes
one_score =
    memory.commit []
      (score_writes plain_scores kills steve (get_score memory plain_scores [] kills steve) two)

abbrev one_board : Board
one_board = update empty_board kills steve (some two)

one_Holds : Holds memory plain_scores any_text one_score one_board
one_Holds =
    score_writes-Holds memory-IsStore [] empty_board kills steve two empty_Holds plain-IsJson
      (omega arith) refl two-IsFloat64

get_score_lem_example :
    get_score memory plain_scores one_score kills steve ≡ value_or_zero (one_board kills steve)
get_score_lem_example =
    get_score_lem memory-IsStore plain-IsJson one_score one_board kills steve one_Holds
      (omega arith)

top_n-Holds_example :
    (entries : List LeaderboardEntry) × ((limit offset : ℕ)
      → top_n memory plain_scores one_score kills (pos limit) (pos offset)
        ≡ ok (window limit offset entries))
    × Pairs Ranks entries
    × ((e : Bytes) (v : ℕ)
        → In (record { entity_id = e; value = v }) entries ↔ (one_board kills e ≡ some v))
top_n-Holds_example =
    top_n-Holds memory-IsStore plain-IsJson one_score one_board one_Holds kills (omega arith)

decode-encode_member_example :
    decode_member (encode_member (2 ^ 63 + two) steve)
    ≡ some (record { entity_id = steve; value = canonical (2 ^ 63 + two) })
unfolding not_finite
decode-encode_member_example =
    decode-encode_member (2 ^ 63 + two) steve (omega arith, refl) (omega arith)

encode_member_order_example : rank (canonical 0) ≤ rank (canonical two)
unfolding encode_member bytes_lt not_finite put_uint
encode_member_order_example =
    encode_member_order two 0 steve steve two-IsFloat64 (omega arith, refl) refl
