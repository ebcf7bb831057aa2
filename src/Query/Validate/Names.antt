-- ===== src/Query/Validate/Names.antt =====
-- The names that a validated query may hold, and that the checks of validateQuery let no other pass.
use flamedb.Base.{
  ℕ, ◌≡◌, ◌≢◌, inl, inr, Bool, false, ◌||◌, none, List, [], ◌∷◌, arith, Bool-cases, All, ◌==◌,
}
use flamedb.Base.Bytes.{bytes_eq-apart, Bytes, codes, contains_any, contains_byte}
use flamedb.Base.Map.{Map}
use flamedb.Query.Validate.{
  bad_metric, first_bad_metric, reserved_metric, any_bad_key, any_bad_board, is_empty,
  key_delimiters, board_delimiters,
}

-- No byte of the text is one of `set`.
abbrev pub FreeOf : Bytes → Bytes → Type 0
FreeOf set s = All (λ c. All (λ d. d ≢ c) set) s

-- The first parts of the keys of the other families.
abbrev pub family_names : List Bytes
family_names =
    codes "idx"
    ∷ codes "lb"
    ∷ codes "lb-entity"
    ∷ codes "card"
    ∷ codes "card-count"
    ∷ codes "repl-applied"
    ∷ codes "repl-outbox"
    ∷ []

-- The name of a metric: neither empty nor that of a family of keys, without a comma, an equals sign,
-- a quote, a blank, a tab or a line break.
pub record IsMetricName (m : Bytes) : Type 0 where
  pub named : m ≢ []
  pub plain : FreeOf (0x2c ∷ 0x3d ∷ 0x22 ∷ 0x20 ∷ 0x09 ∷ 0x0d ∷ 0x0a ∷ []) m
  pub free : All (λ f. m ≢ f) family_names

-- The key of a tag.
pub record IsTagKey (k : Bytes) : Type 0 where
  pub named : k ≢ []
  pub plain : FreeOf (0x3d ∷ 0x22 ∷ 0x20 ∷ 0x09 ∷ []) k

-- The name of a board.
abbrev pub IsBoard : Bytes → Type 0
IsBoard = FreeOf (0x3a ∷ 0x3d ∷ 0x22 ∷ 0x20 ∷ 0x09 ∷ 0x1f ∷ [])

abbrev pub Entity : Bytes × Bytes → Type 0
Entity (board, entity) = (board ≢ []) × IsBoard board × (entity ≢ [])

either_false : (a b : Bool) → (a || b) ≡ false → (a ≡ false) × (b ≡ false)
either_false a b h = ground arith

apart_nat : (a b : ℕ) → (a == b) ≡ false → a ≢ b
apart_nat a b h e = ground (arith, h, e)

contains_byte-apart : (set : Bytes) (c : ℕ) → contains_byte set c ≡ false → All (λ d. d ≢ c) set
unfolding contains_byte
contains_byte-apart [] c h = tt
contains_byte-apart (d ∷ set) c h =
    let (here, rest) = either_false (d == c) _ h in
    (apart_nat d c here, contains_byte-apart set c rest)

pub contains_any-FreeOf : (s set : Bytes) → contains_any s set ≡ false → FreeOf set s
unfolding contains_any
contains_any-FreeOf [] set h = tt
contains_any-FreeOf (c ∷ s) set h =
    let (here, rest) = either_false (contains_byte set c) _ h in
    (contains_byte-apart set c here, contains_any-FreeOf s set rest)

pub is_empty-named : {A : Type 0} (l : List A) → is_empty l ≡ false → l ≢ []
is_empty-named [] h e = cc
is_empty-named (c ∷ l) h e = cc

three_false : (a b c : Bool) → (a || b || c) ≡ false → (a ≡ false) × (b ≡ false) × (c ≡ false)
three_false a b c h = ground arith

reserved_metric-free : (m : Bytes) → reserved_metric m ≡ false → All (λ f. m ≢ f) family_names
unfolding reserved_metric
reserved_metric-free m h =
    let (front, outbox) = either_false _ _ h in
    let (most, applied) = either_false _ _ front in
    let (few, count) = either_false _ _ most in
    let (first, card) = either_false _ _ few in
    let (idx, lb, entity) = three_false _ _ _ first in
    (
      bytes_eq-apart m _ idx,
      (
        bytes_eq-apart m _ lb,
        (
          bytes_eq-apart m _ entity,
          (
            bytes_eq-apart m _ card,
            (
              bytes_eq-apart m _ count,
              (bytes_eq-apart m _ applied, (bytes_eq-apart m _ outbox, tt)),
            ),
          ),
        ),
      ),
    )

pub bad_metric-IsMetricName : (m : Bytes) → bad_metric m ≡ false → IsMetricName m
unfolding bad_metric
bad_metric-IsMetricName m h =
    let (full, plain, free) = three_false (is_empty m) (contains_any m _) _ h in
    record {
      named = is_empty-named m full;
      plain = contains_any-FreeOf m _ plain;
      free = reserved_metric-free m free;
    }

pub first_bad_metric-names : (ms : List Bytes) → first_bad_metric ms ≡ none → All IsMetricName ms
unfolding first_bad_metric
first_bad_metric-names [] h = tt
first_bad_metric-names (m ∷ ms) h = elim (Bool-cases (bad_metric m)) [
  | inl bad ↦ absurd (cc (rw bad at h))
  | inr good ↦ (bad_metric-IsMetricName m good, first_bad_metric-names ms (rw good at h))
]

pub any_bad_key-keys : (m : Map Bytes) → any_bad_key m ≡ false → All (λ t. IsTagKey t.0) m
unfolding any_bad_key
any_bad_key-keys [] h = tt
any_bad_key-keys ((k, v) ∷ m) h =
    let (full, plain, rest) = three_false (is_empty k) (contains_any k key_delimiters) _ h in
    (
      record { named = is_empty-named k full; plain = contains_any-FreeOf k _ plain },
      any_bad_key-keys m rest,
    )

pub any_bad_board-entities : (m : Map Bytes) → any_bad_board m ≡ false → All Entity m
unfolding any_bad_board
any_bad_board-entities [] h = tt
any_bad_board-entities ((board, entity) ∷ m) h =
    let (front, rest) = either_false _ (any_bad_board m) h in
    let (full, plain, there) =
      three_false (is_empty board) (contains_any board board_delimiters) (is_empty entity) front in
    (
      (is_empty-named board full, contains_any-FreeOf board _ plain, is_empty-named entity there),
      any_bad_board-entities m rest,
    )
