-- ===== src/Query/Tokenize.antt =====
-- tokenize and tokenValue of internal/query/parser.go. The texts are those of valid UTF-8, where a
-- byte that equals a delimiter is one.
pub mod Plain
use flamedb.Base.{
  ℕ, ◌≡◌, ◌≢◌, refl, Bool, true, false, ◌&&◌, ◌||◌, not, Option, none, some, List, [], ◌∷◌, ◌++◌,
  arith, ◌==◌, if◌then◌else◌, All, length,
}
use flamedb.Base.Bytes.{Bytes, codes, has_prefix}
use flamedb.Query.Types.{Std}

-- The builder `current` comes out as a token if it holds anything.
abbrev pub flush : Bytes → List Bytes → List Bytes
flush [] rest = rest
flush (c ∷ current) rest = (c ∷ current) ∷ rest

abbrev pub is_blank : ℕ → Bool
is_blank ch = ch == b' ' || ch == 0x0a || ch == 0x09

abbrev pub quote : ℕ
quote = 0x22

abbrev pub backslash : ℕ
backslash = 0x5c

-- The loop: what is left of the input, the builder, and the two flags.
unfoldable pub scan : Bytes → Bytes → Bool → Bool → List Bytes
scan [] current in_quote escaped = flush current []
scan (ch ∷ input) current in_quote true = scan input (current ++ ch ∷ []) in_quote false
scan (ch ∷ input) current in_quote false =
    let escape = scan input (current ++ ch ∷ []) in_quote true in
    let literal = scan input (current ++ ch ∷ []) in_quote false in
    let toggled = scan input (current ++ ch ∷ []) (not in_quote) false in
    let restart = scan input [] in_quote false in
    if in_quote && ch == backslash
    then escape
    else if ch == quote
    then toggled
    else if is_blank ch && not in_quote
    then flush current restart
    else if ch == b'=' && not in_quote
    then flush current (codes "=" ∷ restart)
    else literal

unfoldable pub tokenize : Bytes → List Bytes
unfolding scan
tokenize input = scan input [] false false

abbrev value_or : Bytes → Option Bytes → Bytes
value_or token none = token
value_or token (some value) = value

unfoldable pub token_value : Std → Bytes → Bytes
unfolding has_prefix
token_value std token =
    if has_prefix token (quote ∷ []) then value_or token (std.unquote token) else token

-- strings.Join with a blank
unfoldable pub join : List Bytes → Bytes
join [] = []
join (t ∷ []) = t
join (t ∷ ts) = t ++ b' ' ∷ join ts
