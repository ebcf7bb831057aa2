-- ===== src/Query/Tokenize/Plain.antt =====
-- Tokens: none is empty, and words that need no quotes come back from the line they are joined to.
use flamedb.Base.{
  ℕ, ◌≡◌, ◌≢◌, refl, Bool, true, false, ◌||◌, List, [], ◌∷◌, ◌++◌, arith, All, if◌then◌else◌, ◌==◌,
  ap, sym, append-nil, ◌∙◌, append_assoc,
}
use flamedb.Base.Bytes.{Bytes, codes}
use flamedb.Query.Tokenize.{tokenize, scan, flush, join, is_blank, quote}

-- No token of the list is empty.
unfoldable pub AllFull : List Bytes → Type 0
AllFull = All (λ t. t ≢ [])

flush-AllFull : (current : Bytes) (rest : List Bytes) → AllFull rest → AllFull (flush current rest)
unfolding AllFull
flush-AllFull [] rest h = h
flush-AllFull (c ∷ current) rest h = ((λ e. cc), h)

equals-AllFull : (rest : List Bytes) → AllFull rest → AllFull (codes "=" ∷ rest)
unfolding AllFull
equals-AllFull rest h = ((λ e. cc), h)

empty-AllFull : AllFull []
unfolding AllFull
empty-AllFull = tt

if-AllFull : (b : Bool) (x y : List Bytes) → AllFull x → AllFull y → AllFull (if b then x else y)
if-AllFull true x y hx hy = hx
if-AllFull false x y hx hy = hy

ruleset full = (flush-AllFull, equals-AllFull, empty-AllFull, if-AllFull)

scan-AllFull :
    (input current : Bytes) (in_quote escaped : Bool)
    → AllFull (scan input current in_quote escaped)
unfolding scan
scan-AllFull [] current in_quote escaped = flush-AllFull current [] empty-AllFull
scan-AllFull (ch ∷ input) current in_quote true =
    scan-AllFull input (current ++ ch ∷ []) in_quote false
scan-AllFull (ch ∷ input) current in_quote false = search (full, scan-AllFull input) depth 16

-- No token is empty.
pub tokenize-AllFull : (input : Bytes) → AllFull (tokenize input)
unfolding tokenize
tokenize-AllFull input = scan-AllFull input [] false false

-- A byte that the tokenizer passes on.
abbrev pub IsPlain : ℕ → Type 0
IsPlain c = (is_blank c || c == b'=' || c == quote) ≡ false

abbrev pub IsWord : Bytes → Type 0
IsWord w = (w ≢ []) × All IsPlain w

passes :
    (c : ℕ) (input current : Bytes)
    → IsPlain c
    → scan (c ∷ input) current false false ≡ scan input (current ++ c ∷ []) false false
unfolding scan
passes c input current h = ground arith

scan-plain :
    (w rest current : Bytes)
    → All IsPlain w
    → scan (w ++ rest) current false false ≡ scan rest (current ++ w) false false
scan-plain [] rest current h = ap (λ t. scan rest t false false) (sym (append-nil current))
scan-plain (c ∷ w) rest current (hc, h) =
    passes c (w ++ rest) current hc
    ∙ scan-plain w rest (current ++ c ∷ []) h
    ∙ ap (λ t. scan rest t false false) (append_assoc current (c ∷ []) w)

flush_full : (w : Bytes) (rest : List Bytes) → w ≢ [] → flush w rest ≡ w ∷ rest
flush_full [] rest h = absurd (h refl)
flush_full (c ∷ w) rest h = refl

words_back :
    (w : Bytes) (ws : List Bytes)
    → All IsWord (w ∷ ws)
    → scan (join (w ∷ ws)) [] false false ≡ w ∷ ws
unfolding join scan
words_back w [] ((ne, plain), h) =
    ap (λ t. scan t [] false false) (sym (append-nil w))
    ∙ scan-plain w [] [] plain
    ∙ flush_full w [] ne
words_back w (v ∷ ws) ((ne, plain), h) =
    scan-plain w (b' ' ∷ join (v ∷ ws)) [] plain
    ∙ flush_full w (scan (join (v ∷ ws)) [] false false) ne
    ∙ ap (λ l. w ∷ l) (words_back v ws h)

-- Nonempty words without blanks, quotes and equals signs come back from the line that joins them
-- with blanks.
pub tokenize-join : (ws : List Bytes) → All IsWord ws → tokenize (join ws) ≡ ws
unfolding tokenize join scan
tokenize-join [] h = refl
tokenize-join (w ∷ ws) h = words_back w ws h
