-- ===== src/Query/Commands/Ends.antt =====
-- The loops of Parse end: every round takes its token and gives none back.
use flamedb.Base.{
  ℕ, zero, suc, ◌≤◌, ◌≡◌, ◌≢◌, Bool, true, false, none, [], ◌∷◌, arith, length, if◌then◌else◌, ap,
}
use flamedb.Base.Bytes.{Bytes}
use flamedb.Query.Commands.Clauses.{where_clause, with_value}
use flamedb.Query.Commands.Loop.{Consumes, run, run-ne-none}
use flamedb.Query.Commands.Steps.{
  write_step, set_step, delete_step, read_step, group_step, write_pair, set_pair, delete_pair,
  group_by,
}
use flamedb.Query.Commands.Text.{Tokens, Progress}
use flamedb.Query.Tokenize.{token_value}
use flamedb.Query.Types.{Query, Result, ok, err, ◌>>=◌, Std}
use flamedb.Base.Map

abbrev left_over : Progress → ℕ
left_over (err e) = 0
left_over (ok (q, rest)) = length rest

-- A round leaves at most `n` tokens.
unfoldable Within : ℕ → Progress → Type 0
Within n r = left_over r ≤ n

err-Within : (n : ℕ) (e : Bytes) → Within n (err e)
unfolding Within
err-Within n e = omega arith

ok-Within : (n : ℕ) (q : Query) (rest : Tokens) → length rest ≤ n → Within n (ok (q, rest))
unfolding Within
ok-Within n q rest h = h

if-Within :
    (n : ℕ) (b : Bool) (x y : Progress) → Within n x → Within n y → Within n (if b then x else y)
if-Within n true x y hx hy = hx
if-Within n false x y hx hy = hy

bind-Within :
    {A : Type 0} (n : ℕ) (m : Result A) (f : A → Progress)
    → ((a : A) → Within n (f a))
    → Within n (m >>= f)
bind-Within n (err e) f h = err-Within n e
bind-Within n (ok a) f h = h a

abbrev Shrinks : Progress → Tokens → Type 0
Shrinks r rest = Within (length rest) r

Within-Consumes :
    (n : ℕ) (r : Progress)
    → Within n r
    → (q : Query) (rest : Tokens) → r ≡ ok (q, rest)
    → length rest ≤ n
unfolding Within
Within-Consumes n r h q rest e = omega (arith, h, ap left_over e)

one_less : (n : ℕ) → n ≤ suc n
one_less n = omega arith

two_less : (n : ℕ) → n ≤ suc (suc n)
two_less n = omega arith

three_less : (n : ℕ) → suc n ≤ suc (suc (suc (suc n)))
three_less n = omega arith

widen : (n : ℕ) (r : Progress) → Within n r → Within (suc (suc (suc (suc n)))) r
unfolding Within
widen n r h = omega (arith, h)

nothing_left : (n : ℕ) → zero ≤ n
nothing_left n = omega arith

same : (n : ℕ) → n ≤ n
same n = omega arith

ruleset ends =
    (err-Within, ok-Within, if-Within, bind-Within, one_less, two_less, nothing_left, same)

with_value-Within :
    (e : Bytes) (rest : Tokens) (f : Bytes → Result Query)
    → Within (length rest) (with_value e rest f)
with_value-Within e [] f = err-Within _ e
with_value-Within e (v ∷ rest) f = search ends

module _ (std : Std) where
  write_pair-Within :
      (q : Query) (key : Bytes) (rest : Tokens) → Within (length rest) (write_pair std q key rest)
  write_pair-Within q key [] = search ends
  write_pair-Within q key (eq ∷ []) = search ends
  write_pair-Within q key (eq ∷ value ∷ rest) = search ends

  set_pair-Within :
      (q : Query) (key : Bytes) (rest : Tokens) → Within (length rest) (set_pair std q key rest)
  set_pair-Within q key [] = search ends
  set_pair-Within q key (eq ∷ []) = search ends
  set_pair-Within q key (eq ∷ value ∷ rest) = search ends

  delete_pair-Within :
      (q : Query) (key : Bytes) (rest : Tokens) → Within (length rest) (delete_pair std q key rest)
  delete_pair-Within q key [] = search ends
  delete_pair-Within q key (eq ∷ []) = search ends
  delete_pair-Within q key (eq ∷ value ∷ rest) = search ends

  group_by-Within : (q : Query) (rest : Tokens) → Within (length rest) (group_by std q rest)
  group_by-Within q [] = search ends
  group_by-Within q (by ∷ []) = search ends
  group_by-Within q (by ∷ value ∷ rest) = search ends

  write_step-Consumes : Consumes (write_step std)
  unfolding write_step
  write_step-Consumes q key rest = Within-Consumes _ _ (search (ends, write_pair-Within q key rest))

  set_step-Consumes : Consumes (set_step std)
  unfolding set_step
  set_step-Consumes q key rest = Within-Consumes _ _ (search (ends, set_pair-Within q key rest))

  where_clause-Within :
      (missing : Bytes) (no_equals : Bytes → Bytes) (is_and : Bytes → Bool) (q : Query)
      (rest : Tokens)
      → Within (length rest) (where_clause std missing no_equals is_and q rest)
  unfolding where_clause
  where_clause-Within missing no_equals is_and q [] = search ends
  where_clause-Within missing no_equals is_and q (key ∷ []) = search ends
  where_clause-Within missing no_equals is_and q (key ∷ eq ∷ []) = search ends
  where_clause-Within missing no_equals is_and q (key ∷ eq ∷ value ∷ []) = search ends
  where_clause-Within missing no_equals is_and q (key ∷ eq ∷ value ∷ next ∷ rest) =
      let q' = record q { conditions = Map.set q.conditions key (token_value std value) } in
      let more = widen _ _ (where_clause-Within missing no_equals is_and q' rest) in
      if-Within _ _ _ _ (if-Within _ _ _ _ more (ok-Within _ _ _ (three_less (length rest))))
        (err-Within _ _)

  delete_step-Consumes : Consumes (delete_step std)
  unfolding delete_step
  delete_step-Consumes q key rest = Within-Consumes _ _ (
      search (ends, where_clause-Within, with_value-Within, delete_pair-Within q key rest) depth 24)

  read_step-Consumes : Consumes (read_step std)
  unfolding read_step
  read_step-Consumes q key rest =
      Within-Consumes _ _
        (search (ends, where_clause-Within, with_value-Within, group_by-Within q rest) depth 24)

  group_step-Consumes : Consumes (group_step std)
  unfolding group_step
  group_step-Consumes q key rest = Within-Consumes _ _ (search (ends, with_value-Within) depth 24)

  -- The loops of WRITE, SET, DELETE, GET, LEADERBOARD and GROUP_LEADERBOARD come to an end, with a
  -- query or with an error, in at most one round per token.
  pub loops_end :
      (q : Query) (tokens : Tokens)
      → (run (write_step std) (length tokens) q tokens ≢ none)
        × (run (set_step std) (length tokens) q tokens ≢ none)
        × (run (delete_step std) (length tokens) q tokens ≢ none)
        × (run (read_step std) (length tokens) q tokens ≢ none)
        × (run (group_step std) (length tokens) q tokens ≢ none)
  loops_end q tokens = (
    run-ne-none _ write_step-Consumes q tokens,
    run-ne-none _ set_step-Consumes q tokens,
    run-ne-none _ delete_step-Consumes q tokens,
    run-ne-none _ read_step-Consumes q tokens,
    run-ne-none _ group_step-Consumes q tokens,
  )
