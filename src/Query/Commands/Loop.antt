-- ===== src/Query/Commands/Loop.antt =====
-- The loops `for i < len(tokens)` of Parse: rounds until no token is left.
use flamedb.Base.{ℕ, zero, suc, ◌≤◌, ◌≡◌, ◌≢◌, refl, Option, none, some, [], ◌∷◌, arith, length}
use flamedb.Base.Bytes.{Bytes}
use flamedb.Query.Commands.Text.{Tokens, Progress}
use flamedb.Query.Types.{Query, Result, ok, err}

abbrev pub Step : Type 0
Step = Query → Bytes → Tokens → Progress

-- `none` where the fuel runs out.
unfoldable pub run : Step → ℕ → Query → Tokens → Option (Result Query)
run step fuel q [] = some (ok q)
run step zero q (token ∷ rest) = none
run step (suc fuel) q (token ∷ rest) = elim (step q token rest) [
  | err e ↦ some (err e)
  | ok (q', rest') ↦ run step fuel q' rest'
]

abbrev pub settle : Option (Result Query) → Result Query
settle none = err []
settle (some r) = r

-- The loop with as much fuel as there are tokens.
unfoldable pub each_token : Step → Query → Tokens → Result Query
unfolding run
each_token step q tokens = settle (run step (length tokens) q tokens)

-- No round gives tokens back.
abbrev pub Consumes : Step → Type 0
Consumes step =
    (q : Query) (token : Bytes) (rest : Tokens) (q' : Query) (rest' : Tokens)
    → step q token rest ≡ ok (q', rest')
    → length rest' ≤ length rest

module _ (step : Step) (consumes : Consumes step) where
  run_total :
      (fuel : ℕ) (q : Query) (tokens : Tokens)
      → length tokens ≤ fuel
      → run step fuel q tokens ≢ none
  unfolding run
  run_total fuel q [] h = λ e. cc
  run_total zero q (token ∷ rest) h = absurd (omega arith)
  run_total (suc fuel) q (token ∷ rest) h = go (step q token rest) refl (run_total fuel)
    where
      go :
          (r : Progress)
          → step q token rest ≡ r
          → ((q' : Query) (ts : Tokens) → length ts ≤ fuel → run step fuel q' ts ≢ none)
          → run step (suc fuel) q (token ∷ rest) ≢ none
      go (err e) eq ih = λ n. cc (rw (eq, run) at n)
      go (ok (q', rest')) eq ih =
          λ n. ih q' rest' (omega (arith, consumes q token rest q' rest' eq)) (rw (eq, run) at n)

  -- The fuel suffices.
  pub run-ne-none : (q : Query) (tokens : Tokens) → run step (length tokens) q tokens ≢ none
  run-ne-none q tokens = run_total (length tokens) q tokens (omega arith)
