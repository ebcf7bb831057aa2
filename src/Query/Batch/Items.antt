-- ===== src/Query/Batch/Items.antt =====
-- What a parsed batch holds.
use flamedb.Base.{
  In, false, if◌then◌else◌, ℕ, suc, ◌+◌, ◌≤◌, ◌<◌, ◌≡◌, refl, true, List, [], ◌∷◌, arith, All,
  length, Bool-cases, inl, inr,
}
use flamedb.Base.Bytes.{Bytes}
use flamedb.Query.Batch.{
  BatchItemError, Batch, is_write, reject, take_item, parse_lines, parse_write_batch,
}
use flamedb.Query.Parse.{parse}
use flamedb.Query.Parse.Valid.{parse-IsValid}
use flamedb.Query.Types.{QueryType, Query, Result, ok, err, Std}
use flamedb.Query.Validate.{is_empty}
use flamedb.Query.Validate.Valid.{IsValid}

-- The indices go up, from `i` on, and stay below `n`.
abbrev pub Ascending : ℕ → ℕ → List BatchItemError → Type 0
Ascending i n [] = Unit
Ascending i n (e ∷ es) = (i ≤ e.index) × (e.index < n) × Ascending (suc e.index) n es

-- How many lines are not blank.
unfoldable pub filled : Std → List Bytes → ℕ
filled std [] = 0
filled std (line ∷ lines) =
    let rest = filled std lines in if is_empty (std.trim_space line) then rest else suc rest

-- A line is read as this query.
abbrev pub IsLineOf : Std → List Bytes → Query → Type 0
IsLineOf std lines q = (line : Bytes) × In line lines × (parse std (std.trim_space line) ≡ ok q)

-- A batch is read from line `i` on: what comes out are valid writes, each of one of the lines, and
-- errors at lines of the batch; each line that is not blank counts once.
pub record IsRead (std : Std) (i : ℕ) (lines : List Bytes) (b : Batch) : Type 0 where
  pub writes :
      All (λ (q : Query). IsValid q × (q.type ≡ QueryType.write) × IsLineOf std lines q) b.0
  pub errors : Ascending i (i + length lines) b.1
  pub accounted : length b.0 + length b.1 ≡ filled std lines

Ascending-from : (i n : ℕ) (es : List BatchItemError) → Ascending (suc i) n es → Ascending i n es
Ascending-from i n [] h = tt
Ascending-from i n (e ∷ es) (a, b, c) = (omega (arith, a), b, c)

Ascending-to : (i n m : ℕ) (es : List BatchItemError) → n ≤ m → Ascending i n es → Ascending i m es
Ascending-to i n m [] h a = tt
Ascending-to i n m (e ∷ es) h (a, b, c) =
    (a, omega (arith, b, h), Ascending-to (suc e.index) n m es h c)

later_lines :
    (std : Std) (line : Bytes) (lines : List Bytes) (queries : List Query)
    → All (λ (q : Query). IsValid q × (q.type ≡ QueryType.write) × IsLineOf std lines q) queries
    → All
        (λ (q : Query). IsValid q × (q.type ≡ QueryType.write) × IsLineOf std (line ∷ lines) q)
        queries
later_lines std line lines [] h = tt
later_lines std line lines (q ∷ queries) ((valid, write, (found, i, read)), h) =
    ((valid, write, (found, inr i, read)), later_lines std line lines queries h)

is_write-write : (t : QueryType) → is_write t ≡ true → t ≡ QueryType.write
is_write-write QueryType.write h = refl
is_write-write QueryType.metrics h = absurd (cc)
is_write-write QueryType.get h = absurd (cc)
is_write-write QueryType.leaderboard h = absurd (cc)
is_write-write QueryType.set h = absurd (cc)
is_write-write QueryType.delete h = absurd (cc)
is_write-write QueryType.stats h = absurd (cc)
is_write-write QueryType.group_leaderboard h = absurd (cc)
is_write-write QueryType.rank h = absurd (cc)
is_write-write QueryType.score h = absurd (cc)
is_write-write QueryType.around h = absurd (cc)
is_write-write QueryType.leaderboard_count h = absurd (cc)

module _ (std : Std) (line : Bytes) (lines : List Bytes) (i : ℕ) (b : Batch) where
  later_errors :
      Ascending (suc i) (suc i + length lines) b.1
      → Ascending (suc i) (i + length (line ∷ lines)) b.1
  later_errors h = Ascending-to (suc i) _ _ b.1 (omega arith) h

  skip-IsRead :
      is_empty (std.trim_space line) ≡ true
      → IsRead std (suc i) lines b
      → IsRead std i (line ∷ lines) b
  unfolding filled
  skip-IsRead blank r = record {
    writes = later_lines std line lines b.0 r.writes;
    errors = Ascending-from i _ b.1 (later_errors r.errors);
    accounted = rw blank r.accounted;
  }

  reject-IsRead :
      (m : Bytes)
      → is_empty (std.trim_space line) ≡ false
      → IsRead std (suc i) lines b
      → IsRead std i (line ∷ lines) (reject i m b)
  unfolding filled
  reject-IsRead m full r = record {
    writes = later_lines std line lines b.0 r.writes;
    errors = (omega arith, omega arith, later_errors r.errors);
    accounted = rw full (omega (arith, r.accounted));
  }

  take_item-IsRead :
      is_empty (std.trim_space line) ≡ false
      → IsRead std (suc i) lines b
      → (r : Result Query) → parse std (std.trim_space line) ≡ r
      → IsRead std i (line ∷ lines) (take_item i r b)
  unfolding filled
  take_item-IsRead full h (err e) eq = reject-IsRead e full h
  take_item-IsRead full h (ok q) eq = elim (Bool-cases (is_write q.type)) [
    | inl write ↦ rw write record {
      writes = (
        (
          parse-IsValid std (std.trim_space line) q eq,
          is_write-write q.type write,
          (line, inl refl, eq),
        ),
        later_lines std line lines b.0 h.writes,
      );
      errors = Ascending-from i _ b.1 (later_errors h.errors);
      accounted = rw full (omega (arith, h.accounted));
    }
    | inr other ↦ rw other (reject-IsRead _ full h)
  ]

parse_lines-IsRead :
    (std : Std) (i : ℕ) (lines : List Bytes) → IsRead std i lines (parse_lines std i lines)
unfolding parse_lines filled
parse_lines-IsRead std i [] = record { writes = tt; errors = tt; accounted = omega arith }
parse_lines-IsRead std i (line ∷ lines) =
    let rest = parse_lines-IsRead std (suc i) lines in
    elim (Bool-cases (is_empty (std.trim_space line))) [
      | inl blank ↦ rw blank (skip-IsRead std line lines i _ blank rest)
      | inr full ↦
          rw full
            (take_item-IsRead std line lines i _ full rest (parse std (std.trim_space line)) refl)
    ]

-- ParseWriteBatch returns valid WRITE queries alone, each read from one of the lines; its errors
-- name lines of the batch in ascending order, each at most once; there are as many queries and
-- errors as lines that are not blank.
pub parse_write_batch-IsRead :
    (std : Std) (lines : List Bytes) → IsRead std 0 lines (parse_write_batch std lines)
unfolding parse_write_batch
parse_write_batch-IsRead std lines = parse_lines-IsRead std 0 lines
