-- ===== src/Server/Batch/Limits.antt =====
-- The limits of a batch.
use flamedb.Base.{
  ℕ, ◌+◌, ◌≤◌, ◌≡◌, ◌||◌, List, [], ◌∷◌, ◌++◌, length, length-append, leb, ltb, arith, Bool-cases,
  inl, inr, subst,
}
use flamedb.Base.Bytes.{Bytes, codes}
use flamedb.Cluster.Route.{is_text}
use flamedb.Query.Types.{Std}
use flamedb.Server.Batch.{buffer_limit, Received, complete, exceeded, incomplete, receive}

unfoldable pub total_size : List Bytes → ℕ
total_size [] = 0
total_size (line ∷ lines) = length line + total_size lines

total_size-append :
    (lines more : List Bytes) → total_size (lines ++ more) ≡ total_size lines + total_size more
unfolding total_size
total_size-append [] more = omega arith
total_size-append (line ∷ lines) more = omega (arith, total_size-append lines more)

size_more :
    (lines : List Bytes) (line : Bytes)
    → total_size (lines ++ line ∷ []) ≡ total_size lines + length line
unfolding total_size
size_more lines line = omega (arith, total_size-append lines (line ∷ []))

size_fits :
    (lines : List Bytes) (line : Bytes) (bytes : ℕ)
    → total_size lines + length line ≤ bytes
    → total_size (lines ++ line ∷ []) ≤ bytes
size_fits lines line bytes h = omega (arith, size_more lines line)

-- The lines and their size are within the limits, and what follows was behind them.
abbrev IsWithin : ℕ → ℕ → Received → Type 0
IsWithin entries bytes (complete lines rest) = (length lines ≤ entries) × (total_size lines ≤ bytes)
IsWithin entries bytes (exceeded rest) = Unit
IsWithin entries bytes incomplete = Unit

module _ (std : Std) (entries bytes : ℕ) where
  receive-IsWithin :
      (lines texts : List Bytes)
      → length lines ≤ entries
      → total_size lines ≤ bytes
      → IsWithin entries bytes (receive std entries bytes lines (total_size lines) texts)
  unfolding receive
  receive-IsWithin lines [] few small = tt
  receive-IsWithin lines (text ∷ texts) few small =
      let line = std.trim_space text in
      elim (Bool-cases (leb (buffer_limit bytes) (length text))) [
        | inl long ↦ rw long tt
        | inr short ↦ elim (Bool-cases (std.equal_fold line (codes "END"))) [
          | inl end ↦ rw (short, end) (few, small)
          | inr more ↦ elim (Bool-cases (is_text line)) [
            | inr blank ↦ rw (short, more, blank) (receive-IsWithin lines texts few small)
            | inl some_text ↦
                elim (Bool-cases
                  (leb entries (length lines) || ltb bytes (total_size lines + length line))) [
                    | inl too_much ↦ rw (short, more, some_text, too_much) tt
                    | inr fits ↦
                        rw (short, more, some_text, fits)
                          (subst
                            (λ n.
                              IsWithin entries bytes
                                (receive std entries bytes (lines ++ line ∷ []) n texts))
                            (size_more lines line)
                            (receive-IsWithin (lines ++ line ∷ []) texts
                              (ground (arith, fits, length-append {0} lines (line ∷ [])))
                              (size_fits lines line bytes (ground (arith, fits)))))
                  ]
          ]
        ]
      ]

  -- The lines of a batch that is executed are at most as many, and take at most as many bytes, as the
  -- limits allow.
  pub receive_lem :
      (texts lines rest : List Bytes)
      → receive std entries bytes [] 0 texts ≡ complete lines rest
      → (length lines ≤ entries) × (total_size lines ≤ bytes)
  receive_lem texts lines rest h =
      subst (λ r. IsWithin entries bytes r) h
        (unfold total_size in receive-IsWithin [] texts (omega arith) (omega arith))
