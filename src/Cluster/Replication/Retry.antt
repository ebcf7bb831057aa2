-- ===== src/Cluster/Replication/Retry.antt =====
-- The attempts to deliver a line to a replica.
use flamedb.Base.{
  ℕ, suc, ◌*◌, ◌≤◌, ◌≡◌, ◌≢◌, refl, sym, subst, ap, ◌⊎◌, inl, inr, Bool, true, false, Option, none,
  some, List, [], ◌∷◌, ◌++◌, if◌then◌else◌, All, length, leb, arith, Bool-cases,
}
use flamedb.Base.Bytes.{Bytes}
use flamedb.Cluster.Replication.{
  Attempt, Reply, is_delivered, next_delay, send_line, max_delay, initial_delay,
}
use flamedb.Query.Types.{Result, ok, err}

-- The waits double, up to a second.
abbrev pub Doubling : ℕ → List ℕ → Type 0
Doubling d [] = Unit
Doubling d (w ∷ waits) =
    (w ≡ d) × Doubling (if leb (d * 2) 1000000000 then d * 2 else 1000000000) waits

module _ (decode : Bytes → Option Reply) where
  -- A reply that is read and holds neither an error nor that it is not ok.
  abbrev pub IsTaken : Result Bytes → Type 0
  IsTaken sent =
      (reply : Bytes) × (r : Reply) × (sent ≡ ok reply)
      × (decode reply ≡ some r)
      × ((r.error ≡ none) ⊎ (r.error ≡ some []))
      × (r.ok ≢ some false)

  -- No reply, or one that cannot be read, holds an error or says that it is not ok.
  abbrev pub IsRefused : Result Bytes → Type 0
  IsRefused sent =
      ((e : Bytes) × (sent ≡ err e))
      ⊎ ((reply : Bytes) × (sent ≡ ok reply)
          × ((decode reply ≡ none)
              ⊎ ((r : Reply) × (decode reply ≡ some r)
                  × (((e : Bytes) × (r.error ≡ some e) × (e ≢ [])) ⊎ (r.ok ≡ some false)))))

  abbrev Verdict : Result Bytes → Type 0
  Verdict sent =
      (IsTaken sent × (is_delivered decode sent ≡ true))
      ⊎ (IsRefused sent × (is_delivered decode sent ≡ false))

  read-Verdict :
      (reply : Bytes) (r : Reply) (error : Option Bytes) (fine : Option Bool)
      → decode reply ≡ some r
      → r.error ≡ error
      → r.ok ≡ fine
      → Verdict (ok reply)
  read-Verdict reply r none none d e f =
      inl ((reply, r, refl, d, inl e, λ g. cc (f, g)), rw (d, e, f) refl)
  read-Verdict reply r none (some true) d e f =
      inl ((reply, r, refl, d, inl e, λ g. cc (f, g)), rw (d, e, f) refl)
  read-Verdict reply r none (some false) d e f =
      inr (inr (reply, refl, inr (r, d, inr f)), rw (d, e, f) refl)
  read-Verdict reply r (some []) none d e f =
      inl ((reply, r, refl, d, inr e, λ g. cc (f, g)), rw (d, e, f) refl)
  read-Verdict reply r (some []) (some true) d e f =
      inl ((reply, r, refl, d, inr e, λ g. cc (f, g)), rw (d, e, f) refl)
  read-Verdict reply r (some []) (some false) d e f =
      inr (inr (reply, refl, inr (r, d, inr f)), rw (d, e, f) refl)
  read-Verdict reply r (some (c ∷ message)) fine d e f =
      inr (inr (reply, refl, inr (r, d, inl (c ∷ message, e, λ g. cc))), rw (d, e) refl)

  verdict : (sent : Result Bytes) → Verdict sent
  verdict (err e) = inr (inl (e, refl), refl)
  verdict (ok reply) = by_reply (decode reply) refl
    where
      by_reply : (o : Option Reply) → decode reply ≡ o → Verdict (ok reply)
      by_reply none d = inr (inr (reply, refl, inl d), rw d refl)
      by_reply (some r) d = read-Verdict reply r r.error r.ok d refl refl

  -- How the attempts end: with one that is taken; with a wait that is cut short; or not yet.
  abbrev pub Ending : ℕ → List Attempt → Option Bool × List ℕ → Type 0
  Ending n rest (result, waits) =
      ((a : Attempt) × (more : List Attempt) × (rest ≡ a ∷ more)
        × IsTaken a.reply
        × (result ≡ some true)
        × (length waits ≡ n))
      ⊎ ((a : Attempt) × (more : List Attempt) × (rest ≡ a ∷ more)
          × IsRefused a.reply
          × (a.closing ≡ true)
          × (result ≡ some false)
          × (length waits ≡ suc n))
      ⊎ ((rest ≡ []) × (result ≡ none) × (length waits ≡ n))

  abbrev pub IsSent : List Attempt → Option Bool × List ℕ → Type 0
  IsSent attempts p =
      (front : List Attempt) × (rest : List Attempt) × (attempts ≡ front ++ rest)
      × All (λ (a : Attempt). IsRefused a.reply × (a.closing ≡ false)) front
      × Ending (length front) rest p

  later-Ending :
      (n d : ℕ) (rest : List Attempt) (p : Option Bool × List ℕ)
      → Ending n rest p
      → Ending (suc n) rest (p.0, d ∷ p.1)
  later-Ending n d rest p (inl (a, more, e, t, r, l)) = inl (a, more, e, t, r, ap suc l)
  later-Ending n d rest p (inr (inl (a, more, e, t, c, r, l))) =
      inr (inl (a, more, e, t, c, r, ap suc l))
  later-Ending n d rest p (inr (inr (e, r, l))) = inr (inr (e, r, ap suc l))

  send_taken :
      (d : ℕ) (a : Attempt) (attempts : List Attempt)
      → is_delivered decode a.reply ≡ true
      → send_line decode d (a ∷ attempts) ≡ (some true, [])
  unfolding send_line
  send_taken d a attempts h = rw h refl

  send_closed :
      (d : ℕ) (a : Attempt) (attempts : List Attempt)
      → is_delivered decode a.reply ≡ false
      → a.closing ≡ true
      → send_line decode d (a ∷ attempts) ≡ (some false, d ∷ [])
  unfolding send_line
  send_closed d a attempts h c = rw (h, c) refl

  send_again :
      (d : ℕ) (a : Attempt) (attempts : List Attempt)
      → is_delivered decode a.reply ≡ false
      → a.closing ≡ false
      → send_line decode d (a ∷ attempts) ≡ (
        (send_line decode (next_delay d) attempts).0,
        d ∷ (send_line decode (next_delay d) attempts).1,
      )
  unfolding send_line
  send_again d a attempts h c = rw (h, c) refl

  send_line-IsSent :
      (d : ℕ) (attempts : List Attempt) → IsSent attempts (send_line decode d attempts)
  unfolding send_line
  send_line-IsSent d [] = ([], [], refl, tt, inr (inr (refl, refl, refl)))
  send_line-IsSent d (a ∷ attempts) = elim (verdict a.reply) [
    | inl (t, delivered) ↦
        subst (λ p. IsSent (a ∷ attempts) p) (sym (send_taken d a attempts delivered))
          ([], a ∷ attempts, refl, tt, inl (a, attempts, refl, t, refl, refl))
    | inr (t, refused) ↦ elim (Bool-cases a.closing) [
      | inl closing ↦
          subst (λ p. IsSent (a ∷ attempts) p) (sym (send_closed d a attempts refused closing))
            ([], a ∷ attempts, refl, tt, inr (inl (a, attempts, refl, t, closing, refl, refl)))
      | inr waiting ↦
          let (front, rest, same, all, ending) = send_line-IsSent (next_delay d) attempts in
          subst (λ p. IsSent (a ∷ attempts) p) (sym (send_again d a attempts refused waiting))
            (
              a ∷ front,
              rest,
              ap (λ l. a ∷ l) same,
              ((t, waiting), all),
              later-Ending (length front) d rest (send_line decode (next_delay d) attempts) ending,
            )
    ]
  ]

  next_delay-doubled :
      (d : ℕ)
      → d ≤ max_delay
      → next_delay d ≡ (if leb (d * 2) 1000000000 then d * 2 else 1000000000)
  unfolding next_delay
  next_delay-doubled d h = ground (arith, h)

  next_delay-bound : (d : ℕ) → d ≤ max_delay → next_delay d ≤ max_delay
  unfolding next_delay
  next_delay-bound d h = ground (arith, h)

  send_line-Doubling :
      (d : ℕ) (attempts : List Attempt) → d ≤ max_delay → Doubling d (send_line decode d attempts).1
  unfolding send_line
  send_line-Doubling d [] h = tt
  send_line-Doubling d (a ∷ attempts) h = elim (Bool-cases (is_delivered decode a.reply)) [
    | inl delivered ↦ rw delivered tt
    | inr refused ↦ elim (Bool-cases a.closing) [
      | inl closing ↦ rw (refused, closing) (refl, tt)
      | inr waiting ↦
          rw (refused, waiting, ← next_delay-doubled d h)
            (refl, send_line-Doubling (next_delay d) attempts (next_delay-bound d h))
    ]
  ]

  -- A line is delivered with the first attempt whose reply is read and holds neither an error nor
  -- that it is not ok, and given up where the cluster ends in a wait before; until then every
  -- attempt is followed by one wait. The waits are ten milliseconds at first and double up to a
  -- second.
  pub send_line_lem :
      (attempts : List Attempt)
      → IsSent attempts (send_line decode initial_delay attempts)
        × Doubling 10000000 (send_line decode initial_delay attempts).1
  send_line_lem attempts = (
    send_line-IsSent initial_delay attempts,
    send_line-Doubling initial_delay attempts (omega arith),
  )
