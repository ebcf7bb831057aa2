-- ===== src/Cluster/Replication/Frames.antt =====
-- The frames of a batch: they hold its records in order, and each is bounded.
use flamedb.Base.{
  ℕ, zero, suc, ◌+◌, ◌≤◌, ◌≡◌, refl, arith, some, List, [], ◌∷◌, ◌++◌, Bool-cases, inl, inr, ltb,
  length, ap, sym, ◌∙◌, All, All-append, append_assoc, subst, ◌<◌, append-nil, ◌⊎◌, length-append,
  ap₂,
}
use flamedb.Cluster.Replication.{ReplicationRecord, max_frame, cut_frame, send_frames}

-- What the records take in a frame: each query and a separator.
unfoldable pub frame_size : List ReplicationRecord → ℕ
frame_size [] = 0
frame_size (r ∷ records) = length r.query + 1 + frame_size records

-- A frame holds one record, or records that fit.
abbrev pub IsFrame : List ReplicationRecord → Type 0
IsFrame [] = ⊥
IsFrame (r ∷ []) = Unit
IsFrame (r ∷ s ∷ records) = frame_size (r ∷ s ∷ records) ≤ max_frame

abbrev pub concat : List (List ReplicationRecord) → List ReplicationRecord
concat [] = []
concat (f ∷ frames) = f ++ concat frames

cut_frame-append :
    (size : ℕ) (records : List ReplicationRecord)
    → (cut_frame size records).0 ++ (cut_frame size records).1 ≡ records
unfolding cut_frame
cut_frame-append size [] = refl
cut_frame-append size (r ∷ records) =
    let rest = cut_frame-append (size + length r.query + 1) records in ground (arith, rest)

cut_frame-fits :
    (size : ℕ) (records : List ReplicationRecord)
    → size ≤ max_frame
    → size + frame_size (cut_frame size records).0 ≤ max_frame
unfolding cut_frame frame_size
cut_frame-fits size [] h = omega (arith, h)
cut_frame-fits size (r ∷ records) h =
    elim (Bool-cases (ltb max_frame (size + length r.query + 1))) [
      | inl full ↦ rw full (omega (arith, h))
      | inr fits ↦ rw fits (
          let rest = cut_frame-fits (size + length r.query + 1) records (ground (arith, fits)) in
          omega (arith, rest))
    ]

-- A record too large for a frame is alone.
cut_frame-large :
    (size : ℕ) (records : List ReplicationRecord)
    → max_frame ≤ size
    → (cut_frame size records).0 ≡ []
unfolding cut_frame
cut_frame-large size [] h = refl
cut_frame-large size (r ∷ records) h = ground (arith, h)

IsFrame-fits :
    (r : ReplicationRecord) (front : List ReplicationRecord)
    → length r.query + 1 + frame_size front ≤ max_frame
    → IsFrame (r ∷ front)
unfolding frame_size
IsFrame-fits r [] h = tt
IsFrame-fits r (s ∷ front) h = h

front-IsFrame :
    (r : ReplicationRecord) (records : List ReplicationRecord)
    → IsFrame (r ∷ (cut_frame (length r.query + 1) records).0)
front-IsFrame r records = elim (Bool-cases (ltb max_frame (length r.query + 1))) [
  | inl large ↦
      subst (λ front. IsFrame (r ∷ front))
        (sym (cut_frame-large (length r.query + 1) records (ground (arith, large)))) tt
  | inr small ↦
      IsFrame-fits r (cut_frame (length r.query + 1) records).0
        (cut_frame-fits (length r.query + 1) records (ground (arith, small)))
]

concat-append : (a b : List (List ReplicationRecord)) → concat (a ++ b) ≡ concat a ++ concat b
concat-append [] b = refl
concat-append (f ∷ a) b =
    ap (λ rest. f ++ rest) (concat-append a b) ∙ sym (append_assoc f (concat a) (concat b))

rest_cases :
    (xs : List ReplicationRecord)
    → (xs ≡ []) ⊎ ((s : ReplicationRecord) × (more : List ReplicationRecord) × (xs ≡ s ∷ more))
rest_cases [] = inl refl
rest_cases (s ∷ more) = inr (s, more, refl)

-- With a fuel above the number of records, sendReplicationBatch ends; its frames hold the records
-- in order, and each frame is one record or records that take at most 8 MiB with their separators.
pub send_frames_lem :
    (fuel : ℕ) (records : List ReplicationRecord)
    → length records < fuel
    → (frames : List (List ReplicationRecord)) × (send_frames fuel records ≡ some frames)
      × (concat frames ≡ records)
      × All IsFrame frames
unfolding send_frames
send_frames_lem zero records h = absurd (omega arith)
send_frames_lem (suc fuel) [] h = ([], refl, refl, tt)
send_frames_lem (suc fuel) (r ∷ records) h =
    let cut = cut_frame (length r.query + 1) records in
    let whole = cut_frame-append (length r.query + 1) records in
    let framed = front-IsFrame r records in
    elim (rest_cases cut.1) [
      | inl none_left ↦
          let all : cut.0 ≡ records =
            sym (append-nil cut.0) ∙ ap (λ xs. cut.0 ++ xs) (sym none_left) ∙ whole in
          (
            (r ∷ records) ∷ [],
            ground (arith, none_left),
            append-nil (r ∷ records),
            (subst (λ xs. IsFrame (r ∷ xs)) all framed, tt),
          )
      | inr (s, more, left) ↦
          let halves : cut.0 ++ s ∷ more ≡ records = ap (λ xs. cut.0 ++ xs) (sym left) ∙ whole in
          let total : length cut.0 + suc (length more) ≡ length records =
            sym (length-append cut.0 (s ∷ more))
            ∙ ap (λ (xs : List ReplicationRecord). length xs) halves in
          let (first, at_first, in_first, ok_first) =
            send_frames_lem fuel (r ∷ cut.0) (omega (arith, h, total)) in
          let (second, at_second, in_second, ok_second) =
            send_frames_lem fuel (s ∷ more) (omega (arith, h, total)) in
          (
            first ++ second,
            ground (arith, left, at_first, at_second),
            concat-append first second
                ∙ ap₂ (λ (xs ys : List ReplicationRecord). xs ++ ys) in_first in_second
                ∙ ap (λ xs. r ∷ xs) halves,
            All-append IsFrame first second ok_first ok_second,
          )
    ]
