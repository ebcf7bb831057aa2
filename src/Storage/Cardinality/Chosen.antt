-- ===== src/Storage/Cardinality/Chosen.antt =====
-- Which tag BestIndexTag chooses.
use flamedb.Base.{
  ℕ, ◌≤◌, ◌≡◌, refl, ◌⊎◌, inl, inr, false, [], ◌∷◌, In, All, Bool-cases, arith, ltb, ◌==◌, ◌&&◌,
  ◌||◌, sym, ap, subst,
}
use flamedb.Base.Bytes.{Bytes}
use flamedb.Base.Map.{Map}
use flamedb.Base.Words.{bytes_lt}
use flamedb.Storage.Cardinality.{Best, is_unset, better, best_from, none_yet, best_index_tag}

module _ (cardinality : Bytes → ℕ) where
  -- The tag `b` was chosen among `seen`, or nothing was seen and nothing chosen.
  record Chosen (b : Best) (seen : Map Bytes) : Type 0 where
    named : is_unset b.key ≡ false
    counted : b.card ≡ cardinality b.key
    member : In (b.key, b.value) seen
    greatest : (k v : Bytes) → In (k, v) seen → cardinality k ≤ b.card

  better-Chosen :
      (b : Best) (seen : Map Bytes) (k v : Bytes)
      → is_unset k ≡ false
      → Chosen b seen
      → Chosen (better cardinality b k v) ((k, v) ∷ seen)
  better-Chosen b seen k v full c =
      elim (Bool-cases (
        is_unset b.key
        || ltb b.card (cardinality k)
        || (cardinality k == b.card && bytes_lt k b.key))) [
          | inl new ↦ rw new record {
            named = full;
            counted = refl;
            member = inl refl;
            greatest = λ j w i. elim i [
              | inl e ↦ omega (arith, ap (λ (p : Bytes × Bytes). cardinality p.0) e)
              | inr old ↦ ground (arith, c.greatest j w old, c.named, new)
            ];
          }
          | inr kept ↦ rw kept record {
            named = c.named;
            counted = c.counted;
            member = inr c.member;
            greatest = λ j w i. elim i [
              | inl e ↦ ground (arith, ap (λ (p : Bytes × Bytes). cardinality p.0) e, kept)
              | inr old ↦ c.greatest j w old
            ];
          }
        ]

  first-Chosen :
      (k v : Bytes) → is_unset k ≡ false → Chosen (better cardinality none_yet k v) ((k, v) ∷ [])
  first-Chosen k v full = record {
    named = full;
    counted = refl;
    member = inl refl;
    greatest = λ j w i. elim i [
      | inl e ↦ omega (arith, ap (λ (p : Bytes × Bytes). cardinality p.0) e)
      | inr none ↦ elim none [ ]
    ];
  }

  -- The tags seen so far, the latest first.
  abbrev onto_seen : Map Bytes → Map Bytes → Map Bytes
  onto_seen seen [] = seen
  onto_seen seen (t ∷ tags) = onto_seen (t ∷ seen) tags

  best_from-Chosen :
      (tags seen : Map Bytes) (b : Best)
      → All (λ (t : Bytes × Bytes). is_unset t.0 ≡ false) tags
      → Chosen b seen
      → Chosen (best_from cardinality b tags) (onto_seen seen tags)
  unfolding best_from
  best_from-Chosen [] seen b h c = c
  best_from-Chosen ((k, v) ∷ tags) seen b (full, h) c =
      best_from-Chosen tags ((k, v) ∷ seen) (better cardinality b k v) h
        (better-Chosen b seen k v full c)

  seen-In :
      (tags seen : Map Bytes) (t : Bytes × Bytes)
      → In t (onto_seen seen tags)
      → In t seen ⊎ In t tags
  seen-In [] seen t i = inl i
  seen-In (u ∷ tags) seen t i = elim (seen-In tags (u ∷ seen) t i) [
    | inl (inl e) ↦ inr (inl e)
    | inl (inr old) ↦ inl old
    | inr later ↦ inr (inr later)
  ]

  In-seen :
      (tags seen : Map Bytes) (t : Bytes × Bytes)
      → In t seen ⊎ In t tags
      → In t (onto_seen seen tags)
  In-seen [] seen t (inl i) = i
  In-seen [] seen t (inr i) = elim i [ ]
  In-seen (u ∷ tags) seen t (inl i) = In-seen tags (u ∷ seen) t (inl (inr i))
  In-seen (u ∷ tags) seen t (inr (inl e)) = In-seen tags (u ∷ seen) t (inl (inl e))
  In-seen (u ∷ tags) seen t (inr (inr i)) = In-seen tags (u ∷ seen) t (inr i)

  -- Among tags with nonempty keys BestIndexTag returns one of them, and none has a greater
  -- cardinality.
  pub best_index_tag_lem :
      (k v : Bytes) (rest : Map Bytes)
      → All (λ (t : Bytes × Bytes). is_unset t.0 ≡ false) ((k, v) ∷ rest)
      → In (best_index_tag cardinality ((k, v) ∷ rest)) ((k, v) ∷ rest)
        × ((j w : Bytes)
            → In (j, w) ((k, v) ∷ rest)
            → cardinality j ≤ cardinality (best_index_tag cardinality ((k, v) ∷ rest)).0)
  unfolding best_index_tag best_from
  best_index_tag_lem k v rest (full, h) =
      let c =
        best_from-Chosen rest ((k, v) ∷ []) (better cardinality none_yet k v) h
          (first-Chosen k v full) in
      let r = best_from cardinality (better cardinality none_yet k v) rest in
      let is_r : best_index_tag cardinality ((k, v) ∷ rest) ≡ (r.key, r.value) = rw c.named refl in
      subst
        (λ (t : Bytes × Bytes).
          In t ((k, v) ∷ rest)
          × ((j w : Bytes) → In (j, w) ((k, v) ∷ rest) → cardinality j ≤ cardinality t.0))
        (sym is_r)
        (
          from_seen (r.key, r.value) (seen-In rest ((k, v) ∷ []) (r.key, r.value) c.member),
          λ j w i. omega (
            arith,
            c.counted,
            c.greatest j w (In-seen rest ((k, v) ∷ []) (j, w) (to_seen (j, w) i)),
          ),
        )
    where
      from_seen : (t : Bytes × Bytes) → In t ((k, v) ∷ []) ⊎ In t rest → In t ((k, v) ∷ rest)
      from_seen t (inl (inl e)) = inl e
      from_seen t (inl (inr i)) = elim i [ ]
      from_seen t (inr i) = inr i

      to_seen : (t : Bytes × Bytes) → In t ((k, v) ∷ rest) → In t ((k, v) ∷ []) ⊎ In t rest
      to_seen t (inl e) = inl (inl e)
      to_seen t (inr i) = inr i
