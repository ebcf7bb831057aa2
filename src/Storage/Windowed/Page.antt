-- ===== src/Storage/Windowed/Page.antt =====
-- The page of a windowed leaderboard: selected with a heap or not, it is a page of the whole order.
pub mod Choice
pub mod Best
use flamedb.Base.{
  ℕ, zero, suc, ◌+◌, ◌-◌, ◌/◌, ◌≤◌, ◌<◌, ◌≡◌, refl, sym, ◌∙◌, Bool, true, false, ◌&&◌, ◌↔◌, ◌⊎◌,
  inl, inr, List, [], ◌∷◌, ◌++◌, if◌then◌else◌, ltb, leb, length, take, drop, ◌==◌, In, arith,
  Bool-cases, subst,
}
use flamedb.Base.Bytes.{Bytes}
use flamedb.Base.Pairs.{Pairs}
use flamedb.Base.Words.{bytes_lt}
use flamedb.Kv.Order.{bytes_lt_trans, bytes_lt_irrefl, bytes_le_trans}
use flamedb.Leaderboard.{LeaderboardEntry}
use flamedb.Storage.Windowed.{Ordering, leaderboard_before}

abbrev pub Entry : Type 0
Entry = LeaderboardEntry

-- The documented behaviour of heap.Init, heap.Fix, sort.Slice and the order of float64 without NaN.
pub record IsOrdering (o : Ordering) : Type 1 where
  pub differs_iff :
      (a b : ℕ) → (o.differs a b ≡ true) ↔ ((o.greater a b ≡ true) ⊎ (o.greater b a ≡ true))
  pub greater_asym : (a b : ℕ) → o.greater a b ≡ true → o.greater b a ≡ false
  pub greater_weak :
      (a b c : ℕ) → o.greater a b ≡ false → o.greater b c ≡ false → o.greater a c ≡ false
  pub IsHeap : List Entry → Type 0
  pub init-IsHeap : (es : List Entry) → IsHeap (o.init es)
  pub fix-IsHeap : (w e : Entry) (h : List Entry) → IsHeap (w ∷ h) → IsHeap (o.fix (e ∷ h))
  pub head_worst :
      (w e : Entry) (h : List Entry) → IsHeap (w ∷ h) → In e h → leaderboard_before o w e ≡ false
  pub init_same : (e : Entry) (es : List Entry) → In e (o.init es) ↔ In e es
  pub fix_same : (e : Entry) (es : List Entry) → In e (o.fix es) ↔ In e es
  pub sort_same : (e : Entry) (es : List Entry) → In e (o.sort es) ↔ In e es
  pub length-init : (es : List Entry) → length (o.init es) ≡ length es
  pub length-fix : (es : List Entry) → length (o.fix es) ≡ length es
  pub length-sort : (es : List Entry) → length (o.sort es) ≡ length es
  pub sort_sorted : (es : List Entry) → Pairs (λ a b. leaderboard_before o b a ≡ false) (o.sort es)

module _ {o : Ordering} (laws : IsOrdering o) where
  -- Of two values one is greater, or they do not differ.
  abbrev Compared : ℕ → ℕ → Type 0
  Compared a b =
      ((o.greater a b ≡ true)
        × (o.greater b a ≡ false)
        × (o.differs a b ≡ true)
        × (o.differs b a ≡ true))
      ⊎ ((o.greater b a ≡ true)
          × (o.greater a b ≡ false)
          × (o.differs a b ≡ true)
          × (o.differs b a ≡ true))
      ⊎ ((o.greater a b ≡ false)
          × (o.greater b a ≡ false)
          × (o.differs a b ≡ false)
          × (o.differs b a ≡ false))

  compare_values : (a b : ℕ) → Compared a b
  compare_values a b = elim (Bool-cases (o.greater a b)) [
    | inl more ↦ inl (
      more,
      laws.greater_asym a b more,
      (laws.differs_iff a b).1 (inl more),
      (laws.differs_iff b a).1 (inr more),
    )
    | inr no_more ↦ elim (Bool-cases (o.greater b a)) [
      | inl less ↦ inr (
          inl (
            less,
            no_more,
            (laws.differs_iff a b).1 (inr less),
            (laws.differs_iff b a).1 (inl less),
          ))
      | inr no_less ↦
          inr
            (inr (no_more, no_less, same_value a b no_more no_less, same_value b a no_less no_more))
    ]
  ]
    where
      neither :
          (x y : ℕ)
          → o.greater x y ≡ false
          → o.greater y x ≡ false
          → (o.greater x y ≡ true) ⊎ (o.greater y x ≡ true)
          → ⊥
      neither x y h k (inl t) = absurd (cc)
      neither x y h k (inr t) = absurd (cc)

      same_value : (x y : ℕ) → o.greater x y ≡ false → o.greater y x ≡ false → o.differs x y ≡ false
      same_value x y h k = elim (Bool-cases (o.differs x y)) [
        | inl d ↦ absurd (neither x y h k ((laws.differs_iff x y).0 d))
        | inr d ↦ d
      ]

  pub before_asym :
      (a b : Entry) → leaderboard_before o a b ≡ true → leaderboard_before o b a ≡ false
  unfolding leaderboard_before
  before_asym a b h = elim (compare_values a.value b.value) [
    | inl (more, less, d, d') ↦ rw (d', less) refl
    | inr (inl (less, more, d, d')) ↦ absurd (cc (rw (d, more) at h))
    | inr (inr (more, less, d, d')) ↦ rw d' (bytes_lt_asym a.entity_id b.entity_id (rw d at h))
  ]
    where
      bytes_lt_asym : (s t : Bytes) → bytes_lt s t ≡ true → bytes_lt t s ≡ false
      bytes_lt_asym s t e = elim (Bool-cases (bytes_lt t s)) [
        | inl back ↦ absurd (cc (bytes_lt_trans s t s e back, bytes_lt_irrefl s))
        | inr no_back ↦ no_back
      ]

  pub before_weak :
      (a b c : Entry)
      → leaderboard_before o a b ≡ false
      → leaderboard_before o b c ≡ false
      → leaderboard_before o a c ≡ false
  unfolding leaderboard_before
  before_weak a b c h k = ground (
    arith,
    h,
    k,
    compare_values a.value b.value,
    compare_values b.value c.value,
    compare_values a.value c.value,
    laws.greater_weak a.value b.value c.value,
    laws.greater_weak c.value a.value b.value,
    laws.greater_weak b.value c.value a.value,
    laws.greater_weak c.value b.value a.value,
    bytes_le_trans b.entity_id a.entity_id c.entity_id,
  )
