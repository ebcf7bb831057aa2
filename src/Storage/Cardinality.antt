-- ===== src/Storage/Cardinality.antt =====
-- BestIndexTag of internal/storage/cardinality.go. `cardinality` is GetCardinality at the metric.
pub mod Chosen
use flamedb.Base.{
  ℕ, ◌≤◌, ◌<◌, ◌⊎◌, inl, inr, Bool, ◌&&◌, ◌||◌, List, [], ◌∷◌, ltb, ◌==◌, if◌then◌else◌, arith, In,
  ◌≡◌, refl, Bool-cases, true, false,
}
use flamedb.Base.Bytes.{Bytes}
use flamedb.Base.Map.{Map}
use flamedb.Base.Words.{bytes_lt}

-- The best tag so far, and its cardinality.
pub record Best : Type 0 where
  pub key : Bytes
  pub value : Bytes
  pub card : ℕ

abbrev pub is_unset : Bytes → Bool
is_unset [] = true
is_unset (c ∷ s) = false

abbrev pub none_yet : Best
none_yet = record { key = []; value = []; card = 0 }

-- The fallback of the source takes a tag where no key was found, which needs an empty key.
abbrev pub or_first : Best → Map Bytes → Bytes × Bytes
or_first best [] = (best.key, best.value)
or_first best ((k, v) ∷ tags) = if is_unset best.key then (k, v) else (best.key, best.value)

module _ (cardinality : Bytes → ℕ) where
  abbrev pub better : Best → Bytes → Bytes → Best
  better best k v =
      if is_unset best.key
        || ltb best.card (cardinality k)
        || (cardinality k == best.card && bytes_lt k best.key)
      then record { key = k; value = v; card = cardinality k }
      else best

  -- The loop over the tags.
  unfoldable pub best_from : Best → Map Bytes → Best
  best_from best [] = best
  best_from best ((k, v) ∷ tags) = best_from (better best k v) tags

  unfoldable pub best_index_tag : Map Bytes → Bytes × Bytes
  unfolding best_from
  best_index_tag tags = or_first (best_from none_yet tags) tags
