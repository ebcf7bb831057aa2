-- ===== src/Storage/CardCache/Bounds.antt =====
-- The bounds of the cardinality cache, which every method keeps.
use flamedb.Base.{
  ℕ, ◌+◌, ◌-◌, ◌≤◌, ◌<◌, ◌≡◌, refl, Option, none, some, [], arith, Bool-cases, inl, inr, subst,
  length, ltb, leb, ◌&&◌, ◌==◌, ◌||◌, ◌∙◌, some_inj, sym, ltb→le,
}
use flamedb.Base.Bytes.{Bytes}
use flamedb.Base.Map.{get, set, delete, Distinct, Distinct-set, Distinct-delete}
use flamedb.Storage.CardCache.{
  CardCache, size_of, card_cache_max_bytes, new_card_cache, seen, seen_at, add, add_at, room_for,
  insert,
}
use flamedb.Storage.CardCache.Weight.{weight, weight-set-some, weight-set-none, weight-delete}

-- The byte count is exact, and neither bound is exceeded; `peak` is not below the entry count.
pub record IsBounded (c : CardCache) : Type 0 where
  pub distinct : Distinct c.entries
  pub counted : c.bytes ≡ weight c.entries
  pub bytes_bound : c.bytes ≤ card_cache_max_bytes
  pub entries_bound : length c.entries ≤ c.max_entries
  pub peak_bound : length c.entries ≤ c.peak

empty_IsBounded :
    (max_entries ttl sweep_at : ℕ)
    → IsBounded (record {
      entries = [];
      max_entries = max_entries;
      ttl = ttl;
      bytes = 0;
      peak = 0;
      next_sweep = sweep_at;
    })
unfolding weight
empty_IsBounded max_entries ttl sweep_at = record {
  distinct = tt;
  counted = refl;
  bytes_bound = omega arith;
  entries_bound = omega arith;
  peak_bound = omega arith;
}

pub new_card_cache-IsBounded :
    (max_entries ttl now : ℕ) (c : CardCache)
    → new_card_cache max_entries ttl now ≡ some c
    → IsBounded c
unfolding new_card_cache weight
new_card_cache-IsBounded max_entries ttl now c h = elim (Bool-cases (max_entries == 0)) [
  | inl off ↦ absurd (cc (rw off at h))
  | inr on ↦ subst (λ x. IsBounded x) (some_inj (rw on at h)) (empty_IsBounded _ _ _)
]

-- The three changes that the methods make.
nothing_in : (key : Bytes) → get {V = ℕ} [] key ≡ none
unfolding get
nothing_in key = refl

dropped-IsBounded :
    (c : CardCache) (key : Bytes) (ts : ℕ)
    → IsBounded c
    → get c.entries key ≡ some ts
    → IsBounded (record c { entries = delete c.entries key; bytes = c.bytes - size_of key })
dropped-IsBounded c key ts v e =
    let (w, l) = weight-delete c.entries key ts v.distinct e in
    record {
      distinct = Distinct-delete key c.entries v.distinct;
      counted = omega (arith, w, v.counted);
      bytes_bound = omega (arith, v.bytes_bound);
      entries_bound = omega (arith, l, v.entries_bound);
      peak_bound = omega (arith, l, v.peak_bound);
    }

touched-IsBounded :
    (c : CardCache) (key : Bytes) (now ts : ℕ)
    → IsBounded c
    → get c.entries key ≡ some ts
    → IsBounded (record c { entries = set c.entries key now })
touched-IsBounded c key now ts v e =
    let (w, l) = weight-set-some c.entries key now ts e in
    record {
      distinct = Distinct-set key now c.entries v.distinct;
      counted = v.counted ∙ sym w;
      bytes_bound = v.bytes_bound;
      entries_bound = omega (arith, l, v.entries_bound);
      peak_bound = omega (arith, l, v.peak_bound);
    }

insert-IsBounded :
    (c : CardCache) (key : Bytes) (now : ℕ)
    → IsBounded c
    → get c.entries key ≡ none
    → length c.entries < c.max_entries
    → c.bytes + size_of key ≤ card_cache_max_bytes
    → IsBounded (insert c key now)
insert-IsBounded c key now v e room fits =
    let (w, l) = weight-set-none c.entries key now e in
    record {
      distinct = Distinct-set key now c.entries v.distinct;
      counted = omega (arith, w, v.counted);
      bytes_bound = omega (arith, fits);
      entries_bound = omega (arith, l, room);
      peak_bound = ground (arith, v.peak_bound);
    }

room_for-insert :
    (c : CardCache) (key : Bytes) (now : ℕ)
    → IsBounded c
    → 0 < c.max_entries
    → get c.entries key ≡ none
    → size_of key ≤ card_cache_max_bytes
    → IsBounded (insert (room_for c key) key now)
room_for-insert c key now v some_room e fits =
    elim (Bool-cases
      (leb c.max_entries (length c.entries) || ltb card_cache_max_bytes (c.bytes + size_of key))) [
        | inl full ↦ rw full (
            insert-IsBounded _ key now (empty_IsBounded c.max_entries c.ttl c.next_sweep)
              (nothing_in key) some_room (omega (arith, fits)))
        | inr free ↦
            rw free (insert-IsBounded c key now v e (ground (arith, free)) (ground (arith, free)))
      ]

-- seen keeps the cardinality cache bounded and its byte count exact.
pub seen-IsBounded :
    (c : CardCache) (key : Bytes) (now : ℕ) → IsBounded c → IsBounded (seen c key now).1
unfolding seen
seen-IsBounded c key now v = go (get c.entries key) refl
  where
    go : (r : Option ℕ) → get c.entries key ≡ r → IsBounded (seen_at c key now r).1
    go none e = v
    go (some ts) e = elim (Bool-cases (ltb 0 c.ttl && ltb (ts + c.ttl) now)) [
      | inl old ↦ rw old (dropped-IsBounded c key ts v e)
      | inr fresh ↦ rw fresh (touched-IsBounded c key now ts v e)
    ]

-- add keeps the cardinality cache bounded and its byte count exact, where the cache has room for an
-- entry at all.
pub add-IsBounded :
    (c : CardCache) (key : Bytes) (now : ℕ)
    → IsBounded c
    → 0 < c.max_entries
    → IsBounded (add c key now)
unfolding add
add-IsBounded c key now v some_room = go (get c.entries key) refl
  where
    go : (r : Option ℕ) → get c.entries key ≡ r → IsBounded (add_at c key now r)
    go (some ts) e = touched-IsBounded c key now ts v e
    go none e = elim (Bool-cases (ltb card_cache_max_bytes (size_of key))) [
      | inl large ↦ rw large v
      | inr small ↦ rw small (room_for-insert c key now v some_room e (ltb→le _ _ small))
    ]
