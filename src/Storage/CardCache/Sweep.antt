-- ===== src/Storage/CardCache/Sweep.antt =====
-- The loop of the cardinality cache's expiry, and the bounds that an expiry keeps.
use flamedb.Base.{
  ℕ, ◌+◌, ◌-◌, ◌/◌, ◌≤◌, ◌≡◌, [], ◌∷◌, arith, Bool-cases, inl, inr, length, ltb, leb, ◌==◌, ◌||◌,
}
use flamedb.Base.Bytes.{Bytes}
use flamedb.Base.Map.{Map, Distinct, Fresh}
use flamedb.Storage.CardCache.{CardCache, size_of, sweep, expire, swept, compact}
use flamedb.Storage.CardCache.Bounds.{IsBounded}
use flamedb.Storage.CardCache.Weight.{weight}

-- expire's loop, with `extra` bytes that the rest of the map takes.
pub sweep_lem :
    (now ttl : ℕ) (m : Map ℕ) (bytes extra : ℕ)
    → bytes ≡ extra + weight m
    → ((sweep now ttl m bytes).1 ≡ extra + weight (sweep now ttl m bytes).0)
      × (length (sweep now ttl m bytes).0 ≤ length m)
      × ((sweep now ttl m bytes).1 ≤ bytes)
unfolding sweep weight
sweep_lem now ttl [] bytes extra h = (h, omega arith, omega arith)
sweep_lem now ttl ((key, ts) ∷ m) bytes extra h = elim (Bool-cases (ltb (ts + ttl) now)) [
  | inl old ↦
      let (w, l, b) = sweep_lem now ttl m (bytes - size_of key) extra (omega (arith, h)) in
      rw old (w, omega (arith, l), omega (arith, b))
  | inr young ↦
      let (w, l, b) = sweep_lem now ttl m bytes (extra + size_of key) (omega (arith, h)) in
      rw young (omega (arith, w), omega (arith, l), b)
]

sweep-Fresh :
    (now ttl : ℕ) (m : Map ℕ) (bytes : ℕ) (k : Bytes)
    → Fresh k m
    → Fresh k (sweep now ttl m bytes).0
unfolding sweep
sweep-Fresh now ttl [] bytes k h = tt
sweep-Fresh now ttl ((key, ts) ∷ m) bytes k h = elim (Bool-cases (ltb (ts + ttl) now)) [
  | inl old ↦ rw old (sweep-Fresh now ttl m (bytes - size_of key) k h.1)
  | inr young ↦ rw young (h.0, sweep-Fresh now ttl m bytes k h.1)
]

pub sweep-Distinct :
    (now ttl : ℕ) (m : Map ℕ) (bytes : ℕ) → Distinct m → Distinct (sweep now ttl m bytes).0
unfolding sweep
sweep-Distinct now ttl [] bytes h = tt
sweep-Distinct now ttl ((key, ts) ∷ m) bytes h = elim (Bool-cases (ltb (ts + ttl) now)) [
  | inl old ↦ rw old (sweep-Distinct now ttl m (bytes - size_of key) h.1)
  | inr young ↦ rw young (sweep-Fresh now ttl m bytes key h.0, sweep-Distinct now ttl m bytes h.1)
]

compact-IsBounded : (c : CardCache) → IsBounded c → IsBounded (compact c)
compact-IsBounded c v = elim (Bool-cases (leb (length c.entries) (c.peak / 4))) [
  | inl small ↦ rw small record {
    distinct = v.distinct;
    counted = v.counted;
    bytes_bound = v.bytes_bound;
    entries_bound = v.entries_bound;
    peak_bound = omega arith;
  }
  | inr large ↦ rw large v
]

swept-IsBounded :
    (c : CardCache) (now : ℕ)
    → IsBounded c
    → IsBounded (swept c now (sweep now c.ttl c.entries c.bytes))
swept-IsBounded c now v =
    let (w, l, b) = sweep_lem now c.ttl c.entries c.bytes 0 (omega (arith, v.counted)) in
    compact-IsBounded _ record {
      distinct = sweep-Distinct now c.ttl c.entries c.bytes v.distinct;
      counted = omega (arith, w);
      bytes_bound = omega (arith, b, v.bytes_bound);
      entries_bound = omega (arith, l, v.entries_bound);
      peak_bound = omega (arith, l, v.peak_bound);
    }

-- expire keeps the cardinality cache bounded and its byte count exact.
pub expire-IsBounded : (c : CardCache) (now : ℕ) → IsBounded c → IsBounded (expire c now)
unfolding expire
expire-IsBounded c now v = elim (Bool-cases (c.ttl == 0 || ltb now c.next_sweep)) [
  | inl early ↦ rw early v
  | inr due ↦ rw due (swept-IsBounded c now v)
]
