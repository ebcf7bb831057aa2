-- ===== src/Storage/CardCache.antt =====
-- internal/storage/card_cache.go: the bounded cache of the cardinality keys seen lately. A time is a
-- UnixNano, not negative; the cache's lock makes each method one step. A ttl of 0 or less is 0.
pub mod Weight
pub mod Bounds
pub mod Sweep
use flamedb.Base.{
  ℕ, zero, suc, ◌+◌, ◌-◌, ◌/◌, ◌*◌, Bool, true, false, ◌&&◌, ◌||◌, not, Option, none, some, List,
  [], ◌∷◌, ◌==◌, ltb, leb, if◌then◌else◌, length,
}
use flamedb.Base.Bytes.{Bytes}
use flamedb.Base.Map.{Map, get, set, delete}

pub record CardCache : Type 0 where
  pub entries : Map ℕ
  pub max_entries : ℕ
  pub ttl : ℕ
  pub bytes : ℕ
  pub peak : ℕ
  pub next_sweep : ℕ

-- cardCacheMaxBytes, 16 << 20
abbrev pub card_cache_max_bytes : ℕ
card_cache_max_bytes = 16777216

abbrev pub card_cache_entry_overhead : ℕ
card_cache_entry_overhead = 64

abbrev pub size_of : Bytes → ℕ
size_of key = length key + card_cache_entry_overhead

-- newCardCache: `none` is the nil cache, which the methods take for an empty one.
unfoldable pub new_card_cache : ℕ → ℕ → ℕ → Option CardCache
new_card_cache max_entries ttl now =
    if max_entries == 0
    then none
    else some (record {
      entries = [];
      max_entries = max_entries;
      ttl = ttl;
      bytes = 0;
      peak = 0;
      next_sweep = now + ttl / 2;
    })

abbrev seen_at : CardCache → Bytes → ℕ → Option ℕ → Bool × CardCache
seen_at c key now none = (false, c)
seen_at c key now (some ts) =
    if ltb 0 c.ttl && ltb (ts + c.ttl) now
    then (false, record c { entries = delete c.entries key; bytes = c.bytes - size_of key })
    else (true, record c { entries = set c.entries key now })

unfoldable pub seen : CardCache → Bytes → ℕ → Bool × CardCache
seen c key now = seen_at c key now (get c.entries key)

-- The map is cleared where the entry would go over one of the two bounds.
abbrev room_for : CardCache → Bytes → CardCache
room_for c key =
    if leb c.max_entries (length c.entries) || ltb card_cache_max_bytes (c.bytes + size_of key)
    then record c { entries = []; bytes = 0; peak = 0 }
    else c

abbrev insert : CardCache → Bytes → ℕ → CardCache
insert c key now =
    let entries = set c.entries key now in
    record c {
      bytes = c.bytes + size_of key;
      entries = entries;
      peak = if ltb c.peak (length entries) then length entries else c.peak;
    }

abbrev add_at : CardCache → Bytes → ℕ → Option ℕ → CardCache
add_at c key now (some ts) = record c { entries = set c.entries key now }
add_at c key now none =
    if ltb card_cache_max_bytes (size_of key) then c else insert (room_for c key) key now

unfoldable pub add : CardCache → Bytes → ℕ → CardCache
add c key now = add_at c key now (get c.entries key)

-- The loop of expire over the entries, and the count of bytes it lowers.
unfoldable pub sweep : ℕ → ℕ → Map ℕ → ℕ → Map ℕ × ℕ
sweep now ttl [] bytes = ([], bytes)
sweep now ttl ((key, ts) ∷ m) bytes =
    let dropped = sweep now ttl m (bytes - size_of key) in
    let kept = sweep now ttl m bytes in
    if ltb (ts + ttl) now then dropped else ((key, ts) ∷ kept.0, kept.1)

-- The copy into a smaller map.
abbrev compact : CardCache → CardCache
compact c = if leb (length c.entries) (c.peak / 4) then record c { peak = length c.entries } else c

abbrev swept : CardCache → ℕ → Map ℕ × ℕ → CardCache
swept c now (entries, bytes) =
    compact (record c { entries = entries; bytes = bytes; next_sweep = now + c.ttl / 2 })

unfoldable pub expire : CardCache → ℕ → CardCache
unfolding sweep
expire c now =
    if c.ttl == 0 || ltb now c.next_sweep
    then c
    else swept c now (sweep now c.ttl c.entries c.bytes)
