-- ===== src/Storage/LeaderboardCache.antt =====
-- internal/storage/cache.go: the cache of all-time leaderboard pages. `A` is a page's entry; the
-- lock makes each method one step, and the time is an argument. Limits and offsets are those of
-- valid queries, which are not negative.
pub mod Pages
use flamedb.Base.{
  ℕ, ◌+◌, Bool, true, false, Option, none, some, List, [], ◌∷◌, ◌++◌, if◌then◌else◌, ltb, leb,
  length,
}
use flamedb.Base.Bytes.{Bytes, has_prefix}
use flamedb.Base.Decimal.{decimal}
use flamedb.Base.Map.{Map}
use flamedb.Base.Map

pub record CacheEntry (A : Type 0) : Type 0 where
  pub entries : List A
  pub expires_at : ℕ

pub record LeaderboardCache (A : Type 0) : Type 0 where
  pub ttl : ℕ
  pub entries : Map (CacheEntry A)

-- NewLeaderboardCache
abbrev pub new_leaderboard_cache : {A : Type 0} → ℕ → LeaderboardCache A
new_leaderboard_cache ttl = record { ttl = ttl; entries = [] }

-- fmt.Sprintf("%s:%d:%d", metric, limit, offset)
abbrev pub cache_key : Bytes → ℕ → ℕ → Bytes
cache_key metric limit offset = (metric ++ b':' ∷ []) ++ (decimal limit ++ b':' ∷ decimal offset)

abbrev pub max_pages : ℕ
max_pages = 4096

module _ {A : Type 0} where
  abbrev pub fresh_page : ℕ → Option (CacheEntry A) → Option (List A)
  fresh_page now none = none
  fresh_page now (some entry) = if ltb entry.expires_at now then none else some entry.entries

  -- Get
  unfoldable pub get_page : LeaderboardCache A → Bytes → ℕ → ℕ → ℕ → Option (List A)
  get_page c metric limit offset now =
      fresh_page now (Map.get c.entries (cache_key metric limit offset))

  -- The map is cleared where it is full.
  abbrev pub kept_pages : LeaderboardCache A → Map (CacheEntry A)
  kept_pages c = if leb max_pages (length c.entries) then [] else c.entries

  -- Set
  unfoldable pub set_page : LeaderboardCache A → Bytes → ℕ → ℕ → List A → ℕ → LeaderboardCache A
  set_page c metric limit offset entries now = record c {
    entries =
        Map.set (kept_pages c) (cache_key metric limit offset)
          (record { entries = entries; expires_at = now + c.ttl });
  }

  -- The loop of Invalidate.
  unfoldable pub without_prefix : Bytes → Map (CacheEntry A) → Map (CacheEntry A)
  without_prefix prefix [] = []
  without_prefix prefix ((k, entry) ∷ m) =
      let rest = without_prefix prefix m in if has_prefix k prefix then rest else (k, entry) ∷ rest

  unfoldable pub invalidate : LeaderboardCache A → Bytes → LeaderboardCache A
  unfolding without_prefix
  invalidate c metric = record c { entries = without_prefix (metric ++ b':' ∷ []) c.entries }

  -- One tick of cleanup.
  unfoldable pub without_expired : ℕ → Map (CacheEntry A) → Map (CacheEntry A)
  without_expired now [] = []
  without_expired now ((k, entry) ∷ m) =
      let rest = without_expired now m in
      if ltb entry.expires_at now then rest else (k, entry) ∷ rest

  unfoldable pub cleanup : LeaderboardCache A → ℕ → LeaderboardCache A
  unfolding without_expired
  cleanup c now = record c { entries = without_expired now c.entries }
