-- ===== src/Examples/CacheRuns.antt =====
-- The caches, the stored strings, the index tag and the clock at small inputs.
use flamedb.Analytics.Encoding.{TextCodec}
use flamedb.Base.{ℕ, true, some, [], ◌∷◌}
use flamedb.Base.Bytes.{Bytes, codes}
use flamedb.Base.Map.{Map}
use flamedb.Storage.LeaderboardCache.{LeaderboardCache, new_leaderboard_cache}

-- In place of base64 the text itself.
abbrev plain_text : TextCodec
plain_text = record { to_base64 = λ s. s; from_base64 = λ s. some s; is_valid_utf8 = λ s. true }

abbrev host_tag : Map Bytes
host_tag = (codes "host", 0 ∷ []) ∷ []

abbrev pages : LeaderboardCache ℕ
pages = new_leaderboard_cache 10

abbrev one_page : LeaderboardCache ℕ
one_page = record pages {
  entries = (codes "kills:10:0", record { entries = 7 ∷ []; expires_at = 15 }) ∷ [];
}

abbrev tags : Map Bytes
tags = (codes "host", codes "a") ∷ (codes "zone", codes "b") ∷ []
