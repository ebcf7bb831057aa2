-- ===== src/Storage/LeaderboardCache/Pages.antt =====
-- Which pages the cache holds.
use flamedb.Base.{
  ℕ, suc, ◌+◌, ◌≤◌, ◌≡◌, refl, true, none, some, List, [], ◌∷◌, ◌++◌, if◌then◌else◌, ltb, leb,
  length, Bool-cases, inl, inr, ap, ◌∙◌, arith,
}
use flamedb.Base.Bytes.{
  Bytes, has_prefix, has_prefix-append, bytes_eq, bytes_eq_refl, bytes_eq_sound,
}
use flamedb.Base.Map.{Map, get-set}
use flamedb.Storage.LeaderboardCache.{
  CacheEntry, LeaderboardCache, cache_key, max_pages, fresh_page, get_page, kept_pages, set_page,
  without_prefix, invalidate,
}
use flamedb.Base.Map

length-set : {V : Type 0} (m : Map V) (k : Bytes) (v : V) → length (Map.set m k v) ≤ suc (length m)
unfolding Map.set
length-set [] k v = omega arith
length-set ((j, w) ∷ m) k v = ground (arith, length-set m k v)

module _ {A : Type 0} where
  -- A page that was set is read until its time has passed, and not after.
  pub get_page-set_page :
      (c : LeaderboardCache A) (metric : Bytes) (limit offset : ℕ) (entries : List A)
      (now later : ℕ)
      → get_page (set_page c metric limit offset entries now) metric limit offset later
        ≡ (if ltb (now + c.ttl) later then none else some entries)
  unfolding get_page set_page
  get_page-set_page c metric limit offset entries now later =
      let key = cache_key metric limit offset in
      ap (fresh_page later) (
        get-set (kept_pages c) key key (record { entries = entries; expires_at = now + c.ttl })
        ∙ ap
            (λ b.
              if b
              then some (record { entries = entries; expires_at = now + c.ttl })
              else Map.get (kept_pages c) key)
            (bytes_eq_refl key))

  get-without_prefix :
      (m : Map (CacheEntry A)) (p k : Bytes)
      → has_prefix k p ≡ true
      → Map.get (without_prefix p m) k ≡ none
  unfolding without_prefix Map.get
  get-without_prefix [] p k h = refl
  get-without_prefix ((j, e) ∷ m) p k h = elim (Bool-cases (has_prefix j p)) [
    | inl gone ↦ rw gone (get-without_prefix m p k h)
    | inr stays ↦ rw stays (elim (Bool-cases (bytes_eq j k)) [
      | inl same ↦ absurd (cc (ap (λ x. has_prefix x p) (bytes_eq_sound j k same)))
      | inr other ↦ rw other (get-without_prefix m p k h)
    ])
  ]

  -- After Invalidate no page of the metric is read from the leaderboard cache, whatever its limit
  -- and offset.
  pub get_page-invalidate :
      (c : LeaderboardCache A) (metric : Bytes) (limit offset now : ℕ)
      → get_page (invalidate c metric) metric limit offset now ≡ none
  unfolding get_page invalidate
  get_page-invalidate c metric limit offset now = ap (fresh_page now) (
      get-without_prefix c.entries (metric ++ b':' ∷ []) (cache_key metric limit offset)
        (has_prefix-append (metric ++ b':' ∷ []) _))

  room_left : (c : LeaderboardCache A) → length (kept_pages c) ≤ 4095
  room_left c = elim (Bool-cases (leb max_pages (length c.entries))) [
    | inl full ↦ rw full (omega arith)
    | inr free ↦ rw free (ground (arith, free))
  ]

  -- After Set the cache holds at most 4096 pages.
  pub length-set_page :
      (c : LeaderboardCache A) (metric : Bytes) (limit offset : ℕ) (entries : List A) (now : ℕ)
      → length (set_page c metric limit offset entries now).entries ≤ max_pages
  unfolding set_page
  length-set_page c metric limit offset entries now = omega (
    arith,
    room_left c,
    length-set (kept_pages c) (cache_key metric limit offset)
        (record { entries = entries; expires_at = now + c.ttl }),
  )
