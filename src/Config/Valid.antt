-- ===== src/Config/Valid.antt =====
-- What a configuration that Load accepts satisfies.
use flamedb.Base.{
  ℕ, ◌≤◌, ◌≡◌, refl, arith, Bool, true, false, not, ◌&&◌, ◌||◌, List, [], ◌∷◌, In, inl, inr, sym,
  ap, ◌∙◌, subst, if◌then◌else◌, Bool-cases,
}
use flamedb.Base.Bytes.{Bytes, codes, bytes_eq, contains_any}
use flamedb.Base.Int.{ℤ, pos, ltb_ℤ, negsuc}
use flamedb.Base.Pairs.{Pairs}
use flamedb.Config.{load}
use flamedb.Config.Checks.{
  check_ranges, check_engine, check_postgres, check_auth, with_environment_key, bad_ports, bad_keys,
  member, newlines, effective_internal_key, is_pebble, bad_limits, is_enabled, is_postgres,
  known_mode, weak_quorum,
}
use flamedb.Config.Defaults.{Env, with_defaults, expand_secrets, is_nil, or_else}
use flamedb.Config.Types.{Config, ApiKey, ServerConfig}
use flamedb.Query.Types.{Result, ok, err, >>=-eq-ok, ok_inj}
use flamedb.Query.Validate.{is_zero}

-- A check that passes.
guard-ok :
    {A : Type 0} (b : Bool) (e : Bytes) (next : Result A) (a : A)
    → (if b then err e else next) ≡ ok a
    → (b ≡ false) × (next ≡ ok a)
guard-ok true e next a h = absurd (cc)
guard-ok false e next a h = (refl, h)

check_ranges-ok : (x c : Config) → check_ranges x ≡ ok c → (x ≡ c) × (bad_ports x ≡ false)
unfolding check_ranges
check_ranges-ok x c h =
    let (_, h1) = guard-ok (bad_limits x) _ _ c h in
    let (ports, h2) = guard-ok (bad_ports x) _ _ c h1 in
    let (_, h3) =
      guard-ok (bytes_eq x.storage.redis.mode (codes "cluster") && not (is_zero x.storage.redis.db))
        _ _ c h2 in
    let (_, h4) = guard-ok (weak_quorum x) _ _ c h3 in
    let (_, h5) = guard-ok _ _ _ c h4 in (ok_inj h5, ports)

check_postgres-ok : (x c : Config) → check_postgres x ≡ ok c → c.server ≡ x.server
unfolding check_postgres
check_postgres-ok x c h =
    let mode = or_else x.storage.redis.mode (codes "standalone") in
    let (_, h1) = guard-ok (is_nil x.storage.postgres.dsn) _ _ c h in
    let (_, h2) = guard-ok (not (known_mode mode)) _ _ c h1 in
    let (_, h3) =
      guard-ok (bytes_eq mode (codes "sentinel") && is_nil x.storage.redis.master_name) _ _ c h2 in
    let (_, h4) =
      guard-ok (is_nil x.storage.redis.address && is_nil x.storage.redis.addresses) _ _ c h3 in
    ap (λ (y : Config). y.server) (sym (ok_inj h4))

check_engine-ok : (x c : Config) → check_engine x ≡ ok c → c.server ≡ x.server
unfolding check_engine check_postgres
check_engine-ok x c h = elim (Bool-cases (is_pebble x.storage.engine)) [
  | inl pebble ↦ ap (λ (y : Config). y.server) (sym (ok_inj (rw pebble at h)))
  | inr other ↦ elim (Bool-cases (is_postgres x.storage.engine)) [
    | inl postgres ↦ check_postgres-ok x c (rw postgres at (rw other at h))
    | inr unknown ↦ absurd (ground (arith, h, other, unknown))
  ]
]

shared :
    (pebble seeds copies missing : Bool)
    → (pebble && (seeds || copies) && missing) ≡ false
    → (pebble && copies) ≡ true
    → missing ≡ false
shared true true true true h k = absurd (cc)
shared true false true true h k = absurd (cc)
shared true s false m h k = absurd (cc)
shared false s c m h k = absurd (cc)
shared p s c false h k = refl

check_auth-ok :
    (env : Env) (x c : Config)
    → check_auth env x ≡ ok c
    → (x ≡ c)
      × (bad_keys env (effective_internal_key x.auth) [] x.auth.keys ≡ false)
      × ((is_pebble x.storage.engine && ltb_ℤ (pos 1) x.cluster.replication_factor) ≡ true
          → is_nil (effective_internal_key x.auth) ≡ false)
unfolding check_auth
check_auth-ok env x c h =
    let internal = effective_internal_key x.auth in
    let (_, h1) = guard-ok (is_enabled x.auth && is_nil x.auth.keys && is_nil internal) _ _ c h in
    let (keys, h2) = guard-ok (bad_keys env internal [] x.auth.keys) _ _ c h1 in
    let (_, h3) = guard-ok (contains_any internal newlines) _ _ c h2 in
    let (cluster, h4) =
      guard-ok
        (is_pebble x.storage.engine
          && (not (is_nil x.cluster.seeds) || ltb_ℤ (pos 1) x.cluster.replication_factor)
          && is_nil internal)
        _ _ c h3 in
    (
      ok_inj h4,
      keys,
      shared (is_pebble x.storage.engine) (not (is_nil x.cluster.seeds))
          (ltb_ℤ (pos 1) x.cluster.replication_factor) (is_nil internal) cluster,
    )

with_environment_key-server :
    (env : Env) (x : Config) → (with_environment_key env x).server ≡ x.server
unfolding with_environment_key
with_environment_key-server env x =
    elim (Bool-cases (is_nil (env.getenv (codes "FLAMEDB_INTERNAL_KEY")))) [
      | inl none_given ↦
          ap
            (λ (b : Bool).
              (if b then x else record x {
                auth = record x.auth {
                  environment_internal_key = env.getenv (codes "FLAMEDB_INTERNAL_KEY");
                };
              }).server)
            none_given
      | inr given ↦
          ap
            (λ (b : Bool).
              (if b then x else record x {
                auth = record x.auth {
                  environment_internal_key = env.getenv (codes "FLAMEDB_INTERNAL_KEY");
                };
              }).server)
            given
    ]

-- No key of the rest is among those seen or is the internal one.
bad_keys-fresh :
    (env : Env) (internal : Bytes) (seen : List Bytes) (keys : List ApiKey)
    → bad_keys env internal seen keys ≡ false
    → (k : ApiKey) → In k keys
    → (member k.key seen ≡ false) × (bytes_eq k.key internal ≡ false)
unfolding bad_keys member
bad_keys-fresh env internal seen [] h k i = absurd i
bad_keys-fresh env internal seen (j ∷ keys) h k (inl e) =
    subst (λ (x : ApiKey). (member x.key seen ≡ false) × (bytes_eq x.key internal ≡ false)) (sym e)
      (ground (arith, h), ground (arith, h))
bad_keys-fresh env internal seen (j ∷ keys) h k (inr i) =
    let (fresh, other) = bad_keys-fresh env internal (j.key ∷ seen) keys (ground (arith, h)) k i in
    (ground (arith, fresh), other)

bad_keys-Pairs :
    (env : Env) (internal : Bytes) (seen : List Bytes) (keys : List ApiKey)
    → bad_keys env internal seen keys ≡ false
    → Pairs (λ j k. bytes_eq j.key k.key ≡ false) keys
unfolding bad_keys member
bad_keys-Pairs env internal seen [] h = tt
bad_keys-Pairs env internal seen (j ∷ keys) h =
    let rest : bad_keys env internal (j.key ∷ seen) keys ≡ false = ground (arith, h) in
    (
      λ k i. ground (arith, (bad_keys-fresh env internal (j.key ∷ seen) keys rest k i).0),
      bad_keys-Pairs env internal (j.key ∷ seen) keys rest,
    )

port_of :
    (i : ℤ)
    → ltb_ℤ i (pos 1) ≡ false
    → ltb_ℤ (pos 65535) i ≡ false
    → (p : ℕ) × (i ≡ pos p) × (1 ≤ p) × (p ≤ 65535)
port_of (pos n) low high = (n, refl, ground (arith, low), ground (arith, high))
port_of (negsuc n) low high = absurd (ground (arith, low))

bad_ports-port :
    (c : Config) → bad_ports c ≡ false → (p : ℕ) × (c.server.port ≡ pos p) × (1 ≤ p) × (p ≤ 65535)
unfolding bad_ports
bad_ports-port c h = port_of c.server.port (ground (arith, h)) (ground (arith, h))

-- A configuration that Load accepts has a port from 1 to 65535 and keys that are distinct, none of
-- them the internal key; on Pebble with a replication factor above one there is an internal key.
pub load_lem :
    (env : Env) (decoded c : Config)
    → load env decoded ≡ ok c
    → ((p : ℕ) × (c.server.port ≡ pos p) × (1 ≤ p) × (p ≤ 65535))
      × Pairs (λ j k. bytes_eq j.key k.key ≡ false) c.auth.keys
      × ((k : ApiKey) → In k c.auth.keys → bytes_eq k.key (effective_internal_key c.auth) ≡ false)
      × ((is_pebble c.storage.engine && ltb_ℤ (pos 1) c.cluster.replication_factor) ≡ true
          → is_nil (effective_internal_key c.auth) ≡ false)
unfolding load
load_lem env decoded c h =
    let filled = with_defaults (expand_secrets env decoded) in
    let (ranged, at_ranged, h1) = >>=-eq-ok (check_ranges filled) _ h in
    let (engine, at_engine, h2) = >>=-eq-ok (check_engine ranged) _ h1 in
    let (same, ports) = check_ranges-ok filled ranged at_ranged in
    let (final, keys, cluster) = check_auth-ok env (with_environment_key env engine) c h2 in
    let server : filled.server ≡ c.server =
      ap (λ (y : Config). y.server) same
      ∙ sym (check_engine-ok ranged engine at_engine)
      ∙ sym (with_environment_key-server env engine)
      ∙ ap (λ (y : Config). y.server) final in
    let (p, at_p, low, high) = bad_ports-port filled ports in
    let x = with_environment_key env engine in
    (
      (p, ap (λ (s : ServerConfig). s.port) (sym server) ∙ at_p, low, high),
      subst (λ (y : Config). Pairs (λ j k. bytes_eq j.key k.key ≡ false) y.auth.keys) final
          (bad_keys-Pairs env (effective_internal_key x.auth) [] x.auth.keys keys),
      subst
          (λ (y : Config).
            (k : ApiKey)
            → In k y.auth.keys
            → bytes_eq k.key (effective_internal_key y.auth) ≡ false)
          final
          (λ k i. (bad_keys-fresh env (effective_internal_key x.auth) [] x.auth.keys keys k i).1),
      subst
          (λ (y : Config).
            (is_pebble y.storage.engine && ltb_ℤ (pos 1) y.cluster.replication_factor) ≡ true
            → is_nil (effective_internal_key y.auth) ≡ false)
          final cluster,
    )
