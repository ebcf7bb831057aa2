-- ===== src/Config/Checks.antt =====
-- internal/config/config.go: the checks of Load, in their order.
use flamedb.Base.{
  ℕ, ◌/◌, Bool, true, false, not, ◌&&◌, ◌||◌, none, some, List, [], ◌∷◌, ◌++◌, if◌then◌else◌, ltb,
}
use flamedb.Base.Bytes.{Bytes, codes, bytes_eq, contains_any}
use flamedb.Base.Int.{ℤ, pos, ltb_ℤ}
use flamedb.Config.Defaults.{Env, is_nil, or_else}
use flamedb.Config.Types.{ApiKey, AuthConfig, Config}
use flamedb.Query.Types.{Result, ok, err}
use flamedb.Query.Validate.{is_zero}

unfoldable pub bad_limits : Config → Bool
bad_limits c =
    ltb_ℤ c.server.max_connections (pos 1)
    || ltb_ℤ c.server.max_request_bytes (pos 1024)
    || ltb_ℤ c.server.max_response_bytes (pos 1024)
    || ltb_ℤ c.server.max_batch_entries (pos 1)
    || ltb_ℤ c.server.request_timeout (pos 1000000)
    || ltb_ℤ c.server.shutdown_timeout (pos 1000000)
    || ltb_ℤ c.performance.max_inflight_requests (pos 1)
    || ltb_ℤ c.performance.batch_size (pos 1)
    || ltb_ℤ c.storage.postgres.max_connections (pos 1)
    || ltb_ℤ c.storage.max_query_events (pos 1)

unfoldable pub bad_ports : Config → Bool
bad_ports c =
    ltb_ℤ c.server.port (pos 1)
    || ltb_ℤ (pos 65535) c.server.port
    || ltb_ℤ c.storage.postgres.quorum_replication_factor (pos 0)
    || ltb_ℤ c.storage.redis.db (pos 0)
    || ltb_ℤ c.storage.redis.pool_size (pos 0)

-- The quotient by two of a positive number; the source divides only such.
abbrev pub half : ℤ → ℕ
half (pos n) = n / 2
half z = 0

unfoldable pub weak_quorum : Config → Bool
weak_quorum c =
    let q = c.storage.postgres.quorum_replication_factor in
    let f = c.cluster.replication_factor in
    ltb_ℤ (pos 0) q && ltb_ℤ (pos 0) f && ltb (half q) (half f)

abbrev pub is_pebble : Bytes → Bool
is_pebble engine = is_nil engine || bytes_eq engine (codes "pebble")

abbrev pub is_postgres : Bytes → Bool
is_postgres engine =
    bytes_eq engine (codes "postgres")
    || bytes_eq engine (codes "postgresql")
    || bytes_eq engine (codes "timescaledb")

abbrev pub known_mode : Bytes → Bool
known_mode mode =
    bytes_eq mode (codes "standalone")
    || bytes_eq mode (codes "sentinel")
    || bytes_eq mode (codes "cluster")

-- The case of the switch over the engines for PostgreSQL.
unfoldable pub check_postgres : Config → Result Config
check_postgres c =
    let redis = record c.storage.redis {
      mode = or_else c.storage.redis.mode (codes "standalone");
    } in
    if is_nil c.storage.postgres.dsn
    then err (codes "postgres dsn is required")
    else if not (known_mode redis.mode)
    then err (codes "unsupported redis mode")
    else if bytes_eq redis.mode (codes "sentinel") && is_nil redis.master_name
    then err (codes "redis sentinel requires master_name")
    else if is_nil redis.address && is_nil redis.addresses
    then err (codes "redis address is required")
    else ok (record c { storage = record c.storage { redis = redis } })

unfoldable pub check_engine : Config → Result Config
unfolding check_postgres
check_engine c =
    if is_pebble c.storage.engine
    then ok c
    else if is_postgres c.storage.engine
    then check_postgres c
    else err (codes "unsupported storage engine: " ++ c.storage.engine)

-- IsEnabled and EffectiveInternalKey
unfoldable pub is_enabled : AuthConfig → Bool
is_enabled a = elim a.enabled [ none ↦ true | some b ↦ b ]

unfoldable pub effective_internal_key : AuthConfig → Bytes
effective_internal_key a = or_else a.environment_internal_key a.internal_key

abbrev pub newlines : Bytes
newlines = 13 ∷ 10 ∷ []

unfoldable pub member : Bytes → List Bytes → Bool
member k [] = false
member k (j ∷ seen) = bytes_eq j k || member k seen

-- One key of the loop: a conflict with an earlier key or with the internal one.
abbrev pub bad_key : Env → Bytes → List Bytes → Bytes → Bool
bad_key env internal seen k =
    is_nil (env.trim_space k) || contains_any k newlines || member k seen || bytes_eq k internal

unfoldable pub bad_keys : Env → Bytes → List Bytes → List ApiKey → Bool
unfolding member
bad_keys env internal seen [] = false
bad_keys env internal seen (k ∷ keys) =
    bad_key env internal seen k.key || bad_keys env internal (k.key ∷ seen) keys

unfoldable pub with_environment_key : Env → Config → Config
with_environment_key env c =
    let key = env.getenv (codes "FLAMEDB_INTERNAL_KEY") in
    if is_nil key then c else record c { auth = record c.auth { environment_internal_key = key } }

-- The checks behind the switch.
unfoldable pub check_auth : Env → Config → Result Config
unfolding bad_keys effective_internal_key is_enabled
check_auth env c =
    let internal = effective_internal_key c.auth in
    if is_enabled c.auth && is_nil c.auth.keys && is_nil internal
    then err (codes "at least one auth key is required")
    else if bad_keys env internal [] c.auth.keys
    then err (codes "empty, duplicate or conflicting auth key")
    else if contains_any internal newlines
    then err (codes "invalid internal key")
    else if is_pebble c.storage.engine
        && (not (is_nil c.cluster.seeds) || ltb_ℤ (pos 1) c.cluster.replication_factor)
        && is_nil internal
    then err (codes "cluster mode requires auth.internal_key shared by all nodes")
    else ok c

-- The checks before the switch.
unfoldable pub check_ranges : Config → Result Config
unfolding bad_limits bad_ports weak_quorum
check_ranges c =
    if bad_limits c
    then err (codes "invalid resource limits")
    else if bad_ports c
    then err (codes "invalid server port or database configuration")
    else if bytes_eq c.storage.redis.mode (codes "cluster") && not (is_zero c.storage.redis.db)
    then err (codes "Redis Cluster requires db: 0")
    else if weak_quorum c
    then err (codes "PostgreSQL quorum cannot weaken the configured legacy cluster majority")
    else if not (bytes_eq_bool (is_nil c.server.tls_cert) (is_nil c.server.tls_key))
    then err (codes "TLS requires both tls_cert and tls_key")
    else ok c
  where
    bytes_eq_bool : Bool → Bool → Bool
    bytes_eq_bool true b = b
    bytes_eq_bool false b = not b
