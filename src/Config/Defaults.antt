-- ===== src/Config/Defaults.antt =====
-- internal/config/config.go: the part of Load that fills the configuration in, from the environment and
-- with defaults.
use flamedb.Base.{ℕ, ◌*◌, ◌^◌, Bool, true, false, not, ◌&&◌, List, [], ◌∷◌, if◌then◌else◌}
use flamedb.Base.Bytes.{Bytes, codes}
use flamedb.Base.Int.{ℤ, pos}
use flamedb.Config.Types.{ApiKey, ServerConfig, StorageConfig, Config}
use flamedb.Query.Validate.{is_zero}

-- os.Getenv, os.ExpandEnv and strings.TrimSpace
pub record Env : Type 0 where
  pub getenv : Bytes → Bytes
  pub expand : Bytes → Bytes
  pub trim_space : Bytes → Bytes

abbrev pub is_nil {ℓ} : {A : Type ℓ} → List A → Bool
is_nil [] = true
is_nil (a ∷ rest) = false

abbrev pub or_else : Bytes → Bytes → Bytes
or_else [] fallback = fallback
or_else (b ∷ s) fallback = b ∷ s

abbrev pub or_int : ℤ → ℕ → ℤ
or_int z n = if is_zero z then pos n else z

unfoldable pub expand_all : Env → List Bytes → List Bytes
expand_all env [] = []
expand_all env (s ∷ texts) = env.expand s ∷ expand_all env texts

unfoldable pub expand_keys : Env → List ApiKey → List ApiKey
expand_keys env [] = []
expand_keys env (k ∷ keys) = record k { key = env.expand k.key } ∷ expand_keys env keys

-- The engine and the addresses that the environment gives where the file has no engine.
unfoldable pub opt_in : Env → StorageConfig → StorageConfig
opt_in env s =
    let dsn = env.getenv (codes "FLAMEDB_POSTGRES_DSN") in
    let address = or_else (env.getenv (codes "FLAMEDB_REDIS_ADDRESS")) (codes "127.0.0.1:6379") in
    if is_nil s.engine && not (is_nil dsn)
    then record s {
      engine = codes "postgres";
      postgres = record s.postgres { dsn = dsn };
      redis = record s.redis { address = or_else s.redis.address address };
    }
    else s

-- The secrets, with the variables in them replaced.
unfoldable pub expand_secrets : Env → Config → Config
unfolding expand_all expand_keys opt_in
expand_secrets env c =
    let s = opt_in env c.storage in
    record c {
      storage = record s {
        postgres = record s.postgres { dsn = env.expand s.postgres.dsn };
        redis = record s.redis {
          address = env.expand s.redis.address;
          password = env.expand s.redis.password;
          sentinel_username = env.expand s.redis.sentinel_username;
          sentinel_password = env.expand s.redis.sentinel_password;
          addresses = expand_all env s.redis.addresses;
        };
      };
      auth = record c.auth {
        keys = expand_keys env c.auth.keys;
        internal_key = env.expand c.auth.internal_key;
      };
    }

abbrev pub second : ℕ
second = 1000000000

unfoldable pub server_defaults : ServerConfig → ServerConfig
server_defaults s = record s {
  port = or_int s.port 7777;
  host = or_else s.host (codes "127.0.0.1");
  max_connections = or_int s.max_connections 1024;
  max_request_bytes = or_int s.max_request_bytes (8 * 2 ^ 20);
  max_response_bytes = or_int s.max_response_bytes (64 * 2 ^ 20);
  max_batch_entries = or_int s.max_batch_entries 10000;
  request_timeout = or_int s.request_timeout (30 * second);
  shutdown_timeout = or_int s.shutdown_timeout (30 * second);
}

unfoldable pub with_defaults : Config → Config
unfolding server_defaults
with_defaults c = record c {
  server = server_defaults c.server;
  performance = record c.performance {
    max_inflight_requests = or_int c.performance.max_inflight_requests 1024;
    batch_size = or_int c.performance.batch_size 1000;
  };
  storage = record c.storage {
    postgres = record c.storage.postgres {
      max_connections = or_int c.storage.postgres.max_connections 64;
    };
    max_query_events = or_int c.storage.max_query_events 1000000;
  };
}
