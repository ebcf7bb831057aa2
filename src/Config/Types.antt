-- ===== src/Config/Types.antt =====
-- internal/config/config.go: the configuration. The integers and the durations are ℤ.
use flamedb.Base.{Bool, Option, List}
use flamedb.Base.Bytes.{Bytes}
use flamedb.Base.Int.{ℤ}

pub record ApiKey : Type 0 where
  pub name : Bytes
  pub key : Bytes
  pub permissions : List Bytes

pub record AuthConfig : Type 0 where
  pub enabled : Option Bool
  pub environment_internal_key : Bytes
  pub internal_key : Bytes
  pub keys : List ApiKey

pub record ServerConfig : Type 0 where
  pub max_connections : ℤ
  pub max_request_bytes : ℤ
  pub max_response_bytes : ℤ
  pub max_batch_entries : ℤ
  pub request_timeout : ℤ
  pub shutdown_timeout : ℤ
  pub metrics_address : Bytes
  pub tls_cert : Bytes
  pub tls_key : Bytes
  pub port : ℤ
  pub host : Bytes
  pub advertise_addr : Bytes
  pub node_id : Bytes
  pub data_path : Bytes

pub record PostgresConfig : Type 0 where
  pub quorum_replication_factor : ℤ
  pub dsn : Bytes
  pub max_connections : ℤ

pub record RedisConfig : Type 0 where
  pub sentinel_username : Bytes
  pub sentinel_password : Bytes
  pub mode : Bytes
  pub address : Bytes
  pub addresses : List Bytes
  pub master_name : Bytes
  pub username : Bytes
  pub password : Bytes
  pub db : ℤ
  pub pool_size : ℤ
  pub tls : Bool

pub record StorageConfig : Type 0 where
  pub engine : Bytes
  pub postgres : PostgresConfig
  pub redis : RedisConfig
  pub max_query_events : ℤ
  pub compression : Bytes

pub record PerformanceConfig : Type 0 where
  pub profile_address : Bytes
  pub batch_size : ℤ
  pub max_inflight_requests : ℤ

pub record ClusterConfig : Type 0 where
  pub enabled : Bool
  pub seeds : List Bytes
  pub replication_factor : ℤ
  pub read_policy : Bytes
  pub replication_queue_size : ℤ
  pub fanout_queue_size : ℤ

pub record Config : Type 0 where
  pub performance : PerformanceConfig
  pub auth : AuthConfig
  pub server : ServerConfig
  pub cluster : ClusterConfig
  pub storage : StorageConfig
