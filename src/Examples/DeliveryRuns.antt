-- ===== src/Examples/DeliveryRuns.antt =====
-- Replication and the configuration at small inputs.
use flamedb.Base.{
  ◌==◌, Option, ℕ, suc, ◌≡◌, ◌≤◌, ◌<◌, ◌+◌, ◌*◌, ◌/◌, refl, arith, true, false, Bool, none, some,
  [], ◌∷◌, ◌++◌, length, List, All, In, ◌&&◌, ◌↔◌,
}
use flamedb.Base.Bytes.{Bytes, codes, bytes_eq}
use flamedb.Base.Int.{pos, ltb_ℤ}
use flamedb.Base.Pairs.{Pairs}
use flamedb.Cluster.Replication.{
  ReplicationRecord, ReplicationItem, send_frames, Attempt, Reply, send_line, initial_delay, ack,
  timer, replicate_quorum,
}
use flamedb.Cluster.Replication.Frames.{send_frames_lem, IsFrame, concat}
use flamedb.Cluster.Replication.Quorum.{replicate_quorum_lem, acks}
use flamedb.Cluster.Replication.Retry.{IsSent, Doubling, send_line_lem}
use flamedb.Config.{load}
use flamedb.Config.Checks.{effective_internal_key, is_pebble}
use flamedb.Config.Defaults.{Env, is_nil}
use flamedb.Config.Types.{Config, ApiKey}
use flamedb.Config.Valid.{load_lem}
use flamedb.Query.Types.{err, Result, ok}

abbrev record_of : Bytes → ReplicationRecord
record_of query = record { node = codes "n1"; query = query; outbox_key = codes "k" }

abbrev two_records : List ReplicationRecord
two_records = record_of (codes "SET kills 1") ∷ record_of (codes "SET kills 2") ∷ []

send_frames_lem_example :
    (frames : List (List ReplicationRecord)) × (send_frames 3 two_records ≡ some frames)
    × (concat frames ≡ two_records)
    × All IsFrame frames
send_frames_lem_example = send_frames_lem 3 two_records (omega arith)

abbrev plain_reply : Bytes → Option Reply
plain_reply [] = none
plain_reply (c ∷ s) = some (record { error = none; ok = some (c == b'1') })

-- Busy at first, then an error of the network, then accepted.
abbrev three_attempts : List Attempt
three_attempts =
    record { reply = ok (codes "0"); closing = false }
    ∷ record { reply = err (codes "timeout"); closing = false }
    ∷ record { reply = ok (codes "1"); closing = false }
    ∷ []

send_line_lem_example :
    IsSent plain_reply three_attempts (send_line plain_reply initial_delay three_attempts)
    × Doubling 10000000 (send_line plain_reply initial_delay three_attempts).1
send_line_lem_example = send_line_lem plain_reply three_attempts

abbrev item_of : Bytes → Bool → ReplicationItem
item_of query quorum = record { metric = codes "kills"; query = query; quorum = quorum }

abbrev three_items : List ReplicationItem
three_items = item_of (codes "a") false ∷ item_of (codes "b") true ∷ item_of (codes "c") false ∷ []

abbrev queued : Result (Unit {0})
queued = ok tt

replicate_quorum_lem_example :
    ((replicate_quorum 2 3 queued queued (ack ∷ timer ∷ []) ≡ some (ok tt))
      ↔ ((1 ≤ 2) × (queued ≡ ok tt) × (1 ≤ acks (ack ∷ timer ∷ []))))
    × (3 < 4)
replicate_quorum_lem_example =
    replicate_quorum_lem 2 3 queued queued (ack ∷ timer ∷ []) (omega arith)

-- An empty environment, and the file of a single node.
abbrev no_env : Env
no_env = record { getenv = λ name. []; expand = λ s. s; trim_space = λ s. s }

abbrev key_of : Bytes → ApiKey
key_of key = record { name = []; key = key; permissions = codes "read" ∷ [] }

abbrev decoded : Config
decoded = record {
  performance = record { profile_address = []; batch_size = pos 0; max_inflight_requests = pos 0 };
  auth = record {
    enabled = none;
    environment_internal_key = [];
    internal_key = [];
    keys = key_of (codes "a") ∷ key_of (codes "b") ∷ [];
  };
  server = record {
    max_connections = pos 0;
    max_request_bytes = pos 0;
    max_response_bytes = pos 0;
    max_batch_entries = pos 0;
    request_timeout = pos 0;
    shutdown_timeout = pos 0;
    metrics_address = [];
    tls_cert = [];
    tls_key = [];
    port = pos 0;
    host = [];
    advertise_addr = [];
    node_id = [];
    data_path = [];
  };
  cluster = record {
    enabled = false;
    seeds = [];
    replication_factor = pos 0;
    read_policy = [];
    replication_queue_size = pos 0;
    fanout_queue_size = pos 0;
  };
  storage = record {
    engine = [];
    postgres = record { quorum_replication_factor = pos 0; dsn = []; max_connections = pos 0 };
    redis = record {
      sentinel_username = [];
      sentinel_password = [];
      mode = [];
      address = [];
      addresses = [];
      master_name = [];
      username = [];
      password = [];
      db = pos 0;
      pool_size = pos 0;
      tls = false;
    };
    max_query_events = pos 0;
    compression = [];
  };
}

abbrev loaded_of : Result Config → Config
loaded_of (ok c) = c
loaded_of (err e) = decoded

abbrev loaded : Config
loaded = loaded_of (load no_env decoded)

load_lem_example :
    ((p : ℕ) × (loaded.server.port ≡ pos p) × (1 ≤ p) × (p ≤ 65535))
    × Pairs (λ j k. bytes_eq j.key k.key ≡ false) loaded.auth.keys
    × ((k : ApiKey)
        → In k loaded.auth.keys
        → bytes_eq k.key (effective_internal_key loaded.auth) ≡ false)
    × ((is_pebble loaded.storage.engine && ltb_ℤ (pos 1) loaded.cluster.replication_factor) ≡ true
        → is_nil (effective_internal_key loaded.auth) ≡ false)
unfolding load bytes_eq flamedb.Base.Bytes.contains_any flamedb.Base.Bytes.contains_byte
load_lem_example = load_lem no_env decoded loaded refl
