-- ===== src/Lib.antt =====
-- FlameDB: a metrics database with leaderboards. This library models the parts that decide what is
-- stored where and what a command means.
--
-- Keyspace models internal/keyspace/component.go: identifiers become key components. Storage/Event
-- and Storage/Codec model internal/storage/event.go and event_codec.go: an event, its binary form
-- and the scan for one tag. Storage/Keys models the layout of the keys: eventKey and indexKey of
-- internal/storage/storage.go, the keys of cardinality.go, and those of
-- internal/aggregates/leaderboard.go; Keyspace gives them their components. Storage/CardCache and
-- Storage/LeaderboardCache model card_cache.go and cache.go of internal/storage,
-- Storage/Cardinality the function BestIndexTag of cardinality.go. Cluster/Ring models
-- internal/cluster/ring.go: Add, Remove, Get and GetN are add, remove, get_node and get_n on a
-- record of the node map, the sorted hashes and the number of virtual nodes. Query models
-- internal/query: Types is query.go, Tokenize, Commands, Parse and Batch are parser.go and
-- ranking.go, Validate is validateQuery, Duration is parseCalendarSpec of executor.go, Clock is
-- nextTimestamp. A command is tokenized; Commands/Text and Commands/Clauses hold what commands
-- share, Commands/Steps has one function per loop body, Commands/Loop the loops; Parse joins them
-- and passes every result through validate_query. Auth models internal/auth/auth.go and the checks
-- of Load in internal/config/config.go on the keys. Analytics/Encoding models
-- internal/analytics/encoding.go, Analytics/Member encodeMember and decodeMember of ranking.go.
-- Config models Load of internal/config/config.go.
--
-- Kv is the interface of the store, package pebble: point reads, batches and ranges in key order,
-- with their laws; Kv/Memory fills it. Leaderboard models internal/aggregates/leaderboard.go over
-- it: set_score is Set, top_n TopN, and so on; Leaderboard/Board says when a store holds a board.
-- Storage/Events, Storage/Reads and Storage/Transfer model WriteEventsWithReceipts and StageEvent,
-- ReadPage and ScanDeleteWhere, and the export and import of internal/storage/storage.go. Executor
-- models executeMutation of internal/query/executor.go, which joins them in one batch, and
-- Executor/Series aggregateSeriesUTC. Cluster/Replication models sendReplicationBatch,
-- sendReplicationLineWithRetry, ReplicateBatch and ReplicateQuorum of
-- internal/cluster/replication.go. Executor/WriteBatch models executeWriteBatch of
-- internal/query/pebble_batch.go: its loop over the queries is admit, the callback under the
-- commit stage_items and stage_changed. It reads scores through Leaderboard/Shared, which models
-- LockedBatchLookup of internal/aggregates/batch_lookup.go. Executor/Reads models executeGet,
-- executeLeaderboard and executeGroupLeaderboard of executor.go over one store, Storage/Windowed
-- the leaderboards of a range of time of internal/storage/windowed_lb.go.
--
-- Cluster/Route models internal/cluster/cluster.go: the route of a metric, the primary, the node
-- to read from and the failover; Cluster/Heartbeat models pingAll and recordFailure of
-- discovery.go. Server models internal/server/server.go: Server/Dispatch is the body of
-- handleConn's loop, from a line to an Action, Server/Admin its CLUSTER messages and
-- persistConfig, Server/Connection the handshake and the loop, Server/Batch handleWriteBatch,
-- Server/Sessions what a session may do and change, Server/Replica replicaLine, and
-- Server/Admission the limits of Serve and of startShared and executeShared in shared.go. A server
-- decides with Auth, Query/Parse and Cluster/Route; its batches are run by Executor/WriteBatch and
-- passed on by Cluster/Replication. Base holds numbers, bytes, words, maps and lists.
--
-- Numbers are natural numbers; an int64 is a signed integer with its two's complement pattern
-- (to_word64), a float64 is its bit pattern. A text is the list of its bytes. A Go map is an
-- association list without an assumption on its order. Locked methods are single steps on explicit
-- states, and the time is an argument. Parameters stand for SHA-256 (hash), encoding/json (Json),
-- base64 and utf8 (TextCodec), for the entries of a leaderboard as JSON and their addition
-- (Scores), for the environment (Env), for AddDate and the arithmetic of a series (Sums), and for
-- the functions of strconv, strings and time whose results depend on Unicode, on floats or on the
-- clock (Std), for container/heap, sort.Slice and the order of floats (Ordering), for the answers
-- of other nodes (Fetch, and the function ask of a batch), and for the JSON of a cluster message
-- (read_message) and of a replica's reply (decode), and for the first field of a command
-- (first_word). Json stands for the JSON of an event together with the MarshalJSON of
-- internal/storage/event.go. The name that newOperationID makes is an argument.
--
-- The commands of a connection take as much fuel as there are lines; each round takes one. The
-- loops over tokens take as much fuel as there are tokens, the loop over a duration as much as it
-- has bytes; both are enough. sendReplicationBatch has one more than there are records, the loop
-- over a series one more than there are events, and the search for an event's bucket two more than
-- its timestamp: enough where every bucket moves the time on. Parse calls itself for the ranking
-- commands, on a LEADERBOARD command, which does not call it again: it is unrolled twice.
--
-- Not modelled: the storage engine itself, and failures of the disk, which every caller passes on;
-- scores in the old form without an index by entity, beyond the definition of their lookup;
-- METRICS and STATS, which list what the cardinality updater keeps; the batches of a server with
-- shared storage, and the closing of a server, beyond its flag; the queues and the outbox of the
-- replication, the announcing of nodes and the pool of connections, which are network I/O; the
-- migration and the snapshots of the store; the engines over Postgres and Redis; the programs of
-- cmd, the Grafana plugin and the clients. They are I/O around other systems or wait for a model
-- of their own.
pub mod Base
pub mod Keyspace
pub mod Kv
pub mod Storage
pub mod Cluster
pub mod Query
pub mod Leaderboard
pub mod Auth
pub mod Analytics
pub mod Examples
pub mod Executor
pub mod Config
pub mod Server
