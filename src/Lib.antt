-- ===== src/Lib.antt =====
-- Models of the Go backend of MagicWebb, an NFT marketplace, and what they are proved to do.
--
-- The backend's indexer reads a chain's logs through a pool of RPC endpoints, writes them to the
-- database and publishes events; the broadcaster fans these out, on the instance and over a bridge
-- between instances, to the WebSocket handler, which pushes them to browsers. Sign-in nonces
-- and rate limits guard the HTTP side. One instance at a time, the elected leader, runs the keepers.
--
-- Base: the names of the libraries, slices by index (Lists), Go's maps as association lists
--   (Maps), the statements of SQL on them (Sql), strings as bytes (Strings), comparisons as an
--   interface (Equality), int64 and NUMERIC (Int), remainders.
-- Nonce: backend/internal/nonce/store.go and pg_store.go, and the last step of nonceHandler in
--   backend/cmd/server/main.go. set_if_free, get_del and cleanup are the methods of MemStore on its
--   map; pg_set_if_free, pg_get_del and pg_cleanup those of PgStore on the table's rows, with
--   the statements that may fail as an argument; a commit may also succeed and be reported failed.
-- RateLimit: backend/internal/ratelimit/memory.go (allow_mem, remaining_mem, cleanup; allow_pg,
--   remaining_pg, sweep_pg) and tieredRateLimitMiddleware of backend/internal/api/rest.go
--   (tiered), over an interface that both limiters fill.
-- Broadcast: backend/internal/sse/broadcaster.go (publish, replay, subscribe_raw, cancel,
--   loop_step) and the receiving loop of backend/internal/sse/grpc_bridge.go (bridge_in). publish is a
--   call that no other one overlaps; in Publishers the three steps of a call, its number, the
--   write to the ring and the send, are interleaved with those of others (number, store_flight,
--   send_flight), and a history is a list of the goroutines' steps.
-- Election: backend/internal/keeper/election.go. heartbeat is the RPC handler, heartbeat_tick,
--   loop_start, election_timer, failure_tick and yield_event the events of its loop; contact is a
--   delivered heartbeat between two instances. In Election/Lock other
--   events may also come between the sections of e.mu of a tick or a timeout (on_response,
--   count_tick, resign, become_leader); in the statements on several instances they are whole.
-- RpcPool: backend/internal/rpcpool/pool.go. call is the failover loop, health_cycle a cycle of
--   healthLoop, concurrent_filter_logs the race of FilterLogs.
-- Channels: backend/internal/ws/subscriptions.go, the channel names and what they match.
-- Socket: backend/internal/ws/handler.go. Its state is a Handler of Connections; admit, tear_down
--   and new_connection are the parts of HandleWebSocket, read_message is a round of readPump,
--   dispatch a round of the dispatcher, act any of these steps. It replays from Broadcast's ring
--   and matches by Channels.
-- Watcher: backend/internal/indexer/runner.go: process_range, backfill, in Ticks the loop of
--   runWatcher, and in Transfers process_transfers, whose schedule is the order of its workers'
--   steps. RpcPool is behind its answers.
-- Market: the log handlers of backend/internal/indexer/handlers.go and governance.go, the topics of
--   abis.go, and the statements of backend/internal/db (queries.go, queries_rework.go,
--   queries_governance.go, badge.go) that they run. Abi reads a log's words; Tables, Queries,
--   Bidding and Ownership are the tables and the methods of db.Q; Trading, Auctioning, Offering,
--   Transfers and Governing have a function for each handler, on_listed for onListed and so on,
--   and Dispatch the switch of dispatch. Observe is observe.go, the instant lane. A Store holds the
--   tables, the events published and the notifications; `fails` says which calls of the database
--   fail. Its outcomes are those that Watcher reads of a log.
-- Responses: backend/internal/graphql/response_cache.go, the cache of GraphQL answers. intercept is
--   InterceptOperation up to its answer, finish the handler that it returns on a miss; a history
--   interleaves them. Documents are ASCII text, and the update of a hit's time of access is one step
--   with its lookup.
-- Cache: backend/internal/cache/cache.go. get, put, warm and clear are its methods (put is Set),
--   serve a history of them, one after another.
--
-- Each component has a module Examples with runs at concrete values.
--
-- Time, randomness, the network, the database's answers and third-party packages are arguments.
-- Every reading of the clock is an argument of its own, so that nothing is assumed of the clock
-- that a statement does not say. A section under a mutex is one step. uint64 counters wrap in
-- Broadcast; the block numbers of Watcher are not near 2^64. Two functions run on fuel: backfill, to + 2
-- rounds, since every round takes at least one block, and the eviction of observed hashes, one round
-- for each entry, since every round deletes one.
--
-- In Market a call of the database that fails leaves the tables as they were, as a transaction or
-- a single statement does; what the schema refuses (foreign keys, the bounds of NUMERIC) is a
-- failing call. keccak, and in Responses SHA-256, is an argument, and of several rows that LIMIT 1
-- could give the model gives a fixed one. An event's Data, the wording of a notification, and
-- min_increment_bps, which is always 0, are left out. Block times are below 2^63.
--
-- Not modelled: the keepers' and the sales' backfill loops, the bound of four scanning workers, the
-- gRPC mesh's connections, the coalescing of frames, JSON, the API's SQL and JWT, the REST, GraphQL and
-- Connect-RPC handlers, the image store, the media resolver, and webhooks; and
-- the front end and the contracts, which are not Go.
pub mod Base
pub mod Nonce
pub mod RateLimit
pub mod Broadcast
pub mod Election
pub mod RpcPool
pub mod Channels
pub mod Socket
pub mod Watcher
pub mod Market
pub mod Responses
pub mod Cache
