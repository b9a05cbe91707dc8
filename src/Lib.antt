-- ===== src/Lib.antt =====
-- A verification library for evm-indexer, a service that copies the blocks, transactions and
-- events of an EVM chain from an RPC node into PostgreSQL, keeps token balances, and answers
-- queries over HTTP.
--
-- The program. Three fills write: the backfill (internal/core/services/backfill.go) fetches old
-- blocks in batches, the forward fill (forwardfill.go) writes each new block, replaces a block
-- that a reorganisation has removed and publishes what is new to Redis, and the balance fill
-- (balancefill.go) reads the stored events of final blocks and adds their transfers to balances.
-- All three use the indexer repository (internal/repository/db/indexer.go), and run side by side
-- in the indexer service (internal/core/services/indexer.go), which lets the balance fill in when
-- the backfill signals its end. The fetcher (internal/fetcher) asks the node for one block, again
-- after an error that may pass. The query service (internal/core/services/query.go) checks
-- filters and reads through the query repository (internal/repository/db/query.go); the REST
-- handlers (internal/handlers/rest) turn the parameters of a URL into its arguments and its
-- errors into statuses; the GraphQL resolvers and loaders (internal/handlers/graphql/graph) do
-- the same for a query, with one call of the service for many keys. The WebSocket handlers
-- (internal/handlers/ws) pass what is published, as a subscription to Redis (internal/pubsub) gives
-- it, on to the clients whose filter it matches. The two programs (cmd/indexer, cmd/api) read their
-- settings (internal/config/config.go), open their connections, register their metrics
-- (internal/metrics) and then run the indexer service, or the server of internal/server.
--
-- The files.
--   Prelude      shared names, tests on numbers, lists by native numbers, byte strings, integers
--   Domain       internal/core/domain: models.go, errors.go, rules.go
--   Store        the tables of internal/repository/db/migrations and the effect of each statement
--   Exec         a call that changes the tables and may fail, and rules for such calls
--   Repository   Indexer: the methods of indexer.go, each by its name in lower case (Create is
--                `create`, BulkCreate is `bulk_create`); Query: those of query.go and utils.go
--   Services     Backfill, Balancefill, Forwardfill, Query: the methods of internal/core/services;
--                Indexer: `Run`, with `act` for one step of one of its goroutines
--   Fetcher      internal/fetcher: FetchBlock is `fetch_block`, GetLastBlockId is `get_last_block_id`
--   Config       internal/config/config.go: Load is `load`
--   Pubsub       internal/pubsub/pubsub.go: Subscribe is `subscribe`, its goroutine `Step`
--   Metrics      internal/metrics/server.go: NewIndexerMetrics, NewApiMetrics
--   Server       internal/server/server.go: `serve` is one request through NewHTTPServer's paths
--   Programs     Api: cmd/api/main.go; Indexer: cmd/indexer/main.go; with the New functions of
--                internal/repository/db/init.go and internal/pubsub/init.go
--   Handlers     Rest: internal/handlers/rest, the query parameters and the routes, with the functions
--                of strconv that they call; Graphql: internal/handlers/graphql/graph; Ws:
--                internal/handlers/ws, with Connection for the two goroutines of a connection
--   Tests        each theorem at a concrete input
--
-- State. A `World` is the tables, the sequence that numbers event rows, the published messages,
-- and the outcomes of the exchanges with the database and Redis to come. Each call to them takes
-- one outcome from that list, so that a theorem about every world is a theorem about every place
-- at which a call can fail. A transaction that fails or whose commit fails restores the tables.
--
-- Parameters. The RPC node is a function from block numbers to answers; the order in which the
-- fetches of a batch finish is a schedule in which each slot occurs; Go's order over a map is any
-- permutation; go-ethereum's hex, hash and ABI functions are a record; what other parts of the
-- program do between two rounds of the balance fill is a list of changes. In the fetcher the node
-- answers attempt by attempt, and backoff.Retry is a record whose laws say what the code relies
-- on: a value is that of the first attempt that did not fail, and a permanent error stops it. In
-- the broadcast, which writers wait for a message is a function, as is Go's order over the map of
-- filters. What the calls of a program's start answer is a record. Prometheus's registry and a
-- loader of dataloader are records with a law each: a well-formed metric of a new name is taken; a
-- key gets the answer at its own place in some batch that the loader has asked for. The order in
-- which the database gives the rows under a LIMIT without ORDER BY is part of the world, and the
-- form to which net/http cleans a path is a function.
--
-- Rows. An INSERT ... ON CONFLICT DO NOTHING that succeeds leaves a row under the key of the one it
-- was given: that row, or one that stood there. `HasKeys` says the first of an item, and `Written`
-- that each row that is new is, column by column, that of a given item and that none is lost.
--
-- Interleavings. A run of the indexer service is a list of actions of its goroutines, each a
-- round of a fill or a receive. A WebSocket hub is changed by whole calls. Each takes the mutex
-- of a topic for what it does there; a client that leaves several topics takes their mutexes one
-- after the other, and the model lets no other call in between. A subscription to Redis moves by
-- steps of the Redis client, of its goroutine and of the reader, in any order.
--
-- Numbers. `uint64` is a natural number with the wrap-around written out (`u64`), `int` and
-- `big.Int` are integers. The backfill's loop has fuel `target - curr + 2`: each round moves by
-- one block at least, so that it does not run out. The hex digits of `n` have fuel `n + 1`.
--
-- Not modelled. What gqlgen generates and dataloader's choice of batches; timeouts, logs, and the
-- updates of metrics but for the counters of the two HTTP middlewares; JSON encoding, since a
-- message carries the value itself; the settings of connection pools and of the rate limiter.
pub mod Prelude
pub mod Domain
pub mod Store
pub mod Exec
pub mod Repository
pub mod Services
pub mod Handlers
pub mod Fetcher
pub mod Config
pub mod Pubsub
pub mod Metrics
pub mod Programs
pub mod Server
mod Tests
