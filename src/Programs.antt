-- ===== src/Programs.antt =====
-- cmd/api, cmd/indexer and what they start: internal/repository/db/init.go, internal/pubsub/init.go,
-- the server of internal/server/server.go. What the libraries answer to each call is a parameter.
pub mod Api
pub mod Indexer
pub mod Exits
pub mod Reindex
use evm_indexer.Prelude.{ℕ, str, Str, Bool}
use evm_indexer.Domain.Errors.{Error, Result, ok, err, panic, ◌>>=◌, ◌>>◌}

-- `repository.New`: sql.Open, and Ping
unfoldable pub new_db : Result (Unit {0}) → Result (Unit {0}) → Result (Unit {0})
new_db opened pinged = opened >> pinged

-- `RunUpMigrations`: the dialect, and goose.Up
unfoldable pub run_up_migrations : Result (Unit {0}) → Result (Unit {0}) → Result (Unit {0})
run_up_migrations dialect up = dialect >> up

abbrev pub or_panic : Result (Unit {0}) → Result (Unit {0})
or_panic (ok _) = ok tt
or_panic (err e) = err panic

-- `pubsub.New`: a Redis that does not answer the ping is a panic
unfoldable pub new_redis : Result (Unit {0}) → Result (Unit {0}) → Result (Unit {0})
new_redis parsed pinged = parsed >> or_panic pinged

-- What ends the `select` of the server's `Run`: `ListenAndServe` has returned, as it does with an
-- error, or the context was cancelled.
pub data Wakeup : Type 0 where
  listen_failed : Error → Wakeup
  interrupted : Wakeup

-- `Run` of server.go, by what `Shutdown` answers: the error of `ListenAndServe` is logged only.
unfoldable pub run_server : Wakeup → Result (Unit {0}) → Result (Unit {0})
run_server (listen_failed e) shutdown = shutdown
run_server interrupted shutdown = shutdown

-- `RunPrometheusServer` of internal/metrics/server.go; both programs drop what it returns.
unfoldable pub run_prometheus_server : Wakeup → Result (Unit {0}) → Result (Unit {0})
run_prometheus_server (listen_failed e) shutdown = err e
run_prometheus_server interrupted shutdown = shutdown

-- The status with which `main` ends the process, by what `run` returned; 2 is Go's for a panic.
unfoldable pub exit_status : Result (Unit {0}) → ℕ
exit_status (ok _) = 0
exit_status (err panic) = 2
exit_status (err e) = 1
