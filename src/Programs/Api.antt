-- ===== src/Programs/Api.antt =====
-- cmd/api/main.go.
use evm_indexer.Prelude.{ℕ, Str, List}
use evm_indexer.Domain.Errors.{Result, ok, ◌>>=◌, ◌>>◌}
use evm_indexer.Config.{EnvFile, Config, load}
use evm_indexer.Metrics.{Registry, new_api_metrics}
use evm_indexer.Handlers.Ws.{Topic}
use evm_indexer.Handlers.Ws.Feeds.{new_router}
use evm_indexer.Programs.{new_db, run_up_migrations, new_redis, Wakeup, run_server, exit_status}

-- What the world answers to the program's calls.
pub record ApiOutside (F : Type 0) : Type 0 where
  pub env_file : EnvFile
  pub getenv : Str → Str
  pub parse_float : Str → Result F
  pub rate_limit_default : F
  pub db_opened : Result (Unit {0})
  pub db_pinged : Result (Unit {0})
  pub dialect : Result (Unit {0})
  pub migrated : Result (Unit {0})
  pub redis_parsed : Result (Unit {0})
  pub redis_pinged : Result (Unit {0})
  pub receive : Topic → Result (Unit {0})
  pub wakeup : Wakeup
  pub shutdown : Result (Unit {0})

module _ {F : Type 0} (reg : Registry) (def_buckets : List ℕ) (o : ApiOutside F) where
  -- `run`, up to the server
  unfoldable pub start_api : Result (Config F)
  unfolding new_db run_up_migrations new_redis
  start_api = do
    cfg ← load o.parse_float o.rate_limit_default o.getenv o.env_file
    new_db o.db_opened o.db_pinged
    run_up_migrations o.dialect o.migrated
    new_redis o.redis_parsed o.redis_pinged
    metrics ← new_api_metrics reg def_buckets
    ws_handler ← new_router o.receive
    ok cfg

  unfoldable pub run_api : Result (Unit {0})
  unfolding start_api run_server
  run_api = do cfg ← start_api; run_server o.wakeup o.shutdown

  unfoldable pub main_api : ℕ
  unfolding run_api exit_status
  main_api = exit_status run_api
