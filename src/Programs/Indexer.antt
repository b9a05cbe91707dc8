-- ===== src/Programs/Indexer.antt =====
-- cmd/indexer/main.go. Its start may write to the tables; the service that it starts is
-- `Services.Indexer`.
use evm_indexer.Prelude.{ℕ, Str, Bool, Option, none, some, List, if◌then◌else◌}
use evm_indexer.Domain.Errors.{Result, ok, err, ◌>>◌}
use evm_indexer.Domain.Models.{BlockTxsEvents}
use evm_indexer.Exec.{World, Exec, pure, lift}
use evm_indexer.Exec as Exec
use evm_indexer.Repository.Indexer.{reset_backfill_cursor}
use evm_indexer.Config.{EnvFile, Config, load}
use evm_indexer.Metrics.{Registry, new_indexer_metrics}
use evm_indexer.Services.Balancefill.{Ethereum, Sums}
use evm_indexer.Services.Indexer.{Setup, Action, start, run, returned}
use evm_indexer.Programs.{new_db, new_redis, exit_status}

pub record IndexerOutside (F : Type 0) : Type 0 where
  pub env_file : EnvFile
  pub getenv : Str → Str
  pub parse_float : Str → Result F
  pub rate_limit_default : F
  pub db_opened : Result (Unit {0})
  pub db_pinged : Result (Unit {0})
  pub redis_parsed : Result (Unit {0})
  pub redis_pinged : Result (Unit {0})
  pub http_dialled : Result (Unit {0})
  pub ws_dialled : Result (Unit {0})
  -- the node through the fetcher, the orders in which goroutines and maps go, and go-ethereum
  pub fetch : ℕ → Result BlockTxsEvents
  pub schedule : ℕ → ℕ → List ℕ
  pub cpus : ℕ
  pub eth : Ethereum
  pub iterate : Sums → Sums

-- The two connections of `NewFetcher`.
unfoldable pub new_fetcher : Result (Unit {0}) → Result (Unit {0}) → Result (Unit {0})
new_fetcher http ws = http >> ws

-- a process that has not ended has no status
abbrev pub exit_of : Option (Result (Unit {0})) → Option ℕ
exit_of none = none
exit_of (some r) = some (exit_status r)

module _ {F : Type 0} (reg : Registry) (o : IndexerOutside F) where
  abbrev pub connect : Result (Unit {0})
  connect = new_db o.db_opened o.db_pinged >> new_redis o.redis_parsed o.redis_pinged

  -- `run`, up to the service; `reindex` is the flag of the command line
  unfoldable pub start_indexer : Bool → Exec (Config F)
  unfolding new_db new_redis new_fetcher
  start_indexer reindex =
      Exec.◌>>=◌ (lift (load o.parse_float o.rate_limit_default o.getenv o.env_file)) (λ cfg.
        Exec.◌>>=◌ (lift connect) (λ _. Exec.◌>>=◌ (lift (new_indexer_metrics reg)) (λ _.
          Exec.◌>>=◌ (if reindex then reset_backfill_cursor else pure tt)
            (λ _. Exec.◌>>=◌ (lift (new_fetcher o.http_dialled o.ws_dialled)) (λ _. pure cfg)))))

  abbrev pub setup_of : Config F → Setup
  setup_of cfg = record {
    fetch = o.fetch;
    schedule = o.schedule;
    cpus = o.cpus;
    from = cfg.from;
    concurrency_f = cfg.concurrency_f;
    eth = o.eth;
    iterate = o.iterate;
  }

  abbrev pub serve : List Action → Result (Config F) × World → Option (Result (Unit {0}))
  serve actions (ok cfg, w) = returned (run (setup_of cfg) actions (start w))
  serve actions (err e, w) = some (err e)

  -- `run`, after the actions of its service so far: `none` as long as it has not returned
  unfoldable pub run_indexer : Bool → List Action → World → Option (Result (Unit {0}))
  unfolding start_indexer run returned
  run_indexer reindex actions w = serve actions (start_indexer reindex w)

  unfoldable pub main_indexer : Bool → List Action → World → Option ℕ
  unfolding run_indexer exit_status
  main_indexer reindex actions w = exit_of (run_indexer reindex actions w)
