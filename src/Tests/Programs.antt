-- ===== src/Tests/Programs.antt =====
-- The programs at concrete answers of the world.
use evm_indexer.Prelude.{
  ap, sym, ℕ, Str, ◌=ₛ◌, ◌≡◌, ◌↔◌, refl, true, false, List, [], ◌∷◌, if◌then◌else◌, arith,
}
use evm_indexer.Prelude.Int.{pos}
use evm_indexer.Domain.Errors.{Result, ok, err, external}
use evm_indexer.Store.{
  insert_block, block_fits, insert_tx, tx_fits, tx_row, insert_event, event_fits, event_row,
}
use evm_indexer.Exec.{World, exchange}
use evm_indexer.Exec as Exec
use evm_indexer.Repository.Indexer.{
  bulk_create, get_backfill_cursor, transact, with_rollback, bulk_body, run_sql, insert_all,
  bulk_events, bulk_txs, commit, effect, effect_event, effect_events, flat_events, flat_txs,
  update_backfill_cursor, reset_backfill_cursor,
}
use evm_indexer.Services.Backfill.{
  batch_size, resume_at, backfill, backfill_from, backfill_loop, backfill_round, fetch_batch,
  batch_count, batch_end, fetch_slots, keep_first, put_result, wait,
}
use evm_indexer.Domain.Models.{BlockTxsEvents}
use evm_indexer.Services.Backfill.Filled.{AreNumbered, IsFilled}
use evm_indexer.Config.{missing, Config, load, load_env, settings, read_or, getenv, find_key}
use evm_indexer.Metrics.{
  Metric, Registry, is_fit, is_taken, register_all, indexer_metrics, new_indexer_metrics,
}
use evm_indexer.Programs.{listen_failed, new_db, new_redis}
use evm_indexer.Programs.Api.{ApiOutside, main_api}
use evm_indexer.Programs.Indexer.{IndexerOutside, start_indexer, new_fetcher}
use evm_indexer.Programs.Exits.{IsStarted, main_api-zero_iff}
use evm_indexer.Programs.Reindex.{reindex_complete, refill}
use evm_indexer.Tests.{item_at, node, world, backwards, backwards-IsSchedule}
use evm_indexer.Tests.Fills.{eth, as_kept}

-- A registry that holds names.
abbrev add_name : Metric → List Str → Result (List Str)
add_name m names =
    if is_fit m
    then if is_taken names m then err (external 0) else ok (m.name ∷ names)
    else err (external 1)

add_name-registers :
    (m : Metric) (s : List Str)
    → is_fit m ≡ true
    → is_taken s m ≡ false
    → (t : List Str) × (add_name m s ≡ ok t) × (t ≡ m.name ∷ s)
add_name-registers m s fit free = (m.name ∷ s, rw (fit, free), refl)

abbrev registry : Registry
registry = record {
  State = List Str;
  new_registry = [];
  names = λ s. s;
  register = add_name;
  starts_empty = refl;
  registers = add_name-registers;
}

-- Everything answers, but the port is taken.
abbrev port_taken : ApiOutside ℕ
port_taken = record {
  env_file = missing;
  getenv = λ key. [];
  parse_float = λ s. err (external 2);
  rate_limit_default = 1;
  db_opened = ok tt;
  db_pinged = ok tt;
  dialect = ok tt;
  migrated = ok tt;
  redis_parsed = ok tt;
  redis_pinged = ok tt;
  receive = λ t. ok tt;
  wakeup = listen_failed (external 3);
  shutdown = ok tt;
}

main_api-zero_iff_example :
    (main_api registry (5 ∷ 10 ∷ []) port_taken ≡ 0)
    ↔ (IsStarted port_taken × (port_taken.shutdown ≡ ok tt))
main_api-zero_iff_example = main_api-zero_iff registry (5 ∷ 10 ∷ []) refl port_taken

abbrev outside : IndexerOutside ℕ
outside = record {
  env_file = missing;
  getenv = λ key. [];
  parse_float = λ s. err (external 2);
  rate_limit_default = 1;
  db_opened = ok tt;
  db_pinged = ok tt;
  redis_parsed = ok tt;
  redis_pinged = ok tt;
  http_dialled = ok tt;
  ws_dialled = ok tt;
  fetch = node;
  schedule = backwards;
  cpus = 1;
  eth = eth;
  iterate = as_kept;
}

-- The cursor of an earlier run.
abbrev at_seven : World
at_seven = record world { store = record (world.store) { backfill_cursor = 7 } }

abbrev read_settings : Config ℕ
read_settings = record {
  postgres_dsn = [];
  redis_dsn = [];
  rpc_http = [];
  rpc_ws = [];
  port = [];
  playground_enabled = false;
  range_max_time = 3600;
  offset_max = 100;
  rpc_rate_limit = 1;
  from = 0;
  concurrency_f = pos 2;
}

starts : start_indexer registry outside true at_seven ≡ (ok read_settings, world)
unfolding start_indexer load load_env settings read_or getenv find_key ◌=ₛ◌ new_indexer_metrics
    register_all indexer_metrics new_db new_redis new_fetcher reset_backfill_cursor run_sql effect
    exchange Exec.◌>>=◌
starts = refl

signalled : (refill outside 1 read_settings world).0 ≡ ok true
unfolding backfill batch_size Exec.◌>>=◌ get_backfill_cursor exchange backfill_from resume_at
    backfill_loop backfill_round fetch_batch batch_count batch_end bulk_create transact
    with_rollback bulk_body run_sql insert_all insert_block ◌=ₛ◌ bulk_events bulk_txs commit effect
    effect_event effect_events flat_events flat_txs update_backfill_cursor fetch_slots keep_first
    put_result wait block_fits event_fits event_row insert_event insert_tx tx_fits tx_row
signalled = refl

numbered : AreNumbered node 0 1
numbered id d l h p =
    let same : item_at id ≡ d = ground (arith, p) in
    ap (λ (x : BlockTxsEvents). x.block.id) (sym same)

reindex_complete_example :
    IsFilled node 0 1 world.store (refill outside 1 read_settings world).1.store
unfolding batch_size
reindex_complete_example =
    reindex_complete registry outside backwards-IsSchedule 1 at_seven world read_settings
      (ground arith) (ground arith) numbered starts signalled
