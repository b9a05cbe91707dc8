-- ===== src/Tests/Answers.antt =====
-- The theorems about the query service at concrete inputs.
use evm_indexer.Prelude.{
  false, arith, ℕ, ◌≤◌, ◌<◌, ◌+◌, ◌==◌, ◌≡◌, refl, true, none, some, [], ◌∷◌, map, select,
  if◌then◌else◌,
}
use evm_indexer.Domain.Errors.{ok}
use mathlib.Core.List.Perm
use evm_indexer.Prelude.Int.{pos}
use evm_indexer.Domain.Models.{BlockTxs, TransactionFilter, EventFilter}
use evm_indexer.Store.{empty, tx_row, event_row}
use evm_indexer.Domain.Rules.{validate_block_range}
use evm_indexer.Exec.{World, ◌>>=◌, exchange}
use evm_indexer.Repository.Query
use evm_indexer.Repository.Query.{
  query_ordered, all_below, query, scan_tx, scan_event, in_range, in_time, tx_wanted, event_wanted,
}
use evm_indexer.Services.Backfill.{u64}
use evm_indexer.Services.Query.{
  offset_default, get_blocks_with_offset, get_blocks_by_range_time, get_events_by_filter,
  get_transactions_by_filter, with_txs, get_transactions_by_batch_blocks_id,
}
use evm_indexer.Services.Query.Checks.{check_event_filter, check_tx_filter}
use evm_indexer.Services.Query.Sql.{sql}
use evm_indexer.Services.Query.Blocks.{
  shown, get_blocks_with_offset-answer, get_blocks_by_range_time-answer,
}
use evm_indexer.Services.Query.Found.{get_blocks_with_offset-found}
use evm_indexer.Services.Query.Filters.{
  IsChosen, IsLimit, get_events_by_filter-answer, get_transactions_by_filter-answer,
}
use evm_indexer.Tests.{block_at, tx_at, event_at, world}

abbrev filled : World
filled = record world {
  store = record empty {
    blocks = block_at 3 ∷ block_at 2 ∷ block_at 1 ∷ [];
    transactions = tx_row (tx_at 2) ∷ tx_row (tx_at 1) ∷ [];
    events = event_row 2 (event_at 2) ∷ event_row 1 (event_at 1) ∷ [];
  };
}

abbrev out_2 : BlockTxs
out_2 = record { block = block_at 2; txs = record (tx_at 2) { status = 0 } ∷ [] }

abbrev out_1 : BlockTxs
out_1 = record { block = block_at 1; txs = record (tx_at 1) { status = 0 } ∷ [] }

get_blocks_with_offset-answer_example :
    (2 ≤ 10)
    × ((out_2 ∷ out_1 ∷ [])
        ≡ map (shown true filled.store) (
            select
              (in_range 1 (u64 (1 + (if 2 == 0 then offset_default else 2))))
              filled.store.blocks))
    × (filled.store ≡ filled.store)
unfolding get_blocks_with_offset ◌>>=◌ sql Query.get_blocks_by_range_id query exchange with_txs
    get_transactions_by_batch_blocks_id Query.get_transactions_by_batch_blocks_id tx_row
get_blocks_with_offset-answer_example =
    get_blocks_with_offset-answer 10 1 2 true filled filled (out_2 ∷ out_1 ∷ []) refl

abbrev early : World
early = record filled { store = record (filled.store) { blocks = block_at 2 ∷ block_at 1 ∷ [] } }

get_blocks_by_range_time-answer_example :
    ((0 < 99) × (99 < 101) × (101 ≤ 99 + 5))
    × ((out_2 ∷ out_1 ∷ [])
        ≡ map (shown true early.store) (select (in_time 99 101) early.store.blocks))
    × (early.store ≡ early.store)
unfolding get_blocks_by_range_time ◌>>=◌ validate_block_range sql Query.get_blocks_by_range_time
    query exchange with_txs get_transactions_by_batch_blocks_id
    Query.get_transactions_by_batch_blocks_id tx_row
get_blocks_by_range_time-answer_example =
    get_blocks_by_range_time-answer 5 99 101 true early early (out_2 ∷ out_1 ∷ []) refl

abbrev by_emitter : EventFilter
by_emitter = record {
  tx_hash = none;
  emitter = none;
  topics = [];
  from_block = some 1;
  to_block = some 3;
  limit = some (pos 1);
}

get_events_by_filter-answer_example :
    ((n : ℕ) × IsLimit 10 (some (pos 1)) n
      × IsChosen scan_event n
          (select (event_wanted by_emitter) filled.store.events)
          (event_at 2 ∷ []))
    × (filled.store ≡ filled.store)
unfolding get_events_by_filter ◌>>=◌ check_event_filter validate_block_range sql
    Query.get_events_by_filter query_ordered exchange event_row
get_events_by_filter-answer_example =
    get_events_by_filter-answer 10 by_emitter filled filled (event_at 2 ∷ []) Perm.refl refl

abbrev in_blocks : TransactionFilter
in_blocks = record {
  block_id = none;
  hash = none;
  from = none;
  to = none;
  from_block = some 1;
  to_block = some 3;
  limit = none;
}

get_transactions_by_filter-answer_example :
    ((n : ℕ) × IsLimit 10 none n
      × IsChosen scan_tx n
          (select (tx_wanted in_blocks) filled.store.transactions)
          (record (tx_at 2) { status = 0 } ∷ record (tx_at 1) { status = 0 } ∷ []))
    × (filled.store ≡ filled.store)
unfolding get_transactions_by_filter ◌>>=◌ check_tx_filter validate_block_range sql
    Query.get_transactions_by_filter query_ordered exchange tx_row
get_transactions_by_filter-answer_example =
    get_transactions_by_filter-answer 10 in_blocks filled filled
      (record (tx_at 2) { status = 0 } ∷ record (tx_at 1) { status = 0 } ∷ []) Perm.refl refl

get_blocks_with_offset-found_example :
    (get_blocks_with_offset sql 10 1 2 false filled).0
    ≡ ok (map (shown false filled.store) (block_at 2 ∷ block_at 1 ∷ []))
unfolding all_below
get_blocks_with_offset-found_example =
    get_blocks_with_offset-found 10 1 2 filled (block_at 2) (block_at 1 ∷ []) refl (omega arith)
      refl refl
