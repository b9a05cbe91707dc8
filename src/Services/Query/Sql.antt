-- ===== src/Services/Query/Sql.antt =====
-- The repository that cmd/api gives the query service: internal/repository/db/query.go.
use evm_indexer.Repository.Query
use evm_indexer.Services.Query.{QueryRepository}

unfoldable pub sql : QueryRepository
sql = record {
  get_block_by_hash = Query.get_block_by_hash;
  get_block_by_id = Query.get_block_by_id;
  get_blocks_by_range_id = Query.get_blocks_by_range_id;
  get_blocks_by_range_time = Query.get_blocks_by_range_time;
  get_transactions_by_filter = Query.get_transactions_by_filter;
  get_transactions_by_batch_blocks_id = Query.get_transactions_by_batch_blocks_id;
  get_events_by_filter = Query.get_events_by_filter;
  get_event_by_tx_hash_log_index = Query.get_event_by_tx_hash_log_index;
  get_events_by_batch_txs_hash = Query.get_events_by_batch_txs_hash;
}
