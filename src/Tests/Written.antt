-- ===== src/Tests/Written.antt =====
-- A block that is written and read again.
use evm_indexer.Prelude.{Str, ◌≡◌, refl, inl, false, [], ◌∷◌, replicate}
use evm_indexer.Domain.Errors.{ok}
use evm_indexer.Domain.Models.{Block, BlockTxsEvents}
use evm_indexer.Domain.Rules.{parse_hash}
use evm_indexer.Store.{insert_block, block_fits}
use evm_indexer.Exec.{World, ◌>>=◌, exchange}
use evm_indexer.Repository.Indexer.{
  bulk_create, transact, with_rollback, bulk_body, run_sql, insert_all, bulk_events, bulk_txs,
  commit, effect, flat_events, flat_txs,
}
use evm_indexer.Services.Query.{get_block_by_hash}
use evm_indexer.Services.Query.Sql.{sql}
use evm_indexer.Services.Query.Written.{bulk_create-get_block_by_hash}
use evm_indexer.Tests.{block_at, world}

-- "0x" and 64 zeros
abbrev whole_hash : Str
whole_hash = 48 ∷ 120 ∷ replicate 64 48

abbrev lone_block : BlockTxsEvents
lone_block = record { block = record (block_at 1) { hash = whole_hash }; txs = []; events = [] }

abbrev wrote : World
wrote = record world { store = record (world.store) { blocks = lone_block.block ∷ [] } }

wrote_lem : bulk_create (lone_block ∷ []) world ≡ (ok tt, wrote)
unfolding bulk_create transact with_rollback bulk_body run_sql insert_all insert_block block_fits
    bulk_events bulk_txs commit effect flat_events flat_txs ◌>>=◌ exchange
wrote_lem = refl

whole_hash_lem : parse_hash whole_hash ≡ ok tt
unfolding parse_hash
whole_hash_lem = refl

bulk_create-get_block_by_hash_example :
    (b : Block) × (b.hash ≡ whole_hash)
    × ((get_block_by_hash sql whole_hash false wrote).0 ≡ ok (record { block = b; txs = [] }))
bulk_create-get_block_by_hash_example =
    bulk_create-get_block_by_hash (lone_block ∷ []) lone_block world wrote (inl refl) wrote_lem refl
      whole_hash_lem
