-- ===== src/Services/Query/Written.antt =====
-- A block that the indexer wrote is found by the query service.
use evm_indexer.Prelude.{
  Str, ◌=ₛ◌, =ₛ_iff, ◌≡◌, inl, inr, Bool-cases, true, false, In, List, [], ◌∷◌, any, select, arith,
}
use evm_indexer.Domain.Errors.{ok}
use evm_indexer.Domain.Models.{Block, BlockTxsEvents}
use evm_indexer.Domain.Rules.{parse_hash}
use evm_indexer.Store.{same_hash}
use evm_indexer.Exec.{World, exchange, ◌>>=◌}
use evm_indexer.Repository.Indexer.{bulk_create}
use evm_indexer.Repository.Indexer.Committed.{bulk_create-HasKeys}
use evm_indexer.Repository.Query
use evm_indexer.Repository.Query.{query, non_empty, first_row}
use evm_indexer.Services.Query.{txs_of_block, get_block_by_hash}
use evm_indexer.Services.Query.Sql.{sql}

-- Where some row has the hash, the rows that are selected begin with one that has.
found_first :
    (h : Str) (rows : List Block)
    → any (same_hash h) rows ≡ true
    → (b : Block) × (bs : List Block) × (select (λ r. r.hash =ₛ h) rows ≡ b ∷ bs) × (b.hash ≡ h)
found_first h [] p = absurd (ground arith)
found_first h (r ∷ rows) p = elim (Bool-cases (r.hash =ₛ h)) [
  | inl e ↦ (r, select (λ r. r.hash =ₛ h) rows, ground arith, (=ₛ_iff r.hash h).0 e)
  | inr e ↦ let (b, bs, q, same) = found_first h rows (ground arith) in (b, bs, ground arith, same)
]

-- Once `BulkCreate` has returned without an error, `GetBlockByHash` without transactions, with the
-- hash of any block that it was given, finds a block of that hash, if the hash is well-formed and
-- the exchange is answered.
pub bulk_create-get_block_by_hash :
    (items : List BlockTxsEvents) (item : BlockTxsEvents) (w w' : World)
    → In item items
    → bulk_create items w ≡ (ok tt, w')
    → w'.faults ≡ []
    → parse_hash item.block.hash ≡ ok tt
    → (b : Block) × (b.hash ≡ item.block.hash)
      × ((get_block_by_hash sql item.block.hash false w').0 ≡ ok (record { block = b; txs = [] }))
unfolding get_block_by_hash sql Query.get_block_by_hash query non_empty first_row exchange ◌>>=◌
    txs_of_block
bulk_create-get_block_by_hash items item w w' i h answered well_formed =
    let (b, bs, p, same) =
      found_first item.block.hash w'.store.blocks (bulk_create-HasKeys items item i w w' h).block in
    (b, same, ground arith)
