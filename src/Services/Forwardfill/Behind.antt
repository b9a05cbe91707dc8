-- ===== src/Services/Forwardfill/Behind.antt =====
-- A new block that the node announces on one connection and does not know on the other.
use evm_indexer.Prelude.{ℕ, Str, true, Option}
use evm_indexer.Prelude.Int.{ℤ}
use evm_indexer.Domain.Errors.{Error, Result}
use evm_indexer.Domain.Models.{Block, BlockTxsEvents}
use evm_indexer.Store.{Store}
use evm_indexer.Fetcher.Attempts.{Retry}
use evm_indexer.Fetcher.{Hexes, zero_body, extract_block, Answer, fetch_block}

module _ (hexes : Hexes) (code_of : Error → Option ℤ) (retry : Retry BlockTxsEvents)
    (node : Str → ℕ → Answer) where
  -- the block of a null answer
  abbrev pub zero_hash_block : Block
  zero_hash_block = extract_block hexes zero_body

  abbrev pub fetch_priority : ℕ → Result BlockTxsEvents
  fetch_priority n = fetch_block hexes code_of retry node true n
