-- ===== src/Services/Query/Found.antt =====
-- When the list of blocks is answered, and when it is reported as not found.
use evm_indexer.Prelude.{
  ℕ, ◌+◌, ◌≤◌, ◌==◌, ◌≡◌, true, false, List, [], ◌∷◌, map, select, ltb, if◌then◌else◌, ap, arith,
  refl,
}
use evm_indexer.Domain.Errors.{ok, err, not_found}
use evm_indexer.Domain.Models.{Block}
use evm_indexer.Exec.{World, ◌>>=◌, exchange}
use evm_indexer.Repository.Query
use evm_indexer.Repository.Query.{
  in_range, one_of_ids, query, arguments, all_below, non_empty, bigint, int, scan_tx,
}
use evm_indexer.Services.Backfill.{u64}
use evm_indexer.Services.Query.{
  offset_default, aggregate_blocks_id, txs_at, group_txs, txs_of_blocks,
  get_transactions_by_batch_blocks_id, with_txs, get_blocks_with_offset,
}
use evm_indexer.Services.Query.Sql.{sql}
use evm_indexer.Services.Query.Blocks.{shown, attach_txs-shown}

-- The end of the range that an offset stands for.
abbrev pub range_end : ℕ → ℕ → ℕ
range_end from offset = u64 (from + (if offset == 0 then offset_default else offset))

module _ (offset_max from offset : ℕ) (w : World) (b : Block) (bs : List Block)
    (answered : w.faults ≡ []) (allowed : offset ≤ offset_max)
    (fits : all_below bigint (from ∷ range_end from offset ∷ []) ≡ true)
    (stored : select (in_range from (range_end from offset)) w.store.blocks ≡ b ∷ bs) where
  -- If every exchange is answered, the offset is allowed, both ends of the range are below 2 ^ 63 and
  -- some block is stored in the range, then `GetBlocksWithOffset` without transactions returns one
  -- entry for each stored block of the range, without an error.
  pub get_blocks_with_offset-found :
      (get_blocks_with_offset sql offset_max from offset false w).0
      ≡ ok (map (shown false w.store) (b ∷ bs))
  unfolding get_blocks_with_offset sql Query.get_blocks_by_range_id query arguments exchange ◌>>=◌
      with_txs get_transactions_by_batch_blocks_id txs_of_blocks non_empty group_txs txs_at
  get_blocks_with_offset-found =
      let passed : ltb offset_max offset ≡ false = ground arith in
      rw (passed, fits, answered, stored)
        (ap ok (attach_txs-shown false w.store [] (b ∷ bs) (λ x i. refl)))

  -- Under the same conditions, with the ids of those blocks below 2 ^ 31 and no transaction stored in
  -- any of them, `GetBlocksWithOffset` with transactions returns ErrNotFound, though it found blocks.
  pub get_blocks_with_offset-no_txs :
      all_below int (aggregate_blocks_id (b ∷ bs)) ≡ true
      → select (λ r. one_of_ids (aggregate_blocks_id (b ∷ bs)) r.block_id) w.store.transactions ≡ []
      → (get_blocks_with_offset sql offset_max from offset true w).0 ≡ err not_found
  unfolding get_blocks_with_offset sql Query.get_blocks_by_range_id query arguments exchange ◌>>=◌
      with_txs get_transactions_by_batch_blocks_id txs_of_blocks non_empty
      Query.get_transactions_by_batch_blocks_id
  get_blocks_with_offset-no_txs small none_stored =
      let passed : ltb offset_max offset ≡ false = ground arith in
      rw (passed, fits, answered, stored, small, none_stored)
