-- ===== src/Services/Balancefill/Loop.antt =====
-- The loop of balancefill.go: each round applies the logs of one block that is final.
use evm_indexer.Prelude.{
  ℕ, ◌+◌, ◌-◌, Bool, ◌||◌, Option, none, some, List, [], ◌∷◌, ltb, leb, if◌then◌else◌,
}
use evm_indexer.Domain.Errors.{Error, ok}
use evm_indexer.Domain.Models.{Log, LogFilter}
use evm_indexer.Exec.{World, Exec, pure, raise, lift, ◌>>=◌, ◌>>◌}
use evm_indexer.Repository.Indexer.{
  get_balancefill_cursor, update_balancefill_cursor, get_max_indexed_block, get_logs_by_topic,
  batch_upsert_balance,
}
use evm_indexer.Services.Backfill.{u64}
use evm_indexer.Services.Balancefill.{
  Ethereum, Sums, transfer_signatures, extract_all, aggregate_same_entries,
}

-- `maxBlock < lag || blockCursor >= maxBlock-lag`
unfoldable pub must_wait : ℕ → ℕ → ℕ → Bool
must_wait lag max_block cursor = ltb max_block lag || leb (max_block - lag) cursor

-- the logs of transfers in one block
unfoldable pub block_filter : ℕ → LogFilter
block_filter cursor = record {
  topics = transfer_signatures;
  from_block = cursor;
  to_block = cursor;
}

abbrev pub next_cursor : ℕ → Option ℕ → ℕ
next_cursor cursor none = cursor
next_cursor cursor (some n) = n

abbrev pub by_others : (World → World) → Exec (Unit {0})
by_others change w = (ok tt, change w)

module _ (eth : Ethereum) (iterate : Sums → Sums) where
  -- `if len(events) > 0 { ... }`
  unfoldable pub apply_logs : List Log → Exec (Unit {0})
  apply_logs [] = pure tt
  apply_logs (e ∷ es) = do
    entries ← lift (extract_all eth (e ∷ es))
    batch_upsert_balance (aggregate_same_entries iterate entries)

  -- the part of a round that follows the wait: `none` where the block is not final yet
  unfoldable pub advance : ℕ → Exec (Option ℕ)
  advance cursor = do
    logs ← get_logs_by_topic (block_filter cursor)
    apply_logs logs
    update_balancefill_cursor (u64 (cursor + 1))
    pure (some (u64 (cursor + 1)))

  unfoldable pub balancefill_pass : ℕ → ℕ → Exec (Option ℕ)
  balancefill_pass lag cursor = do
    max_block ← get_max_indexed_block
    if must_wait lag max_block cursor then pure none else advance cursor

  -- One round for each entry of the list, which says what the other parts of the program do to the
  -- tables before it; at its end the context is cancelled.
  unfoldable pub balancefill_loop : ℕ → Error → List (World → World) → ℕ → Exec (Unit {0})
  balancefill_loop lag cancelled [] cursor = raise cancelled
  balancefill_loop lag cancelled (change ∷ changes) cursor =
      let rest = balancefill_loop lag cancelled changes in
      do by_others change; next ← balancefill_pass lag cursor; rest (next_cursor cursor next)

  unfoldable pub balancefill : ℕ → Error → List (World → World) → Exec (Unit {0})
  balancefill lag cancelled changes = do
    cursor ← get_balancefill_cursor
    balancefill_loop lag cancelled changes cursor
