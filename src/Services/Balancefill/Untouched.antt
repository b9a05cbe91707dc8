-- ===== src/Services/Balancefill/Untouched.antt =====
-- A round of the balance fill leaves the blocks and the events as they are.
use evm_indexer.Prelude.{ℕ, ◌≡◌, none, List, [], ◌∷◌, arith}
use evm_indexer.Domain.Models.{Block, Log, BalanceEntry}
use evm_indexer.Store.{Store, EventRow}
use evm_indexer.Store.Balances.{upsert_balances}
use evm_indexer.Exec.Keeps.{Keeps, Keeps-bind, Keeps-pure, Keeps-lift, Keeps-gets, Keeps-if}
use evm_indexer.Repository.Indexer.{
  batch_upsert_balance, update_balancefill_cursor, get_max_indexed_block,
}
use evm_indexer.Repository.Indexer.Tables.{Holds, exchange-Keeps, run_sql-Keeps, transact-Keeps}
use evm_indexer.Repository.Indexer.Durable.{get_logs-Keeps}
use evm_indexer.Services.Balancefill.{Ethereum, Sums}
use evm_indexer.Services.Balancefill.Loop.{apply_logs, advance, must_wait, balancefill_pass}

module _ (blocks : List Block) (events : List EventRow) where
  abbrev pub Rows : Store → Type 0
  Rows s = (s.blocks ≡ blocks) × (s.events ≡ events)

  upsert-Keeps : (es : List BalanceEntry) → Keeps (Holds Rows) (batch_upsert_balance es)
  unfolding batch_upsert_balance upsert_balances
  upsert-Keeps es = transact-Keeps Rows _ (
      Keeps-bind _ _ (exchange-Keeps Rows)
        (λ _. run_sql-Keeps Rows (upsert_balances es) (λ s s' v h. ground arith)))

  cursor-Keeps : (n : ℕ) → Keeps (Holds Rows) (update_balancefill_cursor n)
  unfolding update_balancefill_cursor
  cursor-Keeps n = run_sql-Keeps Rows _ (λ s s' v h. ground arith)

  module _ (eth : Ethereum) (iterate : Sums → Sums) where
    apply-Keeps : (logs : List Log) → Keeps (Holds Rows) (apply_logs eth iterate logs)
    unfolding apply_logs
    apply-Keeps [] = Keeps-pure tt
    apply-Keeps (l ∷ ls) = Keeps-bind _ _ (Keeps-lift _) (λ entries. upsert-Keeps _)

    advance-Keeps : (cursor : ℕ) → Keeps (Holds Rows) (advance eth iterate cursor)
    unfolding advance
    advance-Keeps cursor = Keeps-bind _ _ (get_logs-Keeps Rows _) (λ logs.
        Keeps-bind _ _ (apply-Keeps logs)
          (λ _. Keeps-bind _ _ (cursor-Keeps _) (λ _. Keeps-pure _)))

    pub pass-Keeps : (lag cursor : ℕ) → Keeps (Holds Rows) (balancefill_pass eth iterate lag cursor)
    unfolding balancefill_pass get_max_indexed_block
    pass-Keeps lag cursor =
        Keeps-bind _ _ (Keeps-bind _ _ (exchange-Keeps Rows) (λ _. Keeps-gets _)) (λ max_block.
          Keeps-if (must_wait lag max_block cursor) _ _ (Keeps-pure none) (advance-Keeps cursor))
