-- ===== src/Repository/Indexer/Durable.antt =====
-- Invariants of the tables that the deletion of a block, the upsert of balances and the balance
-- fill's cursor keep too.
use evm_indexer.Prelude.{ℕ, ◌≡◌, List, arith, subst}
use evm_indexer.Domain.Errors.{ok}
use evm_indexer.Domain.Models.{BalanceEntry, LogFilter}
use evm_indexer.Store.{Store, delete_events, delete_transactions, delete_blocks}
use evm_indexer.Store.Balances.{upsert_balances}
use evm_indexer.Exec.Keeps.{Keeps, Keeps-bind, Keeps-lift, Keeps-gets}
use evm_indexer.Repository.Indexer.{
  at_int, at_bigint, get_logs_by_topic, run_sql, update_balancefill_cursor, delete_body, delete,
  batch_upsert_balance,
}
use evm_indexer.Repository.Indexer.Tables.{
  IsStable, Holds, exchange-Keeps, run_sql-Keeps, transact-Keeps,
}

-- What survives every statement of the forward fill and of the balance fill.
pub record IsDurable (V : Store → Type 0) : Type 0 where
  pub stable : IsStable V
  pub by_delete_events : (n : ℕ) (s : Store) → V s → V (delete_events n s)
  pub by_delete_transactions : (n : ℕ) (s : Store) → V s → V (delete_transactions n s)
  pub by_delete_blocks : (n : ℕ) (s : Store) → V s → V (delete_blocks n s)
  pub by_upsert :
      (es : List BalanceEntry) (s s' : Store) → V s → upsert_balances es s ≡ ok s' → V s'
  pub by_balancefill_cursor : (n : ℕ) (s : Store) → V s → V (record s { balancefill_cursor = n })

module _ (V : Store → Type 0) where
  -- A statement that cannot fail.
  pub always-Keeps :
      (f : Store → Store)
      → ((s : Store) → V s → V (f s))
      → Keeps (Holds V) (run_sql (λ s. ok (f s)))
  always-Keeps f k = run_sql-Keeps V (λ s. ok (f s)) (λ s s' v h. subst V (ground arith) (k s v))

  at_int-Keeps :
      (n : ℕ) (f : Store → Store)
      → ((s : Store) → V s → V (f s))
      → Keeps (Holds V) (run_sql (at_int n f))
  unfolding at_int
  at_int-Keeps n f k = run_sql-Keeps V (at_int n f) (λ s s' v h. subst V (ground arith) (k s v))

  pub at_bigint-Keeps :
      (n : ℕ) (f : Store → Store)
      → ((s : Store) → V s → V (f s))
      → Keeps (Holds V) (run_sql (at_bigint n f))
  unfolding at_bigint
  at_bigint-Keeps n f k =
      run_sql-Keeps V (at_bigint n f) (λ s s' v h. subst V (ground arith) (k s v))

  pub get_logs-Keeps : (f : LogFilter) → Keeps (Holds V) (get_logs_by_topic f)
  unfolding get_logs_by_topic
  get_logs-Keeps f =
      Keeps-bind _ _ (exchange-Keeps V) (λ _. Keeps-bind _ _ (Keeps-lift _) (λ _. Keeps-gets _))

  module _ (durable : IsDurable V) where
    pub delete-Keeps : (n : ℕ) → Keeps (Holds V) (delete n)
    unfolding delete delete_body
    delete-Keeps n = transact-Keeps V _ (
        Keeps-bind _ _ (exchange-Keeps V) (λ _.
          Keeps-bind _ _ (at_int-Keeps n (delete_events n) (durable.by_delete_events n)) (λ _.
            Keeps-bind _ _
              (at_int-Keeps n (delete_transactions n) (durable.by_delete_transactions n))
              (λ _. always-Keeps (delete_blocks n) (durable.by_delete_blocks n)))))

    pub upsert-Keeps : (es : List BalanceEntry) → Keeps (Holds V) (batch_upsert_balance es)
    unfolding batch_upsert_balance
    upsert-Keeps es =
        transact-Keeps V _
          (Keeps-bind _ _ (exchange-Keeps V) (λ _. run_sql-Keeps V _ (durable.by_upsert es)))

    pub balancefill_cursor-Keeps : (n : ℕ) → Keeps (Holds V) (update_balancefill_cursor n)
    unfolding update_balancefill_cursor
    balancefill_cursor-Keeps n = at_bigint-Keeps n _ (durable.by_balancefill_cursor n)
