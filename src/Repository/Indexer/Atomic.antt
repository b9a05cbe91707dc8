-- ===== src/Repository/Indexer/Atomic.antt =====
-- `Create` and `BulkCreate` are all or nothing; `Create` does not say which.
use evm_indexer.Prelude.{◌≡◌, refl, subst, ◌⊎◌, inl, inr, List, [], ◌∷◌, In, arith, Option, some}
use evm_indexer.Domain.Errors.{Error, Result, ok, err, Result-cases}
use evm_indexer.Domain.Models.{Transaction, Event, BlockTxsEvents}
use evm_indexer.Store.{Store, insert_tx}
use evm_indexer.Exec.{World, Exec, ◌>>=◌, exchange, outcome}
use evm_indexer.Exec.Keeps.{Keeps-bind, Establishes, Establishes-first, Establishes-rest}
use evm_indexer.Repository.Indexer.{
  commit, rolled_back, with_rollback, transact, ignore_error, exec_txs, exec_events, create_body,
  create, bulk_body, bulk_create,
}
use evm_indexer.Repository.Indexer.Tables.{Holds, exchange-Keeps}
use evm_indexer.Repository.Indexer.Writes.{exec_txs-Keeps, exec_events-Keeps}
use evm_indexer.Repository.Indexer.Stored.{
  HasBlock, HasTx, HasEvent, HasBlock-IsStable, HasTx-IsStable, HasEvent-IsStable,
  insert_block-HasBlock, insert_tx-HasTx, HasKeys,
}
use evm_indexer.Repository.Indexer.Preserved.{preserved-Keeps}
use evm_indexer.Repository.Indexer.Sources.{
  Written, Written-refl, given-Preserves, create-preserved,
}
use evm_indexer.Repository.Indexer.Committed.{
  run_sql-Establishes, effect_event-Establishes, bulk_create-HasKeys,
}

-- What a finished call says: `ok` with `P` of the tables, or an error with the tables as before.
abbrev pub AllOrNothing : (Store → Type 0) → Store → Result (Unit {0}) × World → Type 0
AllOrNothing P s (r, w') = ((r ≡ ok tt) × P w'.store) ⊎ ((e : Error) × (r ≡ err e) × (w'.store ≡ s))

module _ (m : Exec (Unit {0})) (w : World) where
  rolled_back-cases : AllOrNothing (λ s. Unit) w.store (with_rollback m w)
  unfolding with_rollback
  rolled_back-cases = go (m w)
    where
      go :
          (p : Result (Unit {0}) × World)
          → AllOrNothing (λ s. Unit) w.store (p.0, rolled_back w.store p.0 p.1)
      go (ok tt, u) = inl (refl, tt)
      go (err e, u) = inr (e, refl, refl)

  pub transact-cases : AllOrNothing (λ s. Unit) w.store (transact m w)
  unfolding transact ◌>>=◌ commit
  transact-cases = ground (arith, rolled_back-cases)

-- A row stands under each key of the item, and the tables have grown by rows of given items alone.
abbrev pub Filed : (BlockTxsEvents → Type 0) → BlockTxsEvents → Store → Store → Type 0
Filed given item before after = HasKeys item after × Written given before after

abbrev pub Everything : List BlockTxsEvents → Store → Store → Type 0
Everything items before after =
    ((item : BlockTxsEvents) → In item items → HasKeys item after)
    × Written (λ item. In item items) before after

-- `BulkCreate` either returns no error, and then a row stands under each key of every item's block,
-- transactions and events, no row has been lost, and each row that was not there before is that of a
-- given block, transaction or event, column by column; or it returns an error and has left the
-- tables as they were.
pub bulk_create-AllOrNothing :
    (items : List BlockTxsEvents) (w : World)
    → AllOrNothing (Everything items w.store) w.store (bulk_create items w)
unfolding bulk_create
bulk_create-AllOrNothing items w =
    let written =
      (preserved-Keeps (Written (λ item. In item items) w.store) items
          (given-Preserves (λ item. In item items) w.store)).at
        w (Written-refl _ w.store) in
    elim (transact-cases (bulk_body items) w) [
      | inl (p, _) ↦ inl (
        p,
        (
          λ item i.
              bulk_create-HasKeys items item i w (bulk_create items w).1
                (λ k. (p k, (bulk_create items w).1)),
          written,
        ),
      )
      | inr failed ↦ inr failed
    ]

exec_txs-Establishes :
    (ts : List Transaction) (t : Transaction)
    → In t ts
    → Establishes (Holds (HasTx t.hash)) (exec_txs ts)
unfolding exec_txs
exec_txs-Establishes [] t i = absurd i
exec_txs-Establishes (x ∷ xs) t (inl here) =
    subst (λ z. Establishes (Holds (HasTx z.hash)) (exec_txs (x ∷ xs))) here
      (Establishes-first _ _ (run_sql-Establishes (HasTx x.hash) (insert_tx x) (insert_tx-HasTx x))
        (λ _. exec_txs-Keeps _ (HasTx-IsStable x.hash) xs))
exec_txs-Establishes (x ∷ xs) t (inr there) =
    Establishes-rest _ _ (λ _. exec_txs-Establishes xs t there)

exec_events-Establishes :
    (es : List Event) (e : Event)
    → In e es
    → Establishes (Holds (HasEvent e.tx_hash e.log_index)) (exec_events es)
unfolding exec_events
exec_events-Establishes [] e i = absurd i
exec_events-Establishes (x ∷ xs) e (inl here) =
    subst (λ z. Establishes (Holds (HasEvent z.tx_hash z.log_index)) (exec_events (x ∷ xs))) here
      (Establishes-rest exchange _ (λ _.
        Establishes-first _ _ (effect_event-Establishes x)
          (λ _. exec_events-Keeps _ (HasEvent-IsStable x.tx_hash x.log_index) xs)))
exec_events-Establishes (x ∷ xs) e (inr there) =
    Establishes-rest exchange _
      (λ _. Establishes-rest _ _ (λ _. exec_events-Establishes xs e there))

module _ (item : BlockTxsEvents) where
  abbrev body : Exec (Unit {0})
  body = create_body item.block item.txs item.events

  body-HasBlock : Establishes (Holds (HasBlock item.block.hash)) body
  unfolding create_body
  body-HasBlock =
      let k = HasBlock-IsStable item.block.hash in
      Establishes-rest _ _ (λ _.
        Establishes-first _ _ (run_sql-Establishes _ _ (insert_block-HasBlock item.block)) (λ _.
          Keeps-bind _ _ (exchange-Keeps _) (λ _.
            Keeps-bind _ _ (exec_txs-Keeps _ k item.txs)
              (λ _. Keeps-bind _ _ (exchange-Keeps _) (λ _. exec_events-Keeps _ k item.events)))))

  body-HasTx : (t : Transaction) → In t item.txs → Establishes (Holds (HasTx t.hash)) body
  unfolding create_body
  body-HasTx t i = Establishes-rest _ _ (λ _. Establishes-rest _ _ (λ _. Establishes-rest _ _ (λ _.
      Establishes-first _ _ (exec_txs-Establishes item.txs t i) (λ _.
        Keeps-bind _ _ (exchange-Keeps _)
          (λ _. exec_events-Keeps _ (HasTx-IsStable t.hash) item.events)))))

  body-HasEvent :
      (e : Event) → In e item.events → Establishes (Holds (HasEvent e.tx_hash e.log_index)) body
  unfolding create_body
  body-HasEvent e i = Establishes-rest _ _ (λ _. Establishes-rest _ _ (λ _.
      Establishes-rest _ _ (λ _.
        Establishes-rest _ _
          (λ _. Establishes-rest _ _ (λ _. exec_events-Establishes item.events e i)))))

  body-HasKeys : Establishes (Holds (HasKeys item)) body
  body-HasKeys = record {
    at = λ w a w' h. record {
      block = body-HasBlock.at w a w' h;
      txs = λ t i. (body-HasTx t i).at w a w' h;
      events = λ e i. (body-HasEvent e i).at w a w' h;
    };
  }

-- `Create` either returns no error, and then the tables are as they were, or a row stands under each
-- key of the block, the transactions and the events, no row has been lost, and each row that was not
-- there before is that of the block, of one of the transactions or of one of the events, column by
-- column; or it returns an error and has left the tables as they were.
pub create-AllOrNothing :
    (item : BlockTxsEvents) (w : World)
    → AllOrNothing
        (λ s. Filed (λ x. x ≡ item) item w.store s ⊎ (s ≡ w.store))
        w.store
        (create item.block item.txs item.events w)
unfolding create with_rollback ◌>>=◌ ignore_error commit
create-AllOrNothing item w =
    let V = Written (λ x. x ≡ item) w.store in
    let written =
      (create-preserved V item (given-Preserves (λ x. x ≡ item) w.store item refl)).at w
        (Written-refl _ w.store) in
    elim (Result-cases (body item w).0) [
      | inr (e, p) ↦ inr (e, ground arith, ground arith)
      | inl (_, p) ↦ inl (
        ground arith,
        elim (Result-cases (outcome (body item w).1.faults)) [
          | inl (_, q) ↦ inl (
            subst (HasKeys item) (ground arith)
                ((body-HasKeys item).at w tt (body item w).1 (λ k. (p k, (body item w).1))),
            written,
          )
          | inr (e, q) ↦ inr (ground arith)
        ],
      )
    ]

-- `Create` returns no error where the commit failed, and then it has written nothing.
pub create-commit_failure :
    (item : BlockTxsEvents) (w v : World) (e : Error) (rest : List (Option Error))
    → create_body item.block item.txs item.events w ≡ (ok tt, v)
    → v.faults ≡ some e ∷ rest
    → ((create item.block item.txs item.events w).0 ≡ ok tt)
      × ((create item.block item.txs item.events w).1.store ≡ w.store)
unfolding create with_rollback ◌>>=◌ ignore_error commit
create-commit_failure item w v e rest h f = ground arith
