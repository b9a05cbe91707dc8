-- ===== src/Repository/Indexer/Sources.antt =====
-- Where the rows of the tables come from: INSERT ... ON CONFLICT DO NOTHING keeps a row that stands
-- under the key, and else puts in the given one, column by column.
use evm_indexer.Prelude.{ℕ, ◌≡◌, refl, sym, subst, ◌⊎◌, inl, inr, List, [], ◌∷◌, In, arith}
use evm_indexer.Domain.Errors.{ok}
use evm_indexer.Domain.Models.{Block, Transaction, Event, BlockTxsEvents}
use evm_indexer.Store.{
  Store, TxRow, EventRow, insert_block, insert_tx, insert_event, tx_row, event_row,
}
use evm_indexer.Exec.Keeps.{Keeps, Keeps-bind, Keeps-pure}
use evm_indexer.Repository.Indexer.{
  exec_txs, exec_events, create_body, create, with_rollback, ignore_error,
}
use evm_indexer.Repository.Indexer.Tables.{
  Holds, exchange-Keeps, run_sql-Keeps, with_rollback-Keeps, commit-Keeps,
}
use evm_indexer.Repository.Indexer.Preserved.{Stays, Preserves, effect_event-Keeps}

-- The row has the transaction's values in its columns; there is none for the status.
pub record IsTxRow (t : Transaction) (r : TxRow) : Type 0 where
  pub block_id : r.block_id ≡ t.block_id
  pub tx_hash : r.tx_hash ≡ t.hash
  pub from_addr : r.from_addr ≡ t.from
  pub to_addr : r.to_addr ≡ t.to
  pub gas_used : r.gas_used ≡ t.gas_used

-- The row has the event's values in its columns, under a number of the sequence.
pub record IsEventRow (e : Event) (r : EventRow) : Type 0 where
  pub block_id : r.block_id ≡ e.block_id
  pub log_index : r.log_index ≡ e.log_index
  pub tx_hash : r.tx_hash ≡ e.tx_hash
  pub emitter : r.emitter ≡ e.emitter
  pub datas : r.datas ≡ e.datas
  pub topics : r.topics ≡ e.topics

-- From `before` to `after` no row is lost, and each row that is new is that of a block, a transaction
-- or an event of a given item.
pub record Written (given : BlockTxsEvents → Type 0) (before after : Store) : Type 0 where
  pub blocks_kept : (r : Block) → In r before.blocks → In r after.blocks
  pub txs_kept : (r : TxRow) → In r before.transactions → In r after.transactions
  pub events_kept : (r : EventRow) → In r before.events → In r after.events
  pub block :
      (r : Block)
      → In r after.blocks
      → In r before.blocks ⊎ ((item : BlockTxsEvents) × given item × (r ≡ item.block))
  pub tx :
      (r : TxRow)
      → In r after.transactions
      → In r before.transactions
        ⊎ ((item : BlockTxsEvents) × given item × (t : Transaction) × In t item.txs × IsTxRow t r)
  pub event :
      (r : EventRow)
      → In r after.events
      → In r before.events
        ⊎ ((item : BlockTxsEvents) × given item × (e : Event) × In e item.events × IsEventRow e r)

pub insert_block-cases :
    (b : Block) (s s' : Store)
    → insert_block b s ≡ ok s'
    → (s' ≡ s) ⊎ (s' ≡ record s { blocks = b ∷ s.blocks })
unfolding insert_block
insert_block-cases b s s' h = ground arith

insert_tx_two :
    (t : Transaction) (s s' : Store)
    → insert_tx t s ≡ ok s'
    → (s' ≡ s) ⊎ (s' ≡ record s { transactions = tx_row t ∷ s.transactions })
unfolding insert_tx
insert_tx_two t s s' h = ground arith

insert_tx-cases :
    (t : Transaction) (s s' : Store)
    → insert_tx t s ≡ ok s'
    → (s' ≡ s) ⊎ ((r : TxRow) × IsTxRow t r × (s' ≡ record s { transactions = r ∷ s.transactions }))
unfolding tx_row
insert_tx-cases t s s' h = elim (insert_tx_two t s s' h) [
  | inl kept ↦ inl kept
  | inr put ↦ inr (
    tx_row t,
    record { block_id = refl; tx_hash = refl; from_addr = refl; to_addr = refl; gas_used = refl },
    put,
  )
]

insert_event_two :
    (id : ℕ) (e : Event) (s s' : Store)
    → insert_event id e s ≡ ok s'
    → (s' ≡ s) ⊎ (s' ≡ record s { events = event_row id e ∷ s.events })
unfolding insert_event
insert_event_two id e s s' h = ground arith

insert_event-cases :
    (id : ℕ) (e : Event) (s s' : Store)
    → insert_event id e s ≡ ok s'
    → (s' ≡ s) ⊎ ((r : EventRow) × IsEventRow e r × (s' ≡ record s { events = r ∷ s.events }))
unfolding event_row
insert_event-cases id e s s' h = elim (insert_event_two id e s s' h) [
  | inl kept ↦ inl kept
  | inr put ↦ inr (
    event_row id e,
    record {
      block_id = refl;
      log_index = refl;
      tx_hash = refl;
      emitter = refl;
      datas = refl;
      topics = refl;
    },
    put,
  )
]

module _ (given : BlockTxsEvents → Type 0) (before : Store) where
  pub Written-refl : Written given before before
  Written-refl = record {
    blocks_kept = λ r i. i;
    txs_kept = λ r i. i;
    events_kept = λ r i. i;
    block = λ r i. inl i;
    tx = λ r i. inl i;
    event = λ r i. inl i;
  }

  pub Written-cursor :
      (n : ℕ) (s : Store)
      → Written given before s
      → Written given before (record s { backfill_cursor = n })
  Written-cursor n s v = record {
    blocks_kept = v.blocks_kept;
    txs_kept = v.txs_kept;
    events_kept = v.events_kept;
    block = v.block;
    tx = v.tx;
    event = v.event;
  }

  pub given-Preserves : (item : BlockTxsEvents) → given item → Preserves (Written given before) item
  given-Preserves item g = record {
    block = λ s s' v h. elim (insert_block-cases item.block s s' h) [
      | inl kept ↦ subst (Written given before) (sym kept) v
      | inr put ↦ subst (Written given before) (sym put) (record {
        blocks_kept = λ r i. inr (v.blocks_kept r i);
        txs_kept = v.txs_kept;
        events_kept = v.events_kept;
        block = λ r i. elim i [ inl here ↦ inr (item, g, sym here) | inr there ↦ v.block r there ];
        tx = v.tx;
        event = v.event;
      })
    ];
    tx = λ t j s s' v h. elim (insert_tx-cases t s s' h) [
      | inl kept ↦ subst (Written given before) (sym kept) v
      | inr (row, is, put) ↦ subst (Written given before) (sym put) (record {
        blocks_kept = v.blocks_kept;
        txs_kept = λ r i. inr (v.txs_kept r i);
        events_kept = v.events_kept;
        block = v.block;
        tx = λ r i. elim i [
          | inl here ↦ inr (item, g, t, j, subst (IsTxRow t) here is)
          | inr there ↦ v.tx r there
        ];
        event = v.event;
      })
    ];
    event = λ e j id s s' v h. elim (insert_event-cases id e s s' h) [
      | inl kept ↦ subst (Written given before) (sym kept) v
      | inr (row, is, put) ↦ subst (Written given before) (sym put) (record {
        blocks_kept = v.blocks_kept;
        txs_kept = v.txs_kept;
        events_kept = λ r i. inr (v.events_kept r i);
        block = v.block;
        tx = v.tx;
        event = λ r i. elim i [
          | inl here ↦ inr (item, g, e, j, subst (IsEventRow e) here is)
          | inr there ↦ v.event r there
        ];
      })
    ];
  }

module _ (V : Store → Type 0) where
  exec_txs-Keeps :
      (ts : List Transaction)
      → ((t : Transaction) → In t ts → Stays V (insert_tx t))
      → Keeps (Holds V) (exec_txs ts)
  unfolding exec_txs
  exec_txs-Keeps [] k = Keeps-pure tt
  exec_txs-Keeps (t ∷ ts) k =
      Keeps-bind _ _ (run_sql-Keeps V (insert_tx t) (k t (inl refl)))
        (λ _. exec_txs-Keeps ts (λ x i. k x (inr i)))

  exec_events-Keeps :
      (es : List Event)
      → ((e : Event) → In e es → (id : ℕ) → Stays V (insert_event id e))
      → Keeps (Holds V) (exec_events es)
  unfolding exec_events
  exec_events-Keeps [] k = Keeps-pure tt
  exec_events-Keeps (e ∷ es) k = Keeps-bind _ _ (exchange-Keeps V) (λ _.
      Keeps-bind _ _ (effect_event-Keeps V e (k e (inl refl)))
        (λ _. exec_events-Keeps es (λ x i. k x (inr i))))

  create_body-Keeps :
      (item : BlockTxsEvents)
      → Preserves V item
      → Keeps (Holds V) (create_body item.block item.txs item.events)
  unfolding create_body
  create_body-Keeps item k = Keeps-bind _ _ (exchange-Keeps V) (λ _.
      Keeps-bind _ _ (run_sql-Keeps V (insert_block item.block) k.block) (λ _.
        Keeps-bind _ _ (exchange-Keeps V) (λ _.
          Keeps-bind _ _ (exec_txs-Keeps item.txs k.tx)
            (λ _. Keeps-bind _ _ (exchange-Keeps V) (λ _. exec_events-Keeps item.events k.event)))))

  pub create-preserved :
      (item : BlockTxsEvents)
      → Preserves V item
      → Keeps (Holds V) (create item.block item.txs item.events)
  unfolding create ignore_error
  create-preserved item k = record {
    at = λ w h.
        (Keeps-bind (with_rollback (create_body item.block item.txs item.events)) _
            (with_rollback-Keeps V _ (create_body-Keeps item k))
            (λ _. record { at = λ u k. (commit-Keeps V w.store h).at u k })).at
          w h;
  }
