-- ===== src/Services/Indexer/Kept.antt =====
-- Invariants of the tables that the three fills keep, in any interleaving.
use evm_indexer.Prelude.{ℕ, Option, none, some, List, [], ◌∷◌, arith, ◌=ₛ◌}
use evm_indexer.Domain.Errors.{Result}
use evm_indexer.Domain.Models.{Block, Transaction, Event, Log, BlockTxsEvents}
use evm_indexer.Store.{Store}
use evm_indexer.Exec.{Message, exchange, ◌>>=◌}
use evm_indexer.Exec.Keeps.{Keeps, Keeps-bind, Keeps-pure, Keeps-lift, Keeps-gets, Keeps-if}
use evm_indexer.Repository.Indexer.{
  update_backfill_cursor, get_block_by_id, get_max_indexed_block, get_backfill_cursor,
  get_balancefill_cursor,
}
use evm_indexer.Repository.Indexer.Tables.{Holds, exchange-Keeps}
use evm_indexer.Repository.Indexer.Writes.{create-Keeps, bulk_create-Keeps}
use evm_indexer.Repository.Indexer.Durable.{
  IsDurable, delete-Keeps, upsert-Keeps, balancefill_cursor-Keeps,
}
use evm_indexer.Repository.Indexer.Durable.{get_logs-Keeps}
use evm_indexer.Services.Backfill.{backfill_round}
use evm_indexer.Services.Forwardfill.{
  publish, existing_block, replace_rival, publish_txs, publish_events, publish_item, handle_item,
  handle_head,
}
use evm_indexer.Services.Balancefill.{Ethereum, Sums}
use evm_indexer.Services.Balancefill.Loop.{apply_logs, advance, balancefill_pass, must_wait}

module _ (V : Store → Type 0) where
  publish-Keeps : (m : Message) → Keeps (Holds V) (publish m)
  unfolding publish
  publish-Keeps m = Keeps-bind _ _ (exchange-Keeps V) (λ _. record { at = λ w h. h })

  publish_txs-Keeps : (ts : List Transaction) → Keeps (Holds V) (publish_txs ts)
  unfolding publish_txs
  publish_txs-Keeps [] = Keeps-pure tt
  publish_txs-Keeps (t ∷ ts) = Keeps-bind _ _ (publish-Keeps _) (λ _. publish_txs-Keeps ts)

  publish_events-Keeps : (es : List Event) → Keeps (Holds V) (publish_events es)
  unfolding publish_events
  publish_events-Keeps [] = Keeps-pure tt
  publish_events-Keeps (e ∷ es) = Keeps-bind _ _ (publish-Keeps _) (λ _. publish_events-Keeps es)

  publish_item-Keeps : (item : BlockTxsEvents) → Keeps (Holds V) (publish_item item)
  unfolding publish_item
  publish_item-Keeps item =
      Keeps-bind _ _ (publish-Keeps _)
        (λ _. Keeps-bind _ _ (publish_txs-Keeps item.txs) (λ _. publish_events-Keeps item.events))

  existing-Keeps : (n : ℕ) → Keeps (Holds V) (existing_block n)
  unfolding existing_block get_block_by_id exchange ◌>>=◌
  existing-Keeps n = record { at = λ w h. ground arith }

  pub backfill_cursor_read-Keeps : Keeps (Holds V) get_backfill_cursor
  unfolding get_backfill_cursor
  backfill_cursor_read-Keeps = Keeps-bind _ _ (exchange-Keeps V) (λ _. Keeps-gets _)

  pub balancefill_cursor_read-Keeps : Keeps (Holds V) get_balancefill_cursor
  unfolding get_balancefill_cursor
  balancefill_cursor_read-Keeps = Keeps-bind _ _ (exchange-Keeps V) (λ _. Keeps-gets _)

  module _ (durable : IsDurable V) where
    replace_rival-Keeps : (curr : Option Block) (b : Block) → Keeps (Holds V) (replace_rival curr b)
    unfolding replace_rival
    replace_rival-Keeps none b = Keeps-pure tt
    replace_rival-Keeps (some curr) b =
        Keeps-if (curr.hash =ₛ b.hash) _ _ (Keeps-pure tt)
          (Keeps-bind _ _ (delete-Keeps V durable b.id) (λ _. publish-Keeps _))

    handle_item-Keeps : (item : BlockTxsEvents) → Keeps (Holds V) (handle_item item)
    unfolding handle_item
    handle_item-Keeps item = Keeps-bind _ _ (existing-Keeps item.block.id) (λ curr.
        Keeps-bind _ _ (replace_rival-Keeps curr item.block) (λ _.
          Keeps-bind _ _ (create-Keeps V durable.stable item.block item.txs item.events)
            (λ _. publish_item-Keeps item)))

    pub handle_head-Keeps :
        (fetch : ℕ → Result BlockTxsEvents) (id : ℕ) → Keeps (Holds V) (handle_head fetch id)
    unfolding handle_head
    handle_head-Keeps fetch id = Keeps-bind _ _ (Keeps-lift (fetch id)) handle_item-Keeps

    pub backfill_round-Keeps :
        (fetch : ℕ → Result BlockTxsEvents) (schedule : ℕ → ℕ → List ℕ) (batch target curr end : ℕ)
        → Keeps (Holds V) (update_backfill_cursor end)
        → Keeps (Holds V) (backfill_round fetch schedule batch target curr end)
    unfolding backfill_round
    backfill_round-Keeps fetch schedule batch target curr end moved =
        Keeps-bind _ _ (Keeps-lift _)
          (λ results. Keeps-bind _ _ (bulk_create-Keeps V durable.stable results) (λ _. moved))

    module _ (eth : Ethereum) (iterate : Sums → Sums) where
      apply_logs-Keeps : (logs : List Log) → Keeps (Holds V) (apply_logs eth iterate logs)
      unfolding apply_logs
      apply_logs-Keeps [] = Keeps-pure tt
      apply_logs-Keeps (l ∷ ls) =
          Keeps-bind _ _ (Keeps-lift _) (λ entries. upsert-Keeps V durable _)

      advance-Keeps : (cursor : ℕ) → Keeps (Holds V) (advance eth iterate cursor)
      unfolding advance
      advance-Keeps cursor = Keeps-bind _ _ (get_logs-Keeps V _) (λ logs.
          Keeps-bind _ _ (apply_logs-Keeps logs)
            (λ _. Keeps-bind _ _ (balancefill_cursor-Keeps V durable _) (λ _. Keeps-pure _)))

      pub balancefill_pass-Keeps :
          (lag cursor : ℕ) → Keeps (Holds V) (balancefill_pass eth iterate lag cursor)
      unfolding balancefill_pass get_max_indexed_block
      balancefill_pass-Keeps lag cursor =
          Keeps-bind _ _ (Keeps-bind _ _ (exchange-Keeps V) (λ _. Keeps-gets _)) (λ max_block.
            Keeps-if (must_wait lag max_block cursor) _ _ (Keeps-pure none) (advance-Keeps cursor))
