-- ===== src/Tests/Streams.antt =====
-- The theorems about the forward fill at a concrete input.
use evm_indexer.Prelude.{◌≡◌, ◌=ₛ◌, refl, ◌++◌, Option, List, [], ◌∷◌, str}
use evm_indexer.Domain.Errors.{ok}
use evm_indexer.Domain.Models.{Block}
use evm_indexer.Store.{
  Store, empty, insert_block, block_fits, delete_blocks, delete_events, delete_transactions,
  event_fits, event_row, insert_event, insert_tx, tx_fits, tx_row,
}
use evm_indexer.Exec.{World, Message, reorg, block, ◌>>=◌, exchange}
use evm_indexer.Services.Forwardfill.{
  existing_block, handle_item, publish, publish_events, publish_item, publish_txs, replace_rival,
}
use evm_indexer.Repository.Indexer.{
  get_block_by_id, find_block, delete, transact, with_rollback, delete_body, at_int, run_sql,
  commit, create, create_body, effect, effect_event, exec_events, exec_txs, ignore_error,
}
use evm_indexer.Services.Forwardfill.Published.{
  after, reorg_messages, item_messages, handle_item-published,
}
use evm_indexer.Tests.{item_at, block_at, tx_at, event_at, world}

-- Another block stands under id 1.
abbrev pub forked : World
forked = record world {
  store = record empty { blocks = record (block_at 1) { hash = str "0xold" } ∷ [] };
}

abbrev pub handled : World
handled = (handle_item (item_at 1) forked).1

pub returns : handle_item (item_at 1) forked ≡ (ok tt, handled)
unfolding handle_item ◌>>=◌ existing_block get_block_by_id exchange find_block ◌=ₛ◌ delete transact
    with_rollback delete_body at_int run_sql commit publish create create_body insert_block
    block_fits effect effect_event exec_events exec_txs ignore_error publish_events publish_item
    publish_txs replace_rival delete_blocks delete_events delete_transactions event_fits event_row
    insert_event insert_tx tx_fits tx_row
returns = refl

handle_item-published_example :
    (curr : Option Block) × ((existing_block 1 forked).0 ≡ ok curr)
    × (handled.published
        ≡ after (reorg_messages curr (block_at 1) ++ item_messages (item_at 1)) forked.published)
handle_item-published_example = handle_item-published (item_at 1) forked handled returns

-- What the handling of the fork has published.
abbrev pub published_now : List Message
published_now =
    reorg (record { block_id = 1 })
    ∷ block (block_at 1)
    ∷ Message.transaction (tx_at 1)
    ∷ Message.event (event_at 1)
    ∷ []

pub recorded : handled.published ≡ after published_now forked.published
unfolding handle_item ◌>>=◌ existing_block get_block_by_id exchange find_block ◌=ₛ◌ delete transact
    with_rollback delete_body at_int run_sql commit publish create create_body insert_block
    block_fits effect effect_event exec_events exec_txs ignore_error publish_events publish_item
    publish_txs replace_rival delete_blocks delete_events delete_transactions event_fits event_row
    insert_event insert_tx tx_fits tx_row
recorded = refl
