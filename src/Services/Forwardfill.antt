-- ===== src/Services/Forwardfill.antt =====
-- internal/core/services/forwardfill.go. The RPC node's answers are a parameter, `fetch`, and what
-- the `select` of the loop receives is a list of signals.
pub mod Published
pub mod Written
pub mod Behind
use evm_indexer.Prelude.{ℕ, Str, ◌=ₛ◌, Bool, Option, none, some, List, [], ◌∷◌, if◌then◌else◌}
use evm_indexer.Domain.Errors.{Error, Result, ok, err, not_found}
use evm_indexer.Domain.Models.{Reorg, Block, Transaction, Event, BlockTxsEvents}
use evm_indexer.Exec.{World, Message, Exec, pure, raise, lift, ◌>>=◌, ◌>>◌, exchange}
use evm_indexer.Repository.Indexer.{create, delete, get_block_by_id}

-- a receive from the channel of new blocks, from that of the subscription's error, or the context
pub data Signal : Type 0 where
  head : ℕ → Signal
  -- a receive from a closed channel gives the zero value
  closed : Signal
  failed cancelled : Error → Signal

abbrev pub announce : Message → Exec (Unit {0})
announce m w = (ok tt, record w { published = m ∷ w.published })

unfoldable pub publish : Message → Exec (Unit {0})
publish m = do exchange; announce m

-- ErrNotFound is no failure here
abbrev pub or_none : Result Block × World → Result (Option Block) × World
or_none (ok b, w) = (ok (some b), w)
or_none (err not_found, w) = (ok none, w)
or_none (err e, w) = (err e, w)

unfoldable pub existing_block : ℕ → Exec (Option Block)
existing_block id w = or_none (get_block_by_id id w)

-- the reorganisation: another block stands under the id
unfoldable pub replace_rival : Option Block → Block → Exec (Unit {0})
replace_rival none b = pure tt
replace_rival (some curr) b =
    if curr.hash =ₛ b.hash
    then pure tt
    else do delete b.id; publish (Message.reorg (record { block_id = b.id }))

unfoldable pub publish_txs : List Transaction → Exec (Unit {0})
publish_txs [] = pure tt
publish_txs (t ∷ ts) = let rest = publish_txs ts in do publish (Message.transaction t); rest

unfoldable pub publish_events : List Event → Exec (Unit {0})
publish_events [] = pure tt
publish_events (e ∷ es) = let rest = publish_events es in do publish (Message.event e); rest

unfoldable pub publish_item : BlockTxsEvents → Exec (Unit {0})
unfolding publish_txs publish_events
publish_item item = do
  publish (Message.block item.block)
  publish_txs item.txs
  publish_events item.events

-- what one signal of a new block leads to, once the block is fetched
unfoldable pub handle_item : BlockTxsEvents → Exec (Unit {0})
unfolding replace_rival publish_item
handle_item item = do
  curr ← existing_block item.block.id
  replace_rival curr item.block
  create item.block item.txs item.events
  publish_item item

module _ (fetch : ℕ → Result BlockTxsEvents) where
  unfoldable pub handle_head : ℕ → Exec (Unit {0})
  handle_head id = do item ← lift (fetch id); handle_item item

  -- The list's end is the loop that still waits.
  unfoldable pub forwardfill : List Signal → Exec (Unit {0})
  unfolding handle_head
  forwardfill [] = pure tt
  forwardfill (head id ∷ signals) = let rest = forwardfill signals in do handle_head id; rest
  forwardfill (closed ∷ signals) = let rest = forwardfill signals in do handle_head 0; rest
  forwardfill (failed e ∷ signals) = raise e
  forwardfill (cancelled e ∷ signals) = raise e
