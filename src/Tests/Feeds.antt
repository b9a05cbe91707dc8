-- ===== src/Tests/Feeds.antt =====
-- A subscription to Redis, and the way of a block through it, at concrete steps.
use evm_indexer.Prelude.{◌≡◌, refl, Option, [], ◌∷◌, ◌++◌, arith}
use evm_indexer.Domain.Errors.{ok}
use evm_indexer.Domain.Models.{Block}
use evm_indexer.Exec.{Message, block}
use evm_indexer.Pubsub.{Place, Subscription, subscribed, arrives, passes_on, Reach, here, next}
use evm_indexer.Pubsub.Order.{InOrder, Reach-InOrder}
use evm_indexer.Pubsub.Drained.{Drained, drains}
use evm_indexer.Services.Forwardfill.{existing_block}
use evm_indexer.Handlers.Ws.{blocks}
use evm_indexer.Handlers.Ws.Rounds.{topic_of}
use evm_indexer.Handlers.Ws.Relayed.{news_for, handle_item-relayed}
use evm_indexer.Tests.{item_at, block_at}
use evm_indexer.Tests.Streams.{forked, handled, returns, published_now, recorded}

-- One message has been passed on, and the next is in hand.
abbrev begun : Subscription Message
begun = record {
  place = Place.sending (block (block_at 1));
  out = block (block_at 0) ∷ [];
  received = block (block_at 0) ∷ block (block_at 1) ∷ [];
  taken = [];
}

begun_reached : Reach subscribed begun
begun_reached =
    next
      (next (next here (arrives (block (block_at 0)) refl))
        (passes_on (block (block_at 0)) refl (omega arith)))
      (arrives (block (block_at 1)) refl)

Reach-InOrder_example : InOrder begun
Reach-InOrder_example = Reach-InOrder begun_reached

drains_example : Drained begun
drains_example = drains begun begun_reached

handle_item-relayed_example :
    (curr : Option Block) × ((existing_block 1 forked).0 ≡ ok curr)
    × (d : Drained begun) × (d.end.taken
        ≡ (block (block_at 0) ∷ []) ++ news_for blocks curr (item_at 1))
unfolding topic_of
handle_item-relayed_example =
    handle_item-relayed blocks (item_at 1) forked handled (block (block_at 0) ∷ []) published_now
      begun returns recorded begun_reached refl
