-- ===== src/Handlers/Ws/Feeds.antt =====
-- internal/handlers/ws/router.go: `NewRouter` subscribes to the four Redis topics and starts a
-- broadcast for each. One iteration of a broadcast's loop receives from its subscription.
use evm_indexer.Prelude.{ℕ, Bool, []}
use evm_indexer.Domain.Errors.{Result, ok, ◌>>=◌}
use evm_indexer.Exec.{Message}
use evm_indexer.Pubsub.{Subscription, subscribe, Read, value, zero_value, blocked, read}
use evm_indexer.Handlers.Ws.Slices.{Clients}
use evm_indexer.Handlers.Ws.{Topic, blocks, transactions, events, reorgs, Hub}
use evm_indexer.Handlers.Ws.Rounds.{payload_of, Broadcast, sent, broadcast}

pub record Feeds : Type 0 where
  pub blocks : Subscription Message
  pub transactions : Subscription Message
  pub events : Subscription Message
  pub reorgs : Subscription Message

-- `receive` says what Redis answers to the subscription of the entity's topic.
unfoldable pub new_router : (Topic → Result (Unit {0})) → Result Feeds
unfolding subscribe
new_router receive = do
  block_incoming ← subscribe (receive blocks)
  tx_incoming ← subscribe (receive transactions)
  event_incoming ← subscribe (receive events)
  reorg_incoming ← subscribe (receive reorgs)
  ok (record {
    blocks = block_incoming;
    transactions = tx_incoming;
    events = event_incoming;
    reorgs = reorg_incoming;
  })

module _ (iterate : Clients → Clients) (ready : ℕ → Bool) (t : Topic) where
  -- A closed channel gives a nil payload, which is no JSON: it is logged, and the loop goes on.
  unfoldable pub broadcast_read : Read Message → Hub → Broadcast
  unfolding broadcast payload_of
  broadcast_read (value m) h = broadcast iterate ready (payload_of m) t h
  broadcast_read zero_value h = sent []
  broadcast_read blocked h = sent []

  unfoldable pub broadcast_next : Subscription Message → Hub → Broadcast × Subscription Message
  unfolding broadcast_read read
  broadcast_next s h = let (r, s') = read s in (broadcast_read r h, s')
