-- ===== src/Handlers/Ws/Rounds.antt =====
-- The broadcast of internal/handlers/ws/entity.go: one round of its loop, for one message.
use evm_indexer.Prelude.{
  ℕ, Str, ◌=ₛ◌, Bool, true, false, not, ◌&&◌, Option, none, some, List, [], ◌∷◌, ◌++◌, any, ◌==◌,
  if◌then◌else◌,
}
use evm_indexer.Exec.{Message, reorg, block, transaction, event}
use evm_indexer.Handlers.Ws.Slices.{SubscriptionFilter, Clients}
use evm_indexer.Handlers.Ws.{
  Topic, blocks, transactions, events, reorgs, Hub, entity_of, clients_of,
}

pub record PayloadFilter : Type 0 where
  pub from : Str
  pub to : Str
  pub emitter : Str
  pub topic : List Str

unfoldable pub matches_filter : SubscriptionFilter → PayloadFilter → Bool
matches_filter subscription payload =
    if not (subscription.address =ₛ [])
      && (not (payload.to =ₛ subscription.address)
          && (not (payload.from =ₛ subscription.address)
              && not (payload.emitter =ₛ subscription.address)))
    then false
    else if not (subscription.topic0 =ₛ [])
    then elim payload.topic [ [] ↦ false | t ∷ _ ↦ t =ₛ subscription.topic0 ]
    else true

-- What the payload's JSON shows under the names of `PayloadFilter`.
unfoldable pub payload_of : Message → PayloadFilter
payload_of (reorg r) = record { from = []; to = []; emitter = []; topic = [] }
payload_of (block b) = record { from = []; to = []; emitter = []; topic = [] }
payload_of (transaction t) = record {
  from = t.from;
  to = elim t.to [ none ↦ [] | some to ↦ to ];
  emitter = [];
  topic = [];
}
payload_of (event e) = record { from = []; to = []; emitter = e.emitter; topic = e.topics }

abbrev pub is_closed : List ℕ → ℕ → Bool
is_closed closed c = any (λ d. d == c) closed

module _ (closed : List ℕ) (ready : ℕ → Bool) where
  -- The sends of one slice: to a closed channel is a panic, `none`; one that nobody waits for is
  -- dropped.
  unfoldable pub send_each : List ℕ → Option (List ℕ)
  send_each [] = some []
  send_each (c ∷ cs) =
      let rest = send_each cs in
      if is_closed closed c
      then none
      else elim rest [ none ↦ none | some sent ↦ some (if ready c then c ∷ sent else sent) ]

  unfoldable pub send_matching : PayloadFilter → Clients → Option (List ℕ)
  unfolding send_each
  send_matching payload [] = some []
  send_matching payload ((f, cs) ∷ m) =
      let rest = send_matching payload m in
      if matches_filter f payload
      then elim (send_each cs) [
        | none ↦ none
        | some sent ↦ elim rest [ none ↦ none | some others ↦ some (sent ++ others) ]
      ]
      else rest

pub data Broadcast : Type 0 where
  -- the channels that took the message
  sent : List ℕ → Broadcast
  -- a panic in the goroutine that broadcasts, which ends the program
  crashed : Broadcast
  -- the read lock is never given
  stuck : Broadcast

abbrev pub sent_or_crashed : Option (List ℕ) → Broadcast
sent_or_crashed none = crashed
sent_or_crashed (some cs) = sent cs

-- One round of `broadcast`. `iterate` is the order in which Go walks the map, and `ready` says which
-- writers wait for a message.
unfoldable pub broadcast :
    (Clients → Clients) → (ℕ → Bool) → PayloadFilter → Topic → Hub → Broadcast
unfolding send_matching
broadcast iterate ready payload t h =
    if (entity_of t h).locked
    then stuck
    else sent_or_crashed (send_matching h.closed ready payload (iterate (clients_of t h)))

-- The entity that `NewRouter` feeds from the message's Redis topic.
unfoldable pub topic_of : Message → Topic
topic_of (reorg r) = reorgs
topic_of (block b) = blocks
topic_of (transaction t) = transactions
topic_of (event e) = events

unfoldable pub relay : (Clients → Clients) → (ℕ → Bool) → Message → Hub → Broadcast
unfolding broadcast payload_of topic_of
relay iterate ready m h = broadcast iterate ready (payload_of m) (topic_of m) h
