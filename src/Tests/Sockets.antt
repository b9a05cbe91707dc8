-- ===== src/Tests/Sockets.antt =====
-- Subscriptions and broadcasts at concrete hubs.
use evm_indexer.Prelude.{
  ℕ, ◌≡◌, refl, str, Bool, true, false, ◌==◌, ◌=ₛ◌, some, List, [], ◌∷◌, ◌++◌,
}
use evm_indexer.Handlers.Ws.Slices.{SubscriptionFilter, Clients, chans_at, put_chans, same_filter}
use evm_indexer.Handlers.Ws.{
  SubscribeMessage, events, Entity, Hub, Client, new_client, clients_of, registered, subscribe,
  subscribe_checked, validate_subscription, register, find_entity, extract_filter, done, blocked,
  delete, left, panicked,
}
use evm_indexer.Handlers.Ws.Rounds.{
  PayloadFilter, matches_filter, is_closed, broadcast, crashed, stuck,
}
use evm_indexer.Handlers.Ws.Delivery.{IsTarget}
use evm_indexer.Handlers.Ws.Reached.{IsIteration, Reaches, broadcast-Reaches}
use evm_indexer.Handlers.Ws.Leaving.{at, once, LeftBy}
use evm_indexer.Handlers.Ws.Joined.{delete-subscribe}
use evm_indexer.Handlers.Ws.Twice.{delete-subscribe_twice}
use evm_indexer.Handlers.Ws.Stale.{delete-stale_index}

abbrev nobody : Entity
nobody = record { clients = []; locked = false }

abbrev empty_hub : Hub
empty_hub = record {
  blocks = nobody;
  transactions = nobody;
  events = nobody;
  reorgs = nobody;
  closed = [];
}

abbrev to_events : SubscribeMessage
to_events = record {
  kind = str "subscribe";
  topic = str "events";
  address = str "0xt";
  topic0 = [];
}

abbrev of_token : SubscriptionFilter
of_token = record { address = str "0xt"; topic0 = [] }

abbrev with_events : List ℕ → Hub
with_events cs = record empty_hub { events = record nobody { clients = (of_token, cs) ∷ [] } }

abbrev as_is : Clients → Clients
as_is m = m

as_is-IsIteration : IsIteration as_is
as_is-IsIteration m x = (λ i. i, λ i. i)

abbrev only_two : ℕ → Bool
only_two c = c == 2

abbrev emitted : PayloadFilter
emitted = record { from = []; to = []; emitter = str "0xt"; topic = [] }

broadcast-Reaches_example :
    Reaches
      (IsTarget emitted (clients_of events (with_events (1 ∷ 2 ∷ []))))
      []
      only_two
      (broadcast as_is only_two emitted events (with_events (1 ∷ 2 ∷ [])))
broadcast-Reaches_example =
    broadcast-Reaches as_is as_is-IsIteration only_two emitted events (with_events (1 ∷ 2 ∷ []))
      refl

-- the hub after client 7 subscribed
abbrev joined : Client × Hub
joined = registered events of_token (new_client 7) (with_events (1 ∷ []))

joined_lem : subscribe (some to_events) (new_client 7) (with_events (1 ∷ [])) ≡ done joined
unfolding subscribe subscribe_checked validate_subscription register find_entity extract_filter ◌=ₛ◌
joined_lem = refl

find_events : find_entity to_events.topic ≡ some events
unfolding find_entity ◌=ₛ◌
find_events = refl

delete-subscribe_example :
    (gone : Hub) × ((delete joined.0 joined.1).1 ≡ left gone)
    × LeftBy events
        (extract_filter to_events)
        7
        (at events (extract_filter to_events) (with_events (1 ∷ [])) ++ [])
        joined.1
        gone
unfolding extract_filter chans_at put_chans same_filter ◌=ₛ◌
delete-subscribe_example =
    delete-subscribe to_events events 7 (with_events (1 ∷ [])) joined.1 joined.1 joined.0 []
      find_events joined_lem refl refl

abbrev again : Client × Hub
again = registered events of_token joined.0 joined.1

again_lem : subscribe (some to_events) joined.0 joined.1 ≡ done again
unfolding subscribe subscribe_checked validate_subscription register find_entity extract_filter ◌=ₛ◌
again_lem = refl

delete-subscribe_twice_example :
    (end : Hub) × ((delete again.0 again.1).1 ≡ panicked end)
    × ((iterate : Clients → Clients) (ready : ℕ → Bool) (payload : PayloadFilter)
        → broadcast iterate ready payload events end ≡ stuck)
    × ((other : Client) → subscribe (some to_events) other end ≡ blocked)
delete-subscribe_twice_example =
    delete-subscribe_twice to_events events 7 (with_events (1 ∷ [])) joined.1 again.1 joined.0
      again.0 find_events joined_lem again_lem

delete-stale_index_example :
    (h' h'' : Hub) × ((delete (once events of_token 1 0) (with_events (1 ∷ 2 ∷ 3 ∷ []))).1
      ≡ left h')
    × ((delete (once events of_token 2 1) h').1 ≡ left h'')
    × (at events of_token h'' ≡ 2 ∷ [])
    × (is_closed h''.closed 2 ≡ true)
    × (broadcast as_is only_two emitted events h'' ≡ crashed)
unfolding chans_at matches_filter same_filter ◌=ₛ◌
delete-stale_index_example =
    delete-stale_index events of_token (with_events (1 ∷ 2 ∷ 3 ∷ [])) 1 2 3 [] [] as_is only_two
      emitted as_is-IsIteration refl refl refl
