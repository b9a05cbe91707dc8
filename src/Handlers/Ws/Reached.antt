-- ===== src/Handlers/Ws/Reached.antt =====
-- One round of the broadcast, over the map in any order.
use evm_indexer.Prelude.{
  ℕ, ◌≡◌, ◌↔◌, refl, ◌⊎◌, inl, inr, Bool, true, false, Option, none, some, In, List,
}
use evm_indexer.Handlers.Ws.Slices.{SubscriptionFilter, Clients}
use evm_indexer.Handlers.Ws.{Topic, Hub, entity_of, clients_of}
use evm_indexer.Handlers.Ws.Rounds.{
  PayloadFilter, is_closed, send_matching, Broadcast, sent, crashed, sent_or_crashed, broadcast,
}
use evm_indexer.Handlers.Ws.Delivery.{IsTarget, Sends, send_matching-Sends}

-- `iterate` gives the entries of a map, and nothing else.
abbrev pub IsIteration : (Clients → Clients) → Type 0
IsIteration iterate = (m : Clients) (x : SubscriptionFilter × List ℕ) → In x (iterate m) ↔ In x m

-- A target is the channel of some registered filter that the payload matches.
abbrev pub Reaches : (ℕ → Type 0) → List ℕ → (ℕ → Bool) → Broadcast → Type 0
Reaches IsIt closed ready b =
    ((b ≡ crashed) × (c : ℕ) × IsIt c × (is_closed closed c ≡ true))
    ⊎ ((out : List ℕ) × (b ≡ sent out)
        × ((c : ℕ) → IsIt c → is_closed closed c ≡ false)
        × ((c : ℕ) → In c out ↔ (IsIt c × (ready c ≡ true))))

module _ (iterate : Clients → Clients) (order : IsIteration iterate) (ready : ℕ → Bool)
    (payload : PayloadFilter) (t : Topic) (h : Hub) where
  IsTarget-iff :
      (c : ℕ) → IsTarget payload (iterate (clients_of t h)) c ↔ IsTarget payload (clients_of t h) c
  IsTarget-iff c = (
    λ (f, cs, i, e, j). (f, cs, (order (clients_of t h) (f, cs)).0 i, e, j),
    λ (f, cs, i, e, j). (f, cs, (order (clients_of t h) (f, cs)).1 i, e, j),
  )

  from_Sends :
      (r : Option (List ℕ))
      → Sends h.closed ready (IsTarget payload (iterate (clients_of t h))) r
      → Reaches (IsTarget payload (clients_of t h)) h.closed ready (sent_or_crashed r)
  from_Sends none (c, i, e) = inl (refl, c, (IsTarget-iff c).0 i, e)
  from_Sends (some out) (opened, listed) = inr (
    out,
    refl,
    λ c i. opened c ((IsTarget-iff c).1 i),
    λ c. (
      λ i. let (p, r) = (listed c).0 i in ((IsTarget-iff c).0 p, r),
      λ (p, r). (listed c).1 ((IsTarget-iff c).1 p, r),
    ),
  )

  -- Where no client has left the mutex locked, a round of the broadcast either reaches exactly the
  -- channels that wait for a message and are registered with a filter that the payload matches, and
  -- no registered channel of such a filter is closed; or one of those is closed, and it panics. The
  -- order of the map does not matter.
  pub broadcast-Reaches :
      (entity_of t h).locked ≡ false
      → Reaches
          (IsTarget payload (clients_of t h))
          h.closed
          ready
          (broadcast iterate ready payload t h)
  unfolding broadcast
  broadcast-Reaches free = rw free (
      from_Sends (send_matching h.closed ready payload (iterate (clients_of t h)))
        (send_matching-Sends h.closed ready payload (iterate (clients_of t h))))
