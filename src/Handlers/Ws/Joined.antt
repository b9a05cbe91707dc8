-- ===== src/Handlers/Ws/Joined.antt =====
-- A client that subscribes and leaves again, as the code means it.
use evm_indexer.Prelude.{
  append_assoc, ℕ, ◌≡◌, sym, ap, ◌∙◌, inl, inr, false, some, List, [], ◌∷◌, ◌++◌, length, arith,
}
use evm_indexer.Domain.Errors.{Result-cases}
use evm_indexer.Handlers.Ws.Slices.{SubscriptionFilter, chans_at}
use evm_indexer.Handlers.Ws.Laws.{same_filter_iff, chans_at-put_chans}
use evm_indexer.Handlers.Ws.{
  SubscribeMessage, Topic, Entity, Hub, Client, new_client, entity_of, clients_of,
  validate_subscription, extract_filter, find_entity, done, registered, register, subscribe, left,
  delete,
}
use evm_indexer.Handlers.Ws.Leaving.{at, once, LeftBy, leaves_exactly, entity_of-with_clients}

-- What a subscription that was accepted has done.
pub subscribe-eq-done :
    (sub : SubscribeMessage) (t : Topic) (c : Client) (h : Hub) (p : Client × Hub)
    → find_entity sub.topic ≡ some t
    → subscribe (some sub) c h ≡ done p
    → ((entity_of t h).locked ≡ false) × (registered t (extract_filter sub) c h ≡ p)
unfolding subscribe register
subscribe-eq-done sub t c h p e q = elim (Result-cases (validate_subscription sub)) [
  | inr (x, r) ↦ absurd (ground arith)
  | inl (_, r) ↦ (ground arith, ground arith)
]

module _ (t : Topic) (f : SubscriptionFilter) where
  pub at-registered :
      (c : Client) (h : Hub) → at t f (registered t f c h).1 ≡ at t f h ++ (c.channel ∷ [])
  at-registered c h =
      ap (λ (e : Entity). chans_at f e.clients) (entity_of-with_clients t _ h)
      ∙ chans_at-put_chans f f _ (clients_of t h)
      ∙ ground (arith, same_filter_iff f f)

-- A client that subscribed once, to a topic that the router keeps, and leaves while the mutex is
-- free and those that came before it with the same filter are still there, takes out exactly its
-- own channel: the slice is as it was before it came, with what others have added since, its
-- channel is closed, and no other slice has changed.
pub delete-subscribe :
    (sub : SubscribeMessage) (t : Topic) (channel : ℕ) (h h' later : Hub) (c : Client) (ys : List ℕ)
    → find_entity sub.topic ≡ some t
    → subscribe (some sub) (new_client channel) h ≡ done (c, h')
    → (entity_of t later).locked ≡ false
    → at t (extract_filter sub) later ≡ at t (extract_filter sub) h' ++ ys
    → (gone : Hub) × ((delete c later).1 ≡ left gone)
      × LeftBy t (extract_filter sub) channel (at t (extract_filter sub) h ++ ys) later gone
delete-subscribe sub t channel h h' later c ys e joined free added =
    let f = extract_filter sub in
    let (open_before, p) = subscribe-eq-done sub t (new_client channel) h (c, h') e joined in
    let mine : once t f channel (length (at t f h)) ≡ c = ap (λ x. x.0) p in
    let there : at t f later ≡ at t f h ++ (channel ∷ ys) =
      added
      ∙ ap (λ x. x ++ ys)
          (sym (ap (λ (x : Client × Hub). at t f x.1) p) ∙ at-registered t f (new_client channel) h)
      ∙ append_assoc (at t f h) (channel ∷ []) ys in
    let (gone, q, r, _) = leaves_exactly t f later channel (at t f h) ys free there in
    (gone, ap (λ x. (delete x later).1) (sym mine) ∙ q, r)
