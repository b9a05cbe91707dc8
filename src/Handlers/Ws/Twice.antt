-- ===== src/Handlers/Ws/Twice.antt =====
-- A client that subscribes twice with one filter.
use evm_indexer.Prelude.{
  append_assoc, ℕ, suc, ◌≡◌, refl, sym, ap, ◌∙◌, inl, inr, Bool, true, false, some, List, [], ◌∷◌,
  ◌++◌, length, length-append, arith,
}
use evm_indexer.Domain.Errors.{ok, err, Result-cases, panic}
use evm_indexer.Handlers.Ws.Slices.{SubscriptionFilter, Clients, chans_at, put_chans, remove_at}
use evm_indexer.Handlers.Ws.Laws.{
  same_filter_iff, chans_at-put_chans, remove_at-append, remove_at_past,
}
use evm_indexer.Handlers.Ws.{
  SubscribeMessage, Topic, blocks, transactions, events, reorgs, Entity, Hub, Position, Client,
  new_client, entity_of, with_entity, clients_of, with_clients, validate_subscription,
  extract_filter, find_entity, done, blocked, register, subscribe, panicked, leave_positions,
  delete,
}
use evm_indexer.Handlers.Ws.Rounds.{PayloadFilter, stuck, broadcast}
use evm_indexer.Handlers.Ws.Leaving.{at, once, entity_of-with_clients}
use evm_indexer.Handlers.Ws.Joined.{subscribe-eq-done, at-registered}

module _ (t : Topic) (f : SubscriptionFilter) where
  leave_step :
      (h : Hub) (i : ℕ) (cs : List ℕ) (ps : List Position)
      → (entity_of t h).locked ≡ false
      → remove_at i (at t f h) ≡ ok cs
      → leave_positions (record { topic = t; filter = f; index = i } ∷ ps) h
        ≡ leave_positions ps (with_clients t (put_chans f cs (clients_of t h)) h)
  unfolding leave_positions
  leave_step h i cs ps free p = ground arith

  leave_panics :
      (h : Hub) (i : ℕ) (ps : List Position)
      → (entity_of t h).locked ≡ false
      → remove_at i (at t f h) ≡ err panic
      → leave_positions (record { topic = t; filter = f; index = i } ∷ ps) h
        ≡ panicked (with_entity t (record (entity_of t h) { locked = true }) h)
  unfolding leave_positions
  leave_panics h i ps free p = ground arith

entity_of-with_entity : (t : Topic) (e : Entity) (h : Hub) → entity_of t (with_entity t e h) ≡ e
entity_of-with_entity blocks e h = refl
entity_of-with_entity transactions e h = refl
entity_of-with_entity events e h = refl
entity_of-with_entity reorgs e h = refl

module _ (t : Topic) (f : SubscriptionFilter) (h : Hub) (c : ℕ) (xs : List ℕ) where
  abbrev both : List Position
  both =
      record { topic = t; filter = f; index = length xs }
      ∷ record { topic = t; filter = f; index = suc (length xs) }
      ∷ []

  abbrev halfway : Hub
  halfway = with_clients t (put_chans f (xs ++ (c ∷ [])) (clients_of t h)) h

  abbrev frozen : Hub
  frozen = with_entity t (record (entity_of t halfway) { locked = true }) halfway

  leave_twice :
      (entity_of t h).locked ≡ false
      → at t f h ≡ xs ++ (c ∷ c ∷ [])
      → leave_positions both h ≡ panicked frozen
  leave_twice free p =
      let half : entity_of t halfway
          ≡ record (entity_of t h) { clients = put_chans f (xs ++ (c ∷ [])) (clients_of t h) } =
        entity_of-with_clients t _ h in
      let left_over : at t f halfway ≡ xs ++ (c ∷ []) =
        ap (λ (e : Entity). chans_at f e.clients) half
        ∙ chans_at-put_chans f f _ (clients_of t h)
        ∙ ground (arith, same_filter_iff f f) in
      leave_step t f h (length xs) (xs ++ (c ∷ [])) _ free
        (ap (remove_at (length xs)) p ∙ remove_at-append xs c (c ∷ []))
      ∙ leave_panics t f halfway (suc (length xs)) [] (ap (λ (e : Entity). e.locked) half ∙ free) (
          ap (remove_at (suc (length xs))) left_over
          ∙ remove_at_past (suc (length xs)) (xs ++ (c ∷ []))
              (omega (arith, length-append xs (c ∷ []))))

module _ (sub : SubscribeMessage) (t : Topic) (h : Hub)
    (stays : (entity_of t h).locked ≡ true) where
  -- A mutex that is never unlocked lets nobody in.
  subscribe_frozen :
      (c c' c'' : Client) (h' h'' : Hub)
      → find_entity sub.topic ≡ some t
      → subscribe (some sub) c' h' ≡ done (c'', h'')
      → subscribe (some sub) c h ≡ blocked
  unfolding subscribe register
  subscribe_frozen c c' c'' h' h'' e q = elim (Result-cases (validate_subscription sub)) [
    | inr (x, r) ↦ absurd (ground arith)
    | inl (_, r) ↦ ground arith
  ]

  broadcast_frozen :
      (iterate : Clients → Clients) (ready : ℕ → Bool) (payload : PayloadFilter)
      → broadcast iterate ready payload t h ≡ stuck
  unfolding broadcast
  broadcast_frozen iterate ready payload = rw stays refl

delete_of_panic :
    (c : Client) (h gone : Hub)
    → c.gone ≡ false
    → leave_positions c.pos h ≡ panicked gone
    → (delete c h).1 ≡ panicked gone
unfolding delete
delete_of_panic c h gone fresh p = ground arith

-- A new client subscribes twice in a row to one topic with one filter, and leaves before anybody
-- else has joined or left: that panics with the topic's mutex held. Where the program goes on after
-- the panic, no message of the topic reaches anybody any more, and nobody can subscribe to it.
pub delete-subscribe_twice :
    (sub : SubscribeMessage) (t : Topic) (channel : ℕ) (h h' h'' : Hub) (c c' : Client)
    → find_entity sub.topic ≡ some t
    → subscribe (some sub) (new_client channel) h ≡ done (c, h')
    → subscribe (some sub) c h' ≡ done (c', h'')
    → (end : Hub) × ((delete c' h'').1 ≡ panicked end)
      × ((iterate : Clients → Clients) (ready : ℕ → Bool) (payload : PayloadFilter)
          → broadcast iterate ready payload t end ≡ stuck)
      × ((other : Client) → subscribe (some sub) other end ≡ blocked)
delete-subscribe_twice sub t channel h h' h'' c c' e first second =
    let f = extract_filter sub in
    let (free, p) = subscribe-eq-done sub t (new_client channel) h (c, h') e first in
    let (free', p') = subscribe-eq-done sub t c h' (c', h'') e second in
    let xs : List ℕ = at t f h in
    let mine : once t f channel (length xs) ≡ c = ap (λ x. x.0) p in
    let at_h' : at t f h' ≡ xs ++ (channel ∷ []) =
      sym (ap (λ (x : Client × Hub). at t f x.1) p) ∙ at-registered t f (new_client channel) h in
    let at_h'' : at t f h'' ≡ xs ++ (channel ∷ channel ∷ []) =
      sym (ap (λ (x : Client × Hub). at t f x.1) p')
      ∙ at-registered t f c h'
      ∙ ap (λ (k : ℕ). at t f h' ++ (k ∷ [])) (sym (ap (λ (k : Client). k.channel) mine))
      ∙ ap (λ l. l ++ (channel ∷ [])) at_h'
      ∙ append_assoc xs (channel ∷ []) (channel ∷ []) in
    let last : length (at t f h') ≡ suc (length xs) =
      ap length at_h' ∙ omega (arith, length-append xs (channel ∷ [])) in
    let pos : c'.pos ≡ both t f h'' channel xs =
      sym (ap (λ (x : Client × Hub). x.0.pos) p')
      ∙ ap
          (λ (k : Client).
            k.pos ++ (record { topic = t; filter = f; index = length (at t f h') } ∷ []))
          (sym mine)
      ∙ ap
          (λ (i : ℕ).
            record { topic = t; filter = f; index = length xs }
            ∷ record { topic = t; filter = f; index = i }
            ∷ [])
          last in
    let fresh : c'.gone ≡ false =
      sym (ap (λ (x : Client × Hub). x.0.gone) p') ∙ sym (ap (λ (k : Client). k.gone) mine) in
    let open_after : (entity_of t h'').locked ≡ false =
      sym (ap (λ (x : Client × Hub). (entity_of t x.1).locked) p')
      ∙ ap (λ (x : Entity). x.locked) (entity_of-with_clients t _ h')
      ∙ free' in
    let end = frozen t f h'' channel xs in
    let stays : (entity_of t end).locked ≡ true =
      ap (λ (x : Entity). x.locked) (entity_of-with_entity t _ (halfway t f h'' channel xs)) in
    (
      end,
      delete_of_panic c' h'' end fresh (
          ap (λ ps. leave_positions ps h'') pos ∙ leave_twice t f h'' channel xs open_after at_h''),
      broadcast_frozen sub t end stays,
      λ other. subscribe_frozen sub t end stays other c c' h' h'' e second,
    )
