-- ===== src/Handlers/Ws/Leaving.antt =====
-- What a client leaves behind, by the index that it remembers.
use evm_indexer.Prelude.{
  ℕ, suc, ◌≡◌, ◌≢◌, refl, ap, ◌∙◌, ◌⊎◌, inl, inr, false, List, [], ◌∷◌, ◌++◌, length, arith,
}
use evm_indexer.Domain.Errors.{ok}
use evm_indexer.Handlers.Ws.Slices.{SubscriptionFilter, Clients, chans_at, put_chans, remove_at}
use evm_indexer.Handlers.Ws.Laws.{same_filter_iff, chans_at-put_chans, remove_at-append}
use evm_indexer.Handlers.Ws.{
  Topic, blocks, transactions, events, reorgs, Entity, Hub, Client, entity_of, clients_of,
  with_clients, left, leave_positions, delete,
}

pub entity_of-with_clients :
    (t : Topic) (m : Clients) (h : Hub)
    → entity_of t (with_clients t m h) ≡ record (entity_of t h) { clients = m }
entity_of-with_clients blocks m h = refl
entity_of-with_clients transactions m h = refl
entity_of-with_clients events m h = refl
entity_of-with_clients reorgs m h = refl

-- The hub after a client took `cs` for the slice of a filter and closed its channel.
abbrev pub replaced : Topic → SubscriptionFilter → List ℕ → ℕ → Hub → Hub
replaced t f cs c h =
    let h' = with_clients t (put_chans f cs (clients_of t h)) h in
    record h' { closed = c ∷ h'.closed }

entity_of-replaced :
    (t : Topic) (f : SubscriptionFilter) (cs : List ℕ) (c : ℕ) (h : Hub)
    → entity_of t (replaced t f cs c h)
      ≡ record (entity_of t h) { clients = put_chans f cs (clients_of t h) }
entity_of-replaced blocks f cs c h = refl
entity_of-replaced transactions f cs c h = refl
entity_of-replaced events f cs c h = refl
entity_of-replaced reorgs f cs c h = refl

closed-replaced :
    (t : Topic) (f : SubscriptionFilter) (cs : List ℕ) (c : ℕ) (h : Hub)
    → (replaced t f cs c h).closed ≡ c ∷ h.closed
closed-replaced blocks f cs c h = refl
closed-replaced transactions f cs c h = refl
closed-replaced events f cs c h = refl
closed-replaced reorgs f cs c h = refl

chans_at-put_other :
    (f g : SubscriptionFilter) (cs : List ℕ) (m : Clients)
    → f ≢ g
    → chans_at g (put_chans f cs m) ≡ chans_at g m
chans_at-put_other f g cs m d = chans_at-put_chans g f cs m ∙ ground (arith, same_filter_iff f g)

not_topic : {t : Topic} {f g : SubscriptionFilter} → (t ≢ t) ⊎ (f ≢ g) → f ≢ g
not_topic (inl d) = absurd (d refl)
not_topic (inr d) = d

-- The slices of another topic or another filter are as they were.
other_slices :
    (t u : Topic) (f g : SubscriptionFilter) (cs : List ℕ) (c : ℕ) (h : Hub)
    → (t ≢ u) ⊎ (f ≢ g)
    → chans_at g (clients_of u (replaced t f cs c h)) ≡ chans_at g (clients_of u h)
other_slices blocks blocks f g cs c h d = chans_at-put_other f g cs h.blocks.clients (not_topic d)
other_slices blocks transactions f g cs c h d = refl
other_slices blocks events f g cs c h d = refl
other_slices blocks reorgs f g cs c h d = refl
other_slices transactions blocks f g cs c h d = refl
other_slices transactions transactions f g cs c h d =
    chans_at-put_other f g cs h.transactions.clients (not_topic d)
other_slices transactions events f g cs c h d = refl
other_slices transactions reorgs f g cs c h d = refl
other_slices events blocks f g cs c h d = refl
other_slices events transactions f g cs c h d = refl
other_slices events events f g cs c h d = chans_at-put_other f g cs h.events.clients (not_topic d)
other_slices events reorgs f g cs c h d = refl
other_slices reorgs blocks f g cs c h d = refl
other_slices reorgs transactions f g cs c h d = refl
other_slices reorgs events f g cs c h d = refl
other_slices reorgs reorgs f g cs c h d = chans_at-put_other f g cs h.reorgs.clients (not_topic d)

remove_next :
    (xs : List ℕ) (c d : ℕ) (ys : List ℕ)
    → remove_at (suc (length xs)) (xs ++ (c ∷ d ∷ ys)) ≡ ok (xs ++ (c ∷ ys))
unfolding remove_at
remove_next [] c d ys = refl
remove_next (x ∷ xs) c d ys = rw (remove_next xs c d ys)

module _ (t : Topic) (f : SubscriptionFilter) where
  -- The channels of one topic and filter.
  abbrev pub at : Hub → List ℕ
  at h = chans_at f (clients_of t h)

  -- A client that subscribed once, with the index that it remembers.
  abbrev pub once : ℕ → ℕ → Client
  once channel index = record {
    channel = channel;
    pos = record { topic = t; filter = f; index = index } ∷ [];
    gone = false;
  }

  delete_of_ok :
      (h : Hub) (c i : ℕ) (cs : List ℕ)
      → (entity_of t h).locked ≡ false
      → remove_at i (at h) ≡ ok cs
      → (delete (once c i) h).1 ≡ left (replaced t f cs c h)
  unfolding delete leave_positions
  delete_of_ok h c i cs free p = ground arith

  at-replaced : (cs : List ℕ) (c : ℕ) (h : Hub) → at (replaced t f cs c h) ≡ cs
  at-replaced cs c h =
      ap (λ (e : Entity). chans_at f e.clients) (entity_of-replaced t f cs c h)
      ∙ chans_at-put_chans f f cs (clients_of t h)
      ∙ ground (arith, same_filter_iff f f)

  -- What a hub is after the client of channel `c` has left, and only that client.
  abbrev pub LeftBy : ℕ → List ℕ → Hub → Hub → Type 0
  LeftBy c cs h h' =
      (at h' ≡ cs)
      × (h'.closed ≡ c ∷ h.closed)
      × ((u : Topic) (g : SubscriptionFilter)
          → (t ≢ u) ⊎ (f ≢ g)
          → chans_at g (clients_of u h') ≡ chans_at g (clients_of u h))

  -- A client whose index is still that of its channel takes out itself.
  pub leaves_exactly :
      (h : Hub) (c : ℕ) (xs ys : List ℕ)
      → (entity_of t h).locked ≡ false
      → at h ≡ xs ++ (c ∷ ys)
      → (h' : Hub) × ((delete (once c (length xs)) h).1 ≡ left h')
        × LeftBy c (xs ++ ys) h h'
        × ((entity_of t h').locked ≡ false)
  leaves_exactly h c xs ys free p = (
    replaced t f (xs ++ ys) c h,
    delete_of_ok h c (length xs) (xs ++ ys) free
        (ap (remove_at (length xs)) p ∙ remove_at-append xs c ys),
    (
      at-replaced (xs ++ ys) c h,
      closed-replaced t f (xs ++ ys) c h,
      λ u g d. other_slices t u f g (xs ++ ys) c h d,
    ),
    ap (λ (e : Entity). e.locked) (entity_of-replaced t f (xs ++ ys) c h) ∙ free,
  )

  -- A client whose index is that of the next channel takes out the next.
  pub leaves_next :
      (h : Hub) (c d : ℕ) (xs ys : List ℕ)
      → (entity_of t h).locked ≡ false
      → at h ≡ xs ++ (c ∷ d ∷ ys)
      → (h' : Hub) × ((delete (once c (suc (length xs))) h).1 ≡ left h')
        × LeftBy c (xs ++ (c ∷ ys)) h h'
        × ((entity_of t h').locked ≡ false)
  leaves_next h c d xs ys free p =
      let e : remove_at (suc (length xs)) (at h) ≡ ok (xs ++ (c ∷ ys)) =
        ap (remove_at (suc (length xs))) p ∙ remove_next xs c d ys in
      let cs = xs ++ (c ∷ ys) in
      (
        replaced t f cs c h,
        delete_of_ok h c (suc (length xs)) cs free e,
        (at-replaced cs c h, closed-replaced t f cs c h, λ u g k. other_slices t u f g cs c h k),
        ap (λ (x : Entity). x.locked) (entity_of-replaced t f cs c h) ∙ free,
      )
