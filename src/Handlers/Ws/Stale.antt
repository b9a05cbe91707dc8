-- ===== src/Handlers/Ws/Stale.antt =====
-- Clients that leave one after the other, with indices that have moved.
use evm_indexer.Prelude.{
  ℕ, suc, ◌≡◌, refl, ap, ◌∙◌, inl, inr, Bool, true, false, In, List, [], ◌∷◌, ◌++◌, length, ==_iff,
  arith,
}
use evm_indexer.Handlers.Ws.Slices.{SubscriptionFilter, Clients}
use evm_indexer.Handlers.Ws.Laws.{In-chans_at}
use evm_indexer.Handlers.Ws.{Topic, Hub, entity_of, clients_of, left, delete}
use evm_indexer.Handlers.Ws.Rounds.{PayloadFilter, matches_filter, crashed, is_closed, broadcast}
use evm_indexer.Handlers.Ws.Delivery.{IsTarget}
use evm_indexer.Handlers.Ws.Reached.{IsIteration, broadcast-Reaches}
use evm_indexer.Handlers.Ws.Leaving.{at, once, leaves_exactly, leaves_next}

module _ (t : Topic) (h : Hub) (iterate : Clients → Clients) (order : IsIteration iterate)
    (ready : ℕ → Bool) (payload : PayloadFilter) where
  closed_target_crashes :
      (c : ℕ)
      → (entity_of t h).locked ≡ false
      → IsTarget payload (clients_of t h) c
      → is_closed h.closed c ≡ true
      → broadcast iterate ready payload t h ≡ crashed
  closed_target_crashes c free target shut =
      elim (broadcast-Reaches iterate order ready payload t h free) [
        | inl (e, _, _, _) ↦ e
        | inr (out, e, opened, _) ↦ absurd (let k = opened c target in ground arith)
      ]

In-middle : (xs : List ℕ) (b : ℕ) (ys : List ℕ) → In b (xs ++ (b ∷ ys))
In-middle [] b ys = inl refl
In-middle (x ∷ xs) b ys = inr (In-middle xs b ys)

is_closed-head : (b : ℕ) (cs : List ℕ) → is_closed (b ∷ cs) b ≡ true
is_closed-head b cs = ground (arith, ==_iff b b)

-- Of three clients next to each other in a slice whose mutex is free, each subscribed once, the
-- first leaves, then the second. The index that the second remembers is by then the third's: the
-- third is taken out, though it has not left, and the second stays, with its channel closed. The
-- next message that the filter matches crashes the program.
pub delete-stale_index :
    (t : Topic) (f : SubscriptionFilter) (h : Hub) (a b d : ℕ) (xs ys : List ℕ)
    (iterate : Clients → Clients) (ready : ℕ → Bool) (payload : PayloadFilter)
    → IsIteration iterate
    → (entity_of t h).locked ≡ false
    → at t f h ≡ xs ++ (a ∷ b ∷ d ∷ ys)
    → matches_filter f payload ≡ true
    → (h' h'' : Hub) × ((delete (once t f a (length xs)) h).1 ≡ left h')
      × ((delete (once t f b (suc (length xs))) h').1 ≡ left h'')
      × (at t f h'' ≡ xs ++ (b ∷ ys))
      × (is_closed h''.closed b ≡ true)
      × (broadcast iterate ready payload t h'' ≡ crashed)
delete-stale_index t f h a b d xs ys iterate ready payload order free p matching =
    let (h', q, (at', closed', _), free') = leaves_exactly t f h a xs (b ∷ d ∷ ys) free p in
    let (h'', q'', (at'', closed'', _), free'') = leaves_next t f h' b d xs ys free' at' in
    let shut : is_closed h''.closed b ≡ true =
      ap (λ cs. is_closed cs b) closed'' ∙ is_closed-head b h'.closed in
    let target : IsTarget payload (clients_of t h'') b = (
      f,
      xs ++ (b ∷ ys),
      In-chans_at f (xs ++ (b ∷ ys)) b (clients_of t h'') at'' (In-middle xs b ys),
      matching,
      In-middle xs b ys,
    ) in
    (
      h',
      h'',
      q,
      q'',
      at'',
      shut,
      closed_target_crashes t h'' iterate order ready payload b free'' target shut,
    )
