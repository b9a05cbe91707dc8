-- ===== src/Services/Query/Groups.antt =====
-- The maps that the query service builds: grouping is selecting.
use evm_indexer.Prelude.{
  append-nil, append_assoc, ℕ, Str, ◌=ₛ◌, =ₛ_iff, ◌==◌, ◌≡◌, sym, ap, ◌∙◌, List, [], ◌∷◌, ◌++◌,
  select, if◌then◌else◌, arith,
}
use evm_indexer.Domain.Models.{Transaction, Event}
use evm_indexer.Services.Query.{
  TxGroups, append_tx, group_txs, txs_at, EventGroups, append_event, group_events, events_at,
}

txs_at-append_tx :
    (id : ℕ) (t : Transaction) (m : TxGroups)
    → txs_at id (append_tx t m) ≡ txs_at id m ++ (if t.block_id == id then t ∷ [] else [])
unfolding txs_at append_tx
txs_at-append_tx id t [] = ground arith
txs_at-append_tx id t ((k, ts) ∷ m) =
    ground (arith, txs_at-append_tx id t m, append-nil ts, append-nil (txs_at id m))

txs_at-group_txs_from :
    (id : ℕ) (m : TxGroups) (ts : List Transaction)
    → txs_at id (group_txs m ts) ≡ txs_at id m ++ select (λ t. t.block_id == id) ts
unfolding group_txs
txs_at-group_txs_from id m [] = sym (append-nil _)
txs_at-group_txs_from id m (t ∷ ts) =
    txs_at-group_txs_from id (append_tx t m) ts
    ∙ ap (λ l. l ++ select (λ t. t.block_id == id) ts) (txs_at-append_tx id t m)
    ∙ append_assoc (txs_at id m) _ _
    ∙ ap (λ l. txs_at id m ++ l) (ground arith)

-- What the map of transactions holds under a block id is the transactions of that id, in the order
-- in which they were read.
pub txs_at-group_txs :
    (id : ℕ) (ts : List Transaction)
    → txs_at id (group_txs [] ts) ≡ select (λ t. t.block_id == id) ts
unfolding txs_at
txs_at-group_txs id ts = txs_at-group_txs_from id [] ts

events_at-append_event :
    (h : Str) (e : Event) (m : EventGroups)
    → events_at h (append_event e m) ≡ events_at h m ++ (if e.tx_hash =ₛ h then e ∷ [] else [])
unfolding events_at append_event
events_at-append_event h e [] = ground arith
events_at-append_event h e ((k, es) ∷ m) = ground (
  arith,
  events_at-append_event h e m,
  append-nil es,
  append-nil (events_at h m),
  =ₛ_iff k e.tx_hash,
  =ₛ_iff k h,
  =ₛ_iff e.tx_hash h,
)

events_at-group_events_from :
    (h : Str) (m : EventGroups) (es : List Event)
    → events_at h (group_events m es) ≡ events_at h m ++ select (λ e. e.tx_hash =ₛ h) es
unfolding group_events
events_at-group_events_from h m [] = sym (append-nil _)
events_at-group_events_from h m (e ∷ es) =
    events_at-group_events_from h (append_event e m) es
    ∙ ap (λ l. l ++ select (λ e. e.tx_hash =ₛ h) es) (events_at-append_event h e m)
    ∙ append_assoc (events_at h m) _ _
    ∙ ap (λ l. events_at h m ++ l) (ground arith)

-- What the map of events holds under a transaction hash is the events of that hash, in the order in
-- which they were read.
pub events_at-group_events :
    (h : Str) (es : List Event) → events_at h (group_events [] es) ≡ select (λ e. e.tx_hash =ₛ h) es
unfolding events_at
events_at-group_events h es = events_at-group_events_from h [] es
