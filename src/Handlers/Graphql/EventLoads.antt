-- ===== src/Handlers/Graphql/EventLoads.antt =====
-- What a batch of loads of events answers over the SQL repository.
use evm_indexer.Prelude.{
  Str, ◌=ₛ◌, ◌≡◌, refl, ap, ◌∙◌, ◌⊎◌, inl, inr, Bool, true, List, [], ◌∷◌, map, select, any_of_In,
  In, arith,
}
use evm_indexer.Domain.Errors.{Error, ok, err, Result-cases}
use evm_indexer.Domain.Models.{Event}
use evm_indexer.Store.{Store, EventRow}
use evm_indexer.Exec.{World}
use evm_indexer.Exec.Keeps.{map-eq-ok}
use evm_indexer.Repository.Query.{scan_event}
use evm_indexer.Repository.Query.Answers.{batch_events-eq-ok}
use evm_indexer.Services.Query.{EventGroups, events_at, get_events_by_batch_txs_hash}
use evm_indexer.Services.Query.Groups.{events_at-group_events}
use evm_indexer.Services.Query.Sql.{sql}
use evm_indexer.Handlers.Graphql.{
  DtoEvent, to_event_dto, events_per_tx, per_tx_or_error, get_batch_events,
}
use evm_indexer.Handlers.Graphql.Loads.{handle_error-length}

-- The events stored for a transaction.
abbrev pub events_shown : Store → Str → List Event
events_shown s hash = map scan_event (select (λ r. r.tx_hash =ₛ hash) s.events)

abbrev pub event_dtos_of : Store → Str → List DtoEvent
event_dtos_of s hash = map to_event_dto (events_shown s hash)

select-scan_event :
    (hash : Str) (q : EventRow → Bool) (rows : List EventRow)
    → ((r : EventRow) → (r.tx_hash =ₛ hash) ≡ true → q r ≡ true)
    → select (λ e. e.tx_hash =ₛ hash) (map scan_event (select q rows))
      ≡ map scan_event (select (λ r. r.tx_hash =ₛ hash) rows)
unfolding scan_event
select-scan_event hash q [] h = refl
select-scan_event hash q (r ∷ rows) h = ground (arith, h r, select-scan_event hash q rows h)

events_per_tx-dtos :
    (s : Store) (m : EventGroups) (hashes : List Str)
    → ((h : Str) → In h hashes → events_at h m ≡ events_shown s h)
    → events_per_tx m hashes ≡ map (λ h. ok (event_dtos_of s h)) hashes
unfolding events_per_tx
events_per_tx-dtos s m [] shown = refl
events_per_tx-dtos s m (h ∷ hashes) shown =
    let rest = events_per_tx-dtos s m hashes (λ k i. shown k (inr i)) in
    let first = shown h (inl refl) in λ i. ok (map to_event_dto (first i)) ∷ rest i

-- The groups that the service returned hold, for each key, what the tables hold for it.
groups-shown :
    (hashes : List Str) (w w' : World) (m : EventGroups)
    → get_events_by_batch_txs_hash sql hashes w ≡ (ok m, w')
    → (h : Str) → In h hashes
    → events_at h m ≡ events_shown w.store h
unfolding get_events_by_batch_txs_hash sql
groups-shown hashes w w' m p h i =
    let (es, v, q, same) = map-eq-ok (sql.get_events_by_batch_txs_hash hashes) _ w w' m p in
    let (read, _) = batch_events-eq-ok hashes w v es q in
    ap (events_at h) same
    ∙ events_at-group_events h es
    ∙ ap (select (λ e. e.tx_hash =ₛ h)) read
    ∙ select-scan_event h _ w.store.events (λ e t. any_of_In (λ k. e.tx_hash =ₛ k) h hashes i t)

-- A batch of loads gives each transaction hash, in the order of the hashes, exactly the events that
-- the tables hold for it; or, where the service's one call failed, that error for each hash.
pub get_batch_events-answers :
    (hashes : List Str) (w : World)
    → ((get_batch_events sql hashes w).0 ≡ map (λ h. ok (event_dtos_of w.store h)) hashes)
      ⊎ ((e : Error) × ((get_events_by_batch_txs_hash sql hashes w).0 ≡ err e)
          × ((get_batch_events sql hashes w).0 ≡ map (λ h. err e) hashes))
unfolding get_batch_events
get_batch_events-answers hashes w =
    let (r, w') = get_events_by_batch_txs_hash sql hashes w in
    elim (Result-cases (get_events_by_batch_txs_hash sql hashes w).0) [
      | inl (m, p) ↦ inl (
          ap (per_tx_or_error hashes) p
          ∙ events_per_tx-dtos w.store m hashes (groups-shown hashes w w' m (λ i. (p i, w'))))
      | inr (e, p) ↦ inr (e, p, ap (per_tx_or_error hashes) p ∙ handle_error-length hashes e)
    ]
