-- ===== src/Repository/Query/Answers.antt =====
-- What the reading methods answer when they return no error.
use evm_indexer.Prelude.{ℕ, Str, ◌=ₛ◌, ◌≡◌, refl, List, [], ◌∷◌, map, select, any, arith}
use evm_indexer.Domain.Errors.{Result, ok}
use evm_indexer.Domain.Models.{Block, Transaction, Event}
use evm_indexer.Store.{Store}
use evm_indexer.Exec.{World, ◌>>=◌, exchange, later}
use evm_indexer.Repository.Query.{
  non_empty, query, query_ordered, scan_tx, in_range, in_time, one_of_ids, get_blocks_by_range_id,
  get_blocks_by_range_time, get_transactions_by_batch_blocks_id, scan_event,
  get_events_by_batch_txs_hash,
}

module _ {A : Type 0} where
  pub query-eq-ok :
      (args : Result (Unit {0})) (f : Store → Result (List A)) (w w' : World) (rows : List A)
      → query args f w ≡ (ok rows, w')
      → (f w.store ≡ ok rows) × (w'.store ≡ w.store)
  unfolding query exchange ◌>>=◌
  query-eq-ok args f w w' rows h = ground arith

  pub query_ordered-eq-ok :
      (args : Result (Unit {0})) (f : World → Result (List A)) (w w' : World) (rows : List A)
      → query_ordered args f w ≡ (ok rows, w')
      → (v : World) × (v.store ≡ w.store)
        × (v.orders ≡ w.orders)
        × (f v ≡ ok rows)
        × (w'.store ≡ w.store)
  unfolding query_ordered exchange ◌>>=◌
  query_ordered-eq-ok args f w w' rows h =
      (record w { faults = later w.faults }, refl, refl, ground arith, ground arith)

  pub non_empty-eq-ok : (xs ys : List A) → non_empty xs ≡ ok ys → ys ≡ xs
  unfolding non_empty
  non_empty-eq-ok [] ys h = absurd (ground arith)
  non_empty-eq-ok (x ∷ xs) ys h = ground arith

pub range_id-eq-ok :
    (from to : ℕ) (w w' : World) (bs : List Block)
    → get_blocks_by_range_id from to w ≡ (ok bs, w')
    → (bs ≡ select (in_range from to) w.store.blocks) × (w'.store ≡ w.store)
unfolding get_blocks_by_range_id
range_id-eq-ok from to w w' bs h =
    let (p, q) = query-eq-ok _ (λ s. non_empty (select (in_range from to) s.blocks)) w w' bs h in
    (non_empty-eq-ok _ bs p, q)

pub range_time-eq-ok :
    (from to : ℕ) (w w' : World) (bs : List Block)
    → get_blocks_by_range_time from to w ≡ (ok bs, w')
    → (bs ≡ select (in_time from to) w.store.blocks) × (w'.store ≡ w.store)
unfolding get_blocks_by_range_time
range_time-eq-ok from to w w' bs h =
    let (p, q) = query-eq-ok _ (λ s. non_empty (select (in_time from to) s.blocks)) w w' bs h in
    (non_empty-eq-ok _ bs p, q)

pub batch_txs-eq-ok :
    (ids : List ℕ) (w w' : World) (ts : List Transaction)
    → get_transactions_by_batch_blocks_id ids w ≡ (ok ts, w')
    → (ts ≡ map scan_tx (select (λ r. one_of_ids ids r.block_id) w.store.transactions))
      × (w'.store ≡ w.store)
unfolding get_transactions_by_batch_blocks_id
batch_txs-eq-ok ids w w' ts h =
    let (p, q) =
      query-eq-ok _
        (λ s. non_empty (map scan_tx (select (λ r. one_of_ids ids r.block_id) s.transactions))) w w'
        ts h in
    (non_empty-eq-ok _ ts p, q)

pub batch_events-eq-ok :
    (hashes : List Str) (w w' : World) (es : List Event)
    → get_events_by_batch_txs_hash hashes w ≡ (ok es, w')
    → (es ≡ map scan_event (select (λ r. any (λ h. r.tx_hash =ₛ h) hashes) w.store.events))
      × (w'.store ≡ w.store)
unfolding get_events_by_batch_txs_hash
batch_events-eq-ok hashes w w' es h =
    let (p, q) =
      query-eq-ok _
        (λ s. non_empty (map scan_event (select (λ r. any (λ h. r.tx_hash =ₛ h) hashes) s.events)))
        w w' es h in
    (non_empty-eq-ok _ es p, q)
