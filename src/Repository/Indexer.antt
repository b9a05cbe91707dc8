-- ===== src/Repository/Indexer.antt =====
-- internal/repository/db/indexer.go: what the indexer writes and reads. Each exchange with the
-- database takes one outcome from the world's list, in the order in which the code makes them.
pub mod Tables
pub mod Writes
pub mod Durable
pub mod Integrity
pub mod Stored
pub mod Committed
pub mod Atomic
pub mod Deleted
pub mod Reads
pub mod Succeeds
pub mod Preserved
pub mod Sources
use evm_indexer.Prelude.{
  ℕ, suc, Str, ◌=ₛ◌, Bool, false, ◌&&◌, Option, none, some, List, [], ◌∷◌, ◌++◌, map, select, any,
  leb, ltb, ◌^◌, ◌==◌, if◌then◌else◌,
}
use evm_indexer.Domain.Errors.{Result, ok, err, not_found, value_too_large}
use evm_indexer.Domain.Models.{
  Block, Transaction, Event, BlockTxsEvents, BalanceEntry, LogFilter, Log,
}
use evm_indexer.Store.{
  Store, EventRow, insert_block, insert_tx, insert_event, delete_events, delete_transactions,
  delete_blocks,
}
use evm_indexer.Store.Balances.{upsert_balances}
use evm_indexer.Exec.{World, Exec, pure, lift, gets, ◌>>=◌, ◌>>◌, exchange, outcome, later}

-- a statement's effect on the tables, after the exchange that carries it
unfoldable pub effect : (Store → Result Store) → Exec (Unit {0})
effect f w = elim (f w.store) [ ok s ↦ (ok tt, record w { store = s }) | err e ↦ (err e, w) ]

unfoldable pub run_sql : (Store → Result Store) → Exec (Unit {0})
unfolding effect ◌>>=◌
run_sql f = do exchange; effect f

-- the same for one row of `events`, which takes a number from the sequence
unfoldable pub effect_event : Event → Exec (Unit {0})
effect_event e w = elim (insert_event w.sequence e w.store) [
  | ok s ↦ (ok tt, record w { store = s; sequence = suc w.sequence })
  | err x ↦ (err x, record w { sequence = suc w.sequence })
]

-- `defer tx.Rollback()`: a body that fails leaves the tables as they were
abbrev pub rolled_back : Store → Result (Unit {0}) → World → World
rolled_back s (ok _) w = w
rolled_back s (err _) w = record w { store = s }

unfoldable pub with_rollback : Exec (Unit {0}) → Exec (Unit {0})
with_rollback body w = let (r, w') = body w in (r, rolled_back w.store r w')

abbrev pub closed : Store → Result (Unit {0}) → Exec (Unit {0})
closed before (ok _) w = (ok tt, record w { faults = later w.faults })
closed before (err e) w = (err e, record w { faults = later w.faults; store = before })

-- `tx.Commit()` of a transaction that began at `before`: if it fails, nothing was written
unfoldable pub commit : Store → Exec (Unit {0})
commit before w = closed before (outcome w.faults) w

-- a transaction whose `tx.Commit()` is the last call: its error is the method's
unfoldable pub transact : Exec (Unit {0}) → Exec (Unit {0})
transact body w = (do with_rollback body; commit w.store) w

-- a call whose error is dropped
unfoldable pub ignore_error : Exec (Unit {0}) → Exec (Unit {0})
ignore_error m w = (ok tt, (m w).1)

unfoldable pub exec_txs : List Transaction → Exec (Unit {0})
exec_txs [] = pure tt
exec_txs (t ∷ ts) = let rest = exec_txs ts in do run_sql (insert_tx t); rest

unfoldable pub exec_events : List Event → Exec (Unit {0})
exec_events [] = pure tt
exec_events (e ∷ es) = let rest = exec_events es in do exchange; effect_event e; rest

-- BeginTx, the block, Prepare, the transactions, Prepare, the events
unfoldable pub create_body : Block → List Transaction → List Event → Exec (Unit {0})
create_body block txs events = do
  exchange
  run_sql (insert_block block)
  exchange
  exec_txs txs
  exchange
  exec_events events

-- `Create`: the error of `tx.Commit()` is dropped.
unfoldable pub create : Block → List Transaction → List Event → Exec (Unit {0})
create block txs events w =
    (do with_rollback (create_body block txs events); ignore_error (commit w.store)) w

-- one INSERT ... SELECT FROM UNNEST: the rows go in one after the other
unfoldable pub insert_all {ℓ} :
    {A : Type ℓ} → (A → Store → Result Store) → List A → Store → Result Store
insert_all f [] s = ok s
insert_all f (x ∷ xs) s = elim (f x s) [ ok s' ↦ insert_all f xs s' | err e ↦ err e ]

unfoldable pub effect_events : List Event → Exec (Unit {0})
effect_events [] = pure tt
effect_events (e ∷ es) = let rest = effect_events es in do effect_event e; rest

unfoldable pub flat_txs : List BlockTxsEvents → List Transaction
flat_txs [] = []
flat_txs (item ∷ items) = item.txs ++ flat_txs items

unfoldable pub flat_events : List BlockTxsEvents → List Event
flat_events [] = []
flat_events (item ∷ items) = item.events ++ flat_events items

-- `len(flatTxs) > 0`
unfoldable pub bulk_txs : List Transaction → Exec (Unit {0})
bulk_txs [] = pure tt
bulk_txs (t ∷ ts) = run_sql (insert_all insert_tx (t ∷ ts))

unfoldable pub bulk_events : List Event → Exec (Unit {0})
bulk_events [] = pure tt
bulk_events (e ∷ es) = do exchange; effect_events (e ∷ es)

unfoldable pub bulk_body : List BlockTxsEvents → Exec (Unit {0})
unfolding bulk_txs bulk_events
bulk_body items = do
  exchange
  run_sql (insert_all insert_block (map (λ item. item.block) items))
  bulk_txs (flat_txs items)
  bulk_events (flat_events items)

unfoldable pub bulk_create : List BlockTxsEvents → Exec (Unit {0})
bulk_create items = transact (bulk_body items)

-- a statement that compares an INT column with `n`
unfoldable pub at_int : ℕ → (Store → Store) → Store → Result Store
at_int n f s = if ltb n (2 ^ 31) then ok (f s) else err value_too_large

-- a statement that has `n` as an argument for a BIGINT column
unfoldable pub at_bigint : ℕ → (Store → Store) → Store → Result Store
at_bigint n f s = if ltb n (2 ^ 63) then ok (f s) else err value_too_large

unfoldable pub get_backfill_cursor : Exec ℕ
get_backfill_cursor = do exchange; gets (λ w. w.store.backfill_cursor)

unfoldable pub update_backfill_cursor : ℕ → Exec (Unit {0})
unfolding at_bigint
update_backfill_cursor n = run_sql (at_bigint n (λ s. record s { backfill_cursor = n }))

unfoldable pub reset_backfill_cursor : Exec (Unit {0})
reset_backfill_cursor = run_sql (λ s. ok (record s { backfill_cursor = 0 }))

unfoldable pub get_balancefill_cursor : Exec ℕ
get_balancefill_cursor = do exchange; gets (λ w. w.store.balancefill_cursor)

unfoldable pub update_balancefill_cursor : ℕ → Exec (Unit {0})
unfolding at_bigint
update_balancefill_cursor n = run_sql (at_bigint n (λ s. record s { balancefill_cursor = n }))

unfoldable pub reset_balancefill_cursor : Exec (Unit {0})
reset_balancefill_cursor = run_sql (λ s. ok (record s { balancefill_cursor = 0 }))

unfoldable pub delete_body : ℕ → Exec (Unit {0})
unfolding at_int
delete_body n = do
  exchange
  run_sql (at_int n (delete_events n))
  run_sql (at_int n (delete_transactions n))
  run_sql (λ s. ok (delete_blocks n s))

unfoldable pub delete : ℕ → Exec (Unit {0})
delete n = transact (delete_body n)

-- the first row of `SELECT ... WHERE block_id = $1`
unfoldable pub find_block : ℕ → List Block → Option Block
find_block n [] = none
find_block n (b ∷ bs) = if b.id == n then some b else find_block n bs

abbrev pub or_not_found {ℓ} : {A : Type ℓ} → Option A → Result A
or_not_found none = err not_found
or_not_found (some a) = ok a

unfoldable pub get_block_by_id : ℕ → Exec Block
get_block_by_id n = do
  exchange
  lift (if ltb n (2 ^ 63) then ok tt else err value_too_large)
  found ← gets (λ w. find_block n w.store.blocks)
  lift (or_not_found found)

unfoldable pub batch_upsert_balance : List BalanceEntry → Exec (Unit {0})
batch_upsert_balance entries = transact (do exchange; run_sql (upsert_balances entries))

-- COALESCE(MAX(block_id), 0)
unfoldable pub max_block_id : List Block → ℕ
max_block_id [] = 0
max_block_id (b ∷ bs) = let m = max_block_id bs in if leb m b.id then b.id else m

unfoldable pub get_max_indexed_block : Exec ℕ
get_max_indexed_block = do exchange; gets (λ w. max_block_id w.store.blocks)

-- topics[1] = ANY($1), where SQL counts from 1; with no topic it is NULL, which is not true
unfoldable pub first_topic_in : List Str → List Str → Bool
first_topic_in [] wanted = false
first_topic_in (t ∷ _) wanted = any (λ x. t =ₛ x) wanted

unfoldable pub log_wanted : LogFilter → EventRow → Bool
log_wanted f r =
    first_topic_in r.topics f.topics && (leb f.from_block r.block_id && leb r.block_id f.to_block)

-- `scanLog`
abbrev pub scan_log : EventRow → Log
scan_log r = record {
  id = r.id;
  block_id = r.block_id;
  emitter = r.emitter;
  datas = r.datas;
  topics = r.topics;
}

-- `fetchLogs` gives no error for an empty result
unfoldable pub get_logs_by_topic : LogFilter → Exec (List Log)
get_logs_by_topic f = do
  exchange
  lift (if ltb f.from_block (2 ^ 31) && ltb f.to_block (2 ^ 31) then ok tt else err value_too_large)
  gets (λ w. map scan_log (select (log_wanted f) w.store.events))
