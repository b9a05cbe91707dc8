-- ===== src/Store/Unique.antt =====
-- The keys of the tables: every statement keeps them unique.
use evm_indexer.Prelude.{
  ℕ, ◌≡◌, refl, Bool, false, List, arith, repeats_by, repeats_by-select, not, ◌==◌,
}
use evm_indexer.Domain.Errors.{ok}
use evm_indexer.Domain.Models.{Block, Transaction, Event, BalanceEntry}
use evm_indexer.Store.{
  Store, TxRow, EventRow, empty, same_hash, same_id, same_tx, same_event, insert_block, insert_tx,
  insert_event, delete_events, delete_transactions, delete_blocks,
}
use evm_indexer.Store.Balances.{HasUniqueKeys, repeats, upsert_balances, upsert_rows-HasUniqueKeys}

abbrev pub ids_repeat : List Block → Bool
ids_repeat = repeats_by (λ a b. same_id a.id b)

abbrev pub hashes_repeat : List Block → Bool
hashes_repeat = repeats_by (λ a b. same_hash a.hash b)

abbrev pub txs_repeat : List TxRow → Bool
txs_repeat = repeats_by (λ a b. same_tx a.tx_hash b)

abbrev pub events_repeat : List EventRow → Bool
events_repeat = repeats_by (λ a b. same_event a.tx_hash a.log_index b)

-- The PRIMARY KEY and UNIQUE constraints of the migrations.
pub record IsValid (s : Store) : Type 0 where
  pub unique_ids : ids_repeat s.blocks ≡ false
  pub unique_hashes : hashes_repeat s.blocks ≡ false
  pub unique_txs : txs_repeat s.transactions ≡ false
  pub unique_events : events_repeat s.events ≡ false
  pub unique_keys : HasUniqueKeys s.wallet_balance

pub insert_block-IsValid :
    (b : Block) (s : Store) {s' : Store} → IsValid s → insert_block b s ≡ ok s' → IsValid s'
unfolding insert_block
insert_block-IsValid b s v h = ground arith

pub insert_tx-IsValid :
    (t : Transaction) (s : Store) {s' : Store} → IsValid s → insert_tx t s ≡ ok s' → IsValid s'
unfolding insert_tx
insert_tx-IsValid t s v h = ground arith

pub insert_event-IsValid :
    (id : ℕ) (e : Event) (s : Store) {s' : Store}
    → IsValid s
    → insert_event id e s ≡ ok s'
    → IsValid s'
unfolding insert_event
insert_event-IsValid id e s v h = ground arith

module _ (n : ℕ) (s : Store) (v : IsValid s) where
  pub delete_events-IsValid : IsValid (delete_events n s)
  unfolding delete_events
  delete_events-IsValid = ground (
    arith,
    repeats_by-select (λ a b. same_event a.tx_hash a.log_index b) (λ r. not (r.block_id == n))
        s.events,
  )

  pub delete_transactions-IsValid : IsValid (delete_transactions n s)
  unfolding delete_transactions
  delete_transactions-IsValid = ground (
    arith,
    repeats_by-select (λ a b. same_tx a.tx_hash b) (λ r. not (r.block_id == n)) s.transactions,
  )

  pub delete_blocks-IsValid : IsValid (delete_blocks n s)
  unfolding delete_blocks
  delete_blocks-IsValid = ground (
    arith,
    repeats_by-select (λ a b. same_id a.id b) (λ r. not (r.id == n)) s.blocks,
    repeats_by-select (λ a b. same_hash a.hash b) (λ r. not (r.id == n)) s.blocks,
  )

pub upsert_balances-IsValid :
    (es : List BalanceEntry) (s : Store) {s' : Store}
    → IsValid s
    → upsert_balances es s ≡ ok s'
    → IsValid s'
unfolding upsert_balances
upsert_balances-IsValid es s v h =
    ground (arith, upsert_rows-HasUniqueKeys es s.wallet_balance v.unique_keys)

pub empty-IsValid : IsValid empty
unfolding repeats
empty-IsValid = record {
  unique_ids = refl;
  unique_hashes = refl;
  unique_txs = refl;
  unique_events = refl;
  unique_keys = refl;
}
