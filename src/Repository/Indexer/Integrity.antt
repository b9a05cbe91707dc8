-- ===== src/Repository/Indexer/Integrity.antt =====
-- The constraints of the tables hold after any calls of the repository.
use evm_indexer.Prelude.{ℕ, List, [], ◌∷◌, arith}
use evm_indexer.Domain.Models.{Block, Transaction, Event, BlockTxsEvents, BalanceEntry}
use evm_indexer.Store.{Store}
use evm_indexer.Store.Unique.{
  IsValid, insert_block-IsValid, insert_tx-IsValid, insert_event-IsValid, delete_events-IsValid,
  delete_transactions-IsValid, delete_blocks-IsValid, upsert_balances-IsValid,
}
use evm_indexer.Exec.{World, Exec}
use evm_indexer.Exec.Keeps.{Keeps}
use evm_indexer.Repository.Indexer.{
  create, bulk_create, update_backfill_cursor, reset_backfill_cursor, update_balancefill_cursor,
  reset_balancefill_cursor, delete, batch_upsert_balance,
}
use evm_indexer.Repository.Indexer.Tables.{IsStable, Holds}
use evm_indexer.Repository.Indexer.Durable.{
  IsDurable, always-Keeps, at_bigint-Keeps, delete-Keeps, upsert-Keeps, balancefill_cursor-Keeps,
}
use evm_indexer.Repository.Indexer.Writes.{create-Keeps, bulk_create-Keeps}

IsValid-IsStable : IsStable IsValid
IsValid-IsStable = record {
  by_block = λ b s s' v h. insert_block-IsValid b s v h;
  by_tx = λ t s s' v h. insert_tx-IsValid t s v h;
  by_event = λ id e s s' v h. insert_event-IsValid id e s v h;
}

cursor-IsValid :
    (s : Store) (a b : ℕ)
    → IsValid s
    → IsValid (record s { backfill_cursor = a; balancefill_cursor = b })
cursor-IsValid s a b v = ground arith

pub IsValid-IsDurable : IsDurable IsValid
IsValid-IsDurable = record {
  stable = IsValid-IsStable;
  by_delete_events = delete_events-IsValid;
  by_delete_transactions = delete_transactions-IsValid;
  by_delete_blocks = delete_blocks-IsValid;
  by_upsert = λ es s s' v h. upsert_balances-IsValid es s v h;
  by_balancefill_cursor = λ n s v. cursor-IsValid s s.backfill_cursor n v;
}

pub backfill_cursor-IsValid : (n : ℕ) → Keeps (Holds IsValid) (update_backfill_cursor n)
unfolding update_backfill_cursor
backfill_cursor-IsValid n =
    at_bigint-Keeps IsValid n _ (λ s v. cursor-IsValid s n s.balancefill_cursor v)

-- The methods of the repository that write.
pub data Call : Type 0 where
  creates : Block → List Transaction → List Event → Call
  bulk_creates : List BlockTxsEvents → Call
  deletes : ℕ → Call
  upserts : List BalanceEntry → Call
  moves_backfill moves_balancefill : ℕ → Call
  resets_backfill resets_balancefill : Call

unfoldable pub call : Call → Exec (Unit {0})
call (creates b ts es) = create b ts es
call (bulk_creates items) = bulk_create items
call (deletes n) = delete n
call (upserts es) = batch_upsert_balance es
call (moves_backfill n) = update_backfill_cursor n
call (moves_balancefill n) = update_balancefill_cursor n
call resets_backfill = reset_backfill_cursor
call resets_balancefill = reset_balancefill_cursor

unfoldable pub run_calls : World → List Call → World
run_calls w [] = w
run_calls w (c ∷ cs) = run_calls (call c w).1 cs

call-Keeps : (c : Call) → Keeps (Holds IsValid) (call c)
unfolding call reset_backfill_cursor reset_balancefill_cursor
call-Keeps (creates b ts es) = create-Keeps IsValid IsValid-IsStable b ts es
call-Keeps (bulk_creates items) = bulk_create-Keeps IsValid IsValid-IsStable items
call-Keeps (deletes n) = delete-Keeps IsValid IsValid-IsDurable n
call-Keeps (upserts es) = upsert-Keeps IsValid IsValid-IsDurable es
call-Keeps (moves_backfill n) = backfill_cursor-IsValid n
call-Keeps (moves_balancefill n) = balancefill_cursor-Keeps IsValid IsValid-IsDurable n
call-Keeps resets_backfill =
    always-Keeps IsValid _ (λ s v. cursor-IsValid s 0 s.balancefill_cursor v)
call-Keeps resets_balancefill =
    always-Keeps IsValid _ (λ s v. cursor-IsValid s s.backfill_cursor 0 v)

-- After any sequence of writing calls, each of which may fail at any exchange, the tables still
-- have unique block ids, block hashes, transaction hashes, events and balance keys.
pub run_calls-IsValid :
    (w : World) (cs : List Call) → IsValid w.store → IsValid (run_calls w cs).store
unfolding run_calls
run_calls-IsValid w [] v = v
run_calls-IsValid w (c ∷ cs) v = run_calls-IsValid (call c w).1 cs ((call-Keeps c).at w v)
