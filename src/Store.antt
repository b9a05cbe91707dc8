-- ===== src/Store.antt =====
-- The tables of internal/repository/db/migrations and the effect of the SQL statements that
-- internal/repository/db runs on them. A table is a list of rows in no order that anything relies
-- on: a SELECT without ORDER BY gives the rows of the list that its WHERE accepts, as they stand.
pub mod Unique
pub mod Balances
use evm_indexer.Prelude.{
  ℕ, suc, ◌+◌, ◌^◌, ◌<◌, Str, ◌=ₛ◌, Bool, true, not, ◌&&◌, Option, none, some, List, [], ◌∷◌,
  select, any, length, ltb, leb, ◌==◌, if◌then◌else◌,
}
use evm_indexer.Prelude.Int.{ℤ, ◌+ℤ◌}
use evm_indexer.Domain.Errors.{Result, ok, err, unique_violation, value_too_large}
use evm_indexer.Domain.Models.{Block, Transaction, Event, BalanceEntry}

-- a row of `transactions`: the table has no column for the status
pub record TxRow : Type 0 where
  pub block_id : ℕ
  pub tx_hash : Str
  pub from_addr : Str
  pub to_addr : Option Str
  pub gas_used : ℕ

pub record EventRow : Type 0 where
  pub id : ℕ
  pub block_id : ℕ
  pub log_index : ℕ
  pub tx_hash : Str
  pub emitter : Str
  pub datas : Str
  pub topics : List Str

pub record Store : Type 0 where
  pub blocks : List Block
  pub transactions : List TxRow
  pub events : List EventRow
  pub wallet_balance : List BalanceEntry
  pub backfill_cursor : ℕ
  pub balancefill_cursor : ℕ

-- the tables as the migrations leave them
abbrev pub empty : Store
empty = record {
  blocks = [];
  transactions = [];
  events = [];
  wallet_balance = [];
  backfill_cursor = 0;
  balancefill_cursor = 0;
}

abbrev is_bigint : ℕ → Bool
is_bigint n = ltb n (2 ^ 63)

abbrev is_int : ℕ → Bool
is_int n = ltb n (2 ^ 31)

abbrev is_varchar : ℕ → Str → Bool
is_varchar n s = leb (length s) n

abbrev is_nullable_varchar : ℕ → Option Str → Bool
is_nullable_varchar n none = true
is_nullable_varchar n (some s) = is_varchar n s

-- The columns' types: BIGINT and INT are signed, VARCHAR(n) has a longest length.
unfoldable pub block_fits : Block → Bool
block_fits b =
    is_varchar 66 b.hash
    && (is_bigint b.id
        && (is_varchar 66 b.parent_hash
            && (is_bigint b.gas_limit
                && (is_bigint b.gas_used && (is_varchar 42 b.miner && is_bigint b.timestamp)))))

unfoldable pub tx_fits : Transaction → Bool
tx_fits t =
    is_int t.block_id
    && (is_varchar 66 t.hash
        && (is_varchar 42 t.from && (is_nullable_varchar 42 t.to && is_bigint t.gas_used)))

unfoldable pub event_fits : Event → Bool
event_fits e =
    is_int e.block_id
    && (is_int e.log_index && (is_varchar 66 e.tx_hash && is_varchar 42 e.emitter))

abbrev pub same_hash : Str → Block → Bool
same_hash h r = r.hash =ₛ h

abbrev pub same_id : ℕ → Block → Bool
same_id n r = r.id == n

-- INSERT INTO blocks ... ON CONFLICT (block_hash) DO NOTHING: a row of the same hash is kept; any
-- other conflict, here on block_id, fails the statement.
unfoldable pub insert_block : Block → Store → Result Store
insert_block b s =
    if not (block_fits b)
    then err value_too_large
    else if any (same_hash b.hash) s.blocks
    then ok s
    else if any (same_id b.id) s.blocks
    then err unique_violation
    else ok (record s { blocks = b ∷ s.blocks })

unfoldable pub tx_row : Transaction → TxRow
tx_row t = record {
  block_id = t.block_id;
  tx_hash = t.hash;
  from_addr = t.from;
  to_addr = t.to;
  gas_used = t.gas_used;
}

abbrev pub same_tx : Str → TxRow → Bool
same_tx h r = r.tx_hash =ₛ h

-- INSERT INTO transactions ... ON CONFLICT (tx_hash) DO NOTHING
unfoldable pub insert_tx : Transaction → Store → Result Store
unfolding tx_row
insert_tx t s =
    if not (tx_fits t)
    then err value_too_large
    else if any (same_tx t.hash) s.transactions
    then ok s
    else ok (record s { transactions = tx_row t ∷ s.transactions })

unfoldable pub event_row : ℕ → Event → EventRow
event_row id e = record {
  id = id;
  block_id = e.block_id;
  log_index = e.log_index;
  tx_hash = e.tx_hash;
  emitter = e.emitter;
  datas = e.datas;
  topics = e.topics;
}

abbrev pub same_event : Str → ℕ → EventRow → Bool
same_event h n r = (r.tx_hash =ₛ h) && (r.log_index == n)

-- INSERT INTO events ... ON CONFLICT (tx_hash, log_index) DO NOTHING
unfoldable pub insert_event : ℕ → Event → Store → Result Store
unfolding event_row
insert_event id e s =
    if not (event_fits e)
    then err value_too_large
    else if any (same_event e.tx_hash e.log_index) s.events
    then ok s
    else ok (record s { events = event_row id e ∷ s.events })

-- DELETE FROM events, transactions, blocks WHERE block_id = $1
unfoldable pub delete_events : ℕ → Store → Store
delete_events n s = record s { events = select (λ r. not (r.block_id == n)) s.events }

unfoldable pub delete_transactions : ℕ → Store → Store
delete_transactions n s = record s {
  transactions = select (λ r. not (r.block_id == n)) s.transactions;
}

unfoldable pub delete_blocks : ℕ → Store → Store
delete_blocks n s = record s { blocks = select (λ r. not (r.id == n)) s.blocks }
