-- ===== src/Tests/Fills.antt =====
-- The theorems about the fills at concrete inputs.
use evm_indexer.Prelude.{◌⊎◌, ap, sym, ◌≡◌, refl, ℕ, Bool, ◌=ₛ◌, true, str, List, [], ◌∷◌, arith}
use evm_indexer.Prelude.Int.{pos}
use mathlib.Core.List.{Perm}
use mathlib.Core.List.Perm
use evm_indexer.Domain.Errors.{ok, err, external, out_of_fuel}
use evm_indexer.Domain.Models.{BlockTxsEvents, Log, BalanceEntry}
use evm_indexer.Store.{
  empty, insert_block, block_fits, insert_tx, tx_fits, tx_row, insert_event, event_fits, event_row,
}
use evm_indexer.Store.Balances.{BalanceKey, HasUniqueKeys, sum_where, supply}
use evm_indexer.Exec.{Message, World, ◌>>=◌, exchange}
use evm_indexer.Repository.Indexer.{
  max_block_id, bulk_create, get_backfill_cursor, transact, with_rollback, bulk_body, run_sql,
  insert_all, bulk_events, bulk_txs, commit, effect, effect_event, effect_events, flat_events,
  flat_txs, update_backfill_cursor,
}
use evm_indexer.Services.Backfill.{
  resume_at, batch_size, fetch_batch, backfill_loop, backfill, backfill_from, backfill_round,
  batch_count, batch_end, fetch_slots, keep_first, put_result, wait,
}
use evm_indexer.Services.Backfill.Filled.{
  AreNumbered, HasAnswers, IsAnswer, IsFilled, backfill_leaves_no_gap, backfill_complete,
}
use evm_indexer.Services.Backfill.Fuel.{backfill_loop_ends}
use evm_indexer.Services.Balancefill.{Ethereum, Sums, aggregate_same_entries, transfer}
use evm_indexer.Services.Balancefill.Aggregate.{aggregate-sums}
use evm_indexer.Services.Balancefill.Loop.{balancefill}
use evm_indexer.Services.Balancefill.Ledger.{IsFinal, Accounted}
use evm_indexer.Services.Balancefill.Accounted.{balancefill-Accounted}
use evm_indexer.Services.Balancefill.Supply.{balancefill-supply}
use evm_indexer.Repository.Indexer.Sources.{Written}
use evm_indexer.Tests.{item_at, block_at, event_at, node, world, backwards, backwards-IsSchedule}

node-AreNumbered : AreNumbered node (resume_at 1 0) 3
node-AreNumbered id d l h p =
    let same : item_at id ≡ d = ground (arith, p) in
    ap (λ (x : BlockTxsEvents). x.block.id) (sym same)

-- Batches of two blocks, from block 1 to block 3.
backfill_leaves_no_gap_example :
    ((((backfill node backwards 1 1 3 (pos 1) world).1.store.backfill_cursor ≡ 0))
      ⊎ HasAnswers node
          (resume_at 1 0)
          (backfill node backwards 1 1 3 (pos 1) world).1.store.backfill_cursor
          (backfill node backwards 1 1 3 (pos 1) world).1.store)
    × Written (IsAnswer node 3) empty (backfill node backwards 1 1 3 (pos 1) world).1.store
unfolding batch_size
backfill_leaves_no_gap_example =
    backfill_leaves_no_gap node backwards backwards-IsSchedule 1 1 3 (pos 1) (ground arith)
      (ground arith) world node-AreNumbered

signalled : (backfill node backwards 1 1 3 (pos 1) world).0 ≡ ok true
unfolding backfill batch_size ◌>>=◌ get_backfill_cursor exchange backfill_from resume_at
    backfill_loop backfill_round fetch_batch batch_count batch_end bulk_create transact
    with_rollback bulk_body run_sql insert_all insert_block ◌=ₛ◌ bulk_events bulk_txs commit effect
    effect_event effect_events flat_events flat_txs update_backfill_cursor fetch_slots keep_first
    put_result wait block_fits event_fits event_row insert_event insert_tx tx_fits tx_row
signalled = refl

backfill_complete_example :
    IsFilled node (resume_at 1 0) 3 empty (backfill node backwards 1 1 3 (pos 1) world).1.store
    × ((backfill node backwards 1 1 3 (pos 1) world).1.store.backfill_cursor ≡ 3)
unfolding batch_size
backfill_complete_example =
    backfill_complete node backwards backwards-IsSchedule 1 1 3 (pos 1) (ground arith)
      (ground arith) world node-AreNumbered signalled

backfill_loop_ends_example :
    backfill_loop node backwards 2 3 out_of_fuel 4 1 world
    ≡ backfill_loop node backwards 2 3 (external 0) 9 1 world
backfill_loop_ends_example =
    backfill_loop_ends node backwards backwards-IsSchedule 2 3 (omega arith) (omega arith)
      out_of_fuel (external 0) 3 8 1 (omega arith) (omega arith) world

-- A node's library that answers what the examples need.
abbrev pub eth : Ethereum
eth = record { from_hex = λ s. s; hash_hex = λ n. n ∷ []; unpack = λ bytes. err (external 1) }

abbrev pub as_kept : Sums → Sums
as_kept m = m

as_kept-order : (m : Sums) → Perm (as_kept m) m
as_kept-order m = Perm.refl m

abbrev log : Log
log = record {
  id = 1;
  block_id = 1;
  emitter = str "0xt";
  datas = str "7";
  topics = transfer ∷ str "0xa" ∷ str "0xb" ∷ [];
}

abbrev entry : ℕ → BalanceEntry
entry n = record {
  wallet_address = str "0xa";
  token_address = str "0xt";
  token_id = [];
  amount = pos n;
}

abbrev some_entries : List BalanceEntry
some_entries = entry 1 ∷ entry 2 ∷ []

aggregate-sums_example :
    ((p : BalanceKey → Bool)
      → sum_where p (aggregate_same_entries as_kept some_entries) ≡ sum_where p some_entries)
    × HasUniqueKeys (aggregate_same_entries as_kept some_entries)
aggregate-sums_example = aggregate-sums as_kept some_entries as_kept-order

-- Three blocks are stored, and the event of the first.
abbrev filled : World
filled = record world {
  store = record empty {
    blocks = block_at 3 ∷ block_at 2 ∷ block_at 1 ∷ [];
    events = event_row 1 (event_at 1) ∷ [];
  };
}

-- Between the rounds the forward fill publishes something.
abbrev announces : World → World
announces w = record w { published = Message.block (block_at 3) ∷ w.published }

announces-IsFinal : IsFinal 1 announces
announces-IsFinal = record {
  balances = λ w. refl;
  cursor = λ w. refl;
  higher = λ w. omega arith;
  column = λ w h. h;
  deep = λ w n h. refl;
}

abbrev of_receiver : BalanceKey → Bool
of_receiver k = k.wallet =ₛ str "0xb"

balancefill-Accounted_example :
    Accounted eth of_receiver
      (balancefill eth as_kept 1 (external 0) (announces ∷ announces ∷ []) filled).1.store
      0
      (sum_where of_receiver [])
unfolding max_block_id
balancefill-Accounted_example =
    balancefill-Accounted eth of_receiver as_kept 1 (external 0) (announces ∷ announces ∷ []) filled
      as_kept-order (announces-IsFinal, (announces-IsFinal, tt)) (ground arith)

balancefill-supply_example :
    supply
      (str "0xt")
      []
      (balancefill eth as_kept 1
        (external 0)
        ((λ w. filled) ∷ (λ w. w) ∷ [])
        world).1.store.wallet_balance
    ≡ pos 0
unfolding sum_where
balancefill-supply_example =
    balancefill-supply eth as_kept as_kept-order (str "0xt") [] (pos 0) 1 (external 0)
      ((λ w. filled) ∷ (λ w. w) ∷ []) world ((λ w h. refl), ((λ w h. h), tt)) refl
