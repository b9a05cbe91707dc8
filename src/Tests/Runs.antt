-- ===== src/Tests/Runs.antt =====
-- The three fills side by side, at concrete runs.
use evm_indexer.Prelude.{ℕ, ◌≡◌, refl, ◌<◌, true, false, some, In, List, [], ◌∷◌, arith, ◌=ₛ◌}
use evm_indexer.Prelude.Int.{pos}
use evm_indexer.Domain.Errors.{ok, err, external}
use evm_indexer.Store.{
  insert_block, block_fits, insert_tx, tx_fits, tx_row, insert_event, event_fits, event_row,
}
use evm_indexer.Exec.{◌>>=◌, exchange}
use evm_indexer.Repository.Indexer.{
  bulk_create, get_backfill_cursor, transact, with_rollback, bulk_body, run_sql, insert_all,
  bulk_events, bulk_txs, commit, effect, effect_event, effect_events, flat_events, flat_txs,
  update_backfill_cursor,
}
use evm_indexer.Services.Backfill.{
  resume_at, batch_size, fetch_batch, backfill_round, batch_count, batch_end, fetch_slots,
  keep_first, put_result, wait,
}
use evm_indexer.Services.Balancefill.{Ethereum, Sums}
use evm_indexer.Services.Indexer.{
  Setup, Back, started, node_answers, Action, answers, head_arrives, backfill_moves, balance_moves,
  stream_fails, forward_fails, returned, backfill_step, balance_step, act, run,
}
use evm_indexer.Services.Indexer.Order.{cursor_of, has_begun, reached, run-balance_after_backfill}
use evm_indexer.Services.Indexer.Starved.{run-up_to_date}
use evm_indexer.Tests.{node, world, backwards}

-- A library that decodes no text.
abbrev no_hex : Ethereum
no_hex = record { from_hex = λ s. s; hash_hex = λ n. n ∷ []; unpack = λ bytes. err (external 1) }

abbrev keep_order : Sums → Sums
keep_order m = m

abbrev setup : Setup
setup = record {
  fetch = node;
  schedule = backwards;
  cpus = 1;
  from = 1;
  concurrency_f = pos 1;
  eth = no_hex;
  iterate = keep_order;
}

abbrev one_block : List Action
one_block = answers (ok 1) ∷ backfill_moves ∷ backfill_moves ∷ backfill_moves ∷ balance_moves ∷ []

let_in :
    has_begun (reached setup one_block world).signal (reached setup one_block world).balance ≡ true
unfolding run act node_answers backfill_step balance_step batch_size ◌>>=◌ get_backfill_cursor
    exchange resume_at backfill_round fetch_batch batch_count batch_end bulk_create transact
    with_rollback bulk_body run_sql insert_all insert_block ◌=ₛ◌ bulk_events bulk_txs commit effect
    effect_event effect_events flat_events flat_txs update_backfill_cursor fetch_slots keep_first
    put_result wait block_fits event_fits event_row insert_event insert_tx tx_fits tx_row
let_in = refl

run-balance_after_backfill_example :
    ((reached setup one_block world).back ≡ Back.ended (ok tt))
    × ((reached setup one_block world).phase
        ≡ started (cursor_of (reached setup one_block world).world))
run-balance_after_backfill_example = run-balance_after_backfill setup one_block world let_in

-- a run that resumes at block 1, where the node still answers 0
abbrev nothing_new : List Action
nothing_new = head_arrives 5 ∷ answers (ok 0) ∷ backfill_moves ∷ balance_moves ∷ []

nothing_new_late : (n : ℕ) → In (answers (ok n)) nothing_new → n < resume_at 1 0
unfolding resume_at
nothing_new_late n i = ground arith

run-up_to_date_example :
    has_begun (reached setup nothing_new world).signal (reached setup nothing_new world).balance
    ≡ false
run-up_to_date_example = run-up_to_date setup nothing_new world nothing_new_late

-- The node refuses, and then the subscription ends.
abbrev refusal : List Action
refusal = answers (err (external 4)) ∷ stream_fails (external 5) ∷ []

refusal_lem : returned (reached setup refusal world) ≡ some (err (external 4))
unfolding returned run act node_answers forward_fails
refusal_lem = refl
