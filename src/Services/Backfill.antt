-- ===== src/Services/Backfill.antt =====
-- internal/core/services/backfill.go. The RPC node's answers are a parameter, `fetch`; so are the
-- number of CPUs and, for each batch, the order in which its fetches finish.
pub mod Fetching
pub mod Progress
pub mod Complete
pub mod Fuel
pub mod Agrees
pub mod Answered
pub mod Succeeds
pub mod Kept
pub mod Rounds
pub mod Filled
pub mod Recovers
pub mod Blocked
use evm_indexer.Prelude.{
  ℕ, zero, suc, ◌+◌, ◌-◌, ◌*◌, ◌%◌, ◌^◌, Bool, true, false, Option, none, some, List, [], ◌∷◌, set,
  replicate, ltb, leb, if◌then◌else◌, ◌≤◌, ◌<◌, In,
}
use evm_indexer.Prelude.Int.{ℤ, pos, negsuc}
use evm_indexer.Domain.Errors.{Error, Result, ok, err, out_of_fuel, panic}
use evm_indexer.Domain.Models.{Block, BlockTxsEvents}
use evm_indexer.Exec.{World, Exec, pure, raise, lift, ◌>>=◌, ◌>>◌}
use evm_indexer.Repository.Indexer.{bulk_create, get_backfill_cursor, update_backfill_cursor}

-- arithmetic on `uint64`
abbrev pub u64 : ℕ → ℕ
u64 n = n % 2 ^ 64

-- the zero value of `domain.BlockTxsEvents`
abbrev pub zero_block : Block
zero_block = record {
  hash = [];
  id = 0;
  parent_hash = [];
  gas_limit = 0;
  gas_used = 0;
  miner = [];
  timestamp = 0;
}

abbrev pub zero_item : BlockTxsEvents
zero_item = record { block = zero_block; txs = []; events = [] }

-- `uint64(runtime.NumCPU()*concurrencyF + 1)`
unfoldable pub batch_size : ℕ → ℤ → ℕ
batch_size cpus (pos c) = u64 (cpus * c + 1)
batch_size cpus (negsuc k) = u64 (1 + 2 ^ 64 - u64 (cpus * suc k))

-- the last block of the batch that starts at `curr`
unfoldable pub batch_end : ℕ → ℕ → ℕ → ℕ
batch_end batch target curr =
    let end = u64 (curr + batch + 2 ^ 64 - 1) in if ltb target end then target else end

-- `end - curr + 1`, as a `uint64`
unfoldable pub batch_count : ℕ → ℕ → ℕ
batch_count curr end = u64 (end + 2 ^ 64 - curr + 1)

-- where the loop starts
unfoldable pub resume_at : ℕ → ℕ → ℕ
resume_at from cursor = if ltb 0 cursor then u64 (cursor + 1) else from

-- What `errgroup` keeps of one more finished call: the first error.
unfoldable pub keep_first : Option Error → Result BlockTxsEvents → Option Error
keep_first (some e) r = some e
keep_first none (ok d) = none
keep_first none (err e) = some e

-- `results[i] = data`
unfoldable pub put_result : List BlockTxsEvents → ℕ → Result BlockTxsEvents → List BlockTxsEvents
put_result results i (ok d) = set results i d
put_result results i (err e) = results

-- `g.Wait()`
unfoldable pub wait : Option Error → List BlockTxsEvents → Result (List BlockTxsEvents)
wait none results = ok results
wait (some e) results = err e

-- An order in which the calls of a batch finish: each slot occurs, and nothing else.
pub record IsSchedule (schedule : ℕ → ℕ → List ℕ) : Type 0 where
  pub in_range : (curr size i : ℕ) → In i (schedule curr size) → i < size
  pub complete : (curr size i : ℕ) → i < size → In i (schedule curr size)

module _ (fetch : ℕ → Result BlockTxsEvents) where
  -- the goroutines of a batch, in the order in which they finish
  unfoldable pub fetch_slots :
      ℕ → List ℕ → Option Error → List BlockTxsEvents → Result (List BlockTxsEvents)
  unfolding keep_first put_result wait
  fetch_slots curr [] first results = wait first results
  fetch_slots curr (i ∷ is) first results =
      fetch_slots curr is (keep_first first (fetch (u64 (curr + i))))
        (put_result results i (fetch (u64 (curr + i))))

  module _ (schedule : ℕ → ℕ → List ℕ) (batch target : ℕ) where
    -- `make` panics on a length that is negative as an `int`
    unfoldable pub fetch_batch : ℕ → ℕ → Result (List BlockTxsEvents)
    unfolding fetch_slots
    fetch_batch curr size =
        if leb (2 ^ 63) size
        then err panic
        else fetch_slots curr (schedule curr size) none (replicate size zero_item)

    -- one round of the loop: fetch, write, move the cursor
    unfoldable pub backfill_round : ℕ → ℕ → Exec (Unit {0})
    backfill_round curr end = do
      results ← lift (fetch_batch curr (batch_count curr end))
      bulk_create results
      update_backfill_cursor end

    -- `for curr <= targetId`; `true` is the signal that is sent when the loop is done. The error is
    -- the model's own, for when the fuel is used up.
    unfoldable pub backfill_loop : Error → ℕ → ℕ → Exec Bool
    backfill_loop spent zero curr = raise spent
    backfill_loop spent (suc fuel) curr = elim (leb curr target) [
      | true ↦
          backfill_round curr (batch_end batch target curr)
          >> backfill_loop spent fuel (u64 (batch_end batch target curr + 1))
      | false ↦ pure true
    ]

    -- `true` where the signal was sent, `false` where there was nothing to do and none is sent
    unfoldable pub backfill_from : ℕ → Exec Bool
    backfill_from curr =
        if ltb target curr
        then pure false
        else backfill_loop out_of_fuel (suc (suc (target - curr))) curr

unfoldable pub backfill :
    (fetch : ℕ → Result BlockTxsEvents) (schedule : ℕ → ℕ → List ℕ) (cpus from target : ℕ)
    (concurrency_f : ℤ)
    → Exec Bool
backfill fetch schedule cpus from target concurrency_f = do
  cursor ← get_backfill_cursor
  backfill_from fetch schedule (batch_size cpus concurrency_f) target (resume_at from cursor)
