-- ===== src/Services/Indexer.antt =====
-- internal/core/services/indexer.go: the three fills side by side. One action is what one goroutine
-- does between two points where another may come in: a round of a fill, or a receive. An action that
-- its goroutine is not ready for changes nothing.
pub mod Steps
pub mod Kept
pub mod Order
pub mod Starved
pub mod Returned
use evm_indexer.Prelude.{
  ℕ, ◌+◌, Bool, true, false, Option, none, some, List, [], ◌∷◌, ltb, leb, if◌then◌else◌,
}
use evm_indexer.Prelude.Int.{ℤ}
use evm_indexer.Domain.Errors.{Error, Result, ok, err}
use evm_indexer.Domain.Models.{BlockTxsEvents}
use evm_indexer.Exec.{World}
use evm_indexer.Repository.Indexer.{get_backfill_cursor, get_balancefill_cursor}
use evm_indexer.Services.Backfill.{u64, batch_size, batch_end, resume_at, backfill_round}
use evm_indexer.Services.Forwardfill.{handle_head}
use evm_indexer.Services.Balancefill.{Ethereum, Sums}
use evm_indexer.Services.Balancefill.Loop.{balancefill_pass, next_cursor}

-- `GetLastBlockId` of `Run` itself
pub data Phase : Type 0 where
  asking : Phase
  refused : Error → Phase
  started : ℕ → Phase

pub data Forward : Type 0 where
  receiving : Forward
  ended : Error → Forward

pub data Back : Type 0 where
  idle : Back
  -- the target
  reading : ℕ → Back
  -- the target and the next block
  at : ℕ → ℕ → Back
  ended : Result (Unit {0}) → Back

pub data Balance : Type 0 where
  -- not started, and waiting for the signal
  idle waiting : Balance
  reading : Balance
  at : ℕ → Balance
  ended : Error → Balance

pub record System : Type 0 where
  pub world : World
  pub phase : Phase
  pub forward : Forward
  pub back : Back
  pub balance : Balance
  -- what is in `backfillChan`, which has room for one
  pub signal : Bool
  -- the first error of the group
  pub first : Option Error
  -- the group's context
  pub cancelled : Bool

abbrev pub start : World → System
start w = record {
  world = w;
  phase = asking;
  forward = receiving;
  back = idle;
  balance = idle;
  signal = false;
  first = none;
  cancelled = false;
}

abbrev pub keep_error : Option Error → Error → Option Error
keep_error none e = some e
keep_error (some first) e = some first

-- A goroutine of the group returns an error: the first is kept, and the context is cancelled.
abbrev pub fail : Error → System → System
fail e s = record s { first = keep_error s.first e; cancelled = true }

unfoldable pub node_answers : Result ℕ → System → System
node_answers (ok n) s = elim s.phase [
  | asking ↦ record s { phase = started n; back = Back.reading n; balance = waiting }
  | refused _ ↦ s
  | started _ ↦ s
]
node_answers (err e) s = elim s.phase [
  | asking ↦ record s { phase = refused e; cancelled = true }
  | refused _ ↦ s
  | started _ ↦ s
]

abbrev pub after_head : Result (Unit {0}) × World → System → System
after_head (ok _, w) s = record s { world = w }
after_head (err e, w) s = fail e (record s { world = w; forward = Forward.ended e })

-- the end of the subscription, or of the context
unfoldable pub forward_fails : Error → System → System
forward_fails e s = elim s.forward [
  | receiving ↦ fail e (record s { forward = Forward.ended e })
  | ended _ ↦ s
]

abbrev pub after_round : ℕ → ℕ → Result (Unit {0}) × World → System → System
after_round n end (ok _, w) s = record s { world = w; back = Back.at n (u64 (end + 1)) }
after_round n end (err e, w) s = fail e (record s { world = w; back = Back.ended (err e) })

abbrev pub after_balance_cursor : Result ℕ × World → System → System
after_balance_cursor (ok c, w) s = record s { world = w; balance = Balance.at c }
after_balance_cursor (err e, w) s = fail e (record s { world = w; balance = Balance.ended e })

abbrev pub after_pass : ℕ → Result (Option ℕ) × World → System → System
after_pass c (ok next, w) s = record s { world = w; balance = Balance.at (next_cursor c next) }
after_pass c (err e, w) s = fail e (record s { world = w; balance = Balance.ended e })

abbrev pub ends_if : Bool → Error → System → System
ends_if true e s = fail e (record s { balance = Balance.ended e })
ends_if false e s = s

-- `case <-ctx.Done()`, where the balance fill waits for the signal or for a block to be final
unfoldable pub balance_cancelled : Error → System → System
balance_cancelled e s = elim s.balance [
  | idle ↦ s
  | waiting ↦ ends_if s.cancelled e s
  | reading ↦ s
  | at _ ↦ ends_if s.cancelled e s
  | ended _ ↦ s
]

-- `balancefill(ctx, 96)`
abbrev pub run_lag : ℕ
run_lag = 96

pub data Action : Type 0 where
  answers : Result ℕ → Action
  head_arrives : ℕ → Action
  stream_fails : Error → Action
  backfill_moves balance_moves : Action
  balance_stops : Error → Action
  -- the caller cancels its context
  interrupted : Action

-- What a run is given: the node, the number of CPUs, the configuration, and what is not in src/.
pub record Setup : Type 0 where
  pub fetch : ℕ → Result BlockTxsEvents
  pub schedule : ℕ → ℕ → List ℕ
  pub cpus : ℕ
  pub from : ℕ
  pub concurrency_f : ℤ
  pub eth : Ethereum
  pub iterate : Sums → Sums

module _ (setup : Setup) where
  abbrev pub batch : ℕ
  batch = batch_size setup.cpus setup.concurrency_f

  abbrev pub received : Forward → ℕ → System → System
  received receiving id s = after_head (handle_head setup.fetch id s.world) s
  received (Forward.ended _) id s = s

  unfoldable pub head_received : ℕ → System → System
  unfolding handle_head
  head_received id s = received s.forward id s

  -- nothing to do is no signal
  abbrev pub after_cursor : ℕ → Result ℕ × World → System → System
  after_cursor n (ok c, w) s =
      if ltb n (resume_at setup.from c)
      then record s { world = w; back = Back.ended (ok tt) }
      else record s { world = w; back = Back.at n (resume_at setup.from c) }
  after_cursor n (err e, w) s = fail e (record s { world = w; back = Back.ended (err e) })

  -- `for curr <= targetId`, and the signal at its end
  abbrev pub round_if : Bool → ℕ → ℕ → System → System
  round_if true n curr s =
      let end = batch_end batch n curr in
      after_round n end (backfill_round setup.fetch setup.schedule batch n curr end s.world) s
  round_if false n curr s = record s { back = Back.ended (ok tt); signal = true }

  abbrev pub back_moves : Back → System → System
  back_moves Back.idle s = s
  back_moves (Back.reading n) s = after_cursor n (get_backfill_cursor s.world) s
  back_moves (Back.at n curr) s = round_if (leb curr n) n curr s
  back_moves (Back.ended _) s = s

  unfoldable pub backfill_step : System → System
  backfill_step s = back_moves s.back s

  abbrev pub balance_moves_from : Balance → System → System
  balance_moves_from Balance.idle s = s
  balance_moves_from Balance.waiting s =
      if s.signal then record s { signal = false; balance = Balance.reading } else s
  balance_moves_from Balance.reading s = after_balance_cursor (get_balancefill_cursor s.world) s
  balance_moves_from (Balance.at c) s =
      after_pass c (balancefill_pass setup.eth setup.iterate run_lag c s.world) s
  balance_moves_from (Balance.ended _) s = s

  unfoldable pub balance_step : System → System
  balance_step s = balance_moves_from s.balance s

  unfoldable pub act : Action → System → System
  unfolding node_answers head_received forward_fails backfill_step balance_step balance_cancelled
  act (answers r) s = node_answers r s
  act (head_arrives id) s = head_received id s
  act (stream_fails e) s = forward_fails e s
  act backfill_moves s = backfill_step s
  act balance_moves s = balance_step s
  act (balance_stops e) s = balance_cancelled e s
  act interrupted s = record s { cancelled = true }

  -- `Run`, in any interleaving
  unfoldable pub run : List Action → System → System
  unfolding act
  run [] s = s
  run (a ∷ actions) s = run actions (act a s)

abbrev kept_first : Option Error → Result (Unit {0})
kept_first none = ok tt
kept_first (some e) = err e

-- What `Run` returns, once it does: `g.Wait()` waits for every goroutine that was started.
unfoldable pub returned : System → Option (Result (Unit {0}))
returned s = elim s.forward [
  | receiving ↦ none
  | ended _ ↦ elim s.phase [
    | asking ↦ none
    | refused e ↦ some (err e)
    | started _ ↦ elim s.back [
      | idle ↦ none
      | reading _ ↦ none
      | at _ _ ↦ none
      | ended _ ↦ elim s.balance [
        | idle ↦ none
        | waiting ↦ none
        | reading ↦ none
        | at _ ↦ none
        | ended _ ↦ some (kept_first s.first)
      ]
    ]
  ]
]
