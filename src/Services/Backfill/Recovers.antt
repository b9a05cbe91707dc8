-- ===== src/Services/Backfill/Recovers.antt =====
-- A backfill that stopped is finished by the next start of the program.
use evm_indexer.Prelude.{
  ℕ, suc, ◌+◌, ◌-◌, ◌^◌, ◌≤◌, ◌<◌, ◌≡◌, refl, ap, ◌∙◌, ◌⊎◌, inl, inr, List, [], arith,
}
use native.Mathlib.Decide.{dec_lt}
use evm_indexer.Prelude.Int.{ℤ}
use evm_indexer.Domain.Errors.{Result}
use evm_indexer.Domain.Models.{BlockTxsEvents}
use evm_indexer.Store.{Store}
use evm_indexer.Exec.{World}
use evm_indexer.Services.Backfill.{batch_size, IsSchedule, resume_at, backfill}
use evm_indexer.Services.Backfill.Progress.{Done}
use evm_indexer.Services.Backfill.Complete.{Covered, backfill_keys_kept}
use evm_indexer.Services.Backfill.Agrees.{Serves, Agrees}
use evm_indexer.Services.Backfill.Kept.{backfill_keeps}
use evm_indexer.Services.Backfill.Rounds.{
  AnswersAs, Moved, agreement-RoundsKeep, stored-RoundsKeep, Moved-RoundsKeep,
}
use evm_indexer.Services.Backfill.Succeeds.{backfill_succeeds, Serves-AreNumbered}
use evm_indexer.Services.Backfill.Filled.{HasAnswers, IsFilled, backfill-Written}
use evm_indexer.Repository.Indexer.Sources.{Written-refl}

-- Where the next start resumes: at the same block, or behind the blocks that are stored.
resumes :
    (from c k lo target : ℕ)
    → c < 2 ^ 63
    → target < 2 ^ 64 - 1
    → lo ≡ resume_at from c
    → lo ≤ k
    → k ≤ target
    → (resume_at from k ≡ lo) ⊎ (resume_at from k ≡ suc k)
unfolding resume_at
resumes from c k lo target fits small p above below = ground arith

module _ (node fetch : ℕ → Result BlockTxsEvents) (before after : ℕ → ℕ → List ℕ)
    (before-IsSchedule : IsSchedule before) (after-IsSchedule : IsSchedule after)
    (cpus from target : ℕ) (concurrency_f : ℤ) (w : World)
    (some_batch : 0 < batch_size cpus concurrency_f)
    (sliced : batch_size cpus concurrency_f < 2 ^ 63)
    (no_wrap : target + batch_size cpus concurrency_f < 2 ^ 64)
    (column : w.store.backfill_cursor < 2 ^ 63)
    (ahead : resume_at from w.store.backfill_cursor ≤ target) (same : AnswersAs node fetch)
    (serves : Serves fetch (resume_at from w.store.backfill_cursor) target)
    (agrees : Agrees fetch (resume_at from w.store.backfill_cursor) target w.store) where
  abbrev start : ℕ
  start = resume_at from w.store.backfill_cursor

  abbrev batch : ℕ
  batch = batch_size cpus concurrency_f

  abbrev stopped : World
  stopped = record (backfill node before cpus from target concurrency_f w).1 { faults = [] }

  abbrev finished : World
  finished = (backfill fetch after cpus from target concurrency_f stopped).1

  abbrev resumed : ℕ
  resumed = resume_at from stopped.store.backfill_cursor

  stopped-Agrees : Agrees fetch start target stopped.store
  stopped-Agrees =
      backfill_keeps node before before-IsSchedule (Agrees fetch start target) cpus from target
        concurrency_f w some_batch no_wrap
        (agreement-RoundsKeep node before before-IsSchedule batch target start some_batch no_wrap
          fetch start (omega arith) serves same)
        agrees

  stopped-Moved :
      Moved node before before-IsSchedule batch target start some_batch no_wrap
        w.store.backfill_cursor stopped.store
  stopped-Moved =
      backfill_keeps node before before-IsSchedule _ cpus from target concurrency_f w some_batch
        no_wrap
        (Moved-RoundsKeep node before before-IsSchedule batch target start some_batch no_wrap
          w.store.backfill_cursor)
        (inl refl)

  stopped-Covered : Covered fetch start w.store.backfill_cursor stopped.store
  stopped-Covered =
      elim (backfill_keys_kept node before before-IsSchedule cpus from target concurrency_f
        some_batch no_wrap w) [
          | inl p ↦ inl p
          | inr stored ↦ inr (λ id l h. let (d, p, c) = stored id l h in (d, same id d p, c))
        ]

  -- The second start fills the range from where it resumes.
  restart_fills :
      (lo : ℕ) → resumed ≡ lo → start ≤ lo → lo ≤ target → HasAnswers fetch lo target finished.store
  restart_fills lo p above below =
      let (_, (answers, _), _) =
        backfill_succeeds fetch after cpus from target concurrency_f stopped after-IsSchedule
          some_batch sliced no_wrap (omega (arith, p)) refl
          (λ id l h. serves id (omega (arith, p)) h)
          (λ b i l h. stopped-Agrees b i (omega (arith, p)) h) in
      λ id l h. answers id (omega (arith, p)) h

  abbrev Kept : ℕ → Store → Type 0
  Kept = Done fetch after after-IsSchedule batch target some_batch no_wrap start

  -- What was stored stays stored.
  still_stored : (hi : ℕ) → Kept hi stopped.store → Kept hi finished.store
  still_stored hi stored =
      backfill_keeps fetch after after-IsSchedule (Kept hi) cpus from target concurrency_f stopped
        some_batch no_wrap
        (stored-RoundsKeep fetch after after-IsSchedule batch target resumed some_batch no_wrap
          fetch start hi)
        stored

  joined :
      (k : ℕ)
      → stopped.store.backfill_cursor ≡ k
      → start ≤ k
      → k ≤ target
      → Kept (suc k) stopped.store
      → HasAnswers fetch start target finished.store
  joined k p above below stored =
      elim (resumes from w.store.backfill_cursor k start target column (omega arith) refl above
        below) [
          | inl first ↦ restart_fills start (ap (resume_at from) p ∙ first) (omega arith) ahead
          | inr next ↦ λ id l h. elim (dec_lt id (suc k)) [
            | yes old ↦
                let (d, q, c) = still_stored (suc k) stored id l old in
                (d, q, Serves-AreNumbered fetch start target serves id d l h q, c)
            | no new ↦
                restart_fills (suc k) (ap (resume_at from) p ∙ next) (omega arith) (omega arith) id
                  (omega arith) h
          ]
        ]

  finished-HasAnswers : HasAnswers fetch start target finished.store
  finished-HasAnswers = elim stopped-Moved [
    | inl unmoved ↦ restart_fills start (ap (resume_at from) unmoved) (omega arith) ahead
    | inr (above, below) ↦ elim stopped-Covered [
      | inl unmoved ↦ restart_fills start (ap (resume_at from) unmoved) (omega arith) ahead
      | inr stored ↦ joined stopped.store.backfill_cursor refl above below stored
    ]
  ]

  -- Let the batch size not be 0 and be below 2 ^ 63, the target plus it be below 2 ^ 64, the cursor
  -- fit its column, and the start be at most the target. Let the node of the second start answer for
  -- every block from the start to the target with a block of that number and rows that the columns
  -- can hold, as the node of the first did where it answered, and let the blocks of that range that
  -- are stored have its hashes. Then wherever the first start stopped, with whatever failures, a
  -- second one, in which every exchange succeeds, leaves a row under each key of each answer's
  -- block, transactions and events; over both starts no row is lost, and each row that was not there
  -- before is, column by column, one of an answer.
  pub backfill_recovers :
      IsFilled fetch (resume_at from w.store.backfill_cursor) target w.store finished.store
  backfill_recovers =
      let one =
        backfill-Written node fetch before cpus from target concurrency_f w.store w
          before-IsSchedule some_batch no_wrap same (Written-refl _ w.store) in
      (
        finished-HasAnswers,
        backfill-Written fetch fetch after cpus from target concurrency_f w.store stopped
            after-IsSchedule some_batch no_wrap (λ id d p. p) one,
      )
