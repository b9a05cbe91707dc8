-- ===== src/Services/Backfill/Kept.antt =====
-- What every round of the backfill keeps, a whole run keeps, wherever it stops.
use evm_indexer.Prelude.{
  ℕ, zero, suc, ◌+◌, ◌-◌, ◌^◌, ◌≤◌, ◌<◌, ◌≡◌, sym, subst, inl, inr, List, Bool, false, Bool-cases,
  leb, ltb, arith, leb→le,
}
use evm_indexer.Prelude.Int.{ℤ}
use evm_indexer.Domain.Errors.{Error, Result, out_of_fuel}
use evm_indexer.Domain.Models.{BlockTxsEvents}
use evm_indexer.Store.{Store}
use evm_indexer.Exec.{World, later}
use evm_indexer.Exec.Keeps.{Keeps, Keeps-bind, Keeps-pure, Keeps-raise, >>=_of_ok, >>=_of_err}
use evm_indexer.Repository.Indexer.{get_backfill_cursor}
use evm_indexer.Repository.Indexer.Tables.{Holds}
use evm_indexer.Services.Backfill.{
  u64, batch_end, batch_size, IsSchedule, backfill_round, backfill_loop, backfill_from, resume_at,
  backfill,
}
use evm_indexer.Services.Backfill.Progress.{batch_end_bounds}
use evm_indexer.Services.Backfill.Complete.{loop_more, loop_done, cursor_cases}

module _ (fetch : ℕ → Result BlockTxsEvents) (schedule : ℕ → ℕ → List ℕ)
    (scheduled : IsSchedule schedule) (V : Store → Type 0) where
  -- Each round from `lo` on keeps `V`.
  abbrev pub RoundsKeep : ℕ → ℕ → ℕ → Type 0
  RoundsKeep batch target lo =
      (curr : ℕ)
      → lo ≤ curr
      → curr ≤ target
      → Keeps (Holds V)
          (backfill_round fetch schedule batch target curr (batch_end batch target curr))

  module _ (batch target lo : ℕ) (some_batch : 0 < batch) (no_wrap : target + batch < 2 ^ 64)
      (rounds : RoundsKeep batch target lo) where
    loop_keeps :
        (spent : Error) (fuel curr : ℕ) (w : World)
        → lo ≤ curr
        → V w.store
        → V (backfill_loop fetch schedule batch target spent fuel curr w).1.store
    unfolding backfill_loop
    loop_keeps spent zero curr w lc v = (Keeps-raise {P = Holds V} spent).at w v
    loop_keeps spent (suc fuel) curr w lc v = elim (Bool-cases (leb curr target)) [
      | inr e ↦
          subst (λ (r : Result Bool × World). V r.1.store)
            (sym (
              loop_done fetch schedule scheduled batch target some_batch no_wrap spent fuel curr w
                e))
            v
      | inl e ↦
          let end = batch_end batch target curr in
          let ct = leb→le curr target e in
          let (ce, et) = batch_end_bounds batch target curr some_batch no_wrap ct in
          let next : u64 (end + 1) ≡ suc end = omega arith in
          subst (λ (r : Result Bool × World). V r.1.store)
            (sym (
              loop_more fetch schedule scheduled batch target some_batch no_wrap spent fuel curr w
                e))
            ((Keeps-bind {P = Holds V} _ _ (rounds curr lc ct) (λ _. record {
              at = λ u h. loop_keeps spent fuel (u64 (end + 1)) u (omega (arith, next)) h;
            })).at
              w v)
    ]

    from_keeps :
        (w : World) → V w.store → V (backfill_from fetch schedule batch target lo w).1.store
    unfolding backfill_from
    from_keeps w v = elim (Bool-cases (ltb target lo)) [
      | inl past ↦ rw (past, backfill_from) ((Keeps-pure {P = Holds V} false).at w v)
      | inr ahead ↦
          rw (ahead, backfill_from)
            (loop_keeps out_of_fuel (suc (suc (target - lo))) lo w (omega arith) v)
    ]

  pub backfill_keeps :
      (cpus from target : ℕ) (concurrency_f : ℤ) (w : World)
      → 0 < batch_size cpus concurrency_f
      → target + batch_size cpus concurrency_f < 2 ^ 64
      → RoundsKeep (batch_size cpus concurrency_f) target (resume_at from w.store.backfill_cursor)
      → V w.store
      → V (backfill fetch schedule cpus from target concurrency_f w).1.store
  unfolding backfill
  backfill_keeps cpus from target concurrency_f w some_batch no_wrap rounds v =
      elim (cursor_cases w) [
        | inl p ↦
            subst (λ (r : Result Bool × World). V r.1.store)
              (sym (>>=_of_ok get_backfill_cursor _ w p))
              (from_keeps (batch_size cpus concurrency_f) target
                (resume_at from w.store.backfill_cursor) some_batch no_wrap rounds
                (record w { faults = later w.faults }) v)
        | inr (e, p) ↦
            subst (λ (r : Result Bool × World). V r.1.store)
              (sym (>>=_of_err get_backfill_cursor _ w p)) v
      ]
