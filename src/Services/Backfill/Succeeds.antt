-- ===== src/Services/Backfill/Succeeds.antt =====
-- The backfill does its work: where nothing fails, it ends with its signal.
use evm_indexer.Prelude.{
  sym, In, ℕ, zero, suc, ◌+◌, ◌-◌, ◌^◌, ◌≤◌, ◌<◌, ◌≡◌, ap, ◌∙◌, inl, inr, List, [], true, false,
  Bool-cases, leb, ltb, arith, leb→le,
}
use evm_indexer.Prelude.Int.{ℤ}
use evm_indexer.Domain.Errors.{Error, Result, ok, out_of_fuel}
use evm_indexer.Domain.Models.{BlockTxsEvents}
use evm_indexer.Store.{Store, block_fits}
use evm_indexer.Exec.{World, ◌>>=◌, ◌>>◌, exchange, later}
use evm_indexer.Exec.Keeps.{>>=_of_ok, lift_ok}
use evm_indexer.Exec.Returns.{Good, Returns, Returns-bind}
use evm_indexer.Repository.Indexer.{bulk_create, update_backfill_cursor, get_backfill_cursor}
use evm_indexer.Repository.Indexer.Succeeds.{Accepts, run_sql-Returns, bulk_create-Returns}
use evm_indexer.Services.Backfill.{
  u64, batch_end, batch_count, batch_size, IsSchedule, fetch_batch, backfill_round, backfill_loop,
  backfill_from, resume_at, backfill,
}
use evm_indexer.Services.Backfill.Progress.{batch_end_bounds}
use evm_indexer.Services.Backfill.Complete.{loop_more, loop_done}
use evm_indexer.Services.Backfill.Filled.{AreNumbered, IsFilled, backfill_complete}
use evm_indexer.Services.Backfill.Agrees.{Fits, Serves, Agrees}
use evm_indexer.Services.Backfill.Answered.{
  batch_end_length, fetch_batch-from, answer-Accepts, fetch_batch_answer,
}

column_of_fit : (d : BlockTxsEvents) → Fits d → d.block.id < 2 ^ 63
unfolding block_fits
column_of_fit d fits = ground (arith, fits.block)

module _ (fetch : ℕ → Result BlockTxsEvents) (schedule : ℕ → ℕ → List ℕ)
    (scheduled : IsSchedule schedule) (batch target lo : ℕ) (some_batch : 0 < batch)
    (no_wrap : target + batch < 2 ^ 64) (sliced : batch < 2 ^ 63)
    (serves : Serves fetch lo target) where
  abbrev V : Store → Type 0
  V = Agrees fetch lo target

  update_cursor-Returns : (n : ℕ) → n < 2 ^ 63 → Returns V (update_backfill_cursor n)
  unfolding update_backfill_cursor
  update_cursor-Returns n small =
      let fits : ltb n (2 ^ 63) ≡ true = ground arith in
      run_sql-Returns V _ (λ s v. (record s { backfill_cursor = n }, rw fits, v))

  round-Returns :
      (curr : ℕ)
      → lo ≤ curr
      → curr ≤ target
      → Returns V (backfill_round fetch schedule batch target curr (batch_end batch target curr))
  unfolding backfill_round
  round-Returns curr lc ct =
      let end = batch_end batch target curr in
      let (ce, et) = batch_end_bounds batch target curr some_batch no_wrap ct in
      let (res, p) =
        fetch_batch_answer fetch schedule batch target lo curr end scheduled serves lc ce et
          (batch_end_length batch target curr some_batch no_wrap ct) no_wrap sliced in
      let accepts : (item : BlockTxsEvents) → In item res → Accepts V item = λ item m.
        let (n, cn, ne, q) =
          fetch_batch-from fetch schedule batch target curr end res scheduled ce (omega arith) p
            item m in
        answer-Accepts fetch lo target n item serves (omega arith) (omega arith) q in
      let (last, _, numbered, fits) = serves end (omega (arith, lc, ce)) et in
      let column : end < 2 ^ 63 = omega (arith, numbered, column_of_fit last fits) in
      let writes : Returns V (bulk_create res >> update_backfill_cursor end) =
        Returns-bind (bulk_create res) _ (bulk_create-Returns V res accepts)
          (λ _. update_cursor-Returns end column) in
      record {
        at = λ w g.
            let r = writes.at w g in
            record {
              value = r.value;
              world = r.world;
              returned =
                  lift_ok (fetch_batch fetch schedule batch target curr (batch_count curr end)) res
                    w _ p
                  ∙ r.returned;
              good = r.good;
            };
      }

  loop_signals :
      (spent : Error) (fuel curr : ℕ) (w : World)
      → lo ≤ curr
      → target < fuel + curr
      → Good V w
      → (backfill_loop fetch schedule batch target spent (suc fuel) curr w).0 ≡ ok true
  loop_signals spent zero curr w lc enough g =
      ap (λ r. r.0)
        (loop_done fetch schedule scheduled batch target some_batch no_wrap spent zero curr w
          (ground arith))
  loop_signals spent (suc fuel) curr w lc enough g = elim (Bool-cases (leb curr target)) [
    | inr e ↦
        ap (λ r. r.0)
          (loop_done fetch schedule scheduled batch target some_batch no_wrap spent (suc fuel) curr
            w e)
    | inl e ↦
        let end = batch_end batch target curr in
        let ct = leb→le curr target e in
        let (ce, et) = batch_end_bounds batch target curr some_batch no_wrap ct in
        let next : u64 (end + 1) ≡ suc end = omega arith in
        let r = (round-Returns curr lc ct).at w g in
        ap (λ x. x.0)
          (loop_more fetch schedule scheduled batch target some_batch no_wrap spent (suc fuel) curr
              w e
            ∙ >>=_of_ok _ _ w r.returned)
        ∙ loop_signals spent fuel (u64 (end + 1)) r.world (omega (arith, next))
            (omega (arith, next)) r.good
  ]

  from_signals :
      (w : World)
      → lo ≤ target
      → Good V w
      → (backfill_from fetch schedule batch target lo w).0 ≡ ok true
  unfolding backfill_from
  from_signals w h g =
      let ahead : ltb target lo ≡ false = ground arith in
      rw ahead (loop_signals out_of_fuel (suc (target - lo)) lo w (omega arith) (omega arith) g)

pub Serves-AreNumbered :
    (fetch : ℕ → Result BlockTxsEvents) (lo hi : ℕ) → Serves fetch lo hi → AreNumbered fetch lo hi
Serves-AreNumbered fetch lo hi serves id d l h p =
    let (c, q, numbered, _) = serves id l h in
    let same : c ≡ d = ground (arith, sym q ∙ p) in
    ap (λ (x : BlockTxsEvents). x.block.id) (sym same) ∙ numbered

cursor_reads :
    (w : World)
    → w.faults ≡ []
    → get_backfill_cursor w ≡ (ok w.store.backfill_cursor, record w { faults = later w.faults })
unfolding get_backfill_cursor exchange ◌>>=◌
cursor_reads w h = ground arith

-- Let the batch size not be 0 and be below 2 ^ 63, the target plus it be below 2 ^ 64, and the start
-- be at most the target. If every exchange to come succeeds, the node answers for every block from
-- the start to the target with a block of that number and rows that the columns can hold, and the
-- blocks of that range that are stored already have the hashes of the node's, then the backfill
-- sends its signal, a row stands under each key of each answer's block, transactions and events, no
-- row has been lost, each row that was not there before is, column by column, one of an answer, and
-- the cursor stands at the target.
pub backfill_succeeds :
    (fetch : ℕ → Result BlockTxsEvents) (schedule : ℕ → ℕ → List ℕ) (cpus from target : ℕ)
    (concurrency_f : ℤ) (w : World)
    → IsSchedule schedule
    → 0 < batch_size cpus concurrency_f
    → batch_size cpus concurrency_f < 2 ^ 63
    → target + batch_size cpus concurrency_f < 2 ^ 64
    → resume_at from w.store.backfill_cursor ≤ target
    → w.faults ≡ []
    → Serves fetch (resume_at from w.store.backfill_cursor) target
    → Agrees fetch (resume_at from w.store.backfill_cursor) target w.store
    → ((backfill fetch schedule cpus from target concurrency_f w).0 ≡ ok true)
      × IsFilled fetch
          (resume_at from w.store.backfill_cursor)
          target
          w.store
          (backfill fetch schedule cpus from target concurrency_f w).1.store
      × ((backfill fetch schedule cpus from target concurrency_f w).1.store.backfill_cursor
          ≡ target)
unfolding backfill
backfill_succeeds fetch schedule cpus from target concurrency_f w v some_batch sliced no_wrap ahead
      none_fail serves agrees =
    let start = resume_at from w.store.backfill_cursor in
    let signalled : (backfill fetch schedule cpus from target concurrency_f w).0 ≡ ok true =
      ap (λ r. r.0) (>>=_of_ok get_backfill_cursor _ w (cursor_reads w none_fail))
      ∙ from_signals fetch schedule v (batch_size cpus concurrency_f) target start some_batch
          no_wrap sliced serves (record w { faults = later w.faults }) ahead
          (record { succeeds = ap later none_fail; tables = agrees }) in
    let (filled, moved) =
      backfill_complete fetch schedule v cpus from target concurrency_f some_batch no_wrap w
        (Serves-AreNumbered fetch start target serves) signalled in
    (signalled, filled, moved)
