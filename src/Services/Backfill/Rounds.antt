-- ===== src/Services/Backfill/Rounds.antt =====
-- What each round of the backfill keeps: the rows of the range are the node's, what is stored stays
-- stored, and the cursor stands in the range once it has moved.
use evm_indexer.Prelude.{ℕ, ◌+◌, ◌^◌, ◌≤◌, ◌<◌, ◌≡◌, subst, ◌⊎◌, inr, List, arith}
use evm_indexer.Domain.Errors.{Result, ok}
use evm_indexer.Domain.Models.{BlockTxsEvents}
use evm_indexer.Store.{Store, insert_block, insert_tx, insert_event}
use evm_indexer.Exec.Keeps.{Keeps, Keeps-bind, Keeps-lift_bind}
use evm_indexer.Repository.Indexer.{update_backfill_cursor}
use evm_indexer.Repository.Indexer.Tables.{IsStable, Holds, run_sql-Keeps}
use evm_indexer.Repository.Indexer.Preserved.{Preserves, Accepts-Preserves, preserved-Keeps}
use evm_indexer.Services.Backfill.{IsSchedule, backfill_round, batch_end}
use evm_indexer.Services.Backfill.Progress.{Done, Done-IsStable, Stored-cursor, batch_end_bounds}
use evm_indexer.Services.Backfill.Agrees.{Serves, Agrees}
use evm_indexer.Services.Backfill.Answered.{fetch_batch-from, answer-Accepts}
use evm_indexer.Services.Backfill.Kept.{RoundsKeep}

-- What `node` has answered, `fetch` answers.
abbrev pub AnswersAs : (ℕ → Result BlockTxsEvents) → (ℕ → Result BlockTxsEvents) → Type 0
AnswersAs node fetch = (id : ℕ) (d : BlockTxsEvents) → node id ≡ ok d → fetch id ≡ ok d

module _ (V : Store → Type 0) where
  update_cursor-Keeps :
      (n : ℕ)
      → ((s : Store) → V s → V (record s { backfill_cursor = n }))
      → Keeps (Holds V) (update_backfill_cursor n)
  unfolding update_backfill_cursor
  update_cursor-Keeps n k = run_sql-Keeps V _ (λ s s' v h. subst V (ground arith) (k s v))

module _ (node : ℕ → Result BlockTxsEvents) (schedule : ℕ → ℕ → List ℕ)
    (scheduled : IsSchedule schedule) (batch target lo : ℕ) (some_batch : 0 < batch)
    (no_wrap : target + batch < 2 ^ 64) where
  -- What the rows of every answer of the range keep, and every move of the cursor in it.
  pub preserved-RoundsKeep :
      (V : Store → Type 0)
      → ((n : ℕ) (item : BlockTxsEvents)
          → lo ≤ n
          → n ≤ target
          → node n ≡ ok item
          → Preserves V item)
      → ((n : ℕ) (s : Store) → lo ≤ n → n ≤ target → V s → V (record s { backfill_cursor = n }))
      → RoundsKeep node schedule scheduled V batch target lo
  unfolding backfill_round
  preserved-RoundsKeep V preserves moved curr lc ct =
      let end = batch_end batch target curr in
      let (ce, et) = batch_end_bounds batch target curr some_batch no_wrap ct in
      Keeps-lift_bind _ _ (λ res p.
        Keeps-bind _ _
          (preserved-Keeps V res (λ item m.
            let (n, cn, ne, q) =
              fetch_batch-from node schedule batch target curr end res scheduled ce (omega arith) p
                item m in
            preserves n item (omega arith) (omega arith) q))
          (λ _. update_cursor-Keeps V end (λ s v. moved end s (omega arith) et v)))

  pub agreement-RoundsKeep :
      (fetch : ℕ → Result BlockTxsEvents) (start : ℕ)
      → start ≤ lo
      → Serves fetch start target
      → AnswersAs node fetch
      → RoundsKeep node schedule scheduled (Agrees fetch start target) batch target lo
  agreement-RoundsKeep fetch start sl serves same =
      preserved-RoundsKeep (Agrees fetch start target)
        (λ n item l h q.
          Accepts-Preserves _ item
            (answer-Accepts fetch start target n item serves (omega arith) h (same n item q)))
        (λ n s l h v. v)

  stable-RoundsKeep :
      (V : Store → Type 0)
      → IsStable V
      → ((n : ℕ) (s : Store) → lo ≤ n → n ≤ target → V s → V (record s { backfill_cursor = n }))
      → RoundsKeep node schedule scheduled V batch target lo
  stable-RoundsKeep V stable = preserved-RoundsKeep V (λ n item l h q. record {
    block = stable.by_block item.block;
    tx = λ t i. stable.by_tx t;
    event = λ e i id. stable.by_event id e;
  })

  pub stored-RoundsKeep :
      (fetch : ℕ → Result BlockTxsEvents) (from to : ℕ)
      → RoundsKeep node schedule scheduled
          (Done fetch schedule scheduled batch target some_batch no_wrap from to)
          batch
          target
          lo
  stored-RoundsKeep fetch from to =
      stable-RoundsKeep _
        (Done-IsStable fetch schedule scheduled batch target some_batch no_wrap from to)
        (λ n s l h v id a b.
          Stored-cursor fetch schedule scheduled batch target some_batch no_wrap id n s (v id a b))

  -- The cursor is where it was, or in the range.
  abbrev pub Moved : ℕ → Store → Type 0
  Moved c s = (s.backfill_cursor ≡ c) ⊎ ((lo ≤ s.backfill_cursor) × (s.backfill_cursor ≤ target))

  Moved-IsStable : (c : ℕ) → IsStable (Moved c)
  unfolding insert_block insert_tx insert_event
  Moved-IsStable c = record {
    by_block = λ b s s' v p. ground arith;
    by_tx = λ t s s' v p. ground arith;
    by_event = λ n e s s' v p. ground arith;
  }

  pub Moved-RoundsKeep : (c : ℕ) → RoundsKeep node schedule scheduled (Moved c) batch target lo
  Moved-RoundsKeep c = stable-RoundsKeep (Moved c) (Moved-IsStable c) (λ n s l h v. inr (l, h))
