-- ===== src/Services/Backfill/Filled.antt =====
-- What a backfill leaves in the tables: a row under each key of the node's answers, and nothing new
-- but rows of its answers.
use evm_indexer.Prelude.{ℕ, ◌+◌, ◌^◌, ◌≤◌, ◌<◌, ◌≡◌, refl, ◌⊎◌, inl, inr, List, Bool, true, arith}
use evm_indexer.Prelude.Int.{ℤ}
use evm_indexer.Domain.Errors.{Result, ok}
use evm_indexer.Domain.Models.{BlockTxsEvents}
use evm_indexer.Store.{Store}
use evm_indexer.Exec.{World}
use evm_indexer.Repository.Indexer.Stored.{HasKeys}
use evm_indexer.Repository.Indexer.Sources.{Written, Written-refl, Written-cursor, given-Preserves}
use evm_indexer.Services.Backfill.{batch_size, IsSchedule, resume_at, backfill}
use evm_indexer.Services.Backfill.Complete.{Finished, backfill_keys_kept, backfill_keys_stored}
use evm_indexer.Services.Backfill.Kept.{backfill_keeps}
use evm_indexer.Services.Backfill.Rounds.{AnswersAs, preserved-RoundsKeep, Moved-RoundsKeep}

module _ (fetch : ℕ → Result BlockTxsEvents) where
  -- The node has answered with the item for a block up to `hi`.
  abbrev pub IsAnswer : ℕ → BlockTxsEvents → Type 0
  IsAnswer hi item = (n : ℕ) × (n ≤ hi) × (fetch n ≡ ok item)

  -- What the node answers for a block of the range is a block of that number.
  abbrev pub AreNumbered : ℕ → ℕ → Type 0
  AreNumbered lo hi =
      (id : ℕ) (d : BlockTxsEvents) → lo ≤ id → id ≤ hi → fetch id ≡ ok d → d.block.id ≡ id

  -- For each block of the range, a row stands under each key of the node's answer, which is a block
  -- of that number.
  abbrev pub HasAnswers : ℕ → ℕ → Store → Type 0
  HasAnswers lo hi s =
      (id : ℕ)
      → lo ≤ id
      → id ≤ hi
      → (d : BlockTxsEvents) × (fetch id ≡ ok d) × (d.block.id ≡ id) × HasKeys d s

  -- And from `before` on, no row has been lost, and each row that is new is one of an answer.
  abbrev pub IsFilled : ℕ → ℕ → Store → Store → Type 0
  IsFilled lo hi before s = HasAnswers lo hi s × Written (IsAnswer hi) before s

  pub Finished-HasAnswers :
      (lo hi : ℕ) (s : Store) → AreNumbered lo hi → Finished fetch lo hi s → HasAnswers lo hi s
  Finished-HasAnswers lo hi s numbered (done, _) id l h =
      let (d, p, c) = done id l (omega arith) in (d, p, numbered id d l h p, c)

-- What is new after a run is a row of an answer, wherever the run stopped.
pub backfill-Written :
    (node fetch : ℕ → Result BlockTxsEvents) (schedule : ℕ → ℕ → List ℕ) (cpus from target : ℕ)
    (concurrency_f : ℤ) (before : Store) (w : World)
    → IsSchedule schedule
    → 0 < batch_size cpus concurrency_f
    → target + batch_size cpus concurrency_f < 2 ^ 64
    → AnswersAs node fetch
    → Written (IsAnswer fetch target) before w.store
    → Written
        (IsAnswer fetch target)
        before
        (backfill node schedule cpus from target concurrency_f w).1.store
backfill-Written node fetch schedule cpus from target concurrency_f before w v some_batch no_wrap
      same written =
    let V = Written (IsAnswer fetch target) before in
    backfill_keeps node schedule v V cpus from target concurrency_f w some_batch no_wrap
      (preserved-RoundsKeep node schedule v (batch_size cpus concurrency_f) target
        (resume_at from w.store.backfill_cursor) some_batch no_wrap V
        (λ n item l h q. given-Preserves (IsAnswer fetch target) before item (n, h, same n item q))
        (λ n s l h x. Written-cursor (IsAnswer fetch target) before n s x))
      written

module _ (fetch : ℕ → Result BlockTxsEvents) (schedule : ℕ → ℕ → List ℕ)
    (scheduled : IsSchedule schedule) (cpus from target : ℕ) (concurrency_f : ℤ)
    (some_batch : 0 < batch_size cpus concurrency_f)
    (no_wrap : target + batch_size cpus concurrency_f < 2 ^ 64) (w : World)
    (numbered : AreNumbered fetch (resume_at from w.store.backfill_cursor) target) where
  abbrev start : ℕ
  start = resume_at from w.store.backfill_cursor

  abbrev result : Result Bool × World
  result = backfill fetch schedule cpus from target concurrency_f w

  result-Written : Written (IsAnswer fetch target) w.store result.1.store
  result-Written =
      backfill-Written fetch fetch schedule cpus from target concurrency_f w.store w scheduled
        some_batch no_wrap (λ id d p. p) (Written-refl _ w.store)

  -- The cursor has not moved, or the answers up to it have their rows.
  abbrev pub UpToCursor : Store → Type 0
  UpToCursor s =
      (s.backfill_cursor ≡ w.store.backfill_cursor) ⊎ HasAnswers fetch start s.backfill_cursor s

  result-UpToCursor : UpToCursor result.1.store
  result-UpToCursor =
      elim (backfill_keeps fetch schedule scheduled _ cpus from target concurrency_f w some_batch
        no_wrap
        (Moved-RoundsKeep fetch schedule scheduled (batch_size cpus concurrency_f) target start
          some_batch no_wrap w.store.backfill_cursor)
        (inl refl)) [
          | inl unmoved ↦ inl unmoved
          | inr (above, below) ↦
              elim (backfill_keys_kept fetch schedule scheduled cpus from target concurrency_f
                some_batch no_wrap w) [
                  | inl unmoved ↦ inl unmoved
                  | inr stored ↦ inr (λ id l h.
                      let (d, p, c) = stored id l (omega arith) in
                      (d, p, numbered id d l (omega arith) p, c))
                ]
        ]

  -- Let the batch size not be 0, the target plus it be below 2 ^ 64, and the node answer for each
  -- block from the start to the target, where it does, with a block of that number. Wherever the
  -- backfill stops, with or without an error: either the cursor is where it was, or the node has
  -- answered for every block from the start to the cursor, and a row stands under each key of each
  -- answer's block, transactions and events; no row has been lost, and each row that was not there
  -- before is, column by column, one of an answer. A restart, which goes on behind the cursor, passes
  -- over no block.
  pub backfill_leaves_no_gap :
      UpToCursor result.1.store × Written (IsAnswer fetch target) w.store result.1.store
  backfill_leaves_no_gap = (result-UpToCursor, result-Written)

  -- Let the batch size not be 0, the target plus it be below 2 ^ 64, and the node answer for each
  -- block from the start to the target, where it does, with a block of that number. If the backfill
  -- sends its signal, the node has answered for all of them, a row stands under each key of each
  -- answer's block, transactions and events, no row has been lost, each row that was not there
  -- before is, column by column, one of an answer, and the cursor stands at the target.
  pub backfill_complete :
      result.0 ≡ ok true
      → IsFilled fetch start target w.store result.1.store
        × (result.1.store.backfill_cursor ≡ target)
  backfill_complete h =
      let finished =
        backfill_keys_stored fetch schedule scheduled cpus from target concurrency_f some_batch
          no_wrap w h in
      (
        (Finished-HasAnswers fetch start target result.1.store numbered finished, result-Written),
        finished.1,
      )
