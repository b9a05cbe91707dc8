-- ===== src/Services/Backfill/Fuel.antt =====
-- The fuel that the backfill gives its loop is enough.
use evm_indexer.Prelude.{
  ℕ, zero, suc, ◌+◌, ◌^◌, ◌<◌, ◌≡◌, refl, sym, ◌∙◌, inl, inr, List, Bool, false, Bool-cases, leb,
  arith, leb→le,
}
use evm_indexer.Domain.Errors.{Error, Result, ok, err}
use evm_indexer.Domain.Models.{BlockTxsEvents}
use evm_indexer.Exec.{World, Exec, continue, ◌>>=◌, ◌>>◌}
use evm_indexer.Services.Backfill.{u64, batch_end, IsSchedule, backfill_round, backfill_loop}
use evm_indexer.Services.Backfill.Progress.{batch_end_bounds}
use evm_indexer.Services.Backfill.Complete.{loop_more, loop_done}

>>-cong :
    {A B : Type 0} (m : Exec A) (n n' : Exec B)
    → ((w : World) → n w ≡ n' w)
    → (w : World) → (m >> n) w ≡ (m >> n') w
unfolding ◌>>=◌
>>-cong {A} {B} m n n' h w = go (m w)
  where
    go : (p : Result A × World) → continue p.0 (λ _. n) p.1 ≡ continue p.0 (λ _. n') p.1
    go (ok a, v) = h v
    go (err e, v) = refl

module _ (fetch : ℕ → Result BlockTxsEvents) (schedule : ℕ → ℕ → List ℕ)
    (scheduled : IsSchedule schedule) (batch target : ℕ) (some_batch : 0 < batch)
    (no_wrap : target + batch < 2 ^ 64) where
  abbrev loop : Error → ℕ → ℕ → Exec Bool
  loop = backfill_loop fetch schedule batch target

  both_done :
      (spent spent' : Error) (fuel fuel' curr : ℕ) (w : World)
      → leb curr target ≡ false
      → loop spent (suc fuel) curr w ≡ loop spent' (suc fuel') curr w
  both_done spent spent' fuel fuel' curr w e =
      loop_done fetch schedule scheduled batch target some_batch no_wrap spent fuel curr w e
      ∙ sym
          (loop_done fetch schedule scheduled batch target some_batch no_wrap spent' fuel' curr w e)

  -- With a batch size that is not 0 and no wrap-around, the loop ends: given more than
  -- `target + 1 - curr` rounds, its result depends neither on how many it is given, nor on the error
  -- that stands for running out of them.
  pub backfill_loop_ends :
      (spent spent' : Error) (fuel fuel' curr : ℕ)
      → target < fuel + curr
      → target < fuel' + curr
      → (w : World)
      → backfill_loop fetch schedule batch target spent (suc fuel) curr w
        ≡ backfill_loop fetch schedule batch target spent' (suc fuel') curr w
  backfill_loop_ends spent spent' zero fuel' curr h h' w =
      both_done spent spent' zero fuel' curr w (ground arith)
  backfill_loop_ends spent spent' (suc fuel) zero curr h h' w =
      both_done spent spent' (suc fuel) zero curr w (ground arith)
  backfill_loop_ends spent spent' (suc fuel) (suc fuel') curr h h' w =
      elim (Bool-cases (leb curr target)) [
        | inr e ↦ both_done spent spent' (suc fuel) (suc fuel') curr w e
        | inl e ↦
            let (ce, et) =
              batch_end_bounds batch target curr some_batch no_wrap (leb→le curr target e) in
            loop_more fetch schedule scheduled batch target some_batch no_wrap spent (suc fuel) curr
              w e
            ∙ >>-cong
                (backfill_round fetch schedule batch target curr (batch_end batch target curr)) _ _
                (backfill_loop_ends spent spent' fuel fuel' (u64 (batch_end batch target curr + 1))
                  (omega arith) (omega arith))
                w
            ∙ sym (
                loop_more fetch schedule scheduled batch target some_batch no_wrap spent'
                  (suc fuel') curr w e)
      ]
