-- ===== src/Services/Backfill/Blocked.antt =====
-- A block of another fork that stands in the way of the backfill.
use evm_indexer.Prelude.{
  ℕ, ◌+◌, ◌^◌, ◌≤◌, ◌<◌, ◌≡◌, sym, ap, subst, ◌∙◌, inl, inr, ◌=ₛ◌, =ₛ_iff, Str, true, false,
  Bool-cases, List, In, any, any_of_In, ==_iff, arith,
}
use evm_indexer.Prelude.Int.{ℤ}
use evm_indexer.Domain.Errors.{Result, ok}
use evm_indexer.Domain.Models.{Block, BlockTxsEvents}
use evm_indexer.Store.{Store, insert_block, insert_tx, insert_event, same_hash, same_id}
use evm_indexer.Exec.{World}
use evm_indexer.Repository.Indexer.Sources.{insert_block-cases}
use evm_indexer.Repository.Indexer.Preserved.{Stays, Preserves}
use evm_indexer.Services.Backfill.{batch_size, IsSchedule, resume_at, backfill}
use evm_indexer.Services.Backfill.Complete.{backfill_keys_stored}
use evm_indexer.Services.Backfill.Kept.{backfill_keeps}
use evm_indexer.Services.Backfill.Rounds.{preserved-RoundsKeep}

-- The block is stored, and no block of the hash is.
abbrev pub InTheWay : Block → Str → Store → Type 0
InTheWay b h s = In b s.blocks × (any (same_hash h) s.blocks ≡ false)

module _ (b : Block) (h : Str) where
  block-Stays : (x : Block) → (x.hash ≡ h → x.id ≡ b.id) → Stays (InTheWay b h) (insert_block x)
  unfolding insert_block
  block-Stays x same s s' (i, fresh) p = elim (Bool-cases (x.hash =ₛ h)) [
    | inl e ↦
        let eq : x.hash ≡ h = (=ₛ_iff x.hash h).0 e in
        let taken : any (same_id x.id) s.blocks ≡ true =
          any_of_In (same_id x.id) b s.blocks i ((==_iff b.id x.id).1 (sym (same eq))) in
        let unknown : any (same_hash x.hash) s.blocks ≡ false =
          ap (λ z. any (same_hash z) s.blocks) eq ∙ fresh in
        absurd (ground arith)
    | inr e ↦ elim (insert_block-cases x s s' p) [
      | inl kept ↦ subst (InTheWay b h) (sym kept) (i, fresh)
      | inr put ↦ subst (InTheWay b h) (sym put) (inr i, ground arith)
    ]
  ]

  answer-Preserves :
      (item : BlockTxsEvents)
      → (item.block.hash ≡ h → item.block.id ≡ b.id)
      → Preserves (InTheWay b h) item
  unfolding insert_tx insert_event
  answer-Preserves item same = record {
    block = block-Stays item.block same;
    tx = λ t i s s' v p. ground arith;
    event = λ e i id s s' v p. ground arith;
  }

-- Let the batch size not be 0, and the target plus it be below 2 ^ 64. If a block is stored under a
-- number between the start and the target for which the node answers with a block that is not
-- stored, and the node has the hash of its block under no other number, then the backfill does not
-- send its signal, whatever becomes of the exchanges, and the stored block is still there
-- afterwards.
pub backfill_blocked :
    (fetch : ℕ → Result BlockTxsEvents) (schedule : ℕ → ℕ → List ℕ) (cpus from target : ℕ)
    (concurrency_f : ℤ) (w : World) (b : Block) (d : BlockTxsEvents)
    → IsSchedule schedule
    → 0 < batch_size cpus concurrency_f
    → target + batch_size cpus concurrency_f < 2 ^ 64
    → InTheWay b d.block.hash w.store
    → resume_at from w.store.backfill_cursor ≤ b.id
    → b.id ≤ target
    → fetch b.id ≡ ok d
    → ((n : ℕ) (x : BlockTxsEvents)
        → fetch n ≡ ok x
        → x.block.hash ≡ d.block.hash
        → x.block.id ≡ b.id)
    → (¬ ((backfill fetch schedule cpus from target concurrency_f w).0 ≡ ok true))
      × In b (backfill fetch schedule cpus from target concurrency_f w).1.store.blocks
backfill_blocked fetch schedule cpus from target concurrency_f w b d v some_batch no_wrap rival
      above below answer alone =
    let batch = batch_size cpus concurrency_f in
    let start = resume_at from w.store.backfill_cursor in
    let result = (backfill fetch schedule cpus from target concurrency_f w).1 in
    let (stays, fresh) =
      backfill_keeps fetch schedule v (InTheWay b d.block.hash) cpus from target concurrency_f w
        some_batch no_wrap
        (preserved-RoundsKeep fetch schedule v batch target start some_batch no_wrap
          (InTheWay b d.block.hash)
          (λ n item l h q. answer-Preserves b d.block.hash item (alone n item q)) (λ n s l h x. x))
        rival in
    (
      λ signalled.
          let (stored, _) =
            backfill_keys_stored fetch schedule v cpus from target concurrency_f some_batch no_wrap
              w signalled in
          let (x, p, c) = stored b.id above (omega arith) in
          let same : x ≡ d = ground (arith, sym p ∙ answer) in
          let known : any (same_hash d.block.hash) result.store.blocks ≡ true =
            subst (λ (z : BlockTxsEvents). any (same_hash z.block.hash) result.store.blocks ≡ true)
              same c.block in
          absurd (ground (arith, sym known ∙ fresh)),
      stays,
    )
