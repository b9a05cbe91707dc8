-- ===== src/Tests/Restarts.antt =====
-- The theorems about whole runs of the backfill at concrete inputs.
use evm_indexer.Prelude.{
  In, ◌=ₛ◌, ℕ, ◌∙◌, ◌≡◌, refl, sym, ap, ◌≤◌, inl, inr, true, none, some, [], ◌∷◌, arith,
}
use evm_indexer.Prelude.Int.{pos}
use evm_indexer.Domain.Errors.{ok, external}
use evm_indexer.Domain.Models.{Block, BlockTxsEvents}
use evm_indexer.Services.Backfill.Blocked.{backfill_blocked}
use evm_indexer.Store.{empty, block_fits, tx_fits, event_fits}
use evm_indexer.Exec.{World}
use evm_indexer.Services.Backfill.{resume_at, batch_size, backfill}
use evm_indexer.Services.Backfill.Filled.{IsFilled}
use evm_indexer.Services.Backfill.Agrees.{Serves, Agrees, Fits}
use evm_indexer.Services.Backfill.Succeeds.{backfill_succeeds}
use evm_indexer.Services.Backfill.Recovers.{backfill_recovers}
use evm_indexer.Tests.{block_at, item_at, node, world, backwards, backwards-IsSchedule}

-- Block 2 of the range is stored already.
abbrev partly : World
partly = record world { store = record empty { blocks = block_at 2 ∷ [] } }

item_at-Fits : (n : ℕ) → n ≤ 3 → Fits (item_at n)
unfolding block_fits tx_fits event_fits
item_at-Fits n h = record {
  block = ground arith;
  tx = λ t i. elim i [ inl p ↦ ap tx_fits (sym p) ∙ ground arith | inr q ↦ absurd q ];
  event = λ e i. elim i [ inl p ↦ ap event_fits (sym p) ∙ ground arith | inr q ↦ absurd q ];
}

node-Serves : Serves node 1 3
node-Serves id l h = (item_at id, refl, refl, item_at-Fits id h)

partly-Agrees : Agrees node 1 3 partly.store
partly-Agrees b (inl p) l h = (item_at b.id, refl, sym (ap (λ x. x.hash) p) ∙ ap (λ x. x.id ∷ []) p)
partly-Agrees b (inr q) l h = absurd q

backfill_succeeds_example :
    ((backfill node backwards 1 1 3 (pos 1) partly).0 ≡ ok true)
    × IsFilled node
        (resume_at 1 0)
        3
        partly.store
        (backfill node backwards 1 1 3 (pos 1) partly).1.store
    × ((backfill node backwards 1 1 3 (pos 1) partly).1.store.backfill_cursor ≡ 3)
unfolding batch_size resume_at
backfill_succeeds_example =
    backfill_succeeds node backwards 1 1 3 (pos 1) partly backwards-IsSchedule (ground arith)
      (ground arith) (ground arith) (ground arith) refl node-Serves partly-Agrees

-- The first start loses the database in the middle of its first batch.
abbrev loses : World
loses = record partly { faults = none ∷ none ∷ none ∷ some (external 0) ∷ [] }

backfill_recovers_example :
    IsFilled node
      (resume_at 1 0)
      3
      loses.store
      (backfill node backwards 1 1 3
        (pos 1)
        (record (backfill node backwards 1 1 3 (pos 1) loses).1 { faults = [] })).1.store
unfolding batch_size resume_at
backfill_recovers_example =
    backfill_recovers node node backwards backwards backwards-IsSchedule backwards-IsSchedule 1 1 3
      (pos 1) loses (ground arith) (ground arith) (ground arith) (ground arith) (ground arith)
      (λ id d p. p) node-Serves partly-Agrees

-- Block 2 of another fork.
abbrev forked : Block
forked = record (block_at 2) { hash = 9 ∷ [] }

abbrev behind : World
behind = record world { store = record empty { blocks = forked ∷ [] } }

numbered : (n : ℕ) (x : BlockTxsEvents) → node n ≡ ok x → x.block.hash ≡ 2 ∷ [] → x.block.id ≡ 2
numbered n x p q =
    let same : item_at n ≡ x = ground (arith, p) in
    let hash : n ∷ [] ≡ 2 ∷ [] = ap (λ z. z.block.hash) same ∙ q in
    ap (λ z. z.block.id) (sym same) ∙ ground (arith, hash)

backfill_blocked_example :
    (¬ ((backfill node backwards 1 1 3 (pos 1) behind).0 ≡ ok true))
    × In forked (backfill node backwards 1 1 3 (pos 1) behind).1.store.blocks
unfolding batch_size resume_at ◌=ₛ◌
backfill_blocked_example =
    backfill_blocked node backwards 1 1 3 (pos 1) behind forked (item_at 2) backwards-IsSchedule
      (ground arith) (ground arith) (inl refl, refl) (ground arith) (ground arith) refl numbered
