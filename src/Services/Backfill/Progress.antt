-- ===== src/Services/Backfill/Progress.antt =====
-- What a backfill has stored, wherever it stops.
use evm_indexer.Prelude.{
  ℕ, suc, ◌+◌, ◌-◌, ◌^◌, ◌≤◌, ◌<◌, ◌≡◌, refl, sym, ap, subst, ◌⊎◌, inl, inr, List, arith,
}
use native.Mathlib.Decide.{dec_lt}
use evm_indexer.Domain.Errors.{Error, Result, ok, err, Result-cases}
use evm_indexer.Domain.Models.{BlockTxsEvents}
use evm_indexer.Store.{Store, insert_block, insert_tx, insert_event}
use evm_indexer.Exec.{World, ◌>>=◌, ◌>>◌, exchange}
use evm_indexer.Exec.Keeps.{>>=-cases, lift_ok, lift_err}
use evm_indexer.Repository.Indexer.{run_sql, effect, bulk_create, update_backfill_cursor}
use evm_indexer.Repository.Indexer.Tables.{IsStable}
use evm_indexer.Repository.Indexer.Writes.{bulk_create-Keeps}
use evm_indexer.Repository.Indexer.Stored.{HasKeys, HasKeys-IsStable}
use evm_indexer.Repository.Indexer.Committed.{bulk_create-HasKeys}
use evm_indexer.Services.Backfill.{
  u64, batch_end, batch_count, IsSchedule, fetch_batch, backfill_round,
}
use evm_indexer.Services.Backfill.Fetching.{fetch_batch_in_order, In-get_elem?}

-- The batch stays between `curr` and the target, and its length is exact, where nothing wraps.
pub batch_end_bounds :
    (batch target curr : ℕ)
    → 0 < batch
    → target + batch < 2 ^ 64
    → curr ≤ target
    → (curr ≤ batch_end batch target curr) × (batch_end batch target curr ≤ target)
unfolding batch_end
batch_end_bounds batch target curr b t c = ground arith

pub batch_count_exact :
    (curr end : ℕ) → curr ≤ end → end < 2 ^ 64 - 1 → batch_count curr end ≡ suc (end - curr)
unfolding batch_count
batch_count_exact curr end h k = omega arith

update_cursor_cases :
    (n : ℕ) (w : World)
    → (((update_backfill_cursor n w).0 ≡ ok tt)
        × ((update_backfill_cursor n w).1.store ≡ record (w.store) { backfill_cursor = n }))
      ⊎ ((e : Error) × ((update_backfill_cursor n w).0 ≡ err e)
          × ((update_backfill_cursor n w).1.store ≡ w.store))
unfolding update_backfill_cursor run_sql effect exchange ◌>>=◌
update_cursor_cases n w = ground arith

module _ (fetch : ℕ → Result BlockTxsEvents) (schedule : ℕ → ℕ → List ℕ)
    (scheduled : IsSchedule schedule) (batch target : ℕ) (some_batch : 0 < batch)
    (no_wrap : target + batch < 2 ^ 64) where
  -- A row stands under each key of what the node answered for the block.
  abbrev pub Stored : ℕ → Store → Type 0
  Stored id s = (d : BlockTxsEvents) × (fetch id ≡ ok d) × HasKeys d s

  Stored-IsStable : (id : ℕ) → IsStable (Stored id)
  Stored-IsStable id = record {
    by_block = λ b s s' (d, f, c) p. (d, f, (HasKeys-IsStable d).by_block b s s' c p);
    by_tx = λ t s s' (d, f, c) p. (d, f, (HasKeys-IsStable d).by_tx t s s' c p);
    by_event = λ n e s s' (d, f, c) p. (d, f, (HasKeys-IsStable d).by_event n e s s' c p);
  }

  -- Every block from `lo` on and below `hi` is stored.
  abbrev pub Done : ℕ → ℕ → Store → Type 0
  Done lo hi s = (id : ℕ) → lo ≤ id → id < hi → Stored id s

  pub Done-IsStable : (lo hi : ℕ) → IsStable (Done lo hi)
  Done-IsStable lo hi = record {
    by_block = λ b s s' v p id l h. (Stored-IsStable id).by_block b s s' (v id l h) p;
    by_tx = λ t s s' v p id l h. (Stored-IsStable id).by_tx t s s' (v id l h) p;
    by_event = λ n e s s' v p id l h. (Stored-IsStable id).by_event n e s s' (v id l h) p;
  }

  cursor-IsStable : (c : ℕ) → IsStable (λ s. s.backfill_cursor ≡ c)
  unfolding insert_block insert_tx insert_event
  cursor-IsStable c = record {
    by_block = λ b s s' v p. ground arith;
    by_tx = λ t s s' v p. ground arith;
    by_event = λ n e s s' v p. ground arith;
  }

  abbrev pub Both : ℕ → ℕ → ℕ → Store → Type 0
  Both lo hi c s = Done lo hi s × (s.backfill_cursor ≡ c)

  Both-IsStable : (lo hi c : ℕ) → IsStable (Both lo hi c)
  Both-IsStable lo hi c = record {
    by_block = λ b s s' v p.
        ((Done-IsStable lo hi).by_block b s s' v.0 p, (cursor-IsStable c).by_block b s s' v.1 p);
    by_tx = λ t s s' v p.
        ((Done-IsStable lo hi).by_tx t s s' v.0 p, (cursor-IsStable c).by_tx t s s' v.1 p);
    by_event = λ n e s s' v p. (
      (Done-IsStable lo hi).by_event n e s s' v.0 p,
      (cursor-IsStable c).by_event n e s s' v.1 p,
    );
  }

  -- The rows of a batch that was fetched and written.
  batch-Stored :
      (curr end : ℕ) (res : List BlockTxsEvents) (w v : World)
      → curr ≤ end
      → end ≤ target
      → fetch_batch fetch schedule batch target curr (batch_count curr end) ≡ ok res
      → bulk_create res w ≡ (ok tt, v)
      → (id : ℕ) → curr ≤ id
      → id < suc end
      → Stored id v.store
  batch-Stored curr end res w v ce et f b id l h =
      let size : batch_count curr end ≡ suc (end - curr) =
        batch_count_exact curr end ce (omega arith) in
      let (_, slots) =
        fetch_batch_in_order fetch schedule batch target curr (batch_count curr end) res scheduled
          f in
      let (d, p, q) = slots (id - curr) (omega (arith, size)) in
      let exact : u64 (curr + (id - curr)) ≡ id = omega arith in
      (
        d,
        subst (λ k. fetch k ≡ ok d) exact p,
        bulk_create-HasKeys res d (In-get_elem? res (id - curr) d q) w v b,
      )

  -- A store that differs in the cursor holds the same rows.
  pub Stored-cursor :
      (id n : ℕ) (s : Store) → Stored id s → Stored id (record s { backfill_cursor = n })
  Stored-cursor id n s (d, f, c) =
      (d, f, record { block = c.block; txs = c.txs; events = c.events })

  -- What a round leaves: all of the batch and the cursor at its end, or an error and the cursor where
  -- it was; and nothing that was stored is lost.
  abbrev pub RoundLeaves : ℕ → ℕ → ℕ → ℕ → Result (Unit {0}) × World → Type 0
  RoundLeaves lo curr end c (r, v) =
      ((r ≡ ok tt) × Done lo (suc end) v.store × (v.store.backfill_cursor ≡ end))
      ⊎ ((e : Error) × (r ≡ err e) × Both lo curr c v.store)

  moved-Done :
      (lo hi n : ℕ) (s s' : Store)
      → s' ≡ record s { backfill_cursor = n }
      → Done lo hi s
      → Done lo hi s'
  moved-Done lo hi n s s' p d =
      subst (Done lo hi) (sym p) (λ id l h. Stored-cursor id n s (d id l h))

  -- The cursor moves, or the exchange fails.
  cursor_leaves :
      (lo curr end c : ℕ) (w : World)
      → curr ≤ end
      → Both lo (suc end) c w.store
      → RoundLeaves lo curr end c (update_backfill_cursor end w)
  cursor_leaves lo curr end c w ce b = elim (update_cursor_cases end w) [
    | inl (p, q) ↦
        inl (p, moved-Done lo (suc end) end w.store _ q b.0, ap (λ s. s.backfill_cursor) q)
    | inr (e, p, q) ↦
        inr (e, p, subst (Both lo curr c) (sym q) ((λ id l h. b.0 id l (omega arith)), b.1))
  ]

  write_leaves :
      (lo curr end c : ℕ) (res : List BlockTxsEvents) (w : World)
      → lo ≤ curr
      → curr ≤ end
      → end ≤ target
      → fetch_batch fetch schedule batch target curr (batch_count curr end) ≡ ok res
      → Both lo curr c w.store
      → RoundLeaves lo curr end c ((bulk_create res >> update_backfill_cursor end) w)
  write_leaves lo curr end c res w lc ce et f b =
      elim (>>=-cases (bulk_create res) (λ _. update_backfill_cursor end) w) [
        | inl (_, v, p, q) ↦
            let kept : Both lo curr c v.store =
              subst (λ x. Both lo curr c x.store) (ap (λ x. x.1) p)
                ((bulk_create-Keeps (Both lo curr c) (Both-IsStable lo curr c) res).at w b) in
            subst (RoundLeaves lo curr end c) (sym q) (
              cursor_leaves lo curr end c v ce (
                (λ id l h. elim (dec_lt id curr) [
                  | yes below ↦ kept.0 id l below
                  | no above ↦ batch-Stored curr end res w v ce et f p id (omega arith) h
                ]),
                kept.1,
              ))
        | inr (e, v, p, q) ↦ subst (RoundLeaves lo curr end c) (sym q) (
            inr (
              e,
              refl,
              subst (λ x. Both lo curr c x.store) (ap (λ x. x.1) p)
                  ((bulk_create-Keeps (Both lo curr c) (Both-IsStable lo curr c) res).at w b),
            ))
      ]

  pub round_leaves :
      (lo curr end c : ℕ) (w : World)
      → lo ≤ curr
      → curr ≤ end
      → end ≤ target
      → Both lo curr c w.store
      → RoundLeaves lo curr end c (backfill_round fetch schedule batch target curr end w)
  unfolding backfill_round
  round_leaves lo curr end c w lc ce et b =
      let r = fetch_batch fetch schedule batch target curr (batch_count curr end) in
      elim (Result-cases r) [
        | inl (res, p) ↦
            subst (RoundLeaves lo curr end c) (sym (lift_ok r res w _ p))
              (write_leaves lo curr end c res w lc ce et p b)
        | inr (e, p) ↦
            subst (RoundLeaves lo curr end c) (sym (lift_err r e w _ p)) (inr (e, refl, b))
      ]
