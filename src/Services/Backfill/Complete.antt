-- ===== src/Services/Backfill/Complete.antt =====
-- The loop of the backfill, from its first round to where it stops.
use evm_indexer.Prelude.{
  ℕ, zero, suc, ◌+◌, ◌-◌, ◌^◌, ◌≤◌, ◌<◌, ◌≡◌, refl, sym, subst, ◌∙◌, ◌⊎◌, inl, inr, List, Bool,
  true, false, Bool-cases, leb, ltb, arith, leb→le,
}
use evm_indexer.Prelude.Int.{ℤ}
use evm_indexer.Domain.Errors.{Error, Result, ok, err, Result-cases, out_of_fuel}
use evm_indexer.Domain.Models.{BlockTxsEvents}
use evm_indexer.Store.{Store}
use evm_indexer.Exec.{World, Exec, ◌>>=◌, ◌>>◌, exchange, outcome, later}
use evm_indexer.Exec.Keeps.{>>=-cases, >>=_of_ok, >>=_of_err}
use evm_indexer.Repository.Indexer.{get_backfill_cursor}
use evm_indexer.Repository.Indexer.Stored.{HasKeys}
use evm_indexer.Services.Backfill.{
  u64, batch_end, batch_size, IsSchedule, backfill_round, backfill_loop, resume_at, backfill_from,
  backfill,
}
use evm_indexer.Services.Backfill.Progress.{Done, Both, RoundLeaves, round_leaves, batch_end_bounds}

module _ (fetch : ℕ → Result BlockTxsEvents) where
  -- A row stands under each key of what the node answered for the block.
  abbrev pub IsStored : ℕ → Store → Type 0
  IsStored id s = (d : BlockTxsEvents) × (fetch id ≡ ok d) × HasKeys d s

  -- The cursor has not moved from `c`, or every block from `lo` to the cursor is stored.
  abbrev pub Covered : ℕ → ℕ → Store → Type 0
  Covered lo c s =
      (s.backfill_cursor ≡ c) ⊎ ((id : ℕ) → lo ≤ id → id < suc s.backfill_cursor → IsStored id s)

  abbrev pub Finished : ℕ → ℕ → Store → Type 0
  Finished lo target s =
      ((id : ℕ) → lo ≤ id → id < suc target → IsStored id s) × (s.backfill_cursor ≡ target)

  abbrev LoopLeaves : ℕ → ℕ → ℕ → Result Bool × World → Type 0
  LoopLeaves lo c target (r, v) =
      Covered lo c v.store × ((b : Bool) → r ≡ ok b → Finished lo target v.store)

module _ (fetch : ℕ → Result BlockTxsEvents) (schedule : ℕ → ℕ → List ℕ)
    (scheduled : IsSchedule schedule) (batch target : ℕ) (some_batch : 0 < batch)
    (no_wrap : target + batch < 2 ^ 64) where
  abbrev loop : Error → ℕ → ℕ → Exec Bool
  loop = backfill_loop fetch schedule batch target

  abbrev round : ℕ → ℕ → Exec (Unit {0})
  round = backfill_round fetch schedule batch target

  pub loop_more :
      (spent : Error) (fuel curr : ℕ) (w : World)
      → leb curr target ≡ true
      → loop spent (suc fuel) curr w
        ≡ (round curr (batch_end batch target curr)
              >> loop spent fuel (u64 (batch_end batch target curr + 1)))
            w
  unfolding backfill_loop
  loop_more spent fuel curr w e = rw (e, backfill_loop)

  pub loop_done :
      (spent : Error) (fuel curr : ℕ) (w : World)
      → leb curr target ≡ false
      → loop spent (suc fuel) curr w ≡ (ok true, w)
  unfolding backfill_loop ◌>>=◌
  loop_done spent fuel curr w e = rw (e, backfill_loop)

  abbrev At : ℕ → ℕ → ℕ → Store → Type 0
  At = Both fetch schedule scheduled batch target some_batch no_wrap

  At-Covered :
      (lo curr c₀ c : ℕ) (s : Store)
      → (c ≡ c₀) ⊎ (suc c ≡ curr)
      → At lo curr c s
      → Covered fetch lo c₀ s
  At-Covered lo curr c₀ c s (inl p) b = inl (b.1 ∙ p)
  At-Covered lo curr c₀ c s (inr q) b = inr (λ id l h. b.0 id l (omega (arith, b.1)))

  -- One round, and the rest of the loop where the round returned.
  after_round :
      (spent : Error) (fuel lo curr c₀ c : ℕ) (w : World)
      → lo ≤ curr
      → curr ≤ target
      → (c ≡ c₀) ⊎ (suc c ≡ curr)
      → At lo curr c w.store
      → ((end : ℕ) (v : World)
          → curr ≤ end
          → end ≤ target
          → Done fetch schedule scheduled batch target some_batch no_wrap lo (suc end) v.store
          → v.store.backfill_cursor ≡ end
          → LoopLeaves fetch lo c₀ target (loop spent fuel (suc end) v))
      → LoopLeaves fetch lo c₀ target (
          (round curr (batch_end batch target curr)
              >> loop spent fuel (u64 (batch_end batch target curr + 1)))
            w)
  after_round spent fuel lo curr c₀ c w lc ct start b rest =
      let end = batch_end batch target curr in
      let (ce, et) = batch_end_bounds batch target curr some_batch no_wrap ct in
      let left =
        round_leaves fetch schedule scheduled batch target some_batch no_wrap lo curr end c w lc ce
          et b in
      elim (>>=-cases (round curr end) (λ _. loop spent fuel (u64 (end + 1))) w) [
        | inl (_, v, p, q) ↦
            subst (LoopLeaves fetch lo c₀ target) (sym q)
              (elim (subst
                (RoundLeaves fetch schedule scheduled batch target some_batch no_wrap lo curr end c)
                p left) [
                  | inl (_, d, k) ↦
                      let next : u64 (end + 1) ≡ suc end = omega arith in
                      subst (λ n. LoopLeaves fetch lo c₀ target (loop spent fuel n v)) (sym next)
                        (rest end v ce et d k)
                  | inr (e, h, _) ↦ absurd (ground arith)
                ])
        | inr (e, v, p, q) ↦
            subst (LoopLeaves fetch lo c₀ target) (sym q)
              (elim (subst
                (RoundLeaves fetch schedule scheduled batch target some_batch no_wrap lo curr end c)
                p left) [
                  | inl (h, _, _) ↦ absurd (ground arith)
                  | inr (_, _, k) ↦
                      (At-Covered lo curr c₀ c v.store start k, λ x h. absurd (ground arith))
                ])
      ]

  loop_leaves :
      (spent : Error) (fuel lo curr c₀ c : ℕ) (w : World)
      → lo ≤ curr
      → curr ≤ suc target
      → (c ≡ c₀) ⊎ (suc c ≡ curr)
      → (suc c ≡ curr) ⊎ (curr ≤ target)
      → At lo curr c w.store
      → LoopLeaves fetch lo c₀ target (loop spent fuel curr w)
  unfolding backfill_loop ◌>>=◌
  loop_leaves spent zero lo curr c₀ c w lc ct start goal b =
      (At-Covered lo curr c₀ c w.store start b, λ x h. absurd (ground arith))
  loop_leaves spent (suc fuel) lo curr c₀ c w lc ct start goal b =
      elim (Bool-cases (leb curr target)) [
        | inr e ↦ subst (LoopLeaves fetch lo c₀ target) (sym (loop_done spent fuel curr w e)) (
          At-Covered lo curr c₀ c w.store start b,
          λ x h. ((λ id l k. b.0 id l (ground arith)), ground arith),
        )
        | inl e ↦ subst (LoopLeaves fetch lo c₀ target) (sym (loop_more spent fuel curr w e)) (
            after_round spent fuel lo curr c₀ c w lc (leb→le curr target e) start b
              (λ end v ce et d k.
                loop_leaves spent fuel lo (suc end) c₀ end v (omega arith) (omega arith) (inr refl)
                  (inl refl) (d, k)))
      ]

  from_leaves :
      (curr c : ℕ) (w : World)
      → w.store.backfill_cursor ≡ c
      → (Covered fetch curr c (backfill_from fetch schedule batch target curr w).1.store)
        × ((backfill_from fetch schedule batch target curr w).0 ≡ ok true
            → Finished fetch curr target (backfill_from fetch schedule batch target curr w).1.store)
  unfolding backfill_from ◌>>=◌
  from_leaves curr c w k = elim (Bool-cases (ltb target curr)) [
    | inl past ↦ rw past (inl k, λ h. absurd (ground arith))
    | inr ahead ↦
        let (s, t) =
          loop_leaves out_of_fuel (suc (suc (target - curr))) curr curr c c w (omega arith)
            (ground arith) (inl refl) (inr (ground arith)) ((λ id l h. absurd (omega arith)), k) in
        rw ahead (s, λ h. t true h)
  ]

-- What the cursor reads, or the exchange that failed.
pub cursor_cases :
    (w : World)
    → (get_backfill_cursor w ≡ (ok w.store.backfill_cursor, record w { faults = later w.faults }))
      ⊎ ((e : Error) × (get_backfill_cursor w ≡ (err e, record w { faults = later w.faults })))
unfolding get_backfill_cursor exchange ◌>>=◌
cursor_cases w = elim (Result-cases (outcome w.faults)) [
  | inl (_, p) ↦ inl (ground arith)
  | inr (e, p) ↦ inr (e, ground arith)
]

module _ (fetch : ℕ → Result BlockTxsEvents) (schedule : ℕ → ℕ → List ℕ)
    (scheduled : IsSchedule schedule) (cpus from target : ℕ) (concurrency_f : ℤ)
    (some_batch : 0 < batch_size cpus concurrency_f)
    (no_wrap : target + batch_size cpus concurrency_f < 2 ^ 64) (w : World) where
  abbrev start : ℕ
  start = resume_at from w.store.backfill_cursor

  abbrev result : Result Bool × World
  result = backfill fetch schedule cpus from target concurrency_f w

  abbrev Leaves : Result Bool × World → Type 0
  Leaves (r, v) =
      Covered fetch start w.store.backfill_cursor v.store
      × (r ≡ ok true → Finished fetch start target v.store)

  abbrev rest : ℕ → Exec Bool
  rest cursor =
      backfill_from fetch schedule (batch_size cpus concurrency_f) target (resume_at from cursor)

  backfill-Leaves : Leaves result
  unfolding backfill
  backfill-Leaves = elim (cursor_cases w) [
    | inl p ↦ subst Leaves (sym (>>=_of_ok get_backfill_cursor rest w p)) (
        from_leaves fetch schedule scheduled (batch_size cpus concurrency_f) target some_batch
          no_wrap start w.store.backfill_cursor (record w { faults = later w.faults }) refl)
    | inr (e, p) ↦
        subst Leaves (sym (>>=_of_err get_backfill_cursor rest w p))
          (inl refl, λ h. absurd (ground arith))
  ]

  -- Wherever the backfill stops, a row stands under each key of the answers up to the cursor.
  pub backfill_keys_kept : Covered fetch start w.store.backfill_cursor result.1.store
  backfill_keys_kept = backfill-Leaves.0

  -- If the backfill sends its signal, a row stands under each key of all answers of the range.
  pub backfill_keys_stored : result.0 ≡ ok true → Finished fetch start target result.1.store
  backfill_keys_stored = backfill-Leaves.1
