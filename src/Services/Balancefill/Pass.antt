-- ===== src/Services/Balancefill/Pass.antt =====
-- What one round of the balance fill does to the tables, on every branch.
use evm_indexer.Prelude.{
  ℕ, ◌+◌, ◌≤◌, ◌<◌, ◌≡◌, refl, sym, ap, subst, ◌∙◌, ◌⊎◌, inl, inr, Bool-cases, Option, none, some,
  List, [], ◌∷◌, arith, if◌then◌else◌,
}
use mathlib.Core.List.{Perm}
use evm_indexer.Prelude.Int.{◌+ℤ◌, zero-+ℤ}
use evm_indexer.Domain.Errors.{Error, Result, ok, err, Result-cases}
use evm_indexer.Domain.Models.{Log, BalanceEntry}
use evm_indexer.Store.{Store}
use evm_indexer.Store.Balances.{sum_where}
use evm_indexer.Exec.{World, Exec, pure, lift, ◌>>=◌, ◌>>◌, later}
use evm_indexer.Exec.Keeps.{>>=_of_ok, >>=_of_err, lift_ok, lift_err, pure_lem}
use evm_indexer.Repository.Indexer.{
  batch_upsert_balance, max_block_id, get_max_indexed_block, get_logs_by_topic,
  update_balancefill_cursor,
}
use evm_indexer.Repository.Indexer.Reads.{
  Added, batch_upsert_cases, get_max_cases, logs_of, get_logs_cases, move_cases,
}
use evm_indexer.Services.Backfill.{u64}
use evm_indexer.Services.Balancefill.{Ethereum, Sums, extract_all, aggregate_same_entries}
use evm_indexer.Services.Balancefill.Aggregate.{aggregate-sums}
use evm_indexer.Services.Balancefill.Loop.{
  must_wait, block_filter, apply_logs, advance, balancefill_pass,
}

module _ (eth : Ethereum) (iterate : Sums → Sums) (order : (m : Sums) → Perm (iterate m) m) where
  -- The balances have the entries of these logs added.
  abbrev pub LogsAdded : List Log → Store → Store → Type 0
  LogsAdded logs s s' =
      (entries : List BalanceEntry) × (extract_all eth logs ≡ ok entries) × Added entries s s'

  abbrev pub Applied : List Log → Store → Result (Unit {0}) × World → Type 0
  Applied logs s (r, v) =
      ((r ≡ ok tt) × LogsAdded logs s v.store × (v.store.balancefill_cursor ≡ s.balancefill_cursor))
      ⊎ ((e : Error) × (r ≡ err e) × (v.store ≡ s))

  nothing-Added : (s : Store) → Added [] s s
  unfolding sum_where
  nothing-Added s p = sym (zero-+ℤ _)

  aggregate-Added :
      (entries : List BalanceEntry) (s s' : Store)
      → Added (aggregate_same_entries iterate entries) s s'
      → Added entries s s'
  aggregate-Added entries s s' h p =
      h p ∙ ap (λ z. z +ℤ sum_where p s.wallet_balance) ((aggregate-sums iterate entries order).0 p)

  abbrev upsert : List BalanceEntry → Exec (Unit {0})
  upsert entries = batch_upsert_balance (aggregate_same_entries iterate entries)

  some_leaves :
      (logs : List Log) (w : World)
      → Applied logs w.store ((lift (extract_all eth logs) >>= upsert) w)
  some_leaves logs w = elim (Result-cases (extract_all eth logs)) [
    | inl (entries, p) ↦
        subst (Applied logs w.store) (sym (lift_ok (extract_all eth logs) entries w upsert p))
          (elim (batch_upsert_cases (aggregate_same_entries iterate entries) w) [
            | inl (q, a, c) ↦
                inl
                  (q, (entries, p, aggregate-Added entries w.store (upsert entries w).1.store a), c)
            | inr failed ↦ inr failed
          ])
    | inr (e, p) ↦
        subst (Applied logs w.store) (sym (lift_err (extract_all eth logs) e w upsert p))
          (inr (e, refl, refl))
  ]

  extract_all-nil : extract_all eth [] ≡ ok []
  unfolding extract_all
  extract_all-nil = refl

  pub apply_leaves :
      (logs : List Log) (w : World) → Applied logs w.store (apply_logs eth iterate logs w)
  unfolding apply_logs ◌>>=◌
  apply_leaves [] w = inl (refl, ([], extract_all-nil, nothing-Added w.store), refl)
  apply_leaves (e ∷ es) w = some_leaves (e ∷ es) w

  -- the logs of the block that the round is at
  abbrev pub logs_at : ℕ → Store → List Log
  logs_at cursor s = logs_of (block_filter cursor) s

  abbrev pub AdvanceLeaves : ℕ → Store → Result (Option ℕ) × World → Type 0
  AdvanceLeaves cursor s (r, v) =
      ((r ≡ ok (some (u64 (cursor + 1))))
        × LogsAdded (logs_at cursor s) s v.store
        × (v.store.balancefill_cursor ≡ u64 (cursor + 1)))
      ⊎ ((e : Error) × (r ≡ err e)
          × ((v.store ≡ s)
              ⊎ (LogsAdded (logs_at cursor s) s v.store
                  × (v.store.balancefill_cursor ≡ s.balancefill_cursor))))

  abbrev finish : ℕ → Exec (Option ℕ)
  finish n = update_balancefill_cursor n >> pure (some n)

  Added-cursor :
      (logs : List Log) (s t u : Store) (n : ℕ)
      → u ≡ record t { balancefill_cursor = n }
      → LogsAdded logs s t
      → LogsAdded logs s u
  Added-cursor logs s t u n p (es, q, a) = (es, q, subst (Added es s) (sym p) a)

  finish_ok :
      (n : ℕ) (w : World)
      → (update_balancefill_cursor n w).0 ≡ ok tt
      → finish n w ≡ (ok (some n), (update_balancefill_cursor n w).1)
  finish_ok n w p =
      >>=_of_ok (update_balancefill_cursor n) (λ _. pure (some n)) w
        (λ i. (p i, (update_balancefill_cursor n w).1))
      ∙ pure_lem (some n) (update_balancefill_cursor n w).1

  pub finish_err :
      (n : ℕ) (w : World) (e : Error)
      → (update_balancefill_cursor n w).0 ≡ err e
      → finish n w ≡ (err e, (update_balancefill_cursor n w).1)
  finish_err n w e p =
      >>=_of_err (update_balancefill_cursor n) (λ _. pure (some n)) w
        (λ i. (p i, (update_balancefill_cursor n w).1))

  finish_leaves :
      (cursor : ℕ) (s : Store) (w : World)
      → LogsAdded (logs_at cursor s) s w.store
      → w.store.balancefill_cursor ≡ s.balancefill_cursor
      → AdvanceLeaves cursor s (finish (u64 (cursor + 1)) w)
  finish_leaves cursor s w a c = elim (move_cases (u64 (cursor + 1)) w) [
    | inl (p, q) ↦ subst (AdvanceLeaves cursor s) (sym (finish_ok (u64 (cursor + 1)) w p)) (
        inl (
          refl,
          Added-cursor (logs_at cursor s) s w.store _ (u64 (cursor + 1)) q a,
          ap (λ x. x.balancefill_cursor) q,
        ))
    | inr (e, p, q) ↦ subst (AdvanceLeaves cursor s) (sym (finish_err (u64 (cursor + 1)) w e p)) (
        inr (
          e,
          refl,
          inr (
              subst
                (λ x.
                  LogsAdded (logs_at cursor s) s x × (x.balancefill_cursor ≡ s.balancefill_cursor))
                (sym q) (a, c)),
        ))
  ]

  abbrev after_logs : ℕ → List Log → Exec (Option ℕ)
  after_logs cursor logs = apply_logs eth iterate logs >> finish (u64 (cursor + 1))

  after_logs_leaves :
      (cursor : ℕ) (w : World)
      → AdvanceLeaves cursor w.store (after_logs cursor (logs_at cursor w.store) w)
  after_logs_leaves cursor w = elim (apply_leaves (logs_at cursor w.store) w) [
    | inl (p, a, c) ↦
        subst (AdvanceLeaves cursor w.store)
          (sym (
            >>=_of_ok (apply_logs eth iterate (logs_at cursor w.store))
              (λ _. finish (u64 (cursor + 1))) w
              (λ i. (p i, (apply_logs eth iterate (logs_at cursor w.store) w).1))))
          (finish_leaves cursor w.store _ a c)
    | inr (e, p, q) ↦
        subst (AdvanceLeaves cursor w.store)
          (sym (
            >>=_of_err (apply_logs eth iterate (logs_at cursor w.store))
              (λ _. finish (u64 (cursor + 1))) w
              (λ i. (p i, (apply_logs eth iterate (logs_at cursor w.store) w).1))))
          (inr (e, refl, inl q))
  ]

  advance_leaves :
      (cursor : ℕ) (w : World) → AdvanceLeaves cursor w.store (advance eth iterate cursor w)
  unfolding advance
  advance_leaves cursor w = elim (get_logs_cases (block_filter cursor) w) [
    | inl p ↦
        subst (AdvanceLeaves cursor w.store)
          (sym (>>=_of_ok (get_logs_by_topic (block_filter cursor)) (after_logs cursor) w p))
          (after_logs_leaves cursor (record w { faults = later w.faults }))
    | inr (e, p) ↦
        subst (AdvanceLeaves cursor w.store)
          (sym (>>=_of_err (get_logs_by_topic (block_filter cursor)) (after_logs cursor) w p))
          (inr (e, refl, inl refl))
  ]

  -- The highest block that is stored.
  abbrev highest : Store → ℕ
  highest s = max_block_id s.blocks

  abbrev pub PassLeaves : ℕ → ℕ → Store → Result (Option ℕ) × World → Type 0
  PassLeaves lag cursor s p =
      ((p.0 ≡ ok none) × (max_block_id s.blocks ≤ cursor + lag) × (p.1.store ≡ s))
      ⊎ ((cursor + lag < max_block_id s.blocks) × AdvanceLeaves cursor s p)
      ⊎ ((e : Error) × (p.0 ≡ err e) × (p.1.store ≡ s))

  abbrev after_max : ℕ → ℕ → ℕ → Exec (Option ℕ)
  after_max lag cursor max_block =
      if must_wait lag max_block cursor then pure none else advance eth iterate cursor

  after_max_leaves :
      (lag cursor : ℕ) (w : World)
      → PassLeaves lag cursor w.store (after_max lag cursor (max_block_id w.store.blocks) w)
  unfolding must_wait
  after_max_leaves lag cursor w =
      elim (Bool-cases (must_wait lag (max_block_id w.store.blocks) cursor)) [
        | inl e ↦ rw e (
            subst (PassLeaves lag cursor w.store) (sym (pure_lem none w))
              (inl (refl, ground arith, refl)))
        | inr e ↦ rw e (inr (inl (ground arith, advance_leaves cursor w)))
      ]

  -- One round waits, with nothing changed, as long as no more than `lag` blocks above the cursor's are
  -- stored. Else it adds to the balances what the logs of the cursor's block move, and moves the
  -- cursor to the next block; or it fails, with nothing changed, or with the balances changed and
  -- the cursor where it was.
  pub balancefill_pass_leaves :
      (lag cursor : ℕ) (w : World)
      → PassLeaves lag cursor w.store (balancefill_pass eth iterate lag cursor w)
  unfolding balancefill_pass
  balancefill_pass_leaves lag cursor w = elim (get_max_cases w) [
    | inr (e, p) ↦
        subst (PassLeaves lag cursor w.store)
          (sym (>>=_of_err get_max_indexed_block (after_max lag cursor) w p))
          (inr (inr (e, refl, refl)))
    | inl p ↦
        subst (PassLeaves lag cursor w.store)
          (sym (>>=_of_ok get_max_indexed_block (after_max lag cursor) w p))
          (after_max_leaves lag cursor (record w { faults = later w.faults }))
  ]
