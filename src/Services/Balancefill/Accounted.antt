-- ===== src/Services/Balancefill/Accounted.antt =====
-- The balances are what the logs of the final blocks move.
use evm_indexer.Prelude.{
  ℕ, zero, suc, ◌+◌, ◌^◌, ◌<◌, ◌≡◌, refl, sym, ap, subst, ◌∙◌, ◌⊎◌, inl, inr, Option, none, some,
  List, [], ◌∷◌, All, Bool, arith,
}
use mathlib.Core.List.{Perm}
use native.Mathlib.Decide.{dec_lt}
use evm_indexer.Prelude.Int.{ℤ, ◌+ℤ◌, +ℤ_assoc, zero-+ℤ}
use evm_indexer.Domain.Errors.{Error, Result, ok, err, Result-cases}
use evm_indexer.Store.{Store}
use evm_indexer.Store.Balances.{BalanceKey, sum_where}
use evm_indexer.Exec.{World, Exec, ◌>>=◌, exchange, outcome, later}
use evm_indexer.Exec.Keeps.{>>=-cases, >>=_of_ok, >>=_of_err}
use evm_indexer.Repository.Indexer.{max_block_id, get_balancefill_cursor}
use evm_indexer.Repository.Indexer.Reads.{logs_of}
use evm_indexer.Services.Backfill.{u64}
use evm_indexer.Services.Balancefill.{Ethereum, Sums, extract_all}
use evm_indexer.Services.Balancefill.Loop.{
  block_filter, balancefill_pass, next_cursor, balancefill_loop, balancefill,
}
use evm_indexer.Services.Balancefill.Pass.{LogsAdded, balancefill_pass_leaves}
use evm_indexer.Services.Balancefill.Untouched.{pass-Keeps}
use evm_indexer.Services.Balancefill.Ledger.{
  logs_read, transfers-cong, IsFinal, amount, moved, Booked, Accounted, moved-cong,
}

cursor_cases :
    (w : World)
    → (get_balancefill_cursor w
        ≡ (ok w.store.balancefill_cursor, record w { faults = later w.faults }))
      ⊎ ((e : Error) × (get_balancefill_cursor w ≡ (err e, record w { faults = later w.faults })))
unfolding get_balancefill_cursor exchange ◌>>=◌
cursor_cases w = elim (Result-cases (outcome w.faults)) [
  | inl (_, p) ↦ inl (ground arith)
  | inr (e, p) ↦ inr (e, ground arith)
]

module _ (eth : Ethereum) (p : BalanceKey → Bool) where
  module _ (iterate : Sums → Sums) (order : (m : Sums) → Perm (iterate m) m) (lag lo : ℕ)
      (base : ℤ) where
    -- Before a round: `k` blocks are done, and all of them are deep.
    record Ready (k : ℕ) (s : Store) : Type 0 where
      pub cursor : s.balancefill_cursor ≡ lo + k
      pub booked : Booked eth p s lo base k
      pub deep : (n : ℕ) → n < k → lo + n + lag < max_block_id s.blocks
      pub column : max_block_id s.blocks < 2 ^ 63

    Ready-Accounted : (k : ℕ) (s : Store) → Ready k s → Accounted eth p s lo base
    Ready-Accounted k s r = (k, r.cursor, inl r.booked)

    change-Ready :
        (change : World → World) (k : ℕ) (w : World)
        → IsFinal lag change
        → Ready k w.store
        → Ready k (change w).store
    change-Ready change k w f r = record {
      cursor = f.cursor w ∙ r.cursor;
      booked =
          ap (sum_where p) (f.balances w)
          ∙ r.booked
          ∙ ap (λ z. z +ℤ base)
              (sym (
                moved-cong eth p w.store (change w).store lo k
                  (λ n l. f.deep w (lo + n) (r.deep n l))));
      deep = λ n l. omega (arith, r.deep n l, f.higher w);
      column = f.column w r.column;
    }

    -- The logs of one more block are added.
    one-Booked :
        (k : ℕ) (s t : Store)
        → t.events ≡ s.events
        → Booked eth p s lo base k
        → LogsAdded eth iterate order (logs_of (block_filter (lo + k)) s) s t
        → Booked eth p t lo base (suc k)
    one-Booked k s t same b (entries, q, added) =
        let whole : moved eth p t lo (suc k) ≡ sum_where p entries +ℤ moved eth p s lo k =
          moved-cong eth p s t lo (suc k) (λ n l. transfers-cong (lo + n) s t same)
          ∙ ap (λ es. amount eth p (extract_all eth es) +ℤ moved eth p s lo k)
              (sym (logs_read (lo + k) s))
          ∙ ap (λ r. amount eth p r +ℤ moved eth p s lo k) q in
        added p
        ∙ ap (λ z. sum_where p entries +ℤ z) b
        ∙ sym (+ℤ_assoc (sum_where p entries) (moved eth p s lo k) base)
        ∙ ap (λ z. z +ℤ base) (sym whole)

    -- A round waits, does one block, or fails.
    abbrev RoundLeaves : ℕ → Result (Option ℕ) × World → Type 0
    RoundLeaves k (r, v) =
        ((r ≡ ok none) × Ready k v.store)
        ⊎ ((r ≡ ok (some (lo + suc k))) × Ready (suc k) v.store)
        ⊎ ((e : Error) × (r ≡ err e) × Accounted eth p v.store lo base)

    round_leaves :
        (k : ℕ) (w : World)
        → Ready k w.store
        → RoundLeaves k (balancefill_pass eth iterate lag (lo + k) w)
    round_leaves k w r =
        let v = (balancefill_pass eth iterate lag (lo + k) w).1 in
        let (blocks, events) =
          (pass-Keeps w.store.blocks w.store.events eth iterate lag (lo + k)).at w (refl, refl) in
        elim (balancefill_pass_leaves eth iterate order lag (lo + k) w) [
          | inl (q, _, same) ↦ inl (q, subst (Ready k) (sym same) r)
          | inr (inl (final, inl (q, added, moves))) ↦
              let next : u64 (lo + k + 1) ≡ lo + suc k = omega (arith, final, r.column) in
              inr (
                inl (
                  q ∙ ap (λ n. ok (some n)) next,
                  record {
                    cursor = moves ∙ next;
                    booked = one-Booked k w.store v.store events r.booked added;
                    deep = λ n l. elim (dec_lt n k) [
                      | yes before ↦ omega (arith, r.deep n before, ap max_block_id blocks)
                      | no after ↦ omega (arith, final, ap max_block_id blocks)
                    ];
                    column = subst (λ b. max_block_id b < 2 ^ 63) (sym blocks) r.column;
                  },
                ))
          | inr (inl (_, inr (e, q, inl same))) ↦ inr (
              inr (
                e,
                q,
                subst (λ s. Accounted eth p s lo base) (sym same) (Ready-Accounted k w.store r),
              ))
          | inr (inl (_, inr (e, q, inr (added, stays)))) ↦ inr (
              inr (
                e,
                q,
                (k, stays ∙ r.cursor, inr (one-Booked k w.store v.store events r.booked added)),
              ))
          | inr (inr (e, q, same)) ↦ inr (
              inr (
                e,
                q,
                subst (λ s. Accounted eth p s lo base) (sym same) (Ready-Accounted k w.store r),
              ))
        ]

    loop_leaves :
        (cancelled : Error) (changes : List (World → World)) (k : ℕ) (w : World)
        → All (IsFinal lag) changes
        → Ready k w.store
        → Accounted eth p
            (balancefill_loop eth iterate lag cancelled changes (lo + k) w).1.store
            lo
            base
    unfolding balancefill_loop ◌>>=◌
    loop_leaves cancelled [] k w f r = Ready-Accounted k w.store r
    loop_leaves cancelled (change ∷ changes) k w (f, fs) r =
        let u = change w in
        let rest : Option ℕ → Exec (Unit {0}) =
          λ next. balancefill_loop eth iterate lag cancelled changes (next_cursor (lo + k) next) in
        let left = round_leaves k u (change-Ready change k w f r) in
        elim (>>=-cases (balancefill_pass eth iterate lag (lo + k)) rest u) [
          | inl (next, v, q, h) ↦
              subst (λ x. Accounted eth p x.1.store lo base) (sym h)
                (elim (subst (RoundLeaves k) q left) [
                  | inl (same, ready) ↦
                      let waits : next ≡ none = ground (arith, same) in
                      subst (λ x. Accounted eth p (rest x v).1.store lo base) (sym waits)
                        (loop_leaves cancelled changes k v fs ready)
                  | inr (inl (same, ready)) ↦
                      let goes : next ≡ some (lo + suc k) = ground (arith, same) in
                      subst (λ x. Accounted eth p (rest x v).1.store lo base) (sym goes)
                        (loop_leaves cancelled changes (suc k) v fs ready)
                  | inr (inr (e, same, _)) ↦ absurd (ground arith)
                ])
          | inr (e, v, q, h) ↦
              subst (λ x. Accounted eth p x.1.store lo base) (sym h)
                (elim (subst (RoundLeaves k) q left) [
                  | inl (same, _) ↦ absurd (ground arith)
                  | inr (inl (same, _)) ↦ absurd (ground arith)
                  | inr (inr (_, _, done)) ↦ done
                ])
        ]

  -- Let no other part of the program touch the balances or their cursor, nor the logs of a block that
  -- is more than `lag` deep, and let the highest block not go down. Wherever the balance fill stops,
  -- with or without an error, and for any test of the keys, the balances that pass it have grown by
  -- exactly what the stored logs of the blocks from the first cursor up to, and without, the stored
  -- one move; or by what the logs of the block at the stored cursor move as well, where the round
  -- failed between its two writes.
  pub balancefill-Accounted :
      (iterate : Sums → Sums) (lag : ℕ) (cancelled : Error) (changes : List (World → World))
      (w : World)
      → ((m : Sums) → Perm (iterate m) m)
      → All (IsFinal lag) changes
      → max_block_id w.store.blocks < 2 ^ 63
      → Accounted eth p
          (balancefill eth iterate lag cancelled changes w).1.store
          w.store.balancefill_cursor
          (sum_where p w.store.wallet_balance)
  unfolding balancefill
  balancefill-Accounted iterate lag cancelled changes w order f column =
      let lo = w.store.balancefill_cursor in
      let base = sum_where p w.store.wallet_balance in
      let ready : Ready iterate order lag lo base zero w.store = record {
        cursor = sym (omega arith);
        booked = sym (zero-+ℤ base);
        deep = λ n l. absurd (omega arith);
        column = column;
      } in
      let first : lo + zero ≡ lo = omega arith in
      elim (cursor_cases w) [
        | inl q ↦
            subst (λ x. Accounted eth p x.1.store lo base)
              (sym (
                >>=_of_ok get_balancefill_cursor
                  (λ cursor. balancefill_loop eth iterate lag cancelled changes cursor) w q))
              (subst
                (λ c.
                  Accounted eth p
                    (balancefill_loop eth iterate lag cancelled changes c
                      (record w { faults = later w.faults })).1.store
                    lo base)
                first
                (loop_leaves iterate order lag lo base cancelled changes zero
                  (record w { faults = later w.faults }) f ready))
        | inr (e, q) ↦
            subst (λ x. Accounted eth p x.1.store lo base)
              (sym (
                >>=_of_err get_balancefill_cursor
                  (λ cursor. balancefill_loop eth iterate lag cancelled changes cursor) w q))
              (Ready-Accounted iterate order lag lo base zero w.store ready)
      ]
