-- ===== src/Services/Balancefill/Supply.antt =====
-- The balance fill over many rounds, and a round that stops between its two writes.
use evm_indexer.Prelude.{
  ℕ, ◌+◌, ◌≡◌, ap, subst, ◌∙◌, inl, inr, Str, Option, some, List, [], ◌∷◌, All, arith,
}
use mathlib.Core.List.{Perm}
use evm_indexer.Prelude.Int.{ℤ, ◌+ℤ◌, zero-+ℤ}
use evm_indexer.Domain.Errors.{Error, ok, err}
use evm_indexer.Domain.Models.{Log}
use evm_indexer.Store.{Store}
use evm_indexer.Store.Balances.{supply}
use evm_indexer.Exec.{World, Exec, pure, ◌>>=◌, ◌>>◌, exchange}
use evm_indexer.Exec.Keeps.{Keeps, Keeps-bind, Keeps-raise, >>=_of_ok, >>=_of_err}
use evm_indexer.Repository.Indexer.{
  get_balancefill_cursor, get_logs_by_topic, update_balancefill_cursor,
}
use evm_indexer.Repository.Indexer.Reads.{logs_of, move_fails}
use evm_indexer.Services.Backfill.{u64}
use evm_indexer.Services.Balancefill.{Ethereum, Sums}
use evm_indexer.Services.Balancefill.Entries.{supply-extract_all}
use evm_indexer.Services.Balancefill.Loop.{
  block_filter, apply_logs, advance, balancefill_pass, next_cursor, by_others, balancefill_loop,
  balancefill,
}
use evm_indexer.Services.Balancefill.Pass.{
  LogsAdded, balancefill_pass_leaves, apply_leaves, Applied,
}

abbrev pub AmountsTo : Str → Str → ℤ → World → Type 0
AmountsTo token id n w = supply token id w.store.wallet_balance ≡ n

-- What the rest of the program does between two rounds keeps the supply.
abbrev pub KeepsSupply : Str → Str → ℤ → (World → World) → Type 0
KeepsSupply token id n change =
    (w : World) → AmountsTo token id n w → AmountsTo token id n (change w)

module _ (eth : Ethereum) (iterate : Sums → Sums) (order : (m : Sums) → Perm (iterate m) m)
    (token id : Str) (n : ℤ) where
  abbrev HasSupply : World → Type 0
  HasSupply = AmountsTo token id n

  supply-LogsAdded :
      (logs : List Log) (s s' : Store)
      → LogsAdded eth iterate order logs s s'
      → supply token id s'.wallet_balance ≡ supply token id s.wallet_balance
  supply-LogsAdded logs s s' (entries, p, added) =
      added _
      ∙ ap (λ z. z +ℤ supply token id s.wallet_balance) (supply-extract_all eth logs token id p)
      ∙ zero-+ℤ _

  pass-supply :
      (lag cursor : ℕ) (w : World)
      → supply token id (balancefill_pass eth iterate lag cursor w).1.store.wallet_balance
        ≡ supply token id w.store.wallet_balance
  pass-supply lag cursor w = elim (balancefill_pass_leaves eth iterate order lag cursor w) [
    | inl (_, _, same) ↦ ap (λ s. supply token id s.wallet_balance) same
    | inr (inl (_, inl (_, added, _))) ↦
        supply-LogsAdded (logs_of (block_filter cursor) w.store) w.store
          (balancefill_pass eth iterate lag cursor w).1.store added
    | inr (inl (_, inr (_, _, inl same))) ↦ ap (λ s. supply token id s.wallet_balance) same
    | inr (inl (_, inr (_, _, inr (added, _)))) ↦
        supply-LogsAdded (logs_of (block_filter cursor) w.store) w.store
          (balancefill_pass eth iterate lag cursor w).1.store added
    | inr (inr (_, _, same)) ↦ ap (λ s. supply token id s.wallet_balance) same
  ]

  pass-HasSupply : (lag cursor : ℕ) → Keeps HasSupply (balancefill_pass eth iterate lag cursor)
  pass-HasSupply lag cursor = record { at = λ w h. pass-supply lag cursor w ∙ h }

  loop-HasSupply :
      (lag : ℕ) (cancelled : Error) (changes : List (World → World)) (cursor : ℕ)
      → All (KeepsSupply token id n) changes
      → Keeps HasSupply (balancefill_loop eth iterate lag cancelled changes cursor)
  unfolding balancefill_loop
  loop-HasSupply lag cancelled [] cursor h = Keeps-raise cancelled
  loop-HasSupply lag cancelled (change ∷ changes) cursor (k, h) =
      Keeps-bind (by_others change) _ (record { at = λ w s. k w s })
        (λ _.
          Keeps-bind (balancefill_pass eth iterate lag cursor) _ (pass-HasSupply lag cursor)
            (λ next. loop-HasSupply lag cancelled changes (next_cursor cursor next) h))

  cursor-HasSupply : Keeps HasSupply get_balancefill_cursor
  unfolding get_balancefill_cursor exchange ◌>>=◌
  cursor-HasSupply = record { at = λ w h. ground arith }

  -- Over any number of rounds, however each ends, the balances of all wallets in one token and token
  -- id keep their sum, as long as the rest of the program keeps it between the rounds.
  pub balancefill-supply :
      (lag : ℕ) (cancelled : Error) (changes : List (World → World)) (w : World)
      → All (KeepsSupply token id n) changes
      → supply token id w.store.wallet_balance ≡ n
      → supply token id (balancefill eth iterate lag cancelled changes w).1.store.wallet_balance ≡ n
  unfolding balancefill
  balancefill-supply lag cancelled changes w h s =
      (Keeps-bind get_balancefill_cursor _ cursor-HasSupply
          (λ cursor. loop-HasSupply lag cancelled changes cursor h)).at
        w s

abbrev finish : ℕ → Exec (Option ℕ)
finish n = update_balancefill_cursor n >> pure (some n)

abbrev after_logs : Ethereum → (Sums → Sums) → ℕ → List Log → Exec (Option ℕ)
after_logs eth iterate cursor logs = apply_logs eth iterate logs >> finish (u64 (cursor + 1))

module _ (eth : Ethereum) (iterate : Sums → Sums) (order : (m : Sums) → Perm (iterate m) m) where
  -- Where the upsert of a block's entries is committed and the exchange that moves the cursor fails,
  -- the round returns that error with the entries added and the cursor where it was: the round that
  -- follows a restart is at the same block, and adds them once more.
  pub advance_counts_again :
      (cursor : ℕ) (logs : List Log) (w u v : World) (e : Error) (rest : List (Option Error))
      → get_logs_by_topic (block_filter cursor) w ≡ (ok logs, u)
      → apply_logs eth iterate logs u ≡ (ok tt, v)
      → v.faults ≡ some e ∷ rest
      → (advance eth iterate cursor w ≡ (err e, record v { faults = rest }))
        × LogsAdded eth iterate order logs u.store v.store
        × (v.store.balancefill_cursor ≡ u.store.balancefill_cursor)
  unfolding advance
  advance_counts_again cursor logs w u v e rest read applied fails =
      let n = u64 (cursor + 1) in
      let stopped : finish n v ≡ (err e, record v { faults = rest }) =
        >>=_of_err (update_balancefill_cursor n) (λ _. pure (some n)) v
          (move_fails n v e rest fails) in
      let last : after_logs eth iterate cursor logs u ≡ (err e, record v { faults = rest }) =
        >>=_of_ok (apply_logs eth iterate logs) (λ _. finish n) u applied ∙ stopped in
      let whole : advance eth iterate cursor w ≡ (err e, record v { faults = rest }) =
        >>=_of_ok (get_logs_by_topic (block_filter cursor)) (after_logs eth iterate cursor) w read
        ∙ last in
      elim (subst (Applied eth iterate order logs u.store) applied
        (apply_leaves eth iterate order logs u)) [
          | inl (_, added, same) ↦ (whole, added, same)
          | inr (x, p, _) ↦ absurd (ground arith)
        ]
