-- ===== src/Services/Balancefill/Ledger.antt =====
-- What the stored logs of a range of blocks move, and when the rest of the program leaves that alone.
use evm_indexer.Prelude.{
  ℕ, zero, suc, ◌+◌, ◌^◌, ◌<◌, ◌≤◌, ◌≡◌, refl, ap, ◌∙◌, ◌⊎◌, List, [], ◌∷◌, map, select, Bool, ◌&&◌,
  ◌==◌, arith,
}
use evm_indexer.Prelude.Int.{ℤ, pos, ◌+ℤ◌}
use evm_indexer.Domain.Errors.{Result, ok, err}
use evm_indexer.Domain.Models.{Log, BalanceEntry}
use evm_indexer.Store.{Store, EventRow}
use evm_indexer.Store.Balances.{BalanceKey, sum_where}
use evm_indexer.Exec.{World}
use evm_indexer.Repository.Indexer.{log_wanted, first_topic_in, scan_log, max_block_id}
use evm_indexer.Repository.Indexer.Reads.{logs_of}
use evm_indexer.Services.Balancefill.{Ethereum, transfer_signatures, extract_all}
use evm_indexer.Services.Balancefill.Loop.{block_filter}

-- The logs of transfers that are stored for a block.
abbrev pub transfers_in : ℕ → Store → List Log
transfers_in n s =
    map scan_log
      (select (λ r. first_topic_in r.topics transfer_signatures && (r.block_id == n)) s.events)

select-log_wanted :
    (n : ℕ) (rows : List EventRow)
    → select (log_wanted (block_filter n)) rows
      ≡ select (λ r. first_topic_in r.topics transfer_signatures && (r.block_id == n)) rows
unfolding log_wanted block_filter
select-log_wanted n [] = refl
select-log_wanted n (r ∷ rows) = ground (arith, select-log_wanted n rows)

pub logs_read : (n : ℕ) (s : Store) → logs_of (block_filter n) s ≡ transfers_in n s
logs_read n s = ap (map scan_log) (select-log_wanted n s.events)

pub transfers-cong :
    (n : ℕ) (s t : Store) → t.events ≡ s.events → transfers_in n t ≡ transfers_in n s
transfers-cong n s t same =
    ap
      (λ rows.
        map scan_log
          (select (λ r. first_topic_in r.topics transfer_signatures && (r.block_id == n)) rows))
      same

-- What the rest of the program does between two rounds: it leaves the balances and their cursor, no
-- block that is more than `lag` deep gets other logs, and the highest block does not go down.
pub record IsFinal (lag : ℕ) (change : World → World) : Type 0 where
  pub balances : (w : World) → (change w).store.wallet_balance ≡ w.store.wallet_balance
  pub cursor : (w : World) → (change w).store.balancefill_cursor ≡ w.store.balancefill_cursor
  pub higher : (w : World) → max_block_id w.store.blocks ≤ max_block_id (change w).store.blocks
  pub column :
      (w : World)
      → max_block_id w.store.blocks < 2 ^ 63
      → max_block_id (change w).store.blocks < 2 ^ 63
  pub deep :
      (w : World) (n : ℕ)
      → n + lag < max_block_id w.store.blocks
      → transfers_in n (change w).store ≡ transfers_in n w.store

module _ (eth : Ethereum) (p : BalanceKey → Bool) where
  abbrev pub amount : Result (List BalanceEntry) → ℤ
  amount (ok entries) = sum_where p entries
  amount (err e) = pos 0

  -- what the logs of `k` blocks from `lo` on move
  abbrev pub moved : Store → ℕ → ℕ → ℤ
  moved s lo zero = pos 0
  moved s lo (suc k) = amount (extract_all eth (transfers_in (lo + k) s)) +ℤ moved s lo k

  -- The balances are `base` and what `k` blocks move.
  abbrev pub Booked : Store → ℕ → ℤ → ℕ → Type 0
  Booked s lo base k = sum_where p s.wallet_balance ≡ moved s lo k +ℤ base

  -- The balances are `base` and what the blocks below the cursor move, or also what the cursor's does.
  abbrev pub Accounted : Store → ℕ → ℤ → Type 0
  Accounted s lo base =
      (k : ℕ) × (s.balancefill_cursor ≡ lo + k) × (Booked s lo base k ⊎ Booked s lo base (suc k))

  -- Blocks with the same logs move the same.
  pub moved-cong :
      (s t : Store) (lo k : ℕ)
      → ((n : ℕ) → n < k → transfers_in (lo + n) t ≡ transfers_in (lo + n) s)
      → moved t lo k ≡ moved s lo k
  moved-cong s t lo zero h = refl
  moved-cong s t lo (suc k) h =
      ap (λ l. amount (extract_all eth l) +ℤ moved t lo k) (h k (omega arith))
      ∙ ap (λ z. amount (extract_all eth (transfers_in (lo + k) s)) +ℤ z)
          (moved-cong s t lo k (λ n l. h n (omega arith)))
