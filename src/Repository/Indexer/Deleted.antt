-- ===== src/Repository/Indexer/Deleted.antt =====
-- What `Delete` leaves in the tables.
use evm_indexer.Prelude.{
  ℕ, ◌==◌, ==_iff, ◌≡◌, ◌≢◌, refl, sym, subst, inl, inr, Bool, true, false, not, List, [], ◌∷◌,
  select, any, any-select_rejected, arith,
}
use evm_indexer.Domain.Errors.{ok}
use evm_indexer.Store.{
  Store, TxRow, EventRow, same_id, delete_events, delete_transactions, delete_blocks,
}
use evm_indexer.Exec.{World, ◌>>=◌, exchange}
use evm_indexer.Repository.Indexer.{effect, run_sql, at_int, delete_body, delete}
use evm_indexer.Repository.Indexer.Committed.{transact-eq-ok}
use evm_indexer.Repository.Indexer.Atomic.{AllOrNothing, transact-cases}

delete_body-eq-ok :
    (n : ℕ) (w v : World)
    → delete_body n w ≡ (ok tt, v)
    → delete_blocks n (delete_transactions n (delete_events n w.store)) ≡ v.store
unfolding delete_body at_int run_sql effect exchange ◌>>=◌
delete_body-eq-ok n w v h = ground arith

abbrev pub tx_of : ℕ → TxRow → Bool
tx_of n r = r.block_id == n

abbrev pub event_of : ℕ → EventRow → Bool
event_of n r = r.block_id == n

select-select_other :
    {A : Type 0} (p q : A → Bool) (xs : List A)
    → ((x : A) → p x ≡ true → q x ≡ true)
    → select p (select q xs) ≡ select p xs
select-select_other p q [] h = refl
select-select_other p q (x ∷ xs) h = ground (arith, h x, select-select_other p q xs h)

-- No row of the three tables belongs to block `n`, and the rows of the other blocks are as in `s`.
pub record Removed (n : ℕ) (s s' : Store) : Type 0 where
  pub no_block : any (same_id n) s'.blocks ≡ false
  pub no_tx : any (tx_of n) s'.transactions ≡ false
  pub no_event : any (event_of n) s'.events ≡ false
  pub blocks : (m : ℕ) → m ≢ n → select (same_id m) s'.blocks ≡ select (same_id m) s.blocks
  pub txs : (m : ℕ) → m ≢ n → select (tx_of m) s'.transactions ≡ select (tx_of m) s.transactions
  pub events : (m : ℕ) → m ≢ n → select (event_of m) s'.events ≡ select (event_of m) s.events

other : (m n k : ℕ) → m ≢ n → (k == m) ≡ true → not (k == n) ≡ true
other m n k h e = ground (arith, ==_iff k m, ==_iff k n, h)

delete_blocks-Removed :
    (n : ℕ) (s : Store) → Removed n s (delete_blocks n (delete_transactions n (delete_events n s)))
unfolding delete_blocks delete_transactions delete_events
delete_blocks-Removed n s = record {
  no_block = any-select_rejected _ _ s.blocks (λ r e. ground arith);
  no_tx = any-select_rejected _ _ s.transactions (λ r e. ground arith);
  no_event = any-select_rejected _ _ s.events (λ r e. ground arith);
  blocks = λ m h. select-select_other (same_id m) _ s.blocks (λ r. other m n r.id h);
  txs = λ m h. select-select_other (tx_of m) _ s.transactions (λ r. other m n r.block_id h);
  events = λ m h. select-select_other (event_of m) _ s.events (λ r. other m n r.block_id h);
}

-- `Delete` either returns no error, and then no block, transaction or event of the id is left and
-- the rows of all other blocks are as they were, or returns an error and has left the tables as they
-- were.
pub delete-AllOrNothing :
    (n : ℕ) (w : World) → AllOrNothing (Removed n w.store) w.store (delete n w)
unfolding delete
delete-AllOrNothing n w = elim (transact-cases (delete_body n) w) [
  | inl (p, _) ↦
      let (v, q, r) =
        transact-eq-ok (delete_body n) w tt (delete n w).1 (λ k. (p k, (delete n w).1)) in
      inl (
        p,
        subst (Removed n w.store) (sym r) (
            subst (Removed n w.store) (delete_body-eq-ok n w v q)
              (delete_blocks-Removed n w.store)),
      )
  | inr failed ↦ inr failed
]
