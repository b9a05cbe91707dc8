-- ===== src/Repository/Indexer/Reads.antt =====
-- The outcomes of the calls that the balance fill makes of the repository.
use evm_indexer.Prelude.{
  ℕ, ◌≡◌, sym, subst, ◌⊎◌, inl, inr, Bool, Bool-cases, ltb, ◌&&◌, ◌^◌, Option, some, List, ◌∷◌, map,
  select, arith,
}
use evm_indexer.Prelude.Int.{◌+ℤ◌}
use evm_indexer.Domain.Errors.{Error, Result, ok, err, Result-cases, value_too_large}
use evm_indexer.Domain.Models.{Log, LogFilter, BalanceEntry}
use evm_indexer.Store.{Store}
use evm_indexer.Store.Balances.{BalanceKey, sum_where, upsert_balances, sum_where-upsert_balances}
use evm_indexer.Exec.{World, ◌>>=◌, ◌>>◌, exchange, outcome, later}
use evm_indexer.Exec.Keeps.{>>=-eq-ok}
use evm_indexer.Repository.Indexer.{
  effect, run_sql, batch_upsert_balance, get_max_indexed_block, max_block_id, get_logs_by_topic,
  log_wanted, scan_log, update_balancefill_cursor,
}
use evm_indexer.Repository.Indexer.Committed.{effect-eq-ok, transact-eq-ok}
use evm_indexer.Repository.Indexer.Atomic.{AllOrNothing, transact-cases}

-- An exchange that was answered has left the tables alone.
exchange-eq-ok : (w : World) (a : Unit {0}) (v : World) → exchange w ≡ (ok a, v) → v.store ≡ w.store
unfolding exchange
exchange-eq-ok w a v h = ground arith

run_sql-eq-ok :
    (f : Store → Result Store) (w : World) (a : Unit {0}) (w' : World)
    → run_sql f w ≡ (ok a, w')
    → f w.store ≡ ok w'.store
unfolding run_sql
run_sql-eq-ok f w a w' h =
    let (b, v, p, q) = >>=-eq-ok exchange (λ _. effect f) w h in
    subst (λ s. f s ≡ ok w'.store) (exchange-eq-ok w b v p) (effect-eq-ok f v a w' q)

upsert-eq-ok :
    (es : List BalanceEntry) (w w' : World)
    → batch_upsert_balance es w ≡ (ok tt, w')
    → upsert_balances es w.store ≡ ok w'.store
unfolding batch_upsert_balance
upsert-eq-ok es w w' h =
    let (v, p, q) = transact-eq-ok (exchange >> run_sql (upsert_balances es)) w tt w' h in
    let (b, u, r, s) = >>=-eq-ok exchange (λ _. run_sql (upsert_balances es)) w p in
    subst (λ x. upsert_balances es w.store ≡ ok x) (sym q)
      (subst (λ x. upsert_balances es x ≡ ok v.store) (exchange-eq-ok w b u r)
        (run_sql-eq-ok (upsert_balances es) u tt v s))

upsert-AllOrNothing :
    (es : List BalanceEntry) (w : World)
    → AllOrNothing (λ s. Unit) w.store (batch_upsert_balance es w)
unfolding batch_upsert_balance
upsert-AllOrNothing es w = transact-cases (exchange >> run_sql (upsert_balances es)) w

cursor-upsert :
    (es : List BalanceEntry) (s s' : Store)
    → upsert_balances es s ≡ ok s'
    → s'.balancefill_cursor ≡ s.balancefill_cursor
unfolding upsert_balances
cursor-upsert es s s' h = ground arith

-- The balances of `s'` are those of `s` with the entries added, under every test of the keys.
abbrev pub Added : List BalanceEntry → Store → Store → Type 0
Added es s s' =
    (p : BalanceKey → Bool)
    → sum_where p s'.wallet_balance ≡ sum_where p es +ℤ sum_where p s.wallet_balance

-- `BatchUpsertBalance` adds all of the entries, or fails and changes nothing.
pub batch_upsert_cases :
    (es : List BalanceEntry) (w : World)
    → (((batch_upsert_balance es w).0 ≡ ok tt)
        × Added es w.store (batch_upsert_balance es w).1.store
        × ((batch_upsert_balance es w).1.store.balancefill_cursor ≡ w.store.balancefill_cursor))
      ⊎ ((e : Error) × ((batch_upsert_balance es w).0 ≡ err e)
          × ((batch_upsert_balance es w).1.store ≡ w.store))
batch_upsert_cases es w = elim (upsert-AllOrNothing es w) [
  | inl (p, _) ↦
      let q =
        upsert-eq-ok es w (batch_upsert_balance es w).1
          (λ i. (p i, (batch_upsert_balance es w).1)) in
      inl (p, (λ t. sum_where-upsert_balances t es w.store q), cursor-upsert es w.store _ q)
  | inr failed ↦ inr failed
]

pub get_max_cases :
    (w : World)
    → (get_max_indexed_block w
        ≡ (ok (max_block_id w.store.blocks), record w { faults = later w.faults }))
      ⊎ ((e : Error) × (get_max_indexed_block w ≡ (err e, record w { faults = later w.faults })))
unfolding get_max_indexed_block exchange ◌>>=◌
get_max_cases w = elim (Result-cases (outcome w.faults)) [
  | inl (_, p) ↦ inl (ground arith)
  | inr (e, p) ↦ inr (e, ground arith)
]

abbrev pub logs_of : LogFilter → Store → List Log
logs_of f s = map scan_log (select (log_wanted f) s.events)

pub get_logs_cases :
    (f : LogFilter) (w : World)
    → (get_logs_by_topic f w ≡ (ok (logs_of f w.store), record w { faults = later w.faults }))
      ⊎ ((e : Error) × (get_logs_by_topic f w ≡ (err e, record w { faults = later w.faults })))
unfolding get_logs_by_topic exchange ◌>>=◌
get_logs_cases f w = elim (Result-cases (outcome w.faults)) [
  | inr (e, p) ↦ inr (e, ground arith)
  | inl (_, p) ↦ elim (Bool-cases (ltb f.from_block (2 ^ 31) && ltb f.to_block (2 ^ 31))) [
    | inl fit ↦ inl (rw (p, fit))
    | inr large ↦ inr (value_too_large, rw (p, large))
  ]
]

pub move_cases :
    (n : ℕ) (w : World)
    → (((update_balancefill_cursor n w).0 ≡ ok tt)
        × ((update_balancefill_cursor n w).1.store ≡ record (w.store) { balancefill_cursor = n }))
      ⊎ ((e : Error) × ((update_balancefill_cursor n w).0 ≡ err e)
          × ((update_balancefill_cursor n w).1.store ≡ w.store))
unfolding update_balancefill_cursor run_sql effect exchange ◌>>=◌
move_cases n w = ground arith

pub move_fails :
    (n : ℕ) (w : World) (e : Error) (rest : List (Option Error))
    → w.faults ≡ some e ∷ rest
    → update_balancefill_cursor n w ≡ (err e, record w { faults = rest })
unfolding update_balancefill_cursor run_sql effect exchange ◌>>=◌
move_fails n w e rest h = ground arith
