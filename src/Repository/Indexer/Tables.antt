-- ===== src/Repository/Indexer/Tables.antt =====
-- Rules for the repository's methods: invariants of the tables that every statement keeps.
use evm_indexer.Prelude.{◌⊎◌, inl, inr, ℕ, ◌≡◌}
use evm_indexer.Domain.Errors.{Error, Result, ok, err, Result-cases}
use evm_indexer.Domain.Models.{Block, Transaction, Event}
use evm_indexer.Store.{Store, insert_block, insert_tx, insert_event}
use evm_indexer.Exec.{World, Exec, exchange, outcome}
use evm_indexer.Exec.Keeps.{Keeps, Keeps-bind}
use evm_indexer.Repository.Indexer.{
  effect, run_sql, rolled_back, with_rollback, closed, commit, transact,
}

-- What a property of the tables must satisfy to survive every write of blocks.
pub record IsStable (V : Store → Type 0) : Type 0 where
  pub by_block : (b : Block) (s s' : Store) → V s → insert_block b s ≡ ok s' → V s'
  pub by_tx : (t : Transaction) (s s' : Store) → V s → insert_tx t s ≡ ok s' → V s'
  pub by_event : (id : ℕ) (e : Event) (s s' : Store) → V s → insert_event id e s ≡ ok s' → V s'

-- `V` holds of the tables of a world.
abbrev pub Holds : (Store → Type 0) → World → Type 0
Holds V w = V w.store

module _ (V : Store → Type 0) where
  pub exchange-Keeps : Keeps (Holds V) exchange
  unfolding exchange
  exchange-Keeps = record { at = λ w h. h }

  effect-Keeps :
      (f : Store → Result Store)
      → ((s s' : Store) → V s → f s ≡ ok s' → V s')
      → Keeps (Holds V) (effect f)
  unfolding effect
  effect-Keeps f k = record { at = λ w h. go w h (Result-cases (f w.store)) }
    where
      go :
          (w : World)
          → V w.store
          → ((s : Store) × (f w.store ≡ ok s)) ⊎ ((e : Error) × (f w.store ≡ err e))
          → V (effect f w).1.store
      go w h (inl (s, p)) = rw (p, effect) (k w.store s h p)
      go w h (inr (e, p)) = rw (p, effect) h

  pub run_sql-Keeps :
      (f : Store → Result Store)
      → ((s s' : Store) → V s → f s ≡ ok s' → V s')
      → Keeps (Holds V) (run_sql f)
  unfolding run_sql
  run_sql-Keeps f k = Keeps-bind exchange _ exchange-Keeps (λ _. effect-Keeps f k)

  pub with_rollback-Keeps :
      (body : Exec (Unit {0})) → Keeps (Holds V) body → Keeps (Holds V) (with_rollback body)
  unfolding with_rollback
  with_rollback-Keeps body k = record { at = λ w h. go w h (body w) (k.at w h) }
    where
      go :
          (w : World)
          → V w.store
          → (p : Result (Unit {0}) × World) → V p.1.store
          → V (rolled_back w.store p.0 p.1).store
      go w h (ok _, v) k' = k'
      go w h (err _, v) k' = h

  pub commit-Keeps : (s : Store) → V s → Keeps (Holds V) (commit s)
  unfolding commit
  commit-Keeps s k = record { at = λ w h. go w h (outcome w.faults) }
    where
      go : (w : World) → V w.store → (r : Result (Unit {0})) → V (closed s r w).1.store
      go w h (ok _) = h
      go w h (err _) = k

  pub transact-Keeps :
      (body : Exec (Unit {0})) → Keeps (Holds V) body → Keeps (Holds V) (transact body)
  unfolding transact
  transact-Keeps body k = record {
    at = λ w h.
        (Keeps-bind (with_rollback body) _ (with_rollback-Keeps body k)
            (λ _. commit-Keeps w.store h)).at
          w h;
  }
