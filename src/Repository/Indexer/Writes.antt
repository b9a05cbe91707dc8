-- ===== src/Repository/Indexer/Writes.antt =====
-- What every insert keeps, `Create` and `BulkCreate` keep, whether they return or fail.
use evm_indexer.Prelude.{◌≡◌, subst, ◌⊎◌, inl, inr, List, [], ◌∷◌, arith}
use evm_indexer.Domain.Errors.{Error, Result, ok, err, Result-cases}
use evm_indexer.Domain.Models.{Block, Transaction, Event, BlockTxsEvents}
use evm_indexer.Store.{Store, insert_block, insert_tx, insert_event}
use evm_indexer.Exec.{World, Exec, exchange}
use evm_indexer.Exec.Keeps.{Keeps, Keeps-bind, Keeps-pure, keeps_rules}
use evm_indexer.Repository.Indexer.{
  run_sql, effect_event, commit, with_rollback, ignore_error, exec_txs, exec_events, create_body,
  create, insert_all, effect_events, bulk_txs, bulk_events, bulk_body, bulk_create,
}
use evm_indexer.Repository.Indexer.Tables.{
  IsStable, Holds, exchange-Keeps, run_sql-Keeps, with_rollback-Keeps, commit-Keeps, transact-Keeps,
}

pub insert_all-keeps {ℓ} :
    {A : Type ℓ} (V : Store → Type 0) (f : A → Store → Result Store)
    → ((x : A) (s s' : Store) → V s → f x s ≡ ok s' → V s')
    → (xs : List A) (s s' : Store) → V s
    → insert_all f xs s ≡ ok s'
    → V s'
unfolding insert_all
insert_all-keeps V f k [] s s' v h = subst V (ground arith) v
insert_all-keeps V f k (x ∷ xs) s s' v h = elim (Result-cases (f x s)) [
  | inl (t, p) ↦ insert_all-keeps V f k xs t s' (k x s t v p) (rw (p, insert_all) at h)
  | inr (e, p) ↦ absurd (ground arith)
]

module _ (V : Store → Type 0) (stable : IsStable V) where
  pub effect_event-Keeps : (e : Event) → Keeps (Holds V) (effect_event e)
  unfolding effect_event
  effect_event-Keeps e = record {
    at = λ w h. go w h (Result-cases (insert_event w.sequence e w.store));
  }
    where
      go :
          (w : World)
          → V w.store
          → ((s : Store) × (insert_event w.sequence e w.store ≡ ok s))
            ⊎ ((x : Error) × (insert_event w.sequence e w.store ≡ err x))
          → V (effect_event e w).1.store
      go w h (inl (s, p)) = rw (p, effect_event) (stable.by_event w.sequence e w.store s h p)
      go w h (inr (x, p)) = rw (p, effect_event) h

  pub insert_tx-Keeps : (t : Transaction) → Keeps (Holds V) (run_sql (insert_tx t))
  insert_tx-Keeps t = run_sql-Keeps V (insert_tx t) (stable.by_tx t)

  pub insert_block-Keeps : (b : Block) → Keeps (Holds V) (run_sql (insert_block b))
  insert_block-Keeps b = run_sql-Keeps V (insert_block b) (stable.by_block b)

  pub exec_txs-Keeps : (ts : List Transaction) → Keeps (Holds V) (exec_txs ts)
  unfolding exec_txs
  exec_txs-Keeps [] = Keeps-pure tt
  exec_txs-Keeps (t ∷ ts) = Keeps-bind _ _ (insert_tx-Keeps t) (λ _. exec_txs-Keeps ts)

  ruleset steps =
      (keeps_rules, exchange-Keeps, effect_event-Keeps, insert_tx-Keeps, insert_block-Keeps)

  pub exec_events-Keeps : (es : List Event) → Keeps (Holds V) (exec_events es)
  unfolding exec_events
  exec_events-Keeps [] = Keeps-pure tt
  exec_events-Keeps (e ∷ es) =
      Keeps-bind _ _ (exchange-Keeps V)
        (λ _. Keeps-bind _ _ (effect_event-Keeps e) (λ _. exec_events-Keeps es))

  create_body-Keeps :
      (b : Block) (ts : List Transaction) (es : List Event) → Keeps (Holds V) (create_body b ts es)
  unfolding create_body
  create_body-Keeps b ts es = search (steps, exec_txs-Keeps, exec_events-Keeps) depth 9

  pub ignore_error-Keeps :
      (m : Exec (Unit {0})) → Keeps (Holds V) m → Keeps (Holds V) (ignore_error m)
  unfolding ignore_error
  ignore_error-Keeps m k = record { at = λ w h. k.at w h }

  pub create-Keeps :
      (b : Block) (ts : List Transaction) (es : List Event) → Keeps (Holds V) (create b ts es)
  unfolding create
  create-Keeps b ts es = record {
    at = λ w h.
        (Keeps-bind (with_rollback (create_body b ts es)) _
            (with_rollback-Keeps V _ (create_body-Keeps b ts es))
            (λ _. ignore_error-Keeps (commit w.store) (commit-Keeps V w.store h))).at
          w h;
  }

  pub effect_events-Keeps : (es : List Event) → Keeps (Holds V) (effect_events es)
  unfolding effect_events
  effect_events-Keeps [] = Keeps-pure tt
  effect_events-Keeps (e ∷ es) = Keeps-bind _ _ (effect_event-Keeps e) (λ _. effect_events-Keeps es)

  pub bulk_txs-Keeps : (ts : List Transaction) → Keeps (Holds V) (bulk_txs ts)
  unfolding bulk_txs
  bulk_txs-Keeps [] = Keeps-pure tt
  bulk_txs-Keeps (t ∷ ts) = run_sql-Keeps V _ (insert_all-keeps V insert_tx stable.by_tx (t ∷ ts))

  pub bulk_events-Keeps : (es : List Event) → Keeps (Holds V) (bulk_events es)
  unfolding bulk_events
  bulk_events-Keeps [] = Keeps-pure tt
  bulk_events-Keeps (e ∷ es) =
      Keeps-bind exchange _ (exchange-Keeps V) (λ _. effect_events-Keeps (e ∷ es))

  pub bulk_blocks-Keeps : (bs : List Block) → Keeps (Holds V) (run_sql (insert_all insert_block bs))
  bulk_blocks-Keeps bs = run_sql-Keeps V _ (insert_all-keeps V insert_block stable.by_block bs)

  pub bulk_create-Keeps : (items : List BlockTxsEvents) → Keeps (Holds V) (bulk_create items)
  unfolding bulk_create bulk_body
  bulk_create-Keeps items =
      transact-Keeps V _
        (search (steps, bulk_blocks-Keeps, bulk_txs-Keeps, bulk_events-Keeps) depth 9)
