-- ===== src/Repository/Indexer/Committed.antt =====
-- `Create` and `BulkCreate`: all or nothing, and what an answer without error tells.
use evm_indexer.Prelude.{◌≡◌, subst, sym, ap, inl, inr, List, [], ◌∷◌, ◌++◌, map, In, arith}
use evm_indexer.Domain.Errors.{Result, ok, err}
use evm_indexer.Domain.Models.{Block, Transaction, Event, BlockTxsEvents}
use evm_indexer.Store.{Store, insert_block, insert_tx, insert_event}
use evm_indexer.Exec.{World, Exec, exchange}
use evm_indexer.Exec.Keeps.{Keeps-bind, Establishes, Establishes-first, Establishes-rest, >>=-eq-ok}
use evm_indexer.Repository.Indexer.{
  effect, effect_event, run_sql, commit, rolled_back, with_rollback, transact, insert_all,
  effect_events, flat_txs, flat_events, bulk_txs, bulk_events, bulk_body, bulk_create,
}
use evm_indexer.Repository.Indexer.Tables.{Holds}
use evm_indexer.Repository.Indexer.Writes.{effect_events-Keeps, bulk_txs-Keeps, bulk_events-Keeps}
use evm_indexer.Repository.Indexer.Stored.{
  HasBlock, HasTx, HasEvent, HasBlock-IsStable, HasTx-IsStable, HasEvent-IsStable,
  insert_block-HasBlock, insert_tx-HasTx, insert_event-HasEvent, insert_all-establishes, HasKeys,
}

-- A statement that returned has had its effect on the tables.
pub effect-eq-ok :
    (f : Store → Result Store) (w : World) (a : Unit {0}) (w' : World)
    → effect f w ≡ (ok a, w')
    → f w.store ≡ ok w'.store
unfolding effect
effect-eq-ok f w a w' h = ground arith

effect_event-eq-ok :
    (e : Event) (w : World) (a : Unit {0}) (w' : World)
    → effect_event e w ≡ (ok a, w')
    → insert_event w.sequence e w.store ≡ ok w'.store
unfolding effect_event
effect_event-eq-ok e w a w' h = ground arith

pub with_rollback-eq-ok :
    (m : Exec (Unit {0})) (w : World) (a : Unit {0}) (v : World)
    → with_rollback m w ≡ (ok a, v)
    → m w ≡ (ok a, v)
unfolding with_rollback
with_rollback-eq-ok m w a v h = go (m w) h
  where
    go :
        (p : Result (Unit {0}) × World)
        → ◌≡◌ {A = Result (Unit {0}) × World} (p.0, rolled_back w.store p.0 p.1) (ok a, v)
        → p ≡ (ok a, v)
    go (ok b, u) q = q
    go (err e, u) q = absurd (ground arith)

pub commit-eq-ok :
    (s : Store) (w : World) (a : Unit {0}) (w' : World)
    → commit s w ≡ (ok a, w')
    → w'.store ≡ w.store
unfolding commit
commit-eq-ok s w a w' h = ground arith

pub transact-eq-ok :
    (m : Exec (Unit {0})) (w : World) (a : Unit {0}) (w' : World)
    → transact m w ≡ (ok a, w')
    → (v : World) × (m w ≡ (ok tt, v)) × (w'.store ≡ v.store)
unfolding transact
transact-eq-ok m w a w' h =
    let (b, v, p, q) = >>=-eq-ok (with_rollback m) (λ _. commit w.store) w h in
    (v, with_rollback-eq-ok m w tt v p, commit-eq-ok w.store v a w' q)

pub run_sql-Establishes :
    (V : Store → Type 0) (f : Store → Result Store)
    → ((s s' : Store) → f s ≡ ok s' → V s')
    → Establishes (Holds V) (run_sql f)
unfolding run_sql
run_sql-Establishes V f k =
    Establishes-rest exchange _
      (λ _. record { at = λ w a w' h. k w.store w'.store (effect-eq-ok f w a w' h) })

pub effect_event-Establishes :
    (e : Event) → Establishes (Holds (HasEvent e.tx_hash e.log_index)) (effect_event e)
effect_event-Establishes e = record {
  at = λ w a w' h.
      insert_event-HasEvent w.sequence e w.store w'.store (effect_event-eq-ok e w a w' h);
}

effect_events-Establishes :
    (es : List Event) (e : Event)
    → In e es
    → Establishes (Holds (HasEvent e.tx_hash e.log_index)) (effect_events es)
unfolding effect_events
effect_events-Establishes [] e i = absurd i
effect_events-Establishes (x ∷ xs) e (inl here) =
    subst (λ z. Establishes (Holds (HasEvent z.tx_hash z.log_index)) (effect_events (x ∷ xs))) here
      (Establishes-first _ _ (effect_event-Establishes x)
        (λ _. effect_events-Keeps _ (HasEvent-IsStable x.tx_hash x.log_index) xs))
effect_events-Establishes (x ∷ xs) e (inr there) =
    Establishes-rest _ _ (λ _. effect_events-Establishes xs e there)

bulk_events-Establishes :
    (es : List Event) (e : Event)
    → In e es
    → Establishes (Holds (HasEvent e.tx_hash e.log_index)) (bulk_events es)
unfolding bulk_events
bulk_events-Establishes [] e i = absurd i
bulk_events-Establishes (x ∷ xs) e i =
    Establishes-rest exchange _ (λ _. effect_events-Establishes (x ∷ xs) e i)

bulk_txs-Establishes :
    (ts : List Transaction) (t : Transaction)
    → In t ts
    → Establishes (Holds (HasTx t.hash)) (bulk_txs ts)
unfolding bulk_txs
bulk_txs-Establishes [] t i = absurd i
bulk_txs-Establishes (x ∷ xs) t i = run_sql-Establishes (HasTx t.hash) _ (λ s s' h.
    insert_all-establishes (λ y. HasTx y.hash) insert_tx insert_tx-HasTx
      (λ y. (HasTx-IsStable y.hash).by_tx) (x ∷ xs) t s s' i h)

bulk_blocks-Establishes :
    (bs : List Block) (b : Block)
    → In b bs
    → Establishes (Holds (HasBlock b.hash)) (run_sql (insert_all insert_block bs))
bulk_blocks-Establishes bs b i = run_sql-Establishes (HasBlock b.hash) _ (λ s s' h.
    insert_all-establishes (λ y. HasBlock y.hash) insert_block insert_block-HasBlock
      (λ y. (HasBlock-IsStable y.hash).by_block) bs b s s' i h)

In-append_left : {A : Type 0} (x : A) (xs ys : List A) → In x xs → In x (xs ++ ys)
In-append_left x [] ys i = absurd i
In-append_left x (y ∷ xs) ys (inl p) = inl p
In-append_left x (y ∷ xs) ys (inr p) = inr (In-append_left x xs ys p)

In-append_right : {A : Type 0} (x : A) (xs ys : List A) → In x ys → In x (xs ++ ys)
In-append_right x [] ys i = i
In-append_right x (y ∷ xs) ys i = inr (In-append_right x xs ys i)

In-blocks :
    (item : BlockTxsEvents) (items : List BlockTxsEvents)
    → In item items
    → In item.block (map (λ x. x.block) items)
In-blocks item (x ∷ xs) (inl p) = inl (ap (λ y. y.block) p)
In-blocks item (x ∷ xs) (inr p) = inr (In-blocks item xs p)
In-blocks item [] i = absurd i

In-flat_txs :
    (item : BlockTxsEvents) (items : List BlockTxsEvents) (t : Transaction)
    → In item items
    → In t item.txs
    → In t (flat_txs items)
unfolding flat_txs
In-flat_txs item [] t i j = absurd i
In-flat_txs item (x ∷ xs) t (inl p) j = In-append_left t x.txs _ (subst (λ y. In t y.txs) (sym p) j)
In-flat_txs item (x ∷ xs) t (inr p) j = In-append_right t x.txs _ (In-flat_txs item xs t p j)

In-flat_events :
    (item : BlockTxsEvents) (items : List BlockTxsEvents) (e : Event)
    → In item items
    → In e item.events
    → In e (flat_events items)
unfolding flat_events
In-flat_events item [] e i j = absurd i
In-flat_events item (x ∷ xs) e (inl p) j =
    In-append_left e x.events _ (subst (λ y. In e y.events) (sym p) j)
In-flat_events item (x ∷ xs) e (inr p) j =
    In-append_right e x.events _ (In-flat_events item xs e p j)

module _ (items : List BlockTxsEvents) (item : BlockTxsEvents) (i : In item items) where
  bulk_body-HasBlock : Establishes (Holds (HasBlock item.block.hash)) (bulk_body items)
  unfolding bulk_body
  bulk_body-HasBlock =
      let k = HasBlock-IsStable item.block.hash in
      Establishes-rest _ _ (λ _.
        Establishes-first _ _ (bulk_blocks-Establishes _ item.block (In-blocks item items i)) (λ _.
          Keeps-bind _ _ (bulk_txs-Keeps _ k (flat_txs items))
            (λ _. bulk_events-Keeps _ k (flat_events items))))

  bulk_body-HasTx :
      (t : Transaction) → In t item.txs → Establishes (Holds (HasTx t.hash)) (bulk_body items)
  unfolding bulk_body
  bulk_body-HasTx t j = Establishes-rest _ _ (λ _. Establishes-rest _ _ (λ _.
      Establishes-first _ _ (bulk_txs-Establishes _ t (In-flat_txs item items t i j))
        (λ _. bulk_events-Keeps _ (HasTx-IsStable t.hash) (flat_events items))))

  bulk_body-HasEvent :
      (e : Event)
      → In e item.events
      → Establishes (Holds (HasEvent e.tx_hash e.log_index)) (bulk_body items)
  unfolding bulk_body
  bulk_body-HasEvent e j = Establishes-rest _ _ (λ _. Establishes-rest _ _ (λ _.
      Establishes-rest _ _ (λ _. bulk_events-Establishes _ e (In-flat_events item items e i j))))

  -- If `BulkCreate` returns no error, a row stands under each key of every item that it was given.
  pub bulk_create-HasKeys :
      (w w' : World) → bulk_create items w ≡ (ok tt, w') → HasKeys item w'.store
  unfolding bulk_create
  bulk_create-HasKeys w w' h =
      let (v, p, q) = transact-eq-ok (bulk_body items) w tt w' h in
      subst (HasKeys item) (sym q) (record {
        block = bulk_body-HasBlock.at w tt v p;
        txs = λ t j. (bulk_body-HasTx t j).at w tt v p;
        events = λ e j. (bulk_body-HasEvent e j).at w tt v p;
      })
