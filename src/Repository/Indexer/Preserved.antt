-- ===== src/Repository/Indexer/Preserved.antt =====
-- What the rows of the given items keep, `BulkCreate` keeps, wherever it stops.
use evm_indexer.Prelude.{◌≡◌, refl, sym, ◌∙◌, subst, inl, inr, ℕ, List, [], ◌∷◌, map, In, arith}
use evm_indexer.Domain.Errors.{Result, ok, Result-cases}
use evm_indexer.Domain.Models.{Block, Transaction, Event, BlockTxsEvents}
use evm_indexer.Store.{Store, insert_block, insert_tx, insert_event}
use evm_indexer.Exec.Keeps.{Keeps, Keeps-bind, Keeps-pure}
use evm_indexer.Repository.Indexer.{
  effect_event, insert_all, effect_events, flat_txs, flat_events, bulk_txs, bulk_events, bulk_body,
  bulk_create,
}
use evm_indexer.Repository.Indexer.Tables.{Holds, exchange-Keeps, run_sql-Keeps, transact-Keeps}
use evm_indexer.Repository.Indexer.Succeeds.{Takes, Accepts, blocks-In, flat_txs-In, flat_events-In}

-- A statement that leaves the tables satisfying `V`, where it succeeds.
abbrev pub Stays : (Store → Type 0) → (Store → Result Store) → Type 0
Stays V f = (s s' : Store) → V s → f s ≡ ok s' → V s'

-- The rows of the item keep `V`.
pub record Preserves (V : Store → Type 0) (item : BlockTxsEvents) : Type 0 where
  pub block : Stays V (insert_block item.block)
  pub tx : (t : Transaction) → In t item.txs → Stays V (insert_tx t)
  pub event : (e : Event) → In e item.events → (id : ℕ) → Stays V (insert_event id e)

module _ (V : Store → Type 0) where
  Takes-Stays : (f : Store → Result Store) → Takes V f → Stays V f
  Takes-Stays f k s s' v h =
      let (t, p, u) = k s v in let same : t ≡ s' = ground (arith, sym p ∙ h) in subst V same u

  pub Accepts-Preserves : (item : BlockTxsEvents) → Accepts V item → Preserves V item
  Accepts-Preserves item a = record {
    block = Takes-Stays _ a.block;
    tx = λ t i. Takes-Stays _ (a.tx t i);
    event = λ e i id. Takes-Stays _ (a.event e i id);
  }

  insert_all-Stays :
      {A : Type 0} (f : A → Store → Result Store) (xs : List A)
      → ((x : A) → In x xs → Stays V (f x))
      → Stays V (insert_all f xs)
  unfolding insert_all
  insert_all-Stays f [] k s s' v h = subst V (ground arith) v
  insert_all-Stays f (x ∷ xs) k s s' v h = elim (Result-cases (f x s)) [
    | inl (t, p) ↦
        insert_all-Stays f xs (λ y i. k y (inr i)) t s' (k x (inl refl) s t v p)
          (rw (p, insert_all) at h)
    | inr (e, p) ↦ absurd (ground arith)
  ]

  pub effect_event-Keeps :
      (e : Event) → ((id : ℕ) → Stays V (insert_event id e)) → Keeps (Holds V) (effect_event e)
  unfolding effect_event
  effect_event-Keeps e k = record {
    at = λ w h. elim (Result-cases (insert_event w.sequence e w.store)) [
      | inl (s, p) ↦ rw (p, effect_event) (k w.sequence w.store s h p)
      | inr (x, p) ↦ rw (p, effect_event) h
    ];
  }

  effect_events-Keeps :
      (es : List Event)
      → ((e : Event) → In e es → (id : ℕ) → Stays V (insert_event id e))
      → Keeps (Holds V) (effect_events es)
  unfolding effect_events
  effect_events-Keeps [] k = Keeps-pure tt
  effect_events-Keeps (e ∷ es) k =
      Keeps-bind _ _ (effect_event-Keeps e (k e (inl refl)))
        (λ _. effect_events-Keeps es (λ x i. k x (inr i)))

  bulk_txs-Keeps :
      (ts : List Transaction)
      → ((t : Transaction) → In t ts → Stays V (insert_tx t))
      → Keeps (Holds V) (bulk_txs ts)
  unfolding bulk_txs
  bulk_txs-Keeps [] k = Keeps-pure tt
  bulk_txs-Keeps (t ∷ ts) k = run_sql-Keeps V _ (insert_all-Stays insert_tx (t ∷ ts) k)

  bulk_events-Keeps :
      (es : List Event)
      → ((e : Event) → In e es → (id : ℕ) → Stays V (insert_event id e))
      → Keeps (Holds V) (bulk_events es)
  unfolding bulk_events
  bulk_events-Keeps [] k = Keeps-pure tt
  bulk_events-Keeps (e ∷ es) k =
      Keeps-bind _ _ (exchange-Keeps V) (λ _. effect_events-Keeps (e ∷ es) k)

  module _ (items : List BlockTxsEvents)
      (preserves : (item : BlockTxsEvents) → In item items → Preserves V item) where
    blocks-Stays : (b : Block) → In b (map (λ item. item.block) items) → Stays V (insert_block b)
    blocks-Stays b i =
        let (item, j, p) = blocks-In b items i in
        subst (λ x. Stays V (insert_block x)) p (preserves item j).block

    txs-Stays : (t : Transaction) → In t (flat_txs items) → Stays V (insert_tx t)
    txs-Stays t i = let (item, j, p) = flat_txs-In t items i in (preserves item j).tx t p

    events-Stays : (e : Event) → In e (flat_events items) → (id : ℕ) → Stays V (insert_event id e)
    events-Stays e i = let (item, j, p) = flat_events-In e items i in (preserves item j).event e p

    pub preserved-Keeps : Keeps (Holds V) (bulk_create items)
    unfolding bulk_create bulk_body
    preserved-Keeps = transact-Keeps V _ (
        Keeps-bind _ _ (exchange-Keeps V) (λ _.
          Keeps-bind _ _ (run_sql-Keeps V _ (insert_all-Stays insert_block _ blocks-Stays)) (λ _.
            Keeps-bind _ _ (bulk_txs-Keeps _ txs-Stays) (λ _. bulk_events-Keeps _ events-Stays))))
