-- ===== src/Repository/Indexer/Succeeds.antt =====
-- `BulkCreate` succeeds: where every exchange to come succeeds and the tables accept each row.
use evm_indexer.Prelude.{
  ◌≡◌, refl, ap, ◌∙◌, subst, ◌⊎◌, inl, inr, ℕ, suc, List, [], ◌∷◌, ◌++◌, map, In, arith,
}
use evm_indexer.Domain.Errors.{Result, ok}
use evm_indexer.Domain.Models.{Block, Transaction, Event, BlockTxsEvents}
use evm_indexer.Store.{Store, insert_block, insert_tx, insert_event}
use evm_indexer.Exec.{World, Exec, exchange}
use evm_indexer.Exec.Keeps.{>>=_of_ok}
use evm_indexer.Exec.Returns.{Returns, Returns-pure, Returns-exchange, Returns-bind}
use evm_indexer.Repository.Indexer.{
  effect, effect_event, run_sql, commit, with_rollback, rolled_back, transact, insert_all,
  effect_events, flat_txs, flat_events, bulk_txs, bulk_events, bulk_body, bulk_create,
}

-- A statement that succeeds on the tables that satisfy `V`, and leaves them so.
abbrev pub Takes : (Store → Type 0) → (Store → Result Store) → Type 0
Takes V f = (s : Store) → V s → (s' : Store) × (f s ≡ ok s') × V s'

module _ {A : Type 0} where
  In-append : (x : A) (xs ys : List A) → In x (xs ++ ys) → In x xs ⊎ In x ys
  In-append x [] ys i = inr i
  In-append x (y ∷ xs) ys (inl p) = inl (inl p)
  In-append x (y ∷ xs) ys (inr p) = elim (In-append x xs ys p) [
    | inl q ↦ inl (inr q)
    | inr q ↦ inr q
  ]

module _ (items : List BlockTxsEvents) where
  abbrev From : (BlockTxsEvents → Type 0) → Type 0
  From P = (item : BlockTxsEvents) × In item items × P item

pub blocks-In :
    (b : Block) (items : List BlockTxsEvents)
    → In b (map (λ item. item.block) items)
    → From items (λ item. item.block ≡ b)
blocks-In b [] i = absurd i
blocks-In b (x ∷ xs) (inl p) = (x, inl refl, p)
blocks-In b (x ∷ xs) (inr p) = let (item, i, q) = blocks-In b xs p in (item, inr i, q)

pub flat_txs-In :
    (t : Transaction) (items : List BlockTxsEvents)
    → In t (flat_txs items)
    → From items (λ item. In t item.txs)
unfolding flat_txs
flat_txs-In t [] i = absurd i
flat_txs-In t (x ∷ xs) i = elim (In-append t x.txs (flat_txs xs) i) [
  | inl p ↦ (x, inl refl, p)
  | inr p ↦ let (item, j, q) = flat_txs-In t xs p in (item, inr j, q)
]

pub flat_events-In :
    (e : Event) (items : List BlockTxsEvents)
    → In e (flat_events items)
    → From items (λ item. In e item.events)
unfolding flat_events
flat_events-In e [] i = absurd i
flat_events-In e (x ∷ xs) i = elim (In-append e x.events (flat_events xs) i) [
  | inl p ↦ (x, inl refl, p)
  | inr p ↦ let (item, j, q) = flat_events-In e xs p in (item, inr j, q)
]

-- The tables accept every row of the item.
pub record Accepts (V : Store → Type 0) (item : BlockTxsEvents) : Type 0 where
  pub block : Takes V (insert_block item.block)
  pub tx : (t : Transaction) → In t item.txs → Takes V (insert_tx t)
  pub event : (e : Event) → In e item.events → (id : ℕ) → Takes V (insert_event id e)

module _ (V : Store → Type 0) where
  pub insert_all-Takes :
      {A : Type 0} (f : A → Store → Result Store) (xs : List A)
      → ((x : A) → In x xs → Takes V (f x))
      → Takes V (insert_all f xs)
  unfolding insert_all
  insert_all-Takes f [] k s v = (s, refl, v)
  insert_all-Takes f (x ∷ xs) k s v =
      let (t, p, u) = k x (inl refl) s v in
      let (s', q, z) = insert_all-Takes f xs (λ y i. k y (inr i)) t u in
      (s', rw (p, insert_all) q, z)

  effect-Returns : (f : Store → Result Store) → Takes V f → Returns V (effect f)
  unfolding effect
  effect-Returns f k = record {
    at = λ w g.
        let (s, p, v) = k w.store g.tables in
        record {
          value = tt;
          world = record w { store = s };
          returned = rw (p, effect) refl;
          good = record { succeeds = g.succeeds; tables = v };
        };
  }

  pub run_sql-Returns : (f : Store → Result Store) → Takes V f → Returns V (run_sql f)
  unfolding run_sql
  run_sql-Returns f k = Returns-bind exchange _ Returns-exchange (λ _. effect-Returns f k)

  effect_event-Returns :
      (e : Event) → ((id : ℕ) → Takes V (insert_event id e)) → Returns V (effect_event e)
  unfolding effect_event
  effect_event-Returns e k = record {
    at = λ w g.
        let (s, p, v) = k w.sequence w.store g.tables in
        record {
          value = tt;
          world = record w { store = s; sequence = suc w.sequence };
          returned = rw (p, effect_event) refl;
          good = record { succeeds = g.succeeds; tables = v };
        };
  }

  with_rollback-Returns : (body : Exec (Unit {0})) → Returns V body → Returns V (with_rollback body)
  unfolding with_rollback
  with_rollback-Returns body k = record {
    at = λ w g.
        let r = k.at w g in
        record {
          value = r.value;
          world = r.world;
          returned =
              ap (λ (p : Result (Unit {0}) × World). (p.0, rolled_back w.store p.0 p.1)) r.returned;
          good = r.good;
        };
  }

  commit-Returns : (before : Store) → Returns V (commit before)
  unfolding commit
  commit-Returns before = record {
    at = λ w g. record {
      value = tt;
      world = record w { faults = [] };
      returned = ground (arith, g.succeeds);
      good = record { succeeds = refl; tables = g.tables };
    };
  }

  transact-Returns : (body : Exec (Unit {0})) → Returns V body → Returns V (transact body)
  unfolding transact
  transact-Returns body k = record {
    at = λ w g.
        let first = (with_rollback-Returns body k).at w g in
        let last = (commit-Returns w.store).at first.world first.good in
        record {
          value = last.value;
          world = last.world;
          returned =
              >>=_of_ok (with_rollback body) (λ _. commit w.store) w first.returned ∙ last.returned;
          good = last.good;
        };
  }

  bulk_txs-Returns :
      (ts : List Transaction)
      → ((t : Transaction) → In t ts → Takes V (insert_tx t))
      → Returns V (bulk_txs ts)
  unfolding bulk_txs
  bulk_txs-Returns [] k = Returns-pure tt
  bulk_txs-Returns (t ∷ ts) k = run_sql-Returns _ (insert_all-Takes insert_tx (t ∷ ts) k)

  effect_events-Returns :
      (es : List Event)
      → ((e : Event) → In e es → (id : ℕ) → Takes V (insert_event id e))
      → Returns V (effect_events es)
  unfolding effect_events
  effect_events-Returns [] k = Returns-pure tt
  effect_events-Returns (e ∷ es) k =
      Returns-bind _ _ (effect_event-Returns e (k e (inl refl)))
        (λ _. effect_events-Returns es (λ x i. k x (inr i)))

  bulk_events-Returns :
      (es : List Event)
      → ((e : Event) → In e es → (id : ℕ) → Takes V (insert_event id e))
      → Returns V (bulk_events es)
  unfolding bulk_events
  bulk_events-Returns [] k = Returns-pure tt
  bulk_events-Returns (e ∷ es) k =
      Returns-bind exchange _ Returns-exchange (λ _. effect_events-Returns (e ∷ es) k)

  module _ (items : List BlockTxsEvents)
      (accepts : (item : BlockTxsEvents) → In item items → Accepts V item) where
    pub blocks-Takes : Takes V (insert_all insert_block (map (λ item. item.block) items))
    blocks-Takes = insert_all-Takes insert_block _ (λ b i.
        let (item, j, p) = blocks-In b items i in
        subst (λ x. Takes V (insert_block x)) p (accepts item j).block)

    pub txs-Takes : (t : Transaction) → In t (flat_txs items) → Takes V (insert_tx t)
    txs-Takes t i = let (item, j, p) = flat_txs-In t items i in (accepts item j).tx t p

    pub events-Takes :
        (e : Event) → In e (flat_events items) → (id : ℕ) → Takes V (insert_event id e)
    events-Takes e i = let (item, j, p) = flat_events-In e items i in (accepts item j).event e p

    pub bulk_create-Returns : Returns V (bulk_create items)
    unfolding bulk_create bulk_body
    bulk_create-Returns = transact-Returns _ (
        Returns-bind _ _ Returns-exchange (λ _.
          Returns-bind _ _ (run_sql-Returns _ blocks-Takes) (λ _.
            Returns-bind _ _ (bulk_txs-Returns _ txs-Takes)
              (λ _. bulk_events-Returns _ events-Takes))))
