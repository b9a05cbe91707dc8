-- ===== src/Repository/Indexer/Stored.antt =====
-- What `Create` and `BulkCreate` leave in the tables when they return no error.
use evm_indexer.Prelude.{ℕ, Str, =ₛ_refl, ◌≡◌, subst, inl, inr, true, List, [], ◌∷◌, any, In, arith}
use evm_indexer.Domain.Errors.{Result, ok, Result-cases}
use evm_indexer.Domain.Models.{Block, Transaction, Event, BlockTxsEvents}
use evm_indexer.Store.{Store, same_hash, same_tx, same_event, insert_block, insert_tx, insert_event}
use evm_indexer.Repository.Indexer.{insert_all}
use evm_indexer.Repository.Indexer.Tables.{IsStable}
use evm_indexer.Repository.Indexer.Writes.{insert_all-keeps}

abbrev pub HasBlock : Str → Store → Type 0
HasBlock h s = any (same_hash h) s.blocks ≡ true

abbrev pub HasTx : Str → Store → Type 0
HasTx h s = any (same_tx h) s.transactions ≡ true

abbrev pub HasEvent : Str → ℕ → Store → Type 0
HasEvent h n s = any (same_event h n) s.events ≡ true

pub HasBlock-IsStable : (h : Str) → IsStable (HasBlock h)
unfolding insert_block insert_tx insert_event
HasBlock-IsStable h = record {
  by_block = λ b s s' v p. ground arith;
  by_tx = λ t s s' v p. ground arith;
  by_event = λ id e s s' v p. ground arith;
}

pub HasTx-IsStable : (h : Str) → IsStable (HasTx h)
unfolding insert_block insert_tx insert_event
HasTx-IsStable h = record {
  by_block = λ b s s' v p. ground arith;
  by_tx = λ t s s' v p. ground arith;
  by_event = λ id e s s' v p. ground arith;
}

pub HasEvent-IsStable : (h : Str) (n : ℕ) → IsStable (HasEvent h n)
unfolding insert_block insert_tx insert_event
HasEvent-IsStable h n = record {
  by_block = λ b s s' v p. ground arith;
  by_tx = λ t s s' v p. ground arith;
  by_event = λ id e s s' v p. ground arith;
}

pub insert_block-HasBlock :
    (b : Block) (s s' : Store) → insert_block b s ≡ ok s' → HasBlock b.hash s'
unfolding insert_block
insert_block-HasBlock b s s' h = ground (arith, =ₛ_refl b.hash)

pub insert_tx-HasTx : (t : Transaction) (s s' : Store) → insert_tx t s ≡ ok s' → HasTx t.hash s'
unfolding insert_tx
insert_tx-HasTx t s s' h = ground (arith, =ₛ_refl t.hash)

pub insert_event-HasEvent :
    (id : ℕ) (e : Event) (s s' : Store)
    → insert_event id e s ≡ ok s'
    → HasEvent e.tx_hash e.log_index s'
unfolding insert_event
insert_event-HasEvent id e s s' h = ground (arith, =ₛ_refl e.tx_hash)

-- A row stands under each key of the item: its block's hash, the hashes of its transactions, and its
-- events' transaction hashes with their log indexes.
pub record HasKeys (item : BlockTxsEvents) (s : Store) : Type 0 where
  pub block : HasBlock item.block.hash s
  pub txs : (t : Transaction) → In t item.txs → HasTx t.hash s
  pub events : (e : Event) → In e item.events → HasEvent e.tx_hash e.log_index s

pub HasKeys-IsStable : (item : BlockTxsEvents) → IsStable (HasKeys item)
HasKeys-IsStable item = record {
  by_block = λ b s s' v p. record {
    block = (HasBlock-IsStable item.block.hash).by_block b s s' v.block p;
    txs = λ t i. (HasTx-IsStable t.hash).by_block b s s' (v.txs t i) p;
    events = λ e i. (HasEvent-IsStable e.tx_hash e.log_index).by_block b s s' (v.events e i) p;
  };
  by_tx = λ x s s' v p. record {
    block = (HasBlock-IsStable item.block.hash).by_tx x s s' v.block p;
    txs = λ t i. (HasTx-IsStable t.hash).by_tx x s s' (v.txs t i) p;
    events = λ e i. (HasEvent-IsStable e.tx_hash e.log_index).by_tx x s s' (v.events e i) p;
  };
  by_event = λ id x s s' v p. record {
    block = (HasBlock-IsStable item.block.hash).by_event id x s s' v.block p;
    txs = λ t i. (HasTx-IsStable t.hash).by_event id x s s' (v.txs t i) p;
    events = λ e i. (HasEvent-IsStable e.tx_hash e.log_index).by_event id x s s' (v.events e i) p;
  };
}

-- An INSERT of many rows that is accepted has put in each of them.
pub insert_all-establishes :
    {A : Type 0} (V : A → Store → Type 0) (f : A → Store → Result Store)
    → ((x : A) (s s' : Store) → f x s ≡ ok s' → V x s')
    → ((y x : A) (s s' : Store) → V y s → f x s ≡ ok s' → V y s')
    → (xs : List A) (y : A) (s s' : Store) → In y xs
    → insert_all f xs s ≡ ok s'
    → V y s'
unfolding insert_all
insert_all-establishes V f put keep [] y s s' i h = absurd i
insert_all-establishes V f put keep (x ∷ xs) y s s' i h = elim (Result-cases (f x s)) [
  | inr (e, p) ↦ absurd (ground arith)
  | inl (t, p) ↦ elim i [
    | inl here ↦
        insert_all-keeps (V y) f (keep y) xs t s' (subst (λ z. V z t) here (put x s t p))
          (rw (p, insert_all) at h)
    | inr there ↦ insert_all-establishes V f put keep xs y t s' there (rw (p, insert_all) at h)
  ]
]
