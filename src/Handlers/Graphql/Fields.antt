-- ===== src/Handlers/Graphql/Fields.antt =====
-- The fields of a block and of a transaction that have resolvers of their own, which go through the
-- loaders of a request. `Load` is dataloader's: it collects the keys that are asked for, calls the
-- batch function once, and hands each its answer.
use evm_indexer.Prelude.{
  ℕ, Str, ◌≡◌, ap, ◌∙◌, ◌⊎◌, inl, inr, true, some, List, map, length, get_elem?, get_elem?-map,
  length-map, In-get_elem?, In,
}
use evm_indexer.Domain.Errors.{Error, Result, ok, err}
use evm_indexer.Exec.{World}
use evm_indexer.Services.Query.{
  QueryRepository, get_transactions_by_batch_blocks_id, get_events_by_batch_txs_hash,
}
use evm_indexer.Services.Query.Sql.{sql}
use evm_indexer.Handlers.Graphql.{
  DtoBlock, DtoTransaction, DtoEvent, get_batch_transactions, get_batch_events,
}
use evm_indexer.Handlers.Graphql.Loads.{dtos_of, get_batch_transactions-answers}
use evm_indexer.Handlers.Graphql.EventLoads.{event_dtos_of, get_batch_events-answers}

-- a batch function of dataloader
abbrev pub Batch : Type 0 → Type 0 → Type 0
Batch K V = List K → World → List (Result V) × World

-- One answer for each key, as dataloader asks of a batch function.
abbrev pub AnswersEach : {K V : Type 0} → Batch K V → World → Type 0
AnswersEach {K} batch w = (keys : List K) → length (batch keys w).0 ≡ length keys

-- `Load(ctx, key)()`, the keys of the batch that the key came into, and its place among them.
pub record Loader (K V : Type 0) : Type 0 where
  pub load : Batch K V → K → World → Result V × World
  pub keys : K → World → List K
  pub place : K → World → ℕ
  pub asked : (k : K) (w : World) → get_elem? (keys k w) (place k w) ≡ some k
  pub handed :
      (batch : Batch K V) (k : K) (w : World)
      → AnswersEach batch w
      → get_elem? (batch (keys k w) w).0 (place k w) ≡ some (load batch k w).0

pub record Loaders : Type 0 where
  pub transactions_by_block : Loader ℕ (List DtoTransaction)
  pub events_by_transaction : Loader Str (List DtoEvent)

module _ (repo : QueryRepository) (loaders : Loaders) where
  unfoldable pub get_transaction : ℕ → World → Result (List DtoTransaction) × World
  get_transaction id = loaders.transactions_by_block.load (get_batch_transactions repo) id

  unfoldable pub get_event : Str → World → Result (List DtoEvent) × World
  get_event hash = loaders.events_by_transaction.load (get_batch_events repo) hash

  -- `Transactions` of a block
  unfoldable pub block_transactions : DtoBlock → World → Result (List DtoTransaction) × World
  unfolding get_transaction
  block_transactions obj = get_transaction obj.id

  -- `Events` of a transaction
  unfoldable pub transaction_events : DtoTransaction → World → Result (List DtoEvent) × World
  unfolding get_event
  transaction_events obj = get_event obj.hash

-- What a batch answers: each key's value, or one error for all.
abbrev Batched : {K V : Type 0} → (K → V) → (List K → Error → Type 0) → Batch K V → World → Type 0
Batched {K} value Failed batch w =
    (keys : List K)
    → ((batch keys w).0 ≡ map (λ k. ok (value k)) keys)
      ⊎ ((e : Error) × Failed keys e × ((batch keys w).0 ≡ map (λ k. err e) keys))

-- The value of a key, or the error of the call of the service for keys with this among them.
abbrev pub Loaded : {K V : Type 0} → (K → V) → (List K → Error → Type 0) → K → Result V → Type 0
Loaded {K} value Failed k r =
    (r ≡ ok (value k)) ⊎ ((keys : List K) × (e : Error) × In k keys × Failed keys e × (r ≡ err e))

module _ {K V : Type 0} (value : K → V) (Failed : List K → Error → Type 0) (batch : Batch K V)
    (w : World) (batched : Batched value Failed batch w) where
  answers_each : AnswersEach batch w
  answers_each keys = elim (batched keys) [
    | inl p ↦ ap length p ∙ length-map (λ k. ok (value k)) keys
    | inr (e, f, p) ↦ ap length p ∙ length-map (λ k. err e) keys
  ]

  load-Loaded : (l : Loader K V) (k : K) → Loaded value Failed k (l.load batch k w).0
  load-Loaded l k =
      let keys = l.keys k w in
      let i = l.place k w in
      let own = l.handed batch k w answers_each in
      elim (batched (l.keys k w)) [
        | inl p ↦
            let q = get_elem?-map (λ k. ok (value k)) keys i k (l.asked k w) in
            inl (cc (own, ap (λ rs. get_elem? rs i) p, q))
        | inr (e, f, p) ↦
            let q = get_elem?-map {B = Result V} (λ k. err e) keys i k (l.asked k w) in
            inr (
              keys,
              e,
              In-get_elem? keys i k (l.asked k w),
              f,
              cc (own, ap (λ rs. get_elem? rs i) p, q),
            )
      ]

-- With dataloader's loaders, the field `transactions` of a block answers exactly the transactions
-- that the tables hold for its id; or the error with which the service's one call failed, for a list
-- of ids with this one among them.
pub block_transactions-answer :
    (loaders : Loaders) (obj : DtoBlock) (w : World)
    → Loaded
        (dtos_of w.store)
        (λ ids e. (get_transactions_by_batch_blocks_id sql ids true w).0 ≡ err e)
        obj.id
        (block_transactions sql loaders obj w).0
unfolding block_transactions
block_transactions-answer loaders obj w =
    load-Loaded (dtos_of w.store)
      (λ ids e. (get_transactions_by_batch_blocks_id sql ids true w).0 ≡ err e)
      (get_batch_transactions sql) w (λ ids. get_batch_transactions-answers ids w)
      loaders.transactions_by_block obj.id

-- With dataloader's loaders, the field `events` of a transaction answers exactly the events that
-- the tables hold for its hash; or the error with which the service's one call failed, for a list of
-- hashes with this one among them.
pub transaction_events-answer :
    (loaders : Loaders) (obj : DtoTransaction) (w : World)
    → Loaded
        (event_dtos_of w.store)
        (λ hashes e. (get_events_by_batch_txs_hash sql hashes w).0 ≡ err e)
        obj.hash
        (transaction_events sql loaders obj w).0
unfolding transaction_events
transaction_events-answer loaders obj w =
    load-Loaded (event_dtos_of w.store)
      (λ hashes e. (get_events_by_batch_txs_hash sql hashes w).0 ≡ err e) (get_batch_events sql) w
      (λ hashes. get_batch_events-answers hashes w) loaders.events_by_transaction obj.hash
