-- ===== src/Handlers/Graphql.antt =====
-- internal/handlers/graphql/graph: the resolvers, and the loaders that answer one query for many
-- blocks or transactions. What gqlgen and dataloader do around them is not in src/: they call a
-- resolver with the decoded arguments, and a loader with a list of keys.
pub mod Loads
pub mod Groups
pub mod EventLoads
pub mod Fields
pub mod Router
use evm_indexer.Prelude.{
  ℕ, ◌+◌, Str, Bool, true, false, not, ◌&&◌, ◌||◌, Option, none, some, List, [], ◌∷◌, map, length,
  replicate, if◌then◌else◌,
}
use evm_indexer.Domain.Errors.{Error, Result, ok, err, invalid_params, panic, ◌>>=◌}
use evm_indexer.Domain.Models.{Block, Transaction, Event, BlockTxs, TransactionFilter, EventFilter}
use evm_indexer.Exec.{World, Exec, pure, raise, lift}
use evm_indexer.Exec as Exec
use evm_indexer.Services.Query.{
  QueryRepository, TxGroups, EventGroups, txs_at, events_at, get_block_by_id,
  get_blocks_with_offset, get_blocks_by_range_time, get_transactions_by_batch_blocks_id,
  get_events_by_batch_txs_hash, get_transactions_by_filter, get_events_by_filter,
}

-- the types of dto, without the fields that have resolvers of their own
pub record DtoBlock : Type 0 where
  pub id : ℕ
  pub hash : Str
  pub parent_hash : Str
  pub gas_limit : ℕ
  pub gas_used : ℕ
  pub miner : Str
  pub timestamp : ℕ

pub record DtoTransaction : Type 0 where
  pub hash : Str
  pub from : Str
  pub to : Option Str
  pub gas_used : ℕ

pub record DtoEvent : Type 0 where
  pub log_index : ℕ
  pub emitter : Str
  pub datas : Str
  pub topics : List Str

pub record BlockFilter : Type 0 where
  pub id : Option ℕ
  pub from_time : Option ℕ
  pub to_time : Option ℕ
  pub from_id : Option ℕ
  pub offset : Option ℕ

pub record DtoTransactionFilter : Type 0 where
  pub to : Option Str
  pub from : Option Str

-- a nil pointer among the topics is `none`
pub record DtoEventFilter : Type 0 where
  pub emitter : Option Str
  pub topics : List (Option Str)

unfoldable pub to_block_dto : BlockTxs → DtoBlock
to_block_dto b = record {
  id = b.block.id;
  hash = b.block.hash;
  parent_hash = b.block.parent_hash;
  gas_limit = b.block.gas_limit;
  gas_used = b.block.gas_used;
  miner = b.block.miner;
  timestamp = b.block.timestamp;
}

unfoldable pub to_transaction_dto : Transaction → DtoTransaction
to_transaction_dto t = record { hash = t.hash; from = t.from; to = t.to; gas_used = t.gas_used }

unfoldable pub to_event_dto : Event → DtoEvent
to_event_dto e = record {
  log_index = e.log_index;
  emitter = e.emitter;
  datas = e.datas;
  topics = e.topics;
}

-- `handleError`: the same error for each of the keys
unfoldable pub handle_error {ℓ} : {A : Type ℓ} → ℕ → Error → List (Result A)
handle_error n e = replicate n (err e)

-- the loops over the keys
unfoldable pub txs_per_block : TxGroups → List ℕ → List (Result (List DtoTransaction))
txs_per_block m [] = []
txs_per_block m (id ∷ ids) = ok (map to_transaction_dto (txs_at id m)) ∷ txs_per_block m ids

unfoldable pub events_per_tx : EventGroups → List Str → List (Result (List DtoEvent))
events_per_tx m [] = []
events_per_tx m (h ∷ hashes) = ok (map to_event_dto (events_at h m)) ∷ events_per_tx m hashes

abbrev pub per_block_or_error : List ℕ → Result TxGroups → List (Result (List DtoTransaction))
per_block_or_error ids (ok m) = txs_per_block m ids
per_block_or_error ids (err e) = handle_error (length ids) e

abbrev pub per_tx_or_error : List Str → Result EventGroups → List (Result (List DtoEvent))
per_tx_or_error hashes (ok m) = events_per_tx m hashes
per_tx_or_error hashes (err e) = handle_error (length hashes) e

abbrev pub is_given {ℓ} : {A : Type ℓ} → Option A → Bool
is_given none = false
is_given (some a) = true

-- `*topic`, which panics on nil
unfoldable pub all_topics : List (Option Str) → Result (List Str)
all_topics [] = ok []
all_topics (none ∷ topics) = err panic
all_topics (some t ∷ topics) = let rest = all_topics topics in do others ← rest; ok (t ∷ others)

abbrev pub has_range_time : BlockFilter → Bool
has_range_time f = is_given f.from_time && is_given f.to_time

abbrev pub has_range_id : BlockFilter → Bool
has_range_id f = is_given f.from_id && is_given f.offset

-- the test of `Blocks` on its arguments
unfoldable pub check_groups : BlockFilter → Result (Unit {0})
check_groups f =
    if ((is_given f.id && has_range_time f) || (is_given f.id && has_range_id f))
      || (has_range_id f && has_range_time f)
    then err invalid_params
    else if not (is_given f.id) && (not (has_range_id f) && not (has_range_time f))
    then err invalid_params
    else ok tt

module _ (repo : QueryRepository) where
  unfoldable pub get_batch_transactions :
      List ℕ → World → List (Result (List DtoTransaction)) × World
  unfolding txs_per_block handle_error
  get_batch_transactions ids w =
      let (r, w') = get_transactions_by_batch_blocks_id repo ids true w in
      (per_block_or_error ids r, w')

  unfoldable pub get_batch_events : List Str → World → List (Result (List DtoEvent)) × World
  unfolding events_per_tx handle_error
  get_batch_events hashes w =
      let (r, w') = get_events_by_batch_txs_hash repo hashes w in (per_tx_or_error hashes r, w')

  module _ (offset_max range_max_time : ℕ) where
    abbrev pub or_nothing {ℓ} :
        {A : Type ℓ} → Option A → (A → Exec (List BlockTxs)) → Exec (List BlockTxs)
    or_nothing none f = pure []
    or_nothing (some a) f = f a

    -- the calls of the service, once the arguments are one group
    abbrev pub blocks_by : BlockFilter → Exec (List BlockTxs)
    blocks_by f = elim f.id [
      | some id ↦ Exec.◌>>=◌ (get_block_by_id repo id false) (λ b. pure (b ∷ []))
      | none ↦
          if has_range_time f
          then or_nothing f.from_time (λ from.
            or_nothing f.to_time (λ to. get_blocks_by_range_time repo range_max_time from to false))
          else or_nothing f.from_id (λ from.
            or_nothing f.offset
              (λ offset. get_blocks_with_offset repo offset_max from offset false))
    ]

    -- `Blocks`; a filter that is nil is a panic
    unfoldable pub resolve_blocks : Option BlockFilter → Exec (List DtoBlock)
    unfolding check_groups to_block_dto
    resolve_blocks none = raise panic
    resolve_blocks (some f) =
        Exec.◌>>=◌ (lift (check_groups f))
          (λ _. Exec.◌>>=◌ (blocks_by f) (λ blocks. pure (map to_block_dto blocks)))

    -- `Transactions` of a query
    unfoldable pub resolve_transactions : Option DtoTransactionFilter → Exec (List DtoTransaction)
    unfolding to_transaction_dto
    resolve_transactions none = raise panic
    resolve_transactions (some f) =
        Exec.◌>>=◌
          (get_transactions_by_filter repo offset_max (record {
            block_id = none;
            hash = none;
            from = f.from;
            to = f.to;
            from_block = none;
            to_block = none;
            limit = none;
          }))
          (λ txs. pure (map to_transaction_dto txs))

    -- `Events` of a query
    unfoldable pub resolve_events : Option DtoEventFilter → Exec (List DtoEvent)
    unfolding all_topics to_event_dto
    resolve_events none = raise panic
    resolve_events (some f) = Exec.◌>>=◌ (lift (all_topics f.topics)) (λ topics.
        Exec.◌>>=◌
          (get_events_by_filter repo offset_max (record {
            tx_hash = none;
            emitter = f.emitter;
            topics = topics;
            from_block = none;
            to_block = none;
            limit = none;
          }))
          (λ events. pure (map to_event_dto events)))
