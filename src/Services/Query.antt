-- ===== src/Services/Query.antt =====
-- internal/core/services/query.go. The repository is a parameter: the methods of
-- internal/core/ports/repositories.go.
pub mod Checks
pub mod Groups
pub mod Sql
pub mod Blocks
pub mod Filters
pub mod Found
pub mod Written
use evm_indexer.Prelude.{
  ℕ, ◌+◌, ◌-◌, ◌^◌, Str, ◌=ₛ◌, Bool, true, false, not, ◌&&◌, ◌||◌, Option, none, some, List, [],
  ◌∷◌, ◌++◌, map, ltb, leb, ◌==◌, if◌then◌else◌,
}
use evm_indexer.Prelude.Int.{ℤ, pos, negsuc, ltb_ℤ}
use evm_indexer.Domain.Errors.{
  Result, ok, err, invalid_id, invalid_offset, invalid_limit, invalid_block_range, empty_filter,
}
use evm_indexer.Domain.Models.{Block, Transaction, Event, BlockTxs, TransactionFilter, EventFilter}
use evm_indexer.Domain.Rules.{parse_hash, parse_address, parse_topics, validate_block_range}
use evm_indexer.Exec.{World, Exec, pure, raise, lift, ◌>>=◌, ◌>>◌}
use evm_indexer.Services.Backfill.{u64}
use evm_indexer.Services.Query.Checks.{check_event_filter, check_tx_filter, check_time_range}

pub record QueryRepository : Type 0 where
  pub get_block_by_hash : Str → Exec Block
  pub get_block_by_id : ℕ → Exec Block
  pub get_blocks_by_range_id : ℕ → ℕ → Exec (List Block)
  pub get_blocks_by_range_time : ℕ → ℕ → Exec (List Block)
  pub get_transactions_by_filter : TransactionFilter → Exec (List Transaction)
  pub get_transactions_by_batch_blocks_id : List ℕ → Exec (List Transaction)
  pub get_events_by_filter : EventFilter → Exec (List Event)
  pub get_event_by_tx_hash_log_index : Str → ℕ → Exec Event
  pub get_events_by_batch_txs_hash : List Str → Exec (List Event)

abbrev pub offset_default : ℕ
offset_default = 1000

-- a Go map from ids to the transactions appended under them
abbrev pub TxGroups : Type 0
TxGroups = List (ℕ × List Transaction)

-- `mTxs[id] = append(mTxs[id], tx)`
unfoldable pub append_tx : Transaction → TxGroups → TxGroups
append_tx t [] = (t.block_id, t ∷ []) ∷ []
append_tx t ((id, ts) ∷ m) =
    let rest = append_tx t m in
    if id == t.block_id then (id, ts ++ (t ∷ [])) ∷ m else (id, ts) ∷ rest

unfoldable pub group_txs : TxGroups → List Transaction → TxGroups
unfolding append_tx
group_txs m [] = m
group_txs m (t ∷ ts) = group_txs (append_tx t m) ts

-- `mTxs[id]`, which is nil where the key is missing
unfoldable pub txs_at : ℕ → TxGroups → List Transaction
txs_at id [] = []
txs_at id ((k, ts) ∷ m) = if k == id then ts else txs_at id m

abbrev pub EventGroups : Type 0
EventGroups = List (Str × List Event)

unfoldable pub append_event : Event → EventGroups → EventGroups
append_event e [] = (e.tx_hash, e ∷ []) ∷ []
append_event e ((h, es) ∷ m) =
    let rest = append_event e m in
    if h =ₛ e.tx_hash then (h, es ++ (e ∷ [])) ∷ m else (h, es) ∷ rest

unfoldable pub group_events : EventGroups → List Event → EventGroups
unfolding append_event
group_events m [] = m
group_events m (e ∷ es) = group_events (append_event e m) es

unfoldable pub events_at : Str → EventGroups → List Event
events_at h [] = []
events_at h ((k, es) ∷ m) = if k =ₛ h then es else events_at h m

unfoldable pub aggregate_blocks_id : List Block → List ℕ
aggregate_blocks_id blocks = map (λ b. b.id) blocks

-- the loop that puts each block together with its transactions
unfoldable pub attach_txs : TxGroups → List Block → List BlockTxs
unfolding txs_at
attach_txs m [] = []
attach_txs m (b ∷ bs) = (record { block = b; txs = txs_at b.id m }) ∷ attach_txs m bs

-- the filter of all transactions of one block, without a limit
unfoldable pub of_block : ℕ → TransactionFilter
of_block id = record {
  block_id = some id;
  hash = none;
  from = none;
  to = none;
  from_block = none;
  to_block = none;
  limit = none;
}

unfoldable pub or_default : Option ℤ → Option ℤ
or_default none = some (pos offset_default)
or_default (some n) = some n

module _ (repo : QueryRepository) where
  -- `if tx { ... }`
  unfoldable pub txs_of_block : Bool → Block → Exec (List Transaction)
  unfolding of_block
  txs_of_block true b = repo.get_transactions_by_filter (of_block b.id)
  txs_of_block false b = pure []

  unfoldable pub get_block_by_hash : Str → Bool → Exec BlockTxs
  unfolding txs_of_block
  get_block_by_hash hash tx = do
    lift (parse_hash hash)
    b ← repo.get_block_by_hash hash
    txs ← txs_of_block tx b
    pure (record { block = b; txs = txs })

  unfoldable pub get_block_by_id : ℕ → Bool → Exec BlockTxs
  unfolding txs_of_block
  get_block_by_id id tx = do
    lift (if id == 0 then err invalid_id else ok tt)
    b ← repo.get_block_by_id id
    txs ← txs_of_block tx b
    pure (record { block = b; txs = txs })

  unfoldable pub txs_of_blocks : Bool → List ℕ → Exec (List Transaction)
  txs_of_blocks true ids = repo.get_transactions_by_batch_blocks_id ids
  txs_of_blocks false ids = pure []

  unfoldable pub get_transactions_by_batch_blocks_id : List ℕ → Bool → Exec TxGroups
  unfolding txs_of_blocks group_txs
  get_transactions_by_batch_blocks_id ids tx = do
    txs ← txs_of_blocks tx ids
    pure (group_txs [] txs)

  -- what the two list methods do with the blocks that they have read
  unfoldable pub with_txs : Bool → List Block → Exec (List BlockTxs)
  unfolding attach_txs aggregate_blocks_id
  with_txs tx blocks = do
    groups ← get_transactions_by_batch_blocks_id (aggregate_blocks_id blocks) tx
    pure (attach_txs groups blocks)

  -- 0 stands for an offset that was not given
  unfoldable pub get_blocks_with_offset : ℕ → ℕ → ℕ → Bool → Exec (List BlockTxs)
  get_blocks_with_offset offset_max from offset tx = do
    lift (if ltb offset_max offset then err invalid_offset else ok tt)
    blocks ←
        repo.get_blocks_by_range_id from
          (u64 (from + (if offset == 0 then offset_default else offset)))
    with_txs tx blocks

  unfoldable pub get_blocks_by_range_time : ℕ → ℕ → ℕ → Bool → Exec (List BlockTxs)
  unfolding check_time_range
  get_blocks_by_range_time range_max_time from to tx = do
    lift (check_time_range range_max_time from to)
    blocks ← repo.get_blocks_by_range_time from to
    with_txs tx blocks

  unfoldable pub get_events_by_filter : ℕ → EventFilter → Exec (List Event)
  unfolding or_default
  get_events_by_filter offset_max f = do
    lift (check_event_filter offset_max f)
    repo.get_events_by_filter (record f { limit = or_default f.limit })

  -- `logIndex < 0`
  unfoldable pub get_event_by_tx_hash_log_index : Str → ℤ → Exec Event
  get_event_by_tx_hash_log_index hash (pos n) = do
    lift (parse_hash hash)
    repo.get_event_by_tx_hash_log_index hash n
  get_event_by_tx_hash_log_index hash (negsuc n) = do lift (parse_hash hash); raise invalid_id

  unfoldable pub get_events_by_batch_txs_hash : List Str → Exec EventGroups
  unfolding group_events
  get_events_by_batch_txs_hash hashes = do
    events ← repo.get_events_by_batch_txs_hash hashes
    pure (group_events [] events)

  unfoldable pub get_transactions_by_filter : ℕ → TransactionFilter → Exec (List Transaction)
  unfolding or_default
  get_transactions_by_filter offset_max f = do
    lift (check_tx_filter offset_max f)
    repo.get_transactions_by_filter (record f { limit = or_default f.limit })
