-- ===== src/Fetcher.antt =====
-- internal/fetcher: one block from the node, tried again where that may help. The RPC client, the
-- rate limiter, the hex texts of go-ethereum and the retry loop of backoff are parameters.
pub mod Hex
pub mod Attempts
pub mod Items
pub mod Heads
use evm_indexer.Prelude.{
  ℕ, ◌+◌, ◌-◌, ◌%◌, ◌^◌, Str, Bool, true, false, ◌&&◌, Option, none, some, List, [], ◌∷◌, ◌++◌, map,
  replicate, leb, if◌then◌else◌,
}
use evm_indexer.Prelude.Int.{ℤ, pos, negsuc}
use evm_indexer.Domain.Errors.{Error, Result, ok, err, panic, ◌>>=◌}
use evm_indexer.Domain.Models.{Block, Transaction, Event, BlockTxsEvents}
use evm_indexer.Fetcher.Hex.{id_hex}
use evm_indexer.Fetcher.Attempts.{Attempt, success, again, permanent, crash, Retry}

-- `common.Hash.Hex`, `common.Address.Hex` and `hexutil.Encode`, on bytes
pub record Hexes : Type 0 where
  pub hash_hex : Str → Str
  pub address_hex : Str → Str
  pub encode : Str → Str

pub record RpcTransaction : Type 0 where
  pub hash : Str
  pub from : Str
  pub to : Option Str
  pub gas_used : ℕ

pub record RpcBlock : Type 0 where
  pub hash : Str
  pub number : ℕ
  pub parent_hash : Str
  pub timestamp : ℕ
  pub gas_limit : ℕ
  pub gas_used : ℕ
  pub miner : Str
  pub transactions : List RpcTransaction

-- `types.Log`
pub record RpcLog : Type 0 where
  pub block_number : ℕ
  pub tx_hash : Str
  pub index : ℕ
  pub address : Str
  pub datas : Str
  pub topics : List Str

-- `types.Receipt`; a nil pointer is `none`
pub record Receipt : Type 0 where
  pub block_number : Option ℕ
  pub cumulative_gas_used : ℕ
  pub status : ℕ
  pub logs : List (Option RpcLog)

-- `new(RPCBlock)`, which JSON's null leaves as it is
abbrev pub zero_body : RpcBlock
zero_body = record {
  hash = replicate 32 0;
  number = 0;
  parent_hash = replicate 32 0;
  timestamp = 0;
  gas_limit = 0;
  gas_used = 0;
  miner = replicate 20 0;
  transactions = [];
}

abbrev pub body_of : Option RpcBlock → RpcBlock
body_of none = zero_body
body_of (some body) = body

-- What a batch comes back with: the results of its two calls, each a value or an error.
pub record Reply : Type 0 where
  pub block : Result (Option RpcBlock)
  pub receipts : Result (List (Option Receipt))

-- One attempt, as the outside answers it.
pub record Answer : Type 0 where
  pub limiter : Result (Unit {0})
  pub batch : Result Reply

module _ (hexes : Hexes) where
  unfoldable pub extract_topics : List Str → List Str
  extract_topics topics = map hexes.hash_hex topics

  unfoldable pub extract_event : RpcLog → Event
  unfolding extract_topics
  extract_event log = record {
    block_id = log.block_number;
    tx_hash = hexes.hash_hex log.tx_hash;
    log_index = log.index;
    emitter = hexes.address_hex log.address;
    datas = hexes.encode log.datas;
    topics = extract_topics log.topics;
  }

  abbrev pub to_hex : Option Str → Option Str
  to_hex none = none
  to_hex (some to) = some (hexes.address_hex to)

  -- `receipt.BlockNumber.Uint64()` takes the low 64 bits
  abbrev pub transaction_in : ℕ → RpcTransaction → Receipt → Transaction
  transaction_in block_number tx receipt = record {
    block_id = block_number % 2 ^ 64;
    hash = hexes.hash_hex tx.hash;
    from = hexes.address_hex tx.from;
    to = to_hex tx.to;
    gas_used = receipt.cumulative_gas_used;
    status = receipt.status;
  }

  unfoldable pub extract_transaction : RpcTransaction → Receipt → Result Transaction
  extract_transaction tx receipt = elim receipt.block_number [
    | none ↦ err panic
    | some n ↦ ok (transaction_in n tx receipt)
  ]

  unfoldable pub extract_block : RpcBlock → Block
  extract_block body = record {
    hash = hexes.hash_hex body.hash;
    id = body.number;
    parent_hash = hexes.hash_hex body.parent_hash;
    gas_limit = body.gas_limit;
    gas_used = body.gas_used;
    miner = hexes.address_hex body.miner;
    timestamp = body.timestamp;
  }

  -- `txs[i] = extractTransaction(tx, *receipts[i])`
  unfoldable pub extract_txs :
      List RpcTransaction → List (Option Receipt) → Result (List Transaction)
  unfolding extract_transaction
  extract_txs [] receipts = ok []
  extract_txs (tx ∷ txs) [] = err panic
  extract_txs (tx ∷ txs) (none ∷ receipts) = err panic
  extract_txs (tx ∷ txs) (some receipt ∷ receipts) =
      let rest = extract_txs txs receipts in
      do first ← extract_transaction tx receipt; others ← rest; ok (first ∷ others)

  unfoldable pub extract_logs : List (Option RpcLog) → Result (List Event)
  unfolding extract_event
  extract_logs [] = ok []
  extract_logs (none ∷ logs) = err panic
  extract_logs (some log ∷ logs) =
      let rest = extract_logs logs in do others ← rest; ok (extract_event log ∷ others)

  unfoldable pub extract_events : List (Option Receipt) → Result (List Event)
  unfolding extract_logs
  extract_events [] = ok []
  extract_events (none ∷ receipts) = err panic
  extract_events (some receipt ∷ receipts) =
      let rest = extract_events receipts in
      do first ← extract_logs receipt.logs; others ← rest; ok (first ++ others)

  -- what follows the batch, where none of its calls failed
  unfoldable pub assemble : RpcBlock → List (Option Receipt) → Result BlockTxsEvents
  unfolding extract_txs extract_events extract_block
  assemble body receipts = do
    txs ← extract_txs body.transactions receipts
    events ← extract_events receipts
    ok (record { block = extract_block body; txs = txs; events = events })

  -- A panic is no error that is returned.
  abbrev pub or_crash : Result BlockTxsEvents → Attempt BlockTxsEvents
  or_crash (ok item) = success item
  or_crash (err e) = crash

  module _ (code_of : Error → Option ℤ) where
    -- -32602 to -32600; `code_of` is the code of an `rpc.Error`, where the error is one
    unfoldable pub is_permanent : Option ℤ → Bool
    is_permanent none = false
    is_permanent (some (pos n)) = false
    is_permanent (some (negsuc k)) = leb 32599 k && leb k 32601

    unfoldable pub wrap_retry_error {ℓ} : {A : Type ℓ} → Error → Attempt A
    unfolding is_permanent
    wrap_retry_error e = if is_permanent (code_of e) then permanent e else again e

    abbrev pub after_receipts : RpcBlock → Result (List (Option Receipt)) → Attempt BlockTxsEvents
    after_receipts body (err e) = wrap_retry_error e
    after_receipts body (ok receipts) = or_crash (assemble body receipts)

    abbrev pub after_block :
        Result (Option RpcBlock) → Result (List (Option Receipt)) → Attempt BlockTxsEvents
    after_block (err e) receipts = wrap_retry_error e
    after_block (ok body) receipts = after_receipts (body_of body) receipts

    abbrev pub after_batch : Result Reply → Attempt BlockTxsEvents
    after_batch (err e) = wrap_retry_error e
    after_batch (ok reply) = after_block reply.block reply.receipts

    abbrev pub after_limiter : Result (Unit {0}) → Result Reply → Attempt BlockTxsEvents
    after_limiter (err e) batch = permanent e
    after_limiter (ok _) batch = after_batch batch

    -- `fetchAll`; a priority fetch does not wait for the limiter
    unfoldable pub fetch_all : Bool → Answer → Attempt BlockTxsEvents
    unfolding wrap_retry_error assemble
    fetch_all priority answer =
        if priority then after_batch answer.batch else after_limiter answer.limiter answer.batch

    -- `FetchBlock` and `FetchBlockPriority`; `node` answers the text of the block's number, attempt
    -- by attempt
    unfoldable pub fetch_block :
        Retry BlockTxsEvents → (Str → ℕ → Answer) → Bool → ℕ → Result BlockTxsEvents
    unfolding fetch_all id_hex
    fetch_block retry node priority id = retry.run (λ i. fetch_all priority (node (id_hex id) i))

    abbrev pub block_number_attempt : Result ℕ → Attempt ℕ
    block_number_attempt (ok n) = success n
    block_number_attempt (err e) = wrap_retry_error e

    unfoldable pub get_last_block_id : Retry ℕ → (ℕ → Result ℕ) → Result ℕ
    unfolding wrap_retry_error
    get_last_block_id retry numbers = retry.run (λ i. block_number_attempt (numbers i))
