-- ===== src/Domain/Models.antt =====
-- internal/core/domain/models.go. A pointer field is an `Option`, `int` is ℤ, `uint64` is ℕ with
-- its wrap-around written out where the code computes with it, and a string is its bytes.
use evm_indexer.Prelude.{ℕ, Str, Option, List}
use evm_indexer.Prelude.Int.{ℤ}

pub record Reorg : Type 0 where
  pub block_id : ℕ

pub record Event : Type 0 where
  pub block_id : ℕ
  pub tx_hash : Str
  pub log_index : ℕ
  pub emitter : Str
  pub datas : Str
  pub topics : List Str

pub record Log : Type 0 where
  pub id : ℕ
  pub block_id : ℕ
  pub emitter : Str
  pub datas : Str
  pub topics : List Str

pub record Block : Type 0 where
  pub hash : Str
  pub id : ℕ
  pub parent_hash : Str
  pub gas_limit : ℕ
  pub gas_used : ℕ
  pub miner : Str
  pub timestamp : ℕ

pub record Transaction : Type 0 where
  pub block_id : ℕ
  pub hash : Str
  pub from : Str
  pub to : Option Str
  pub gas_used : ℕ
  pub status : ℕ

pub record BlockTxsEvents : Type 0 where
  pub block : Block
  pub txs : List Transaction
  pub events : List Event

pub record BlockTxs : Type 0 where
  pub block : Block
  pub txs : List Transaction

pub record TransactionFilter : Type 0 where
  pub block_id : Option ℕ
  pub hash : Option Str
  pub from : Option Str
  pub to : Option Str
  pub from_block : Option ℕ
  pub to_block : Option ℕ
  pub limit : Option ℤ

pub record EventFilter : Type 0 where
  pub tx_hash : Option Str
  pub emitter : Option Str
  pub topics : List Str
  pub from_block : Option ℕ
  pub to_block : Option ℕ
  pub limit : Option ℤ

pub record LogFilter : Type 0 where
  pub topics : List Str
  pub from_block : ℕ
  pub to_block : ℕ

pub record BalanceEntry : Type 0 where
  pub wallet_address : Str
  pub token_address : Str
  pub token_id : Str
  pub amount : ℤ
