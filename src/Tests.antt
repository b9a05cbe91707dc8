-- ===== src/Tests.antt =====
-- The theorems at concrete inputs, and the data that they are run on.
mod Tables
mod Fills
mod Restarts
mod Streams
mod Feeds
mod Programs
mod Servers
mod Answers
mod Sockets
mod Runs
mod Fetches
mod Resolvers
mod Settings
mod Written
use evm_indexer.Prelude.{
  ℕ, zero, suc, ◌≤◌, ◌<◌, Str, str, Option, none, some, List, [], ◌∷◌, In, inl, inr, refl, arith,
}
use evm_indexer.Domain.Errors.{Result, ok, err}
use evm_indexer.Domain.Models.{Block, Transaction, Event, BlockTxsEvents}
use evm_indexer.Store.{empty}
use evm_indexer.Exec.{World, RowOrders}
use evm_indexer.Services.Backfill.{IsSchedule}
use evm_indexer.Services.Balancefill.{transfer}

abbrev block_at : ℕ → Block
block_at n = record {
  hash = n ∷ [];
  id = n;
  parent_hash = [];
  gas_limit = 9;
  gas_used = 5;
  miner = str "0xm";
  timestamp = 100;
}

abbrev tx_at : ℕ → Transaction
tx_at n = record {
  block_id = n;
  hash = n ∷ [];
  from = str "0xa";
  to = some (str "0xb");
  gas_used = 5;
  status = 1;
}

-- a Transfer of an ERC20 token
abbrev event_at : ℕ → Event
event_at n = record {
  block_id = n;
  tx_hash = n ∷ [];
  log_index = 0;
  emitter = str "0xt";
  datas = str "7";
  topics = transfer ∷ str "0xa" ∷ str "0xb" ∷ [];
}

abbrev item_at : ℕ → BlockTxsEvents
item_at n = record { block = block_at n; txs = tx_at n ∷ []; events = event_at n ∷ [] }

abbrev node : ℕ → Result BlockTxsEvents
node n = ok (item_at n)

abbrev as_stored : RowOrders
as_stored = record { events = λ rows. rows; transactions = λ rows. rows }

abbrev world : World
world = record { store = empty; sequence = 1; published = []; faults = []; orders = as_stored }

-- the slots of a batch, the last one first
abbrev down : ℕ → List ℕ
down zero = []
down (suc n) = n ∷ down n

abbrev backwards : ℕ → ℕ → List ℕ
backwards curr size = down size

down_bounded : (n i : ℕ) → In i (down n) → i < n
down_bounded zero i h = absurd h
down_bounded (suc n) i (inl p) = omega (arith, p)
down_bounded (suc n) i (inr h) = omega (arith, down_bounded n i h)

down_full : (n i : ℕ) → i < n → In i (down n)
down_full zero i h = absurd (omega arith)
down_full (suc n) i h = ground (arith, down_full n i)

backwards-IsSchedule : IsSchedule backwards
backwards-IsSchedule = record {
  in_range = λ curr size i h. down_bounded size i h;
  complete = λ curr size i h. down_full size i h;
}
