-- ===== src/Tests/Fetches.antt =====
-- A retry loop that keeps the laws, and fetches from concrete nodes.
use evm_indexer.Prelude.{
  ◌=ₛ◌, ℕ, zero, suc, ◌≤◌, ◌<◌, ◌≡◌, refl, subst, ◌⊎◌, inl, inr, Str, str, false, Option, none,
  some, List, [], ◌∷◌, arith,
}
use native.Mathlib.Decide.{dec_lt}
use evm_indexer.Prelude.Int.{ℤ}
use evm_indexer.Domain.Errors.{Error, Result, ok, err, external, panic}
use evm_indexer.Domain.Models.{BlockTxsEvents}
use evm_indexer.Fetcher.Hex.{id_hex, read_quantity, read_quantity-id_hex}
use evm_indexer.Fetcher.Attempts.{Attempt, success, again, permanent, crash, Retry, IsRetry}
use evm_indexer.Fetcher.{
  Hexes, RpcBlock, RpcTransaction, RpcLog, Receipt, zero_body, body_of, Answer, extract_block,
  extract_txs, extract_transaction, extract_logs, extract_event, extract_events, assemble,
  wrap_retry_error, is_permanent, fetch_all, fetch_block,
}
use evm_indexer.Fetcher.Items.{IsItem, fetch_block-IsItem}
use evm_indexer.Domain.Models.{Block}
use evm_indexer.Store.{
  Store, empty, insert_block, block_fits, delete_blocks, delete_events, delete_transactions,
}
use evm_indexer.Exec.{World, ◌>>=◌, exchange}
use evm_indexer.Repository.Indexer.{
  get_block_by_id, find_block, delete, transact, with_rollback, delete_body, at_int, run_sql,
  commit, create, create_body, effect, exec_events, exec_txs, ignore_error,
}
use evm_indexer.Services.Forwardfill.{
  existing_block, handle_item, handle_head, publish, publish_events, publish_item, publish_txs,
  replace_rival,
}
use evm_indexer.Services.Forwardfill.Behind.{fetch_priority}
use evm_indexer.Tests.{block_at, world}

module _ {A : Type 0} where
  abbrev or_next : Attempt A → Result A → Result A
  or_next (success a) next = ok a
  or_next (again e) next = next
  or_next (permanent e) next = err e
  or_next crash next = err panic

  -- At most so many attempts, from the `i`-th on.
  abbrev tries : ℕ → ℕ → (ℕ → Attempt A) → Result A
  tries zero i attempts = err (external 0)
  tries (suc n) i attempts = or_next (attempts i) (tries n (suc i) attempts)

  Attempt-cases :
      (x : Attempt A)
      → ((a : A) × (x ≡ success a))
        ⊎ ((e : Error) × (x ≡ again e))
        ⊎ ((next : Result A) → (e : Error) × (or_next x next ≡ err e))
  Attempt-cases (success a) = inl (a, refl)
  Attempt-cases (again e) = inr (inl (e, refl))
  Attempt-cases (permanent e) = inr (inr (λ next. (e, refl)))
  Attempt-cases crash = inr (inr (λ next. (panic, refl)))

  abbrev FirstFrom : ℕ → (ℕ → Attempt A) → A → Type 0
  FirstFrom i attempts a =
      (k : ℕ) × (attempts k ≡ success a)
      × ((j : ℕ) → i ≤ j → j < k → (e : Error) × (attempts j ≡ again e))

  tries-FirstFrom :
      (n i : ℕ) (attempts : ℕ → Attempt A) (a : A)
      → tries n i attempts ≡ ok a
      → FirstFrom i attempts a
  tries-FirstFrom zero i attempts a h = absurd (ground arith)
  tries-FirstFrom (suc n) i attempts a h = elim (Attempt-cases (attempts i)) [
    | inl (x, p) ↦ (i, ground arith, λ j l k. absurd (omega arith))
    | inr (inl (e, p)) ↦
        let (k, q, r) = tries-FirstFrom n (suc i) attempts a (ground arith) in
        (
          k,
          q,
          λ j l below. elim (dec_lt i j) [
            | yes after ↦ r j (omega arith) below
            | no here ↦
                let same : i ≡ j = omega arith in (e, subst (λ m. attempts m ≡ again e) same p)
          ],
        )
    | inr (inr stops) ↦ absurd (let (e, p) = stops (tries n (suc i) attempts) in ground arith)
  ]

abbrev ten_tries : {A : Type 0} → Retry A
ten_tries = record { run = tries 10 0 }

ten_tries-IsRetry : {A : Type 0} → IsRetry {A = A} ten_tries
ten_tries-IsRetry = record {
  value_of = λ attempts a h.
      let (i, p, r) = tries-FirstFrom 10 0 attempts a h in
      (i, p, λ j below. r j (omega arith) below);
  permanent_stops = λ attempts e p. rw p refl;
  first_answers = λ attempts a p. rw p refl;
}

abbrev hexes : Hexes
hexes = record { hash_hex = λ s. s; address_hex = λ s. s; encode = λ s. s }

abbrev tx : RpcTransaction
tx = record { hash = str "h"; from = str "f"; to = none; gas_used = 0 }

abbrev log : RpcLog
log = record {
  block_number = 5;
  tx_hash = str "h";
  index = 0;
  address = str "e";
  datas = [];
  topics = [];
}

abbrev receipt : Receipt
receipt = record {
  block_number = some 5;
  cumulative_gas_used = 21;
  status = 1;
  logs = some log ∷ [];
}

abbrev body : RpcBlock
body = record zero_body { number = 5; transactions = tx ∷ [] }

-- a time-out, and then the block
abbrev slow_node : Str → ℕ → Answer
slow_node id zero = record { limiter = ok tt; batch = err (external 7) }
slow_node id (suc i) = record {
  limiter = ok tt;
  batch = ok (record { block = ok (some body); receipts = ok (some receipt ∷ []) });
}

abbrev no_code : Error → Option ℤ
no_code e = none

abbrev fetched : BlockTxsEvents
fetched = record {
  block = record {
    hash = body.hash;
    id = 5;
    parent_hash = body.parent_hash;
    gas_limit = 0;
    gas_used = 0;
    miner = body.miner;
    timestamp = 0;
  };
  txs =
      record { block_id = 5; hash = str "h"; from = str "f"; to = none; gas_used = 21; status = 1 }
      ∷ [];
  events =
      record {
        block_id = 5;
        tx_hash = str "h";
        log_index = 0;
        emitter = str "e";
        datas = [];
        topics = [];
      }
      ∷ [];
}

slow_node_lem : fetch_block hexes no_code ten_tries slow_node false 5 ≡ ok fetched
unfolding fetch_block fetch_all wrap_retry_error is_permanent assemble extract_txs
    extract_transaction extract_events extract_logs extract_event extract_block
slow_node_lem = refl

fetch_block-IsItem_example :
    (i : ℕ) × (found : Option RpcBlock) × (receipts : List (Option Receipt)) × ((slow_node
        (id_hex 5)
        i).batch
      ≡ ok (record { block = ok found; receipts = ok receipts }))
    × IsItem hexes (body_of found) receipts fetched
    × ((j : ℕ)
        → j < i
        → (e : Error) × (fetch_all hexes no_code false (slow_node (id_hex 5) j) ≡ again e))
fetch_block-IsItem_example =
    fetch_block-IsItem hexes no_code ten_tries slow_node false 5 fetched ten_tries-IsRetry
      slow_node_lem

abbrev young_node : Str → ℕ → Answer
young_node id i = record {
  limiter = ok tt;
  batch = ok (record { block = ok none; receipts = ok [] });
}

read_quantity-id_hex_example : read_quantity (id_hex 4660) ≡ some 4660
read_quantity-id_hex_example = read_quantity-id_hex 4660

abbrev genesis : Block
genesis = record (block_at 0) { hash = str "0xgenesis" }

abbrev with_genesis : World
with_genesis = record world { store = record empty { blocks = genesis ∷ [] } }

-- the world after the announcement of block 99
abbrev without_genesis : World
without_genesis =
    (handle_head (fetch_priority hexes no_code ten_tries young_node) 99 with_genesis).1

returned :
    handle_head (fetch_priority hexes no_code ten_tries young_node) 99 with_genesis
    ≡ (ok tt, without_genesis)
unfolding handle_head handle_item fetch_block fetch_all assemble extract_txs extract_events
    extract_block ◌>>=◌ existing_block get_block_by_id exchange find_block ◌=ₛ◌ delete transact
    with_rollback delete_body at_int run_sql commit publish create create_body insert_block
    block_fits effect exec_events exec_txs ignore_error publish_events publish_item publish_txs
    replace_rival delete_blocks delete_events delete_transactions
returned = refl
