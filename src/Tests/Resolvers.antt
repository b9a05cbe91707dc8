-- ===== src/Tests/Resolvers.antt =====
-- Resolvers and loaders at concrete arguments.
use evm_indexer.Prelude.{true, ◌≡◌, refl, none, some, List, [], ◌∷◌, length, get_elem?, arith}
use evm_indexer.Domain.Errors.{Result, err, external}
use evm_indexer.Exec.{World}
use evm_indexer.Store.{empty, tx_row}
use evm_indexer.Services.Query.{get_transactions_by_batch_blocks_id}
use evm_indexer.Services.Query.Sql.{sql}
use evm_indexer.Handlers.Graphql.{BlockFilter, DtoBlock, to_block_dto, resolve_blocks}
use evm_indexer.Handlers.Graphql.Groups.{IsAnswered, resolve_blocks-IsAnswered}
use evm_indexer.Handlers.Graphql.Loads.{dtos_of}
use evm_indexer.Handlers.Graphql.Fields.{
  Loader, Loaders, Loaded, block_transactions, block_transactions-answer,
}
use evm_indexer.Tests.{block_at, tx_at, world}

abbrev loaded : World
loaded = record world {
  store = record empty {
    blocks = block_at 2 ∷ block_at 1 ∷ [];
    transactions = tx_row (tx_at 2) ∷ tx_row (tx_at 1) ∷ [];
  };
}

-- A loader that asks for each key at once.
abbrev first_answer : {V : Type 0} → List (Result V) → Result V
first_answer [] = err (external 0)
first_answer (r ∷ rs) = r

first_answer-handed :
    {V : Type 0} (rs : List (Result V)) → length rs ≡ 1 → get_elem? rs 0 ≡ some (first_answer rs)
first_answer-handed [] h = absurd (omega arith)
first_answer-handed (r ∷ rs) h = refl

abbrev at_once : {K V : Type 0} → Loader K V
at_once = record {
  load = λ batch k w. let (rs, w') = batch (k ∷ []) w in (first_answer rs, w');
  keys = λ k w. k ∷ [];
  place = λ k w. 0;
  asked = λ k w. refl;
  handed = λ batch k w each. first_answer-handed (batch (k ∷ []) w).0 (each (k ∷ []));
}

abbrev request_loaders : Loaders
request_loaders = record { transactions_by_block = at_once; events_by_transaction = at_once }

abbrev second : DtoBlock
second = to_block_dto (record { block = block_at 2; txs = [] })

block_transactions-answer_example :
    Loaded
      (dtos_of loaded.store)
      (λ ids e. (get_transactions_by_batch_blocks_id sql ids true loaded).0 ≡ err e)
      second.id
      (block_transactions sql request_loaders second loaded).0
block_transactions-answer_example = block_transactions-answer request_loaders second loaded

-- an id, and half of a range of time
abbrev by_two : BlockFilter
by_two = record { id = some 2; from_time = some 5; to_time = none; from_id = none; offset = none }

resolve_blocks-IsAnswered_example :
    IsAnswered sql 10 60 by_two loaded (resolve_blocks sql 10 60 (some by_two) loaded)
resolve_blocks-IsAnswered_example = resolve_blocks-IsAnswered sql 10 60 by_two loaded
