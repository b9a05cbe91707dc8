-- ===== src/Tests/Tables.antt =====
-- The repository's theorems at concrete inputs.
use evm_indexer.Prelude.{◌≡◌, ◌⊎◌, List, [], ◌∷◌}
use evm_indexer.Store.Unique.{IsValid, empty-IsValid}
use evm_indexer.Exec.{World}
use evm_indexer.Repository.Indexer.{bulk_create, create, delete}
use evm_indexer.Repository.Indexer.Integrity.{
  Call, bulk_creates, creates, deletes, run_calls, run_calls-IsValid,
}
use evm_indexer.Repository.Indexer.Atomic.{
  Filed, AllOrNothing, Everything, bulk_create-AllOrNothing, create-AllOrNothing,
}
use evm_indexer.Repository.Indexer.Deleted.{Removed, delete-AllOrNothing}
use evm_indexer.Tests.{item_at, block_at, tx_at, event_at, world}

abbrev calls : List Call
calls =
    bulk_creates (item_at 1 ∷ item_at 2 ∷ [])
    ∷ creates (block_at 2) (tx_at 3 ∷ []) []
    ∷ deletes 1
    ∷ []

run_calls-IsValid_example : IsValid (run_calls world calls).store
run_calls-IsValid_example = run_calls-IsValid world calls empty-IsValid

bulk_create-AllOrNothing_example :
    AllOrNothing
      (Everything (item_at 1 ∷ item_at 2 ∷ []) world.store)
      world.store
      (bulk_create (item_at 1 ∷ item_at 2 ∷ []) world)
bulk_create-AllOrNothing_example = bulk_create-AllOrNothing (item_at 1 ∷ item_at 2 ∷ []) world

create-AllOrNothing_example :
    AllOrNothing
      (λ s. Filed (λ x. x ≡ item_at 1) (item_at 1) world.store s ⊎ (s ≡ world.store))
      world.store
      (create (block_at 1) (tx_at 1 ∷ []) (event_at 1 ∷ []) world)
create-AllOrNothing_example = create-AllOrNothing (item_at 1) world

abbrev stored : World
stored = (bulk_create (item_at 1 ∷ item_at 2 ∷ []) world).1

delete-AllOrNothing_example : AllOrNothing (Removed 1 stored.store) stored.store (delete 1 stored)
delete-AllOrNothing_example = delete-AllOrNothing 1 stored
