-- ===== src/Exec.antt =====
-- What the indexer's methods act on: the tables, the sequence that numbers event rows, the
-- messages published to Redis, and what becomes of each exchange with the database or Redis.
-- A method that changes this and may fail is an action of `Exec`.
pub mod Keeps
pub mod Returns
use evm_indexer.Prelude.{ℕ, Str, Option, none, some, List, [], ◌∷◌}
use evm_indexer.Domain.Errors.{Error, Result, ok, err}
use evm_indexer.Domain.Models.{Reorg, Block, Transaction, Event}
use evm_indexer.Store.{Store, TxRow, EventRow}

-- `Publish`'s topic with the value whose JSON is the payload.
pub data Message : Type 0 where
  reorg : Reorg → Message
  block : Block → Message
  transaction : Transaction → Message
  event : Event → Message

-- The order in which the database gives the rows of a statement that asks for none.
pub record RowOrders : Type 0 where
  pub events : List EventRow → List EventRow
  pub transactions : List TxRow → List TxRow

pub record World : Type 0 where
  pub store : Store
  -- the next value of `events.id`; a rollback does not take numbers back
  pub sequence : ℕ
  -- newest first
  pub published : List Message
  -- the outcome of each exchange to come, `none` for success; past its end all succeed
  pub faults : List (Option Error)
  pub orders : RowOrders

abbrev pub Exec {ℓ} : Type ℓ → Type ℓ
Exec A = World → Result A × World

module _ {ℓ} {A : Type ℓ} where
  pub pure : A → Exec A
  pure a w = (ok a, w)

  pub raise : Error → Exec A
  raise e w = (err e, w)

  pub lift : Result A → Exec A
  lift r w = (r, w)

  pub gets : (World → A) → Exec A
  gets f w = (ok (f w), w)

module _ {ℓ} {A B : Type ℓ} where
  abbrev pub continue : Result A → (A → Exec B) → Exec B
  continue (ok a) f w = f a w
  continue (err e) f w = (err e, w)

  infixl 5 ◌>>=◌ ◌>>◌
  -- opening this opens `pure`, `raise`, `lift` and `gets` too
  unfoldable pub ◌>>=◌ : Exec A → (A → Exec B) → Exec B
  unfolding pure raise lift gets
  ◌>>=◌ m f w = let (r, w') = m w in continue r f w'

  abbrev pub ◌>>◌ : Exec A → Exec B → Exec B
  m >> n = m >>= λ _. n

abbrev pub outcome : List (Option Error) → Result (Unit {0})
outcome [] = ok tt
outcome (none ∷ _) = ok tt
outcome (some e ∷ _) = err e

abbrev pub later : List (Option Error) → List (Option Error)
later [] = []
later (_ ∷ rest) = rest

-- one exchange with the database or Redis
unfoldable pub exchange : Exec (Unit {0})
exchange w = (outcome w.faults, record w { faults = later w.faults })
