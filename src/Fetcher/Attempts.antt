-- ===== src/Fetcher/Attempts.antt =====
-- backoff.Retry, as far as the fetcher relies on it. The times it waits between attempts, and when it
-- gives up, are its own.
use evm_indexer.Prelude.{ℕ, ◌<◌, ◌≡◌}
use evm_indexer.Domain.Errors.{Error, Result, ok, err}

-- What an operation returns: a value, an error to try again after, one that `Permanent` wraps; or it
-- panics.
pub data Attempt {ℓ} (A : Type ℓ) : Type ℓ where
  success : A → Attempt A
  again permanent : Error → Attempt A
  crash : Attempt A

pub record Retry (A : Type 0) : Type 0 where
  pub run : (ℕ → Attempt A) → Result A

-- A value is that of the first attempt that does not fail, and an attempt is made only after errors
-- that are not permanent.
pub record IsRetry {A : Type 0} (retry : Retry A) : Type 0 where
  pub value_of :
      (attempts : ℕ → Attempt A) (a : A)
      → retry.run attempts ≡ ok a
      → (i : ℕ) × (attempts i ≡ success a)
        × ((j : ℕ) → j < i → (e : Error) × (attempts j ≡ again e))
  pub permanent_stops :
      (attempts : ℕ → Attempt A) (e : Error) → attempts 0 ≡ permanent e → retry.run attempts ≡ err e
  pub first_answers :
      (attempts : ℕ → Attempt A) (a : A) → attempts 0 ≡ success a → retry.run attempts ≡ ok a
