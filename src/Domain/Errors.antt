-- ===== src/Domain/Errors.antt =====
-- internal/core/domain/errors.go, and the errors that the code gets from elsewhere. A call that
-- may fail returns a `Result`; Go's `error` alone is `Result Unit`.
use evm_indexer.Prelude.{◌≡◌, refl, ◌⊎◌, inl, inr, ℕ, arith}

pub data Error : Type 0 where
  not_found empty_filter : Error
  invalid_block invalid_transaction invalid_event : Error
  invalid_address invalid_hash invalid_offset invalid_id : Error
  invalid_block_range invalid_time_range invalid_limit invalid_topics : Error
  invalid_subscription : Error
  -- errors.New in the REST and GraphQL handlers
  invalid_params : Error
  -- strconv
  syntax out_of_range : Error
  -- the database refuses a row or a statement
  unique_violation value_too_large cardinality_violation negative_limit : Error
  -- any other error of the database, Redis, the RPC node or a context, by a number
  external : ℕ → Error
  -- a run-time panic: an index or a length out of range, a nil pointer
  panic : Error
  -- no error of the code: a loop of the model has used up its fuel
  out_of_fuel : Error

pub data Result {ℓ} (A : Type ℓ) : Type ℓ where
  ok : A → Result A
  err : Error → Result A

-- `if err := f(); err != nil { return e }`
abbrev pub or_error : Result (Unit {0}) → Error → Result (Unit {0})
or_error (ok a) e = ok a
or_error (err _) e = err e

infixl 5 ◌>>=◌ ◌>>◌
-- go on with the value, as after `if err != nil { return nil, err }`
abbrev pub ◌>>=◌ {ℓ κ} : {A : Type ℓ} {B : Type κ} → Result A → (A → Result B) → Result B
(err x) >>= next = err x
(ok value) >>= next = next value

abbrev pub ◌>>◌ {ℓ} : {A : Type ℓ} → Result (Unit {0}) → Result A → Result A
check >> next = check >>= λ _. next

pub Result-cases {ℓ} :
    {A : Type ℓ} (r : Result A) → ((a : A) × (r ≡ ok a)) ⊎ ((e : Error) × (r ≡ err e))
Result-cases (ok a) = inl (a, refl)
Result-cases (err e) = inr (e, refl)

-- What a bind that returned went through.
pub >>=-eq-ok :
    {A B : Type 0} (m : Result A) (f : A → Result B) (b : B)
    → (m >>= f) ≡ ok b
    → (a : A) × (m ≡ ok a) × (f a ≡ ok b)
>>=-eq-ok (ok a) f b h = (a, refl, h)
>>=-eq-ok (err e) f b h = absurd (ground arith)
