-- ===== src/Pubsub.antt =====
-- internal/pubsub/pubsub.go: a subscription to a Redis topic. A goroutine passes what the Redis client
-- gives it on to a channel with room for ten; the reader of that channel is the broadcast. The Redis
-- client is not in src/: which messages it gives, and when, is any.
pub mod Order
pub mod Drained
use evm_indexer.Prelude.{ℕ, ◌≡◌, ◌<◌, List, [], ◌∷◌, ◌++◌, length}
use evm_indexer.Domain.Errors.{Result, ok, err}

-- Where the goroutine stands: in its `select`, at the send, or past its end, with `out` closed.
pub data Place (M : Type 0) : Type 0 where
  waiting : Place M
  sending : M → Place M
  returned : Place M

pub record Subscription (M : Type 0) : Type 0 where
  pub place : Place M
  -- what is in the channel, oldest first
  pub out : List M
  -- what the Redis client has given so far, and what the reader has taken so far
  pub received : List M
  pub taken : List M

abbrev pub capacity : ℕ
capacity = 10

-- what a receive from `out` gives
pub data Read (M : Type 0) : Type 0 where
  value : M → Read M
  -- `out` is closed and empty
  zero_value : Read M
  blocked : Read M

module _ {M : Type 0} where
  abbrev pub subscribed : Subscription M
  subscribed = record { place = waiting; out = []; received = []; taken = [] }

  -- `Subscribe`, by what `sub.Receive` answers
  unfoldable pub subscribe : Result (Unit {0}) → Result (Subscription M)
  subscribe (ok _) = ok subscribed
  subscribe (err e) = err e

  pub data Step (s : Subscription M) : Subscription M → Type 0 where
    arrives :
        (m : M)
        → s.place ≡ waiting
        → Step s (record s { place = sending m; received = s.received ++ (m ∷ []) })
    passes_on :
        (m : M)
        → s.place ≡ sending m
        → length s.out < capacity
        → Step s (record s { place = waiting; out = s.out ++ (m ∷ []) })
    -- the context is cancelled, or the Redis client has closed its channel
    stops : s.place ≡ waiting → Step s (record s { place = returned })
    is_taken :
        (m : M) (rest : List M)
        → s.out ≡ m ∷ rest
        → Step s (record s { out = rest; taken = s.taken ++ (m ∷ []) })

  pub data Reach (s : Subscription M) : Subscription M → Type 0 where
    here : Reach s s
    next : {t u : Subscription M} → Reach s t → Step t u → Reach s u

  abbrev pub read_empty : Place M → Read M
  read_empty waiting = blocked
  read_empty (sending m) = blocked
  read_empty returned = zero_value

  unfoldable pub read : Subscription M → Read M × Subscription M
  read s = elim s.out [
    | [] ↦ (read_empty s.place, s)
    | m ∷ rest ↦ (value m, record s { out = rest; taken = s.taken ++ (m ∷ []) })
  ]
