-- ===== src/Handlers/Ws/Slices.antt =====
-- The map of internal/handlers/ws/entity.go from filters to the channels of clients, and the two
-- things that are done to its slices.
use evm_indexer.Prelude.{ℕ, zero, suc, Str, ◌=ₛ◌, Bool, ◌&&◌, List, [], ◌∷◌, if◌then◌else◌}
use evm_indexer.Domain.Errors.{Result, ok, err, ◌>>=◌, panic}

pub record SubscriptionFilter : Type 0 where
  pub address : Str
  pub topic0 : Str

-- equality of map keys
unfoldable pub same_filter : SubscriptionFilter → SubscriptionFilter → Bool
same_filter a b = (a.address =ₛ b.address) && (a.topic0 =ₛ b.topic0)

-- a client's channel is a number
abbrev pub Clients : Type 0
Clients = List (SubscriptionFilter × List ℕ)

-- nil for a key that is missing
unfoldable pub chans_at : SubscriptionFilter → Clients → List ℕ
chans_at f [] = []
chans_at f ((g, cs) ∷ m) = if same_filter g f then cs else chans_at f m

unfoldable pub put_chans : SubscriptionFilter → List ℕ → Clients → Clients
put_chans f cs [] = (f, cs) ∷ []
put_chans f cs ((g, ds) ∷ m) = if same_filter g f then (g, cs) ∷ m else (g, ds) ∷ put_chans f cs m

-- `append(c[:i], c[i+1:]...)`, which panics where i+1 is past the length
unfoldable pub remove_at : ℕ → List ℕ → Result (List ℕ)
remove_at i [] = err panic
remove_at zero (c ∷ cs) = ok cs
remove_at (suc i) (c ∷ cs) = let rest = remove_at i cs in do others ← rest; ok (c ∷ others)
