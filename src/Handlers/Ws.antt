-- ===== src/Handlers/Ws.antt =====
-- internal/handlers/ws: subscriptions, the broadcast of a message to them, and what a client does when
-- it leaves. JSON decoding is left out: a frame holds the decoded message, or none.
pub mod Slices
pub mod Rounds
pub mod Laws
pub mod Delivery
pub mod Reached
pub mod Leaving
pub mod Joined
pub mod Twice
pub mod Stale
pub mod Connection
pub mod Refused
pub mod Feeds
pub mod Relayed
use evm_indexer.Prelude.{
  ℕ, Str, str, ◌=ₛ◌, Bool, true, false, not, ◌&&◌, ◌||◌, Option, none, some, List, [], ◌∷◌, ◌++◌,
  length, any, ◌==◌, if◌then◌else◌,
}
use evm_indexer.Domain.Errors.{Error, Result, ok, err, invalid_subscription, syntax, panic}
use evm_indexer.Exec.{Message, reorg, block, transaction, event}
use evm_indexer.Handlers.Ws.Slices.{SubscriptionFilter, Clients, chans_at, put_chans, remove_at}

pub record SubscribeMessage : Type 0 where
  pub kind : Str
  pub topic : Str
  pub address : Str
  pub topic0 : Str

-- the keys of the router's map of entities
pub data Topic : Type 0 where
  blocks transactions events reorgs : Topic

-- `locked`: a client panicked while it held the mutex, which nobody unlocks any more
pub record Entity : Type 0 where
  pub clients : Clients
  pub locked : Bool

pub record Hub : Type 0 where
  pub blocks : Entity
  pub transactions : Entity
  pub events : Entity
  pub reorgs : Entity
  -- the channels that are closed
  pub closed : List ℕ

pub record Position : Type 0 where
  pub topic : Topic
  pub filter : SubscriptionFilter
  pub index : ℕ

pub record Client : Type 0 where
  pub channel : ℕ
  pub pos : List Position
  -- what `sync.Once` remembers
  pub gone : Bool

abbrev pub new_client : ℕ → Client
new_client channel = record { channel = channel; pos = []; gone = false }

abbrev pub entity_of : Topic → Hub → Entity
entity_of blocks h = h.blocks
entity_of transactions h = h.transactions
entity_of events h = h.events
entity_of reorgs h = h.reorgs

abbrev pub with_entity : Topic → Entity → Hub → Hub
with_entity blocks e h = record h { blocks = e }
with_entity transactions e h = record h { transactions = e }
with_entity events e h = record h { events = e }
with_entity reorgs e h = record h { reorgs = e }

abbrev pub clients_of : Topic → Hub → Clients
clients_of t h = (entity_of t h).clients

abbrev pub with_clients : Topic → Clients → Hub → Hub
with_clients t m h = with_entity t (record (entity_of t h) { clients = m }) h

unfoldable pub validate_subscription : SubscribeMessage → Result (Unit {0})
validate_subscription sub =
    if not (sub.kind =ₛ str "subscribe")
    then err invalid_subscription
    else if not (sub.topic =ₛ str "events")
        && (not (sub.topic =ₛ str "transactions") && not (sub.topic =ₛ str "blocks"))
    then err invalid_subscription
    else ok tt

unfoldable pub extract_filter : SubscribeMessage → SubscriptionFilter
extract_filter sub = record { address = sub.address; topic0 = sub.topic0 }

-- `client.entities[subscription.Topic]`
unfoldable pub find_entity : Str → Option Topic
find_entity name =
    if name =ₛ str "blocks"
    then some blocks
    else if name =ₛ str "transactions"
    then some transactions
    else if name =ₛ str "events"
    then some events
    else if name =ₛ str "reorgs"
    then some reorgs
    else none

pub data Outcome {ℓ} (A : Type ℓ) : Type ℓ where
  done : A → Outcome A
  refused : Error → Outcome A
  -- the mutex is never unlocked
  blocked : Outcome A

abbrev pub registered : Topic → SubscriptionFilter → Client → Hub → Client × Hub
registered t f c h = (
  record c {
    pos =
        c.pos
        ++ (record { topic = t; filter = f; index = length (chans_at f (clients_of t h)) } ∷ []);
  },
  with_clients t (put_chans f (chans_at f (clients_of t h) ++ (c.channel ∷ [])) (clients_of t h)) h,
)

unfoldable pub register : Option Topic → SubscriptionFilter → Client → Hub → Outcome (Client × Hub)
register none f c h = refused panic
register (some t) f c h = if (entity_of t h).locked then blocked else done (registered t f c h)

unfoldable pub subscribe_checked :
    Result (Unit {0}) → SubscribeMessage → Client → Hub → Outcome (Client × Hub)
unfolding register extract_filter find_entity
subscribe_checked (err e) sub c h = refused e
subscribe_checked (ok _) sub c h = register (find_entity sub.topic) (extract_filter sub) c h

-- `none` is a text that is no JSON of a `SubscribeMessage`
unfoldable pub subscribe : Option SubscribeMessage → Client → Hub → Outcome (Client × Hub)
unfolding subscribe_checked validate_subscription
subscribe none c h = refused syntax
subscribe (some sub) c h = subscribe_checked (validate_subscription sub) sub c h

-- What `delete` comes to: it returns, it panics with the mutex held, or it waits for a mutex.
pub data Left : Type 0 where
  left panicked waits : Hub → Left

abbrev pub hub_of : Left → Hub
hub_of (left h) = h
hub_of (panicked h) = h
hub_of (waits h) = h

unfoldable pub leave_positions : List Position → Hub → Left
leave_positions [] h = left h
leave_positions (p ∷ ps) h = elim (entity_of p.topic h).locked [
  | true ↦ waits h
  | false ↦ elim (remove_at p.index (chans_at p.filter (clients_of p.topic h))) [
    | ok cs ↦
        leave_positions ps (with_clients p.topic (put_chans p.filter cs (clients_of p.topic h)) h)
    | err e ↦ panicked (with_entity p.topic (record (entity_of p.topic h) { locked = true }) h)
  ]
]

-- `close(client.outgoing)`
abbrev pub close_channel : ℕ → Left → Left
close_channel c (left h) = left (record h { closed = c ∷ h.closed })
close_channel c (panicked h) = panicked h
close_channel c (waits h) = waits h

-- `delete` acts once, also if it panicked.
unfoldable pub delete : Client → Hub → Client × Left
unfolding leave_positions
delete c h =
    if c.gone
    then (c, left h)
    else (record c { gone = true }, close_channel c.channel (leave_positions c.pos h))
