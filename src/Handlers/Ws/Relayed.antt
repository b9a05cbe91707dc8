-- ===== src/Handlers/Ws/Relayed.antt =====
-- The way of a new block from the forward fill through Redis to the broadcasts.
use evm_indexer.Prelude.{
  ◌≡◌, refl, sym, ap, ◌∙◌, Bool, true, false, Option, none, some, List, [], ◌∷◌, ◌++◌, map,
  append-nil, append_assoc, select, if◌then◌else◌, arith,
}
use mathlib.Core.List.{append_cancel_right, reverse, reverse-cons, reverse-reverse}
use evm_indexer.Domain.Errors.{ok}
use evm_indexer.Domain.Models.{Block, Transaction, Event, BlockTxsEvents}
use evm_indexer.Exec.{World, Message}
use evm_indexer.Pubsub.{Subscription, subscribed, Reach}
use evm_indexer.Pubsub.Drained.{Drained, drains}
use evm_indexer.Services.Forwardfill.{existing_block, handle_item}
use evm_indexer.Services.Forwardfill.Published.{
  after, reorg_messages, tx_messages, event_messages, item_messages, handle_item-published,
}
use evm_indexer.Handlers.Ws.{Topic, blocks, transactions, events, reorgs}
use evm_indexer.Handlers.Ws.Rounds.{topic_of}

abbrev is_topic : Topic → Topic → Bool
is_topic blocks blocks = true
is_topic transactions transactions = true
is_topic events events = true
is_topic reorgs reorgs = true
is_topic _ _ = false

-- The messages of `ms` on the Redis topic of the entity `t`.
abbrev pub on_topic : Topic → List Message → List Message
on_topic t ms = select (λ m. is_topic (topic_of m) t) ms

-- What a new block means for the clients of each entity.
abbrev pub news_for : Topic → Option Block → BlockTxsEvents → List Message
news_for blocks curr item = Message.block item.block ∷ []
news_for transactions curr item = map Message.transaction item.txs
news_for events curr item = map Message.event item.events
news_for reorgs curr item = reorg_messages curr item.block

on_topic-append :
    (t : Topic) (xs ys : List Message) → on_topic t (xs ++ ys) ≡ on_topic t xs ++ on_topic t ys
on_topic-append t [] ys = refl
on_topic-append t (x ∷ xs) ys = ground (arith, on_topic-append t xs ys)

on_topic-tx_messages :
    (t : Topic) (ts : List Transaction)
    → on_topic t (tx_messages ts)
      ≡ (if is_topic transactions t then map Message.transaction ts else [])
unfolding topic_of
on_topic-tx_messages t [] = ground arith
on_topic-tx_messages t (x ∷ ts) = ground (arith, on_topic-tx_messages t ts)

on_topic-event_messages :
    (t : Topic) (es : List Event)
    → on_topic t (event_messages es) ≡ (if is_topic events t then map Message.event es else [])
unfolding topic_of
on_topic-event_messages t [] = ground arith
on_topic-event_messages t (x ∷ es) = ground (arith, on_topic-event_messages t es)

on_topic-reorg_messages :
    (t : Topic) (curr : Option Block) (b : Block)
    → on_topic t (reorg_messages curr b) ≡ (if is_topic reorgs t then reorg_messages curr b else [])
unfolding topic_of
on_topic-reorg_messages t none b = ground arith
on_topic-reorg_messages t (some curr) b = ground arith

joined :
    (t : Topic) (curr : Option Block) (item : BlockTxsEvents)
    → on_topic t (reorg_messages curr item.block)
      ≡ (if is_topic reorgs t then reorg_messages curr item.block else [])
    → on_topic t (tx_messages item.txs ++ event_messages item.events)
      ≡ on_topic t (tx_messages item.txs) ++ on_topic t (event_messages item.events)
    → on_topic t (tx_messages item.txs)
      ≡ (if is_topic transactions t then map Message.transaction item.txs else [])
    → on_topic t (event_messages item.events)
      ≡ (if is_topic events t then map Message.event item.events else [])
    → on_topic t (reorg_messages curr item.block) ++ on_topic t (item_messages item)
      ≡ news_for t curr item
unfolding topic_of
joined blocks curr item r b x e = rw (r, b, x, e)
joined transactions curr item r b x e = rw (r, b, x, e) (append-nil _)
joined events curr item r b x e = rw (r, b, x, e)
joined reorgs curr item r b x e = rw (r, b, x, e) (append-nil _)

-- Each topic carries its own part of what the forward fill publishes.
on_topic-news :
    (t : Topic) (curr : Option Block) (item : BlockTxsEvents)
    → on_topic t (reorg_messages curr item.block ++ item_messages item) ≡ news_for t curr item
unfolding topic_of
on_topic-news t curr item =
    let reorg = on_topic-reorg_messages t curr item.block in
    let both = on_topic-append t (tx_messages item.txs) (event_messages item.events) in
    let txs = on_topic-tx_messages t item.txs in
    let events = on_topic-event_messages t item.events in
    on_topic-append t (reorg_messages curr item.block) (item_messages item)
    ∙ joined t curr item reorg both txs events

after-eq-reverse : (xs ms : List Message) → after xs ms ≡ reverse xs ++ ms
after-eq-reverse [] ms = refl
after-eq-reverse (x ∷ xs) ms =
    after-eq-reverse xs (x ∷ ms)
    ∙ sym (append_assoc (reverse xs) (x ∷ []) ms)
    ∙ ap (λ l. l ++ ms) (sym (reverse-cons x xs))

-- What was published is known from what the log has become.
after_cancel : (xs ys ms : List Message) → after xs ms ≡ after ys ms → xs ≡ ys
after_cancel xs ys ms p =
    let q =
      append_cancel_right (reverse xs) (reverse ys) ms
        (sym (after-eq-reverse xs ms) ∙ p ∙ after-eq-reverse ys ms) in
    sym (reverse-reverse xs) ∙ ap reverse q ∙ reverse-reverse ys

-- Let Redis give a subscriber to a topic what has been published there, in that order. If the
-- handling of a new block returns no error, then, whatever of it the subscriber's goroutine has
-- passed on by now, the reader can come to have taken, after what was published before: on `blocks`
-- the block, on `transactions` each of its transactions, on `events` each of its events, on `reorgs`
-- the reorganisation, if another block stood under its id; and nothing else.
pub handle_item-relayed :
    (t : Topic) (item : BlockTxsEvents) (w w' : World) (before new : List Message)
    (s : Subscription Message)
    → handle_item item w ≡ (ok tt, w')
    → w'.published ≡ after new w.published
    → Reach subscribed s
    → s.received ≡ before ++ on_topic t new
    → (curr : Option Block) × ((existing_block item.block.id w).0 ≡ ok curr)
      × (d : Drained s) × (d.end.taken ≡ before ++ news_for t curr item)
handle_item-relayed t item w w' before new s h published reached given =
    let (curr, looked, p) = handle_item-published item w w' h in
    let news = reorg_messages curr item.block ++ item_messages item in
    let same : new ≡ news = after_cancel new news w.published (sym published ∙ p) in
    let d = drains s reached in
    (
      curr,
      looked,
      d,
      d.all_taken
          ∙ given
          ∙ ap (λ l. before ++ on_topic t l) same
          ∙ ap (λ l. before ++ l) (on_topic-news t curr item),
    )
