-- ===== src/Services/Forwardfill/Published.antt =====
-- What the forward fill publishes, and when.
use evm_indexer.Prelude.{
  ℕ, ◌=ₛ◌, ◌≡◌, refl, sym, ap, ◌∙◌, inl, inr, Bool-cases, Option, none, some, List, [], ◌∷◌, ◌++◌,
  if◌then◌else◌, arith,
}
use evm_indexer.Domain.Errors.{Result, ok, err}
use evm_indexer.Domain.Models.{Block, Transaction, Event, BlockTxsEvents}
use evm_indexer.Store.{Store}
use evm_indexer.Exec.{World, Message, Exec, ◌>>=◌, exchange}
use evm_indexer.Exec.Keeps.{Keeps, Keeps-bind, keeps_rules, Keeps-pure, >>=-eq-ok, Establishes-keep}
use evm_indexer.Repository.Indexer.{
  effect, effect_event, run_sql, rolled_back, with_rollback, commit, transact, ignore_error,
  exec_txs, exec_events, create_body, create, delete_body, delete, get_block_by_id,
}
use evm_indexer.Services.Forwardfill.{
  publish, existing_block, replace_rival, publish_txs, publish_events, publish_item, handle_item,
}

-- The messages are still those that they were.
abbrev Quiet : List Message → World → Type 0
Quiet ms w = w.published ≡ ms

module _ (ms : List Message) where
  exchange-Quiet : Keeps (Quiet ms) exchange
  unfolding exchange
  exchange-Quiet = record { at = λ w h. h }

  effect-Quiet : (f : Store → Result Store) → Keeps (Quiet ms) (effect f)
  unfolding effect
  effect-Quiet f = record { at = λ w h. ground arith }

  effect_event-Quiet : (e : Event) → Keeps (Quiet ms) (effect_event e)
  unfolding effect_event
  effect_event-Quiet e = record { at = λ w h. ground arith }

  run_sql-Quiet : (f : Store → Result Store) → Keeps (Quiet ms) (run_sql f)
  unfolding run_sql
  run_sql-Quiet f = Keeps-bind _ _ exchange-Quiet (λ _. effect-Quiet f)

  exec_txs-Quiet : (ts : List Transaction) → Keeps (Quiet ms) (exec_txs ts)
  unfolding exec_txs
  exec_txs-Quiet [] = Keeps-pure tt
  exec_txs-Quiet (t ∷ ts) = Keeps-bind _ _ (run_sql-Quiet _) (λ _. exec_txs-Quiet ts)

  exec_events-Quiet : (es : List Event) → Keeps (Quiet ms) (exec_events es)
  unfolding exec_events
  exec_events-Quiet [] = Keeps-pure tt
  exec_events-Quiet (e ∷ es) =
      Keeps-bind _ _ exchange-Quiet
        (λ _. Keeps-bind _ _ (effect_event-Quiet e) (λ _. exec_events-Quiet es))

  with_rollback-Quiet :
      (m : Exec (Unit {0})) → Keeps (Quiet ms) m → Keeps (Quiet ms) (with_rollback m)
  unfolding with_rollback
  with_rollback-Quiet m k = record { at = λ w h. go w (m w) (k.at w h) }
    where
      go :
          (w : World) (p : Result (Unit {0}) × World)
          → Quiet ms p.1
          → Quiet ms (rolled_back w.store p.0 p.1)
      go w (ok _, v) q = q
      go w (err _, v) q = q

  commit-Quiet : (s : Store) → Keeps (Quiet ms) (commit s)
  unfolding commit
  commit-Quiet s = record { at = λ w h. ground arith }

  ruleset steps = (keeps_rules, exchange-Quiet, run_sql-Quiet, exec_txs-Quiet, exec_events-Quiet)

  create-Quiet :
      (b : Block) (ts : List Transaction) (es : List Event) → Keeps (Quiet ms) (create b ts es)
  unfolding create create_body ignore_error
  create-Quiet b ts es = record {
    at = λ w h.
        (Keeps-bind (with_rollback (create_body b ts es)) _
            (with_rollback-Quiet _ (search steps depth 9))
            (λ _. record { at = λ v k. (commit-Quiet w.store).at v k })).at
          w h;
  }

  delete-Quiet : (n : ℕ) → Keeps (Quiet ms) (delete n)
  unfolding delete delete_body transact
  delete-Quiet n = record {
    at = λ w h.
        (Keeps-bind (with_rollback (delete_body n)) _ (with_rollback-Quiet _ (search steps depth 9))
            (λ _. commit-Quiet w.store)).at
          w h;
  }

  existing-Quiet : (n : ℕ) → Keeps (Quiet ms) (existing_block n)
  unfolding existing_block get_block_by_id exchange ◌>>=◌
  existing-Quiet n = record { at = λ w h. ground arith }

-- `ms` after the messages `xs`, the first of `xs` published first.
abbrev pub after : List Message → List Message → List Message
after [] ms = ms
after (x ∷ xs) ms = after xs (x ∷ ms)

after-append : (xs ys ms : List Message) → after (xs ++ ys) ms ≡ after ys (after xs ms)
after-append [] ys ms = refl
after-append (x ∷ xs) ys ms = after-append xs ys (x ∷ ms)

-- Where `m` returns, it has published `xs`.
record Publishes {A : Type 0} (xs : List Message) (m : Exec A) : Type 0 where
  at : (w : World) (a : A) (w' : World) → m w ≡ (ok a, w') → w'.published ≡ after xs w.published

module _ {A : Type 0} where
  Publishes-nothing : (m : Exec A) → ((ms : List Message) → Keeps (Quiet ms) m) → Publishes [] m
  Publishes-nothing m k = record {
    at = λ w a w' h. Establishes-keep m (k w.published) w a w' refl h;
  }

module _ {A B : Type 0} where
  Publishes-bind :
      (xs ys : List Message) (m : Exec A) (f : A → Exec B)
      → Publishes xs m
      → ((a : A) → Publishes ys (f a))
      → Publishes (xs ++ ys) (m >>= f)
  Publishes-bind xs ys m f p q = record {
    at = λ w b w' h.
        let (a, v, r, s) = >>=-eq-ok m f w h in
        (q a).at v b w' s ∙ ap (after ys) (p.at w a v r) ∙ sym (after-append xs ys w.published);
  }

publish-Publishes : (m : Message) → Publishes (m ∷ []) (publish m)
unfolding publish exchange ◌>>=◌
publish-Publishes m = record { at = λ w a w' h. ground arith }

abbrev pub tx_messages : List Transaction → List Message
tx_messages [] = []
tx_messages (t ∷ ts) = Message.transaction t ∷ tx_messages ts

abbrev pub event_messages : List Event → List Message
event_messages [] = []
event_messages (e ∷ es) = Message.event e ∷ event_messages es

publish_txs-Publishes : (ts : List Transaction) → Publishes (tx_messages ts) (publish_txs ts)
unfolding publish_txs
publish_txs-Publishes [] = Publishes-nothing _ (λ ms. Keeps-pure tt)
publish_txs-Publishes (t ∷ ts) =
    Publishes-bind (Message.transaction t ∷ []) (tx_messages ts) _ _ (publish-Publishes _)
      (λ _. publish_txs-Publishes ts)

publish_events-Publishes : (es : List Event) → Publishes (event_messages es) (publish_events es)
unfolding publish_events
publish_events-Publishes [] = Publishes-nothing _ (λ ms. Keeps-pure tt)
publish_events-Publishes (e ∷ es) =
    Publishes-bind (Message.event e ∷ []) (event_messages es) _ _ (publish-Publishes _)
      (λ _. publish_events-Publishes es)

-- The messages of a new block: itself, its transactions, its events, in their order.
abbrev pub item_messages : BlockTxsEvents → List Message
item_messages item = Message.block item.block ∷ (tx_messages item.txs ++ event_messages item.events)

-- The message of a reorganisation, where another block stands under the id.
abbrev pub reorg_messages : Option Block → Block → List Message
reorg_messages none b = []
reorg_messages (some curr) b =
    if curr.hash =ₛ b.hash then [] else Message.reorg (record { block_id = b.id }) ∷ []

publish_item-Publishes :
    (item : BlockTxsEvents) → Publishes (item_messages item) (publish_item item)
unfolding publish_item
publish_item-Publishes item =
    Publishes-bind (Message.block item.block ∷ []) _ _ _ (publish-Publishes _) (λ _.
      Publishes-bind (tx_messages item.txs) _ _ _ (publish_txs-Publishes item.txs)
        (λ _. publish_events-Publishes item.events))

replace_rival-Publishes :
    (curr : Option Block) (b : Block) → Publishes (reorg_messages curr b) (replace_rival curr b)
unfolding replace_rival
replace_rival-Publishes none b = Publishes-nothing _ (λ ms. Keeps-pure tt)
replace_rival-Publishes (some curr) b = elim (Bool-cases (curr.hash =ₛ b.hash)) [
  | inl same ↦ rw same (Publishes-nothing _ (λ ms. Keeps-pure tt))
  | inr other ↦ rw other (
      Publishes-bind [] _ _ _ (Publishes-nothing _ (λ ms. delete-Quiet ms b.id))
        (λ _. publish-Publishes _))
]

-- If the handling of a new block returns no error, then it looked up the block that stands under the
-- id and has published, in this order: the reorganisation, if that block has another hash; the new
-- block; each of its transactions; each of its events. It has published nothing else.
pub handle_item-published :
    (item : BlockTxsEvents) (w w' : World)
    → handle_item item w ≡ (ok tt, w')
    → (curr : Option Block) × ((existing_block item.block.id w).0 ≡ ok curr)
      × (w'.published ≡ after (reorg_messages curr item.block ++ item_messages item) w.published)
unfolding handle_item
handle_item-published item w w' h =
    let (curr, v, p, q) = >>=-eq-ok (existing_block item.block.id) _ w h in
    let quiet =
      Establishes-keep (existing_block item.block.id) (existing-Quiet w.published item.block.id) w
        curr v refl p in
    let rest =
      Publishes-bind (reorg_messages curr item.block) (item_messages item) _ _
        (replace_rival-Publishes curr item.block)
        (λ _.
          Publishes-bind [] (item_messages item) _ _
            (Publishes-nothing _ (λ ms. create-Quiet ms item.block item.txs item.events))
            (λ _. publish_item-Publishes item)) in
    (
      curr,
      ap (λ x. x.0) p,
      rest.at v tt w' q ∙ ap (after (reorg_messages curr item.block ++ item_messages item)) quiet,
    )
