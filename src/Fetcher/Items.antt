-- ===== src/Fetcher/Items.antt =====
-- What a fetched block is made of.
use evm_indexer.Prelude.{
  ℕ, ◌+◌, ◌<◌, ◌≡◌, refl, sym, ap, ◌∙◌, subst, inl, inr, Str, Bool, true, false, Option, none, some,
  List, [], ◌∷◌, ◌++◌, map, arith, Option-cases,
}
use evm_indexer.Prelude.Int.{ℤ, negsuc}
use evm_indexer.Domain.Errors.{Error, Result, ok, err, >>=-eq-ok}
use mathlib.Core.List.{map-append}
use evm_indexer.Domain.Models.{Transaction, Event, BlockTxsEvents}
use evm_indexer.Fetcher.Hex.{id_hex}
use evm_indexer.Fetcher.Attempts.{success, again, Retry, IsRetry}
use evm_indexer.Fetcher.{
  Hexes, RpcTransaction, RpcBlock, RpcLog, Receipt, zero_body, body_of, Reply, Answer,
  extract_event, transaction_in, extract_transaction, extract_block, extract_txs, extract_logs,
  extract_events, assemble, or_crash, is_permanent, wrap_retry_error, after_block, after_batch,
  after_limiter, fetch_all, fetch_block,
}

-- The logs of the receipts, in their order.
pub present : List (Option RpcLog) → List RpcLog
present [] = []
present (none ∷ logs) = present logs
present (some log ∷ logs) = log ∷ present logs

pub logs_of : List (Option Receipt) → List RpcLog
logs_of [] = []
logs_of (none ∷ receipts) = logs_of receipts
logs_of (some receipt ∷ receipts) = present receipt.logs ++ logs_of receipts

module _ (hexes : Hexes) where
  -- Each transaction stands with the receipt at its own place.
  pub data Paired : List RpcTransaction → List (Option Receipt) → List Transaction → Type 0 where
    end : {receipts : List (Option Receipt)} → Paired [] receipts []
    next :
        {tx : RpcTransaction} {receipt : Receipt} {n : ℕ} {txs : List RpcTransaction}
        {receipts : List (Option Receipt)} {out : List Transaction}
        → receipt.block_number ≡ some n
        → Paired txs receipts out
        → Paired (tx ∷ txs) (some receipt ∷ receipts) (transaction_in hexes n tx receipt ∷ out)

  extract_transaction-eq-ok :
      (tx : RpcTransaction) (receipt : Receipt) (t : Transaction)
      → extract_transaction hexes tx receipt ≡ ok t
      → (n : ℕ) × (receipt.block_number ≡ some n) × (transaction_in hexes n tx receipt ≡ t)
  unfolding extract_transaction
  extract_transaction-eq-ok tx receipt t h = elim (Option-cases receipt.block_number) [
    | inl p ↦ absurd (ground arith)
    | inr (n, p) ↦ (n, p, ground arith)
  ]

  extract_txs-Paired :
      (txs : List RpcTransaction) (receipts : List (Option Receipt)) (out : List Transaction)
      → extract_txs hexes txs receipts ≡ ok out
      → Paired txs receipts out
  unfolding extract_txs
  extract_txs-Paired [] receipts out h = subst (Paired [] receipts) (ground arith) end
  extract_txs-Paired (tx ∷ txs) [] out h = absurd (ground arith)
  extract_txs-Paired (tx ∷ txs) (none ∷ receipts) out h = absurd (ground arith)
  extract_txs-Paired (tx ∷ txs) (some receipt ∷ receipts) out h =
      let (t, p, q) = >>=-eq-ok (extract_transaction hexes tx receipt) _ out h in
      let (others, p', q') = >>=-eq-ok (extract_txs hexes txs receipts) _ out q in
      let (n, number, made) = extract_transaction-eq-ok tx receipt t p in
      let whole : transaction_in hexes n tx receipt ∷ others ≡ out = ground arith in
      subst (Paired (tx ∷ txs) (some receipt ∷ receipts)) whole
        (next number (extract_txs-Paired txs receipts others p'))

  extract_logs-eq-ok :
      (logs : List (Option RpcLog)) (events : List Event)
      → extract_logs hexes logs ≡ ok events
      → events ≡ map (extract_event hexes) (present logs)
  unfolding extract_logs present
  extract_logs-eq-ok [] events h = ground arith
  extract_logs-eq-ok (none ∷ logs) events h = absurd (ground arith)
  extract_logs-eq-ok (some log ∷ logs) events h =
      let (others, p, q) = >>=-eq-ok (extract_logs hexes logs) _ events h in
      let ih = extract_logs-eq-ok logs others p in
      let e : extract_event hexes log ∷ others ≡ events = ground arith in
      sym e ∙ ap (λ es. extract_event hexes log ∷ es) ih

  extract_events-eq-ok :
      (receipts : List (Option Receipt)) (events : List Event)
      → extract_events hexes receipts ≡ ok events
      → events ≡ map (extract_event hexes) (logs_of receipts)
  unfolding extract_events logs_of
  extract_events-eq-ok [] events h = ground arith
  extract_events-eq-ok (none ∷ receipts) events h = absurd (ground arith)
  extract_events-eq-ok (some receipt ∷ receipts) events h =
      let (first, p, q) = >>=-eq-ok (extract_logs hexes receipt.logs) _ events h in
      let (others, p', q') = >>=-eq-ok (extract_events hexes receipts) _ events q in
      let e : first ++ others ≡ events = ground arith in
      sym e
      ∙ ap (λ es. es ++ others) (extract_logs-eq-ok receipt.logs first p)
      ∙ ap (λ es. map (extract_event hexes) (present receipt.logs) ++ es)
          (extract_events-eq-ok receipts others p')
      ∙ sym (map-append (extract_event hexes) (present receipt.logs) (logs_of receipts))

  -- A block, its transactions with their receipts, and an event for each log in the receipts' order.
  pub record IsItem (body : RpcBlock) (receipts : List (Option Receipt)) (item : BlockTxsEvents)
      : Type 0 where
    pub block : item.block ≡ extract_block hexes body
    pub txs : Paired body.transactions receipts item.txs
    pub events : item.events ≡ map (extract_event hexes) (logs_of receipts)

  assemble-IsItem :
      (body : RpcBlock) (receipts : List (Option Receipt)) (item : BlockTxsEvents)
      → assemble hexes body receipts ≡ ok item
      → IsItem body receipts item
  unfolding assemble
  assemble-IsItem body receipts item h =
      let (txs, p, q) = >>=-eq-ok (extract_txs hexes body.transactions receipts) _ item h in
      let (events, p', q') = >>=-eq-ok (extract_events hexes receipts) _ item q in
      let e : record { block = extract_block hexes body; txs = txs; events = events } ≡ item =
        ground arith in
      subst (IsItem body receipts) e (record {
        block = refl;
        txs = extract_txs-Paired body.transactions receipts txs p;
        events = extract_events-eq-ok receipts events p';
      })

  -- What null is decoded into: block 0 with zero hashes.
  abbrev pub zero_item_of : BlockTxsEvents
  zero_item_of = record { block = extract_block hexes zero_body; txs = []; events = [] }

  module _ (code_of : Error → Option ℤ) where
    or_crash-eq-success :
        (r : Result BlockTxsEvents) (item : BlockTxsEvents)
        → or_crash hexes r ≡ success item
        → r ≡ ok item
    or_crash-eq-success (ok x) item h = ground arith
    or_crash-eq-success (err e) item h = absurd (ground arith)

    -- The two results of a batch that an item was made of.
    abbrev MadeOf : Reply → BlockTxsEvents → Type 0
    MadeOf reply item =
        (body : Option RpcBlock) × (receipts : List (Option Receipt)) × (reply
          ≡ record { block = ok body; receipts = ok receipts })
        × (assemble hexes (body_of body) receipts ≡ ok item)

    no_success :
        (e : Error) (item : BlockTxsEvents)
        → wrap_retry_error hexes code_of e ≡ success item
        → ◌≡◌ {A = Bool} false true
    unfolding wrap_retry_error
    no_success e item h = ground arith

    after_block_success :
        (block : Result (Option RpcBlock)) (receipts : Result (List (Option Receipt)))
        (item : BlockTxsEvents)
        → after_block hexes code_of block receipts ≡ success item
        → MadeOf (record { block = block; receipts = receipts }) item
    after_block_success (err e) receipts item h =
        absurd (let k = no_success e item h in ground arith)
    after_block_success (ok body) (err e) item h =
        absurd (let k = no_success e item h in ground arith)
    after_block_success (ok body) (ok receipts) item h =
        (body, receipts, refl, or_crash-eq-success (assemble hexes (body_of body) receipts) item h)

    after_batch_success :
        (batch : Result Reply) (item : BlockTxsEvents)
        → after_batch hexes code_of batch ≡ success item
        → (reply : Reply) × (batch ≡ ok reply) × MadeOf reply item
    after_batch_success (err e) item h = absurd (let k = no_success e item h in ground arith)
    after_batch_success (ok reply) item h =
        (reply, refl, after_block_success reply.block reply.receipts item h)

    after_limiter_success :
        (limiter : Result (Unit {0})) (batch : Result Reply) (item : BlockTxsEvents)
        → after_limiter hexes code_of limiter batch ≡ success item
        → after_batch hexes code_of batch ≡ success item
    after_limiter_success (ok _) batch item h = h
    after_limiter_success (err e) batch item h = absurd (ground arith)

    fetch_all_success :
        (priority : Bool) (answer : Answer) (item : BlockTxsEvents)
        → fetch_all hexes code_of priority answer ≡ success item
        → (reply : Reply) × (answer.batch ≡ ok reply) × MadeOf reply item
    unfolding fetch_all
    fetch_all_success true answer item h = after_batch_success answer.batch item h
    fetch_all_success false answer item h =
        after_batch_success answer.batch item
          (after_limiter_success answer.limiter answer.batch item h)

    -- With a retry loop that keeps its laws, a fetch that returns a block returns what one
    -- batch about that number came back with, neither of its calls in error: the block, its
    -- transactions each with the receipt at its own place, an event for each log in order.
    -- Every batch before was in error, none of them permanently.
    pub fetch_block-IsItem :
        (retry : Retry BlockTxsEvents) (node : Str → ℕ → Answer) (priority : Bool) (id : ℕ)
        (item : BlockTxsEvents)
        → IsRetry retry
        → fetch_block hexes code_of retry node priority id ≡ ok item
        → (i : ℕ) × (body : Option RpcBlock) × (receipts : List (Option Receipt)) × ((node
              (id_hex id)
              i).batch
            ≡ ok (record { block = ok body; receipts = ok receipts }))
          × IsItem (body_of body) receipts item
          × ((j : ℕ)
              → j < i
              → (e : Error) × (fetch_all hexes code_of priority (node (id_hex id) j) ≡ again e))
    unfolding fetch_block
    fetch_block-IsItem retry node priority id item laws h =
        let (i, p, earlier) = laws.value_of _ item h in
        let (reply, q, made_of) = fetch_all_success priority (node (id_hex id) i) item p in
        let (body, receipts, r, made) = made_of in
        (
          i,
          body,
          receipts,
          q ∙ ap (λ x. ok x) r,
          assemble-IsItem (body_of body) receipts item made,
          earlier,
        )

    -- A node that does not know the block yet answers null: the fetch returns block 0 without
    -- transactions or events, for whatever number it asked.
    pub fetch_block-null :
        (retry : Retry BlockTxsEvents) (node : Str → ℕ → Answer) (priority : Bool) (id : ℕ)
        → IsRetry retry
        → (priority ≡ false → (node (id_hex id) 0).limiter ≡ ok tt)
        → (node (id_hex id) 0).batch ≡ ok (record { block = ok none; receipts = ok [] })
        → fetch_block hexes code_of retry node priority id ≡ ok zero_item_of
    unfolding fetch_block fetch_all assemble extract_txs extract_events
    fetch_block-null retry node true id laws free p = laws.first_answers _ _ (rw p refl)
    fetch_block-null retry node false id laws free p =
        let allowed = free refl in laws.first_answers _ _ (rw (allowed, p) refl)

    -- An error of the batch whose code is -32602, -32601 or -32600 is returned at once.
    fetch_block_invalid_request :
        (retry : Retry BlockTxsEvents) (node : Str → ℕ → Answer) (priority : Bool) (id k : ℕ)
        (e : Error)
        → IsRetry retry
        → (node (id_hex id) 0).limiter ≡ ok tt
        → (node (id_hex id) 0).batch ≡ err e
        → code_of e ≡ some (negsuc (32599 + k))
        → k < 3
        → fetch_block hexes code_of retry node priority id ≡ err e
    unfolding fetch_block fetch_all wrap_retry_error is_permanent
    fetch_block_invalid_request retry node true id k e laws free p c small =
        laws.permanent_stops _ e (rw (p, c) (ground arith))
    fetch_block_invalid_request retry node false id k e laws free p c small =
        laws.permanent_stops _ e (rw (free, p, c) (ground arith))
