-- ===== src/Services/Indexer/Order.antt =====
-- In which order the fills of a run begin.
use evm_indexer.Prelude.{ℕ, ◌≤◌, ◌≡◌, refl, ◌⊎◌, Bool, true, false, Option, List, arith, leb}
use evm_indexer.Domain.Errors.{Error, Result, ok, err}
use evm_indexer.Store.{
  Store, insert_block, insert_tx, insert_event, delete_events, delete_transactions, delete_blocks,
}
use evm_indexer.Store.Balances.{upsert_balances}
use evm_indexer.Exec.{World, exchange, ◌>>=◌}
use evm_indexer.Exec.Keeps.{Establishes, Establishes-rest}
use evm_indexer.Repository.Indexer.{
  run_sql, effect, update_backfill_cursor, get_backfill_cursor, get_balancefill_cursor,
}
use evm_indexer.Repository.Indexer.Durable.{IsDurable}
use evm_indexer.Services.Backfill.{batch_end, backfill_round}
use evm_indexer.Services.Indexer.Kept.{
  handle_head-Keeps, backfill_cursor_read-Keeps, balancefill_cursor_read-Keeps,
  balancefill_pass-Keeps,
}
use evm_indexer.Services.Forwardfill.{handle_head}
use evm_indexer.Services.Balancefill.Loop.{balancefill_pass}
use evm_indexer.Services.Indexer.Steps.{run_keeps}
use evm_indexer.Services.Indexer.{
  Setup, batch, Phase, started, Forward, receiving, Back, Balance, System, start, node_answers,
  after_head, forward_fails, after_round, after_balance_cursor, after_pass, balance_cancelled,
  run_lag, Action, answers, head_arrives, stream_fails, backfill_moves, balance_moves,
  balance_stops, interrupted, received, head_received, after_cursor, round_if, back_moves,
  balance_moves_from, backfill_step, balance_step, act, run,
}

abbrev pub cursor_of : World → ℕ
cursor_of w = w.store.backfill_cursor

abbrev pub AtCursor : ℕ → Store → Type 0
AtCursor c s = s.backfill_cursor ≡ c

-- Only `UpdateBackfillCursor` and its reset write the backfill's cursor.
pub AtCursor-IsDurable : (c : ℕ) → IsDurable (AtCursor c)
unfolding insert_block insert_tx insert_event delete_events delete_transactions delete_blocks
    upsert_balances
AtCursor-IsDurable c = record {
  stable = record {
    by_block = λ b s s' v p. ground arith;
    by_tx = λ t s s' v p. ground arith;
    by_event = λ n e s s' v p. ground arith;
  };
  by_delete_events = λ n s v. v;
  by_delete_transactions = λ n s v. v;
  by_delete_blocks = λ n s v. v;
  by_upsert = λ es s s' v p. ground arith;
  by_balancefill_cursor = λ n s v. v;
}

-- What the backfill's place says of the phase and of the stored cursor.
abbrev Fits : Phase → ℕ → Back → Type 0
Fits p c Back.idle = Unit {0}
Fits p c (Back.reading n) = p ≡ started n
Fits p c (Back.at n curr) = (p ≡ started n) × ((curr ≤ n) ⊎ (c ≡ n))
Fits p c (Back.ended r) = Unit {0}

-- The signal was sent, or has been received.
abbrev pub has_begun : Bool → Balance → Bool
has_begun signal Balance.idle = signal
has_begun signal Balance.waiting = signal
has_begun signal Balance.reading = true
has_begun signal (Balance.at c) = true
has_begun signal (Balance.ended e) = signal

abbrev IsOver : Phase → ℕ → Back → Type 0
IsOver p c b = (b ≡ Back.ended (ok tt)) × (p ≡ started c)

record Ordered (s : System) : Type 0 where
  fits : Fits s.phase (cursor_of s.world) s.back
  over : has_begun s.signal s.balance ≡ true → IsOver s.phase (cursor_of s.world) s.back

-- An action that touches neither of these keeps the order.
same_Ordered :
    (s t : System)
    → t.phase ≡ s.phase
    → t.back ≡ s.back
    → cursor_of t.world ≡ cursor_of s.world
    → (has_begun t.signal t.balance ≡ true → has_begun s.signal s.balance ≡ true)
    → Ordered s
    → Ordered t
same_Ordered s t p b c begun h = record {
  fits = rw (p, b, c) h.fits;
  over = λ k. rw (p, b, c) (h.over (begun k));
}

node_answers-Ordered : (r : Result ℕ) (s : System) → Ordered s → Ordered (node_answers r s)
unfolding node_answers
node_answers-Ordered (ok n) s h = ground arith
node_answers-Ordered (err e) s h = ground arith

forward_fails-Ordered : (e : Error) (s : System) → Ordered s → Ordered (forward_fails e s)
unfolding forward_fails
forward_fails-Ordered e s h = ground arith

balance_cancelled-Ordered : (e : Error) (s : System) → Ordered s → Ordered (balance_cancelled e s)
unfolding balance_cancelled
balance_cancelled-Ordered e s h = ground arith

after_head-Ordered :
    (r : Result (Unit {0})) (w : World) (s : System)
    → cursor_of w ≡ cursor_of s.world
    → Ordered s
    → Ordered (after_head (r, w) s)
after_head-Ordered (ok _) w s c h = same_Ordered s _ refl refl c (λ k. k) h
after_head-Ordered (err e) w s c h = same_Ordered s _ refl refl c (λ k. k) h

-- A round that failed may have moved the cursor or not; one that returned has moved it.
after_round-Ordered :
    (n curr end : ℕ) (r : Result (Unit {0})) (w : World) (s : System)
    → s.back ≡ Back.at n curr
    → end ≤ n
    → (r ≡ ok tt → cursor_of w ≡ end)
    → Ordered s
    → Ordered (after_round n end (r, w) s)
after_round-Ordered n curr end (ok _) w s b le moved h = ground arith
after_round-Ordered n curr end (err e) w s b le moved h = ground arith

after_balance_cursor-Ordered :
    (r : Result ℕ) (w : World) (s : System)
    → s.balance ≡ Balance.reading
    → cursor_of w ≡ cursor_of s.world
    → Ordered s
    → Ordered (after_balance_cursor (r, w) s)
after_balance_cursor-Ordered (ok c) w s b k h = ground arith
after_balance_cursor-Ordered (err e) w s b k h = ground arith

after_pass-Ordered :
    (c : ℕ) (r : Result (Option ℕ)) (w : World) (s : System)
    → s.balance ≡ Balance.at c
    → cursor_of w ≡ cursor_of s.world
    → Ordered s
    → Ordered (after_pass c (r, w) s)
after_pass-Ordered c (ok next) w s b k h = ground arith
after_pass-Ordered c (err e) w s b k h = ground arith

update_backfill_cursor-moves :
    (n : ℕ) → Establishes (λ w. cursor_of w ≡ n) (update_backfill_cursor n)
unfolding update_backfill_cursor run_sql effect exchange ◌>>=◌
update_backfill_cursor-moves n = record { at = λ w a w' h. ground arith }

batch_end_at_most : (batch target curr : ℕ) → batch_end batch target curr ≤ target
unfolding batch_end
batch_end_at_most batch target curr = ground arith

module _ (setup : Setup) where
  backfill_round-moves :
      (n curr end : ℕ)
      → Establishes
          (λ w. cursor_of w ≡ end)
          (backfill_round setup.fetch setup.schedule (batch setup) n curr end)
  unfolding backfill_round
  backfill_round-moves n curr end =
      Establishes-rest _ _ (λ results. Establishes-rest _ _ (λ _. update_backfill_cursor-moves end))

  received-Ordered :
      (f : Forward) (id : ℕ) (s : System) → Ordered s → Ordered (received setup f id s)
  received-Ordered receiving id s h =
      let c = cursor_of s.world in
      let k = handle_head-Keeps (AtCursor c) (AtCursor-IsDurable c) setup.fetch id in
      let (r, w) = handle_head setup.fetch id s.world in
      after_head-Ordered r w s (k.at s.world refl) h
  received-Ordered (Forward.ended _) id s h = h

  after_cursor-Ordered :
      (n : ℕ) (r : Result ℕ) (w : World) (s : System)
      → s.back ≡ Back.reading n
      → cursor_of w ≡ cursor_of s.world
      → Ordered s
      → Ordered (after_cursor setup n (r, w) s)
  after_cursor-Ordered n (ok c) w s b k h = ground arith
  after_cursor-Ordered n (err e) w s b k h = ground arith

  round_if-Ordered :
      (more : Bool) (n curr : ℕ) (s : System)
      → s.back ≡ Back.at n curr
      → leb curr n ≡ more
      → Ordered s
      → Ordered (round_if setup more n curr s)
  round_if-Ordered true n curr s b e h =
      let end = batch_end (batch setup) n curr in
      let (r, w) = backfill_round setup.fetch setup.schedule (batch setup) n curr end s.world in
      let k = backfill_round-moves n curr end in
      after_round-Ordered n curr end r w s b (batch_end_at_most (batch setup) n curr)
        (λ p. k.at s.world tt w (λ i. (p i, w))) h
  round_if-Ordered false n curr s b e h = ground arith

  back_moves-Ordered :
      (b : Back) (s : System) → s.back ≡ b → Ordered s → Ordered (back_moves setup b s)
  back_moves-Ordered Back.idle s p h = h
  back_moves-Ordered (Back.reading n) s p h =
      let (r, w) = get_backfill_cursor s.world in
      after_cursor-Ordered n r w s p
        ((backfill_cursor_read-Keeps (AtCursor (cursor_of s.world))).at s.world refl) h
  back_moves-Ordered (Back.at n curr) s p h = round_if-Ordered _ n curr s p refl h
  back_moves-Ordered (Back.ended r) s p h = h

  balance_moves-Ordered :
      (b : Balance) (s : System)
      → s.balance ≡ b
      → Ordered s
      → Ordered (balance_moves_from setup b s)
  balance_moves-Ordered Balance.idle s p h = h
  balance_moves-Ordered Balance.waiting s p h = ground arith
  balance_moves-Ordered Balance.reading s p h =
      let (r, w) = get_balancefill_cursor s.world in
      after_balance_cursor-Ordered r w s p
        ((balancefill_cursor_read-Keeps (AtCursor (cursor_of s.world))).at s.world refl) h
  balance_moves-Ordered (Balance.at c) s p h =
      let cursor = cursor_of s.world in
      let k =
        balancefill_pass-Keeps (AtCursor cursor) (AtCursor-IsDurable cursor) setup.eth setup.iterate
          run_lag c in
      let (r, w) = balancefill_pass setup.eth setup.iterate run_lag c s.world in
      after_pass-Ordered c r w s p (k.at s.world refl) h
  balance_moves-Ordered (Balance.ended e) s p h = h

  act-Ordered : (a : Action) (s : System) → Ordered s → Ordered (act setup a s)
  unfolding act head_received backfill_step balance_step
  act-Ordered (answers r) s h = node_answers-Ordered r s h
  act-Ordered (head_arrives id) s h = received-Ordered s.forward id s h
  act-Ordered (stream_fails e) s h = forward_fails-Ordered e s h
  act-Ordered backfill_moves s h = back_moves-Ordered s.back s refl h
  act-Ordered balance_moves s h = balance_moves-Ordered s.balance s refl h
  act-Ordered (balance_stops e) s h = balance_cancelled-Ordered e s h
  act-Ordered interrupted s h = same_Ordered s _ refl refl refl (λ k. k) h

  run-Ordered : (actions : List Action) (s : System) → Ordered s → Ordered (run setup actions s)
  run-Ordered actions s h = run_keeps setup Ordered act-Ordered actions s h

  start-Ordered : (w : World) → Ordered (start w)
  start-Ordered w = record { fits = tt; over = λ k. absurd (ground arith) }

  abbrev pub reached : List Action → World → System
  reached actions w = run setup actions (start w)

  -- In any interleaving of a run, once the signal for the balance fill has been sent, and so also
  -- when the balance fill works, the backfill has returned without error and its stored cursor is
  -- the block that the node gave as the last one.
  pub run-balance_after_backfill :
      (actions : List Action) (w : World)
      → has_begun (reached actions w).signal (reached actions w).balance ≡ true
      → ((reached actions w).back ≡ Back.ended (ok tt))
        × ((reached actions w).phase ≡ started (cursor_of (reached actions w).world))
  run-balance_after_backfill actions w h = (run-Ordered actions (start w) (start-Ordered w)).over h
