-- ===== src/Services/Indexer/Starved.antt =====
-- A run that finds the backfill up to date.
use evm_indexer.Prelude.{
  ℕ, ◌<◌, ◌≡◌, refl, ◌∙◌, subst, inl, inr, Bool, true, false, In, List, [], ◌∷◌, arith,
}
use evm_indexer.Domain.Errors.{Result, ok, err}
use evm_indexer.Exec.{World}
use evm_indexer.Repository.Indexer.{get_backfill_cursor}
use evm_indexer.Exec.{exchange, ◌>>=◌}
use evm_indexer.Services.Backfill.{resume_at}
use evm_indexer.Services.Forwardfill.{handle_head}
use evm_indexer.Services.Indexer.Kept.{handle_head-Keeps}
use evm_indexer.Services.Indexer.Order.{cursor_of, AtCursor, AtCursor-IsDurable, has_begun, reached}
use evm_indexer.Services.Indexer.{
  Setup, Forward, receiving, Back, Balance, System, start, node_answers, after_head, forward_fails,
  balance_cancelled, Action, answers, head_arrives, stream_fails, backfill_moves, balance_moves,
  balance_stops, interrupted, received, head_received, after_cursor, back_moves, backfill_step,
  balance_moves_from, balance_step, act, run,
}

module _ (setup : Setup) (c : ℕ) where
  -- The backfill is not in its loop, and will not come to it.
  abbrev HasNothing : Back → Type 0
  HasNothing Back.idle = Unit {0}
  HasNothing (Back.reading n) = n < resume_at setup.from c
  HasNothing (Back.at n curr) = ◌≡◌ {A = Bool} false true
  HasNothing (Back.ended r) = Unit {0}

  record Starved (s : System) : Type 0 where
    cursor : cursor_of s.world ≡ c
    nothing : HasNothing s.back
    waits : has_begun s.signal s.balance ≡ false

  abbrev Late : Action → Type 0
  Late a = (n : ℕ) → a ≡ answers (ok n) → n < resume_at setup.from c

  node_answers-Starved :
      (r : Result ℕ) (s : System) → Late (answers r) → Starved s → Starved (node_answers r s)
  unfolding node_answers
  node_answers-Starved (ok n) s late h =
      let k : n < resume_at setup.from c = late n refl in ground arith
  node_answers-Starved (err e) s late h = ground arith

  after_head-Starved :
      (r : Result (Unit {0})) (w : World) (s : System)
      → cursor_of w ≡ c
      → Starved s
      → Starved (after_head (r, w) s)
  after_head-Starved (ok _) w s k h = ground arith
  after_head-Starved (err e) w s k h = ground arith

  received-Starved :
      (f : Forward) (id : ℕ) (s : System) → Starved s → Starved (received setup f id s)
  received-Starved receiving id s h =
      let (r, w) = handle_head setup.fetch id s.world in
      let k = handle_head-Keeps (AtCursor c) (AtCursor-IsDurable c) setup.fetch id in
      after_head-Starved r w s (k.at s.world h.cursor) h
  received-Starved (Forward.ended _) id s h = h

  -- What the stored cursor says, or an error.
  cursor_read :
      (w : World)
      → (cursor_of (get_backfill_cursor w).1 ≡ cursor_of w)
        × ((k : ℕ) → (get_backfill_cursor w).0 ≡ ok k → k ≡ cursor_of w)
  unfolding get_backfill_cursor exchange ◌>>=◌
  cursor_read w = (ground arith, λ k p. ground arith)

  after_cursor-Starved :
      (n : ℕ) (r : Result ℕ) (w : World) (s : System)
      → n < resume_at setup.from c
      → cursor_of w ≡ c
      → ((k : ℕ) → r ≡ ok k → k ≡ c)
      → Starved s
      → Starved (after_cursor setup n (r, w) s)
  after_cursor-Starved n (ok k) w s late at_c read h = let q : k ≡ c = read k refl in ground arith
  after_cursor-Starved n (err e) w s late at_c read h = ground arith

  back_moves-Starved :
      (b : Back) (s : System) → s.back ≡ b → Starved s → Starved (back_moves setup b s)
  back_moves-Starved Back.idle s p h = h
  back_moves-Starved (Back.reading n) s p h =
      let (r, w) = get_backfill_cursor s.world in
      let (kept, read) = cursor_read s.world in
      after_cursor-Starved n r w s (ground arith) (kept ∙ h.cursor) (λ k q. read k q ∙ h.cursor) h
  back_moves-Starved (Back.at n curr) s p h = absurd (ground arith)
  back_moves-Starved (Back.ended r) s p h = h

  balance_moves-Starved :
      (b : Balance) (s : System)
      → s.balance ≡ b
      → Starved s
      → Starved (balance_moves_from setup b s)
  balance_moves-Starved Balance.idle s p h = h
  balance_moves-Starved Balance.waiting s p h = ground arith
  balance_moves-Starved Balance.reading s p h = absurd (ground arith)
  balance_moves-Starved (Balance.at k) s p h = absurd (ground arith)
  balance_moves-Starved (Balance.ended e) s p h = h

  act-Starved : (a : Action) (s : System) → Late a → Starved s → Starved (act setup a s)
  unfolding act head_received backfill_step balance_step forward_fails balance_cancelled
  act-Starved (answers r) s late h = node_answers-Starved r s late h
  act-Starved (head_arrives id) s late h = received-Starved s.forward id s h
  act-Starved (stream_fails e) s late h = ground arith
  act-Starved backfill_moves s late h = back_moves-Starved s.back s refl h
  act-Starved balance_moves s late h = balance_moves-Starved s.balance s refl h
  act-Starved (balance_stops e) s late h = ground arith
  act-Starved interrupted s late h = ground arith

  run-Starved :
      (actions : List Action) (s : System)
      → ((a : Action) → In a actions → Late a)
      → Starved s
      → Starved (run setup actions s)
  unfolding run
  run-Starved [] s late h = h
  run-Starved (a ∷ actions) s late h =
      run-Starved actions (act setup a s) (λ b i. late b (inr i))
        (act-Starved a s (late a (inl refl)) h)

-- Where the stored cursor has passed every block that the node may give as the last one, the backfill
-- has nothing to do and sends no signal: no interleaving ever lets the balance fill in, whatever the
-- forward fill stores meanwhile.
pub run-up_to_date :
    (setup : Setup) (actions : List Action) (w : World)
    → ((n : ℕ) → In (answers (ok n)) actions → n < resume_at setup.from (cursor_of w))
    → has_begun (reached setup actions w).signal (reached setup actions w).balance ≡ false
run-up_to_date setup actions w late =
    let starved =
      run-Starved setup (cursor_of w) actions (start w)
        (λ a i n p. late n (subst (λ x. In x actions) p i))
        (record { cursor = refl; nothing = tt; waits = refl }) in
    starved.waits
