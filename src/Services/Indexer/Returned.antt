-- ===== src/Services/Indexer/Returned.antt =====
-- What a run returns, once all its fills have ended.
use evm_indexer.Prelude.{
  ℕ, ◌≡◌, refl, ◌⊎◌, inl, inr, Option-cases, Bool, true, false, Option, none, some, List, arith,
  leb,
}
use evm_indexer.Domain.Errors.{Error, Result, ok, err}
use evm_indexer.Exec.{World}
use evm_indexer.Repository.Indexer.{get_backfill_cursor, get_balancefill_cursor}
use evm_indexer.Services.Backfill.{batch_end, backfill_round}
use evm_indexer.Services.Forwardfill.{handle_head}
use evm_indexer.Services.Balancefill.Loop.{balancefill_pass}
use evm_indexer.Services.Indexer.Order.{reached}
use evm_indexer.Services.Indexer.Steps.{run_keeps}
use evm_indexer.Services.Indexer.{
  Setup, batch, Phase, asking, refused, started, Forward, receiving, Back, Balance, System, start,
  keep_error, node_answers, after_head, forward_fails, after_round, after_balance_cursor,
  after_pass, balance_cancelled, run_lag, Action, answers, head_arrives, stream_fails,
  backfill_moves, balance_moves, balance_stops, interrupted, received, head_received, after_cursor,
  round_if, back_moves, backfill_step, balance_moves_from, balance_step, act, run, returned,
}

-- The forward fill has not ended, or the group has kept an error.
abbrev has_error : Forward → Option Error → Bool
has_error receiving first = true
has_error (Forward.ended e) none = false
has_error (Forward.ended e) (some x) = true

abbrev Sound : System → Type 0
Sound s = has_error s.forward s.first ≡ true

keep_error-has_error :
    (f : Forward) (first : Option Error) (e : Error)
    → has_error f first ≡ true
    → has_error f (keep_error first e) ≡ true
keep_error-has_error receiving first e h = refl
keep_error-has_error (Forward.ended x) none e h = refl
keep_error-has_error (Forward.ended x) (some y) e h = refl

ended-has_error :
    (x e : Error) (first : Option Error) → has_error (Forward.ended x) (keep_error first e) ≡ true
ended-has_error x e none = refl
ended-has_error x e (some y) = refl

after_head-Sound :
    (r : Result (Unit {0})) (w : World) (s : System) → Sound s → Sound (after_head (r, w) s)
after_head-Sound (ok _) w s h = h
after_head-Sound (err e) w s h = ended-has_error e e s.first

after_round-Sound :
    (n end : ℕ) (r : Result (Unit {0})) (w : World) (s : System)
    → Sound s
    → Sound (after_round n end (r, w) s)
after_round-Sound n end (ok _) w s h = h
after_round-Sound n end (err e) w s h = keep_error-has_error s.forward s.first e h

after_balance_cursor-Sound :
    (r : Result ℕ) (w : World) (s : System) → Sound s → Sound (after_balance_cursor (r, w) s)
after_balance_cursor-Sound (ok c) w s h = h
after_balance_cursor-Sound (err e) w s h = keep_error-has_error s.forward s.first e h

after_pass-Sound :
    (c : ℕ) (r : Result (Option ℕ)) (w : World) (s : System)
    → Sound s
    → Sound (after_pass c (r, w) s)
after_pass-Sound c (ok next) w s h = h
after_pass-Sound c (err e) w s h = keep_error-has_error s.forward s.first e h

node_answers-Sound : (r : Result ℕ) (s : System) → Sound s → Sound (node_answers r s)
unfolding node_answers
node_answers-Sound (ok n) s h = ground arith
node_answers-Sound (err e) s h = ground arith

forward_fails-Sound : (e : Error) (s : System) → Sound s → Sound (forward_fails e s)
unfolding forward_fails
forward_fails-Sound e s h = ground (arith, ended-has_error e e s.first)

balance_cancelled-Sound : (e : Error) (s : System) → Sound s → Sound (balance_cancelled e s)
unfolding balance_cancelled
balance_cancelled-Sound e s h = ground (arith, keep_error-has_error s.forward s.first e h)

module _ (setup : Setup) where
  after_cursor-Sound :
      (n : ℕ) (r : Result ℕ) (w : World) (s : System)
      → Sound s
      → Sound (after_cursor setup n (r, w) s)
  after_cursor-Sound n (ok c) w s h = ground arith
  after_cursor-Sound n (err e) w s h = keep_error-has_error s.forward s.first e h

  received-Sound : (f : Forward) (id : ℕ) (s : System) → Sound s → Sound (received setup f id s)
  received-Sound receiving id s h =
      let (r, w) = handle_head setup.fetch id s.world in after_head-Sound r w s h
  received-Sound (Forward.ended _) id s h = h

  round_if-Sound :
      (more : Bool) (n curr : ℕ) (s : System) → Sound s → Sound (round_if setup more n curr s)
  round_if-Sound true n curr s h =
      let end = batch_end (batch setup) n curr in
      let (r, w) = backfill_round setup.fetch setup.schedule (batch setup) n curr end s.world in
      after_round-Sound n end r w s h
  round_if-Sound false n curr s h = h

  back_moves-Sound : (b : Back) (s : System) → Sound s → Sound (back_moves setup b s)
  back_moves-Sound Back.idle s h = h
  back_moves-Sound (Back.reading n) s h =
      let (r, w) = get_backfill_cursor s.world in after_cursor-Sound n r w s h
  back_moves-Sound (Back.at n curr) s h = round_if-Sound (leb curr n) n curr s h
  back_moves-Sound (Back.ended r) s h = h

  balance_moves-Sound : (b : Balance) (s : System) → Sound s → Sound (balance_moves_from setup b s)
  balance_moves-Sound Balance.idle s h = h
  balance_moves-Sound Balance.waiting s h = ground arith
  balance_moves-Sound Balance.reading s h =
      let (r, w) = get_balancefill_cursor s.world in after_balance_cursor-Sound r w s h
  balance_moves-Sound (Balance.at c) s h =
      let (r, w) = balancefill_pass setup.eth setup.iterate run_lag c s.world in
      after_pass-Sound c r w s h
  balance_moves-Sound (Balance.ended e) s h = h

  act-Sound : (a : Action) (s : System) → Sound s → Sound (act setup a s)
  unfolding act head_received backfill_step balance_step
  act-Sound (answers r) s h = node_answers-Sound r s h
  act-Sound (head_arrives id) s h = received-Sound s.forward id s h
  act-Sound (stream_fails e) s h = forward_fails-Sound e s h
  act-Sound backfill_moves s h = back_moves-Sound s.back s h
  act-Sound balance_moves s h = balance_moves-Sound s.balance s h
  act-Sound (balance_stops e) s h = balance_cancelled-Sound e s h
  act-Sound interrupted s h = h

  run-Sound : (actions : List Action) (s : System) → Sound s → Sound (run setup actions s)
  run-Sound actions s h = run_keeps setup Sound act-Sound actions s h

-- What is returned in a state, by how GetLastBlockId went.
abbrev pub IsReturned : System → Result (Unit {0}) → Type 0
IsReturned s r =
    (e : Error) × (r ≡ err e)
    × ((s.phase ≡ refused e) ⊎ ((n : ℕ) × (s.phase ≡ started n) × (s.first ≡ some e)))

returned-IsReturned :
    (phase : Phase) (s : System) (r : Result (Unit {0}))
    → s.phase ≡ phase
    → Sound s
    → returned s ≡ some r
    → IsReturned s r
unfolding returned
returned-IsReturned asking s r q h p = absurd (ground arith)
returned-IsReturned (refused e) s r q h p = (e, ground arith, inl q)
returned-IsReturned (started m) s r q h p = elim (Option-cases s.first) [
  | inl f ↦ absurd (ground arith)
  | inr (e, f) ↦ (e, ground arith, inr (m, q, f))
]

-- `Run` never returns without an error: it returns that of GetLastBlockId, if that refused, and else
-- the first error of the fills.
pub run-IsReturned :
    (setup : Setup) (actions : List Action) (w : World) (r : Result (Unit {0}))
    → returned (reached setup actions w) ≡ some r
    → IsReturned (reached setup actions w) r
run-IsReturned setup actions w r h =
    returned-IsReturned (reached setup actions w).phase (reached setup actions w) r refl
      (run-Sound setup actions (start w) refl) h
