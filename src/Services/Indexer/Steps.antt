-- ===== src/Services/Indexer/Steps.antt =====
-- Induction on the actions of a run.
use evm_indexer.Prelude.{List, [], ◌∷◌}
use evm_indexer.Services.Indexer.{Setup, System, Action, act, run}

module _ (setup : Setup) (P : System → Type 0)
    (kept : (a : Action) (s : System) → P s → P (act setup a s)) where
  -- What every action keeps holds throughout a run.
  pub run_keeps : (actions : List Action) (s : System) → P s → P (run setup actions s)
  unfolding run
  run_keeps [] s h = h
  run_keeps (a ∷ actions) s h = run_keeps actions (act setup a s) (kept a s h)
