-- ===== src/Tests/Settings.antt =====
-- Settings read from concrete environments.
use evm_indexer.Prelude.{ℕ, Str, str, ◌=ₛ◌, ◌≡◌, refl, true, [], ◌∷◌}
use evm_indexer.Prelude.Int.{pos}
use evm_indexer.Domain.Errors.{Result, ok}
use evm_indexer.Handlers.Rest.Numbers.{parse_digits, parse_uint, atoi}
use evm_indexer.Config.{Env, parsed, load_env, find_key, getenv, Config, read_or, settings, load}
use evm_indexer.Config.Loaded.{IsConfigured, load-IsConfigured}

abbrev any_float : Str → Result ℕ
any_float s = ok 0

abbrev nothing_set : Str → Str
nothing_set key = []

-- the variable that is set to an empty text counts as not set
abbrev env : Env
env = (str "MAX_OFFSET", str "50") ∷ (str "FROM", []) ∷ (str "PLAYGROUND_ENABLED", str "true") ∷ []

abbrev settings_50 : Config ℕ
settings_50 = record {
  postgres_dsn = [];
  redis_dsn = [];
  rpc_http = [];
  rpc_ws = [];
  port = [];
  playground_enabled = true;
  range_max_time = 3600;
  offset_max = 50;
  rpc_rate_limit = 1;
  from = 0;
  concurrency_f = pos 2;
}

loads : load any_float 1 nothing_set (parsed (ok env)) ≡ ok settings_50
unfolding load load_env settings read_or getenv find_key parse_uint parse_digits atoi ◌=ₛ◌
loads = refl

load-IsConfigured_example :
    (read : Env) × (load_env (parsed (ok env)) ≡ ok read)
    × IsConfigured any_float 1 nothing_set read settings_50
load-IsConfigured_example =
    load-IsConfigured any_float 1 nothing_set (parsed (ok env)) settings_50 loads
