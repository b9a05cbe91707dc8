-- ===== src/Config.antt =====
-- internal/config/config.go: the settings, from the file of the environment and from the process's own.
-- The parser of the file is godotenv's, and a float64 is what strconv reads: both are parameters.
pub mod Loaded
use evm_indexer.Prelude.{
  ℕ, Str, str, ◌=ₛ◌, Bool, true, false, Option, none, some, List, [], ◌∷◌, if◌then◌else◌,
}
use evm_indexer.Prelude.Int.{ℤ, pos}
use evm_indexer.Domain.Errors.{Error, Result, ok, err, ◌>>=◌}
use evm_indexer.Handlers.Rest.Numbers.{parse_uint, atoi}

abbrev pub Env : Type 0
Env = List (Str × Str)

-- What `os.Open` and the parser make of the path.
pub data EnvFile : Type 0 where
  missing : EnvFile
  unreadable : Error → EnvFile
  parsed : Result Env → EnvFile

unfoldable pub load_env : EnvFile → Result Env
load_env missing = ok []
load_env (unreadable e) = err e
load_env (parsed r) = r

abbrev pub or_os : Option Str → Str → Str
or_os none v = v
or_os (some v) other = v

unfoldable pub find_key : Str → Env → Option Str
find_key key [] = none
find_key key ((k, v) ∷ env) = if k =ₛ key then some v else find_key key env

-- `os` is os.Getenv
unfoldable pub getenv : (Str → Str) → Env → Str → Str
unfolding find_key
getenv os env key = or_os (find_key key env) (os key)

abbrev pub offset_default : ℕ
offset_default = 100

abbrev pub range_time_default : ℕ
range_time_default = 3600

abbrev pub concurrency_default : ℤ
concurrency_default = pos 2

abbrev pub from_default : ℕ
from_default = 0

pub record Config (F : Type 0) : Type 0 where
  pub postgres_dsn : Str
  pub redis_dsn : Str
  pub rpc_http : Str
  pub rpc_ws : Str
  pub port : Str
  pub playground_enabled : Bool
  pub range_max_time : ℕ
  pub offset_max : ℕ
  pub rpc_rate_limit : F
  pub from : ℕ
  pub concurrency_f : ℤ

-- `if getenv(key) != "" { parse } else { default }`
unfoldable pub read_or : {A : Type 0} → (Str → Result A) → A → Str → Result A
read_or parse default v = if v =ₛ [] then ok default else parse v

-- `rate_limit_default` is the float 1
module _ {F : Type 0} (parse_float : Str → Result F) (rate_limit_default : F) (os : Str → Str) where
  unfoldable pub settings : Env → Result (Config F)
  unfolding read_or getenv
  settings env = do
    range_max_time ← read_or parse_uint range_time_default (getenv os env (str "MAX_TIME"))
    offset_max ← read_or parse_uint offset_default (getenv os env (str "MAX_OFFSET"))
    from ← read_or parse_uint from_default (getenv os env (str "FROM"))
    rpc_rate_limit ← read_or parse_float rate_limit_default (getenv os env (str "RPC_RATE_LIMIT"))
    concurrency_f ← read_or atoi concurrency_default (getenv os env (str "CONCURRENCY_FACTOR"))
    ok (record {
      postgres_dsn = getenv os env (str "POSTGRES_DSN");
      redis_dsn = getenv os env (str "REDIS_DSN");
      rpc_http = getenv os env (str "RPC_HTTP");
      rpc_ws = getenv os env (str "RPC_WS");
      port = getenv os env (str "PORT");
      playground_enabled = getenv os env (str "PLAYGROUND_ENABLED") =ₛ str "true";
      range_max_time = range_max_time;
      offset_max = offset_max;
      rpc_rate_limit = rpc_rate_limit;
      from = from;
      concurrency_f = concurrency_f;
    })

  unfoldable pub load : EnvFile → Result (Config F)
  unfolding load_env settings
  load file = do env ← load_env file; settings env
