-- ===== src/Metrics.antt =====
-- internal/metrics/server.go: the metrics of the two programs, and their registration. The registry is
-- Prometheus's: what the code relies on is that it takes a metric that is well-formed under a name
-- that is not taken. Where it does not, promauto panics.
pub mod Registered
use evm_indexer.Prelude.{
  ℕ, Str, String, str, ◌=ₛ◌, ◌≡◌, Bool, true, false, ◌&&◌, ◌||◌, List, [], ◌∷◌, any, leb, ltb, ◌==◌,
}
use evm_indexer.Domain.Errors.{Error, Result, ok, err, panic, ◌>>=◌}

-- The buckets of a histogram in tenths of a second, or of a block.
pub data Kind : Type 0 where
  counter gauge : Kind
  histogram : List ℕ → Kind

pub record Metric : Type 0 where
  pub name : Str
  pub kind : Kind

abbrev is_letter : ℕ → Bool
is_letter c =
    (leb b'a' c && leb c b'z') || ((leb b'A' c && leb c b'Z') || ((c == b'_') || (c == b':')))

abbrev all_name : Str → Bool
all_name [] = true
all_name (c ∷ cs) = (is_letter c || (leb b'0' c && leb c b'9')) && all_name cs

-- [a-zA-Z_:][a-zA-Z0-9_:]*
abbrev pub is_name : Str → Bool
is_name [] = false
is_name (c ∷ cs) = is_letter c && all_name cs

abbrev pub is_increasing : List ℕ → Bool
is_increasing [] = true
is_increasing (x ∷ []) = true
is_increasing (x ∷ y ∷ xs) = ltb x y && is_increasing (y ∷ xs)

abbrev pub has_buckets : Kind → Bool
has_buckets counter = true
has_buckets gauge = true
has_buckets (histogram buckets) = is_increasing buckets

abbrev pub is_fit : Metric → Bool
is_fit m = is_name m.name && has_buckets m.kind

abbrev pub is_taken : List Str → Metric → Bool
is_taken names m = any (λ n. n =ₛ m.name) names

pub record Registry : Type 1 where
  pub State : Type 0
  pub new_registry : State
  pub names : State → List Str
  pub register : Metric → State → Result State
  pub starts_empty : names new_registry ≡ []
  pub registers :
      (m : Metric) (s : State)
      → is_fit m ≡ true
      → is_taken (names s) m ≡ false
      → (t : State) × (register m s ≡ ok t) × (names t ≡ m.name ∷ names s)

abbrev counts : String → Metric
counts name = record { name = str name; kind = counter }

abbrev gauges : String → Metric
gauges name = record { name = str name; kind = gauge }

abbrev observes : String → List ℕ → Metric
observes name buckets = record { name = str name; kind = histogram buckets }

-- In the order in which they are made.
unfoldable pub indexer_metrics : List Metric
indexer_metrics =
    counts "indexer_blocks_synced_total"
    ∷ counts "indexer_backfill_errors_total"
    ∷ counts "indexer_forwardfill_errors_total"
    ∷ counts "indexer_balancefill_errors_total"
    ∷ gauges "indexer_backfill_syncing"
    ∷ gauges "indexer_forwardfill_syncing"
    ∷ gauges "indexer_balancefill_syncing"
    ∷ gauges "indexer_backfill_last_block_number"
    ∷ gauges "indexer_forwardfill_last_block_number"
    ∷ observes "indexer_block_fetch_duration_seconds"
        (5 ∷ 10 ∷ 20 ∷ 50 ∷ 100 ∷ 200 ∷ 300 ∷ 600 ∷ [])
    ∷ observes "indexer_block_db_write_duration_seconds"
        (10 ∷ 50 ∷ 100 ∷ 300 ∷ 600 ∷ 1200 ∷ 3000 ∷ [])
    ∷ observes "indexer_block_processing_duration_seconds"
        (10 ∷ 50 ∷ 100 ∷ 300 ∷ 600 ∷ 1200 ∷ 3000 ∷ 6000 ∷ [])
    ∷ observes "indexer_batch_size_blocks" (10 ∷ 50 ∷ 100 ∷ 250 ∷ 500 ∷ 1000 ∷ 2000 ∷ 5000 ∷ [])
    ∷ counts "indexer_rows_written_total"
    ∷ []

-- `def_buckets` is prometheus.DefBuckets
unfoldable pub api_metrics : List ℕ → List Metric
api_metrics def_buckets =
    gauges "api_ws_active_connections"
    ∷ counts "api_ws_messages_sent_total"
    ∷ counts "api_rest_requests_total"
    ∷ counts "api_graphql_requests_total"
    ∷ counts "api_rest_errors_total"
    ∷ counts "api_graphql_errors_total"
    ∷ observes "api_rest_request_duration_seconds" def_buckets
    ∷ observes "api_graphql_request_duration_seconds" def_buckets
    ∷ []

module _ (reg : Registry) where
  abbrev pub or_panic : Result reg.State → Result reg.State
  or_panic (ok s) = ok s
  or_panic (err e) = err panic

  unfoldable pub register_all : List Metric → reg.State → Result reg.State
  register_all [] s = ok s
  register_all (m ∷ ms) s = or_panic (reg.register m s) >>= register_all ms

  -- `NewIndexerMetrics(NewRegistry())`, and `NewApiMetrics(NewRegistry())`
  unfoldable pub new_indexer_metrics : Result reg.State
  unfolding register_all indexer_metrics
  new_indexer_metrics = register_all indexer_metrics reg.new_registry

  unfoldable pub new_api_metrics : List ℕ → Result reg.State
  unfolding register_all api_metrics
  new_api_metrics def_buckets = register_all (api_metrics def_buckets) reg.new_registry
