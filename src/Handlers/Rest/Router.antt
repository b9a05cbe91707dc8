-- ===== src/Handlers/Rest/Router.antt =====
-- internal/handlers/rest/router.go: the table of routes, and the counters round it. As in net/http, a
-- pattern with GET serves HEAD too, another method on its path is refused with 405, and a path
-- without a pattern with 404. A handler's status is that of its `WriteHeader`, or 200.
use evm_indexer.Prelude.{ℕ, ◌+◌, Str, str, ◌=ₛ◌, Bool, ◌||◌, leb, if◌then◌else◌}
use evm_indexer.Exec.{World}
use evm_indexer.Services.Query.{QueryRepository}
use evm_indexer.Handlers.Rest.{Query}
use evm_indexer.Handlers.Rest.Server.{
  Response, message, get_block, get_transaction, get_event, get_event_by_tx_log,
}

-- the path as `ServeMux` has cleaned it
pub record Request : Type 0 where
  pub method : Str
  pub path : Str
  pub query : Query

-- `RestProcessedRequest` and `RestError`, or the two of GraphQL
pub record Counters : Type 0 where
  pub processed : ℕ
  pub failed : ℕ

-- What `metricsMiddleware` adds for one request, by the recorded status.
unfoldable pub observe : ℕ → Counters → Counters
observe status c = record {
  processed = c.processed + 1;
  failed = if leb 400 status then c.failed + 1 else c.failed;
}

abbrev pub is_get : Str → Bool
is_get method = method =ₛ str "GET" || method =ₛ str "HEAD"

abbrev pub plain : ℕ → Response
plain status = record { status = status; body = message }

abbrev pub only_get : Request → (Query → World → Response × World) → World → Response × World
only_get r handler w = if is_get r.method then handler r.query w else (plain 405, w)

module _ (repo : QueryRepository) (offset_max range_max_time : ℕ) where
  unfoldable pub rest_mux : Request → World → Response × World
  rest_mux r w =
      if r.path =ₛ str "/blocks"
      then only_get r (get_block repo offset_max range_max_time) w
      else if r.path =ₛ str "/transactions"
      then only_get r (get_transaction repo offset_max range_max_time) w
      else if r.path =ₛ str "/events"
      then only_get r (get_event repo offset_max range_max_time) w
      else if r.path =ₛ str "/events/log"
      then only_get r (get_event_by_tx_log repo offset_max range_max_time) w
      else (plain 404, w)
