-- ===== src/Server.antt =====
-- internal/server/server.go: the paths of the API's server. The handlers under a prefix get the rest of
-- the path; a path that lacks the last slash of a prefix is redirected, as net/http does. What
-- net/http takes for the clean form of a path is a parameter.
pub mod Counted
use evm_indexer.Prelude.{
  ℕ, Str, str, ◌==◌, ◌=ₛ◌, Bool, true, false, ◌&&◌, ◌||◌, not, List, [], ◌∷◌, drop, if◌then◌else◌,
}
use evm_indexer.Exec.{World}
use evm_indexer.Services.Query.{QueryRepository}
use evm_indexer.Handlers.Rest.Server.{Response}
use evm_indexer.Handlers.Rest.Router.{Request, Counters, observe, is_get, plain, rest_mux}
use evm_indexer.Handlers.Graphql.Router.{Executor, graphql_mux}

pub data Reply : Type 0 where
  response : Response → Reply
  -- the body is gqlgen's
  graphql : ℕ → Reply
  -- what becomes of the connection is `Handlers.Ws`'s
  upgraded : Reply

pub record Api : Type 0 where
  pub world : World
  pub rest : Counters
  pub graphql : Counters

unfoldable pub has_prefix : Str → Str → Bool
has_prefix [] s = true
has_prefix (x ∷ xs) [] = false
has_prefix (x ∷ xs) (y ∷ ys) = (x == y) && has_prefix xs ys

abbrev pub stripped : ℕ → Request → Request
stripped n r = record r { path = drop n r.path }

unfoldable pub is_rest : Request → Bool
unfolding has_prefix
is_rest r = has_prefix (str "/api/") r.path

unfoldable pub is_graphql : Request → Bool
unfolding has_prefix
is_graphql r = has_prefix (str "/graphql/") r.path

-- the paths that ask nothing of a service
unfoldable pub serve_other : Request → Reply
serve_other r =
    if r.path =ₛ str "/ws"
    then upgraded
    else if r.path =ₛ str "/health"
    then response (plain (if is_get r.method then 200 else 405))
    else if r.path =ₛ str "/api"
    then response (plain 301)
    else if r.path =ₛ str "/graphql"
    then response (plain 301)
    else response (plain 404)

module _ (repo : QueryRepository) (offset_max range_max_time : ℕ) (executor : Executor)
    (playground_enabled : Bool) (clean : Str → Str) where
  -- the middleware of the REST router round its table
  unfoldable pub serve_rest : Request → Api → Reply × Api
  serve_rest r a =
      let (p, w) = rest_mux repo offset_max range_max_time (stripped 4 r) a.world in
      (response p, record a { world = w; rest = observe p.status a.rest })

  unfoldable pub serve_graphql : Request → Api → Reply × Api
  serve_graphql r a =
      let (status, w) = graphql_mux executor playground_enabled (stripped 8 r) a.world in
      (Reply.graphql status, record a { world = w; graphql = observe status a.graphql })

  -- a path that ServeMux leaves as it is; it cleans none of a CONNECT
  unfoldable pub is_clean : Request → Bool
  is_clean r = (r.method =ₛ str "CONNECT") || (clean r.path =ₛ r.path)

  -- any other path is redirected to the clean one before a handler sees it
  unfoldable pub serve : Request → Api → Reply × Api
  unfolding is_clean
  serve r a =
      if not (is_clean r)
      then (response (plain 301), a)
      else if is_rest r
      then serve_rest r a
      else if is_graphql r
      then serve_graphql r a
      else (serve_other r, a)

  -- Requests one after the other, each with its reply, the first one first.
  unfoldable pub serve_all : List Request → Api → List (Request × Reply) × Api
  serve_all [] a = ([], a)
  serve_all (r ∷ rs) a =
      let (p, b) = serve r a in let (log, c) = serve_all rs b in ((r, p) ∷ log, c)
