-- ===== src/Tests/Servers.antt =====
-- The API's server at concrete requests.
use evm_indexer.Prelude.{Str, str, ◌=ₛ◌, true, List, [], ◌∷◌, if◌then◌else◌}
use evm_indexer.Services.Query.Sql.{sql}
use evm_indexer.Handlers.Rest.{Query}
use evm_indexer.Handlers.Rest.Router.{Request, Counters}
use evm_indexer.Handlers.Graphql.Router.{Executor}
use evm_indexer.Server.{Api, is_rest, is_graphql, serve_all}
use evm_indexer.Server.Counted.{Counts, seen, serve_all-Counts}
use evm_indexer.Tests.{world}

-- ?fromBlock=1&toBlock=9
abbrev block_range : Query
block_range name =
    if name =ₛ str "fromBlock" then str "1" else if name =ₛ str "toBlock" then str "9" else []

-- gqlgen answers errors of resolvers with 200
abbrev executor : Executor
executor r w = (200, w)

abbrev fresh : Counters
fresh = record { processed = 0; failed = 0 }

abbrev api : Api
api = record { world = world; rest = fresh; graphql = fresh }

abbrev get : Str → Request
get path = record { method = str "GET"; path = path; query = block_range }

abbrev three : List Request
three = get (str "/api/transactions") ∷ get (str "/api//none") ∷ get (str "/graphql/") ∷ []

-- One path has two slashes together, and is redirected.
abbrev cleaned : Str → Str
cleaned s = if s =ₛ str "/api//none" then str "/api/none" else s

serve_all-Counts_example :
    Counts
      (seen sql 10 60 executor true cleaned is_rest)
      three
      (serve_all sql 10 60 executor true cleaned three api).0
      api.rest
      (serve_all sql 10 60 executor true cleaned three api).1.rest
    × Counts
        (seen sql 10 60 executor true cleaned is_graphql)
        three
        (serve_all sql 10 60 executor true cleaned three api).0
        api.graphql
        (serve_all sql 10 60 executor true cleaned three api).1.graphql
serve_all-Counts_example = serve_all-Counts sql 10 60 executor true cleaned three api
