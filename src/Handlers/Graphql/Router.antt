-- ===== src/Handlers/Graphql/Router.antt =====
-- internal/handlers/graphql/router.go: the playground, and the server that gqlgen makes, by the status
-- with which it answers.
use evm_indexer.Prelude.{ℕ, str, ◌=ₛ◌, Bool, ◌&&◌, if◌then◌else◌}
use evm_indexer.Exec.{World}
use evm_indexer.Handlers.Rest.Router.{Request}

abbrev pub Executor : Type 0
Executor = Request → World → ℕ × World

unfoldable pub graphql_mux : Executor → Bool → Request → World → ℕ × World
graphql_mux executor playground_enabled r w =
    if playground_enabled && r.path =ₛ str "/playground" then (200, w) else executor r w
