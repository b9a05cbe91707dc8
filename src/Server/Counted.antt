-- ===== src/Server/Counted.antt =====
-- What the counters of the API count.
use evm_indexer.Prelude.{
  ℕ, ◌+◌, ◌≡◌, Str, str, Bool, true, false, Bool-cases, inl, inr, ◌&&◌, List, [], ◌∷◌, length,
  select, leb, if◌then◌else◌, arith,
}
use evm_indexer.Services.Query.{QueryRepository}
use evm_indexer.Handlers.Rest.Router.{Request, Counters, observe}
use evm_indexer.Handlers.Graphql.Router.{Executor}
use evm_indexer.Server.{
  Reply, response, upgraded, Api, has_prefix, is_rest, is_graphql, is_clean, serve_rest,
  serve_graphql, serve, serve_all,
}

abbrev pub reply_status : Reply → ℕ
reply_status (response p) = p.status
reply_status (Reply.graphql status) = status
reply_status upgraded = 101

-- An entry of the log of `serve_all` that answers with an error to a request that `to` accepts.
abbrev pub has_failed : (Request → Bool) → Request × Reply → Bool
has_failed to (r, p) = to r && leb 400 (reply_status p)

is_graphql-not_rest : (r : Request) → is_graphql r ≡ true → is_rest r ≡ false
unfolding is_graphql is_rest
is_graphql-not_rest r h = two r.path h
  where
    two : (s : Str) → has_prefix (str "/graphql/") s ≡ true → has_prefix (str "/api/") s ≡ false
    two [] h = absurd (ground arith)
    two (x ∷ []) h = absurd (ground arith)
    two (x ∷ y ∷ s) h = ground arith

abbrev pub observe_if : Bool → ℕ → Counters → Counters
observe_if b status c = if b then observe status c else c

-- The counters have grown from `before` to `after` by the requests that `to` accepts, and by those
-- of them that the log answers with an error.
pub record Counts (to : Request → Bool) (rs : List Request) (log : List (Request × Reply))
    (before after : Counters) : Type 0 where
  pub processed : after.processed ≡ before.processed + length (select to rs)
  pub failed : after.failed ≡ before.failed + length (select (has_failed to) log)

Counts-cons :
    (to : Request → Bool) (r : Request) (rs : List Request) (p : Reply)
    (log : List (Request × Reply)) (before between after : Counters)
    → between ≡ observe_if (to r) (reply_status p) before
    → Counts to rs log between after
    → Counts to (r ∷ rs) ((r, p) ∷ log) before after
unfolding observe
Counts-cons to r rs p log before between after e h = ground arith

module _ (repo : QueryRepository) (offset_max range_max_time : ℕ) (executor : Executor)
    (playground_enabled : Bool) (clean : Str → Str) where
  abbrev one : Request → Api → Reply × Api
  one = serve repo offset_max range_max_time executor playground_enabled clean

  abbrev all : List Request → Api → List (Request × Reply) × Api
  all = serve_all repo offset_max range_max_time executor playground_enabled clean

  -- A request that a handler sees, and that the test accepts.
  abbrev pub seen : (Request → Bool) → Request → Bool
  seen to r = is_clean repo offset_max range_max_time executor playground_enabled clean r && to r

  rest-serve :
      (r : Request) (a : Api)
      → (one r a).1.rest ≡ observe_if (seen is_rest r) (reply_status (one r a).0) a.rest
  unfolding serve serve_rest serve_graphql
  rest-serve r a =
      elim (Bool-cases
        (is_clean repo offset_max range_max_time executor playground_enabled clean r)) [
          | inr dirty ↦ rw dirty
          | inl tidy ↦ elim (Bool-cases (is_rest r)) [
            | inl yes_rest ↦ rw (tidy, yes_rest)
            | inr not_rest ↦ elim (Bool-cases (is_graphql r)) [
              | inl yes_graphql ↦ rw (tidy, not_rest, yes_graphql)
              | inr neither ↦ rw (tidy, not_rest, neither)
            ]
          ]
        ]

  graphql-serve :
      (r : Request) (a : Api)
      → (one r a).1.graphql ≡ observe_if (seen is_graphql r) (reply_status (one r a).0) a.graphql
  unfolding serve serve_rest serve_graphql
  graphql-serve r a =
      elim (Bool-cases
        (is_clean repo offset_max range_max_time executor playground_enabled clean r)) [
          | inr dirty ↦ rw dirty
          | inl tidy ↦ elim (Bool-cases (is_graphql r)) [
            | inl yes_graphql ↦ rw (tidy, yes_graphql, is_graphql-not_rest r yes_graphql)
            | inr not_graphql ↦ elim (Bool-cases (is_rest r)) [
              | inl yes_rest ↦ rw (tidy, not_graphql, yes_rest)
              | inr neither ↦ rw (tidy, not_graphql, neither)
            ]
          ]
        ]

  -- Over any sequence of requests to the API, whatever their paths, methods and queries, the two
  -- counters of REST grow by the number of requests whose path is under `/api/` and clean, so that
  -- ServeMux does not redirect them, and of those that were answered with a status from 400 on; the
  -- two counters of GraphQL by the same for `/graphql/`.
  pub serve_all-Counts :
      (rs : List Request) (a : Api)
      → Counts (seen is_rest) rs (all rs a).0 a.rest (all rs a).1.rest
        × Counts (seen is_graphql) rs (all rs a).0 a.graphql (all rs a).1.graphql
  unfolding serve_all
  serve_all-Counts [] a = (omega arith, omega arith)
  serve_all-Counts (r ∷ rs) a =
      let (p, b) = one r a in
      let (rest, graphql) = serve_all-Counts rs b in
      (
        Counts-cons (seen is_rest) r rs p (all rs b).0 a.rest b.rest (all rs b).1.rest
            (rest-serve r a) rest,
        Counts-cons (seen is_graphql) r rs p (all rs b).0 a.graphql b.graphql (all rs b).1.graphql
            (graphql-serve r a) graphql,
      )
