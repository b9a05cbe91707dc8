-- ===== src/Programs/Exits.antt =====
-- With which status the programs end.
use evm_indexer.Prelude.{
  ℕ, ◌≡◌, ◌≢◌, ◌↔◌, refl, sym, ◌∙◌, Bool, true, Option, none, some, List, arith,
}
use evm_indexer.Domain.Errors.{Error, Result, ok, err, >>=-eq-ok, ◌>>◌}
use evm_indexer.Exec.{World}
use evm_indexer.Pubsub.{subscribe, subscribed}
use evm_indexer.Config.{Config, load}
use evm_indexer.Metrics.{Registry, is_increasing, new_api_metrics}
use evm_indexer.Metrics.Registered.{new_api_metrics-IsRegistered}
use evm_indexer.Handlers.Ws.{Topic}
use evm_indexer.Handlers.Ws.Feeds.{Feeds, new_router}
use evm_indexer.Services.Indexer.{Action}
use evm_indexer.Services.Indexer.Returned.{run-IsReturned}
use evm_indexer.Programs.{
  new_db, run_up_migrations, new_redis, or_panic, Wakeup, listen_failed, interrupted, run_server,
  exit_status,
}
use evm_indexer.Programs.Api.{ApiOutside, start_api, run_api, main_api}
use evm_indexer.Programs.Indexer.{
  IndexerOutside, start_indexer, setup_of, serve, exit_of, run_indexer, main_indexer,
}

exit_status-zero : (r : Result (Unit {0})) → exit_status r ≡ 0 → r ≡ ok tt
unfolding exit_status
exit_status-zero r h = ground arith

-- Redis has accepted the four subscriptions.
pub record AllReceived (receive : Topic → Result (Unit {0})) : Type 0 where
  pub blocks : receive Topic.blocks ≡ ok tt
  pub transactions : receive Topic.transactions ≡ ok tt
  pub events : receive Topic.events ≡ ok tt
  pub reorgs : receive Topic.reorgs ≡ ok tt

new_router-AllReceived :
    (receive : Topic → Result (Unit {0})) (f : Feeds)
    → new_router receive ≡ ok f
    → AllReceived receive
unfolding new_router subscribe
new_router-AllReceived receive f h = ground arith

AllReceived-new_router :
    (receive : Topic → Result (Unit {0}))
    → AllReceived receive
    → new_router receive
      ≡ ok (record {
        blocks = subscribed;
        transactions = subscribed;
        events = subscribed;
        reorgs = subscribed;
      })
unfolding new_router subscribe
AllReceived-new_router receive h = ground arith

-- Every call of the start of the API succeeds.
pub record IsStarted {F : Type 0} (o : ApiOutside F) : Type 0 where
  pub configured :
      (cfg : Config F) × (load o.parse_float o.rate_limit_default o.getenv o.env_file ≡ ok cfg)
  pub db_opened : o.db_opened ≡ ok tt
  pub db_pinged : o.db_pinged ≡ ok tt
  pub dialect : o.dialect ≡ ok tt
  pub migrated : o.migrated ≡ ok tt
  pub redis_parsed : o.redis_parsed ≡ ok tt
  pub redis_pinged : o.redis_pinged ≡ ok tt
  pub received : AllReceived o.receive

check_returned :
    (c : Result (Unit {0})) {A : Type 0} (r : Result A) {a : A}
    → (c >> r) ≡ ok a
    → (c ≡ ok tt) × (r ≡ ok a)
check_returned (ok _) r h = (refl, h)
check_returned (err e) r h = absurd (ground arith)

or_panic-ok : (c : Result (Unit {0})) → or_panic c ≡ ok tt → c ≡ ok tt
or_panic-ok (ok _) h = refl
or_panic-ok (err e) h = absurd (ground arith)

module _ {F : Type 0} (reg : Registry) (def_buckets : List ℕ)
    (increasing : is_increasing def_buckets ≡ true) (o : ApiOutside F) where
  start_api-IsStarted : (cfg : Config F) → start_api reg def_buckets o ≡ ok cfg → IsStarted o
  unfolding start_api
  start_api-IsStarted cfg h =
      let (c, loaded, h₁) =
        >>=-eq-ok (load o.parse_float o.rate_limit_default o.getenv o.env_file) _ cfg h in
      let (db, h₂) = check_returned (new_db o.db_opened o.db_pinged) _ h₁ in
      let (migrations, h₃) = check_returned (run_up_migrations o.dialect o.migrated) _ h₂ in
      let (redis, h₄) = check_returned (new_redis o.redis_parsed o.redis_pinged) _ h₃ in
      let (m, _, h₅) = >>=-eq-ok (new_api_metrics reg def_buckets) _ cfg h₄ in
      let (f, routed, _) = >>=-eq-ok (new_router o.receive) (λ f. ok c) cfg h₅ in
      let (opened, pinged) = check_returned o.db_opened o.db_pinged db in
      let (dialect, migrated) = check_returned o.dialect o.migrated migrations in
      let (parsed, answered) = check_returned o.redis_parsed (or_panic o.redis_pinged) redis in
      record {
        configured = (c, loaded);
        db_opened = opened;
        db_pinged = pinged;
        dialect = dialect;
        migrated = migrated;
        redis_parsed = parsed;
        redis_pinged = or_panic-ok o.redis_pinged answered;
        received = new_router-AllReceived o.receive f routed;
      }

  IsStarted-start_api : (h : IsStarted o) → start_api reg def_buckets o ≡ ok h.configured.0
  unfolding start_api
  IsStarted-start_api h =
      let (s, made, _) = new_api_metrics-IsRegistered reg def_buckets increasing in
      rw (
        h.configured.1,
        h.db_opened,
        h.db_pinged,
        h.dialect,
        h.migrated,
        h.redis_parsed,
        h.redis_pinged,
        made,
        AllReceived-new_router o.receive h.received,
      )

  run_server-ignores :
      (w : Wakeup) (shutdown : Result (Unit {0})) → run_server w shutdown ≡ shutdown
  unfolding run_server
  run_server-ignores (listen_failed e) shutdown = refl
  run_server-ignores interrupted shutdown = refl

  -- Let the default buckets of Prometheus increase. The API's process ends with status 0 exactly if
  -- its settings were read, the database was opened, answered and migrated, Redis answered and
  -- accepted the four subscriptions, and the server's shutdown returned no error: the registration of
  -- the metrics never ends it, and whether the server could listen does not matter.
  pub main_api-zero_iff : (main_api reg def_buckets o ≡ 0) ↔ (IsStarted o × (o.shutdown ≡ ok tt))
  unfolding main_api
  main_api-zero_iff = (
    λ h.
        let (cfg, started, stopped) =
          >>=-eq-ok (start_api reg def_buckets o) _ tt
            (exit_status-zero (run_api reg def_buckets o) h) in
        (start_api-IsStarted cfg started, sym (run_server-ignores o.wakeup o.shutdown) ∙ stopped),
    λ (h, stopped). rw (IsStarted-start_api h, run_server-ignores o.wakeup o.shutdown, stopped),
  )

exit_of-ne-zero :
    (x : Option (Result (Unit {0})))
    → ((r : Result (Unit {0})) → x ≡ some r → (e : Error) × (r ≡ err e))
    → exit_of x ≢ some 0
exit_of-ne-zero none only h = cc
exit_of-ne-zero (some r) only h =
    let (e, p) = only r refl in
    let q : r ≡ ok tt = exit_status-zero r (ground arith) in cc (sym p ∙ q)

module _ {F : Type 0} (reg : Registry) (o : IndexerOutside F) where
  serve-IsError :
      (actions : List Action) (p : Result (Config F) × World) (r : Result (Unit {0}))
      → serve reg o actions p ≡ some r
      → (e : Error) × (r ≡ err e)
  serve-IsError actions (ok cfg, w) r h =
      let (e, p, _) = run-IsReturned (setup_of reg o cfg) actions w r h in (e, p)
  serve-IsError actions (err e, w) r h = (e, ground arith)

  -- The indexer's process never ends with status 0: whatever its start meets, with and without the
  -- flag `-reindex`, and in any interleaving of its service, where it ends, it ends with another.
  pub main_indexer-ne-zero :
      (reindex : Bool) (actions : List Action) (w : World)
      → main_indexer reg o reindex actions w ≢ some 0
  unfolding main_indexer run_indexer
  main_indexer-ne-zero reindex actions w =
      exit_of-ne-zero (run_indexer reg o reindex actions w)
        (λ r p. serve-IsError actions (start_indexer reg o reindex w) r p)
