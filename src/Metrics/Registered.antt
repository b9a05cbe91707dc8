-- ===== src/Metrics/Registered.antt =====
-- That the metrics of each program can be registered.
use evm_indexer.Prelude.{
  ℕ, Str, ◌=ₛ◌, ◌≡◌, refl, ap, ◌∙◌, Bool, true, false, List, [], ◌∷◌, if◌then◌else◌, arith,
}
use evm_indexer.Domain.Errors.{Result, ok, ◌>>=◌}
use evm_indexer.Metrics.{
  Metric, is_increasing, is_fit, is_taken, Registry, indexer_metrics, api_metrics, or_panic,
  register_all, new_indexer_metrics, new_api_metrics,
}

-- Each of the metrics is well-formed, and its name is not among `names` and is not that of one before.
abbrev can_register : List Str → List Metric → Bool
can_register names [] = true
can_register names (m ∷ ms) =
    if is_fit m then if is_taken names m then false else can_register (m.name ∷ names) ms else false

both_tests :
    (fit taken later : Bool)
    → (if fit then if taken then false else later else false) ≡ true
    → (fit ≡ true) × (taken ≡ false) × (later ≡ true)
both_tests fit taken later h = ground arith

module _ (reg : Registry) where
  -- The metrics, the last one first, before what was there.
  abbrev pub names_after : List Metric → List Str → List Str
  names_after [] names = names
  names_after (m ∷ ms) names = names_after ms (m.name ∷ names)

  abbrev pub IsRegistered : List Metric → List Str → Result reg.State → Type 0
  IsRegistered ms names r = (t : reg.State) × (r ≡ ok t) × (reg.names t ≡ names_after ms names)

  register_all-IsRegistered :
      (ms : List Metric) (names : List Str) (s : reg.State)
      → reg.names s ≡ names
      → can_register names ms ≡ true
      → IsRegistered ms names (register_all reg ms s)
  unfolding register_all
  register_all-IsRegistered [] names s e h = (s, refl, e)
  register_all-IsRegistered (m ∷ ms) names s e h =
      let (fit, free, later) =
        both_tests (is_fit m) (is_taken names m) (can_register (m.name ∷ names) ms) h in
      let (t, p, q) = reg.registers m s fit (ap (λ l. is_taken l m) e ∙ free) in
      let (u, r, n) =
        register_all-IsRegistered ms (m.name ∷ names) t (q ∙ ap (λ l. m.name ∷ l) e) later in
      (u, ap (λ x. or_panic reg x >>= register_all reg ms) p ∙ r, n)

  indexer_can : can_register [] indexer_metrics ≡ true
  unfolding indexer_metrics ◌=ₛ◌
  indexer_can = refl

  api_can :
      (def_buckets : List ℕ)
      → is_increasing def_buckets ≡ true
      → can_register [] (api_metrics def_buckets) ≡ true
  unfolding api_metrics ◌=ₛ◌
  api_can def_buckets h = rw h

  -- On a new registry the fourteen metrics of the indexer are all registered, none of them panics,
  -- and the registry then holds their names.
  pub new_indexer_metrics-IsRegistered : IsRegistered indexer_metrics [] (new_indexer_metrics reg)
  unfolding new_indexer_metrics
  new_indexer_metrics-IsRegistered =
      register_all-IsRegistered indexer_metrics [] reg.new_registry reg.starts_empty indexer_can

  -- On a new registry the eight metrics of the API are all registered, and none of them panics, if
  -- the default buckets increase.
  pub new_api_metrics-IsRegistered :
      (def_buckets : List ℕ)
      → is_increasing def_buckets ≡ true
      → IsRegistered (api_metrics def_buckets) [] (new_api_metrics reg def_buckets)
  unfolding new_api_metrics
  new_api_metrics-IsRegistered def_buckets h =
      register_all-IsRegistered (api_metrics def_buckets) [] reg.new_registry reg.starts_empty
        (api_can def_buckets h)
