-- ===== src/Programs/Reindex.antt =====
-- What the flag `-reindex` brings about.
use evm_indexer.Prelude.{
  ℕ, ◌+◌, ◌^◌, ◌<◌, ◌≡◌, sym, ap, ◌∙◌, subst, Bool, true, false, arith, if◌then◌else◌,
}
use evm_indexer.Domain.Errors.{Result, ok}
use evm_indexer.Store.{Store}
use evm_indexer.Exec.{World, pure, ◌>>=◌, exchange}
use evm_indexer.Exec.Keeps.{>>=-eq-ok, lift-eq-ok, pure_lem}
use evm_indexer.Repository.Indexer.{reset_backfill_cursor, run_sql, effect}
use evm_indexer.Config.{Config, load}
use evm_indexer.Metrics.{Registry, new_indexer_metrics}
use evm_indexer.Services.Backfill.{IsSchedule, batch_size, resume_at, backfill}
use evm_indexer.Services.Backfill.Filled.{AreNumbered, IsFilled, backfill_complete}
use evm_indexer.Programs.Indexer.{IndexerOutside, new_fetcher, connect, start_indexer}

-- The tables of a start with the flag: only the backfill's cursor has moved.
abbrev pub restarted : Store → Store
restarted s = record s { backfill_cursor = 0 }

abbrev Leaves : Store → Bool → Store → Type 0
Leaves s reindex s' = s' ≡ (if reindex then restarted s else s)

reset-Leaves :
    (reindex : Bool) (w w' : World)
    → (if reindex then reset_backfill_cursor else pure tt) w ≡ (ok tt, w')
    → Leaves w.store reindex w'.store
unfolding reset_backfill_cursor run_sql effect exchange ◌>>=◌
reset-Leaves true w w' h = ground arith
reset-Leaves false w w' h = ground arith

-- the backfill of the service that the program starts
abbrev pub refill : {F : Type 0} → IndexerOutside F → ℕ → Config F → World → Result Bool × World
refill o target cfg w = backfill o.fetch o.schedule o.cpus cfg.from target cfg.concurrency_f w

module _ {F : Type 0} (reg : Registry) (o : IndexerOutside F) where
  start_indexer-Leaves :
      (reindex : Bool) (w w' : World) (cfg : Config F)
      → start_indexer reg o reindex w ≡ (ok cfg, w')
      → Leaves w.store reindex w'.store
  unfolding start_indexer
  start_indexer-Leaves reindex w w' cfg h =
      let (c, _, h₁) =
        lift-eq-ok (load o.parse_float o.rate_limit_default o.getenv o.env_file) _ w w' cfg h in
      let (_, _, h₂) = lift-eq-ok (connect reg o) _ w w' cfg h₁ in
      let (_, _, h₃) = lift-eq-ok (new_indexer_metrics reg) _ w w' cfg h₂ in
      let (_, v, reset, h₄) =
        >>=-eq-ok (if reindex then reset_backfill_cursor else pure tt) _ w h₃ in
      let (_, _, h₅) =
        lift-eq-ok (new_fetcher o.http_dialled o.ws_dialled) (λ _. pure c) v w' cfg h₄ in
      let same : w'.store ≡ v.store = sym (ap (λ x. x.1.store) (sym (pure_lem c v) ∙ h₅)) in
      same ∙ reset-Leaves reindex w v reset

  module _ (scheduled : IsSchedule o.schedule) (target : ℕ) (w w' : World) (cfg : Config F)
      (some_batch : 0 < batch_size o.cpus cfg.concurrency_f)
      (no_wrap : target + batch_size o.cpus cfg.concurrency_f < 2 ^ 64)
      (numbered : AreNumbered o.fetch cfg.from target) where
    -- Let the batch size not be 0, the target plus it be below 2 ^ 64, and the node answer for each
    -- block from the configured first one to the target, where it does, with a block of that number.
    -- After a start of the indexer with `-reindex`, wherever the cursor stood before, if the
    -- backfill sends its signal, the node has answered for all of these blocks, a row stands under
    -- each key of each answer's block, transactions and events, no row has been lost, and each row
    -- that was not there before is, column by column, one of an answer.
    pub reindex_complete :
        start_indexer reg o true w ≡ (ok cfg, w')
        → (refill o target cfg w').0 ≡ ok true
        → IsFilled o.fetch cfg.from target w'.store (refill o target cfg w').1.store
    unfolding resume_at
    reindex_complete h signal =
        let cursor : w'.store.backfill_cursor ≡ 0 =
          ap (λ (s : Store). s.backfill_cursor) (start_indexer-Leaves true w w' cfg h) in
        let first : resume_at cfg.from w'.store.backfill_cursor ≡ cfg.from =
          ap (resume_at cfg.from) cursor in
        let (done, _) =
          backfill_complete o.fetch o.schedule scheduled o.cpus cfg.from target cfg.concurrency_f
            some_batch no_wrap w' (subst (λ n. AreNumbered o.fetch n target) (sym first) numbered)
            signal in
        subst (λ n. IsFilled o.fetch n target w'.store (refill o target cfg w').1.store) first done
