-- ===== src/Exec/Returns.antt =====
-- Rules for actions that return: where every exchange to come succeeds and the tables satisfy `V`, the
-- action returns no error, and leaves both so.
use evm_indexer.Prelude.{◌≡◌, ap, ◌∙◌, []}
use evm_indexer.Domain.Errors.{ok}
use evm_indexer.Store.{Store}
use evm_indexer.Exec.{World, Exec, pure, ◌>>=◌, exchange, outcome, later}
use evm_indexer.Exec.Keeps.{>>=_of_ok, pure_lem}

pub record Good (V : Store → Type 0) (w : World) : Type 0 where
  pub succeeds : w.faults ≡ []
  pub tables : V w.store

-- The action returned from `w`.
pub record Returned {A : Type 0} (V : Store → Type 0) (m : Exec A) (w : World) : Type 0 where
  pub value : A
  pub world : World
  pub returned : m w ≡ (ok value, world)
  pub good : Good V world

pub record Returns {A : Type 0} (V : Store → Type 0) (m : Exec A) : Type 0 where
  pub at : (w : World) → Good V w → Returned V m w

module _ {A : Type 0} {V : Store → Type 0} where
  pub Returns-pure : (a : A) → Returns V (pure a)
  Returns-pure a = record {
    at = λ w g. record { value = a; world = w; returned = pure_lem a w; good = g };
  }

module _ {V : Store → Type 0} where
  pub Returns-exchange : Returns V exchange
  unfolding exchange
  Returns-exchange = record {
    at = λ w g. record {
      value = tt;
      world = record w { faults = later w.faults };
      returned = λ i. (outcome (g.succeeds i), record w { faults = later w.faults });
      good = record { succeeds = ap later g.succeeds; tables = g.tables };
    };
  }

module _ {A B : Type 0} {V : Store → Type 0} where
  pub Returns-bind :
      (m : Exec A) (f : A → Exec B)
      → Returns V m
      → ((a : A) → Returns V (f a))
      → Returns V (m >>= f)
  Returns-bind m f rm rf = record {
    at = λ w g.
        let first = rm.at w g in
        let rest = (rf first.value).at first.world first.good in
        record {
          value = rest.value;
          world = rest.world;
          returned = >>=_of_ok m f w first.returned ∙ rest.returned;
          good = rest.good;
        };
  }
