-- ===== src/Services/Forwardfill/Written.antt =====
-- What the forward fill leaves in the tables.
use evm_indexer.Prelude.{◌=ₛ◌, ◌≡◌, ◌⊎◌, true, false, Option, none, some}
use evm_indexer.Domain.Models.{Block}
use evm_indexer.Store.{Store}
use evm_indexer.Exec.{World}
use evm_indexer.Exec.Keeps.{Keeps}
use evm_indexer.Repository.Indexer.Deleted.{Removed}

abbrev Still : Store → World → Type 0
Still s w = w.store ≡ s

-- The tables after the rival is gone: unchanged where there is none.
abbrev pub Replaced : Option Block → Block → Store → Store → Type 0
Replaced none b s t = t ≡ s
Replaced (some curr) b s t =
    (((curr.hash =ₛ b.hash) ≡ true) × (t ≡ s))
    ⊎ (((curr.hash =ₛ b.hash) ≡ false) × Removed b.id s t)
