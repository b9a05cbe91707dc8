-- ===== src/Services/Backfill/Agrees.antt =====
-- A node that answers for every block of a range, with data that the columns hold, and tables whose
-- rows of that range are the node's.
use evm_indexer.Prelude.{
  ℕ, ◌≡◌, ◌≤◌, refl, sym, ap, ◌∙◌, inl, inr, ◌=ₛ◌, =ₛ_refl, true, false, Bool-cases, ◌∷◌, In, any,
  any_of_In, In-of_any, arith,
}
use evm_indexer.Domain.Errors.{Result, ok}
use evm_indexer.Domain.Models.{Block, Transaction, Event, BlockTxsEvents}
use evm_indexer.Store.{
  Store, block_fits, tx_fits, event_fits, insert_block, insert_tx, insert_event, same_hash, same_id,
  same_tx, same_event, tx_row, event_row,
}
use evm_indexer.Repository.Indexer.Succeeds.{Takes, Accepts}

-- Every row of the item fits the columns of its table.
pub record Fits (d : BlockTxsEvents) : Type 0 where
  pub block : block_fits d.block ≡ true
  pub tx : (t : Transaction) → In t d.txs → tx_fits t ≡ true
  pub event : (e : Event) → In e d.events → event_fits e ≡ true

module _ (fetch : ℕ → Result BlockTxsEvents) (lo hi : ℕ) where
  -- The node answers for each block from `lo` to `hi`, under its own number.
  abbrev pub Serves : Type 0
  Serves =
      (id : ℕ)
      → lo ≤ id
      → id ≤ hi
      → (d : BlockTxsEvents) × (fetch id ≡ ok d) × (d.block.id ≡ id) × Fits d

  -- The stored blocks from `lo` to `hi` have the hashes of the node's.
  abbrev pub Agrees : Store → Type 0
  Agrees s =
      (b : Block)
      → In b s.blocks
      → lo ≤ b.id
      → b.id ≤ hi
      → (d : BlockTxsEvents) × (fetch b.id ≡ ok d) × (b.hash ≡ d.block.hash)

module _ (fetch : ℕ → Result BlockTxsEvents) (lo hi : ℕ) (d : BlockTxsEvents)
    (answer : fetch d.block.id ≡ ok d) (above : lo ≤ d.block.id) (below : d.block.id ≤ hi)
    (fits : Fits d) where
  abbrev V : Store → Type 0
  V = Agrees fetch lo hi

  -- No other block is stored under the number of the node's.
  no_rival :
      (s : Store)
      → V s
      → any (same_id d.block.id) s.blocks ≡ true
      → any (same_hash d.block.hash) s.blocks ≡ true
  no_rival s v h =
      let (b, i, p) = In-of_any (same_id d.block.id) s.blocks h in
      let same : b.id ≡ d.block.id = ground (arith, p) in
      let (c, q, r) = v b i (omega (arith, same)) (omega (arith, same)) in
      let node_same : c ≡ d = ground (arith, sym q ∙ ap fetch same ∙ answer) in
      let hash : b.hash ≡ d.block.hash = r ∙ ap (λ x. x.block.hash) node_same in
      any_of_In (same_hash d.block.hash) b s.blocks i
        (ap (λ x. x =ₛ d.block.hash) hash ∙ =ₛ_refl d.block.hash)

  block-Takes : Takes V (insert_block d.block)
  unfolding insert_block
  block-Takes s v = elim (Bool-cases (any (same_hash d.block.hash) s.blocks)) [
    | inl kept ↦ (s, rw (fits.block, kept) refl, v)
    | inr fresh ↦
        let none_rivals : any (same_id d.block.id) s.blocks ≡ false =
          elim (Bool-cases (any (same_id d.block.id) s.blocks)) [
            | inl h ↦ absurd (ground (arith, no_rival s v h))
            | inr h ↦ h
          ] in
        (
          record s { blocks = d.block ∷ s.blocks },
          rw (fits.block, fresh, none_rivals) refl,
          λ b i l h. elim i [
            | inl here ↦ (d, ap (λ x. fetch x.id) (sym here) ∙ answer, ap (λ x. x.hash) (sym here))
            | inr there ↦ v b there l h
          ],
        )
  ]

  tx-Takes : (t : Transaction) → In t d.txs → Takes V (insert_tx t)
  unfolding insert_tx
  tx-Takes t i s v = elim (Bool-cases (any (same_tx t.hash) s.transactions)) [
    | inl kept ↦ (s, rw (fits.tx t i, kept) refl, v)
    | inr fresh ↦
        (record s { transactions = tx_row t ∷ s.transactions }, rw (fits.tx t i, fresh) refl, v)
  ]

  event-Takes : (e : Event) → In e d.events → (id : ℕ) → Takes V (insert_event id e)
  unfolding insert_event
  event-Takes e i id s v = elim (Bool-cases (any (same_event e.tx_hash e.log_index) s.events)) [
    | inl kept ↦ (s, rw (fits.event e i, kept) refl, v)
    | inr fresh ↦
        (record s { events = event_row id e ∷ s.events }, rw (fits.event e i, fresh) refl, v)
  ]

  pub Serves-Accepts : Accepts V d
  Serves-Accepts = record { block = block-Takes; tx = tx-Takes; event = event-Takes }
