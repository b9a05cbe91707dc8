-- ===== src/Handlers/Graphql/Loads.antt =====
-- What a batch of loads answers over the SQL repository: to each key its own rows, in the order of
-- the keys, or to each key the one error.
use evm_indexer.Prelude.{
  ℕ, ◌==◌, ◌≡◌, refl, ap, ◌∙◌, ◌⊎◌, inl, inr, true, List, [], ◌∷◌, map, length, select, any_of_In,
  In,
}
use evm_indexer.Domain.Errors.{Error, ok, err, Result-cases}
use evm_indexer.Store.{Store}
use evm_indexer.Exec.{World}
use evm_indexer.Exec.Keeps.{map-eq-ok}
use evm_indexer.Repository.Query.Answers.{batch_txs-eq-ok}
use evm_indexer.Services.Query.{
  TxGroups, txs_at, group_txs, txs_of_blocks, get_transactions_by_batch_blocks_id,
}
use evm_indexer.Services.Query.Groups.{txs_at-group_txs}
use evm_indexer.Services.Query.Blocks.{txs_shown, select-scan_tx}
use evm_indexer.Services.Query.Sql.{sql}
use evm_indexer.Handlers.Graphql.{
  DtoTransaction, to_transaction_dto, handle_error, txs_per_block, per_block_or_error,
  get_batch_transactions,
}

pub handle_error-length :
    {K V : Type 0} (keys : List K) (e : Error)
    → handle_error {A = V} (length keys) e ≡ map (λ k. err e) keys
unfolding handle_error
handle_error-length [] e = refl
handle_error-length (k ∷ keys) e = ap (λ l. err e ∷ l) (handle_error-length keys e)

-- The transactions stored for a block, as the API shows them.
abbrev pub dtos_of : Store → ℕ → List DtoTransaction
dtos_of s id = map to_transaction_dto (txs_shown true s id)

txs_per_block-dtos :
    (s : Store) (m : TxGroups) (ids : List ℕ)
    → ((id : ℕ) → In id ids → txs_at id m ≡ txs_shown true s id)
    → txs_per_block m ids ≡ map (λ id. ok (dtos_of s id)) ids
unfolding txs_per_block
txs_per_block-dtos s m [] h = refl
txs_per_block-dtos s m (id ∷ ids) h =
    let rest = txs_per_block-dtos s m ids (λ k i. h k (inr i)) in
    let first = h id (inl refl) in λ i. ok (map to_transaction_dto (first i)) ∷ rest i

-- The groups that the service returned hold, for each key, what the tables hold for it.
groups-shown :
    (ids : List ℕ) (w w' : World) (m : TxGroups)
    → get_transactions_by_batch_blocks_id sql ids true w ≡ (ok m, w')
    → (id : ℕ) → In id ids
    → txs_at id m ≡ txs_shown true w.store id
unfolding get_transactions_by_batch_blocks_id txs_of_blocks sql
groups-shown ids w w' m h id i =
    let (ts, v, p, same) = map-eq-ok (txs_of_blocks sql true ids) (group_txs []) w w' m h in
    let (read, _) = batch_txs-eq-ok ids w v ts p in
    ap (txs_at id) same
    ∙ txs_at-group_txs id ts
    ∙ ap (select (λ t. t.block_id == id)) read
    ∙ select-scan_tx id _ w.store.transactions (λ r e. any_of_In (λ n. r.block_id == n) id ids i e)

-- A batch of loads gives each block id, in the order of the ids, exactly the transactions that the
-- tables hold for that block; or, where the service's one call failed, that error for each id.
pub get_batch_transactions-answers :
    (ids : List ℕ) (w : World)
    → ((get_batch_transactions sql ids w).0 ≡ map (λ id. ok (dtos_of w.store id)) ids)
      ⊎ ((e : Error) × ((get_transactions_by_batch_blocks_id sql ids true w).0 ≡ err e)
          × ((get_batch_transactions sql ids w).0 ≡ map (λ id. err e) ids))
unfolding get_batch_transactions
get_batch_transactions-answers ids w =
    let (r, w') = get_transactions_by_batch_blocks_id sql ids true w in
    elim (Result-cases (get_transactions_by_batch_blocks_id sql ids true w).0) [
      | inl (m, p) ↦ inl (
          ap (per_block_or_error ids) p
          ∙ txs_per_block-dtos w.store m ids (groups-shown ids w w' m (λ i. (p i, w'))))
      | inr (e, p) ↦ inr (e, p, ap (per_block_or_error ids) p ∙ handle_error-length ids e)
    ]
