-- ===== src/Services/Query/Blocks.antt =====
-- The lists of blocks that the query service answers over the SQL repository.
use evm_indexer.Prelude.{
  ℕ, ◌+◌, ◌≤◌, ◌<◌, ◌==◌, ◌≡◌, refl, sym, ap, ◌∙◌, subst, inl, inr, Bool, true, false, List, [],
  ◌∷◌, map, select, In, if◌then◌else◌, arith,
}
use evm_indexer.Domain.Errors.{Result, ok}
use evm_indexer.Domain.Models.{Block, Transaction, BlockTxs}
use evm_indexer.Domain.Rules.{validate_block_range}
use evm_indexer.Store.{Store, TxRow}
use evm_indexer.Exec.{World, Exec, lift, pure, ◌>>=◌}
use evm_indexer.Exec.Keeps.{>>=-eq-ok, pure_lem}
use evm_indexer.Repository.Query.{scan_tx, in_range, in_time, one_of_ids}
use evm_indexer.Repository.Query.Answers.{range_id-eq-ok, range_time-eq-ok, batch_txs-eq-ok}
use evm_indexer.Services.Backfill.{u64}
use evm_indexer.Services.Query.{
  TxGroups, group_txs, txs_at, attach_txs, aggregate_blocks_id, txs_of_blocks,
  get_transactions_by_batch_blocks_id, with_txs, get_blocks_with_offset, get_blocks_by_range_time,
  offset_default,
}
use evm_indexer.Services.Query.Checks.{check_time_range}
use evm_indexer.Services.Query.Groups.{txs_at-group_txs}
use evm_indexer.Services.Query.Sql.{sql}

-- The transactions that belong with a block in an answer.
abbrev pub txs_shown : Bool → Store → ℕ → List Transaction
txs_shown true s id = map scan_tx (select (λ r. r.block_id == id) s.transactions)
txs_shown false s id = []

abbrev pub shown : Bool → Store → Block → BlockTxs
shown tx s b = record { block = b; txs = txs_shown tx s b.id }

abbrev the_result : {A : Type 0} → A → World → Result A × World
the_result a w = (ok a, w)

module _ {A : Type 0} {a b : A} {w v : World} where
  returned : (the_result a w ≡ the_result b v) → b ≡ a
  returned h = ground arith

  stored : (the_result a w ≡ the_result b v) → w.store ≡ v.store
  stored h = ground arith

pub select-scan_tx :
    (id : ℕ) (q : TxRow → Bool) (rows : List TxRow)
    → ((r : TxRow) → (r.block_id == id) ≡ true → q r ≡ true)
    → select (λ t. t.block_id == id) (map scan_tx (select q rows))
      ≡ map scan_tx (select (λ r. r.block_id == id) rows)
unfolding scan_tx
select-scan_tx id q [] h = refl
select-scan_tx id q (r ∷ rows) h = ground (arith, h r, select-scan_tx id q rows h)

one_of_ids-aggregate :
    (b : Block) (bs : List Block) (n : ℕ)
    → In b bs
    → (n == b.id) ≡ true
    → one_of_ids (aggregate_blocks_id bs) n ≡ true
unfolding aggregate_blocks_id
one_of_ids-aggregate b [] n i h = absurd i
one_of_ids-aggregate b (x ∷ xs) n (inl p) h =
    let e : (n == x.id) ≡ true = ap (λ y. n == y.id) p ∙ h in ground arith
one_of_ids-aggregate b (x ∷ xs) n (inr i) h = ground (arith, one_of_ids-aggregate b xs n i h)

pub attach_txs-shown :
    (tx : Bool) (s : Store) (m : TxGroups) (bs : List Block)
    → ((b : Block) → In b bs → txs_at b.id m ≡ txs_shown tx s b.id)
    → attach_txs m bs ≡ map (shown tx s) bs
unfolding attach_txs
attach_txs-shown tx s m [] h = refl
attach_txs-shown tx s m (b ∷ bs) h =
    let e = h b (inl refl) in
    let rest = attach_txs-shown tx s m bs (λ c i. h c (inr i)) in
    λ i. record { block = b; txs = e i } ∷ rest i

-- The transactions that are read for some blocks.
txs_of_blocks-eq-ok :
    (tx : Bool) (bs : List Block) (w w' : World) (ts : List Transaction)
    → txs_of_blocks sql tx (aggregate_blocks_id bs) w ≡ (ok ts, w')
    → ((b : Block) → In b bs → txs_at b.id (group_txs [] ts) ≡ txs_shown tx w.store b.id)
      × (w'.store ≡ w.store)
unfolding txs_of_blocks sql ◌>>=◌
txs_of_blocks-eq-ok true bs w w' ts h =
    let (p, q) = batch_txs-eq-ok (aggregate_blocks_id bs) w w' ts h in
    (
      λ b i.
          txs_at-group_txs b.id ts
          ∙ ap (select (λ t. t.block_id == b.id)) p
          ∙ select-scan_tx b.id _ w.store.transactions
              (λ r e. one_of_ids-aggregate b bs r.block_id i e),
      q,
    )
txs_of_blocks-eq-ok false bs w w' ts h =
    let p : ts ≡ [] = ground arith in
    (λ b i. txs_at-group_txs b.id ts ∙ ap (select (λ t. t.block_id == b.id)) p, ground arith)

with_txs-eq-ok :
    (tx : Bool) (bs : List Block) (w w' : World) (out : List BlockTxs)
    → with_txs sql tx bs w ≡ (ok out, w')
    → (out ≡ map (shown tx w.store) bs) × (w'.store ≡ w.store)
unfolding with_txs get_transactions_by_batch_blocks_id
with_txs-eq-ok tx bs w w' out h =
    let (groups, v, p, q) =
      >>=-eq-ok (get_transactions_by_batch_blocks_id sql (aggregate_blocks_id bs) tx)
        (λ m. pure (attach_txs m bs)) w h in
    let (ts, u, r, s) =
      >>=-eq-ok (txs_of_blocks sql tx (aggregate_blocks_id bs)) (λ ts. pure (group_txs [] ts)) w
        p in
    let (held, same) = txs_of_blocks-eq-ok tx bs w u ts r in
    let e = sym (pure_lem (group_txs [] ts) u) ∙ s in
    let f = sym (pure_lem (attach_txs groups bs) v) ∙ q in
    (
      returned f
          ∙ sym (ap (λ m. attach_txs m bs) (sym (returned e)))
          ∙ attach_txs-shown tx w.store (group_txs [] ts) bs held,
      sym (stored f) ∙ sym (stored e) ∙ same,
    )

-- A check that was passed has left the world alone.
pub lift-eq-ok :
    (r : Result (Unit {0})) (a : Unit {0}) (w v : World)
    → lift r w ≡ (ok a, v)
    → (r ≡ ok tt) × (v ≡ w)
unfolding ◌>>=◌
lift-eq-ok r a w v h = ground arith

-- What a list method does: a check, the blocks of a range, their transactions.
checked_blocks :
    (r : Result (Unit {0})) (read : Exec (List Block)) (tx : Bool) (w w' : World)
    (out : List BlockTxs) (rows : List Block)
    → ((v : World) (bs : List Block) → read w ≡ (ok bs, v) → (bs ≡ rows) × (v.store ≡ w.store))
    → (lift r >>= λ _. read >>= λ bs. with_txs sql tx bs) w ≡ (ok out, w')
    → (r ≡ ok tt) × (out ≡ map (shown tx w.store) rows) × (w'.store ≡ w.store)
checked_blocks r read tx w w' out rows k h =
    let (a, u, p, q) = >>=-eq-ok (lift r) (λ _. read >>= λ bs. with_txs sql tx bs) w h in
    let (passed, same) = lift-eq-ok r a w u p in
    let (bs, v, x, y) =
      >>=-eq-ok read (λ bs. with_txs sql tx bs) w
        (subst (λ z. (read >>= λ bs. with_txs sql tx bs) z ≡ (ok out, w')) same q) in
    let (found, kept) = k v bs x in
    let (e, f) = with_txs-eq-ok tx bs v w' out y in
    (passed, e ∙ ap (λ s. map (shown tx s) bs) kept ∙ ap (map (shown tx w.store)) found, f ∙ kept)

-- If `GetBlocksWithOffset` over the SQL repository returns no error, then the offset is at most the
-- configured one, and the answer is every stored block with an id from `from` up to, and without,
-- `from + offset` (as a `uint64`, and with 1000 for an offset of 0), each once, with exactly its
-- stored transactions where they are asked for and none where they are not.
pub get_blocks_with_offset-answer :
    (offset_max from offset : ℕ) (tx : Bool) (w w' : World) (out : List BlockTxs)
    → get_blocks_with_offset sql offset_max from offset tx w ≡ (ok out, w')
    → (offset ≤ offset_max)
      × (out
          ≡ map (shown tx w.store) (
              select
                (in_range from (u64 (from + (if offset == 0 then offset_default else offset))))
                w.store.blocks))
      × (w'.store ≡ w.store)
unfolding get_blocks_with_offset sql
get_blocks_with_offset-answer offset_max from offset tx w w' out h =
    let to = u64 (from + (if offset == 0 then offset_default else offset)) in
    let (p, q, r) =
      checked_blocks _ (sql.get_blocks_by_range_id from to) tx w w' out
        (select (in_range from to) w.store.blocks) (λ v bs k. range_id-eq-ok from to w v bs k) h in
    (ground arith, q, r)

time_range :
    (range_max_time from to : ℕ)
    → check_time_range range_max_time from to ≡ ok tt
    → (0 < from) × (from < to) × (to ≤ from + range_max_time)
unfolding check_time_range validate_block_range
time_range range_max_time from to h = ground arith

-- If `GetBlocksByRangeTime` over the SQL repository returns no error, then the two times are not 0,
-- in order, and no further apart than configured, and the answer is every stored block with a time
-- between them, both excluded, each once, with exactly its stored transactions where they are asked
-- for and none where they are not.
pub get_blocks_by_range_time-answer :
    (range_max_time from to : ℕ) (tx : Bool) (w w' : World) (out : List BlockTxs)
    → get_blocks_by_range_time sql range_max_time from to tx w ≡ (ok out, w')
    → ((0 < from) × (from < to) × (to ≤ from + range_max_time))
      × (out ≡ map (shown tx w.store) (select (in_time from to) w.store.blocks))
      × (w'.store ≡ w.store)
unfolding get_blocks_by_range_time sql
get_blocks_by_range_time-answer range_max_time from to tx w w' out h =
    let (p, q, r) =
      checked_blocks _ (sql.get_blocks_by_range_time from to) tx w w' out
        (select (in_time from to) w.store.blocks) (λ v bs k. range_time-eq-ok from to w v bs k) h in
    (time_range range_max_time from to p, q, r)
