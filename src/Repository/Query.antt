-- ===== src/Repository/Query.antt =====
-- internal/repository/db/query.go, with the row readers of internal/repository/db/utils.go: what the
-- API reads. One exchange stands for the statement and for the reading of its rows.
pub mod Answers
use evm_indexer.Prelude.{
  ℕ, ◌^◌, Str, ◌=ₛ◌, Bool, true, ◌&&◌, false, Option, none, some, List, [], ◌∷◌, ◌++◌, map, select,
  any, take, ltb, leb, ◌==◌, if◌then◌else◌,
}
use evm_indexer.Prelude.Int.{ℤ, pos, negsuc}
use evm_indexer.Domain.Errors.{Result, ok, err, not_found, value_too_large, negative_limit}
use evm_indexer.Domain.Models.{Block, Transaction, Event, TransactionFilter, EventFilter}
use evm_indexer.Store.{Store, TxRow, EventRow}
use evm_indexer.Exec.{World, Exec, gets, lift, ◌>>=◌, ◌>>◌, exchange}

-- `scanTx`: no column holds the status, which stays 0.
unfoldable pub scan_tx : TxRow → Transaction
scan_tx r = record {
  block_id = r.block_id;
  hash = r.tx_hash;
  from = r.from_addr;
  to = r.to_addr;
  gas_used = r.gas_used;
  status = 0;
}

unfoldable pub scan_event : EventRow → Event
scan_event r = record {
  block_id = r.block_id;
  tx_hash = r.tx_hash;
  log_index = r.log_index;
  emitter = r.emitter;
  datas = r.datas;
  topics = r.topics;
}

-- `fetchBlocks`, `fetchTxs` and `fetchEvents` refuse an empty result
unfoldable pub non_empty {ℓ} : {A : Type ℓ} → List A → Result (List A)
non_empty [] = err not_found
non_empty (x ∷ xs) = ok (x ∷ xs)

-- `&rows[0]`
unfoldable pub first_row {ℓ} : {A : Type ℓ} → List A → Result A
first_row [] = err not_found
first_row (x ∷ xs) = ok x

-- Arguments that the column's type cannot hold fail the statement.
unfoldable pub all_below : ℕ → List ℕ → Bool
all_below bound [] = true
all_below bound (n ∷ ns) = ltb n bound && all_below bound ns

unfoldable pub arguments : ℕ → List ℕ → Result (Unit {0})
unfolding all_below
arguments bound ns = if all_below bound ns then ok tt else err value_too_large

abbrev pub bigint : ℕ
bigint = 2 ^ 63

abbrev pub int : ℕ
int = 2 ^ 31

abbrev pub given : Option ℕ → List ℕ
given none = []
given (some n) = n ∷ []

-- LIMIT $n, where NULL is no limit
unfoldable pub limited {ℓ} : {A : Type ℓ} → Option ℤ → List A → Result (List A)
limited none xs = ok xs
limited (some (pos n)) xs = ok (take n xs)
limited (some (negsuc n)) xs = err negative_limit

unfoldable pub query : {A : Type 0} → Result (Unit {0}) → (Store → Result (List A)) → Exec (List A)
query args f = do lift args; exchange; rows ← gets (λ w. f w.store); lift rows

abbrev pub in_range : ℕ → ℕ → Block → Bool
in_range from to b = leb from b.id && ltb b.id to

abbrev pub in_time : ℕ → ℕ → Block → Bool
in_time from to b = ltb from b.timestamp && ltb b.timestamp to

unfoldable pub get_block_by_id : ℕ → Exec Block
unfolding non_empty first_row arguments
get_block_by_id id = do
  blocks ← query (arguments bigint (id ∷ [])) (λ s. non_empty (select (λ b. b.id == id) s.blocks))
  lift (first_row blocks)

unfoldable pub get_block_by_hash : Str → Exec Block
unfolding non_empty first_row
get_block_by_hash hash = do
  blocks ← query (ok tt) (λ s. non_empty (select (λ b. b.hash =ₛ hash) s.blocks))
  lift (first_row blocks)

unfoldable pub get_blocks_by_range_id : ℕ → ℕ → Exec (List Block)
unfolding non_empty arguments
get_blocks_by_range_id from to =
    query (arguments bigint (from ∷ to ∷ [])) (λ s. non_empty (select (in_range from to) s.blocks))

unfoldable pub get_blocks_by_range_time : ℕ → ℕ → Exec (List Block)
unfolding non_empty arguments
get_blocks_by_range_time from to =
    query (arguments bigint (from ∷ to ∷ [])) (λ s. non_empty (select (in_time from to) s.blocks))

-- ($n IS NULL OR column = $n), and the same for >= and <
abbrev pub equals : Option Str → Str → Bool
equals none s = true
equals (some x) s = s =ₛ x

-- a column that is NULL equals nothing
abbrev pub equals_nullable : Option Str → Option Str → Bool
equals_nullable none s = true
equals_nullable (some x) s = elim s [ none ↦ false | some y ↦ y =ₛ x ]

abbrev pub is_id : Option ℕ → ℕ → Bool
is_id none n = true
is_id (some m) n = n == m

abbrev pub at_least : Option ℕ → ℕ → Bool
at_least none n = true
at_least (some m) n = leb m n

abbrev pub below : Option ℕ → ℕ → Bool
below none n = true
below (some m) n = ltb n m

-- topics @> $3
unfoldable pub has_topics : List Str → List Str → Bool
has_topics [] topics = true
has_topics (t ∷ ts) topics = any (λ x. x =ₛ t) topics && has_topics ts topics

unfoldable pub event_wanted : EventFilter → EventRow → Bool
unfolding has_topics
event_wanted f r =
    equals f.tx_hash r.tx_hash
    && (equals f.emitter r.emitter
        && (has_topics f.topics r.topics
            && (at_least f.from_block r.block_id && below f.to_block r.block_id)))

unfoldable pub tx_wanted : TransactionFilter → TxRow → Bool
tx_wanted f r =
    is_id f.block_id r.block_id
    && (equals f.hash r.tx_hash
        && (equals f.from r.from_addr
            && (equals_nullable f.to r.to_addr
                && (at_least f.from_block r.block_id && below f.to_block r.block_id))))

abbrev pub then_non_empty {ℓ} : {A : Type ℓ} → Result (List A) → Result (List A)
then_non_empty (ok xs) = non_empty xs
then_non_empty (err e) = err e

-- a query whose LIMIT stands without ORDER BY: which rows it lets through depends on their order
unfoldable pub query_ordered :
    {A : Type 0} → Result (Unit {0}) → (World → Result (List A)) → Exec (List A)
query_ordered args f = do lift args; exchange; rows ← gets f; lift rows

unfoldable pub get_events_by_filter : EventFilter → Exec (List Event)
unfolding event_wanted limited scan_event arguments non_empty
get_events_by_filter f =
    query_ordered (arguments bigint (given f.from_block ++ given f.to_block)) (λ w.
      then_non_empty (
        limited f.limit
          (map scan_event (w.orders.events (select (event_wanted f) w.store.events)))))

unfoldable pub get_event_by_tx_hash_log_index : Str → ℕ → Exec Event
unfolding non_empty first_row arguments scan_event
get_event_by_tx_hash_log_index hash log_index = do
  events ← query (arguments int (log_index ∷ [])) (λ s.
      non_empty
        (map scan_event (select (λ r. (r.tx_hash =ₛ hash) && (r.log_index == log_index)) s.events)))
  lift (first_row events)

unfoldable pub get_transactions_by_filter : TransactionFilter → Exec (List Transaction)
unfolding tx_wanted limited scan_tx arguments non_empty
get_transactions_by_filter f =
    query_ordered (arguments bigint (given f.block_id ++ given f.from_block ++ given f.to_block))
      (λ w. then_non_empty (
        limited f.limit
          (map scan_tx (w.orders.transactions (select (tx_wanted f) w.store.transactions)))))

abbrev pub one_of_ids : List ℕ → ℕ → Bool
one_of_ids ids n = any (λ m. n == m) ids

-- block_id = ANY($1) at a column that is an INT
unfoldable pub get_transactions_by_batch_blocks_id : List ℕ → Exec (List Transaction)
unfolding scan_tx arguments non_empty
get_transactions_by_batch_blocks_id ids =
    query (arguments int ids)
      (λ s. non_empty (map scan_tx (select (λ r. one_of_ids ids r.block_id) s.transactions)))

unfoldable pub get_events_by_batch_txs_hash : List Str → Exec (List Event)
unfolding scan_event non_empty
get_events_by_batch_txs_hash hashes =
    query (ok tt)
      (λ s. non_empty (map scan_event (select (λ r. any (λ h. r.tx_hash =ₛ h) hashes) s.events)))
