-- ===== src/Services/Query/Filters.antt =====
-- The filters of the query service over the SQL repository.
use evm_indexer.Prelude.{
  zero, suc, sym, ap, ◌∙◌, [], ◌∷◌, ◌++◌, drop, length, ℕ, ◌≤◌, ◌<◌, ◌≡◌, refl, subst, ◌⊎◌, inl,
  inr, Option, none, some, List, map, select, take, arith,
}
use mathlib.Core.List.{Perm}
use evm_indexer.Store.{TxRow, EventRow}
use evm_indexer.Prelude.Int.{ℤ, pos, negsuc}
use evm_indexer.Domain.Errors.{Result, ok}
use evm_indexer.Domain.Models.{Event, EventFilter, Transaction, TransactionFilter}
use evm_indexer.Exec.{World, Exec, lift, ◌>>◌}
use evm_indexer.Exec.Keeps.{>>=-eq-ok}
use evm_indexer.Repository.Query.{
  scan_event, scan_tx, event_wanted, tx_wanted, limited, then_non_empty,
}
use evm_indexer.Repository.Query
use evm_indexer.Repository.Query.Answers.{query_ordered-eq-ok, non_empty-eq-ok}
use evm_indexer.Services.Query.{
  offset_default, or_default, get_events_by_filter, get_transactions_by_filter,
}
use evm_indexer.Services.Query.Checks.{as_int, check_limit, check_event_filter, check_tx_filter}
use evm_indexer.Services.Query.Sql.{sql}
use evm_indexer.Services.Query.Blocks.{lift-eq-ok}

-- The number of rows that a limit lets through.
abbrev pub IsLimit : ℕ → Option ℤ → ℕ → Type 0
IsLimit offset_max limit n =
    ((limit ≡ none) × (n ≡ offset_default)) ⊎ ((limit ≡ some (pos n)) × (0 < n) × (n ≤ offset_max))

module _ {A : Type 0} where
  limited-eq-ok :
      (offset_max : ℕ) (limit : Option ℤ) (rows out : List A)
      → check_limit offset_max limit ≡ ok tt
      → then_non_empty (limited (or_default limit) rows) ≡ ok out
      → (n : ℕ) × IsLimit offset_max limit n × (out ≡ take n rows)
  unfolding check_limit limited or_default as_int
  limited-eq-ok offset_max none rows out c h =
      (offset_default, inl (refl, refl), non_empty-eq-ok _ out h)
  limited-eq-ok offset_max (some (pos n)) rows out c h =
      (n, inr (refl, ground arith, ground arith), non_empty-eq-ok _ out h)
  limited-eq-ok offset_max (some (negsuc n)) rows out c h = absurd (ground arith)

-- A check, and then what the repository answers.
checked :
    {A : Type 0} (r : Result (Unit {0})) (read : Exec A) (w w' : World) (out : A)
    → (lift r >> read) w ≡ (ok out, w')
    → (r ≡ ok tt) × (read w ≡ (ok out, w'))
checked r read w w' out h =
    let (b, u, p, q) = >>=-eq-ok (lift r) (λ _. read) w h in
    let (passed, same) = lift-eq-ok r b w u p in (passed, subst (λ z. read z ≡ (ok out, w')) same q)

event_limit :
    (offset_max : ℕ) (f : EventFilter)
    → check_event_filter offset_max f ≡ ok tt
    → check_limit offset_max f.limit ≡ ok tt
unfolding check_event_filter
event_limit offset_max f h = ground arith

tx_limit :
    (offset_max : ℕ) (f : TransactionFilter)
    → check_tx_filter offset_max f ≡ ok tt
    → check_limit offset_max f.limit ≡ ok tt
unfolding check_tx_filter
tx_limit offset_max f h = ground arith

module _ {Row : Type 0} where
  take_all : (n : ℕ) (xs : List Row) → take n xs ++ drop n xs ≡ xs
  take_all zero xs = refl
  take_all (suc n) [] = refl
  take_all (suc n) (x ∷ xs) = ap (λ l. x ∷ l) (take_all n xs)

  take_enough :
      (n : ℕ) (xs : List Row)
      → (length (take n xs) ≡ n) ⊎ ((length (take n xs) < n) × (drop n xs ≡ []))
  take_enough zero xs = inl refl
  take_enough (suc n) [] = inr (omega arith, refl)
  take_enough (suc n) (x ∷ xs) = elim (take_enough n xs) [
    | inl p ↦ inl (ap suc p)
    | inr (p, q) ↦ inr (omega arith, q)
  ]

module _ {Row A : Type 0} where
  -- `out` reads some of the rows: `n` of them, or all where there are fewer.
  abbrev pub IsChosen : (Row → A) → ℕ → List Row → List A → Type 0
  IsChosen scan n all out =
      (rows left : List Row) × Perm (rows ++ left) all
      × (out ≡ map scan rows)
      × ((length rows ≡ n) ⊎ ((length rows < n) × (left ≡ [])))

  take-map : (f : Row → A) (n : ℕ) (xs : List Row) → take n (map f xs) ≡ map f (take n xs)
  take-map f zero xs = refl
  take-map f (suc n) [] = refl
  take-map f (suc n) (x ∷ xs) = ap (λ l. f x ∷ l) (take-map f n xs)

  take-IsChosen :
      (scan : Row → A) (n : ℕ) (xs all : List Row) (out : List A)
      → Perm xs all
      → out ≡ take n (map scan xs)
      → IsChosen scan n all out
  take-IsChosen scan n xs all out same p = (
    take n xs,
    drop n xs,
    subst (λ l. Perm l all) (sym (take_all n xs)) same,
    p ∙ take-map scan n xs,
    take_enough n xs,
  )

-- Let the database give the rows of a statement in any order. If `GetEventsByFilter` over the SQL
-- repository returns no error, its answer reads as many of the stored events that the filter accepts
-- as the limit says, or all of them where there are fewer; the limit is at least 1 and at most the
-- configured offset, or 1000 where none is given; the tables are as they were.
pub get_events_by_filter-answer :
    (offset_max : ℕ) (f : EventFilter) (w w' : World) (out : List Event)
    → ((rows : List EventRow) → Perm (w.orders.events rows) rows)
    → get_events_by_filter sql offset_max f w ≡ (ok out, w')
    → ((n : ℕ) × IsLimit offset_max f.limit n
        × IsChosen scan_event n (select (event_wanted f) w.store.events) out)
      × (w'.store ≡ w.store)
unfolding get_events_by_filter sql Query.get_events_by_filter
get_events_by_filter-answer offset_max f w w' out order h =
    let (passed, answered) = checked (check_event_filter offset_max f) _ w w' out h in
    let (v, store, orders, p, q) = query_ordered-eq-ok _ _ w w' out answered in
    let (n, limit, e) =
      limited-eq-ok offset_max f.limit _ out (event_limit offset_max f passed) p in
    let given : v.orders.events (select (event_wanted f) v.store.events)
        ≡ w.orders.events (select (event_wanted f) w.store.events) =
      λ i. (orders i).events (select (event_wanted f) (store i).events) in
    (
      (
        n,
        limit,
        take-IsChosen scan_event n _ _ out (order (select (event_wanted f) w.store.events))
            (e ∙ ap (λ l. take n (map scan_event l)) given),
      ),
      q,
    )

-- Let the database give the rows of a statement in any order. If `GetTransactionsByFilter` over the
-- SQL repository returns no error, its answer reads as many of the stored transactions that the
-- filter accepts as the limit says, or all of them where there are fewer; the limit is at least 1
-- and at most the configured offset, or 1000 where none is given; the tables are as they were.
pub get_transactions_by_filter-answer :
    (offset_max : ℕ) (f : TransactionFilter) (w w' : World) (out : List Transaction)
    → ((rows : List TxRow) → Perm (w.orders.transactions rows) rows)
    → get_transactions_by_filter sql offset_max f w ≡ (ok out, w')
    → ((n : ℕ) × IsLimit offset_max f.limit n
        × IsChosen scan_tx n (select (tx_wanted f) w.store.transactions) out)
      × (w'.store ≡ w.store)
unfolding get_transactions_by_filter sql Query.get_transactions_by_filter
get_transactions_by_filter-answer offset_max f w w' out order h =
    let (passed, answered) = checked (check_tx_filter offset_max f) _ w w' out h in
    let (v, store, orders, p, q) = query_ordered-eq-ok _ _ w w' out answered in
    let (n, limit, e) = limited-eq-ok offset_max f.limit _ out (tx_limit offset_max f passed) p in
    let given : v.orders.transactions (select (tx_wanted f) v.store.transactions)
        ≡ w.orders.transactions (select (tx_wanted f) w.store.transactions) =
      λ i. (orders i).transactions (select (tx_wanted f) (store i).transactions) in
    (
      (
        n,
        limit,
        take-IsChosen scan_tx n _ _ out (order (select (tx_wanted f) w.store.transactions))
            (e ∙ ap (λ l. take n (map scan_tx l)) given),
      ),
      q,
    )
