-- ===== src/Services/Query/Checks.antt =====
-- What internal/core/services/query.go refuses before it asks the repository.
use evm_indexer.Prelude.{
  ℕ, ◌-◌, ◌^◌, Str, Bool, true, false, not, ◌&&◌, ◌||◌, Option, none, some, List, [], ◌∷◌, ltb, leb,
  ◌==◌, if◌then◌else◌,
}
use evm_indexer.Prelude.Int.{ℤ, pos, negsuc, ltb_ℤ}
use evm_indexer.Domain.Errors.{
  Result, ok, err, ◌>>◌, invalid_id, invalid_limit, invalid_block_range, empty_filter,
}
use evm_indexer.Domain.Models.{TransactionFilter, EventFilter}
use evm_indexer.Domain.Rules.{parse_hash, parse_address, parse_topics, validate_block_range}

-- `int(n)` of a `uint64`
unfoldable pub as_int : ℕ → ℤ
as_int n = if ltb n (2 ^ 63) then pos n else negsuc (2 ^ 64 - n - 1)

abbrev is_none {ℓ} : {A : Type ℓ} → Option A → Bool
is_none none = true
is_none (some a) = false

abbrev is_empty {ℓ} : {A : Type ℓ} → List A → Bool
is_empty [] = true
is_empty (x ∷ xs) = false

abbrev check : {A : Type 0} → (A → Result (Unit {0})) → Option A → Result (Unit {0})
check f none = ok tt
check f (some a) = f a

-- both ends of a range or neither
unfoldable pub check_range : ℕ → Option ℕ → Option ℕ → Result (Unit {0})
check_range offset_max none none = ok tt
check_range offset_max (some from) (some to) = validate_block_range from to offset_max
check_range offset_max (some from) none = err invalid_block_range
check_range offset_max none (some to) = err invalid_block_range

-- `*filter.Limit <= 0 || *filter.Limit > int(service.offsetMax)`
unfoldable pub check_limit : ℕ → Option ℤ → Result (Unit {0})
unfolding as_int
check_limit offset_max none = ok tt
check_limit offset_max (some n) =
    if not (ltb_ℤ (pos 0) n) || ltb_ℤ (as_int offset_max) n then err invalid_limit else ok tt

-- `len(filter.Topics) > 0`
unfoldable pub check_topics : List Str → Result (Unit {0})
check_topics [] = ok tt
check_topics (t ∷ ts) = parse_topics (t ∷ ts)

abbrev check_id : Option ℕ → Result (Unit {0})
check_id none = ok tt
check_id (some n) = if n == 0 then err invalid_id else ok tt

-- What `GetEventsByFilter` refuses before it asks the repository.
unfoldable pub check_event_filter : ℕ → EventFilter → Result (Unit {0})
unfolding check_range check_limit check_topics
check_event_filter offset_max f = do
  (if is_none f.emitter
        && (is_none f.tx_hash
            && (is_none f.from_block
                && (is_empty f.topics && (is_none f.limit && is_none f.to_block))))
      then err empty_filter
      else ok tt)
  check_range offset_max f.from_block f.to_block
  check_limit offset_max f.limit
  check parse_hash f.tx_hash
  check parse_address f.emitter
  check_topics f.topics

-- The same of `GetTransactionsByFilter`.
unfoldable pub check_tx_filter : ℕ → TransactionFilter → Result (Unit {0})
unfolding check_range check_limit
check_tx_filter offset_max f = do
  (if is_none f.hash
        && (is_none f.block_id
            && (is_none f.from_block && (is_none f.from && (is_none f.to && is_none f.to_block))))
      then err empty_filter
      else ok tt)
  check_id f.block_id
  check_range offset_max f.from_block f.to_block
  check_limit offset_max f.limit
  check parse_hash f.hash
  check parse_address f.from
  check parse_address f.to

-- every range that is refused is refused as an invalid id
unfoldable pub check_time_range : ℕ → ℕ → ℕ → Result (Unit {0})
check_time_range range_max_time from to =
    if from == 0 || to == 0
    then err invalid_id
    else if leb to from
    then err invalid_id
    else elim (validate_block_range from to range_max_time) [
      | ok _ ↦ ok tt
      | err _ ↦ err invalid_id
    ]
