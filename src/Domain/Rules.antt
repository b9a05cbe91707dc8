-- ===== src/Domain/Rules.antt =====
-- internal/core/domain/rules.go.
use evm_indexer.Prelude.{
  ℕ, suc, ◌-◌, ◌%◌, Str, ◌=ₛ◌, Bool, true, not, ◌||◌, Option, none, some, List, [], ◌∷◌, length,
  get_elem?, ltb, leb, ◌==◌, if◌then◌else◌,
}
use evm_indexer.Domain.Errors.{
  Result, ok, err, ◌>>◌, or_error, invalid_block, invalid_transaction, invalid_event,
  invalid_address, invalid_hash, invalid_block_range, invalid_topics,
}
use evm_indexer.Domain.Models.{Event, Block, Transaction}

abbrev pub hash_len : ℕ
hash_len = 66

abbrev pub hash_len_without_0x : ℕ
hash_len_without_0x = 64

abbrev pub address_len : ℕ
address_len = 42

abbrev pub topic_number : ℕ
topic_number = 4

-- `s[i] != c`, at an index that the length test before it keeps in range
abbrev differs_at : Str → ℕ → ℕ → Bool
differs_at s i c = elim (get_elem? s i) [ none ↦ true | some d ↦ not (d == c) ]

unfoldable pub parse_hash : Str → Result (Unit {0})
parse_hash hash =
    if not (length hash == hash_len)
    then err invalid_hash
    else if differs_at hash 0 b'0' || differs_at hash 1 b'x'
    then err invalid_hash
    else ok tt

unfoldable pub parse_address : Str → Result (Unit {0})
parse_address addr =
    if not (length addr == address_len)
    then err invalid_address
    else if differs_at addr 0 b'0' || differs_at addr 1 b'x'
    then err invalid_address
    else ok tt

-- `n <= 0` of an unsigned n
abbrev is_zero : ℕ → Bool
is_zero n = leb n 0

unfoldable pub parse_block : Block → Result (Unit {0})
parse_block b =
    if is_zero b.id || (is_zero b.gas_limit || (is_zero b.gas_used || is_zero b.timestamp))
    then err invalid_block
    else do
      or_error (parse_hash b.hash) invalid_block
      or_error (parse_hash b.parent_hash) invalid_block
      or_error (parse_address b.miner) invalid_block

-- the check of `tx.To`: neither nil nor empty
parse_to : Option Str → Result (Unit {0})
parse_to none = ok tt
parse_to (some to) = if to =ₛ [] then ok tt else or_error (parse_address to) invalid_transaction

unfoldable pub parse_tx : Transaction → Result (Unit {0})
unfolding parse_to
parse_tx tx = if is_zero tx.block_id || is_zero tx.gas_used then err invalid_transaction else do
  or_error (parse_hash tx.hash) invalid_transaction
  or_error (parse_address tx.from) invalid_transaction
  parse_to tx.to

-- the loop of `ParseTopics`, at index `i`
unfoldable pub parse_topics_from : ℕ → List Str → Result (Unit {0})
parse_topics_from i [] = ok tt
parse_topics_from i (topic ∷ topics) =
    let rest = parse_topics_from (suc i) topics in
    or_error (parse_hash topic) invalid_topics
    >> (if leb topic_number i then err invalid_topics else rest)

unfoldable pub parse_topics : List Str → Result (Unit {0})
unfolding parse_topics_from
parse_topics topics = parse_topics_from 0 topics

-- `(n - 2) % 64 != 0` over `int`: below 2 the dividend is negative, and Go's remainder keeps its
-- sign, so it is not 0
abbrev bad_data_len : ℕ → Bool
bad_data_len n = if ltb n 2 then true else not ((n - 2) % hash_len_without_0x == 0)

unfoldable pub parse_event : Event → Result (Unit {0})
parse_event e = if e.block_id == 0 then err invalid_event else do
  or_error (parse_hash e.tx_hash) invalid_event
  or_error (parse_address e.emitter) invalid_event
  or_error (parse_topics e.topics) invalid_event
  if bad_data_len (length e.datas) then err invalid_event else ok tt

unfoldable pub validate_block_range : ℕ → ℕ → ℕ → Result (Unit {0})
validate_block_range from_block to_block range_max =
    if from_block == 0 || to_block == 0
    then err invalid_block_range
    else if leb to_block from_block
    then err invalid_block_range
    else if ltb range_max (to_block - from_block)
    then err invalid_block_range
    else ok tt
