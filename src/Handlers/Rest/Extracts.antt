-- ===== src/Handlers/Rest/Extracts.antt =====
-- What the REST handlers extract from the query of a URL.
use evm_indexer.Prelude.{
  ℕ, ◌+◌, ◌-◌, ◌*◌, ◌^◌, ◌<◌, Str, str, ◌≡◌, sym, ap, ◌⊎◌, true, false, Bool-cases, inl, inr,
  Option, none, some, List, [], ◌∷◌, arith,
}
use evm_indexer.Domain.Errors.{ok, err, Result-cases, syntax}
use evm_indexer.Domain.Models.{TransactionFilter}
use evm_indexer.Handlers.Rest.Numbers.{parse_digits, parse_uint, value_of}
use evm_indexer.Handlers.Rest.{
  GroupParam, from_offset_param, id_param, hash_param, from_to_time_param, BlockDto, Query, given,
  groups, blank_dto, block_dto, only_group, extract_block_dto, uint_if_given, int_if_given,
  extract_tx_filter,
}

parse_digits_lt :
    (acc : ℕ) (s : Str) (n : ℕ) → acc < 2 ^ 64 → parse_digits acc s ≡ ok n → n < 2 ^ 64
unfolding parse_digits
parse_digits_lt acc [] n b h = ground arith
parse_digits_lt acc (c ∷ cs) n b h = ground (arith, parse_digits_lt (acc * 10 + (c - b'0')) cs n)

-- A text that `ParseUint` accepts is a number below 2 ^ 64.
pub parse_uint_lt : (s : Str) (n : ℕ) → parse_uint s ≡ ok n → n < 2 ^ 64
unfolding parse_uint
parse_uint_lt [] n h = absurd (ground arith)
parse_uint_lt (c ∷ cs) n h = parse_digits_lt 0 (c ∷ cs) n (ground arith) h

group-block_dto :
    (q : Query) (g : GroupParam) (d : BlockDto) → block_dto q g ≡ ok d → d.group_param ≡ g
unfolding block_dto blank_dto
group-block_dto q id_param d h = ground arith
group-block_dto q hash_param d h = ground arith
group-block_dto q from_offset_param d h = ground arith
group-block_dto q from_to_time_param d h = ground arith

only_group-ok :
    (q : Query) (gs : List GroupParam) (d : BlockDto)
    → only_group q gs ≡ ok d
    → gs ≡ d.group_param ∷ []
unfolding only_group
only_group-ok q [] d h = absurd (ground arith)
only_group-ok q (g ∷ []) d h = ap (λ x. x ∷ []) (sym (group-block_dto q g d h))
only_group-ok q (g ∷ k ∷ gs) d h = absurd (ground arith)

-- A query of blocks that is accepted has exactly one group of parameters, the one that the handler
-- goes by.
pub extract_block_dto-groups :
    (q : Query) (d : BlockDto) → extract_block_dto q ≡ ok d → groups q ≡ d.group_param ∷ []
unfolding extract_block_dto
extract_block_dto-groups q d h = only_group-ok q (groups q) d h

-- With an offset that is a number, a `from` that is not one is accepted, and read as 0.
pub extract_block_dto-bad_from :
    (q : Query) (n : ℕ)
    → groups q ≡ from_offset_param ∷ []
    → given (q (str "offset")) ≡ true
    → parse_uint (q (str "offset")) ≡ ok n
    → parse_uint (q (str "from")) ≡ err syntax
    → extract_block_dto q ≡ ok (record (blank_dto q from_offset_param) { from = 0; offset = n })
unfolding extract_block_dto only_group block_dto value_of
extract_block_dto-bad_from q n g o p e = rw (g, o, p, e)

-- A number is there where its text is, and missing where the text is empty.
uint_if_given-eq-ok :
    (s : Str) (o : Option ℕ)
    → uint_if_given s ≡ ok o
    → ((given s ≡ true) × (n : ℕ) × (o ≡ some n)) ⊎ ((given s ≡ false) × (o ≡ none))
unfolding uint_if_given
uint_if_given-eq-ok s o h = elim (Bool-cases (given s)) [
  | inr e ↦ inr (e, ground arith)
  | inl e ↦ elim (Result-cases (parse_uint s)) [
    | inl (n, p) ↦ inl (e, n, ground arith)
    | inr (x, p) ↦ absurd (ground arith)
  ]
]

-- The ways in which a query of transactions may be accepted: by a hash alone, or in a range of
-- blocks with two ends.
pub data IsTxQuery (f : TransactionFilter) : Type 0 where
  alone :
      (h : Str)
      → f.hash ≡ some h
      → f.from ≡ none
      → f.to ≡ none
      → f.from_block ≡ none
      → f.to_block ≡ none
      → IsTxQuery f
  in_range : (a b : ℕ) → f.hash ≡ none → f.from_block ≡ some a → f.to_block ≡ some b → IsTxQuery f

-- A query of transactions that is accepted is by a hash alone, or it names no hash and both ends of
-- a range of blocks.
pub extract_tx_filter-IsTxQuery :
    (q : Query) (f : TransactionFilter) → extract_tx_filter q ≡ ok f → IsTxQuery f
unfolding extract_tx_filter
extract_tx_filter-IsTxQuery q f h = elim (Result-cases (uint_if_given (q (str "fromBlock")))) [
  | inr (x, p) ↦ absurd (ground arith)
  | inl (o, p) ↦ elim (Result-cases (uint_if_given (q (str "toBlock")))) [
    | inr (x, r) ↦ absurd (ground arith)
    | inl (o', r) ↦ elim (Result-cases (int_if_given (q (str "limit")))) [
      | inr (x, l) ↦ absurd (ground arith)
      | inl (m, l) ↦ elim (uint_if_given-eq-ok (q (str "fromBlock")) o p) [
        | inl (g, a, e) ↦ elim (uint_if_given-eq-ok (q (str "toBlock")) o' r) [
          | inl (k, b, e') ↦ in_range a b (ground arith) (ground arith) (ground arith)
          | inr (k, e') ↦ absurd (ground arith)
        ]
        | inr (g, e) ↦ elim (uint_if_given-eq-ok (q (str "toBlock")) o' r) [
          | inl (k, b, e') ↦ absurd (ground arith)
          | inr (k, e') ↦
              alone (q (str "hash")) (ground arith) (ground arith) (ground arith) (ground arith)
                (ground arith)
        ]
      ]
    ]
  ]
]
