-- ===== src/Handlers/Rest.antt =====
-- internal/handlers/rest/utils.go and handlers.go. The query of a URL is a function from names to
-- values, which gives the empty text for a name that is not there.
pub mod Numbers
pub mod Extracts
pub mod Server
pub mod Router
use evm_indexer.Prelude.{
  ℕ, Str, str, ◌=ₛ◌, Bool, true, false, not, ◌&&◌, ◌||◌, Option, none, some, List, [], ◌∷◌, ◌++◌,
  if◌then◌else◌,
}
use evm_indexer.Prelude.Int.{ℤ}
use evm_indexer.Domain.Errors.{
  Error, Result, ok, err, ◌>>=◌, ◌>>◌, invalid_params, not_found, invalid_hash, invalid_id,
  invalid_block_range, invalid_time_range,
}
use evm_indexer.Domain.Models.{TransactionFilter, EventFilter}
use evm_indexer.Handlers.Rest.Numbers.{parse_uint, value_of, atoi}

pub data GroupParam : Type 0 where
  id_param hash_param from_offset_param from_to_time_param : GroupParam

pub record BlockDto : Type 0 where
  pub id : ℕ
  pub hash : Str
  pub from : ℕ
  pub offset : ℕ
  pub from_time : ℕ
  pub to_time : ℕ
  pub tx : Bool
  pub group_param : GroupParam

abbrev pub Query : Type 0
Query = Str → Str

abbrev pub given : Str → Bool
given s = not (s =ₛ [])

abbrev pub one_if : Bool → GroupParam → List GroupParam
one_if true g = g ∷ []
one_if false g = []

-- the groups of parameters that are there, in the order of the tests
unfoldable pub groups : Query → List GroupParam
groups q =
    one_if (given (q (str "id"))) id_param
    ++ (one_if (given (q (str "hash"))) hash_param
        ++ (one_if (given (q (str "from"))) from_offset_param
            ++ one_if (given (q (str "fromTime")) && given (q (str "toTime"))) from_to_time_param))

-- the fields that no parameter of the group sets
unfoldable pub blank_dto : Query → GroupParam → BlockDto
blank_dto q g = record {
  id = 0;
  hash = [];
  from = 0;
  offset = 0;
  from_time = 0;
  to_time = 0;
  tx = q (str "tx") =ₛ str "yes";
  group_param = g;
}

-- Where two numbers are read, `err` holds the error of the second, and the value of the first stays
-- what `ParseUint` made of it.
unfoldable pub block_dto : Query → GroupParam → Result BlockDto
unfolding blank_dto
block_dto q id_param = do
  n ← parse_uint (q (str "id"))
  ok (record (blank_dto q id_param) { id = n })
block_dto q hash_param = ok (record (blank_dto q hash_param) { hash = q (str "hash") })
block_dto q from_offset_param =
    if given (q (str "offset"))
    then (do
      n ← parse_uint (q (str "offset"))
      ok (record (blank_dto q from_offset_param) {
        from = value_of (parse_uint (q (str "from")));
        offset = n;
      }))
    else (do
      n ← parse_uint (q (str "from"))
      ok (record (blank_dto q from_offset_param) { from = n }))
block_dto q from_to_time_param = do
  n ← parse_uint (q (str "toTime"))
  ok (record (blank_dto q from_to_time_param) {
    from_time = value_of (parse_uint (q (str "fromTime")));
    to_time = n;
  })

-- `group != 1`
unfoldable pub only_group : Query → List GroupParam → Result BlockDto
unfolding block_dto
only_group q (g ∷ []) = block_dto q g
only_group q _ = err invalid_params

unfoldable pub extract_block_dto : Query → Result BlockDto
unfolding groups only_group
extract_block_dto q = only_group q (groups q)

abbrev pub text_if_given : Str → Option Str
text_if_given s = if given s then some s else none

unfoldable pub uint_if_given : Str → Result (Option ℕ)
uint_if_given s = if given s then (do n ← parse_uint s; ok (some n)) else ok none

unfoldable pub int_if_given : Str → Result (Option ℤ)
int_if_given s = if given s then (do n ← atoi s; ok (some n)) else ok none

-- the topics that are there, in order
unfoldable pub topics_given : List Str → List Str
topics_given [] = []
topics_given (t ∷ ts) = let rest = topics_given ts in if given t then t ∷ rest else rest

abbrev pub refuse_if : Bool → Result (Unit {0})
refuse_if true = err invalid_params
refuse_if false = ok tt

-- `(fromBlock != "") != (toBlock != "")`
abbrev pub differ : Bool → Bool → Bool
differ a b = if a then not b else b

abbrev pub topics_of : Query → List Str
topics_of q = q (str "topic0") ∷ q (str "topic1") ∷ q (str "topic2") ∷ q (str "topic3") ∷ []

unfoldable pub extract_event_filter : Query → Result EventFilter
unfolding topics_given uint_if_given int_if_given
extract_event_filter q = do
  refuse_if (
      not (given (q (str "address")))
      && not (
          given (q (str "topic0"))
          || (given (q (str "topic1")) || (given (q (str "topic2")) || given (q (str "topic3"))))))
  refuse_if (differ (given (q (str "fromBlock"))) (given (q (str "toBlock"))))
  from ← uint_if_given (q (str "fromBlock"))
  to ← uint_if_given (q (str "toBlock"))
  limit ← int_if_given (q (str "limit"))
  ok (record {
    tx_hash = none;
    emitter = text_if_given (q (str "address"));
    topics = topics_given (topics_of q);
    from_block = from;
    to_block = to;
    limit = limit;
  })

unfoldable pub extract_tx_filter : Query → Result TransactionFilter
unfolding uint_if_given int_if_given
extract_tx_filter q =
    let has_hash = given (q (str "hash")) in
    let has_range = given (q (str "fromBlock")) || given (q (str "toBlock")) in
    let has_address = given (q (str "from")) || given (q (str "to")) in
    do
      refuse_if (has_hash && (has_range || has_address))
      refuse_if (differ (given (q (str "fromBlock"))) (given (q (str "toBlock"))))
      refuse_if (not has_hash && (not has_range && not has_address))
      refuse_if (has_address && not has_range)
      from ← uint_if_given (q (str "fromBlock"))
      to ← uint_if_given (q (str "toBlock"))
      limit ← int_if_given (q (str "limit"))
      ok (record {
        block_id = none;
        hash = text_if_given (q (str "hash"));
        from = text_if_given (q (str "from"));
        to = text_if_given (q (str "to"));
        from_block = from;
        to_block = to;
        limit = limit;
      })

-- `writeResErrorToHTTP`: the status
unfoldable pub status_of : Error → ℕ
status_of not_found = 404
status_of invalid_hash = 400
status_of invalid_id = 400
status_of invalid_block_range = 400
status_of invalid_time_range = 400
status_of _ = 500
