-- ===== src/Services/Balancefill.antt =====
-- internal/core/services/balancefill.go. What go-ethereum does (hex text, hashes, ABI decoding) is
-- a parameter, and so is the order in which Go walks a map.
pub mod Entries
pub mod Aggregate
pub mod Loop
pub mod Pass
pub mod Supply
pub mod Untouched
pub mod Ledger
pub mod Accounted
use evm_indexer.Prelude.{
  ℕ, suc, ◌+◌, ◌*◌, ◌-◌, ◌≤◌, Str, str, ◌=ₛ◌, Bool, true, false, ◌||◌, Option, none, some, List, [],
  ◌∷◌, ◌++◌, map, length, get_elem?, take, drop, ltb, leb, ◌==◌, if◌then◌else◌,
}
use evm_indexer.Prelude.Int.{ℤ, pos, negsuc, ◌+ℤ◌, neg}
use evm_indexer.Domain.Errors.{Error, Result, ok, err, ◌>>=◌, panic}
use evm_indexer.Domain.Models.{Log, LogFilter, BalanceEntry}
use evm_indexer.Store.Balances.{BalanceKey, key_of, same_key}

-- The functions of go-ethereum that the service calls.
pub record Ethereum : Type 0 where
  -- common.FromHex
  pub from_hex : Str → List ℕ
  -- common.BigToHash(n).Hex()
  pub hash_hex : ℕ → Str
  -- abi.Arguments.Unpack at the types uint256[], uint256[]
  pub unpack : List ℕ → Result (List (List ℕ))

pub data Standard : Type 0 where
  unknown erc20 erc721 erc1155_single erc1155_batch : Standard

unfoldable pub transfer : Str
transfer = str "0xddf252ad1be2c89b69c2b068fc378daa952ba7f163c4a11628f55a4df523b3ef"

unfoldable pub transfer_single : Str
transfer_single = str "0xc3d58168c5ae7397731d063d5bbf3d657854427343f4c083240f7aacaa2d0f62"

unfoldable pub transfer_batch : Str
transfer_batch = str "0x4a39dc06d4c0dbc64b70af90fd698a233a518aa5d07e595d983b8c0526c8f7fb"

unfoldable pub transfer_signatures : List Str
transfer_signatures = transfer ∷ transfer_single ∷ transfer_batch ∷ []

unfoldable pub standard_of : List Str → Standard
standard_of [] = unknown
standard_of (topic ∷ topics) =
    if topic =ₛ transfer_single
    then erc1155_single
    else if topic =ₛ transfer_batch
    then erc1155_batch
    else if leb (length (topic ∷ topics)) 3
    then erc20
    else erc721

unfoldable pub find_standard : Log → Standard
unfolding standard_of
find_standard event = standard_of event.topics

-- `event.Topics[i]`
abbrev pub or_panic {ℓ} : {A : Type ℓ} → Option A → Result A
or_panic none = err panic
or_panic (some a) = ok a

abbrev pub topic_at : List Str → ℕ → Result Str
topic_at topics i = or_panic (get_elem? topics i)

-- `new(big.Int).SetBytes`, most significant byte first
unfoldable pub set_bytes_from : ℕ → List ℕ → ℕ
set_bytes_from acc [] = acc
set_bytes_from acc (b ∷ bs) = set_bytes_from (acc * 256 + b) bs

unfoldable pub set_bytes : List ℕ → ℕ
unfolding set_bytes_from
set_bytes bs = set_bytes_from 0 bs

-- what a transfer takes from one wallet and gives to the other
unfoldable pub moves : Str → Str → Str → Str → ℕ → List BalanceEntry
moves from to token id value =
    (record {
      wallet_address = from;
      token_address = token;
      token_id = id;
      amount = neg (pos value);
    })
    ∷ (record { wallet_address = to; token_address = token; token_id = id; amount = pos value })
    ∷ []

-- the loop over `ids`, which stops where `values` is shorter
unfoldable pub batch_moves : Ethereum → Str → Str → Str → List ℕ → List ℕ → List BalanceEntry
batch_moves eth from to token [] values = []
batch_moves eth from to token (i ∷ ids) [] = []
batch_moves eth from to token (i ∷ ids) (v ∷ values) =
    moves from to token (eth.hash_hex i) v ++ batch_moves eth from to token ids values

-- `err != nil || len(vals) < 2`
unfoldable pub unpacked_moves :
    Ethereum → Str → Str → Str → Result (List (List ℕ)) → List BalanceEntry
unpacked_moves eth from to token (ok (ids ∷ values ∷ rest)) =
    batch_moves eth from to token ids values
unpacked_moves eth from to token _ = []

unfoldable pub single_moves : Ethereum → Str → Str → Str → List ℕ → List BalanceEntry
single_moves eth from to token bytes =
    if ltb (length bytes) 64
    then []
    else moves from to token (eth.hash_hex (set_bytes (take 32 bytes)))
        (set_bytes (take 32 (drop 32 bytes)))

unfoldable pub extract_as : Ethereum → Standard → Log → Result (List BalanceEntry)
unfolding single_moves
extract_as eth erc20 e = do
  from ← topic_at e.topics 1
  to ← topic_at e.topics 2
  ok (moves from to e.emitter [] (set_bytes (eth.from_hex e.datas)))
extract_as eth erc721 e = do
  from ← topic_at e.topics 1
  to ← topic_at e.topics 2
  id ← topic_at e.topics 3
  ok (moves from to e.emitter id 1)
extract_as eth erc1155_single e = do
  from ← topic_at e.topics 2
  to ← topic_at e.topics 3
  ok (single_moves eth from to e.emitter (eth.from_hex e.datas))
extract_as eth erc1155_batch e = do
  from ← topic_at e.topics 2
  to ← topic_at e.topics 3
  ok (unpacked_moves eth from to e.emitter (eth.unpack (eth.from_hex e.datas)))
extract_as eth unknown e = ok []

unfoldable pub extract_balance_entries_from_log : Ethereum → Log → Result (List BalanceEntry)
unfolding extract_as find_standard
extract_balance_entries_from_log eth event = extract_as eth (find_standard event) event

-- the loop that appends the entries of each log
unfoldable pub extract_all : Ethereum → List Log → Result (List BalanceEntry)
extract_all eth [] = ok []
extract_all eth (e ∷ es) =
    let rest = extract_all eth es in
    do entries ← extract_balance_entries_from_log eth e; others ← rest; ok (entries ++ others)

-- `map[balanceKey]*big.Int`, in the order in which keys were first seen
abbrev pub Sums : Type 0
Sums = List (BalanceKey × ℤ)

unfoldable pub add_to : BalanceKey → ℤ → Sums → Sums
add_to k a [] = (k, a) ∷ []
add_to k a ((j, b) ∷ m) = if same_key j k then (j, b +ℤ a) ∷ m else (j, b) ∷ add_to k a m

unfoldable pub sum_entries : Sums → List BalanceEntry → Sums
unfolding add_to
sum_entries m [] = m
sum_entries m (e ∷ es) = sum_entries (add_to (key_of e) e.amount m) es

unfoldable pub to_entry : BalanceKey × ℤ → BalanceEntry
to_entry (k, a) = record {
  wallet_address = k.wallet;
  token_address = k.token;
  token_id = k.id;
  amount = a;
}

-- `iterate` is the order in which `for ... range m` gives the pairs.
unfoldable pub aggregate_same_entries : (Sums → Sums) → List BalanceEntry → List BalanceEntry
unfolding sum_entries
aggregate_same_entries iterate entries = map to_entry (iterate (sum_entries [] entries))
