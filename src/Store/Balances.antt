-- ===== src/Store/Balances.antt =====
-- The upsert of `wallet_balance`, and what the table says of one wallet, token and token id.
use evm_indexer.Prelude.{
  Str, ◌=ₛ◌, =ₛ_iff, ◌≡◌, ◌↔◌, refl, sym, Bool, true, false, ◌&&◌, List, [], ◌++◌, ◌∷◌, any, arith,
  if◌then◌else◌,
}
use evm_indexer.Prelude.Int.{ℤ, pos, ◌+ℤ◌, +ℤ_assoc, zero-+ℤ, int_laws}
use evm_indexer.Domain.Errors.{Result, ok, err, cardinality_violation}
use evm_indexer.Domain.Models.{BalanceEntry}
use evm_indexer.Store.{Store}

-- the primary key of `wallet_balance`, and `balanceKey` of balancefill.go
pub record BalanceKey : Type 0 where
  pub wallet : Str
  pub token : Str
  pub id : Str

abbrev pub key_of : BalanceEntry → BalanceKey
key_of e = record { wallet = e.wallet_address; token = e.token_address; id = e.token_id }

unfoldable pub same_key : BalanceKey → BalanceKey → Bool
same_key a b = (a.wallet =ₛ b.wallet) && ((a.token =ₛ b.token) && (a.id =ₛ b.id))

pub same_key_iff : (a b : BalanceKey) → (same_key a b ≡ true) ↔ (a ≡ b)
unfolding same_key
same_key_iff a b =
    ground (arith, =ₛ_iff a.wallet b.wallet, =ₛ_iff a.token b.token, =ₛ_iff a.id b.id)

-- DO UPDATE SET amount = wallet_balance.amount + EXCLUDED.amount
unfoldable pub upsert_row : BalanceEntry → List BalanceEntry → List BalanceEntry
upsert_row e [] = e ∷ []
upsert_row e (r ∷ rs) =
    if same_key (key_of r) (key_of e)
    then record r { amount = r.amount +ℤ e.amount } ∷ rs
    else r ∷ upsert_row e rs

unfoldable pub upsert_rows : List BalanceEntry → List BalanceEntry → List BalanceEntry
upsert_rows [] rows = rows
upsert_rows (e ∷ es) rows = upsert_rows es (upsert_row e rows)

abbrev pub has_key : BalanceKey → List BalanceEntry → Bool
has_key k rows = any (λ r. same_key (key_of r) k) rows

-- two rows of the statement with one key
unfoldable pub repeats : List BalanceEntry → Bool
repeats [] = false
repeats (e ∷ es) = if has_key (key_of e) es then true else repeats es

-- INSERT INTO wallet_balance ... ON CONFLICT DO UPDATE: the statement may not touch a row twice.
unfoldable pub upsert_balances : List BalanceEntry → Store → Result Store
unfolding upsert_rows
upsert_balances es s =
    if repeats es
    then err cardinality_violation
    else ok (record s { wallet_balance = upsert_rows es s.wallet_balance })

-- the sum of the amounts under the keys that a test accepts
unfoldable pub sum_where : (BalanceKey → Bool) → List BalanceEntry → ℤ
sum_where p [] = pos 0
sum_where p (r ∷ rs) = if p (key_of r) then r.amount +ℤ sum_where p rs else sum_where p rs

-- what the table says of one wallet, token and token id
abbrev pub total : BalanceKey → List BalanceEntry → ℤ
total k = sum_where (λ j. same_key j k)

-- the sum over all wallets of one token and token id
abbrev pub supply : Str → Str → List BalanceEntry → ℤ
supply token id = sum_where (λ j. (j.token =ₛ token) && (j.id =ₛ id))

swap_sums : (a b c : ℤ) → a +ℤ b +ℤ c ≡ b +ℤ (a +ℤ c)
swap_sums a b c = omega int_laws

pub left_comm : (a b c : ℤ) → a +ℤ (b +ℤ c) ≡ b +ℤ (a +ℤ c)
left_comm a b c = omega int_laws

sum_shuffle : (a b c : ℤ) → a +ℤ (b +ℤ c) ≡ b +ℤ a +ℤ c
sum_shuffle a b c = omega int_laws

module _ (p : BalanceKey → Bool) where
  sum_where-upsert_row :
      (e : BalanceEntry) (rows : List BalanceEntry)
      → sum_where p (upsert_row e rows) ≡ sum_where p (e ∷ rows)
  unfolding sum_where upsert_row
  sum_where-upsert_row e [] = refl
  sum_where-upsert_row e (r ∷ rs) = ground (
    arith,
    same_key_iff (key_of r) (key_of e),
    sum_where-upsert_row e rs,
    swap_sums r.amount e.amount (sum_where p rs),
    left_comm r.amount e.amount (sum_where p rs),
  )

  pub sum_where-upsert_rows :
      (es rows : List BalanceEntry)
      → sum_where p (upsert_rows es rows) ≡ sum_where p es +ℤ sum_where p rows
  unfolding sum_where upsert_rows
  sum_where-upsert_rows [] rows = sym (zero-+ℤ _)
  sum_where-upsert_rows (e ∷ es) rows = ground (
    arith,
    sum_where-upsert_rows es (upsert_row e rows),
    sum_where-upsert_row e rows,
    sum_shuffle (sum_where p es) e.amount (sum_where p rows),
  )

  pub sum_where-append :
      (xs ys : List BalanceEntry) → sum_where p (xs ++ ys) ≡ sum_where p xs +ℤ sum_where p ys
  unfolding sum_where
  sum_where-append [] ys = sym (zero-+ℤ _)
  sum_where-append (x ∷ xs) ys =
      ground (arith, sum_where-append xs ys, +ℤ_assoc x.amount (sum_where p xs) (sum_where p ys))

  -- An upsert that is accepted adds the entries' amounts to the balances.
  pub sum_where-upsert_balances :
      (es : List BalanceEntry) (s : Store) {s' : Store}
      → upsert_balances es s ≡ ok s'
      → sum_where p s'.wallet_balance ≡ sum_where p es +ℤ sum_where p s.wallet_balance
  unfolding upsert_balances
  sum_where-upsert_balances es s h = ground (arith, sum_where-upsert_rows es s.wallet_balance)

-- No key stands in two rows.
abbrev pub HasUniqueKeys : List BalanceEntry → Type 0
HasUniqueKeys rows = repeats rows ≡ false

has_key-upsert_row :
    (k : BalanceKey) (e : BalanceEntry) (rows : List BalanceEntry)
    → has_key k (upsert_row e rows) ≡ has_key k (e ∷ rows)
unfolding upsert_row
has_key-upsert_row k e [] = refl
has_key-upsert_row k e (r ∷ rs) = ground (
  arith,
  same_key_iff (key_of r) (key_of e),
  same_key_iff (key_of r) k,
  same_key_iff (key_of e) k,
  has_key-upsert_row k e rs,
)

upsert_row-HasUniqueKeys :
    (e : BalanceEntry) (rows : List BalanceEntry)
    → HasUniqueKeys rows
    → HasUniqueKeys (upsert_row e rows)
unfolding upsert_row repeats
upsert_row-HasUniqueKeys e [] h = refl
upsert_row-HasUniqueKeys e (r ∷ rs) h = ground (
  arith,
  same_key_iff (key_of r) (key_of e),
  same_key_iff (key_of e) (key_of r),
  has_key-upsert_row (key_of r) e rs,
  upsert_row-HasUniqueKeys e rs,
)

pub upsert_rows-HasUniqueKeys :
    (es rows : List BalanceEntry) → HasUniqueKeys rows → HasUniqueKeys (upsert_rows es rows)
unfolding upsert_rows
upsert_rows-HasUniqueKeys [] rows h = h
upsert_rows-HasUniqueKeys (e ∷ es) rows h =
    upsert_rows-HasUniqueKeys es (upsert_row e rows) (upsert_row-HasUniqueKeys e rows h)
