-- ===== src/Services/Balancefill/Entries.antt =====
-- What `extractBalanceEntriesFromLog` makes of a log.
use evm_indexer.Prelude.{
  ℕ, ◌≤◌, ◌<◌, ◌≡◌, refl, subst, ◌∙◌, ◌⊎◌, inl, inr, ◌≢◌, Str, ◌=ₛ◌, Bool-cases, ◌&&◌, ◌||◌, List,
  [], ◌∷◌, ◌++◌, length, ltb, if◌then◌else◌, arith,
}
use evm_indexer.Prelude.Int.{pos, zero-+ℤ, neg-+ℤ-zero}
use evm_indexer.Domain.Errors.{Error, Result, ok, err, ◌>>=◌, panic, Result-cases}
use evm_indexer.Domain.Models.{Log, BalanceEntry}
use evm_indexer.Store.Balances.{supply, sum_where, sum_where-append}
use evm_indexer.Services.Balancefill.{
  Ethereum, Standard, erc20, erc721, erc1155_single, erc1155_batch, unknown, transfer_single,
  transfer_batch, standard_of, find_standard, moves, topic_at, batch_moves, unpacked_moves,
  single_moves, extract_as, extract_balance_entries_from_log, extract_all,
}

-- How many topics the code reads without a test of its own.
abbrev pub topics_read : List Str → ℕ
topics_read [] = 0
topics_read (topic ∷ _) = if (topic =ₛ transfer_single) || (topic =ₛ transfer_batch) then 4 else 3

-- The same, of the topics that the log has.
short_topics :
    (eth : Ethereum) (event : Log) (ts : List Str)
    → event.topics ≡ ts
    → length ts < topics_read ts
    → extract_as eth (standard_of ts) event ≡ err panic
unfolding extract_as standard_of
short_topics eth event [] p h = absurd (omega arith)
short_topics eth event (a ∷ []) p h = ground arith
short_topics eth event (a ∷ b ∷ []) p h = ground arith
short_topics eth event (a ∷ b ∷ c ∷ []) p h = ground arith
short_topics eth event (a ∷ b ∷ c ∷ d ∷ ts) p h = absurd (ground arith)

enough_topics :
    (eth : Ethereum) (event : Log) (ts : List Str) (e : Error)
    → event.topics ≡ ts
    → topics_read ts ≤ length ts
    → extract_as eth (standard_of ts) event ≢ err e
unfolding extract_as standard_of
enough_topics eth event [] e p h = ground arith
enough_topics eth event (a ∷ []) e p h = absurd (ground arith)
enough_topics eth event (a ∷ b ∷ []) e p h = absurd (ground arith)
enough_topics eth event (a ∷ b ∷ c ∷ []) e p h = ground arith
enough_topics eth event (a ∷ b ∷ c ∷ d ∷ ts) e p h = ground arith

module _ (eth : Ethereum) (event : Log) where
  -- A log that lacks one of the topics that the code reads makes it index out of range and panic; a
  -- log that has all of them yields its entries, without an error.
  pub extract_panics_iff :
      ((length event.topics < topics_read event.topics)
        × (extract_balance_entries_from_log eth event ≡ err panic))
      ⊎ ((topics_read event.topics ≤ length event.topics)
          × (entries : List BalanceEntry) × (extract_balance_entries_from_log eth event
              ≡ ok entries))
  unfolding extract_balance_entries_from_log
  extract_panics_iff = elim (Bool-cases (ltb (length event.topics) (topics_read event.topics))) [
    | inl e ↦ inl (ground arith, short_topics eth event event.topics refl (ground arith))
    | inr e ↦ elim (Result-cases (extract_as eth (standard_of event.topics) event)) [
      | inl (entries, p) ↦ inr (ground arith, entries, p)
      | inr (x, p) ↦ absurd (enough_topics eth event event.topics x refl (ground arith) p)
    ]
  ]

-- A transfer takes from one wallet what it gives to the other.
supply-moves :
    (from to token id : Str) (value : ℕ) (t i : Str)
    → supply t i (moves from to token id value) ≡ pos 0
unfolding moves sum_where
supply-moves from to token id value t i = elim (Bool-cases ((token =ₛ t) && (id =ₛ i))) [
  | inl e ↦ rw (e, neg-+ℤ-zero)
  | inr e ↦ rw e
]

supply-append :
    (xs ys : List BalanceEntry) (t i : Str)
    → supply t i xs ≡ pos 0
    → supply t i ys ≡ pos 0
    → supply t i (xs ++ ys) ≡ pos 0
supply-append xs ys t i p q =
    sum_where-append (λ j. (j.token =ₛ t) && (j.id =ₛ i)) xs ys ∙ rw (p, q) (zero-+ℤ (pos 0))

supply-batch_moves :
    (eth : Ethereum) (from to token : Str) (ids values : List ℕ) (t i : Str)
    → supply t i (batch_moves eth from to token ids values) ≡ pos 0
unfolding batch_moves sum_where
supply-batch_moves eth from to token [] values t i = refl
supply-batch_moves eth from to token (n ∷ ids) [] t i = refl
supply-batch_moves eth from to token (n ∷ ids) (v ∷ values) t i =
    supply-append (moves from to token (eth.hash_hex n) v) _ t i
      (supply-moves from to token (eth.hash_hex n) v t i)
      (supply-batch_moves eth from to token ids values t i)

supply-unpacked :
    (eth : Ethereum) (from to token : Str) (r : Result (List (List ℕ))) (t i : Str)
    → supply t i (unpacked_moves eth from to token r) ≡ pos 0
unfolding unpacked_moves sum_where
supply-unpacked eth from to token (ok (ids ∷ values ∷ rest)) t i =
    supply-batch_moves eth from to token ids values t i
supply-unpacked eth from to token (ok []) t i = refl
supply-unpacked eth from to token (ok (ids ∷ [])) t i = refl
supply-unpacked eth from to token (err e) t i = refl

supply-single :
    (eth : Ethereum) (from to token : Str) (bytes : List ℕ) (t i : Str)
    → supply t i (single_moves eth from to token bytes) ≡ pos 0
unfolding single_moves sum_where
supply-single eth from to token bytes t i = elim (Bool-cases (ltb (length bytes) 64)) [
  | inl short ↦ rw short
  | inr long ↦ rw long (supply-moves from to token _ _ t i)
]

-- `do from ← topic_at ...; to ← topic_at ...; ok (f from to)`
two_topics :
    {A : Type 0} (a b : Result Str) (f : Str → Str → A) (P : A → Type 0)
    → ((x y : Str) → P (f x y))
    → {r : A} → (a >>= λ x. b >>= λ y. ok (f x y)) ≡ ok r
    → P r
two_topics (ok x) (ok y) f P k h = subst P (ground arith) (k x y)
two_topics (ok x) (err e) f P k h = absurd (ground arith)
two_topics (err e) b f P k h = absurd (ground arith)

three_topics :
    {A : Type 0} (a b c : Result Str) (f : Str → Str → Str → A) (P : A → Type 0)
    → ((x y z : Str) → P (f x y z))
    → {r : A} → (a >>= λ x. b >>= λ y. c >>= λ z. ok (f x y z)) ≡ ok r
    → P r
three_topics (ok x) b c f P k h = two_topics b c (f x) P (k x) h
three_topics (err e) b c f P k h = absurd (ground arith)

abbrev Balanced : List BalanceEntry → Type 0
Balanced entries = (t i : Str) → supply t i entries ≡ pos 0

nil-Balanced : Balanced []
unfolding sum_where
nil-Balanced t i = refl

extract_as-Balanced :
    (eth : Ethereum) (std : Standard) (event : Log) {entries : List BalanceEntry}
    → extract_as eth std event ≡ ok entries
    → Balanced entries
unfolding extract_as
extract_as-Balanced eth erc20 e h =
    two_topics (topic_at e.topics 1) (topic_at e.topics 2) _ Balanced
      (λ x y. supply-moves x y e.emitter [] _) h
extract_as-Balanced eth erc721 e h =
    three_topics (topic_at e.topics 1) (topic_at e.topics 2) (topic_at e.topics 3) _ Balanced
      (λ x y z. supply-moves x y e.emitter z 1) h
extract_as-Balanced eth erc1155_single e h =
    two_topics (topic_at e.topics 2) (topic_at e.topics 3) _ Balanced
      (λ x y. supply-single eth x y e.emitter (eth.from_hex e.datas)) h
extract_as-Balanced eth erc1155_batch e h =
    two_topics (topic_at e.topics 2) (topic_at e.topics 3) _ Balanced
      (λ x y. supply-unpacked eth x y e.emitter (eth.unpack (eth.from_hex e.datas))) h
extract_as-Balanced eth unknown e h = subst Balanced (ground arith) nil-Balanced

-- The entries that the code extracts from any logs that it does not panic on sum to zero for every
-- token and token id: what one wallet loses, others gain.
pub supply-extract_all :
    (eth : Ethereum) (logs : List Log) {entries : List BalanceEntry} (t i : Str)
    → extract_all eth logs ≡ ok entries
    → supply t i entries ≡ pos 0
unfolding extract_all extract_balance_entries_from_log
supply-extract_all eth [] t i h =
    subst (λ r. supply t i r ≡ pos 0) (ground arith) (nil-Balanced t i)
supply-extract_all eth (e ∷ es) {entries} t i h =
    elim (Result-cases (extract_as eth (find_standard e) e)) [
      | inr (x, p) ↦ absurd (ground arith)
      | inl (a, p) ↦ elim (Result-cases (extract_all eth es)) [
        | inr (x, q) ↦ absurd (ground arith)
        | inl (b, q) ↦
            let r : a ++ b ≡ entries = ground arith in
            subst (λ r. supply t i r ≡ pos 0) r
              (supply-append a b t i (extract_as-Balanced eth (find_standard e) e p t i)
                (supply-extract_all eth es t i q))
      ]
    ]
