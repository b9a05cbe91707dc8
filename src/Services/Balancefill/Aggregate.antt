-- ===== src/Services/Balancefill/Aggregate.antt =====
-- `aggregateSameEntries`: one entry for each key, with the key's sum, in whatever order the map is
-- walked.
use mathlib.Core.List.{Perm, Permᴰ}
use mathlib.Core.Logic.{∥∥₁_elim}
use mathlib.Core.HLevel.{hedberg}
use native.Mathlib.Decide.{ℕ_discrete}
use evm_indexer.Prelude.{◌≡◌, refl, ap, ◌∙◌, Bool, List, [], ◌∷◌, map, arith, Bool-cases, inl, inr}
use evm_indexer.Prelude.Int.{ℤ, pos, ◌+ℤ◌, +ℤ_comm, zero-+ℤ}
use evm_indexer.Domain.Models.{BalanceEntry}
use evm_indexer.Store.Balances.{
  BalanceKey, key_of, same_key, same_key_iff, upsert_row, upsert_rows, has_key, repeats, sum_where,
  left_comm, sum_where-upsert_rows, HasUniqueKeys, upsert_rows-HasUniqueKeys,
}
use evm_indexer.Services.Balancefill.{Sums, add_to, sum_entries, to_entry, aggregate_same_entries}

-- Go's map over its keys is the upsert of the same entries into an empty table.
to_entry-add_to :
    (e : BalanceEntry) (m : Sums)
    → map to_entry (add_to (key_of e) e.amount m) ≡ upsert_row e (map to_entry m)
unfolding add_to to_entry upsert_row
to_entry-add_to e [] = refl
to_entry-add_to e ((j, b) ∷ m) = elim (Bool-cases (same_key j (key_of e))) [
  | inl same ↦ rw same
  | inr other ↦ rw (other, to_entry-add_to e m)
]

to_entry-sum_entries :
    (m : Sums) (es : List BalanceEntry)
    → map to_entry (sum_entries m es) ≡ upsert_rows es (map to_entry m)
unfolding sum_entries upsert_rows
to_entry-sum_entries m [] = refl
to_entry-sum_entries m (e ∷ es) =
    to_entry-sum_entries (add_to (key_of e) e.amount m) es
    ∙ ap (upsert_rows es) (to_entry-add_to e m)

plus_zero : (a : ℤ) → a +ℤ pos 0 ≡ a
plus_zero a = +ℤ_comm a (pos 0) ∙ zero-+ℤ a

sum_where-nil : (p : BalanceKey → Bool) → sum_where p [] ≡ pos 0
unfolding sum_where
sum_where-nil p = refl

nothing_repeats : HasUniqueKeys []
unfolding repeats
nothing_repeats = refl

ℤ-discrete : Discrete ℤ
ℤ-discrete = hlevel ℕ_discrete

Bool-discrete : Discrete Bool
Bool-discrete = hlevel

module _ (p : BalanceKey → Bool) where
  abbrev sum_of : Sums → ℤ
  sum_of m = sum_where p (map to_entry m)

  sum_of-cons :
      (x : BalanceKey × ℤ) (l m : Sums) → sum_of l ≡ sum_of m → sum_of (x ∷ l) ≡ sum_of (x ∷ m)
  unfolding sum_where
  sum_of-cons x l m h = ground arith

  sum_of-swap : (x y : BalanceKey × ℤ) (l : Sums) → sum_of (x ∷ y ∷ l) ≡ sum_of (y ∷ x ∷ l)
  unfolding sum_where
  sum_of-swap x y l = ground (arith, left_comm (to_entry x).amount (to_entry y).amount (sum_of l))

  sum_of-Permᴰ : {xs ys : Sums} → Permᴰ xs ys → sum_of xs ≡ sum_of ys
  sum_of-Permᴰ Permᴰ.nil = refl
  sum_of-Permᴰ (Permᴰ.cons {b = b} {l₁ = l} {l₂ = m} e d) =
      ap (λ x. sum_of (x ∷ l)) e ∙ sum_of-cons b l m (sum_of-Permᴰ d)
  sum_of-Permᴰ (Permᴰ.swap {a = a} {b = b} {a' = a'} {b' = b'} {l = l} e f) =
      sum_of-swap a b l ∙ ap (λ x. sum_of (x ∷ a ∷ l)) f ∙ ap (λ x. sum_of (a' ∷ x ∷ l)) e
  sum_of-Permᴰ (Permᴰ.trans d e) = sum_of-Permᴰ d ∙ sum_of-Permᴰ e

  sum_of-perm : (xs ys : Sums) → Perm xs ys → sum_of xs ≡ sum_of ys
  sum_of-perm xs ys t = ∥∥₁_elim t (hedberg ℤ-discrete _ _) sum_of-Permᴰ

same_key_comm : (a b : BalanceKey) → same_key a b ≡ same_key b a
same_key_comm a b = ground (arith, same_key_iff a b, same_key_iff b a)

module _ (k : BalanceKey) where
  abbrev has : Sums → Bool
  has m = has_key k (map to_entry m)

  has-Permᴰ : {xs ys : Sums} → Permᴰ xs ys → has xs ≡ has ys
  has-Permᴰ Permᴰ.nil = refl
  has-Permᴰ (Permᴰ.cons {b = b} {l₁ = l} {l₂ = m} e d) =
      ap (λ x. has (x ∷ l)) e ∙ ground (arith, has-Permᴰ d)
  has-Permᴰ (Permᴰ.swap {a = a} {b = b} {a' = a'} {b' = b'} {l = l} e f) =
      ground arith ∙ ap (λ x. has (x ∷ a ∷ l)) f ∙ ap (λ x. has (a' ∷ x ∷ l)) e
  has-Permᴰ (Permᴰ.trans d e) = has-Permᴰ d ∙ has-Permᴰ e

abbrev repeated : Sums → Bool
repeated m = repeats (map to_entry m)

repeated-cons :
    (x : BalanceKey × ℤ) (l m : Sums)
    → Permᴰ l m
    → repeated l ≡ repeated m
    → repeated (x ∷ l) ≡ repeated (x ∷ m)
unfolding repeats
repeated-cons x l m d h = ground (arith, has-Permᴰ (key_of (to_entry x)) d)

repeated-swap : (x y : BalanceKey × ℤ) (l : Sums) → repeated (x ∷ y ∷ l) ≡ repeated (y ∷ x ∷ l)
unfolding repeats
repeated-swap x y l = ground (arith, same_key_comm (key_of (to_entry x)) (key_of (to_entry y)))

repeated-Permᴰ : {xs ys : Sums} → Permᴰ xs ys → repeated xs ≡ repeated ys
repeated-Permᴰ Permᴰ.nil = refl
repeated-Permᴰ (Permᴰ.cons {b = b} {l₁ = l} {l₂ = m} e d) =
    ap (λ x. repeated (x ∷ l)) e ∙ repeated-cons b l m d (repeated-Permᴰ d)
repeated-Permᴰ (Permᴰ.swap {a = a} {b = b} {a' = a'} {b' = b'} {l = l} e f) =
    repeated-swap a b l ∙ ap (λ x. repeated (x ∷ a ∷ l)) f ∙ ap (λ x. repeated (a' ∷ x ∷ l)) e
repeated-Permᴰ (Permᴰ.trans d e) = repeated-Permᴰ d ∙ repeated-Permᴰ e

repeated-perm : (xs ys : Sums) → Perm xs ys → repeated xs ≡ repeated ys
repeated-perm xs ys t = ∥∥₁_elim t (hedberg Bool-discrete _ _) repeated-Permᴰ

-- Aggregation keeps the sum of the amounts under every test of the keys, and leaves no key twice, so
-- that the upsert of its result is accepted. Go's order over the map does not matter.
pub aggregate-sums :
    (iterate : Sums → Sums) (entries : List BalanceEntry)
    → ((m : Sums) → Perm (iterate m) m)
    → ((p : BalanceKey → Bool)
        → sum_where p (aggregate_same_entries iterate entries) ≡ sum_where p entries)
      × HasUniqueKeys (aggregate_same_entries iterate entries)
unfolding aggregate_same_entries
aggregate-sums iterate entries order = (
  λ p.
      sum_of-perm p _ _ (order (sum_entries [] entries))
      ∙ ap (sum_where p) (to_entry-sum_entries [] entries)
      ∙ sum_where-upsert_rows p entries []
      ∙ ap (λ z. sum_where p entries +ℤ z) (sum_where-nil p)
      ∙ plus_zero _,
  repeated-perm _ _ (order (sum_entries [] entries))
      ∙ ap repeats (to_entry-sum_entries [] entries)
      ∙ upsert_rows-HasUniqueKeys entries [] nothing_repeats,
)
