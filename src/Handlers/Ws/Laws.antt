-- ===== src/Handlers/Ws/Laws.antt =====
-- Laws of the map from filters to channels, and of the removal from a slice.
use evm_indexer.Prelude.{
  ℕ, zero, suc, ◌≤◌, =ₛ_iff, ◌≡◌, ◌↔◌, refl, sym, subst, inl, inr, Bool-cases, true, In, List, [],
  ◌∷◌, ◌++◌, length, if◌then◌else◌, arith,
}
use evm_indexer.Domain.Errors.{ok, err, panic}
use evm_indexer.Handlers.Ws.Slices.{
  SubscriptionFilter, same_filter, Clients, chans_at, put_chans, remove_at,
}

pub same_filter_iff : (a b : SubscriptionFilter) → (same_filter a b ≡ true) ↔ (a ≡ b)
unfolding same_filter
same_filter_iff a b = ground (arith, =ₛ_iff a.address b.address, =ₛ_iff a.topic0 b.topic0)

-- Only the slice of the written filter changes.
pub chans_at-put_chans :
    (g f : SubscriptionFilter) (cs : List ℕ) (m : Clients)
    → chans_at g (put_chans f cs m) ≡ (if same_filter f g then cs else chans_at g m)
unfolding chans_at put_chans
chans_at-put_chans g f cs [] = refl
chans_at-put_chans g f cs ((k, ds) ∷ m) = ground (
  arith,
  chans_at-put_chans g f cs m,
  same_filter_iff k f,
  same_filter_iff k g,
  same_filter_iff f g,
)

-- A slice that is not empty is an entry of the map.
pub In-chans_at :
    (f : SubscriptionFilter) (cs : List ℕ) (c : ℕ) (m : Clients)
    → chans_at f m ≡ cs
    → In c cs
    → In (f, cs) m
unfolding chans_at
In-chans_at f cs c [] h i = absurd (subst (In c) (sym h) i)
In-chans_at f cs c ((g, ds) ∷ m) h i = elim (Bool-cases (same_filter g f)) [
  | inl e ↦ inl (let p : ds ≡ cs = ground arith in λ k. ((same_filter_iff g f).0 e k, p k))
  | inr e ↦ inr (In-chans_at f cs c m (ground arith) i)
]

pub remove_at-append :
    (xs : List ℕ) (c : ℕ) (ys : List ℕ) → remove_at (length xs) (xs ++ (c ∷ ys)) ≡ ok (xs ++ ys)
unfolding remove_at
remove_at-append [] c ys = refl
remove_at-append (x ∷ xs) c ys = rw (remove_at-append xs c ys)

-- An index at or past the length panics.
pub remove_at_past : (i : ℕ) (cs : List ℕ) → length cs ≤ i → remove_at i cs ≡ err panic
unfolding remove_at
remove_at_past i [] h = refl
remove_at_past zero (c ∷ cs) h = absurd (omega arith)
remove_at_past (suc i) (c ∷ cs) h = rw (remove_at_past i cs (omega arith))
