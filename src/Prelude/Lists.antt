-- ===== src/Prelude/Lists.antt =====
-- Lists measured and indexed by native numbers, and predicates on lists by recursion.
use Prim.Native.Nat.{ℕ, zero, suc, ◌+◌}
use mathlib.Core.Path.{◌≡◌, refl, ap, ◌∙◌}
use mathlib.Core.Logic.{◌⊎◌, inl, inr}
use mathlib.Core.Bool.{Bool, true, false}
use mathlib.Core.List.{List, [], ◌∷◌, ◌++◌, map}
use mathlib.Core.Option.{Option, none, some}
use native.Mathlib.Omega.{arith}
use evm_indexer.Prelude.Tests.{Bool-cases, if◌then◌else◌}

module _ {ℓ} {A : Type ℓ} where
  abbrev pub length : List A → ℕ
  length [] = 0
  length (x ∷ xs) = suc (length xs)

  abbrev pub get_elem? : List A → ℕ → Option A
  get_elem? [] i = none
  get_elem? (x ∷ xs) zero = some x
  get_elem? (x ∷ xs) (suc i) = get_elem? xs i

  -- A write out of bounds changes nothing.
  abbrev pub set : List A → ℕ → A → List A
  set [] i v = []
  set (x ∷ xs) zero v = v ∷ xs
  set (x ∷ xs) (suc i) v = x ∷ set xs i v

  abbrev pub take : ℕ → List A → List A
  take zero xs = []
  take (suc n) [] = []
  take (suc n) (x ∷ xs) = x ∷ take n xs

  abbrev pub drop : ℕ → List A → List A
  drop zero xs = xs
  drop (suc n) [] = []
  drop (suc n) (x ∷ xs) = drop n xs

  abbrev pub replicate : ℕ → A → List A
  replicate zero a = []
  replicate (suc n) a = a ∷ replicate n a

  -- The rows that a Boolean test accepts.
  abbrev pub select : (A → Bool) → List A → List A
  select p [] = []
  select p (x ∷ xs) = if p x then x ∷ select p xs else select p xs

  abbrev pub any : (A → Bool) → List A → Bool
  any p [] = false
  any p (x ∷ xs) = if p x then true else any p xs

  pub length-append : (xs ys : List A) → length (xs ++ ys) ≡ length xs + length ys
  length-append [] ys = omega arith
  length-append (x ∷ xs) ys = omega (arith, length-append xs ys)

module _ {ℓ κ} {A : Type ℓ} where
  -- `P` holds of every element.
  abbrev pub All : (A → Type κ) → List A → Type κ
  All P [] = Unit
  All P (x ∷ xs) = P x × All P xs

module _ {A : Type 0} where
  -- `x` is an element, with its place.
  abbrev pub In : A → List A → Type 0
  In x [] = ⊥
  In x (y ∷ ys) = (y ≡ x) ⊎ In x ys

module _ {A : Type 0} where
  -- Some element is followed by one that is the same.
  abbrev pub repeats_by : (A → A → Bool) → List A → Bool
  repeats_by same [] = false
  repeats_by same (x ∷ xs) = if any (same x) xs then true else repeats_by same xs

  pub any-select : (p q : A → Bool) (xs : List A) → any p xs ≡ false → any p (select q xs) ≡ false
  any-select p q [] h = refl
  any-select p q (x ∷ xs) h = ground (arith, any-select p q xs)

  pub repeats_by-select :
      (same : A → A → Bool) (q : A → Bool) (xs : List A)
      → repeats_by same xs ≡ false
      → repeats_by same (select q xs) ≡ false
  repeats_by-select same q [] h = refl
  repeats_by-select same q (x ∷ xs) h =
      ground (arith, any-select (same x) q xs, repeats_by-select same q xs)

  -- What `select` leaves is accepted, and it leaves whatever it accepts.
  pub any-select_rejected :
      (p q : A → Bool) (xs : List A)
      → ((x : A) → p x ≡ true → q x ≡ false)
      → any p (select q xs) ≡ false
  any-select_rejected p q [] h = refl
  any-select_rejected p q (x ∷ xs) h = ground (arith, h x, any-select_rejected p q xs h)

  pub any_of_In : (p : A → Bool) (x : A) (xs : List A) → In x xs → p x ≡ true → any p xs ≡ true
  any_of_In p x [] i h = absurd i
  any_of_In p x (y ∷ xs) (inl e) h = let first : p y ≡ true = ap p e ∙ h in ground arith
  any_of_In p x (y ∷ xs) (inr i) h = ground (arith, any_of_In p x xs i h)

  pub In-of_any : (p : A → Bool) (xs : List A) → any p xs ≡ true → (x : A) × In x xs × (p x ≡ true)
  In-of_any p [] h = absurd (ground arith)
  In-of_any p (y ∷ xs) h = elim (Bool-cases (p y)) [
    | inl e ↦ (y, inl refl, e)
    | inr e ↦ let (x, i, q) = In-of_any p xs (ground arith) in (x, inr i, q)
  ]

  pub In-select : (p : A → Bool) (x : A) (xs : List A) → In x xs → p x ≡ true → In x (select p xs)
  In-select p x [] i h = i
  In-select p x (y ∷ xs) (inl e) h = let first : p y ≡ true = ap p e ∙ h in rw first (inl e)
  In-select p x (y ∷ xs) (inr i) h = elim (Bool-cases (p y)) [
    | inl e ↦ rw e (inr (In-select p x xs i h))
    | inr e ↦ rw e (In-select p x xs i h)
  ]

  pub select-In : (p : A → Bool) (x : A) (xs : List A) → In x (select p xs) → In x xs
  select-In p x [] i = i
  select-In p x (y ∷ xs) i = elim (Bool-cases (p y)) [
    | inl e ↦ elim (rw e at i) [ inl here ↦ inl here | inr there ↦ inr (select-In p x xs there) ]
    | inr e ↦ inr (select-In p x xs (rw e at i))
  ]

  pub In-get_elem? : (xs : List A) (i : ℕ) (x : A) → get_elem? xs i ≡ some x → In x xs
  In-get_elem? [] i x p = absurd (ground arith)
  In-get_elem? (y ∷ xs) zero x p = inl (ground arith)
  In-get_elem? (y ∷ xs) (suc i) x p = inr (In-get_elem? xs i x p)

module _ {A B : Type 0} (f : A → B) where
  pub length-map : (xs : List A) → length (map f xs) ≡ length xs
  length-map [] = refl
  length-map (x ∷ xs) = ap suc (length-map xs)

  pub get_elem?-map :
      (xs : List A) (i : ℕ) (x : A) → get_elem? xs i ≡ some x → get_elem? (map f xs) i ≡ some (f x)
  get_elem?-map [] i x p = absurd (ground arith)
  get_elem?-map (y ∷ xs) zero x p = ground arith
  get_elem?-map (y ∷ xs) (suc i) x p = get_elem?-map xs i x p
