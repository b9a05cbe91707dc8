-- ===== src/Prelude/Text.antt =====
-- Go strings as lists of bytes, with their equality test.
use Prim.Native.Nat.{ℕ}
use Prim.Native.Char.{code}
use Prim.Native.String.{String}
use mathlib.Core.Path.{◌≡◌, refl}
use mathlib.Core.Logic.{◌↔◌}
use mathlib.Core.Bool.{Bool, true, false, ◌&&◌}
use mathlib.Core.List.{List, [], ◌∷◌}
use native.Mathlib.Omega.{arith}
use evm_indexer.Prelude.Tests.{◌==◌, ==_iff, &&-eq-true}

abbrev pub Str : Type 0
Str = List ℕ

-- The bytes of an ASCII text.
abbrev pub str : String → Str
str String.[] = []
str (String.◌∷◌ c s) = code c ∷ str s

infix 50 ◌=ₛ◌
unfoldable pub ◌=ₛ◌ : Str → Str → Bool
[] =ₛ [] = true
[] =ₛ (y ∷ ys) = false
(x ∷ xs) =ₛ [] = false
(x ∷ xs) =ₛ (y ∷ ys) = (x == y) && (xs =ₛ ys)

=ₛ_sound : (a b : Str) → (a =ₛ b) ≡ true → a ≡ b
unfolding ◌=ₛ◌
=ₛ_sound [] [] h = refl
=ₛ_sound [] (y ∷ ys) h = ground arith
=ₛ_sound (x ∷ xs) [] h = ground arith
=ₛ_sound (x ∷ xs) (y ∷ ys) h =
    let (p, q) = &&-eq-true (x == y) (xs =ₛ ys) h in cc ((==_iff x y).0 p, =ₛ_sound xs ys q)

pub =ₛ_refl : (a : Str) → (a =ₛ a) ≡ true
unfolding ◌=ₛ◌
=ₛ_refl [] = refl
=ₛ_refl (x ∷ xs) = rw ((==_iff x x).1 refl, =ₛ_refl xs)

pub =ₛ_iff : (a b : Str) → ((a =ₛ b) ≡ true) ↔ (a ≡ b)
=ₛ_iff a b = (=ₛ_sound a b, λ p. rw p (=ₛ_refl b))
