-- ===== src/Fetcher/Hex.antt =====
-- `fmt.Sprintf("0x%x", id)`, and what the digits stand for.
use evm_indexer.Prelude.{
  ℕ, zero, suc, ◌+◌, ◌-◌, ◌*◌, ◌/◌, ◌%◌, ◌<◌, ◌≡◌, ◌≢◌, refl, ap, ◌∙◌, Str, str, true, false,
  Option, none, some, [], ◌∷◌, ◌++◌, ltb, leb, ◌==◌, Bool, not, ◌&&◌, ◌||◌, if◌then◌else◌, arith,
}
use native.Mathlib.Decide.{dec_lt}

-- '0' to '9', 'a' to 'f'
unfoldable pub hex_digit : ℕ → ℕ
hex_digit d = if ltb d 10 then 48 + d else 87 + d

-- the digits of `n` before those that are written already; the fuel is the number of digits at most
unfoldable pub hex_digits : ℕ → ℕ → Str → Str
hex_digits zero n written = written
hex_digits (suc fuel) n written =
    let rest = hex_digits fuel (n / 16) (hex_digit (n % 16) ∷ written) in
    if ltb n 16 then hex_digit n ∷ written else rest

unfoldable pub id_hex : ℕ → Str
unfolding hex_digits
id_hex id = str "0x" ++ hex_digits (suc id) id []

-- What a node reads: the value of a digit, if it is one.
unfoldable pub digit_value : ℕ → Option ℕ
digit_value c =
    if leb 48 c && leb c 57
    then some (c - 48)
    else if leb 97 c && leb c 102
    then some (c - 87)
    else none

unfoldable pub read_digits : ℕ → Str → Option ℕ
read_digits value [] = some value
read_digits value (c ∷ cs) = elim (digit_value c) [
  | none ↦ none
  | some d ↦ read_digits (value * 16 + d) cs
]

abbrev is_empty : Str → Bool
is_empty [] = true
is_empty (c ∷ cs) = false

-- A quantity of the RPC: `0x`, then at least one digit, and no leading zero but that of `0x0`.
unfoldable pub read_quantity : Str → Option ℕ
unfolding read_digits
read_quantity (a ∷ b ∷ c ∷ cs) =
    if ((a == 48) && (b == 120)) && (not (c == 48) || is_empty cs)
    then read_digits 0 (c ∷ cs)
    else none
read_quantity _ = none

digit_value-hex_digit : (d : ℕ) → d < 16 → digit_value (hex_digit d) ≡ some d
unfolding digit_value hex_digit
digit_value-hex_digit d h = ground arith

read_digits-hex_digit :
    (v d : ℕ) (cs : Str) → d < 16 → read_digits v (hex_digit d ∷ cs) ≡ read_digits (v * 16 + d) cs
unfolding read_digits
read_digits-hex_digit v d cs h = rw (digit_value-hex_digit d h, read_digits) refl

hex_digit-neq-zero : (d : ℕ) → d < 16 → d ≢ 0 → hex_digit d ≢ 48
unfolding hex_digit
hex_digit-neq-zero d h k = ground arith

-- The digits stand for the number, before whatever is written already, and do not begin with 0.
abbrev Reads : ℕ → Str → Str → Type 0
Reads n written s =
    (c : ℕ) × (cs : Str) × (s ≡ c ∷ cs)
    × (read_digits 0 (c ∷ cs) ≡ read_digits n written)
    × (n ≢ 0 → c ≢ 48)

from_zero : (n : ℕ) → 0 * 16 + n ≡ n
from_zero n = omega arith

hex_digits-Reads :
    (fuel n : ℕ) (written : Str) → n < fuel → Reads n written (hex_digits fuel n written)
unfolding hex_digits
hex_digits-Reads zero n written h = absurd (omega arith)
hex_digits-Reads (suc fuel) n written h = elim (dec_lt n 16) [
  | yes small ↦ (
    hex_digit n,
    written,
    ground arith,
    read_digits-hex_digit 0 n written small ∙ ap (λ v. read_digits v written) (from_zero n),
    hex_digit-neq-zero n small,
  )
  | no big ↦
      let (c, cs, p, q, r) =
        hex_digits-Reads fuel (n / 16) (hex_digit (n % 16) ∷ written) (omega arith) in
      let value : n / 16 * 16 + n % 16 ≡ n = omega arith in
      (
        c,
        cs,
        (let skipped : (if ltb n 16
                  then hex_digit n ∷ written
                  else hex_digits fuel (n / 16) (hex_digit (n % 16) ∷ written))
                ≡ hex_digits fuel (n / 16) (hex_digit (n % 16) ∷ written) =
              ground arith in
            skipped ∙ p),
        q
            ∙ read_digits-hex_digit (n / 16) (n % 16) written (omega arith)
            ∙ ap (λ v. read_digits v written) value,
        λ k. r (omega arith),
      )
]

read_quantity-prefix :
    (c : ℕ) (cs : Str) → c ≢ 48 → read_quantity (str "0x" ++ (c ∷ cs)) ≡ read_digits 0 (c ∷ cs)
unfolding read_quantity
read_quantity-prefix c cs h = ground arith

read_digits-end : (n : ℕ) → read_digits n [] ≡ some n
unfolding read_digits
read_digits-end n = refl

read_quantity-zero : read_quantity (id_hex 0) ≡ some 0
unfolding read_quantity id_hex hex_digit digit_value
read_quantity-zero = ground arith

-- The node reads from the text of a block's number the number that the fetcher wrote, and the text is
-- a well-formed quantity: a prefix `0x`, at least one digit, no leading zero.
pub read_quantity-id_hex : (id : ℕ) → read_quantity (id_hex id) ≡ some id
unfolding id_hex
read_quantity-id_hex zero = read_quantity-zero
read_quantity-id_hex (suc n) =
    let (c, cs, p, q, r) = hex_digits-Reads (suc (suc n)) (suc n) [] (omega arith) in
    ap (λ s. read_quantity (str "0x" ++ s)) p
    ∙ read_quantity-prefix c cs (r (omega arith))
    ∙ q
    ∙ read_digits-end (suc n)
