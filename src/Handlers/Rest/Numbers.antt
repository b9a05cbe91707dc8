-- ===== src/Handlers/Rest/Numbers.antt =====
-- The functions of strconv that the REST handlers call, for a base of 10 and 64 bits.
use evm_indexer.Prelude.{
  ℕ, ◌+◌, ◌-◌, ◌*◌, ◌^◌, Str, Bool, true, false, ◌&&◌, [], ◌∷◌, ltb, leb, ◌==◌, if◌then◌else◌,
}
use evm_indexer.Prelude.Int.{ℤ, pos, neg}
use evm_indexer.Domain.Errors.{Result, ok, err, ◌>>=◌, syntax, out_of_range}

abbrev is_digit : ℕ → Bool
is_digit c = leb b'0' c && leb c b'9'

unfoldable pub parse_digits : ℕ → Str → Result ℕ
parse_digits acc [] = ok acc
parse_digits acc (c ∷ cs) =
    let rest = parse_digits (acc * 10 + (c - b'0')) cs in
    if is_digit c
    then (if ltb (acc * 10 + (c - b'0')) (2 ^ 64) then rest else err out_of_range)
    else err syntax

-- strconv.ParseUint(s, 10, 64)
unfoldable pub parse_uint : Str → Result ℕ
unfolding parse_digits
parse_uint [] = err syntax
parse_uint (c ∷ cs) = parse_digits 0 (c ∷ cs)

-- the number that comes with its error: the greatest where it is out of range, else 0
unfoldable pub value_of : Result ℕ → ℕ
value_of (ok n) = n
value_of (err out_of_range) = 2 ^ 64 - 1
value_of (err _) = 0

abbrev pub in_int : Bool → ℕ → Result ℤ
in_int negative n =
    if negative
    then (if leb n (2 ^ 63) then ok (neg (pos n)) else err out_of_range)
    else (if ltb n (2 ^ 63) then ok (pos n) else err out_of_range)

-- strconv.Atoi: a sign may stand first
unfoldable pub atoi : Str → Result ℤ
unfolding parse_uint
atoi [] = err syntax
atoi (c ∷ cs) =
    if c == b'-'
    then (do n ← parse_uint cs; in_int true n)
    else if c == b'+'
    then (do n ← parse_uint cs; in_int false n)
    else (do n ← parse_uint (c ∷ cs); in_int false n)
