-- ===== src/Config/Numbers.antt =====
-- `strconv.Atoi` and `strconv.ParseInt(s, 10, 64)`, on a machine with 64-bit integers. The text of
-- an error is that of its cause.
use echo_backend.Base.{
  ℕ, zero, suc, ◌+◌, ◌-◌, ◌*◌, ◌^◌, Bool, ◌&&◌, [], ◌∷◌, ◌==◌, ltb, leb, if◌then◌else◌,
}
use echo_backend.Base.Int.{ℤ, pos, negsuc}
use echo_backend.Text.{Text, codes}
use echo_backend.Errors.{failure, Result, ok, err}

abbrev pub is_digit : ℕ → Bool
is_digit c = leb b'0' c && leb c b'9'

-- What `strconv.ParseUint` makes of a text: a number of at most 64 bits, or one of its two errors.
pub data Spelled : Type 0 where
  number : ℕ → Spelled
  bad_syntax too_large : Spelled

-- The number that decimal digits spell after those read before. A number that passes 64 bits ends
-- the reading, whatever follows.
unfoldable pub digits : ℕ → Text → Spelled
digits n [] = number n
digits n (c ∷ s) =
    let m = n * 10 + (c - b'0') in
    let rest = digits m s in
    if is_digit c then if ltb m (2 ^ 64) then rest else too_large else bad_syntax

-- At least one digit.
unfoldable pub unsigned : Text → Spelled
unfolding digits
unsigned [] = bad_syntax
unsigned (c ∷ s) = digits 0 (c ∷ s)

abbrev pub in_range : Spelled → Result ℤ
in_range bad_syntax = err (failure (codes "invalid syntax"))
in_range too_large = err (failure (codes "value out of range"))
in_range (number n) =
    if ltb n (2 ^ 63) then ok (pos n) else err (failure (codes "value out of range"))

abbrev pub negated : Spelled → Result ℤ
negated bad_syntax = err (failure (codes "invalid syntax"))
negated too_large = err (failure (codes "value out of range"))
negated (number zero) = ok (pos 0)
negated (number (suc n)) =
    if ltb n (2 ^ 63) then ok (negsuc n) else err (failure (codes "value out of range"))

unfoldable pub parse_int64 : Text → Result ℤ
unfolding unsigned
parse_int64 [] = in_range bad_syntax
parse_int64 (c ∷ s) =
    if c == b'-'
    then negated (unsigned s)
    else if c == b'+'
    then in_range (unsigned s)
    else in_range (unsigned (c ∷ s))

abbrev pub atoi : Text → Result ℤ
atoi = parse_int64
