-- ===== src/Clients/Number.antt =====
-- `strconv.Itoa` and `strconv.Atoi` of the Go standard library, and the conversions between `int`
-- and `uint64`, as the bridge clients use them. A text is a list of code points.
pub mod Laws
use platform_relayer.Common.{
  ℕ, suc, zero, ◌≡◌, refl, ◌+◌, ◌-◌, ◌*◌, ◌/◌, ◌%◌, Bool, ◌&&◌, List, [], ◌∷◌, ◌++◌, Option, none,
  some, ltb, leb, ◌==◌, if◌then◌else◌,
}
use platform_relayer.Db.{ℤ, pos, negsuc}

-- `int(n)` of a `uint64`
unfoldable pub to_int : ℕ → ℤ
to_int n = if ltb n 9223372036854775808 then pos n else negsuc (18446744073709551615 - n)

-- `uint64(i)` of an `int`
unfoldable pub to_uint64 : ℤ → ℕ
to_uint64 (pos n) = n
to_uint64 (negsuc n) = 18446744073709551615 - n

-- Twenty rounds are enough: 2 ^ 64 is below 10 ^ 20.
unfoldable pub digits : ℕ → ℕ → List ℕ
digits zero n = []
digits (suc rounds) n =
    let rest = digits rounds (n / 10) in
    if ltb n 10 then (b'0' + n) ∷ [] else rest ++ (b'0' + n % 10) ∷ []

unfoldable pub itoa : ℤ → List ℕ
unfolding digits
itoa (pos n) = digits 20 n
itoa (negsuc n) = b'-' ∷ digits 20 (n + 1)

abbrev pub is_digit : ℕ → Bool
is_digit c = leb b'0' c && leb c b'9'

unfoldable pub scan : List ℕ → ℕ → Option ℕ
scan [] n = some n
scan (c ∷ s) n = let rest = scan s (n * 10 + (c - b'0')) in if is_digit c then rest else none

abbrev pub in_range : (ℕ → Option ℤ) → Option ℕ → Option ℤ
in_range f none = none
in_range f (some n) = f n

abbrev pub positive : ℕ → Option ℤ
positive n = if ltb n 9223372036854775808 then some (pos n) else none

abbrev pub negative : ℕ → Option ℤ
negative n =
    if n == 0
    then some (pos 0)
    else if leb n 9223372036854775808
    then some (negsuc (n - 1))
    else none

unfoldable pub unsigned : List ℕ → Option ℕ
unfolding scan
unsigned [] = none
unsigned (c ∷ s) = scan (c ∷ s) 0

-- A number that does not fit an `int` is an error, as a text that is no number is.
unfoldable pub atoi : List ℕ → Option ℤ
unfolding unsigned
atoi [] = none
atoi (c ∷ s) =
    if c == b'-'
    then in_range negative (unsigned s)
    else if c == b'+'
    then in_range positive (unsigned s)
    else in_range positive (unsigned (c ∷ s))
