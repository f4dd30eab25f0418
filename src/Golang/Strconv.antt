-- ===== src/Golang/Strconv.antt =====
-- strconv: the conversions of integers in base 10 that the modelled code calls, and Go's 64-bit
-- integers. A signed integer has its own type; an unsigned one is a natural number.
pub mod Laws
use dbsgomysql.Prelude.{
  Bool, Str, [], false, if◌then◌else◌, leb, list_eq, ltb, nat_eq, not, suc, true, zero, ℕ, ◌%◌,
  ◌&&◌, ◌*◌, ◌++◌, ◌+◌, ◌-◌, ◌/◌, ◌==◌, ◌∷◌,
}
use dbsgomysql.Golang.Sql.{Result, ok, fail}

pub data ℤ : Type 0 where
  pos : ℕ → ℤ
  negsuc : ℕ → ℤ

abbrev pub negate : ℕ → ℤ
negate zero = pos 0
negate (suc n) = negsuc n

-- m > n
abbrev pub int_above : ℤ → ℤ → Bool
int_above (pos m) (pos n) = ltb n m
int_above (pos m) (negsuc n) = true
int_above (negsuc m) (pos n) = false
int_above (negsuc m) (negsuc n) = ltb m n

abbrev pub is_negative : ℤ → Bool
is_negative (pos n) = false
is_negative (negsuc n) = true

-- The digits of `n`, on fuel.
unfoldable pub digits : ℕ → ℕ → Str
digits zero n = []
digits (suc fuel) n =
    let front = digits fuel (n / 10) in
    if ltb n 10 then (48 + n) ∷ [] else front ++ (48 + n % 10) ∷ []

-- strconv.Itoa, for a number that is not negative.
unfoldable pub itoa : ℕ → Str
unfolding digits
itoa n = digits (suc n) n

-- strconv.FormatInt in base 10
unfoldable pub format_int : ℤ → Str
unfolding itoa
format_int (pos n) = itoa n
format_int (negsuc n) = 45 ∷ itoa (n + 1)

-- The two reasons of a NumError.
pub data NumError : Type 0 where
  err_syntax : NumError
  err_range : NumError

abbrev pub is_digit : ℕ → Bool
is_digit c = leb 48 c && leb c 57

-- One round of the loop of ParseUint: the next value of `n`.
unfoldable pub next_digit : ℕ → ℕ → Result NumError ℕ
next_digit n c =
    if not (is_digit c)
    then fail err_syntax
    else if leb 1844674407370955162 n
    then fail err_range
    else if ltb 18446744073709551615 (n * 10 + (c - 48))
    then fail err_range
    else ok (n * 10 + (c - 48))

unfoldable pub parse_digits : ℕ → Str → Result NumError ℕ
unfolding next_digit
parse_digits n [] = ok n
parse_digits n (c ∷ s) = elim (next_digit n c) [ ok m ↦ parse_digits m s | fail e ↦ fail e ]

-- strconv.ParseUint(s, 10, 64)
unfoldable pub parse_uint : Str → Result NumError ℕ
unfolding parse_digits
parse_uint [] = fail err_syntax
parse_uint (c ∷ s) = parse_digits 0 (c ∷ s)

-- The value behind a sign, within the limits of int64.
abbrev pub signed : Bool → Result NumError ℕ → Result NumError ℤ
signed negative (fail e) = fail e
signed true (ok n) = if ltb 9223372036854775808 n then fail err_range else ok (negate n)
signed false (ok n) = if leb 9223372036854775808 n then fail err_range else ok (pos n)

-- strconv.ParseInt(s, 10, 64)
unfoldable pub parse_int : Str → Result NumError ℤ
unfolding parse_uint
parse_int [] = fail err_syntax
parse_int (c ∷ s) =
    if c == 43
    then signed false (parse_uint s)
    else if c == 45
    then signed true (parse_uint s)
    else signed false (parse_uint (c ∷ s))
