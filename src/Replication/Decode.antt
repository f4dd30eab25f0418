-- ===== src/Replication/Decode.antt =====
-- pkg/replication/decode.go: the values of the driver. A float64 is what the code asks of it: NaN or
-- infinite, with a fraction, or an integer. An `int` has 32 or 64 bits, as the platform says.
pub mod Laws
use dbsgomysql.Prelude.{
  Bool, Option, Str, codes, false, if◌then◌else◌, leb, list_eq, ltb, nat_eq, none, not, some, true,
  ℕ, ◌%◌, ◌*◌, ◌-◌, ◌==◌, ◌||◌,
}
use dbsgomysql.Golang.Sql.{◌>>=◌, Result, ok, fail}
use dbsgomysql.Golang.Strconv.{ℤ, pos, negsuc, is_negative, NumError, parse_int, parse_uint}

pub data Float64 : Type 0 where
  not_finite : Float64
  fractional : ℤ → Float64
  integral : ℤ → Float64

-- A value of type `any`, by its dynamic type.
pub data DriverValue : Type 0 where
  null : DriverValue
  text : Str → DriverValue
  bytes : Str → DriverValue
  int64 : ℤ → DriverValue
  uint64 : ℕ → DriverValue
  float64 : Float64 → DriverValue
  boolean : Bool → DriverValue
  other_type : Str → DriverValue

pub data DecodeError : Type 0 where
  err_unexpected_null : DecodeError
  err_value_out_of_range : DecodeError
  err_unrecognized_value : DecodeError
  err_malformed_signed : Str → NumError → DecodeError
  err_malformed_unsigned : Str → NumError → DecodeError
  err_unexpected_type : DriverValue → DecodeError

unfoldable pub decode_string : DriverValue → Result DecodeError Str
decode_string (text s) = ok s
decode_string (bytes s) = ok s
decode_string null = fail err_unexpected_null
decode_string value = fail (err_unexpected_type value)

unfoldable pub decode_parsed_int : Str → Result DecodeError ℤ
unfolding parse_int
decode_parsed_int s = elim (parse_int s) [ ok n ↦ ok n | fail e ↦ fail (err_malformed_signed s e) ]

unfoldable pub decode_parsed_uint : Str → Result DecodeError ℕ
unfolding parse_uint
decode_parsed_uint s = elim (parse_uint s) [
  | ok n ↦ ok n
  | fail e ↦ fail (err_malformed_unsigned s e)
]

unfoldable pub float64_to_int64 : Float64 → Result DecodeError ℤ
float64_to_int64 (integral (pos n)) =
    if leb 9223372036854775808 n then fail err_value_out_of_range else ok (pos n)
float64_to_int64 (integral (negsuc n)) =
    if leb 9223372036854775808 n then fail err_value_out_of_range else ok (negsuc n)
float64_to_int64 _ = fail err_unrecognized_value

unfoldable pub float64_to_uint64 : Float64 → Result DecodeError ℕ
float64_to_uint64 (integral (negsuc n)) = fail err_value_out_of_range
float64_to_uint64 (integral (pos n)) =
    if leb 18446744073709551616 n then fail err_value_out_of_range else ok n
float64_to_uint64 _ = fail err_unrecognized_value

unfoldable pub decode_int64 : DriverValue → Result DecodeError ℤ
unfolding float64_to_int64 decode_parsed_int
decode_int64 (int64 n) = ok n
decode_int64 (uint64 n) =
    if ltb 9223372036854775807 n then fail err_value_out_of_range else ok (pos n)
decode_int64 (float64 x) = float64_to_int64 x
decode_int64 (bytes s) = decode_parsed_int s
decode_int64 (text s) = decode_parsed_int s
decode_int64 null = fail err_unexpected_null
decode_int64 value = fail (err_unexpected_type value)

pub data Platform : Type 0 where
  bits_32 : Platform
  bits_64 : Platform

-- 2^(w - 1), for an int of w bits
abbrev pub int_limit : Platform → ℕ
int_limit bits_32 = 2147483648
int_limit bits_64 = 9223372036854775808

-- int(decoded): the lowest bits, in two's complement.
unfoldable pub to_int : Platform → ℤ → ℤ
to_int w (pos n) =
    if ltb (n % (2 * int_limit w)) (int_limit w)
    then pos (n % (2 * int_limit w))
    else negsuc (2 * int_limit w - 1 - n % (2 * int_limit w))
to_int w (negsuc n) =
    if ltb (n % (2 * int_limit w)) (int_limit w)
    then negsuc (n % (2 * int_limit w))
    else pos (2 * int_limit w - 1 - n % (2 * int_limit w))

abbrev pub int_beq : ℤ → ℤ → Bool
int_beq (pos m) (pos n) = m == n
int_beq (negsuc m) (negsuc n) = m == n
int_beq _ _ = false

unfoldable pub decode_int : Platform → DriverValue → Result DecodeError ℤ
unfolding decode_int64 to_int
decode_int w value = do
  decoded ← decode_int64 value
  if not (int_beq (to_int w decoded) decoded)
      then fail err_value_out_of_range
      else ok (to_int w decoded)

unfoldable pub decode_uint64 : DriverValue → Result DecodeError ℕ
unfolding float64_to_uint64 decode_parsed_uint
decode_uint64 (uint64 n) = ok n
decode_uint64 (int64 (pos n)) = ok n
decode_uint64 (int64 (negsuc n)) = fail err_value_out_of_range
decode_uint64 (float64 x) = float64_to_uint64 x
decode_uint64 (bytes s) = decode_parsed_uint s
decode_uint64 (text s) = decode_parsed_uint s
decode_uint64 null = fail err_unexpected_null
decode_uint64 value = fail (err_unexpected_type value)

unfoldable pub decode_uint32 : DriverValue → Result DecodeError ℕ
unfolding decode_uint64
decode_uint32 value = do
  decoded ← decode_uint64 value
  if ltb 4294967295 decoded then fail err_value_out_of_range else ok decoded

unfoldable pub decode_uint16 : DriverValue → Result DecodeError ℕ
unfolding decode_uint64
decode_uint16 value = do
  decoded ← decode_uint64 value
  if ltb 65535 decoded then fail err_value_out_of_range else ok decoded

-- The switch on 0 and 1.
abbrev pub zero_or_one : ℕ → Result DecodeError Bool
zero_or_one n = if n == 0 then ok false else if n == 1 then ok true else fail err_unrecognized_value

unfoldable pub parse_bool : Str → Result DecodeError Bool
parse_bool s =
    if s == codes "0" || s == codes "OFF"
    then ok false
    else if s == codes "1" || s == codes "ON"
    then ok true
    else fail err_unrecognized_value

unfoldable pub decode_bool : DriverValue → Result DecodeError Bool
unfolding parse_bool
decode_bool (boolean b) = ok b
decode_bool (int64 (pos n)) = zero_or_one n
decode_bool (int64 (negsuc n)) = fail err_unrecognized_value
decode_bool (uint64 n) = zero_or_one n
decode_bool (bytes s) = parse_bool s
decode_bool (text s) = parse_bool s
decode_bool null = fail err_unexpected_null
decode_bool value = fail (err_unexpected_type value)

-- sql.NullInt64: `none` is an invalid one.
unfoldable pub decode_null_int64 : DriverValue → Result DecodeError (Option ℤ)
unfolding decode_int64
decode_null_int64 null = ok none
decode_null_int64 value = decode_int64 value >>= λ n. ok (some n)
