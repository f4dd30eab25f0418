-- ===== src/Replication/Decode/Laws.antt =====
-- pkg/replication/decode.go: every form of a number decodes to that number, and what decodes fits.
use dbsgomysql.Prelude.{
  Bool-cases, ap, arith, eq_iff, if◌then◌else◌, inl, inr, list_eq, ltb, nat_eq, refl, subst, sym,
  true, ℕ, ◌%◌, ◌*◌, ◌-◌, ◌<◌, ◌↔◌, ◌∙◌, ◌≡◌,
}
use dbsgomysql.Golang.Sql.{ok, ok-injective, fail≢ok, Result-cases}
use dbsgomysql.Golang.Strconv.{ℤ, pos, negsuc, format_int}
use dbsgomysql.Golang.Strconv.Laws.{IsInt64, IsUint64, parse_int-format_int, parse_uint-itoa}
use dbsgomysql.Replication.Decode.{
  DriverValue, null, text, bytes, int64, uint64, float64, boolean, other_type, integral, Platform,
  bits_32, bits_64, int_limit, to_int, int_beq, decode_int64, decode_int, decode_uint64,
  decode_uint32, decode_uint16, float64_to_int64, float64_to_uint64, decode_parsed_int,
  decode_parsed_uint,
}

-- The value is a form in which a driver may deliver the integer `z`.
abbrev pub Delivers : ℤ → DriverValue → Type 0
Delivers z (int64 y) = y ≡ z
Delivers z (uint64 n) = pos n ≡ z
Delivers z (float64 x) = x ≡ integral z
Delivers z (text s) = s ≡ format_int z
Delivers z (bytes s) = s ≡ format_int z
Delivers z _ = ⊥

decode_uint64-int64 : (n : ℕ) → n < 9223372036854775808 → decode_int64 (uint64 n) ≡ ok (pos n)
unfolding decode_int64
decode_uint64-int64 n b = ground (arith, b)

float64_to_int64-integral : (z : ℤ) → IsInt64 z → float64_to_int64 (integral z) ≡ ok z
unfolding float64_to_int64
float64_to_int64-integral (pos n) b = ground (arith, b)
float64_to_int64-integral (negsuc n) b = ground (arith, b)

float64_to_uint64-integral : (n : ℕ) → IsUint64 n → float64_to_uint64 (integral (pos n)) ≡ ok n
unfolding float64_to_uint64
float64_to_uint64-integral n b = ground (arith, b)

decode_parsed_int-format_int : (z : ℤ) → IsInt64 z → decode_parsed_int (format_int z) ≡ ok z
unfolding decode_parsed_int
decode_parsed_int-format_int z b = rw (parse_int-format_int z b, decode_parsed_int) refl

decode_parsed_uint-format_int :
    (n : ℕ) → IsUint64 n → decode_parsed_uint (format_int (pos n)) ≡ ok n
unfolding decode_parsed_uint format_int
decode_parsed_uint-format_int n b = rw (parse_uint-itoa n b, decode_parsed_uint) refl

-- Each form of an integer in the range of int64 decodes to that integer.
pub decode_int64-Delivers :
    (z : ℤ) (v : DriverValue) → Delivers z v → IsInt64 z → decode_int64 v ≡ ok z
unfolding decode_int64
decode_int64-Delivers z (int64 y) d b = ap ok d
decode_int64-Delivers z (uint64 n) d b = decode_uint64-int64 n (subst IsInt64 (sym d) b) ∙ ap ok d
decode_int64-Delivers z (float64 x) d b = ap float64_to_int64 d ∙ float64_to_int64-integral z b
decode_int64-Delivers z (text s) d b = ap decode_parsed_int d ∙ decode_parsed_int-format_int z b
decode_int64-Delivers z (bytes s) d b = ap decode_parsed_int d ∙ decode_parsed_int-format_int z b
decode_int64-Delivers z null d b = elim d [ ]
decode_int64-Delivers z (boolean x) d b = elim d [ ]
decode_int64-Delivers z (other_type t) d b = elim d [ ]

-- Each form of an integer in the range of uint64 decodes to that integer.
pub decode_uint64-Delivers :
    (n : ℕ) (v : DriverValue) → Delivers (pos n) v → IsUint64 n → decode_uint64 v ≡ ok n
unfolding decode_uint64
decode_uint64-Delivers n (int64 y) d b = ap (λ z. decode_uint64 (int64 z)) d
decode_uint64-Delivers n (uint64 m) d b = ap (λ z. decode_uint64 (int64 z)) d
decode_uint64-Delivers n (float64 x) d b = ap float64_to_uint64 d ∙ float64_to_uint64-integral n b
decode_uint64-Delivers n (text s) d b = ap decode_parsed_uint d ∙ decode_parsed_uint-format_int n b
decode_uint64-Delivers n (bytes s) d b = ap decode_parsed_uint d ∙ decode_parsed_uint-format_int n b
decode_uint64-Delivers n null d b = elim d [ ]
decode_uint64-Delivers n (boolean x) d b = elim d [ ]
decode_uint64-Delivers n (other_type t) d b = elim d [ ]

pub decode_uint32-Delivers :
    (n : ℕ) (v : DriverValue) → Delivers (pos n) v → n < 4294967296 → decode_uint32 v ≡ ok n
unfolding decode_uint32
decode_uint32-Delivers n v d b =
    rw (decode_uint64-Delivers n v d (omega (arith, b))) (ground (arith, b))

pub decode_uint16-Delivers :
    (n : ℕ) (v : DriverValue) → Delivers (pos n) v → n < 65536 → decode_uint16 v ≡ ok n
unfolding decode_uint16
decode_uint16-Delivers n v d b =
    rw (decode_uint64-Delivers n v d (omega (arith, b))) (ground (arith, b))

-- The range of int on the platform.
abbrev pub IsInt : Platform → ℤ → Type 0
IsInt w (pos n) = n < int_limit w
IsInt w (negsuc n) = n < int_limit w

to_int-IsInt : (w : Platform) (z : ℤ) → IsInt w z → to_int w z ≡ z
unfolding to_int
to_int-IsInt bits_32 (pos n) b = ground (arith, b)
to_int-IsInt bits_32 (negsuc n) b = ground (arith, b)
to_int-IsInt bits_64 (pos n) b = ground (arith, b)
to_int-IsInt bits_64 (negsuc n) b = ground (arith, b)

signs-IsInt :
    (w : Platform) (m : ℕ)
    → m < 2 * int_limit w
    → (IsInt w (if ltb m (int_limit w) then pos m else negsuc (2 * int_limit w - 1 - m)))
      × (IsInt w (if ltb m (int_limit w) then negsuc m else pos (2 * int_limit w - 1 - m)))
signs-IsInt w m b = elim (Bool-cases (ltb m (int_limit w))) [
  | inl low ↦ rw (low) (ground (arith, low), ground (arith, low))
  | inr high ↦ rw (high) (ground (arith, high, b), ground (arith, high, b))
]

remainder : (w : Platform) (n : ℕ) → n % (2 * int_limit w) < 2 * int_limit w
remainder bits_32 n = omega arith
remainder bits_64 n = omega arith

IsInt-to_int : (w : Platform) (z : ℤ) → IsInt w (to_int w z)
unfolding to_int
IsInt-to_int w (pos n) = (signs-IsInt w (n % (2 * int_limit w)) (remainder w n)).0
IsInt-to_int w (negsuc n) = (signs-IsInt w (n % (2 * int_limit w)) (remainder w n)).1

int_beq_iff : (y z : ℤ) → (int_beq y z ≡ true) ↔ (y ≡ z)
int_beq_iff (pos m) (pos n) = ground (arith, eq_iff m n)
int_beq_iff (pos m) (negsuc n) = ground arith
int_beq_iff (negsuc m) (pos n) = ground arith
int_beq_iff (negsuc m) (negsuc n) = ground (arith, eq_iff m n)

decode_int-ok :
    (w : Platform) (v : DriverValue) (z : ℤ)
    → decode_int w v ≡ ok z
    → (decode_int64 v ≡ ok z) × IsInt w z
unfolding decode_int
decode_int-ok w v z e = elim (Result-cases (decode_int64 v)) [
  | inr (x, h) ↦ elim (fail≢ok (rw (h) at e)) [ ]
  | inl (d, h) ↦ elim (Bool-cases (int_beq (to_int w d) d)) [
    | inr differs ↦ elim (fail≢ok (rw (h, differs) at e)) [ ]
    | inl same ↦
        let value : to_int w d ≡ z = ok-injective (rw (h, same) at e) in
        let kept : to_int w d ≡ d = (int_beq_iff (to_int w d) d).0 same in
        (h ∙ ap ok (sym kept ∙ value), subst (IsInt w) value (IsInt-to_int w d))
  ]
]

-- An integer column decodes to an int if and only if it decodes to that int64 and the int64 is in
-- the range of the platform's int: the conversion and the test of its round trip find exactly the
-- numbers that fit.
pub decode_int_iff :
    (w : Platform) (v : DriverValue) (z : ℤ)
    → (decode_int w v ≡ ok z) ↔ ((decode_int64 v ≡ ok z) × IsInt w z)
unfolding decode_int
decode_int_iff w v z = (
  decode_int-ok w v z,
  λ (h, b). let kept = to_int-IsInt w z b in rw (h, kept, (int_beq_iff z z).1 refl) refl,
)
