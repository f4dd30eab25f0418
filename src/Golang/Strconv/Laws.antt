-- ===== src/Golang/Strconv/Laws.antt =====
-- strconv: what is formatted is parsed back, and what is parsed is in range.
use dbsgomysql.Prelude.{
  Bool, Bool-cases, Str, [], ap, arith, false, inl, inr, leb, list_eq, ltb, nat_eq, refl, subst,
  suc, sym, true, zero, ℕ, ◌%◌, ◌*◌, ◌++◌, ◌+◌, ◌/◌, ◌<◌, ◌==◌, ◌∙◌, ◌∷◌, ◌≡◌,
}
use dbsgomysql.Golang.Sql.{fail≢ok, ok-injective, Result-cases, ◌>>=◌, Result, ok, fail}
use dbsgomysql.Golang.Strconv.{
  NumError, signed, ℤ, pos, negsuc, digits, itoa, format_int, parse_digits, parse_uint, parse_int,
  next_digit,
}

-- The range of int64.
abbrev pub IsInt64 : ℤ → Type 0
IsInt64 (pos n) = n < 9223372036854775808
IsInt64 (negsuc n) = n < 9223372036854775808

abbrev pub IsUint64 : ℕ → Type 0
IsUint64 n = n < 18446744073709551616

none_below : {n : ℕ} → ¬ (n < 0)
none_below l = omega (arith, l)

parse_digits-snoc :
    (m : ℕ) (s : Str) (c : ℕ)
    → parse_digits m (s ++ c ∷ []) ≡ (parse_digits m s >>= λ n. next_digit n c)
unfolding parse_digits
parse_digits-snoc m [] c = elim (Result-cases (next_digit m c)) [
  | inl (n, e) ↦ rw (e, parse_digits) refl
  | inr (x, e) ↦ rw (e, parse_digits) refl
]
parse_digits-snoc m (b ∷ s) c = elim (Result-cases (next_digit m b)) [
  | inl (n, e) ↦ rw (e, parse_digits) (parse_digits-snoc n s c)
  | inr (x, e) ↦ rw (e, parse_digits) refl
]

next_digit-ok : (n d : ℕ) → d < 10 → IsUint64 (n * 10 + d) → next_digit n (48 + d) ≡ ok (n * 10 + d)
unfolding next_digit
next_digit-ok n d l u = ground arith

one_digit : (n : ℕ) → n < 10 → parse_digits 0 ((48 + n) ∷ []) ≡ ok n
unfolding parse_digits next_digit
one_digit n l = ground (arith, l)

-- As much fuel as the number plus one is enough for its digits.
parse_digits-digits : (fuel n : ℕ) → n < fuel → IsUint64 n → parse_digits 0 (digits fuel n) ≡ ok n
unfolding digits parse_digits
parse_digits-digits zero n l u = elim (none_below l) [ ]
parse_digits-digits (suc fuel) n l u = elim (Bool-cases (ltb n 10)) [
  | inl small ↦ rw (small) (one_digit n (ground (arith, small)))
  | inr large ↦
      let front = parse_digits-digits fuel (n / 10) (ground (arith, large, l)) (omega (arith, u)) in
      let back : n / 10 * 10 + n % 10 ≡ n = omega arith in
      rw (large, parse_digits-snoc 0 (digits fuel (n / 10)) (48 + n % 10), front)
        (next_digit-ok (n / 10) (n % 10) (omega arith) (omega (arith, u)) ∙ ap ok back)
]

-- The first character of a number is a digit.
digits-first :
    (fuel n : ℕ) → n < fuel → (d : ℕ) × (rest : Str) × (digits fuel n ≡ (48 + d) ∷ rest) × (d < 10)
unfolding digits
digits-first zero n l = elim (none_below l) [ ]
digits-first (suc fuel) n l = elim (Bool-cases (ltb n 10)) [
  | inl small ↦ (n, [], rw (small) refl, ground (arith, small))
  | inr large ↦
      let (d, rest, same, bound) = digits-first fuel (n / 10) (ground (arith, large, l)) in
      (d, rest ++ (48 + n % 10) ∷ [], rw (large, same) refl, bound)
]

pub parse_uint-itoa : (n : ℕ) → IsUint64 n → parse_uint (itoa n) ≡ ok n
unfolding parse_uint itoa
parse_uint-itoa n u =
    let (d, rest, same, bound) = digits-first (suc n) n (omega arith) in
    ap parse_uint same
    ∙ ap (parse_digits 0) (sym same)
    ∙ parse_digits-digits (suc n) n (omega arith) u

parse_int-unsigned :
    (c : ℕ) (s : Str) → 47 < c → parse_int (c ∷ s) ≡ signed false (parse_uint (c ∷ s))
unfolding parse_int
parse_int-unsigned c s l = ground (arith, l)

parse_int-minus : (s : Str) → parse_int (45 ∷ s) ≡ signed true (parse_uint s)
unfolding parse_int
parse_int-minus s = refl

pub parse_int-format_int : (n : ℤ) → IsInt64 n → parse_int (format_int n) ≡ ok n
unfolding format_int
parse_int-format_int (pos n) b =
    let (d, rest, same, bound) = digits-first (suc n) n (omega arith) in
    ap parse_int same
    ∙ parse_int-unsigned (48 + d) rest (omega arith)
    ∙ ap (λ s. signed false (parse_uint s)) (sym same)
    ∙ ap (signed false) (parse_uint-itoa n (omega (arith, b)))
    ∙ ground (arith, b)
parse_int-format_int (negsuc n) b =
    parse_int-minus (itoa (n + 1))
    ∙ ap (signed true) (parse_uint-itoa (n + 1) (omega (arith, b)))
    ∙ ground (arith, b)

next_digit-IsUint64 : (n c m : ℕ) → next_digit n c ≡ ok m → IsUint64 m
unfolding next_digit
next_digit-IsUint64 n c m e = ground (arith, e)

parse_digits-IsUint64 : (m n : ℕ) (s : Str) → IsUint64 m → parse_digits m s ≡ ok n → IsUint64 n
unfolding parse_digits
parse_digits-IsUint64 m n [] u e = subst IsUint64 (ok-injective e) u
parse_digits-IsUint64 m n (c ∷ s) u e = elim (Result-cases (next_digit m c)) [
  | inl (k, f) ↦
      parse_digits-IsUint64 k n s (next_digit-IsUint64 m c k f) (rw (f, parse_digits) at e)
  | inr (x, f) ↦ elim (fail≢ok (rw (f, parse_digits) at e)) [ ]
]

pub parse_uint-IsUint64 : (n : ℕ) (s : Str) → parse_uint s ≡ ok n → IsUint64 n
unfolding parse_uint
parse_uint-IsUint64 n [] e = elim (fail≢ok e) [ ]
parse_uint-IsUint64 n (c ∷ s) e = parse_digits-IsUint64 0 n (c ∷ s) (omega arith) e

signed-IsInt64 : (b : Bool) (r : Result NumError ℕ) (z : ℤ) → signed b r ≡ ok z → IsInt64 z
signed-IsInt64 b (fail x) z e = elim (fail≢ok e) [ ]
signed-IsInt64 true (ok zero) z e = subst IsInt64 (ok-injective e) (omega arith)
signed-IsInt64 true (ok (suc n)) z e = elim (Bool-cases (ltb 9223372036854775808 (suc n))) [
  | inl over ↦ elim (fail≢ok (rw (over) at e)) [ ]
  | inr within ↦ subst IsInt64 (ok-injective (rw (within) at e)) (ground (arith, within))
]
signed-IsInt64 false (ok n) z e = elim (Bool-cases (leb 9223372036854775808 n)) [
  | inl over ↦ elim (fail≢ok (rw (over) at e)) [ ]
  | inr within ↦ subst IsInt64 (ok-injective (rw (within) at e)) (ground (arith, within))
]

pub parse_int-IsInt64 : (z : ℤ) (s : Str) → parse_int s ≡ ok z → IsInt64 z
unfolding parse_int
parse_int-IsInt64 z [] e = elim (fail≢ok e) [ ]
parse_int-IsInt64 z (c ∷ s) e = elim (Bool-cases (c == 43)) [
  | inl plus ↦ signed-IsInt64 false (parse_uint s) z (rw (plus) at e)
  | inr other ↦ elim (Bool-cases (c == 45)) [
    | inl minus ↦ signed-IsInt64 true (parse_uint s) z (rw (other, minus) at e)
    | inr digit ↦ signed-IsInt64 false (parse_uint (c ∷ s)) z (rw (other, digit) at e)
  ]
]
