-- ===== src/Validations/Spec/Fold.antt =====
-- pkg/validations/checks_pk.go and spec_diff.go: names that differ in ASCII letter case only.
use dbsgomysql.Prelude.{
  Bool, Bool-cases, Str, [], ap, arith, eq_iff, false, if◌then◌else◌, inl, inr, leb, length,
  list_eq, nat_eq, refl, true, ℕ, ◌&&◌, ◌+◌, ◌==◌, ◌↔◌, ◌∷◌, ◌≡◌,
}

-- c >= 'A' && c <= 'Z'
abbrev pub is_upper : ℕ → Bool
is_upper c = leb 65 c && leb c 90

-- c += 'a' - 'A', for a capital letter.
abbrev pub lower_byte : ℕ → ℕ
lower_byte c = if is_upper c then c + 32 else c

-- The bytes from the first capital letter on.
lower_rest : Str → Str
lower_rest [] = []
lower_rest (c ∷ s) = lower_byte c ∷ lower_rest s

unfoldable pub fold_key : Str → Str
unfolding lower_rest
fold_key [] = []
fold_key (c ∷ name) =
    let rest = fold_key name in if is_upper c then lower_rest (c ∷ name) else c ∷ rest

-- The comparison of the bytes of two names of one length.
fold_bytes_equal : Str → Str → Bool
fold_bytes_equal [] [] = true
fold_bytes_equal [] (r ∷ right) = true
fold_bytes_equal (l ∷ left) [] = true
fold_bytes_equal (l ∷ left) (r ∷ right) =
    let onward = fold_bytes_equal left right in
    if l == r then onward else if lower_byte l == lower_byte r then onward else false

unfoldable pub ascii_fold_equal : Str → Str → Bool
unfolding fold_bytes_equal
ascii_fold_equal left right =
    if length left == length right then fold_bytes_equal left right else false

lower_rest-fold_key : (s : Str) → fold_key s ≡ lower_rest s
unfolding fold_key lower_rest
lower_rest-fold_key [] = refl
lower_rest-fold_key (c ∷ s) = ground (arith, lower_rest-fold_key s)

fold_bytes_equal_iff :
    (left right : Str)
    → length left ≡ length right
    → (fold_bytes_equal left right ≡ true) ↔ (lower_rest left ≡ lower_rest right)
unfolding fold_bytes_equal lower_rest
fold_bytes_equal_iff [] [] e = (λ _. refl, λ _. refl)
fold_bytes_equal_iff [] (r ∷ right) e = ground (arith, e)
fold_bytes_equal_iff (l ∷ left) [] e = ground (arith, e)
fold_bytes_equal_iff (l ∷ left) (r ∷ right) e = ground (
  arith,
  eq_iff l r,
  eq_iff (lower_byte l) (lower_byte r),
  fold_bytes_equal_iff left right (omega (arith, e)),
)

length-lower_rest : (s : Str) → length (lower_rest s) ≡ length s
unfolding lower_rest
length-lower_rest [] = refl
length-lower_rest (c ∷ s) = ground (arith, length-lower_rest s)

unequal :
    (left right : Str)
    → (length left == length right) ≡ false
    → lower_rest left ≡ lower_rest right
    → ⊥
unequal left right e p = ground (
  arith,
  length-lower_rest left,
  length-lower_rest right,
  ap length p,
  eq_iff (length left) (length right),
)

-- Two names are equal under ASCII folding exactly if their folded keys are the same string.
pub ascii_fold_equal_iff :
    (left right : Str) → (ascii_fold_equal left right ≡ true) ↔ (fold_key left ≡ fold_key right)
unfolding ascii_fold_equal
ascii_fold_equal_iff left right =
    rw (lower_rest-fold_key left, lower_rest-fold_key right)
      (elim (Bool-cases (length left == length right)) [
        | inl e ↦
            ground
              (arith, fold_bytes_equal_iff left right ((eq_iff (length left) (length right)).0 e))
        | inr e ↦ ground (arith, unequal left right e)
      ])
