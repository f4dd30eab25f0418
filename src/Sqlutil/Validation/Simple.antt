-- ===== src/Sqlutil/Validation/Simple.antt =====
-- `is_simple_identifier` against `validate_identifier`.
use dbsgomysql.Prelude.{
  All, List, Str, [], all, arith, last?, length, nat_eq, none, refl, some, subst, sym, true, ℕ, ◌<◌,
  ◌∷◌, ◌≡◌, ◌≤◌,
}
use dbsgomysql.Golang.Utf8.Encoding.{encode_all}
use dbsgomysql.Sqlutil.{is_simple_identifier, is_simple_byte, validate_identifier}
use dbsgomysql.Sqlutil.Validation.{IsIdentifierRune, validate_identifier-eq-none_iff}

-- A letter, a digit or the underscore is one byte of UTF-8.
simple_bytes :
    (name : Str)
    → all is_simple_byte name ≡ true
    → All IsIdentifierRune name × All (λ c. 32 < c) name × (encode_all name ≡ name)
simple_bytes [] h = (tt, tt, refl)
simple_bytes (c ∷ name) h = ground (arith, simple_bytes name)

last?-All : (P : ℕ → Type 0) (xs : List ℕ) (x : ℕ) → All P xs → last? xs ≡ some x → P x
last?-All P [] x h e = absurd (ground arith)
last?-All P (y ∷ []) x (h, _) e = subst P (ground arith) h
last?-All P (y ∷ z ∷ xs) x (_, h) e = last?-All P (z ∷ xs) x h e

-- A simple identifier of at most 64 bytes is valid.
pub is_simple_identifier-validate_identifier :
    (name : Str)
    → is_simple_identifier name ≡ true
    → length name ≤ 64
    → validate_identifier name ≡ none
unfolding is_simple_identifier
is_simple_identifier-validate_identifier [] h l = absurd (ground arith)
is_simple_identifier-validate_identifier (c ∷ name) h l =
    let (runes, large, same) = simple_bytes (c ∷ name) h in
    (validate_identifier-eq-none_iff (c ∷ name)).1 (
      c ∷ name,
      sym same,
      record {
        characters = runes;
        nonempty = omega arith;
        short = l;
        no_space = λ (r, e, space). ground (arith, last?-All (λ x. 32 < x) (c ∷ name) r large e);
      },
    )
