-- ===== src/Sqlutil/Validation.antt =====
-- What `validate_identifier` accepts, and what each of its errors means, in terms of the runes that
-- the name encodes.
pub mod Errors
pub mod Simple
use mathlib.Core.List.{reverse, reverse-cons}
use dbsgomysql.Prelude.{
  All, Bool-cases, List, Option, Str, [], any, append-nil, arith, false, if◌then◌else◌, inl, inr,
  is_empty, last?, length, ltb, nat_beq, none, refl, some, sym, true, ℕ, ◌%◌, ◌++◌, ◌+◌, ◌<◌, ◌||◌,
  ◌↔◌, ◌∷◌, ◌≡◌, ◌≤◌, ◌⊎◌,
}
use dbsgomysql.Golang.Strings.{contains_byte}
use dbsgomysql.Golang.Utf8.{runes, valid_string, rune_count, decode_last_rev}
use dbsgomysql.Golang.Utf8.Encoding.{IsScalar, encode, encode_all}
use dbsgomysql.Golang.Utf8.Laws.{runes-encode_all, valid-encode_all, encode_all-runes}
use dbsgomysql.Golang.Utf8.Last.{decode_last_rev-ascii}
use dbsgomysql.Sqlutil.{
  IdentifierError, invalid_utf8, empty, too_long, nul_byte, supplementary, trailing_space, is_space,
  validate_identifier,
}

-- U+0009 to U+000D, and the space.
abbrev pub IsSpace : ℕ → Type 0
IsSpace r = ((9 ≤ r) × (r ≤ 13)) ⊎ (r ≡ 32)

abbrev pub EndsWithSpace : List ℕ → Type 0
EndsWithSpace rs = (r : ℕ) × (last? rs ≡ some r) × IsSpace r

-- A character of an identifier: in the basic multilingual plane, no surrogate and not U+0000.
abbrev pub IsIdentifierRune : ℕ → Type 0
IsIdentifierRune r = IsScalar r × (0 < r) × (r < 65536)

-- The names that MySQL accepts and preserves: 1 to 64 characters that do not end in a space.
pub record IsIdentifier (rs : List ℕ) : Type 0 where
  pub characters : All IsIdentifierRune rs
  pub nonempty : 0 < length rs
  pub short : length rs ≤ 64
  pub no_space : ¬ EndsWithSpace rs

-- U+0000 is the byte 0, and no other scalar has that byte.
contains_byte-append :
    (c : ℕ) (s t : Str) → contains_byte c (s ++ t) ≡ (contains_byte c s || contains_byte c t)
unfolding contains_byte
contains_byte-append c [] t = refl
contains_byte-append c (b ∷ s) t = ground (arith, contains_byte-append c s t)

contains_byte-encode : (r : ℕ) → contains_byte 0 (encode r) ≡ nat_beq r 0
unfolding contains_byte
contains_byte-encode r = ground arith

contains_byte-encode_all :
    (rs : List ℕ) → contains_byte 0 (encode_all rs) ≡ any (λ r. nat_beq r 0) rs
contains_byte-encode_all [] = unfold contains_byte in refl
contains_byte-encode_all (r ∷ rs) =
    rw (contains_byte-append, contains_byte-encode) (rw (contains_byte-encode_all rs))

last?-append {ℓ} :
    {A : Type ℓ} (xs ys : List A) {b : A} → last? ys ≡ some b → last? (xs ++ ys) ≡ some b
last?-append [] ys h = h
last?-append (x ∷ []) [] h = ground arith
last?-append (x ∷ []) (y ∷ ys) h = h
last?-append (x ∷ z ∷ xs) ys h = last?-append (z ∷ xs) ys h

-- How the last byte of a text and its last rune compare.
abbrev SameEnd : ℕ → ℕ → Type 0
SameEnd b r = (b < 128 → b ≡ r) × (128 ≤ b → 128 ≤ r)

last?-encode : (r : ℕ) → (b : ℕ) × (last? (encode r) ≡ some b) × SameEnd b r
last?-encode r = elim (Bool-cases (ltb r 128)) [
  | inl small ↦ (r, rw small, (λ _. refl, λ h. h))
  | inr wide ↦ (128 + r % 64, ground arith, ground arith)
]

last?-encode_all :
    (rs : List ℕ) (r : ℕ)
    → last? rs ≡ some r
    → (b : ℕ) × (last? (encode_all rs) ≡ some b) × SameEnd b r
last?-encode_all [] r h = absurd (ground arith)
last?-encode_all (q ∷ []) r h =
    let (b, found, same) = last?-encode q in (b, rw (append-nil (encode q)) found, ground arith)
last?-encode_all (p ∷ q ∷ rs) r h =
    let (b, found, same) = last?-encode_all (q ∷ rs) r h in
    (b, last?-append (encode p) (encode_all (q ∷ rs)) found, same)

reverse-last? : (s : Str) (b : ℕ) → last? s ≡ some b → (t : Str) × (reverse s ≡ b ∷ t)
reverse-last? [] b h = absurd (ground arith)
reverse-last? (c ∷ []) b h = ([], ground arith)
reverse-last? (c ∷ d ∷ s) b h =
    let (t, found) = reverse-last? (d ∷ s) b h in (t ++ c ∷ [], rw (reverse-cons c (d ∷ s), found))

-- The test on the last decoded rune is the test on the last rune of the text.
is_space-encode_all :
    (rs : List ℕ) (r : ℕ)
    → last? rs ≡ some r
    → is_space (decode_last_rev (reverse (encode_all rs))) ≡ is_space r
is_space-encode_all rs r h =
    let (b, found, same) = last?-encode_all rs r h in
    let (t, end) = reverse-last? (encode_all rs) b found in
    rw end (ground (arith, decode_last_rev-ascii b t))

is_space_iff : (r : ℕ) → (is_space r ≡ true) ↔ IsSpace r
is_space_iff r = ground arith

is_empty-encode_all : (r : ℕ) (rs : List ℕ) → is_empty (encode_all (r ∷ rs)) ≡ false
is_empty-encode_all r rs = ground arith

-- The two scans for a character that is not allowed, together.
scans-false :
    (rs : List ℕ)
    → All IsScalar rs
    → ((any (λ r. nat_beq r 0) rs ≡ false) × (any (λ r. ltb 65535 r) rs ≡ false))
      ↔ All IsIdentifierRune rs
scans-false [] h = (λ _. tt, λ _. (refl, refl))
scans-false (r ∷ rs) (h, hs) = ground (arith, scans-false rs hs)

EndsWithSpace-iff :
    (rs : List ℕ) (q : ℕ) → last? rs ≡ some q → (is_space q ≡ true) ↔ EndsWithSpace rs
EndsWithSpace-iff rs q e =
    (λ h. (q, e, (is_space_iff q).0 h), λ (r, f, k). (is_space_iff q).1 (ground arith))

last?-cons {ℓ} : {A : Type ℓ} (x : A) (xs : List A) → (y : A) × (last? (x ∷ xs) ≡ some y)
last?-cons x [] = (x, refl)
last?-cons x (y ∷ xs) = last?-cons y xs

-- The tests of `validate_identifier` behind the first, on the runes of the text.
verdict : List ℕ → ℕ → Option IdentifierError
verdict rs q =
    if any (λ r. nat_beq r 0) rs
    then some nul_byte
    else if any (λ r. ltb 65535 r) rs
    then some supplementary
    else if is_space q
    then some trailing_space
    else if ltb 64 (length rs)
    then some too_long
    else none

validate_identifier-verdict :
    (r : ℕ) (rs : List ℕ) (q : ℕ)
    → All IsScalar (r ∷ rs)
    → last? (r ∷ rs) ≡ some q
    → validate_identifier (encode_all (r ∷ rs)) ≡ verdict (r ∷ rs) q
unfolding validate_identifier verdict
validate_identifier-verdict r rs q h e = rw (
  valid-encode_all (r ∷ rs) h,
  is_empty-encode_all r rs,
  contains_byte-encode_all (r ∷ rs),
  runes-encode_all (r ∷ rs) h,
  is_space-encode_all (r ∷ rs) q e,
)

verdict-none_iff :
    (rs : List ℕ) (q : ℕ)
    → All IsScalar rs
    → 0 < length rs
    → last? rs ≡ some q
    → (verdict rs q ≡ none) ↔ IsIdentifier rs
unfolding verdict
verdict-none_iff rs q h l e = (
  λ v. record {
    characters = (scans-false rs h).0 (ground arith, ground arith);
    nonempty = l;
    short = ground arith;
    no_space = λ k. ground (arith, (EndsWithSpace-iff rs q e).1 k);
  },
  λ i. elim (Bool-cases (is_space q)) [
    | inl space ↦ absurd (i.no_space ((EndsWithSpace-iff rs q e).0 space))
    | inr other ↦ ground (arith, (scans-false rs h).1 i.characters)
  ],
)

All-IsScalar : (rs : List ℕ) → All IsIdentifierRune rs → All IsScalar rs
All-IsScalar [] h = tt
All-IsScalar (r ∷ rs) (h, hs) = (h.0, All-IsScalar rs hs)

encoded-none_iff :
    (rs : List ℕ) → All IsScalar rs → (validate_identifier (encode_all rs) ≡ none) ↔ IsIdentifier rs
encoded-none_iff [] h = (
  unfold validate_identifier valid_string in (λ v. absurd (ground arith)),
  λ i. absurd (omega arith),
)
encoded-none_iff (r ∷ rs) h =
    let (q, e) = last?-cons r rs in
    rw (validate_identifier-verdict r rs q h e) (verdict-none_iff (r ∷ rs) q h (omega arith) e)

-- `validate_identifier` returns nil exactly for the UTF-8 texts of 1 to 64 characters of the basic
-- multilingual plane, none of them U+0000, that do not end in U+0009 to U+000D or a space.
pub validate_identifier-eq-none_iff :
    (name : Str)
    → (validate_identifier name ≡ none) ↔ ((rs : List ℕ) × (name ≡ encode_all rs) × IsIdentifier rs)
validate_identifier-eq-none_iff name = (
  λ v. elim (Bool-cases (valid_string name)) [
    | inl valid ↦
        let (scalars, whole) = encode_all-runes name valid in
        (runes name, sym whole, (encoded-none_iff (runes name) scalars).0 (rw whole v))
    | inr bad ↦ absurd (unfold validate_identifier in ground arith)
  ],
  λ (rs, whole, i). rw whole ((encoded-none_iff rs (All-IsScalar rs i.characters)).1 i),
)
