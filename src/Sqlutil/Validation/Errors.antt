-- ===== src/Sqlutil/Validation/Errors.antt =====
-- What each error of `validate_identifier` means.
use dbsgomysql.Prelude.{
  All, Any, Bool-cases, List, Str, [], any, arith, false, inl, inr, last?, length, ltb, nat_beq,
  refl, some, subst, sym, true, ℕ, ◌<◌, ◌∙◌, ◌∷◌, ◌≡◌, ◌≢◌, ◌≤◌,
}
use dbsgomysql.Golang.Utf8.{runes, valid_string}
use dbsgomysql.Golang.Utf8.Encoding.{IsScalar, encode_all}
use dbsgomysql.Golang.Utf8.Laws.{valid-encode_all, encode_all-runes}
use dbsgomysql.Sqlutil.{
  IdentifierError, invalid_utf8, empty, too_long, nul_byte, supplementary, trailing_space,
  validate_identifier,
}
use dbsgomysql.Sqlutil.Validation.{
  IsIdentifierRune, EndsWithSpace, EndsWithSpace-iff, scans-false, last?-cons, verdict,
  validate_identifier-verdict,
}

-- What each error says of a name. Apart from the first two, it is the first of the tests that
-- fails for the runes of the name.
abbrev pub Explains : IdentifierError → Str → Type 0
Explains invalid_utf8 name = (rs : List ℕ) → All IsScalar rs → name ≢ encode_all rs
Explains empty name = name ≡ []
Explains nul_byte name =
    (rs : List ℕ) × (name ≡ encode_all rs) × All IsScalar rs × Any (λ r. r ≡ 0) rs
Explains supplementary name =
    (rs : List ℕ) × (name ≡ encode_all rs)
    × All (λ r. IsScalar r × (0 < r)) rs
    × Any (λ r. 65536 ≤ r) rs
Explains trailing_space name =
    (rs : List ℕ) × (name ≡ encode_all rs) × All IsIdentifierRune rs × EndsWithSpace rs
Explains too_long name =
    (rs : List ℕ) × (name ≡ encode_all rs)
    × All IsIdentifierRune rs
    × (¬ EndsWithSpace rs)
    × (64 < length rs)

zeros-Any : (rs : List ℕ) → any (λ r. nat_beq r 0) rs ≡ true → Any (λ r. r ≡ 0) rs
zeros-Any [] h = absurd (ground arith)
zeros-Any (r ∷ rs) h = ground (arith, zeros-Any rs)

large-Any : (rs : List ℕ) → any (λ r. ltb 65535 r) rs ≡ true → Any (λ r. 65536 ≤ r) rs
large-Any [] h = absurd (ground arith)
large-Any (r ∷ rs) h = ground (arith, large-Any rs)

nonzero-All :
    (rs : List ℕ)
    → All IsScalar rs
    → any (λ r. nat_beq r 0) rs ≡ false
    → All (λ r. IsScalar r × (0 < r)) rs
nonzero-All [] h e = tt
nonzero-All (r ∷ rs) (h, hs) e = ground (arith, nonzero-All rs hs)

verdict-Explains :
    (rs : List ℕ) (q : ℕ) (e : IdentifierError)
    → All IsScalar rs
    → last? rs ≡ some q
    → verdict rs q ≡ some e
    → Explains e (encode_all rs)
unfolding verdict
verdict-Explains rs q invalid_utf8 h l v = absurd (ground arith)
verdict-Explains rs q empty h l v = absurd (ground arith)
verdict-Explains rs q nul_byte h l v = (rs, refl, h, zeros-Any rs (ground arith))
verdict-Explains rs q supplementary h l v =
    (rs, refl, nonzero-All rs h (ground arith), large-Any rs (ground arith))
verdict-Explains rs q trailing_space h l v = (
  rs,
  refl,
  (scans-false rs h).0 (ground arith, ground arith),
  (EndsWithSpace-iff rs q l).0 (ground arith),
)
verdict-Explains rs q too_long h l v = (
  rs,
  refl,
  (scans-false rs h).0 (ground arith, ground arith),
  λ space. ground (arith, (EndsWithSpace-iff rs q l).1 space),
  ground arith,
)

encoded-Explains :
    (rs : List ℕ) (e : IdentifierError)
    → All IsScalar rs
    → validate_identifier (encode_all rs) ≡ some e
    → Explains e (encode_all rs)
encoded-Explains [] empty h v = refl
encoded-Explains [] e h v = absurd (unfold validate_identifier valid_string in ground arith)
encoded-Explains (r ∷ rs) e h v =
    let (q, l) = last?-cons r rs in
    verdict-Explains (r ∷ rs) q e h l (sym (validate_identifier-verdict r rs q h l) ∙ v)

-- Each error that `validate_identifier` returns says what is wrong with the name, and that no
-- earlier test failed.
pub validate_identifier-Explains :
    (name : Str) (e : IdentifierError) → validate_identifier name ≡ some e → Explains e name
validate_identifier-Explains name e v = elim (Bool-cases (valid_string name)) [
  | inl valid ↦
      let (scalars, whole) = encode_all-runes name valid in
      subst (Explains e) whole (encoded-Explains (runes name) e scalars (rw whole v))
  | inr bad ↦
      let same : e ≡ invalid_utf8 = unfold validate_identifier in ground arith in
      rw same λ rs h eq. ground (arith, valid-encode_all rs h)
]
