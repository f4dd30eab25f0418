-- ===== src/Sqlutil/Tests.antt =====
-- Runs of pkg/sqlutil, and its theorems at concrete names.
use dbsgomysql.Prelude.{List, [], arith, codes, false, none, refl, some, true, ℕ, ◌↔◌, ◌∷◌, ◌≡◌}
use dbsgomysql.Golang.Utf8.{decode_rune, valid_string, decode_last_rev}
use dbsgomysql.Golang.Utf8.Encoding.{encode_all}
use dbsgomysql.Sqlutil.{
  empty, trailing_space, supplementary, nul_byte, invalid_utf8, quote_identifier, quote_qualified,
  is_simple_identifier, validate_identifier,
}
use dbsgomysql.Sqlutil.Quoting.{read_qualified, read_qualified-quote_qualified}
use dbsgomysql.Sqlutil.Validation.{IsIdentifier, validate_identifier-eq-none_iff}
use dbsgomysql.Sqlutil.Validation.Errors.{Explains, validate_identifier-Explains}
use dbsgomysql.Sqlutil.Validation.Simple.{is_simple_identifier-validate_identifier}

quoted_backtick : quote_identifier (codes "a`b") ≡ codes "`a``b`"
unfolding quote_identifier
quoted_backtick = refl

qualified : quote_qualified (codes "db" ∷ codes "t.1" ∷ []) ≡ codes "`db`.`t.1`"
unfolding quote_qualified
qualified = refl

decoded_euro : decode_rune (226 ∷ 130 ∷ 172 ∷ 65 ∷ []) ≡ (8364, 3)
unfolding decode_rune
decoded_euro = refl

validations :
    (validate_identifier (codes "orders") ≡ none)
    × (validate_identifier [] ≡ some empty)
    × (validate_identifier (codes "orders ") ≡ some trailing_space)
    × (validate_identifier (240 ∷ 159 ∷ 152 ∷ 128 ∷ []) ≡ some supplementary)
    × (validate_identifier (237 ∷ 160 ∷ 128 ∷ []) ≡ some invalid_utf8)
    × (validate_identifier (97 ∷ 0 ∷ []) ≡ some nul_byte)
unfolding validate_identifier decode_rune valid_string decode_last_rev
validations = (refl, refl, refl, refl, refl, refl)

simple :
    (is_simple_identifier (codes "Log_id9") ≡ true) × (is_simple_identifier (codes "a-b") ≡ false)
unfolding is_simple_identifier
simple = (refl, refl)

read_qualified-quote_qualified_example :
    read_qualified 2 (quote_qualified (codes "a`" ∷ codes "`.b" ∷ []))
    ≡ some (codes "a`" ∷ codes "`.b" ∷ [])
read_qualified-quote_qualified_example =
    read_qualified-quote_qualified (codes "a`" ∷ codes "`.b" ∷ []) 2 (omega arith)

validate_identifier-eq-none_iff_example :
    (validate_identifier (codes "id") ≡ none)
    ↔ ((rs : List ℕ) × (codes "id" ≡ encode_all rs) × IsIdentifier rs)
validate_identifier-eq-none_iff_example = validate_identifier-eq-none_iff (codes "id")

validate_identifier-Explains_example : Explains trailing_space (codes "a ")
unfolding validate_identifier decode_rune valid_string decode_last_rev
validate_identifier-Explains_example = validate_identifier-Explains (codes "a ") trailing_space refl

is_simple_identifier-validate_identifier_example : validate_identifier (codes "log_id") ≡ none
is_simple_identifier-validate_identifier_example =
    is_simple_identifier-validate_identifier (codes "log_id") (unfold is_simple_identifier in refl)
      (omega arith)
