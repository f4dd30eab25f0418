-- ===== src/Sqlutil.antt =====
-- pkg/sqlutil/sqlutil.go: quoting and validating MySQL identifiers.
pub mod Quoting
pub mod Validation
mod Tests
use mathlib.Core.List.{reverse}
use dbsgomysql.Prelude.{
  Bool, List, Option, Str, [], all, any, false, if◌then◌else◌, is_empty, ltb, map, nat_eq, none,
  not, some, ℕ, ◌&&◌, ◌++◌, ◌==◌, ◌||◌, ◌∷◌,
}
use dbsgomysql.Golang.Strings.{replace_byte, join, contains_byte}
use dbsgomysql.Golang.Utf8.{runes, valid_string, rune_count, decode_last_rev, between}

-- The backtick, the full stop and the underscore.
abbrev pub backtick : ℕ
backtick = 96

abbrev pub full_stop : ℕ
full_stop = 46

unfoldable pub quote_identifier : Str → Str
unfolding replace_byte
quote_identifier name =
    backtick ∷ [] ++ replace_byte backtick (backtick ∷ backtick ∷ []) name ++ backtick ∷ []

unfoldable pub quote_qualified : List Str → Str
unfolding join quote_identifier
quote_qualified parts = join (full_stop ∷ []) (map quote_identifier parts)

-- The negation of the condition in the loop of `is_simple_identifier`.
abbrev is_simple_byte : ℕ → Bool
is_simple_byte char = not (
    (ltb char b'a' || ltb b'z' char)
    && (ltb char b'A' || ltb b'Z' char)
    && (ltb char b'0' || ltb b'9' char)
    && not (char == b'_'))

unfoldable pub is_simple_identifier : Str → Bool
is_simple_identifier [] = false
is_simple_identifier (c ∷ name) = all is_simple_byte (c ∷ name)

pub data IdentifierError : Type 0 where
  invalid_utf8 empty too_long nul_byte supplementary trailing_space : IdentifierError

-- `last == ' ' || (last >= '\t' && last <= '\r')`
abbrev pub is_space : ℕ → Bool
is_space last = last == 32 || between 9 13 last

-- `none` is the nil error.
unfoldable pub validate_identifier : Str → Option IdentifierError
unfolding rune_count contains_byte
validate_identifier name =
    if not (valid_string name)
    then some invalid_utf8
    else if is_empty name
    then some empty
    else if contains_byte 0 name
    then some nul_byte
    else if any (λ char. ltb 65535 char) (runes name)
    then some supplementary
    else if is_space (decode_last_rev (reverse name))
    then some trailing_space
    else if ltb 64 (rune_count name)
    then some too_long
    else none
