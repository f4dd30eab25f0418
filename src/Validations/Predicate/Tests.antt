-- ===== src/Validations/Predicate/Tests.antt =====
-- Runs of the narrowing, and its theorems at concrete names.
use dbsgomysql.Prelude.{
  List, Str, [], arith, codes, contains, length, list_beq, list_eq, nat_eq, none, refl, some, true,
  ◌+◌, ◌<◌, ◌↔◌, ◌∷◌, ◌≡◌, ◌≤◌,
}
use dbsgomysql.Golang.Utf8.{valid_string, decode_rune, runes}
use dbsgomysql.Validations.Predicate.{
  representable, narrow_names, requested_objects, sql_placeholders,
}
use dbsgomysql.Validations.Predicate.Representable.{IsBasic, representable_iff}
use dbsgomysql.Validations.Predicate.Laws.{
  Distinct, SameMembers, marks, Pairs, narrow_names-some, narrow_names-enough,
  requested_objects-some,
}

abbrev names : List Str
names = codes "a" ∷ codes "b" ∷ codes "a" ∷ []

narrowed : narrow_names names 1 ≡ some (codes "a" ∷ codes "b" ∷ [])
unfolding narrow_names valid_string runes decode_rune list_beq contains
narrowed = refl

unrepresentable : narrow_names ((240 ∷ 159 ∷ 152 ∷ 128 ∷ []) ∷ []) 0 ≡ none
unfolding narrow_names valid_string runes decode_rune
unrepresentable = refl

placeholders : sql_placeholders 3 ≡ codes "?,?,?"
unfolding sql_placeholders
placeholders = refl

narrow_names-some_example :
    Distinct (codes "a" ∷ codes "b" ∷ [])
    × SameMembers (codes "a" ∷ codes "b" ∷ []) names
    × (2 + 1 ≤ 65535)
unfolding narrow_names valid_string runes decode_rune list_beq contains
narrow_names-some_example = narrow_names-some names 1 (codes "a" ∷ codes "b" ∷ []) refl

narrow_names-enough_example : (params : List Str) × (narrow_names names 1 ≡ some params)
unfolding representable valid_string runes decode_rune
narrow_names-enough_example = narrow_names-enough names 1 (refl, (refl, (refl, tt))) (omega arith)

abbrev looked_up : Str
looked_up =
    codes "(SELECT ? AS TABLE_SCHEMA, ? AS TABLE_NAME\n\tUNION ALL SELECT ?, ?) AS requested"

abbrev given : List Str
given = codes "db" ∷ codes "a" ∷ codes "db" ∷ codes "b" ∷ []

requested_objects-some_example :
    (marks looked_up ≡ length given)
    × ((params : List Str) × Distinct params
        × SameMembers params names
        × Pairs (codes "db") params given
        × (0 < length params)
        × (length params ≤ 2048))
unfolding requested_objects valid_string runes decode_rune list_beq contains
requested_objects-some_example = requested_objects-some (codes "db") names looked_up given refl

representable_iff_example :
    (representable (240 ∷ 159 ∷ 152 ∷ 128 ∷ []) ≡ true) ↔ IsBasic (240 ∷ 159 ∷ 152 ∷ 128 ∷ [])
representable_iff_example = representable_iff (240 ∷ 159 ∷ 152 ∷ 128 ∷ [])
