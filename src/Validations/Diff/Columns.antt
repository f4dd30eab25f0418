-- ===== src/Validations/Diff/Columns.antt =====
-- pkg/validations/spec_diff.go: columns.
use dbsgomysql.Prelude.{
  Bool, Eq, List, Option, Str, [], arith, bool_eq, false, if◌then◌else◌, list_eq, map, nat_eq, none,
  option_eq, some, true, ◌&&◌, ◌++◌, ◌==◌, ◌↔◌, ◌∷◌, ◌≡◌,
}
use dbsgomysql.Validations.Spec.{
  ColumnSpec, GeneratedKind, generated_unknown, generated_none, generated_virtual, generated_stored,
  generated_kind_text,
}
use dbsgomysql.Validations.Spec.Fold.{fold_key}
use dbsgomysql.Golang.Strings.{str_lt}
use dbsgomysql.Validations.Spec.Index.{fold_collisions, new_folded_index}
use dbsgomysql.Validations.Diff.Matching.{match_each, unmatched}
use dbsgomysql.Golang.Strconv.{itoa}
use dbsgomysql.Validations.Diff.Types.{
  column_absent, column_name_case_mismatch, column_visibility_mismatch, column_order_mismatch,
  column_default_mismatch, column_collation_mismatch, column_charset_mismatch,
  column_nullability_mismatch, column_type_mismatch, SpecDiff, SpecDiffKind, DiffSide, side_a,
  side_b, side_both, column_auto_increment_mismatch, column_charset_mismatch,
  column_collation_mismatch, column_default_mismatch, column_generated_mismatch,
  column_generation_expr_mismatch, column_nullability_mismatch, column_on_update_mismatch,
  column_order_mismatch, column_type_mismatch, column_visibility_mismatch, plain, bool_text, check,
  reported,
}

abbrev pub generated_beq : GeneratedKind → GeneratedKind → Bool
generated_beq generated_unknown generated_unknown = true
generated_beq generated_none generated_none = true
generated_beq generated_virtual generated_virtual = true
generated_beq generated_stored generated_stored = true
generated_beq _ _ = false

pub generated_beq_iff : (a b : GeneratedKind) → (generated_beq a b ≡ true) ↔ (a ≡ b)
generated_beq_iff a b = ground arith

instance abbrev pub generated_eq : Eq GeneratedKind
generated_eq = record { beq = generated_beq; beq_iff = generated_beq_iff }

abbrev pub column_diff : SpecDiffKind → DiffSide → Str → Str → Str → SpecDiff
column_diff kind side column a b = record (plain kind side) { column = column; a = a; b = b }

-- The function emit of diffColumnPair, under its test.
abbrev emit : ColumnSpec → Bool → SpecDiffKind → Str → Str → Bool × SpecDiff
emit a same kind value_a value_b = check same (column_diff kind side_both a.name value_a value_b)

abbrev side_without : Option Str → Option Str → DiffSide
side_without none (some _) = side_a
side_without (some _) none = side_b
side_without _ _ = side_both

unfoldable pub default_side : ColumnSpec → ColumnSpec → DiffSide
default_side a b = side_without a.default b.default

-- The comparison of the texts, and of the flags if both sides have a text.
abbrev pub same_text_and : Bool → Option Str → Option Str → Bool
same_text_and same_flags none none = true
same_text_and same_flags (some x) (some y) = x == y && same_flags
same_text_and same_flags _ _ = false

unfoldable pub same_default : ColumnSpec → ColumnSpec → Bool
same_default a b =
    same_text_and (a.default_is_expression == b.default_is_expression) a.default b.default

unfoldable pub default_value : ColumnSpec → Str
default_value c = elim c.default [ none ↦ [] | some value ↦ value ]

abbrev is_some : Option Str → Bool
is_some none = false
is_some (some _) = true

unfoldable pub diff_column_pair : ColumnSpec → ColumnSpec → List SpecDiff
diff_column_pair a b = reported (
    emit a (a.normalized_type == b.normalized_type) column_type_mismatch a.type b.type
    ∷ emit a (a.nullable == b.nullable) column_nullability_mismatch (bool_text a.nullable)
        (bool_text b.nullable)
    ∷ emit a (a.charset == b.charset) column_charset_mismatch a.charset b.charset
    ∷ emit a (a.collation == b.collation) column_collation_mismatch a.collation b.collation
    ∷ check (same_default a b) (record (plain column_default_mismatch (default_side a b)) {
      column = a.name;
      a = default_value a;
      b = default_value b;
      a_is_expression = is_some a.default && a.default_is_expression;
      b_is_expression = is_some b.default && b.default_is_expression;
    })
    ∷ emit a (a.ordinal == b.ordinal) column_order_mismatch (itoa a.ordinal) (itoa b.ordinal)
    ∷ emit a (a.invisible == b.invisible) column_visibility_mismatch (bool_text a.invisible)
        (bool_text b.invisible)
    ∷ emit a (a.generated == b.generated) column_generated_mismatch
        (generated_kind_text a.generated) (generated_kind_text b.generated)
    ∷ emit a (a.generation_expr == b.generation_expr) column_generation_expr_mismatch
        a.generation_expr b.generation_expr
    ∷ emit a (a.auto_increment == b.auto_increment) column_auto_increment_mismatch
        (bool_text a.auto_increment) (bool_text b.auto_increment)
    ∷ emit a (a.on_update == b.on_update) column_on_update_mismatch (bool_text a.on_update)
        (bool_text b.on_update)
    ∷ [])

-- The difference for a case-only spelling, and those of the pair.
unfoldable pub diff_matched_columns : ColumnSpec → ColumnSpec → List SpecDiff
diff_matched_columns a b =
    reported (
      check (a.name == b.name)
        (column_diff column_name_case_mismatch side_both a.name a.name b.name)
      ∷ [])
    ++ diff_column_pair a b

-- The order of onlyInB.
abbrev column_before : ColumnSpec → ColumnSpec → Bool
column_before c d =
    let left = fold_key c.name in
    let right = fold_key d.name in if left == right then str_lt c.name d.name else str_lt left right

unfoldable pub insert_column : ColumnSpec → List ColumnSpec → List ColumnSpec
insert_column c [] = c ∷ []
insert_column c (d ∷ ds) =
    let later = insert_column c ds in if column_before d c then d ∷ later else c ∷ d ∷ ds

unfoldable pub sort_columns : List ColumnSpec → List ColumnSpec
unfolding insert_column
sort_columns [] = []
sort_columns (c ∷ cs) = insert_column c (sort_columns cs)

abbrev pub column_absent_in_b : ColumnSpec → SpecDiff
column_absent_in_b c = column_diff column_absent side_b c.name c.type []

abbrev pub column_absent_in_a : ColumnSpec → SpecDiff
column_absent_in_a c = column_diff column_absent side_a c.name [] c.type

unfoldable pub diff_columns : List ColumnSpec → List ColumnSpec → List SpecDiff
diff_columns a b =
    let excluded = fold_collisions (λ c. c.name) b (fold_collisions (λ c. c.name) a []) in
    let by_name_b = new_folded_index (λ c. c.name) b excluded in
    let found = match_each (λ c. c.name) column_absent_in_b diff_matched_columns b by_name_b a [] in
    found.0 ++ map column_absent_in_a (sort_columns (unmatched 0 b found.1))
