-- ===== src/Validations/Diff/Tables.antt =====
-- pkg/validations/spec_diff.go: the table itself, and DiffSpecs.
pub mod Fields
pub mod Objects
pub mod References
pub mod Constraints
pub mod Laws
use dbsgomysql.Prelude.{
  Bool, List, Str, [], bool_eq, if◌then◌else◌, list_eq, nat_eq, not, ◌&&◌, ◌++◌, ◌==◌, ◌∷◌,
}
use dbsgomysql.Validations.Spec.{TableSpec, section_comment}
use dbsgomysql.Validations.Diff.Columns.{diff_columns}
use dbsgomysql.Validations.Diff.Indexes.{section_agreement, is_side_unknown, diff_indexes}
use dbsgomysql.Validations.Diff.Constraints.{diff_constraints}
use dbsgomysql.Validations.Diff.Types.{
  SpecDiff, SpecDiffKind, DiffSide, side_both, engine_mismatch, charset_mismatch,
  collation_mismatch, comment_mismatch, comment_unconfirmed, plain, check, reported,
}

abbrev pub table_diff : SpecDiffKind → Str → Str → SpecDiff
table_diff kind a b = record (plain kind side_both) { a = a; b = b }

abbrev pub diff_comments : DiffSide × Bool → TableSpec → TableSpec → List SpecDiff
diff_comments (side, both) a b =
    if both && not (a.comment == b.comment)
    then table_diff comment_mismatch a.comment b.comment ∷ []
    else if is_side_unknown side
    then []
    else plain comment_unconfirmed side ∷ []

unfoldable pub diff_table_level : TableSpec → TableSpec → List SpecDiff
diff_table_level a b =
    reported (
      check (a.engine == b.engine) (table_diff engine_mismatch a.engine b.engine)
      ∷ check (a.charset == b.charset) (table_diff charset_mismatch a.charset b.charset)
      ∷ check (a.collation == b.collation) (table_diff collation_mismatch a.collation b.collation)
      ∷ [])
    ++ diff_comments (section_agreement a b section_comment) a b

unfoldable pub diff_specs : TableSpec → TableSpec → List SpecDiff
diff_specs a b =
    diff_table_level a b
    ++ diff_columns a.columns b.columns
    ++ diff_indexes a b
    ++ diff_constraints a b
