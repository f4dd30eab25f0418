-- ===== src/Validations/Diff/Tables/Laws.antt =====
-- What an empty result of DiffSpecs says, and when it is empty.
use dbsgomysql.Prelude.{
  All, Any, List, [], all, arith, bool_eq, eq_iff, eq_refl, false, inl, inr, list_eq, map, nat_eq,
  true, ◌≡◌, ◌⊎◌,
}
use dbsgomysql.Validations.Spec.{
  TableSpec, Section, has, section_comment, section_indexes, section_constraints,
}
use dbsgomysql.Validations.Spec.Index.Laws.{distinct}
use dbsgomysql.Validations.Diff.Types.{SpecDiff, SpecDiffKind, reported-nil_iff}
use dbsgomysql.Validations.Diff.Matching.Laws.{append≡nil, both-nil}
use dbsgomysql.Validations.Diff.Matching.Agreement.{Matches}
use dbsgomysql.Validations.Diff.Columns.{diff_columns}
use dbsgomysql.Validations.Diff.Indexes.{section_agreement, in_section, diff_indexes}
use dbsgomysql.Validations.Diff.Constraints.{diff_constraints}
use dbsgomysql.Validations.Diff.Tables.{diff_comments, diff_table_level, diff_specs}
use dbsgomysql.Validations.Diff.Tables.Fields.{SameIndex}
use dbsgomysql.Validations.Diff.Tables.Objects.{
  SameNamedColumn, diff_columns-Matches, diff_columns-own, compare_indexes-Matches,
  compare_indexes-own,
}
use dbsgomysql.Validations.Diff.Tables.Constraints.{
  SameConstraint, compare_constraints-All, compare_constraints-names,
}
use dbsgomysql.Validations.Diff.Tables.References.{known, compare_constraints-own}

-- Both sides captured the section or neither did, and if both did, `compared` is empty.
abbrev Settled : TableSpec → TableSpec → Section → List SpecDiff → Type 0
Settled a b section compared =
    (has a.captured section ≡ has b.captured section)
    × (has a.captured section ≡ false ⊎ compared ≡ [])

in_section-nil :
    (a b : TableSpec) (section : Section) (unconfirmed : SpecDiffKind) (compared : List SpecDiff)
    → in_section (section_agreement a b section) unconfirmed compared ≡ []
    → Settled a b section compared
unfolding section_agreement
in_section-nil a b section unconfirmed compared e = ground (arith, e)

in_section-own :
    (a : TableSpec) (section : Section) (unconfirmed : SpecDiffKind) (compared : List SpecDiff)
    → compared ≡ []
    → in_section (section_agreement a a section) unconfirmed compared ≡ []
unfolding section_agreement
in_section-own a section unconfirmed compared e = ground (arith, e)

diff_comments-nil :
    (a b : TableSpec)
    → diff_comments (section_agreement a b section_comment) a b ≡ []
    → (has a.captured section_comment ≡ has b.captured section_comment)
      × (has a.captured section_comment ≡ false ⊎ a.comment ≡ b.comment)
unfolding section_agreement
diff_comments-nil a b e = ground (arith, e, eq_iff a.comment b.comment)

diff_comments-own : (a : TableSpec) → diff_comments (section_agreement a a section_comment) a a ≡ []
unfolding section_agreement
diff_comments-own a = ground (arith, eq_refl a.comment)

-- What two tables have in common if no difference is reported.
pub record SameTable (a b : TableSpec) : Type 0 where
  pub engine : a.engine ≡ b.engine
  pub charset : a.charset ≡ b.charset
  pub collation : a.collation ≡ b.collation
  pub comment :
      (has a.captured section_comment ≡ has b.captured section_comment)
      × (has a.captured section_comment ≡ false ⊎ a.comment ≡ b.comment)
  pub columns : Matches SameNamedColumn a.columns b.columns
  pub indexes :
      (has a.captured section_indexes ≡ has b.captured section_indexes)
      × (has a.captured section_indexes ≡ false ⊎ Matches SameIndex a.indexes b.indexes)
  pub constraints :
      (has a.captured section_constraints ≡ has b.captured section_constraints)
      × (has a.captured section_constraints ≡ false
          ⊎ (All (λ c. Any (λ d. SameConstraint c d) b.constraints) a.constraints
              × All (λ d. Any (λ c. c.name ≡ d.name) a.constraints) b.constraints))

-- If DiffSpecs reports nothing, the two tables have the same engine, character set and collation;
-- they captured the same sections; each column of either table has a column of the other with the
-- same name and equal compared fields. If the sections were captured, the comments are equal; each
-- index of either table has an index of the other with the same name, key parts up to the case of
-- column names, uniqueness, type and visibility; each constraint of the first has a constraint of
-- the second with the same name, kind and fields, and the second has no other constraint names.
pub diff_specs-SameTable : (a b : TableSpec) → diff_specs a b ≡ [] → SameTable a b
unfolding diff_specs diff_table_level diff_indexes diff_constraints
diff_specs-SameTable a b e =
    let all_four = append≡nil _ (diff_constraints a b) e in
    let three = append≡nil _ (diff_indexes a b) all_four.0 in
    let two = append≡nil (diff_table_level a b) (diff_columns a.columns b.columns) three.0 in
    let level = append≡nil _ (diff_comments (section_agreement a b section_comment) a b) two.0 in
    let fields = (reported-nil_iff _).0 level.0 in
    let indexes = in_section-nil a b section_indexes _ _ three.1 in
    record {
      engine = (eq_iff a.engine b.engine).0 fields.0;
      charset = (eq_iff a.charset b.charset).0 fields.1.0;
      collation = (eq_iff a.collation b.collation).0 fields.1.1.0;
      comment = diff_comments-nil a b level.1;
      columns = diff_columns-Matches a.columns b.columns two.1;
      indexes = (
        indexes.0,
        elim indexes.1 [
          | inl none_captured ↦ inl none_captured
          | inr e2 ↦ inr (compare_indexes-Matches a.indexes b.indexes e2)
        ],
      );
      constraints =
          let section = in_section-nil a b section_constraints _ _ all_four.1 in
          (
            section.0,
            elim section.1 [
              | inl none_captured ↦ inl none_captured
              | inr e2 ↦ inr (
                compare_constraints-All a.constraints b.constraints e2,
                compare_constraints-names a.constraints b.constraints e2,
              )
            ],
          );
    }

-- A table has no difference from itself if the names of its columns, of its indexes and of its
-- constraints are distinct and no constraint is of an unknown kind.
pub diff_specs-own :
    (a : TableSpec)
    → distinct (map (λ c. c.name) a.columns) ≡ true
    → distinct (map (λ i. i.name) a.indexes) ≡ true
    → distinct (map (λ c. c.name) a.constraints) ≡ true
    → all (λ c. known c.kind) a.constraints ≡ true
    → diff_specs a a ≡ []
unfolding diff_specs diff_table_level diff_indexes diff_constraints
diff_specs-own a c i k n =
    let fields =
      (reported-nil_iff _).1 (eq_refl a.engine, (eq_refl a.charset, (eq_refl a.collation, tt))) in
    let level = both-nil fields (diff_comments-own a) in
    let indexes = in_section-own a section_indexes _ _ (compare_indexes-own a.indexes i) in
    let constraints =
      in_section-own a section_constraints _ _ (compare_constraints-own a.constraints k n) in
    both-nil (both-nil (both-nil level (diff_columns-own a.columns c)) indexes) constraints
