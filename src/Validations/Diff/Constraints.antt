-- ===== src/Validations/Diff/Constraints.antt =====
-- pkg/validations/spec_diff.go: constraints.
use dbsgomysql.Prelude.{
  Bool, List, Option, Str, [], bool_eq, codes, contains, false, if◌then◌else◌, is_empty, list_eq,
  nat_eq, none, some, suc, true, ℕ, ◌&&◌, ◌++◌, ◌==◌, ◌∷◌,
}
use dbsgomysql.Golang.Strings.{join}
use dbsgomysql.Validations.Spec.{
  TableSpec, section_constraints, ConstraintSpec, ConstraintKind, constraint_unknown,
  constraint_check, constraint_foreign_key, constraint_kind_text,
}
use dbsgomysql.Validations.Spec.Index.{get, at}
use dbsgomysql.Validations.Diff.Indexes.{section_agreement, in_section}
use dbsgomysql.Validations.Diff.Types.{
  SpecDiff, SpecDiffKind, DiffSide, side_a, side_b, side_both, constraint_absent,
  constraint_unconfirmed, constraint_kind_mismatch, constraint_kind_unconfirmed,
  check_clause_mismatch, check_enforcement_mismatch, foreign_key_columns_mismatch,
  foreign_key_reference_mismatch, foreign_key_rule_mismatch, plain, check, reported,
}

unfoldable pub join_columns : List Str → Str
join_columns columns = join (codes ", ") columns

unfoldable pub reference_text : ConstraintSpec → Str
reference_text c =
    if is_empty c.ref_table
    then []
    else c.ref_schema
      ++ codes "."
      ++ c.ref_table
      ++ codes "("
      ++ join_columns c.ref_columns
      ++ codes ")"

abbrev pub enforced_text : Bool → Str
enforced_text true = codes "ENFORCED"
enforced_text false = codes "NOT ENFORCED"

abbrev pub rule_text_for : ConstraintKind → ConstraintSpec → Str
rule_text_for constraint_foreign_key c =
    codes "ON UPDATE " ++ c.update_rule ++ codes " ON DELETE " ++ c.delete_rule
rule_text_for _ c = []

unfoldable pub rule_text : ConstraintSpec → Str
rule_text c = rule_text_for c.kind c

abbrev pub constraint_diff : SpecDiffKind → DiffSide → Str → Str → Str → SpecDiff
constraint_diff kind side index a b = record (plain kind side) { index = index; a = a; b = b }

abbrev pub diff_checks : ConstraintSpec → ConstraintSpec → List SpecDiff
diff_checks a b = reported (
    check (a.check_clause == b.check_clause)
      (constraint_diff check_clause_mismatch side_both a.name a.check_clause b.check_clause)
    ∷ check (a.enforced == b.enforced) (
        constraint_diff check_enforcement_mismatch side_both a.name (enforced_text a.enforced)
          (enforced_text b.enforced))
    ∷ [])

abbrev pub diff_references : ConstraintSpec → ConstraintSpec → List SpecDiff
diff_references a b = reported (
    check (a.columns == b.columns) (
      constraint_diff foreign_key_columns_mismatch side_both a.name (join_columns a.columns)
        (join_columns b.columns))
    ∷ check
        ((a.ref_schema == b.ref_schema)
          && (a.ref_table == b.ref_table)
          && (a.ref_columns == b.ref_columns))
        (constraint_diff foreign_key_reference_mismatch side_both a.name (reference_text a)
          (reference_text b))
    ∷ check ((a.update_rule == b.update_rule) && (a.delete_rule == b.delete_rule))
        (constraint_diff foreign_key_rule_mismatch side_both a.name (rule_text a) (rule_text b))
    ∷ [])

-- The cases of the two kinds: different kinds, both unknown, and the fields of one kind.
abbrev pub diff_of_kinds :
    ConstraintKind → ConstraintKind → ConstraintSpec → ConstraintSpec → List SpecDiff
diff_of_kinds constraint_unknown constraint_unknown a b =
    constraint_diff constraint_kind_unconfirmed side_both a.name [] [] ∷ []
diff_of_kinds constraint_check constraint_check a b = diff_checks a b
diff_of_kinds constraint_foreign_key constraint_foreign_key a b = diff_references a b
diff_of_kinds _ _ a b =
    constraint_diff constraint_kind_mismatch side_both a.name (constraint_kind_text a.kind)
      (constraint_kind_text b.kind)
    ∷ []

unfoldable pub diff_constraint_pair : ConstraintSpec → ConstraintSpec → List SpecDiff
diff_constraint_pair a b = diff_of_kinds a.kind b.kind a b

-- The last position of each name.
unfoldable pub positions : ℕ → List ConstraintSpec → List (Str × ℕ) → List (Str × ℕ)
positions i [] m = m
positions i (c ∷ cs) m = positions (suc i) cs ((c.name, i) ∷ m)

-- The map holds positions of `b` only; another position would panic.
abbrev pub pair_with : ConstraintSpec → Option ConstraintSpec → List SpecDiff
pair_with a none = []
pair_with a (some b) = diff_constraint_pair a b

-- The differences of the constraints on side a, and the names matched.
unfoldable pub visit_constraints :
    List ConstraintSpec → List (Str × ℕ) → List ConstraintSpec → List Str → List SpecDiff × List Str
visit_constraints b by_name_b [] matched = ([], matched)
visit_constraints b by_name_b (c ∷ cs) matched = elim (get c.name by_name_b) [
  | none ↦
      let rest = visit_constraints b by_name_b cs matched in
      (constraint_diff constraint_absent side_b c.name [] [] ∷ rest.0, rest.1)
  | some i ↦
      let rest = visit_constraints b by_name_b cs (c.name ∷ matched) in
      (pair_with c (at b i) ++ rest.0, rest.1)
]

-- The constraints of side b whose name no constraint matched.
unfoldable pub absent_constraints : List ConstraintSpec → List Str → List SpecDiff
absent_constraints [] matched = []
absent_constraints (c ∷ cs) matched =
    let rest = absent_constraints cs matched in
    if contains c.name matched
    then rest
    else constraint_diff constraint_absent side_a c.name [] [] ∷ rest

unfoldable pub compare_constraints : List ConstraintSpec → List ConstraintSpec → List SpecDiff
compare_constraints a b =
    let found = visit_constraints b (positions 0 b []) a [] in
    found.0 ++ absent_constraints b found.1

unfoldable pub diff_constraints : TableSpec → TableSpec → List SpecDiff
diff_constraints a b =
    in_section (section_agreement a b section_constraints) constraint_unconfirmed
      (compare_constraints a.constraints b.constraints)
