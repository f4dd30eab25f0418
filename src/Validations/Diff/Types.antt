-- ===== src/Validations/Diff/Types.antt =====
-- pkg/validations/spec_diff.go: the vocabulary of differences and the texts they carry.
use dbsgomysql.Prelude.{
  All, Bool, List, Str, [], arith, codes, false, if◌then◌else◌, refl, true, ◌↔◌, ◌∷◌, ◌≡◌,
}

pub data DiffSide : Type 0 where
  side_unknown : DiffSide
  side_a : DiffSide
  side_b : DiffSide
  side_both : DiffSide

pub data SpecDiffKind : Type 0 where
  engine_mismatch : SpecDiffKind
  charset_mismatch : SpecDiffKind
  collation_mismatch : SpecDiffKind
  comment_mismatch : SpecDiffKind
  comment_unconfirmed : SpecDiffKind
  column_absent : SpecDiffKind
  column_type_mismatch : SpecDiffKind
  column_nullability_mismatch : SpecDiffKind
  column_charset_mismatch : SpecDiffKind
  column_collation_mismatch : SpecDiffKind
  column_default_mismatch : SpecDiffKind
  column_order_mismatch : SpecDiffKind
  column_visibility_mismatch : SpecDiffKind
  column_generated_mismatch : SpecDiffKind
  column_generation_expr_mismatch : SpecDiffKind
  column_auto_increment_mismatch : SpecDiffKind
  column_on_update_mismatch : SpecDiffKind
  index_unconfirmed : SpecDiffKind
  index_absent : SpecDiffKind
  index_parts_mismatch : SpecDiffKind
  index_uniqueness_mismatch : SpecDiffKind
  index_type_mismatch : SpecDiffKind
  index_visibility_mismatch : SpecDiffKind
  constraint_unconfirmed : SpecDiffKind
  constraint_absent : SpecDiffKind
  constraint_kind_mismatch : SpecDiffKind
  check_clause_mismatch : SpecDiffKind
  check_enforcement_mismatch : SpecDiffKind
  foreign_key_columns_mismatch : SpecDiffKind
  foreign_key_reference_mismatch : SpecDiffKind
  foreign_key_rule_mismatch : SpecDiffKind
  column_name_case_mismatch : SpecDiffKind
  index_name_case_mismatch : SpecDiffKind
  constraint_kind_unconfirmed : SpecDiffKind

pub record SpecDiff : Type 0 where
  pub kind : SpecDiffKind
  pub side : DiffSide
  pub column : Str
  pub index : Str
  pub a : Str
  pub b : Str
  pub a_is_expression : Bool
  pub b_is_expression : Bool

-- A literal `SpecDiff{Kind: kind, Side: side}`, with zero values for the rest.
abbrev pub plain : SpecDiffKind → DiffSide → SpecDiff
plain kind side = record {
  kind = kind;
  side = side;
  column = [];
  index = [];
  a = [];
  b = [];
  a_is_expression = false;
  b_is_expression = false;
}

abbrev pub bool_text : Bool → Str
bool_text true = codes "true"
bool_text false = codes "false"

-- A test, and the difference that its failure appends.
abbrev pub check : Bool → SpecDiff → Bool × SpecDiff
check same d = (same, d)

-- The differences that a sequence of tests appends.
unfoldable pub reported : List (Bool × SpecDiff) → List SpecDiff
reported [] = []
reported ((same, d) ∷ tests) = let later = reported tests in if same then later else d ∷ later

-- It appends nothing exactly if every test passes.
pub reported-nil_iff :
    (tests : List (Bool × SpecDiff)) → (reported tests ≡ []) ↔ All (λ t. t.0 ≡ true) tests
unfolding reported
reported-nil_iff [] = (λ _. tt, λ _. refl)
reported-nil_iff ((same, d) ∷ tests) = ground (arith, reported-nil_iff tests)
