-- ===== src/Validations/Spec.antt =====
-- pkg/validations/spec.go: the description of one table. An `int` that MySQL fills with a position
-- or a length is a ℕ.
pub mod Fold
pub mod Index
use dbsgomysql.Prelude.{Bool, List, Option, Str, codes, ℕ}

-- SpecSections, one field for each bit.
pub record SpecSections : Type 0 where
  pub indexes : Bool
  pub constraints : Bool
  pub comment : Bool

pub data Section : Type 0 where
  section_indexes : Section
  section_constraints : Section
  section_comment : Section

-- Has, for one section.
abbrev pub has : SpecSections → Section → Bool
has s section_indexes = s.indexes
has s section_constraints = s.constraints
has s section_comment = s.comment

pub data ConstraintKind : Type 0 where
  constraint_unknown : ConstraintKind
  constraint_check : ConstraintKind
  constraint_foreign_key : ConstraintKind

abbrev pub constraint_kind_text : ConstraintKind → Str
constraint_kind_text constraint_unknown = codes "unknown"
constraint_kind_text constraint_check = codes "check"
constraint_kind_text constraint_foreign_key = codes "foreign_key"

pub data GeneratedKind : Type 0 where
  generated_unknown : GeneratedKind
  generated_none : GeneratedKind
  generated_virtual : GeneratedKind
  generated_stored : GeneratedKind

abbrev pub generated_kind_text : GeneratedKind → Str
generated_kind_text generated_unknown = codes "unknown"
generated_kind_text generated_none = codes "none"
generated_kind_text generated_virtual = codes "virtual"
generated_kind_text generated_stored = codes "stored"

pub record ColumnSpec : Type 0 where
  pub name : Str
  pub ordinal : ℕ
  pub type : Str
  pub normalized_type : Str
  pub nullable : Bool
  pub charset : Str
  pub collation : Str
  pub default : Option Str
  pub default_is_expression : Bool
  pub extra : Str
  pub invisible : Bool
  pub generated : GeneratedKind
  pub generation_expr : Str
  pub auto_increment : Bool
  pub on_update : Bool

pub record IndexPart : Type 0 where
  pub column : Str
  pub expression : Str
  pub sub_part : ℕ
  pub descending : Bool

pub record IndexSpec : Type 0 where
  pub name : Str
  pub parts : List IndexPart
  pub unique : Bool
  pub type : Str
  pub visible : Bool

pub record ConstraintSpec : Type 0 where
  pub name : Str
  pub kind : ConstraintKind
  pub check_clause : Str
  pub enforced : Bool
  pub columns : List Str
  pub ref_schema : Str
  pub ref_table : Str
  pub ref_columns : List Str
  pub update_rule : Str
  pub delete_rule : Str

pub record TableSpec : Type 0 where
  pub schema : Str
  pub table : Str
  pub engine : Str
  pub charset : Str
  pub collation : Str
  pub comment : Str
  pub columns : List ColumnSpec
  pub indexes : List IndexSpec
  pub constraints : List ConstraintSpec
  pub captured : SpecSections
