-- ===== src/Validations/ForeignKeys/Types.antt =====
-- pkg/validations/foreign_keys.go: the facts, the selector and the errors.
use dbsgomysql.Prelude.{Bool, List, Option, Str, [], none, ℕ}

pub data MetadataVisibility : Type 0 where
  visibility_unknown : MetadataVisibility
  visibility_complete : MetadataVisibility
  visibility_unconfirmed : MetadataVisibility

pub data ForeignKeyDowngradeReason : Type 0 where
  downgrade_none : ForeignKeyDowngradeReason
  downgrade_primary_query_error : ForeignKeyDowngradeReason
  downgrade_primary_read_error : ForeignKeyDowngradeReason

-- fkSelectorKind, without its undeclared values.
pub data FkSelectorKind : Type 0 where
  invalid : FkSelectorKind
  incoming : FkSelectorKind
  outgoing : FkSelectorKind
  within : FkSelectorKind

pub record FkSelector : Type 0 where
  pub kind : FkSelectorKind
  pub tables : List Str

abbrev pub incoming_to : List Str → FkSelector
incoming_to tables = record { kind = incoming; tables = tables }

abbrev pub outgoing_from : List Str → FkSelector
outgoing_from tables = record { kind = outgoing; tables = tables }

abbrev pub within_tables : List Str → FkSelector
within_tables tables = record { kind = within; tables = tables }

pub record ForeignKey : Type 0 where
  pub constraint_name : Str
  pub child_schema : Str
  pub child_table : Str
  pub child_columns : List Str
  pub parent_schema : Str
  pub parent_table : Str
  pub parent_columns : List Str
  pub on_delete : Str
  pub on_update : Str
  pub indexed : Bool

-- The errors of the two readers, one constructor for each format of the code.
pub data FkError : Type 0 where
  scan_row : Str → FkError
  iterate_rows : Str → FkError
  inconsistent : Str → FkError
  bad_position : Str → ℕ → ℕ → FkError
  no_separator : Str → FkError
  schema_differs : Str → FkError
  bad_column_count : Str → ℕ → ℕ → FkError
  unknown_flags : ℕ → FkError
  exclusive_flags : ℕ → FkError
  query_indexes : Str → FkError
  scan_index : Str → FkError
  bad_index_position : Str → ℕ → ℕ → FkError
  iterate_indexes : Str → FkError

-- An error at the query, at what it returned, or at the indexes of the fallback.
pub data SourceError : Type 0 where
  query_failed : Str → SourceError
  read_failed : FkError → SourceError
  index_failed : FkError → SourceError

pub record ForeignKeyResult : Type 0 where
  pub keys : List ForeignKey
  pub visibility : MetadataVisibility
  pub downgrade_reason : ForeignKeyDowngradeReason
  pub primary_error : Option SourceError

abbrev pub zero_result : ForeignKeyResult
zero_result = record {
  keys = [];
  visibility = visibility_unknown;
  downgrade_reason = downgrade_none;
  primary_error = none;
}
