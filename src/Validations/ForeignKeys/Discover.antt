-- ===== src/Validations/ForeignKeys/Discover.antt =====
-- pkg/validations/foreign_keys.go: ForeignKeys, which asks the InnoDB registry and, if that fails,
-- the standard tables. The queries are a parameter.
pub mod Laws
pub mod Agreement
use dbsgomysql.Prelude.{
  Bool, List, Option, Str, [], codes, false, if◌then◌else◌, is_empty, list_eq, map, nat_eq, none,
  not, read, some, true, ◌++◌, ◌∷◌,
}
use dbsgomysql.Golang.Sql.{Result, ok, fail, ◌>>=◌, Rows, Query, rejected, answered}
use dbsgomysql.Validations.Inspector.{
  Inspector, ArgumentError, ObjectError, new_object_error, validate,
}
use dbsgomysql.Validations.Predicate.{representable, narrow_names}
use dbsgomysql.Validations.ForeignKeys.Types.{
  MetadataVisibility, visibility_complete, visibility_unconfirmed, ForeignKeyDowngradeReason,
  downgrade_none, downgrade_primary_query_error, downgrade_primary_read_error, FkSelectorKind,
  invalid, incoming, FkSelector, ForeignKey, FkError, SourceError, query_failed, read_failed,
  index_failed, ForeignKeyResult, zero_result,
}
use dbsgomysql.Validations.ForeignKeys.Registry.{InnodbRow, slash, scan_innodb_foreign_keys}
use dbsgomysql.Validations.ForeignKeys.Standard.{
  StandardRow, IndexRow, TableIdentity, scan_standard_foreign_keys, populate_fallback_indexes,
}
use dbsgomysql.Validations.ForeignKeys.Select.{select_foreign_keys}

-- The column that a query compares with the names.
pub data Side : Type 0 where
  child_side : Side
  parent_side : Side

abbrev pub side : FkSelectorKind → Side
side incoming = parent_side
side _ = child_side

-- The three queries, by what varies in their texts and by their arguments. `none` leaves the
-- predicate on names out.
pub record FkServer : Type 0 where
  pub innodb : Side → Option (List Str) → Query InnodbRow
  pub standard : Side → Str → Option (List Str) → Query StandardRow
  pub indexes : List TableIdentity → Query IndexRow

-- An error with its stage, by which the downgrade reason is chosen.
abbrev pub query_or :
    {R : Type 0}
    → (R → Result FkError (List ForeignKey))
    → Result SourceError R
    → Result SourceError (List ForeignKey)
query_or read (fail e) = fail e
query_or read (ok rows) = elim (read rows) [ ok keys ↦ ok keys | fail e ↦ fail (read_failed e) ]

abbrev pub queried : {A : Type 0} → Query A → Result SourceError (Rows A)
queried (rejected e) = fail (query_failed e)
queried (answered rows) = ok rows

abbrev pub composed : Str → List Str → List Str
composed schema tables = map (λ table. schema ++ slash ∷ table) tables

unfoldable pub foreign_keys_innodb :
    FkServer → Str → FkSelector → Result SourceError (List ForeignKey)
unfolding narrow_names scan_innodb_foreign_keys
foreign_keys_innodb server schema sel =
    query_or scan_innodb_foreign_keys
      (queried (server.innodb (side sel.kind) (narrow_names (composed schema sel.tables) 0)))

-- The error of the primary source tells the stage at which it failed.
unfoldable pub downgrade_reason_of : SourceError → ForeignKeyDowngradeReason
downgrade_reason_of (query_failed e) = downgrade_primary_query_error
downgrade_reason_of _ = downgrade_primary_read_error

abbrev pub at_indexes : Result FkError (List ForeignKey) → Result SourceError (List ForeignKey)
at_indexes (ok keys) = ok keys
at_indexes (fail e) = fail (index_failed e)

unfoldable pub foreign_keys_standard :
    FkServer → Str → FkSelector → Result SourceError (List ForeignKey)
unfolding representable narrow_names scan_standard_foreign_keys populate_fallback_indexes
foreign_keys_standard server schema sel =
    if not (representable schema)
    then ok []
    else query_or scan_standard_foreign_keys
        (queried (server.standard (side sel.kind) schema (narrow_names sel.tables 1)))
      >>= λ keys. at_indexes (populate_fallback_indexes server.indexes keys)

unfoldable pub is_valid_kind : FkSelectorKind → Bool
is_valid_kind invalid = false
is_valid_kind _ = true

pub data ForeignKeysError : Type 0 where
  bad_argument : ArgumentError → ForeignKeysError
  err_invalid_selector : ForeignKeysError
  both_failed : SourceError → SourceError → ForeignKeysError

abbrev pub op_foreign_keys : Str
op_foreign_keys = codes "foreign_keys"

-- Both sources, the second one only behind an error of the first.
unfoldable pub discover :
    FkServer → Str → FkSelector → Result (ObjectError ForeignKeysError) ForeignKeyResult
unfolding foreign_keys_innodb foreign_keys_standard select_foreign_keys downgrade_reason_of
discover server schema sel = elim (foreign_keys_innodb server schema sel) [
  | ok keys ↦ ok (record {
    keys = select_foreign_keys keys schema sel;
    visibility = visibility_complete;
    downgrade_reason = downgrade_none;
    primary_error = none;
  })
  | fail primary ↦ elim (foreign_keys_standard server schema sel) [
    | ok keys ↦ ok (record {
      keys = select_foreign_keys keys schema sel;
      visibility = visibility_unconfirmed;
      downgrade_reason = downgrade_reason_of primary;
      primary_error = some primary;
    })
    | fail fallback ↦
        fail (new_object_error op_foreign_keys schema [] (both_failed primary fallback))
  ]
]

-- ForeignKeys
unfoldable pub foreign_keys :
    Option Inspector
    → FkServer
    → FkSelector
    → Result (ObjectError ForeignKeysError) ForeignKeyResult
unfolding validate is_valid_kind discover
foreign_keys i server sel = elim (validate i op_foreign_keys sel.tables) [
  | some e ↦ fail (new_object_error e.op e.schema e.table (bad_argument e.err))
  | none ↦
      let schema : Str = elim i [ some j ↦ j.schema | none ↦ [] ] in
      if not (is_valid_kind sel.kind)
      then fail (new_object_error op_foreign_keys schema [] err_invalid_selector)
      else if is_empty sel.tables
      then ok zero_result
      else discover server schema sel
]
