-- ===== src/Validations/Tables.antt =====
-- pkg/validations/tables.go, behind the answer to the query.
mod Laws
use dbsgomysql.Prelude.{
  modify, List, Option, Str, [], codes, contains, if◌then◌else◌, is_empty, list_eq, map, nat_eq,
  none, not, read, some, ◌==◌, ◌||◌, ◌∷◌,
}
use dbsgomysql.Golang.Sql.{
  ◌>>=◌, Result, ok, fail, Rows, end, row, bad_row, Query, rejected, answered,
}
use dbsgomysql.Validations.Inspector.{
  Inspector, ArgumentError, ObjectError, new_object_error, validate,
}
use dbsgomysql.Validations.Predicate.{representable, requested_objects}
use dbsgomysql.Validations.Catalog.{
  Finding, finding_message, id_tables_exist, id_storage_engine, id_invisible_columns,
}
use dbsgomysql.Validations.Spec.Fold.{ascii_fold_equal}

pub record TableInfo : Type 0 where
  pub table : Str
  pub table_type : Str
  pub engine : Str

-- A row of the query; a `none` is NULL.
pub record TableRow : Type 0 where
  pub table : Str
  pub table_type : Str
  pub engine : Option Str

pub data MetadataError : Type 0 where
  argument_error : ArgumentError → MetadataError
  query_metadata : Str → MetadataError
  scan_metadata : Str → MetadataError
  iterate_metadata : Str → MetadataError

abbrev engine_text : Option Str → Str
engine_text none = []
engine_text (some engine) = engine

abbrev info_of : TableRow → TableInfo
info_of r = record { table = r.table; table_type = r.table_type; engine = engine_text r.engine }

-- The loop over the rows, which fills `byName`: a later row of a name replaces an earlier one.
unfoldable pub collect_tables :
    List (Str × Option TableInfo)
    → Rows TableRow
    → Result MetadataError (List (Str × Option TableInfo))
collect_tables m (end none) = ok m
collect_tables m (end (some e)) = fail (iterate_metadata e)
collect_tables m (bad_row e) = fail (scan_metadata e)
collect_tables m (row r rows) = collect_tables (modify none (λ _. some (info_of r)) r.table m) rows

unfoldable pub query_tables : Query TableRow → Result MetadataError (List (Str × Option TableInfo))
unfolding collect_tables
query_tables (rejected e) = fail (query_metadata e)
query_tables (answered rows) = collect_tables [] rows

-- The facts of the requested tables that the map has, in the order of the request.
unfoldable pub requested_tables : List Str → List (Str × Option TableInfo) → List TableInfo
requested_tables [] m = []
requested_tables (table ∷ tables) m =
    let later = requested_tables tables m in
    elim (read none table m) [ none ↦ later | some info ↦ info ∷ later ]

abbrev pub op_tables : Str
op_tables = codes "tables"

abbrev in_schema :
    {T : Type 0} → Str → Result MetadataError T → Result (ObjectError MetadataError) T
in_schema schema (ok t) = ok t
in_schema schema (fail e) = fail (new_object_error op_tables schema [] e)

-- Tables. The query is a parameter, by the derived table that narrows it.
unfoldable pub tables_of :
    Option Inspector
    → (Str → Option (Str × List Str) → Query TableRow)
    → List Str
    → Result (ObjectError MetadataError) (List TableInfo)
unfolding validate representable requested_objects query_tables requested_tables
tables_of i query tables = elim (validate i op_tables tables) [
  | some e ↦ fail (new_object_error e.op e.schema e.table (argument_error e.err))
  | none ↦
      let schema : Str = elim i [ some j ↦ j.schema | none ↦ [] ] in
      if is_empty tables
      then ok []
      else in_schema schema (
          if representable schema
          then query_tables (query schema (requested_objects schema tables))
          else ok [])
        >>= λ m. ok (requested_tables tables m)
]

-- The loop over the requested names; the finding has no facts.
unfoldable pub check_tables_exist : List Str → List TableInfo → List (Finding (Unit {0}))
check_tables_exist [] found = []
check_tables_exist (table ∷ requested) found =
    let later = check_tables_exist requested found in
    if contains table (map (λ info. info.table) found)
    then later
    else record {
      check = id_tables_exist;
      message =
          finding_message id_tables_exist
            (codes "configured table does not exist in the inspected schema");
      tables = table ∷ [];
      facts = tt;
    }
      ∷ later

abbrev pub table_type_base : Str
table_type_base = codes "BASE TABLE"

-- The loop, behind the choice of the default engine.
unfoldable pub engine_findings : List TableInfo → Str → List (Finding TableInfo)
engine_findings [] engine = []
engine_findings (table ∷ found) engine =
    let later = engine_findings found engine in
    if not (table.table_type == table_type_base) || ascii_fold_equal table.engine engine
    then later
    else record {
      check = id_storage_engine;
      message =
          finding_message id_storage_engine
            (codes "table uses a different storage engine than the caller requires");
      tables = table.table ∷ [];
      facts = table;
    }
      ∷ later

unfoldable pub check_storage_engine : List TableInfo → Str → List (Finding TableInfo)
unfolding engine_findings
check_storage_engine found engine =
    engine_findings found (if is_empty engine then codes "InnoDB" else engine)
