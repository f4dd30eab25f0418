-- ===== src/Validations/Inspector.antt =====
-- pkg/validations/inspector.go and errors.go: the arguments of every read of facts. Reflection over
-- the querier is not modelled: an inspector carries what isNilQuerier answers.
pub mod Laws
use dbsgomysql.Prelude.{
  Bool, List, Option, Str, [], codes, if◌then◌else◌, is_empty, list_eq, nat_eq, none, not, some, ℕ,
  ◌++◌, ◌+◌, ◌∷◌,
}
use dbsgomysql.Sqlutil.{quote_identifier, quote_qualified}

pub record Inspector : Type 0 where
  pub nil_querier : Bool
  pub schema : Str

-- ErrNilQuerier, ErrEmptySchema, and ErrEmptyTableName with the index of the table.
pub data ArgumentError : Type 0 where
  err_nil_querier : ArgumentError
  err_empty_schema : ArgumentError
  err_empty_table_name : ℕ → ArgumentError

-- `Err` is of any type; each operation has its own.
pub record ObjectError (C : Type 0) : Type 0 where
  pub op : Str
  pub schema : Str
  pub table : Str
  pub err : C

abbrev pub new_object_error : {C : Type 0} → Str → Str → Str → C → ObjectError C
new_object_error op schema table err = record { op = op; schema = schema; table = table; err = err }

-- ObjectError.Error, from the text of the cause.
unfoldable pub object_error_text : {C : Type 0} → (C → Str) → ObjectError C → Str
object_error_text text e =
    if not (is_empty e.table)
    then codes "validations: "
      ++ e.op
      ++ codes " on "
      ++ quote_qualified (e.schema ∷ e.table ∷ [])
      ++ codes ": "
      ++ text e.err
    else if not (is_empty e.schema)
    then codes "validations: "
      ++ e.op
      ++ codes " in schema "
      ++ quote_identifier e.schema
      ++ codes ": "
      ++ text e.err
    else codes "validations: " ++ e.op ++ codes ": " ++ text e.err

-- The index, counted from `index`, of the first table without a name.
unfoldable pub first_empty : ℕ → List Str → Option ℕ
first_empty index [] = none
first_empty index (table ∷ tables) =
    let later = first_empty (index + 1) tables in if is_empty table then some index else later

-- The error of the arguments; `none` is a nil error.
unfoldable pub validate : Option Inspector → Str → List Str → Option (ObjectError ArgumentError)
unfolding first_empty
validate none op tables = some (new_object_error op [] [] err_nil_querier)
validate (some i) op tables =
    if i.nil_querier
    then some (new_object_error op i.schema [] err_nil_querier)
    else if is_empty i.schema
    then some (new_object_error op [] [] err_empty_schema)
    else elim (first_empty 0 tables) [
      | some index ↦ some (new_object_error op i.schema [] (err_empty_table_name index))
      | none ↦ none
    ]
