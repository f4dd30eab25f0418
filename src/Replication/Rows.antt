-- ===== src/Replication/Rows.antt =====
-- pkg/replication/errors.go and the readers of a result set that replica_status.go declares and the
-- other facts share.
pub mod Laws
use dbsgomysql.Prelude.{
  Bool, List, Option, Str, [], false, if◌then◌else◌, length, list_eq, nat_eq, none, some,
  some_entry, suc, true, zero, ℕ, ◌++◌, ◌+◌, ◌==◌, ◌∷◌,
}
use dbsgomysql.Golang.Sql.{Result, ok, fail, Rows, end, row, bad_row}
use dbsgomysql.Replication.Decode.{DriverValue, null, DecodeError}

-- The causes of an error, one constructor for each format of the code.
pub data Cause : Type 0 where
  err_nil_querier : Cause
  err_missing_column : Cause
  err_multiple_rows : Cause
  driver_error : Str → Cause
  decode_error : DecodeError → Cause
  of_member : Str → Cause → Cause
  at_statement : Str → Str → Cause
  joined : Cause → Cause → Cause

pub record OpError : Type 0 where
  pub op : Str
  pub channel : Str
  pub column : Str
  pub err : Cause

abbrev pub new_op_error : Str → Str → Str → Cause → OpError
new_op_error op channel column err = record {
  op = op;
  channel = channel;
  column = column;
  err = err;
}

-- What `*sql.Rows` yields: the names of the columns, the rows, and the result of closing it. A row
-- has a value for each column.
pub record ResultSet : Type 0 where
  pub columns : Result Str (List Str)
  pub rows : Rows (List DriverValue)
  pub close_error : Option Str

-- columnIndex
pub record ColumnIndex : Type 0 where
  pub positions : List (Str × ℕ)
  pub width : ℕ

-- The first position of each name, counted from `position`.
unfoldable pub index_names : ℕ → List Str → List (Str × ℕ) → List (Str × ℕ)
index_names position [] m = m
index_names position (name ∷ names) m =
    index_names (position + 1) names
      (if some_entry (λ k _. k == name) m then m else m ++ (name, position) ∷ [])

unfoldable pub position_of : Str → List (Str × ℕ) → Option ℕ
position_of name [] = none
position_of name ((k, p) ∷ m) = if k == name then some p else position_of name m

-- The first promised name that the index does not have.
unfoldable pub missing : List Str → List (Str × ℕ) → Option Str
unfolding position_of
missing [] m = none
missing (name ∷ promised) m =
    let later = missing promised m in
    elim (position_of name m) [ none ↦ some name | some _ ↦ later ]

unfoldable pub index_columns : Str → ResultSet → List Str → Result OpError ColumnIndex
unfolding index_names missing
index_columns op result promised = elim result.columns [
  | fail e ↦ fail (new_op_error op [] [] (driver_error e))
  | ok names ↦ elim (missing promised (index_names 0 names [])) [
    | some name ↦ fail (new_op_error op [] name err_missing_column)
    | none ↦ ok (record { positions = index_names 0 names []; width = length names })
  ]
]

-- values[position], of a buffer that Scan has filled.
unfoldable pub value_at : ℕ → List DriverValue → DriverValue
value_at position [] = null
value_at zero (v ∷ values) = v
value_at (suc position) (v ∷ values) = value_at position values

pub record RowDecoder : Type 0 where
  pub op : Str
  pub channel : Str
  pub index : ColumnIndex
  pub values : List DriverValue

unfoldable pub decode_column :
    {T : Type 0} → RowDecoder → Str → (DriverValue → Result DecodeError T) → Result OpError T
unfolding position_of value_at
decode_column r column decode = elim (position_of column r.index.positions) [
  | none ↦ fail (new_op_error r.op r.channel column err_missing_column)
  | some position ↦ elim (decode (value_at position r.values)) [
    | ok decoded ↦ ok decoded
    | fail e ↦ fail (new_op_error r.op r.channel column (decode_error e))
  ]
]

-- decodeField, for the value of a system variable.
unfoldable pub decode_field :
    {T : Type 0} → Str → Str → DriverValue → (DriverValue → Result DecodeError T) → Result OpError T
decode_field op column raw decode = elim (decode raw) [
  | ok decoded ↦ ok decoded
  | fail e ↦ fail (new_op_error op [] column (decode_error e))
]

-- The loop over the rows, which the facts of several rows share.
unfoldable pub read_rows :
    {T : Type 0}
    → Str
    → (List DriverValue → Result OpError T)
    → List T
    → Rows (List DriverValue)
    → Result OpError (List T)
read_rows op decode facts (end none) = ok facts
read_rows op decode facts (end (some e)) = fail (new_op_error op [] [] (driver_error e))
read_rows op decode facts (bad_row e) = fail (new_op_error op [] [] (driver_error e))
read_rows op decode facts (row values rows) = elim (decode values) [
  | fail e ↦ fail e
  | ok fact ↦ read_rows op decode (facts ++ fact ∷ []) rows
]

-- The deferred Close: its error counts only behind a success.
unfoldable pub closed : {T : Type 0} → Str → ResultSet → Result OpError T → Result OpError T
closed op result (fail e) = fail e
closed op result (ok t) = elim result.close_error [
  | none ↦ ok t
  | some e ↦ fail (new_op_error op [] [] (driver_error e))
]

-- A fact of several rows, each decoded behind the index of the promised columns.
unfoldable pub parse_rows :
    {T : Type 0}
    → Str
    → List Str
    → (ColumnIndex → List DriverValue → Result OpError T)
    → ResultSet
    → Result OpError (List T)
unfolding index_columns read_rows closed
parse_rows op promised decode result = closed op result (elim (index_columns op result promised) [
  | fail e ↦ fail e
  | ok index ↦ read_rows op (decode index) [] result.rows
])

-- Inspector.validate and QueryContext, in front of the parser.
unfoldable pub query_fact :
    {T : Type 0}
    → Str
    → Bool
    → Result Str ResultSet
    → (ResultSet → Result OpError T)
    → Result OpError T
query_fact op true answer parse = fail (new_op_error op [] [] err_nil_querier)
query_fact op false (fail e) parse = fail (new_op_error op [] [] (driver_error e))
query_fact op false (ok result) parse = parse result
