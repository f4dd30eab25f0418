-- ===== src/Validations/ForeignKeys/Registry.antt =====
-- pkg/validations/foreign_keys.go: the rows of INNODB_FOREIGN joined with INNODB_FOREIGN_COLS. A
-- position counts rows in memory, so the code's increment of it does not wrap.
pub mod Rules
pub mod Names
pub mod RoundTrip
use dbsgomysql.Prelude.{
  Bool, List, Option, Str, [], codes, false, if◌then◌else◌, is_empty, length, list_eq, nat_eq, none,
  not, some, true, ℕ, ◌%◌, ◌*◌, ◌++◌, ◌+◌, ◌/◌, ◌==◌, ◌||◌, ◌∷◌,
}
use dbsgomysql.Golang.Sql.{Result, ok, fail, ◌>>=◌, ◌>>◌, refuse, Rows, end, row, bad_row}
use dbsgomysql.Golang.Strings.{cut_byte}
use dbsgomysql.Validations.ForeignKeys.Types.{
  ForeignKey, FkError, scan_row, iterate_rows, inconsistent, bad_position, no_separator,
  schema_differs, bad_column_count, unknown_flags, exclusive_flags,
}

-- `flags&flag` for a flag that is a power of two, as the test of that bit.
abbrev pub has_flag : ℕ → ℕ → Bool
has_flag flags flag = flags / flag % 2 == 1

abbrev pub restrict_rule : Str
restrict_rule = codes "RESTRICT"

abbrev pub cascade_rule : Str
cascade_rule = codes "CASCADE"

abbrev pub set_null_rule : Str
set_null_rule = codes "SET NULL"

abbrev pub no_action_rule : Str
no_action_rule = codes "NO ACTION"

-- The loop over the choices: `found` is whether a flag was met, `rule` the rule of it.
choose_rule : ℕ → List (ℕ × Str) → Str → Bool → Result FkError Str
choose_rule flags [] rule found = ok rule
choose_rule flags ((flag, text) ∷ choices) rule found =
    let passed = choose_rule flags choices rule found in
    let taken = choose_rule flags choices text true in
    if not (has_flag flags flag)
    then passed
    else if found
    then fail (exclusive_flags flags)
    else taken

unfoldable pub decode_foreign_key_rule : ℕ → List (ℕ × Str) → Result FkError Str
unfolding choose_rule
decode_foreign_key_rule flags choices = choose_rule flags choices restrict_rule false

-- `flags &^ knownFlags` is `flags / 64 * 64`: the known flags are the six lowest bits.
unfoldable pub decode_innodb_rules : ℕ → Result FkError (Str × Str)
unfolding decode_foreign_key_rule
decode_innodb_rules flags =
    if not (flags / 64 * 64 == 0) then fail (unknown_flags (flags / 64 * 64)) else do
      delete_rule ←
          decode_foreign_key_rule flags
            ((1, cascade_rule) ∷ (2, set_null_rule) ∷ (16, no_action_rule) ∷ [])
      update_rule ←
          decode_foreign_key_rule flags
            ((4, cascade_rule) ∷ (8, set_null_rule) ∷ (32, no_action_rule) ∷ [])
      ok (delete_rule, update_rule)

abbrev pub slash : ℕ
slash = 47

abbrev parts_of : Str → Option (Str × Str) → Result FkError (Str × Str)
parts_of value none = fail (no_separator value)
parts_of value (some (left, right)) =
    if is_empty left || is_empty right then fail (no_separator value) else ok (left, right)

unfoldable pub split_innodb_name : Str → Result FkError (Str × Str)
split_innodb_name value = parts_of value (cut_byte slash value)

pub record InnodbRow : Type 0 where
  pub id : Str
  pub for_name : Str
  pub ref_name : Str
  pub column_count : ℕ
  pub flags : ℕ
  pub child_column : Str
  pub parent_column : Str
  pub position : ℕ

-- innoDBForeignKeyGroup
pub record Group : Type 0 where
  pub id : Str
  pub for_name : Str
  pub ref_name : Str
  pub column_count : ℕ
  pub flags : ℕ
  pub child_columns : List Str
  pub parent_columns : List Str
  pub next_position : ℕ

unfoldable pub foreign_key : Group → Result FkError ForeignKey
unfolding split_innodb_name decode_innodb_rules
foreign_key g = do
  (constraint_schema, constraint_name) ← split_innodb_name g.id
  (child_schema, child_table) ← split_innodb_name g.for_name
  (parent_schema, parent_table) ← split_innodb_name g.ref_name
  refuse (not (constraint_schema == child_schema)) (schema_differs g.id)
  refuse ((g.column_count == 0) || not (length g.child_columns == g.column_count))
      (bad_column_count g.id (length g.child_columns) g.column_count)
  (delete_rule, update_rule) ← decode_innodb_rules g.flags
  ok (record {
    constraint_name = constraint_name;
    child_schema = child_schema;
    child_table = child_table;
    child_columns = g.child_columns;
    parent_schema = parent_schema;
    parent_table = parent_table;
    parent_columns = g.parent_columns;
    on_delete = delete_rule;
    on_update = update_rule;
    indexed = true;
  })

abbrev pub new_group : InnodbRow → Group
new_group r = record {
  id = r.id;
  for_name = r.for_name;
  ref_name = r.ref_name;
  column_count = r.column_count;
  flags = r.flags;
  child_columns = [];
  parent_columns = [];
  next_position = 1;
}

-- The fact of the current group behind those before it.
unfoldable pub finish : List ForeignKey → Option Group → Result FkError (List ForeignKey)
unfolding foreign_key
finish keys none = ok keys
finish keys (some g) = foreign_key g >>= λ key. ok (keys ++ key ∷ [])

-- The group that a row belongs to, and the facts of the groups before it.
unfoldable pub open_group :
    List ForeignKey → Option Group → InnodbRow → Result FkError (List ForeignKey × Group)
unfolding finish
open_group keys none r = ok (keys, new_group r)
open_group keys (some g) r =
    if g.id == r.id then ok (keys, g) else finish keys (some g) >>= λ keys'. ok (keys', new_group r)

-- The checks of a row against its group, and the columns that it adds.
unfoldable pub add_row : Group → InnodbRow → Result FkError Group
add_row g r =
    if not (g.for_name == r.for_name)
      || not (g.ref_name == r.ref_name)
      || not (g.column_count == r.column_count)
      || not (g.flags == r.flags)
    then fail (inconsistent r.id)
    else if not (r.position == g.next_position)
    then fail (bad_position r.id r.position g.next_position)
    else ok (record g {
      child_columns = g.child_columns ++ r.child_column ∷ [];
      parent_columns = g.parent_columns ++ r.parent_column ∷ [];
      next_position = g.next_position + 1;
    })

unfoldable pub scan_rows :
    List ForeignKey → Option Group → Rows InnodbRow → Result FkError (List ForeignKey)
scan_rows keys current (end none) = finish keys current
scan_rows keys current (end (some e)) = fail (iterate_rows e)
scan_rows keys current (bad_row e) = fail (scan_row e)
scan_rows keys current (row r rows) = open_group keys current r >>= λ opened.
    add_row opened.1 r >>= λ g. scan_rows opened.0 (some g) rows

unfoldable pub scan_innodb_foreign_keys : Rows InnodbRow → Result FkError (List ForeignKey)
unfolding scan_rows
scan_innodb_foreign_keys rows = scan_rows [] none rows
