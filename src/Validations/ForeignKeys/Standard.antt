-- ===== src/Validations/ForeignKeys/Standard.antt =====
-- pkg/validations/foreign_keys.go: the fallback. KEY_COLUMN_USAGE gives the keys and STATISTICS the
-- indexes that support them. A position counts rows in memory, so its increment does not wrap.
pub mod Batches
pub mod Prefixes
pub mod Agreement
use dbsgomysql.Prelude.{
  modify, Bool, Eq, List, Option, Str, [], any, arith, contains, drop, eq_iff, false, if◌then◌else◌,
  length, list_eq, ltb, map, nat_eq, none, not, read, some, suc, true, zero, ℕ, ◌&&◌, ◌++◌, ◌+◌,
  ◌/◌, ◌==◌, ◌↔◌, ◌∷◌, ◌≡◌,
}
use dbsgomysql.Golang.Sql.{
  Result, ok, fail, ◌>>=◌, Rows, end, row, bad_row, Query, rejected, answered,
}
use dbsgomysql.Validations.Predicate.{max_statement_parameters}
use dbsgomysql.Validations.ForeignKeys.Types.{
  ForeignKey, FkError, scan_row, iterate_rows, inconsistent, bad_position, query_indexes,
  scan_index, bad_index_position, iterate_indexes,
}

pub record StandardRow : Type 0 where
  pub child_schema : Str
  pub child_table : Str
  pub constraint_name : Str
  pub child_column : Str
  pub parent_schema : Str
  pub parent_table : Str
  pub parent_column : Str
  pub on_delete : Str
  pub on_update : Str
  pub position : ℕ

-- standardForeignKeyGroup
pub record StandardGroup : Type 0 where
  pub key : Str
  pub fact : ForeignKey
  pub next_position : ℕ

abbrev pub group_key : StandardRow → Str
group_key r = r.child_schema ++ 0 ∷ r.constraint_name

abbrev pub new_standard_group : StandardRow → StandardGroup
new_standard_group r = record {
  key = group_key r;
  fact = record {
    constraint_name = r.constraint_name;
    child_schema = r.child_schema;
    child_table = r.child_table;
    child_columns = [];
    parent_schema = r.parent_schema;
    parent_table = r.parent_table;
    parent_columns = [];
    on_delete = r.on_delete;
    on_update = r.on_update;
    indexed = false;
  };
  next_position = 1;
}

abbrev pub finished : List ForeignKey → Option StandardGroup → List ForeignKey
finished keys none = keys
finished keys (some g) = keys ++ g.fact ∷ []

-- The facts of the groups before a row, and the row's group.
unfoldable pub standard_group :
    List ForeignKey → Option StandardGroup → StandardRow → List ForeignKey × StandardGroup
standard_group keys none r = (keys, new_standard_group r)
standard_group keys (some g) r =
    if g.key == group_key r then (keys, g) else (finished keys (some g), new_standard_group r)

-- The scalar fields of the row are those of the group.
abbrev pub consistent : ForeignKey → StandardRow → Bool
consistent fact r =
    fact.child_schema == r.child_schema
    && fact.child_table == r.child_table
    && fact.constraint_name == r.constraint_name
    && fact.parent_schema == r.parent_schema
    && fact.parent_table == r.parent_table
    && fact.on_delete == r.on_delete
    && fact.on_update == r.on_update

unfoldable pub add_standard_row : StandardGroup → StandardRow → Result FkError StandardGroup
add_standard_row g r =
    if not (consistent g.fact r)
    then fail (inconsistent r.constraint_name)
    else if not (r.position == g.next_position)
    then fail (bad_position r.constraint_name r.position g.next_position)
    else ok (record g {
      fact = record g.fact {
        child_columns = g.fact.child_columns ++ r.child_column ∷ [];
        parent_columns = g.fact.parent_columns ++ r.parent_column ∷ [];
      };
      next_position = g.next_position + 1;
    })

unfoldable pub scan_standard :
    List ForeignKey → Option StandardGroup → Rows StandardRow → Result FkError (List ForeignKey)
unfolding standard_group add_standard_row
scan_standard keys current (end none) = ok (finished keys current)
scan_standard keys current (end (some e)) = fail (iterate_rows e)
scan_standard keys current (bad_row e) = fail (scan_row e)
scan_standard keys current (row r rows) =
    let (keys', opened) = standard_group keys current r in
    add_standard_row opened r >>= λ g. scan_standard keys' (some g) rows

unfoldable pub scan_standard_foreign_keys : Rows StandardRow → Result FkError (List ForeignKey)
unfolding scan_standard
scan_standard_foreign_keys rows = scan_standard [] none rows

pub record TableIdentity : Type 0 where
  pub schema : Str
  pub table : Str

abbrev pub identity_beq : TableIdentity → TableIdentity → Bool
identity_beq a b = a.schema == b.schema && a.table == b.table

pub identity_beq_iff : (a b : TableIdentity) → (identity_beq a b ≡ true) ↔ (a ≡ b)
identity_beq_iff a b = ground (arith, eq_iff a.schema b.schema, eq_iff a.table b.table)

instance abbrev pub identity_eq : Eq TableIdentity
identity_eq = record { beq = identity_beq; beq_iff = identity_beq_iff }

abbrev pub child_of : ForeignKey → TableIdentity
child_of key = record { schema = key.child_schema; table = key.child_table }

-- The child tables, each once, in order.
unfoldable pub distinct_children : List ForeignKey → List TableIdentity → List TableIdentity
distinct_children [] pairs = pairs
distinct_children (key ∷ keys) pairs =
    distinct_children keys
      (if contains (child_of key) pairs then pairs else pairs ++ child_of key ∷ [])

abbrev pub take : ℕ → List TableIdentity → List TableIdentity
take zero xs = []
take (suc n) [] = []
take (suc n) (x ∷ xs) = x ∷ take n xs

-- The slices of the loop over `start`, on fuel.
unfoldable pub batches : ℕ → ℕ → List TableIdentity → List (List TableIdentity)
batches zero size pairs = []
batches (suc fuel) size [] = []
batches (suc fuel) size (p ∷ pairs) =
    let rest = batches fuel size (drop size (p ∷ pairs)) in take size (p ∷ pairs) ∷ rest

pub record IndexRow : Type 0 where
  pub schema : Str
  pub table : Str
  pub index : Str
  pub column : Option Str
  pub position : ℕ

abbrev pub IndexMap : Type 0
IndexMap = List (TableIdentity × List (Str × List Str))

-- column.String: a NULL part is recorded as the empty text.
abbrev pub column_text : Option Str → Str
column_text none = []
column_text (some column) = column

unfoldable pub add_index_row : IndexMap → IndexRow → Result FkError IndexMap
add_index_row m r =
    let identity : TableIdentity = record { schema = r.schema; table = r.table } in
    let columns = read [] r.index (read [] identity m) in
    if not (r.position == length columns + 1)
    then fail (bad_index_position r.index r.position (length columns + 1))
    else ok (modify [] (modify [] (λ _. columns ++ column_text r.column ∷ []) r.index) identity m)

unfoldable pub scan_indexes : IndexMap → Rows IndexRow → Result FkError IndexMap
unfolding add_index_row
scan_indexes m (end none) = ok m
scan_indexes m (end (some e)) = fail (iterate_indexes e)
scan_indexes m (bad_row e) = fail (scan_index e)
scan_indexes m (row r rows) = add_index_row m r >>= λ m'. scan_indexes m' rows

unfoldable pub read_fallback_indexes : Query IndexRow → IndexMap → Result FkError IndexMap
unfolding scan_indexes
read_fallback_indexes (rejected e) m = fail (query_indexes e)
read_fallback_indexes (answered rows) m = scan_indexes m rows

-- The columns are the first of the index, one by one.
starts_with : List Str → List Str → Bool
starts_with [] index = true
starts_with (c ∷ columns) [] = true
starts_with (c ∷ columns) (i ∷ index) = i == c && starts_with columns index

unfoldable pub foreign_key_columns_indexed : List Str → List (List Str) → Bool
unfolding starts_with
foreign_key_columns_indexed columns indexes =
    if length columns == 0
    then false
    else any (λ index. not (ltb (length index) (length columns)) && starts_with columns index)
        indexes

-- keys[index].Indexed, from the indexes of the child table.
abbrev pub with_support : IndexMap → ForeignKey → ForeignKey
with_support m k = record k {
  indexed =
      foreign_key_columns_indexed k.child_columns (map (λ entry. entry.1) (read [] (child_of k) m));
}

-- Two parameters for each pair.
abbrev pub batch_size : ℕ
batch_size = max_statement_parameters / 2

module _ (indexes_of : List TableIdentity → Query IndexRow) where
  unfoldable pub read_batches : List (List TableIdentity) → IndexMap → Result FkError IndexMap
  unfolding read_fallback_indexes
  read_batches [] m = ok m
  read_batches (pairs ∷ rest) m =
      read_fallback_indexes (indexes_of pairs) m >>= λ m'. read_batches rest m'

  unfoldable pub populate_fallback_indexes : List ForeignKey → Result FkError (List ForeignKey)
  unfolding distinct_children batches read_batches foreign_key_columns_indexed
  populate_fallback_indexes [] = ok []
  populate_fallback_indexes (key ∷ keys) =
      let pairs = distinct_children (key ∷ keys) [] in
      read_batches (batches (length pairs) batch_size pairs) [] >>= λ m.
      ok (map (with_support m) (key ∷ keys))
