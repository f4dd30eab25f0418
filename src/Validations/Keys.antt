-- ===== src/Validations/Keys.antt =====
-- pkg/validations/checks_pk.go: primary keys, behind the query, and the checks over them. The
-- functions strings.ToLower, strings.Fields and strings.EqualFold are parameters.
mod Laws
mod Tests
use dbsgomysql.Prelude.{
  modify, Bool, List, Option, Str, [], any, codes, contains, false, if◌then◌else◌, is_empty,
  list_eq, nat_eq, none, not, read, some, some_entry, true, ◌&&◌, ◌++◌, ◌==◌, ◌||◌, ◌∷◌,
}
use dbsgomysql.Validations.Catalog.{
  Finding, finding_message, id_pk_exists, id_pk_integer_type, id_pk_matches_expected,
  id_pk_name_case, id_pk_single_column,
}
use dbsgomysql.Validations.Spec.Fold.{ascii_fold_equal}

pub data PkKind : Type 0 where
  pk_unknown : PkKind
  pk_none : PkKind
  pk_single : PkKind
  pk_composite : PkKind

pub record PkInfo : Type 0 where
  pub table : Str
  pub kind : PkKind
  pub columns : List Str
  pub data_type : Str
  pub is_integer : Bool
  pub unsigned : Bool

-- A row of the result; a `none` is NULL.
pub record PkRow : Type 0 where
  pub table : Str
  pub column : Option Str
  pub data_type : Option Str
  pub column_type : Option Str

module _ (to_lower : Str → Str) (fields : Str → List Str) (equal_fold : Str → Str → Bool) where
  unfoldable pub is_integer_data_type : Str → Bool
  is_integer_data_type data_type = contains (to_lower data_type) (
      codes "tinyint"
      ∷ codes "smallint"
      ∷ codes "mediumint"
      ∷ codes "int"
      ∷ codes "integer"
      ∷ codes "bigint"
      ∷ [])

  unfoldable pub contains_unsigned : Str → Bool
  contains_unsigned column_type = any (λ f. equal_fold f (codes "unsigned")) (fields column_type)

  -- What a row adds to the key of its table.
  unfoldable pub add_pk_column : PkRow → PkInfo → PkInfo
  unfolding contains_unsigned
  add_pk_column r pk = elim r.column [
    | none ↦ pk
    | some column ↦ record pk {
      columns = pk.columns ++ column ∷ [];
      data_type = elim r.data_type [ none ↦ pk.data_type | some t ↦ t ];
      unsigned = elim r.column_type [ none ↦ pk.unsigned | some t ↦ contains_unsigned t ];
    }
  ]

  abbrev pub new_pk : Str → PkInfo
  new_pk table = record {
    table = table;
    kind = pk_none;
    columns = [];
    data_type = [];
    is_integer = false;
    unsigned = false;
  }

  -- The loop over the rows.
  unfoldable pub collect_pks : List PkRow → List (Str × PkInfo) → List (Str × PkInfo)
  unfolding add_pk_column
  collect_pks [] by_table = by_table
  collect_pks (r ∷ rows) by_table =
      collect_pks rows (modify (new_pk r.table) (add_pk_column r) r.table by_table)

  -- The switch on the number of columns.
  unfoldable pub classify_pk : PkInfo → PkInfo
  unfolding is_integer_data_type
  classify_pk pk = elim pk.columns [
    | [] ↦ record pk { kind = pk_none; data_type = []; unsigned = false }
    | _ ∷ [] ↦ record pk { kind = pk_single; is_integer = is_integer_data_type pk.data_type }
    | _ ∷ _ ∷ _ ↦ record pk {
      kind = pk_composite;
      data_type = [];
      is_integer = false;
      unsigned = false;
    }
  ]

  -- The facts of the requested tables that the map has.
  unfoldable pub requested_pks : List Str → List (Str × PkInfo) → List PkInfo
  unfolding classify_pk
  requested_pks [] by_table = []
  requested_pks (table ∷ tables) by_table =
      let later = requested_pks tables by_table in
      let pk = read (new_pk table) table by_table in
      if some_entry (λ k _. k == table) by_table then classify_pk pk ∷ later else later

  -- PrimaryKeys, from the rows that the query returned.
  unfoldable pub primary_keys : List Str → List PkRow → List PkInfo
  unfolding collect_pks requested_pks
  primary_keys tables rows = requested_pks tables (collect_pks rows [])

abbrev pub pk_finding : Str → Str → PkInfo → Finding PkInfo
pk_finding id message pk = record {
  check = id;
  message = finding_message id message;
  tables = pk.table ∷ [];
  facts = pk;
}

abbrev pub is_none : PkKind → Bool
is_none pk_none = true
is_none _ = false

abbrev pub is_single : PkKind → Bool
is_single pk_single = true
is_single _ = false

abbrev pub is_composite : PkKind → Bool
is_composite pk_composite = true
is_composite _ = false

abbrev pub is_unknown : PkKind → Bool
is_unknown pk_unknown = true
is_unknown _ = false

-- One finding for each key that fails the test, in order.
unfoldable pub findings_of :
    (PkInfo → Bool) → (PkInfo → Finding PkInfo) → List PkInfo → List (Finding PkInfo)
findings_of bad finding [] = []
findings_of bad finding (pk ∷ pks) =
    let rest = findings_of bad finding pks in if bad pk then finding pk ∷ rest else rest

unfoldable pub check_pk_exists : List PkInfo → List (Finding PkInfo)
unfolding findings_of
check_pk_exists pks =
    findings_of (λ pk. is_none pk.kind) (pk_finding id_pk_exists (codes "table has no primary key"))
      pks

unfoldable pub check_pk_single_column : List PkInfo → List (Finding PkInfo)
unfolding findings_of
check_pk_single_column pks =
    findings_of (λ pk. is_composite pk.kind)
      (pk_finding id_pk_single_column (codes "table has a composite primary key")) pks

unfoldable pub matches_pk_column : List Str → Str → Bool
matches_pk_column columns expected =
    any (λ column. column == expected || ascii_fold_equal column expected) columns

unfoldable pub has_case_only_pk_column : List Str → Str → Bool
has_case_only_pk_column columns expected =
    any (λ column. not (column == expected) && ascii_fold_equal column expected) columns

-- `want == "" || pk.Kind == PKNone || pk.Kind == PKUnknown`
abbrev pub passed_over : Str → PkInfo → Bool
passed_over want pk = is_empty want || is_none pk.kind || is_unknown pk.kind

unfoldable pub check_pk_matches_expected : List PkInfo → List (Str × Str) → List (Finding PkInfo)
unfolding findings_of matches_pk_column
check_pk_matches_expected pks expected =
    findings_of
      (λ pk.
        let want = read [] pk.table expected in
        not (passed_over want pk) && not (matches_pk_column pk.columns want))
      (pk_finding id_pk_matches_expected
        (codes "expected column is not part of the table's primary key"))
      pks

unfoldable pub check_pk_name_case : List PkInfo → List (Str × Str) → List (Finding PkInfo)
unfolding findings_of has_case_only_pk_column
check_pk_name_case pks expected =
    findings_of
      (λ pk.
        let want = read [] pk.table expected in
        not (passed_over want pk) && has_case_only_pk_column pk.columns want)
      (pk_finding id_pk_name_case
        (codes "expected primary-key column differs from the server's spelling only in ASCII case"))
      pks

unfoldable pub check_pk_integer_type : List PkInfo → List (Finding PkInfo)
unfolding findings_of
check_pk_integer_type pks =
    findings_of (λ pk. is_single pk.kind && not pk.is_integer)
      (pk_finding id_pk_integer_type (codes "single-column primary key is not an integer type")) pks
