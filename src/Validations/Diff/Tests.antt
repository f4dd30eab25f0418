-- ===== src/Validations/Diff/Tests.antt =====
-- Runs of the comparison of two tables.
use dbsgomysql.Prelude.{
  Bool, List, Str, [], bool_beq, codes, contains, false, list_beq, map, refl, some, true, ℕ, ◌↔◌,
  ◌∷◌, ◌≡◌,
}
use dbsgomysql.Validations.Spec.{
  ColumnSpec, IndexSpec, ConstraintSpec, constraint_check, generated_none, TableSpec,
}
use dbsgomysql.Validations.Spec.Fold.{ascii_fold_equal, fold_key, ascii_fold_equal_iff}
use dbsgomysql.Validations.Diff.Types.{
  column_name_case_mismatch, column_order_mismatch, column_absent, reported,
}
use dbsgomysql.Validations.Spec.Index.{
  get, at, is_excluded, fold_collisions, enter, new_folded_index, lookup,
}
use dbsgomysql.Validations.Spec.Index.Laws.{distinct}
use dbsgomysql.Validations.Diff.Matching.{match_each, unmatched}
use dbsgomysql.Validations.Diff.Columns.{
  insert_column, sort_columns, same_default, diff_matched_columns, diff_column_pair, diff_columns,
}
use dbsgomysql.Validations.Diff.Indexes.{diff_index_pair}
use dbsgomysql.Validations.Diff.Tables.{diff_specs}
use dbsgomysql.Validations.Diff.Tables.Fields.{
  SameColumn, diff_column_pair-nil_iff, SameIndex, diff_index_pair-nil_iff,
}
use dbsgomysql.Validations.Diff.Tables.Laws.{SameTable, diff_specs-SameTable, diff_specs-own}

abbrev column : Str → ℕ → ColumnSpec
column name ordinal = record {
  name = name;
  ordinal = ordinal;
  type = codes "int(11)";
  normalized_type = codes "int";
  nullable = false;
  charset = [];
  collation = [];
  default = some (codes "0");
  default_is_expression = false;
  extra = [];
  invisible = false;
  generated = generated_none;
  generation_expr = [];
  auto_increment = false;
  on_update = false;
}

abbrev index_on : Str → Str → IndexSpec
index_on name key = record {
  name = name;
  parts = record { column = key; expression = []; sub_part = 0; descending = false } ∷ [];
  unique = false;
  type = codes "BTREE";
  visible = true;
}

abbrev positive : ConstraintSpec
positive = record {
  name = codes "positive";
  kind = constraint_check;
  check_clause = codes "(`id` > 0)";
  enforced = true;
  columns = [];
  ref_schema = [];
  ref_table = [];
  ref_columns = [];
  update_rule = [];
  delete_rule = [];
}

abbrev with_columns : List ColumnSpec → Bool → TableSpec
with_columns columns captured = record {
  schema = codes "app";
  table = codes "orders";
  engine = codes "InnoDB";
  charset = codes "utf8mb4";
  collation = codes "utf8mb4_bin";
  comment = [];
  columns = columns;
  indexes = index_on (codes "by_id") (codes "id") ∷ [];
  constraints = positive ∷ [];
  captured = record { indexes = captured; constraints = captured; comment = captured };
}

abbrev orders : TableSpec
orders = with_columns (column (codes "id") 1 ∷ column (codes "state") 2 ∷ []) true

ascii_fold_equal_iff_example :
    (ascii_fold_equal (codes "Log_ID") (codes "log_id") ≡ true)
    ↔ (fold_key (codes "Log_ID") ≡ fold_key (codes "log_id"))
ascii_fold_equal_iff_example = ascii_fold_equal_iff (codes "Log_ID") (codes "log_id")

diff_column_pair-nil_iff_example :
    (diff_column_pair (column (codes "id") 1) (column (codes "id") 2) ≡ [])
    ↔ SameColumn (column (codes "id") 1) (column (codes "id") 2)
diff_column_pair-nil_iff_example =
    diff_column_pair-nil_iff (column (codes "id") 1) (column (codes "id") 2)

diff_index_pair-nil_iff_example :
    (diff_index_pair (index_on (codes "i") (codes "id")) (index_on (codes "i") (codes "ID")) ≡ [])
    ↔ SameIndex (index_on (codes "i") (codes "id")) (index_on (codes "i") (codes "ID"))
diff_index_pair-nil_iff_example =
    diff_index_pair-nil_iff (index_on (codes "i") (codes "id")) (index_on (codes "i") (codes "ID"))

orders_alike : diff_specs orders orders ≡ []
unfolding distinct contains list_beq
orders_alike = diff_specs-own orders refl refl refl refl

diff_specs-SameTable_example : SameTable orders orders
diff_specs-SameTable_example = diff_specs-SameTable orders orders orders_alike

diff_specs-own_example : diff_specs orders orders ≡ []
unfolding distinct contains list_beq
diff_specs-own_example = diff_specs-own orders refl refl refl refl

case_and_order :
    map
      (λ d. d.kind)
      (diff_columns
        (column (codes "ID") 1 ∷ [])
        (column (codes "id") 2 ∷ column (codes "x") 1 ∷ []))
    ≡ column_name_case_mismatch ∷ column_order_mismatch ∷ column_absent ∷ []
unfolding diff_columns diff_matched_columns diff_column_pair same_default sort_columns insert_column
    match_each unmatched fold_collisions new_folded_index enter is_excluded lookup get at fold_key
    reported contains list_beq bool_beq
case_and_order = refl
