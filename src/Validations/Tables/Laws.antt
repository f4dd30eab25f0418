-- ===== src/Validations/Tables/Laws.antt =====
-- pkg/validations/tables.go: which requests the check on existence passes.
use dbsgomysql.Prelude.{
  All, Any, List, Str, [], arith, contains, eq_iff, list_eq, map, nat_eq, refl, true, ◌↔◌, ◌∷◌, ◌≡◌,
}
use dbsgomysql.Validations.Tables.{TableInfo, check_tables_exist}

contains-Any :
    (table : Str) (found : List TableInfo)
    → (contains table (map (λ info. info.table) found) ≡ true)
      ↔ Any (λ info. info.table ≡ table) found
unfolding contains
contains-Any table [] = ground arith
contains-Any table (info ∷ found) =
    ground (arith, eq_iff table info.table, contains-Any table found)

-- Nothing is reported if and only if each requested name is that of a fact, in its exact spelling.
check_tables_exist-nil_iff :
    (requested : List Str) (found : List TableInfo)
    → (check_tables_exist requested found ≡ [])
      ↔ All (λ table. Any (λ info. info.table ≡ table) found) requested
unfolding check_tables_exist
check_tables_exist-nil_iff [] found = (λ _. tt, λ _. refl)
check_tables_exist-nil_iff (table ∷ requested) found =
    ground (arith, contains-Any table found, check_tables_exist-nil_iff requested found)
