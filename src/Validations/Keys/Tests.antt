-- ===== src/Validations/Keys/Tests.antt =====
-- Runs of the checks over primary keys.
use dbsgomysql.Prelude.{
  All, List, Str, [], codes, false, list_eq, nat_eq, read, some, true, ◌==◌, ◌↔◌, ◌∷◌, ◌≡◌, ◌≢◌,
  ◌⊎◌,
}
use dbsgomysql.Validations.Spec.Fold.{fold_key}
use dbsgomysql.Validations.Keys.{
  pk_unknown, pk_none, PkInfo, pk_single, PkRow, primary_keys, check_pk_matches_expected,
  check_pk_name_case,
}
use dbsgomysql.Validations.Keys.Laws.{
  Classified, primary_keys-Classified, matches_or_name_case, check_pk_matches_expected-nil_iff,
}

abbrev log_key : PkInfo
log_key = record {
  table = codes "log";
  kind = pk_single;
  columns = codes "LOG_ID" ∷ [];
  data_type = codes "int";
  is_integer = true;
  unsigned = false;
}

abbrev wanted : List (Str × Str)
wanted = (codes "log", codes "log_id") ∷ []

abbrev log_rows : List PkRow
log_rows =
    record {
      table = codes "log";
      column = some (codes "LOG_ID");
      data_type = some (codes "int");
      column_type = some (codes "int unsigned");
    }
    ∷ []

matches_or_name_case_example :
    (check_pk_matches_expected (log_key ∷ []) wanted ≡ [])
    ⊎ (check_pk_name_case (log_key ∷ []) wanted ≡ [])
matches_or_name_case_example = matches_or_name_case log_key wanted

check_pk_matches_expected-nil_iff_example :
    (check_pk_matches_expected (log_key ∷ []) wanted ≡ []) ↔ (
      ((read [] (codes "log") wanted ≡ []) ⊎ (pk_single ≡ pk_none) ⊎ (pk_single ≡ pk_unknown))
      ⊎ ¬ All (λ c. fold_key c ≢ fold_key (read [] (codes "log") wanted)) (codes "LOG_ID" ∷ []))
check_pk_matches_expected-nil_iff_example = check_pk_matches_expected-nil_iff log_key wanted

abbrev one_field : Str → List Str
one_field s = s ∷ []

primary_keys-Classified_example :
    All Classified
      (primary_keys (λ s. s) one_field (λ a b. a == b) (codes "log" ∷ codes "gone" ∷ []) log_rows)
primary_keys-Classified_example =
    primary_keys-Classified (λ s. s) one_field (λ a b. a == b) (codes "log" ∷ codes "gone" ∷ [])
      log_rows
