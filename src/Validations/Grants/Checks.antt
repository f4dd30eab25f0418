-- ===== src/Validations/Grants/Checks.antt =====
-- pkg/validations/checks_privileges.go and checks_trigger_visibility.go.
pub mod Laws
use dbsgomysql.Prelude.{Bool, List, Str, [], codes, if◌then◌else◌, ◌++◌, ◌∷◌}
use dbsgomysql.Validations.Catalog.{
  Finding, finding_message, id_table_privileges, id_schema_privileges,
  id_trigger_metadata_visibility,
}
use dbsgomysql.Validations.Grants.Types.{
  GrantState, absent, unconfirmed, is_present, Privilege, trigger, Grants,
}
use dbsgomysql.Validations.Grants.State.{SchemaScanMemo, empty_memo, table_state, schema_privilege}

pub record PrivilegeFact : Type 0 where
  pub schema : Str
  pub table : Str
  pub privilege : Privilege
  pub state : GrantState

unfoldable pub privilege_finding_summary : Str → GrantState → Str
privilege_finding_summary scope absent = scope ++ codes " privilege is absent"
privilege_finding_summary scope unconfirmed = scope ++ codes " privilege is unconfirmed"
privilege_finding_summary scope _ = scope ++ codes " privilege state is unknown"

abbrev visibility_summary : Str
visibility_summary = codes "trigger metadata completeness is not established"

unfoldable pub trigger_visibility_summary : GrantState → Str
trigger_visibility_summary absent = visibility_summary ++ codes ": the TRIGGER privilege is absent"
trigger_visibility_summary unconfirmed =
    visibility_summary ++ codes ": the TRIGGER privilege is unconfirmed"
trigger_visibility_summary _ =
    visibility_summary ++ codes ": the TRIGGER privilege state is unknown"

abbrev pub table_finding :
    Str → (GrantState → Str) → Str → Str → Privilege → GrantState → Finding PrivilegeFact
table_finding id summary schema table priv state = record {
  check = id;
  message = finding_message id (summary state);
  tables = table ∷ [];
  facts = record { schema = schema; table = table; privilege = priv; state = state };
}

abbrev pub schema_finding : Str → Privilege → GrantState → Finding PrivilegeFact
schema_finding schema priv state = record {
  check = id_schema_privileges;
  message = finding_message id_schema_privileges (privilege_finding_summary (codes "schema") state);
  tables = [];
  facts = record { schema = schema; table = []; privilege = priv; state = state };
}

module _ (equal_fold : Str → Str → Bool) where
  -- The loop over the tables, which both table checks make: one memo serves all tables.
  table_findings :
      Str
      → (GrantState → Str)
      → Grants
      → Str
      → Privilege
      → SchemaScanMemo
      → List Str
      → List (Finding PrivilegeFact)
  table_findings id summary g schema priv memo [] = []
  table_findings id summary g schema priv memo (table ∷ tables) =
      let (state, memo') = table_state equal_fold g schema table priv memo in
      let rest = table_findings id summary g schema priv memo' tables in
      if is_present state then rest else table_finding id summary schema table priv state ∷ rest

  unfoldable pub check_table_privileges :
      Grants → Str → List Str → Privilege → List (Finding PrivilegeFact)
  unfolding table_findings
  check_table_privileges g schema tables priv =
      table_findings id_table_privileges (privilege_finding_summary (codes "table")) g schema priv
        empty_memo tables

  unfoldable pub check_trigger_visibility : Grants → Str → List Str → List (Finding PrivilegeFact)
  unfolding table_findings
  check_trigger_visibility g schema tables =
      table_findings id_trigger_metadata_visibility trigger_visibility_summary g schema trigger
        empty_memo tables

  unfoldable pub check_schema_privileges :
      Grants → Str → List Privilege → List (Finding PrivilegeFact)
  check_schema_privileges g schema [] = []
  check_schema_privileges g schema (priv ∷ privs) =
      let state = schema_privilege equal_fold g schema priv in
      let rest = check_schema_privileges g schema privs in
      if is_present state then rest else schema_finding schema priv state ∷ rest
