-- ===== src/Validations/Grants/Checks/Laws.antt =====
-- The privilege checks report exactly the objects whose privilege is not established.
use dbsgomysql.Prelude.{
  All, Bool, Bool-cases, List, Str, [], arith, codes, if◌then◌else◌, inl, inr, list_eq, nat_eq,
  refl, sym, true, ◌↔◌, ◌∙◌, ◌∷◌, ◌≡◌,
}
use dbsgomysql.Validations.Catalog.{Finding, id_table_privileges, id_trigger_metadata_visibility}
use dbsgomysql.Validations.Grants.Types.{
  GrantState, present, is_present, Privilege, trigger, Grants, global_at, schema_at, table_at,
}
use dbsgomysql.Validations.Grants.State.{
  SchemaScanMemo, empty_memo, table_state, table_privilege, schema_privilege,
}
use dbsgomysql.Validations.Grants.State.Memo.{
  IsCurrent, table_state-IsCurrent, empty_memo-IsCurrent, table_privilege-table_answer,
}
use dbsgomysql.Validations.Grants.State.Resolve.{Established}
use dbsgomysql.Validations.Grants.State.Answers.{table_privilege-present, schema_privilege-present}
use dbsgomysql.Validations.Grants.Checks.{
  PrivilegeFact, privilege_finding_summary, trigger_visibility_summary, table_finding,
  table_findings, check_table_privileges, check_trigger_visibility, check_schema_privileges,
}

is_present_iff : (s : GrantState) → (is_present s ≡ true) ↔ (s ≡ present)
is_present_iff s = ground arith

module _ (equal_fold : Str → Str → Bool) (g : Grants) (schema : Str) where
  -- One finding for each table whose own `Table` answer is not present, in order.
  pub reference_findings :
      Str → (GrantState → Str) → Privilege → List Str → List (Finding PrivilegeFact)
  reference_findings id summary priv [] = []
  reference_findings id summary priv (table ∷ tables) =
      let state = table_privilege equal_fold g schema table priv in
      let rest = reference_findings id summary priv tables in
      if is_present state then rest else table_finding id summary schema table priv state ∷ rest

  table_findings-reference :
      (id : Str) (summary : GrantState → Str) (priv : Privilege) (memo : SchemaScanMemo)
      (tables : List Str)
      → IsCurrent equal_fold g schema priv memo
      → table_findings equal_fold id summary g schema priv memo tables
        ≡ reference_findings id summary priv tables
  unfolding table_findings reference_findings
  table_findings-reference id summary priv memo [] c = refl
  table_findings-reference id summary priv memo (table ∷ tables) c =
      let (same, current) = table_state-IsCurrent equal_fold g schema priv table memo c in
      let memo' = (table_state equal_fold g schema table priv memo).1 in
      let answer = same ∙ sym (table_privilege-table_answer equal_fold g schema priv table) in
      let ih = table_findings-reference id summary priv memo' tables current in rw (answer, ih)

  -- The memo that one call of the check shares between its tables changes no finding: the check
  -- reports, in order, each table whose `Table` answer, computed alone, is not present.
  pub check_table_privileges-reference :
      (tables : List Str) (priv : Privilege)
      → check_table_privileges equal_fold g schema tables priv
        ≡ reference_findings id_table_privileges
            (privilege_finding_summary (codes "table"))
            priv
            tables
  unfolding check_table_privileges
  check_table_privileges-reference tables priv =
      table_findings-reference _ _ priv empty_memo tables
        (empty_memo-IsCurrent equal_fold g schema priv)

  abbrev pub TableEstablished : Privilege → Str → Type 0
  TableEstablished priv table =
      Established g priv (table_at g schema table priv ∷ schema_at g schema priv ∷ [])
        (global_at g priv)

  reference-nil_iff :
      (id : Str) (summary : GrantState → Str) (priv : Privilege) (tables : List Str)
      → (reference_findings id summary priv tables ≡ []) ↔ All (TableEstablished priv) tables
  unfolding reference_findings
  reference-nil_iff id summary priv [] = (λ _. tt, λ _. refl)
  reference-nil_iff id summary priv (table ∷ tables) =
      let state = table_privilege equal_fold g schema table priv in
      let e = table_privilege-present equal_fold g schema priv table in
      let p = is_present_iff state in
      let ih = reference-nil_iff id summary priv tables in
      elim (Bool-cases (is_present state)) [
        | inl yes_present ↦ rw yes_present (λ h. (e.0 (p.0 yes_present), ih.0 h), λ (_, h). ih.1 h)
        | inr none_such ↦
            rw none_such (λ h. absurd (ground arith), λ (h, _). absurd (ground (arith, e.1 h)))
      ]

  -- `CheckTablePrivileges` passes exactly if the account itself holds the privilege on every table,
  -- through the table, the schema or an unrevoked global grant, on a session that is no wrapper.
  pub check_table_privileges-nil_iff :
      (tables : List Str) (priv : Privilege)
      → (check_table_privileges equal_fold g schema tables priv ≡ [])
        ↔ All (TableEstablished priv) tables
  check_table_privileges-nil_iff tables priv =
      rw (check_table_privileges-reference tables priv) (reference-nil_iff _ _ priv tables)

  -- `CheckTriggerVisibility` passes exactly if the account itself holds TRIGGER on every table,
  -- through the table, the schema or an unrevoked global grant, on a session that is no wrapper.
  pub check_trigger_visibility-nil_iff :
      (tables : List Str)
      → (check_trigger_visibility equal_fold g schema tables ≡ [])
        ↔ All (TableEstablished trigger) tables
  unfolding check_trigger_visibility
  check_trigger_visibility-nil_iff tables =
      rw
        (table_findings-reference id_trigger_metadata_visibility trigger_visibility_summary trigger
          empty_memo tables (empty_memo-IsCurrent equal_fold g schema trigger))
        (reference-nil_iff _ _ trigger tables)

  abbrev pub SchemaEstablished : Privilege → Type 0
  SchemaEstablished priv = Established g priv (schema_at g schema priv ∷ []) (global_at g priv)

  -- `CheckSchemaPrivileges` passes exactly if the account itself holds every privilege through a
  -- schema or an unrevoked global grant, on a session that is no wrapper.
  pub check_schema_privileges-nil_iff :
      (privs : List Privilege)
      → (check_schema_privileges equal_fold g schema privs ≡ []) ↔ All SchemaEstablished privs
  unfolding check_schema_privileges
  check_schema_privileges-nil_iff [] = (λ _. tt, λ _. refl)
  check_schema_privileges-nil_iff (priv ∷ privs) =
      let state = schema_privilege equal_fold g schema priv in
      let e = schema_privilege-present equal_fold g schema priv in
      let p = is_present_iff state in
      let ih = check_schema_privileges-nil_iff privs in
      elim (Bool-cases (is_present state)) [
        | inl yes_present ↦ rw yes_present (λ h. (e.0 (p.0 yes_present), ih.0 h), λ (_, h). ih.1 h)
        | inr none_such ↦
            rw none_such (λ h. absurd (ground arith), λ (h, _). absurd (ground (arith, e.1 h)))
      ]
