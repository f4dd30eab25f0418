-- ===== src/Validations/Grants/State/Memo.antt =====
-- The memo of the whole-map scans changes no answer.
use dbsgomysql.Prelude.{Bool, Str, [], arith, if◌then◌else◌, not, true, ◌&&◌, ◌||◌, ◌∙◌, ◌∷◌, ◌≡◌}
use dbsgomysql.Validations.Grants.Types.{
  GrantState, unconfirmed, is_absent, Privilege, has_sources, Grants, global_at, schema_at,
  table_at, column_at,
}
use dbsgomysql.Validations.Grants.State.{
  SchemaScanMemo, resolve, schema_pattern_covers, downgrade_for_schema_pattern,
  downgrade_for_column_grant, schema_case_variant_matches, table_case_variant_matches,
  downgrade_for_table_case_variant, table_state, table_privilege, empty_memo,
}

module _ (equal_fold : Str → Str → Bool) (g : Grants) (schema : Str) (priv : Privilege) where
  -- What the memo holds are results of the scans for this schema and privilege.
  pub record IsCurrent (memo : SchemaScanMemo) : Type 0 where
    pub pattern :
        memo.pattern_known ≡ true → memo.pattern_covers ≡ schema_pattern_covers g schema priv
    pub variant :
        memo.variant_known ≡ true
        → memo.variant_matches ≡ schema_case_variant_matches equal_fold g schema priv

  -- What turns an absent table privilege into an unconfirmed one.
  abbrev pub table_doubts : Str → Bool
  table_doubts table =
      (not g.partial_revokes && schema_pattern_covers g schema priv)
      || has_sources (column_at g schema table priv)
      || schema_case_variant_matches equal_fold g schema priv
      || table_case_variant_matches equal_fold g schema table priv

  -- The answer with no memo.
  abbrev pub table_answer : Str → GrantState
  table_answer table =
      let specific = table_at g schema table priv ∷ schema_at g schema priv ∷ [] in
      let state = resolve g priv specific (global_at g priv) in
      if is_absent state && table_doubts table then unconfirmed else state

  pattern-IsCurrent :
      (state : GrantState) (memo : SchemaScanMemo)
      → IsCurrent memo
      → ((downgrade_for_schema_pattern g state schema priv memo).0 ≡ (
          if is_absent state && not g.partial_revokes && schema_pattern_covers g schema priv
          then unconfirmed
          else state))
        × IsCurrent (downgrade_for_schema_pattern g state schema priv memo).1
  unfolding downgrade_for_schema_pattern
  pattern-IsCurrent state memo c =
      (ground arith, record { pattern = ground arith; variant = ground arith })

  variant-IsCurrent :
      (state : GrantState) (table : Str) (memo : SchemaScanMemo)
      → IsCurrent memo
      → ((downgrade_for_table_case_variant equal_fold g state schema table priv memo).0 ≡ (
          if is_absent state
            && (schema_case_variant_matches equal_fold g schema priv
                || table_case_variant_matches equal_fold g schema table priv)
          then unconfirmed
          else state))
        × IsCurrent (downgrade_for_table_case_variant equal_fold g state schema table priv memo).1
  unfolding downgrade_for_table_case_variant
  variant-IsCurrent state table memo c =
      (ground arith, record { pattern = ground arith; variant = ground arith })

  pub table_state-IsCurrent :
      (table : Str) (memo : SchemaScanMemo)
      → IsCurrent memo
      → ((table_state equal_fold g schema table priv memo).0 ≡ table_answer table)
        × IsCurrent (table_state equal_fold g schema table priv memo).1
  unfolding table_state downgrade_for_column_grant
  table_state-IsCurrent table memo c =
      let specific = table_at g schema table priv ∷ schema_at g schema priv ∷ [] in
      let state = resolve g priv specific (global_at g priv) in
      let (state', memo') = downgrade_for_schema_pattern g state schema priv memo in
      let (same, current) = pattern-IsCurrent state memo c in
      let (same', current') =
        variant-IsCurrent (downgrade_for_column_grant g state' schema table priv) table memo'
          current in
      (same' ∙ rw same (ground arith), current')

  pub empty_memo-IsCurrent : IsCurrent empty_memo
  empty_memo-IsCurrent = record {
    pattern = λ h. absurd (ground arith);
    variant = λ h. absurd (ground arith);
  }

  pub table_privilege-table_answer :
      (table : Str) → table_privilege equal_fold g schema table priv ≡ table_answer table
  unfolding table_privilege
  table_privilege-table_answer table =
      (table_state-IsCurrent table empty_memo empty_memo-IsCurrent).0
