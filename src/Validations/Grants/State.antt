-- ===== src/Validations/Grants/State.antt =====
-- The answers of pkg/validations/grants.go. `equal_fold` is strings.EqualFold, Unicode's simple case
-- folding, whose tables are not in the repository.
pub mod Resolve
pub mod Memo
pub mod Answers
use dbsgomysql.Prelude.{
  Bool, List, Option, Str, [], any, codes, false, if◌then◌else◌, is_empty, list_eq, nat_eq, none,
  not, some, some_entry, true, ◌&&◌, ◌==◌, ◌||◌, ◌∷◌,
}
use dbsgomysql.Validations.Grants.Types.{
  SchemaPrivilegeKey, opaque, pool, pinned, QuerierAffinity, GrantSources, has_sources, GrantState,
  unknown, present, absent, unconfirmed, is_present, is_absent, is_unconfirmed, Privilege, select,
  valid_privilege, privilege_eq, TablePrivilegeKey, schema_key_eq, table_key_eq, Grants, global_at,
  schema_at, table_at, column_at,
}
use dbsgomysql.Validations.Grants.Like.{like_pattern_matches}

-- What a whole-map scan found, once it was made.
pub record SchemaScanMemo : Type 0 where
  pub pattern_known : Bool
  pub pattern_covers : Bool
  pub variant_known : Bool
  pub variant_matches : Bool

abbrev pub empty_memo : SchemaScanMemo
empty_memo = record {
  pattern_known = false;
  pattern_covers = false;
  variant_known = false;
  variant_matches = false;
}

is_pinned : QuerierAffinity → Bool
is_pinned pinned = true
is_pinned _ = false

account_state : QuerierAffinity → GrantState
account_state pinned = present
account_state pool = present
account_state opaque = unconfirmed

unfoldable pub state_for_sources : Grants → GrantSources → GrantState
unfolding account_state
state_for_sources g sources =
    if sources.account
    then account_state g.affinity
    else if sources.role
    then unconfirmed
    else if sources.anonymous
    then unconfirmed
    else absent

abbrev pub mysql_schema_name : Str
mysql_schema_name = codes "mysql"

unfoldable pub broad_visibility : Grants → Bool
broad_visibility g =
    if (schema_at g mysql_schema_name select).account
    then true
    else not g.partial_revokes && (global_at g select).account

-- The loop over `specific`: `none` is its return of GrantPresent, else the flag `unconfirmed`.
scan_specific : Grants → Bool → List GrantSources → Option Bool
scan_specific g found [] = some found
scan_specific g found (sources ∷ rest) =
    let state = state_for_sources g sources in
    let onward = scan_specific g (if is_unconfirmed state then true else found) rest in
    if is_present state then none else onward

-- The end of `resolve`, behind the two returns of GrantPresent.
conclude : Grants → Bool → GrantState
conclude g found =
    if found
      || not (is_empty g.role_grantees)
      || not (is_pinned g.affinity)
      || not (broad_visibility g)
    then unconfirmed
    else absent

-- The part of `resolve` that reads the global grant.
resolve_global : Grants → Bool → GrantSources → GrantState
resolve_global g found global =
    if has_sources global
    then (if g.partial_revokes
        then conclude g true
        else let state = state_for_sources g global in
          if is_present state
          then present
          else conclude g (if is_unconfirmed state then true else found))
    else conclude g found

unfoldable pub resolve : Grants → Privilege → List GrantSources → GrantSources → GrantState
unfolding valid_privilege state_for_sources scan_specific conclude resolve_global is_pinned
resolve g priv specific global =
    if not (valid_privilege priv) || not g.populated
    then unknown
    else elim (scan_specific g false specific) [
      | none ↦ present
      | some found ↦ resolve_global g found global
    ]

-- The tests of the loop over the schema map.
schema_pattern_test : Str → Privilege → SchemaPrivilegeKey → GrantSources → Bool
schema_pattern_test schema priv key sources =
    not (not (key.privilege == priv) || not (has_sources sources) || key.schema == schema)
    && like_pattern_matches key.schema schema

unfoldable pub schema_pattern_covers : Grants → Str → Privilege → Bool
unfolding schema_pattern_test
schema_pattern_covers g schema priv = some_entry (schema_pattern_test schema priv) g.schema

unfoldable pub downgrade_for_schema_pattern :
    Grants → GrantState → Str → Privilege → SchemaScanMemo → GrantState × SchemaScanMemo
downgrade_for_schema_pattern g state schema priv memo =
    if not (is_absent state)
    then (state, memo)
    else if g.partial_revokes
    then (state, memo)
    else let memo' =
        if not memo.pattern_known
        then record memo {
          pattern_covers = schema_pattern_covers g schema priv;
          pattern_known = true;
        }
        else memo in
      (if memo'.pattern_covers then unconfirmed else state, memo')

unfoldable pub downgrade_for_column_grant : Grants → GrantState → Str → Str → Privilege → GrantState
downgrade_for_column_grant g state schema table priv =
    if not (is_absent state)
    then state
    else if has_sources (column_at g schema table priv)
    then unconfirmed
    else state

-- `Global`
unfoldable pub global_privilege : Grants → Privilege → GrantState
global_privilege g priv = resolve g priv [] (global_at g priv)

module _ (equal_fold : Str → Str → Bool) where
  unfoldable pub schema_case_variant_matches : Grants → Str → Privilege → Bool
  schema_case_variant_matches g schema priv =
      some_entry
        (λ key sources.
          key.privilege == priv
          && has_sources sources
          && not (key.schema == schema)
          && equal_fold key.schema schema)
        g.schema

  unfoldable pub downgrade_for_schema_case_variant :
      Grants → GrantState → Str → Privilege → GrantState
  downgrade_for_schema_case_variant g state schema priv =
      if not (is_absent state)
      then state
      else if schema_case_variant_matches g schema priv
      then unconfirmed
      else state

  -- The test of the loops over the table and column maps.
  table_case_variant : Str → Str → Privilege → TablePrivilegeKey → GrantSources → Bool
  table_case_variant schema table priv key sources =
      not (
        not (key.privilege == priv)
        || not (has_sources sources)
        || (key.schema == schema && key.table == table))
      && (equal_fold key.schema schema && equal_fold key.table table)

  unfoldable pub table_case_variant_matches : Grants → Str → Str → Privilege → Bool
  unfolding table_case_variant
  table_case_variant_matches g schema table priv =
      any (λ grants. some_entry (table_case_variant schema table priv) grants)
        (g.table ∷ g.column ∷ [])

  unfoldable pub downgrade_for_table_case_variant :
      Grants → GrantState → Str → Str → Privilege → SchemaScanMemo → GrantState × SchemaScanMemo
  downgrade_for_table_case_variant g state schema table priv memo =
      if not (is_absent state)
      then (state, memo)
      else let memo' =
          if not memo.variant_known
          then record memo {
            variant_matches = schema_case_variant_matches g schema priv;
            variant_known = true;
          }
          else memo in
        (
          if memo'.variant_matches
              then unconfirmed
              else if table_case_variant_matches g schema table priv
              then unconfirmed
              else state,
          memo',
        )

  -- `Schema`
  unfoldable pub schema_privilege : Grants → Str → Privilege → GrantState
  schema_privilege g schema priv =
      let state = resolve g priv (schema_at g schema priv ∷ []) (global_at g priv) in
      let (state', _) = downgrade_for_schema_pattern g state schema priv empty_memo in
      downgrade_for_schema_case_variant g state' schema priv

  -- `tableState`; the memo of the caller is returned with what was added to it.
  unfoldable pub table_state :
      Grants → Str → Str → Privilege → SchemaScanMemo → GrantState × SchemaScanMemo
  table_state g schema table priv memo =
      let specific = table_at g schema table priv ∷ schema_at g schema priv ∷ [] in
      let state = resolve g priv specific (global_at g priv) in
      let (state', memo') = downgrade_for_schema_pattern g state schema priv memo in
      downgrade_for_table_case_variant g (downgrade_for_column_grant g state' schema table priv)
        schema table priv memo'

  -- `Table`
  unfoldable pub table_privilege : Grants → Str → Str → Privilege → GrantState
  table_privilege g schema table priv = (table_state g schema table priv empty_memo).0
