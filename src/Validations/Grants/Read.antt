-- ===== src/Validations/Grants/Read.antt =====
-- The part of pkg/validations/grants.go that reads the fact from the privilege tables. The server is
-- a parameter, `Server`: what each statement returns.
pub mod Passing
pub mod Growing
pub mod Narrowing
mod Tests
use dbsgomysql.Prelude.{
  modify, Bool, List, Str, [], codes, contains, false, if◌then◌else◌, list_eq, nat_eq, none, not,
  some, true, ℕ, ◌&&◌, ◌++◌, ◌==◌, ◌||◌, ◌∷◌,
}
use dbsgomysql.Golang.Strings.{last_index_byte, has_prefix, sort_strings}
use dbsgomysql.Golang.Sql.{
  Result, ok, fail, ◌>>=◌, Rows, end, row, bad_row, Query, rejected, answered,
}
use dbsgomysql.Validations.Predicate.{narrow_names}
use dbsgomysql.Validations.Grants.Types.{
  QuerierAffinity, GrantSources, no_sources, from_account, from_role, from_anonymous, or_sources,
  has_sources, privilege_eq, privilege_from_string, SchemaPrivilegeKey, TablePrivilegeKey,
  schema_key_eq, table_key_eq, Grants,
}

-- A driver's error, and the text that the code puts before it.
pub record Failure : Type 0 where
  pub context : Str
  pub cause : Str

-- The result of `QueryRowContext(…).Scan`.
pub data Scalar (A : Type 0) : Type 0 where
  value : A → Scalar A
  unread : Str → Scalar A

unfoldable pub scan_scalar : {A : Type 0} → Str → Scalar A → Result Failure A
scan_scalar context (value a) = ok a
scan_scalar context (unread e) = fail (record { context = context; cause = e })

pub record Role : Type 0 where
  pub name : Str
  pub host : Str

-- A row of USER_PRIVILEGES; `schema` and `table` are empty where the table has no such column.
pub record PrivilegeRow : Type 0 where
  pub grantee : Str
  pub schema : Str
  pub table : Str
  pub privilege : Str

-- The `WHERE` clause of a privilege query: none, `GRANTEE IN` the names, or that `OR GRANTEE LIKE`
-- a pattern.
pub data Where : Type 0 where
  everything : Where
  grantee_in : List Str → Where
  grantee_in_or_like : List Str → Str → Where

pub record Server : Type 0 where
  pub affinity : QuerierAffinity
  pub current_user : Scalar Str
  pub enabled_roles : Query Role
  pub partial_revokes : Scalar ℕ
  pub user_privileges : Where → Query PrivilegeRow
  pub schema_privileges : Where → Query PrivilegeRow
  pub table_privileges : Where → Query PrivilegeRow
  pub column_privileges : Where → Query PrivilegeRow

unfoldable pub format_role_grantee : Str → Str → Str
format_role_grantee name host = codes "'" ++ name ++ codes "'@'" ++ host ++ codes "'"

unfoldable pub format_current_user_grantee : Str → Str
format_current_user_grantee current_user = elim (last_index_byte b'@' current_user) [
  | none ↦ codes "'" ++ current_user ++ codes "'@'%'"
  | some (user, host) ↦ codes "'" ++ user ++ codes "'@'" ++ host ++ codes "'"
]

unfoldable pub source_for : Grants → Str → GrantSources
source_for g grantee =
    if grantee == g.account_grantee
    then from_account
    else if contains grantee g.role_grantees
    then from_role
    else if has_prefix (codes "''@'") grantee
    then from_anonymous
    else no_sources

-- The loop `for rows.Next()` of each reader, with the reader's words for a failure.
unfoldable pub each_row {ℓ} :
    {A : Type 0} {S : Type ℓ} → (S → A → S) → Str → S → Rows A → Result Failure S
each_row step name state (end none) = ok state
each_row step name state (end (some e)) =
    fail (record { context = codes "iterate " ++ name; cause = e })
each_row step name state (row a rows) = each_row step name (step state a) rows
each_row step name state (bad_row e) = fail (record { context = codes "scan " ++ name; cause = e })

unfoldable pub read_rows {ℓ} :
    {A : Type 0} {S : Type ℓ} → (S → A → S) → Str → S → Query A → Result Failure S
unfolding each_row
read_rows step name state (rejected e) =
    fail (record { context = codes "query " ++ name; cause = e })
read_rows step name state (answered rows) = each_row step name state rows

-- The body of the loop in `readEnabledRoles`.
unfoldable pub add_role : Grants → Role → Grants
add_role g role =
    let grantee = format_role_grantee role.name role.host in
    record g {
      role_grantees =
          if contains grantee g.role_grantees
          then g.role_grantees
          else g.role_grantees ++ grantee ∷ [];
    }

-- `source == 0 || source == grantSourceAnonymous`
abbrev pub ignored : GrantSources → Bool
ignored s = not s.account && not s.role

-- The bodies of the loops that read the four privilege tables.
unfoldable pub add_global : Grants → PrivilegeRow → Grants
unfolding source_for
add_global g r =
    let (privilege, known) = privilege_from_string r.privilege in
    let source = source_for g r.grantee in
    if not known || ignored source
    then g
    else record g { global = modify no_sources (λ old. or_sources old source) privilege g.global }

unfoldable pub add_schema : Grants → PrivilegeRow → Grants
unfolding source_for
add_schema g r =
    let (privilege, known) = privilege_from_string r.privilege in
    let source = source_for g r.grantee in
    let key : SchemaPrivilegeKey = record { schema = r.schema; privilege = privilege } in
    if not known || not (has_sources source)
    then g
    else record g { schema = modify no_sources (λ old. or_sources old source) key g.schema }

unfoldable pub add_table : Grants → PrivilegeRow → Grants
unfolding source_for
add_table g r =
    let (privilege, known) = privilege_from_string r.privilege in
    let source = source_for g r.grantee in
    let key : TablePrivilegeKey = record {
      schema = r.schema;
      table = r.table;
      privilege = privilege;
    } in
    if not known || ignored source
    then g
    else record g { table = modify no_sources (λ old. or_sources old source) key g.table }

unfoldable pub add_column : Grants → PrivilegeRow → Grants
unfolding source_for
add_column g r =
    let (privilege, known) = privilege_from_string r.privilege in
    let source = source_for g r.grantee in
    let key : TablePrivilegeKey = record {
      schema = r.schema;
      table = r.table;
      privilege = privilege;
    } in
    if not known || ignored source
    then g
    else record g { column = modify no_sources (λ old. or_sources old source) key g.column }

-- `granteePredicate` and `granteePredicateWithAnonymous`
unfoldable pub grantee_predicate : List Str → Where
grantee_predicate grantees = elim (narrow_names grantees 0) [
  | none ↦ everything
  | some params ↦ grantee_in params
]

unfoldable pub grantee_predicate_with_anonymous : List Str → Where
grantee_predicate_with_anonymous grantees = elim (narrow_names grantees 1) [
  | none ↦ everything
  | some params ↦ grantee_in_or_like params (codes "''@%")
]

module _ (server : Server) where
  unfoldable pub read_global_grants : Grants → List Str → Result Failure Grants
  unfolding grantee_predicate read_rows add_global
  read_global_grants g grantees =
      read_rows add_global (codes "USER_PRIVILEGES") g
        (server.user_privileges (grantee_predicate grantees))

  unfoldable pub read_schema_grants : Grants → List Str → Result Failure Grants
  unfolding grantee_predicate_with_anonymous read_rows add_schema
  read_schema_grants g grantees =
      read_rows add_schema (codes "SCHEMA_PRIVILEGES") g
        (server.schema_privileges (grantee_predicate_with_anonymous grantees))

  unfoldable pub read_table_grants : Grants → List Str → Result Failure Grants
  unfolding grantee_predicate read_rows add_table
  read_table_grants g grantees =
      read_rows add_table (codes "TABLE_PRIVILEGES") g
        (server.table_privileges (grantee_predicate grantees))

  unfoldable pub read_column_grants : Grants → List Str → Result Failure Grants
  unfolding grantee_predicate read_rows add_column
  read_column_grants g grantees =
      read_rows add_column (codes "COLUMN_PRIVILEGES") g
        (server.column_privileges (grantee_predicate grantees))

  -- The fact before anything is read, with the grantee of the account.
  abbrev pub start : Str → Grants
  start current_user = record {
    populated = false;
    affinity = server.affinity;
    partial_revokes = false;
    account_grantee = format_current_user_grantee current_user;
    role_grantees = [];
    global = [];
    schema = [];
    table = [];
    column = [];
  }

  -- The four privilege reads, in the order of the code.
  unfoldable pub read_privileges : Grants → List Str → Result Failure Grants
  read_privileges g grantees = do
    g1 ← read_global_grants g grantees
    g2 ← read_schema_grants g1 grantees
    g3 ← read_table_grants g2 grantees
    read_column_grants g3 grantees

  -- `(*Inspector).Grants`, behind the validation of the inspector.
  unfoldable pub read_grants : Result Failure Grants
  unfolding read_privileges add_role read_rows scan_scalar
  read_grants = do
    user ← scan_scalar (codes "resolve CURRENT_USER()") server.current_user
    g ← read_rows add_role (codes "ENABLED_ROLES") (start user) server.enabled_roles
    revokes ← scan_scalar (codes "read @@global.partial_revokes") server.partial_revokes
    let g1 = record g { partial_revokes = not (revokes == 0) }
    let grantees = g1.account_grantee ∷ sort_strings g1.role_grantees
    g2 ← read_privileges g1 grantees
    ok (record g2 { populated = true })
