-- ===== src/Validations/Grants/Read/Narrowing.antt =====
-- pkg/validations/grants.go: the fact with the privilege queries narrowed to the grantees, and the
-- fact from all rows of the tables.
use dbsgomysql.Prelude.{
  Bool, Eq, List, Str, ap, arith, codes, contains, drop, list_eq, nat_eq, not, read, refl, sym,
  true, ◌==◌, ◌∙◌, ◌∷◌, ◌≡◌,
}
use dbsgomysql.Golang.Strings.{sort_strings}
use dbsgomysql.Golang.Strings.Sorting.{contains-sort_strings}
use dbsgomysql.Golang.Sql.{Result, answered, ok, fail, ◌>>=◌}
use dbsgomysql.Validations.Grants.Types.{
  privilege_eq, schema_key_eq, table_key_eq, Grants, GrantSources, no_sources, or_sources,
  Privilege, SchemaPrivilegeKey, TablePrivilegeKey,
}
use dbsgomysql.Validations.Grants.Read.{
  scan_scalar, Failure, PrivilegeRow, Server, read_rows, ignored, source_for, grantee_predicate,
  grantee_predicate_with_anonymous, read_global_grants, read_schema_grants, read_table_grants,
  read_column_grants, read_privileges, read_grants, start, add_role,
}
use dbsgomysql.Validations.Grants.Read.Passing.{
  Covers, Filters, complete, gathered, grantee_predicate-Suffices,
  grantee_predicate_with_anonymous-Suffices, source_for-ignored, source_for-no_sources, unnarrow,
}
use dbsgomysql.Validations.Grants.Read.Growing.{
  each_row-column, each_row-global, each_row-schema, each_row-table, global_of, grown, part,
  part-dropped, read-grown, schema_of, table_of, with_column, with_global, with_schema, with_table,
  zero_source,
}

-- The same fact: each privilege has the same sources everywhere.
pub record SameGrants (a b : Grants) : Type 0 where
  pub populated : a.populated ≡ b.populated
  pub affinity : a.affinity ≡ b.affinity
  pub partial_revokes : a.partial_revokes ≡ b.partial_revokes
  pub account : a.account_grantee ≡ b.account_grantee
  pub roles : a.role_grantees ≡ b.role_grantees
  pub global : (k : Privilege) → read no_sources k a.global ≡ read no_sources k b.global
  pub schema : (k : SchemaPrivilegeKey) → read no_sources k a.schema ≡ read no_sources k b.schema
  pub table : (k : TablePrivilegeKey) → read no_sources k a.table ≡ read no_sources k b.table
  pub column : (k : TablePrivilegeKey) → read no_sources k a.column ≡ read no_sources k b.column

-- Both are errors, and the same one, or both are facts, and the same one.
abbrev pub Agree : Result Failure Grants → Result Failure Grants → Type 0
Agree (ok a) (ok b) = SameGrants a b
Agree (fail e) (fail f) = e ≡ f
Agree _ _ = ⊥

-- The rows of the four privilege tables.
record Tables : Type 0 where
  users : List PrivilegeRow
  schemas : List PrivilegeRow
  tables : List PrivilegeRow
  columns : List PrivilegeRow

abbrev with_all : Grants → Tables → Grants
with_all g t =
    with_column (with_table (with_schema (with_global g t.users) t.schemas) t.tables) t.columns

-- The answers of a server to the four privilege queries.
record Answers (server : Server) (grantees : List Str) (t : Tables) : Type 0 where
  users : server.user_privileges (grantee_predicate grantees) ≡ answered (complete t.users)
  schemas :
      server.schema_privileges (grantee_predicate_with_anonymous grantees)
      ≡ answered (complete t.schemas)
  tables : server.table_privileges (grantee_predicate grantees) ≡ answered (complete t.tables)
  columns : server.column_privileges (grantee_predicate grantees) ≡ answered (complete t.columns)

read_privileges-with_all :
    (server : Server) (g : Grants) (grantees : List Str) (t : Tables)
    → Answers server grantees t
    → read_privileges server g grantees ≡ ok (with_all g t)
unfolding read_privileges read_global_grants read_schema_grants read_table_grants read_column_grants
read_privileges-with_all server g grantees t a =
    rw
      (
        a.users, a.schemas, a.tables, a.columns, read_global_grants, read_schema_grants,
        read_table_grants, read_column_grants, read_rows, each_row-global, each_row-schema,
        each_row-table, each_row-column,
      )
      refl

-- Each privilege query of the server filters its table.
pub record FiltersAll (server : Server) : Type 0 where
  pub user_privileges : Filters server.user_privileges
  pub schema_privileges : Filters server.schema_privileges
  pub table_privileges : Filters server.table_privileges
  pub column_privileges : Filters server.column_privileges

-- Two lists of rows from which a map grows alike.
same_reads :
    {K : Type 0} ⦃e : Eq K⦄ (key_of : Privilege → PrivilegeRow → K) (source : Str → GrantSources)
    (drop : GrantSources → Bool) (few many : List PrivilegeRow) (m : List (K × GrantSources))
    → ((key : K)
        → gathered (part key_of source drop key) few ≡ gathered (part key_of source drop key) many)
    → (key : K)
    → read no_sources key (grown key_of source drop few m)
      ≡ read no_sources key (grown key_of source drop many m)
same_reads key_of source drop few many m h key =
    read-grown key_of source drop key few m
    ∙ ap (λ s. or_sources s (read no_sources key m)) (h key)
    ∙ sym (read-grown key_of source drop key many m)

narrowed_rows :
    (server : Server) (g : Grants) (grantees : List Str)
    → FiltersAll server
    → Covers grantees g
    → (few : Tables) × (many : Tables) × Answers server grantees few
      × Answers (unnarrow server) grantees many
      × SameGrants
          (record (with_all g few) { populated = true })
          (record (with_all g many) { populated = true })
unfolding source_for
narrowed_rows server g grantees filters c =
    let (users, u, su) =
      grantee_predicate-Suffices server.user_privileges filters.user_privileges grantees in
    let (schemas, s, ss) =
      grantee_predicate_with_anonymous-Suffices server.schema_privileges filters.schema_privileges
        grantees in
    let (tables, t, st) =
      grantee_predicate-Suffices server.table_privileges filters.table_privileges grantees in
    let (columns, d, sd) =
      grantee_predicate-Suffices server.column_privileges filters.column_privileges grantees in
    (
      record { users = users; schemas = schemas; tables = tables; columns = columns },
      record {
        users = filters.user_privileges.all_rows;
        schemas = filters.schema_privileges.all_rows;
        tables = filters.table_privileges.all_rows;
        columns = filters.column_privileges.all_rows;
      },
      record { users = u; schemas = s; tables = t; columns = d },
      record {
        users = filters.user_privileges.unnarrowed;
        schemas = filters.schema_privileges.unnarrowed;
        tables = filters.table_privileges.unnarrowed;
        columns = filters.column_privileges.unnarrowed;
      },
      record {
        populated = refl;
        affinity = refl;
        partial_revokes = refl;
        account = refl;
        roles = refl;
        global = same_reads global_of (source_for g) ignored users _ g.global (λ k. su _ (λ r n.
            part-dropped global_of (source_for g) ignored k r
              (source_for-ignored g grantees r c n)));
        schema = same_reads schema_of (source_for g) zero_source schemas _ g.schema (λ k.
            ss _ (λ r n.
              part-dropped schema_of (source_for g) zero_source k r
                (source_for-no_sources g grantees r c n)));
        table = same_reads table_of (source_for g) ignored tables _ g.table (λ k. st _ (λ r n.
            part-dropped table_of (source_for g) ignored k r
              (source_for-ignored g grantees r c n)));
        column = same_reads table_of (source_for g) ignored columns _ g.column (λ k. sd _ (λ r n.
            part-dropped table_of (source_for g) ignored k r
              (source_for-ignored g grantees r c n)));
      },
    )

recognised : (g : Grants) → Covers (g.account_grantee ∷ sort_strings g.role_grantees) g
unfolding contains
recognised g x = ground (arith, contains-sort_strings x g.role_grantees)

Agree-bind :
    {S : Type 0} (r : Result Failure S) (f h : S → Result Failure Grants)
    → ((s : S) → Agree (f s) (h s))
    → Agree (r >>= f) (r >>= h)
Agree-bind (ok s) f h same = same s
Agree-bind (fail e) f h same = refl

abbrev finish : Grants → Result Failure Grants
finish g = ok (record g { populated = true })

privileges-Agree :
    (server : Server) (g : Grants)
    → FiltersAll server
    → Agree
        (read_privileges server g (g.account_grantee ∷ sort_strings g.role_grantees) >>= finish)
        (read_privileges (unnarrow server) g (g.account_grantee ∷ sort_strings g.role_grantees)
          >>= finish)
privileges-Agree server g filters =
    let grantees = g.account_grantee ∷ sort_strings g.role_grantees in
    let (few, many, narrow, wide, same) = narrowed_rows server g grantees filters (recognised g) in
    rw
      (
        read_privileges-with_all server g grantees few narrow,
        read_privileges-with_all (unnarrow server) g grantees many wide,
      )
      same

-- Whichever `WHERE` clauses narrow the privilege queries, `Grants` succeeds exactly if it would if
-- the server returned every row of the four privilege tables, and meets the same error otherwise.
-- The two facts have the same grantees and flags, and each privilege has the same sources in both.
-- The hypothesis is that the tables can be read, and that a narrowed query, provided that its names
-- can be converted and are not too many, returns the rows that its condition holds for, in any
-- order.
pub read_grants-unnarrow :
    (server : Server)
    → FiltersAll server
    → Agree (read_grants server) (read_grants (unnarrow server))
unfolding read_grants
read_grants-unnarrow server filters =
    Agree-bind (scan_scalar (codes "resolve CURRENT_USER()") server.current_user) _ _ (λ user.
      Agree-bind
        (read_rows add_role (codes "ENABLED_ROLES") (start server user) server.enabled_roles) _ _
        (λ g.
          Agree-bind (scan_scalar (codes "read @@global.partial_revokes") server.partial_revokes) _
            _
            (λ revokes.
              privileges-Agree server (record g { partial_revokes = not (revokes == 0) }) filters)))
