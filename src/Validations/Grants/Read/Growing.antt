-- ===== src/Validations/Grants/Read/Growing.antt =====
-- What the four readers of grants.go make of the rows of a complete answer.
use dbsgomysql.Prelude.{
  modify, Bool, Bool-cases, Eq, List, Str, [], ap, arith, eq_iff, if◌then◌else◌, inl, inr, list_eq,
  nat_eq, not, read, read-modify, refl, sym, true, ◌==◌, ◌||◌, ◌∙◌, ◌∷◌, ◌≡◌,
}
use dbsgomysql.Golang.Sql.{ok}
use dbsgomysql.Validations.Grants.Types.{
  privilege_eq, schema_key_eq, table_key_eq, Grants, GrantSources, Privilege, SchemaPrivilegeKey,
  TablePrivilegeKey, no_sources, or_sources, has_sources, privilege_from_string,
}
use dbsgomysql.Validations.Grants.Read.{
  PrivilegeRow, source_for, ignored, each_row, add_global, add_schema, add_table, add_column,
}
use dbsgomysql.Validations.Grants.Read.Passing.{complete, gathered}

-- A reader's map, from the key of a row, the sources of a grantee, and which of these it drops.
module _ {K : Type 0} ⦃e : Eq K⦄ (key_of : Privilege → PrivilegeRow → K)
    (source : Str → GrantSources) (drop : GrantSources → Bool) where
  abbrev pub added : PrivilegeRow → List (K × GrantSources) → List (K × GrantSources)
  added r m =
      let (privilege, known) = privilege_from_string r.privilege in
      if not known || drop (source r.grantee)
      then m
      else modify no_sources (λ old. or_sources old (source r.grantee)) (key_of privilege r) m

  abbrev pub grown : List PrivilegeRow → List (K × GrantSources) → List (K × GrantSources)
  grown [] m = m
  grown (r ∷ rows) m = grown rows (added r m)

  -- What a row adds to the sources of a key.
  abbrev pub part : K → PrivilegeRow → GrantSources
  part key r =
      let (privilege, known) = privilege_from_string r.privilege in
      if not known || drop (source r.grantee)
      then no_sources
      else if key_of privilege r == key
      then source r.grantee
      else no_sources

  or_sources_comm : (a b : GrantSources) → or_sources a b ≡ or_sources b a
  or_sources_comm a b = ground arith

  read-added :
      (key : K) (r : PrivilegeRow) (m : List (K × GrantSources))
      → read no_sources key (added r m) ≡ or_sources (part key r) (read no_sources key m)
  read-added key r m =
      let (privilege, known) = privilege_from_string r.privilege in
      let grow : GrantSources → GrantSources = λ old. or_sources old (source r.grantee) in
      let step = read-modify no_sources grow (key_of privilege r) key m in
      elim (Bool-cases (not known || drop (source r.grantee))) [
        | inl gone ↦ rw gone refl
        | inr taken ↦ elim (Bool-cases (key_of privilege r == key)) [
          | inl same ↦
              rw (taken, step, same, (eq_iff (key_of privilege r) key).0 same)
                (or_sources_comm (read no_sources key m) (source r.grantee))
          | inr other ↦ rw (taken, step, other) refl
        ]
      ]

  or_sources_step :
      (a b c : GrantSources) → or_sources a (or_sources b c) ≡ or_sources (or_sources b a) c
  or_sources_step a b c = ground arith

  pub read-grown :
      (key : K) (rows : List PrivilegeRow) (m : List (K × GrantSources))
      → read no_sources key (grown rows m)
        ≡ or_sources (gathered (part key) rows) (read no_sources key m)
  read-grown key [] m = refl
  read-grown key (r ∷ rows) m =
      read-grown key rows (added r m)
      ∙ ap (or_sources (gathered (part key) rows)) (read-added key r m)
      ∙ or_sources_step (gathered (part key) rows) (part key r) (read no_sources key m)

  pub part-dropped :
      (key : K) (r : PrivilegeRow) → drop (source r.grantee) ≡ true → part key r ≡ no_sources
  part-dropped key r h = ground (arith, h)

-- The four maps, from the fact whose grantees are recognised.
abbrev pub global_of : Privilege → PrivilegeRow → Privilege
global_of privilege r = privilege

abbrev pub schema_of : Privilege → PrivilegeRow → SchemaPrivilegeKey
schema_of privilege r = record { schema = r.schema; privilege = privilege }

abbrev pub table_of : Privilege → PrivilegeRow → TablePrivilegeKey
table_of privilege r = record { schema = r.schema; table = r.table; privilege = privilege }

-- The sources that the schema reader drops.
abbrev pub zero_source : GrantSources → Bool
zero_source s = not (has_sources s)

abbrev pub with_global : Grants → List PrivilegeRow → Grants
with_global g rows = record g { global = grown global_of (source_for g) ignored rows g.global }

abbrev pub with_schema : Grants → List PrivilegeRow → Grants
with_schema g rows = record g { schema = grown schema_of (source_for g) zero_source rows g.schema }

abbrev pub with_table : Grants → List PrivilegeRow → Grants
with_table g rows = record g { table = grown table_of (source_for g) ignored rows g.table }

abbrev pub with_column : Grants → List PrivilegeRow → Grants
with_column g rows = record g { column = grown table_of (source_for g) ignored rows g.column }

each_row-complete :
    (step : Grants → PrivilegeRow → Grants) (whole : Grants → List PrivilegeRow → Grants)
    (name : Str)
    → ((g : Grants) → whole g [] ≡ g)
    → ((g : Grants) (r : PrivilegeRow) (rows : List PrivilegeRow)
        → whole (step g r) rows ≡ whole g (r ∷ rows))
    → (rows : List PrivilegeRow) (g : Grants)
    → each_row step name g (complete rows) ≡ ok (whole g rows)
unfolding each_row
each_row-complete step whole name base onward [] g = ap ok (sym (base g))
each_row-complete step whole name base onward (r ∷ rows) g =
    each_row-complete step whole name base onward rows (step g r) ∙ ap ok (onward g r rows)

global_step :
    (g : Grants) (r : PrivilegeRow) (rows : List PrivilegeRow)
    → with_global (add_global g r) rows ≡ with_global g (r ∷ rows)
unfolding add_global source_for
global_step g r rows = ground arith

schema_step :
    (g : Grants) (r : PrivilegeRow) (rows : List PrivilegeRow)
    → with_schema (add_schema g r) rows ≡ with_schema g (r ∷ rows)
unfolding add_schema source_for
schema_step g r rows = ground arith

table_step :
    (g : Grants) (r : PrivilegeRow) (rows : List PrivilegeRow)
    → with_table (add_table g r) rows ≡ with_table g (r ∷ rows)
unfolding add_table source_for
table_step g r rows = ground arith

column_step :
    (g : Grants) (r : PrivilegeRow) (rows : List PrivilegeRow)
    → with_column (add_column g r) rows ≡ with_column g (r ∷ rows)
unfolding add_column source_for
column_step g r rows = ground arith

pub each_row-global :
    (name : Str) (rows : List PrivilegeRow) (g : Grants)
    → each_row add_global name g (complete rows) ≡ ok (with_global g rows)
each_row-global name = each_row-complete add_global with_global name (λ g. refl) global_step

pub each_row-schema :
    (name : Str) (rows : List PrivilegeRow) (g : Grants)
    → each_row add_schema name g (complete rows) ≡ ok (with_schema g rows)
each_row-schema name = each_row-complete add_schema with_schema name (λ g. refl) schema_step

pub each_row-table :
    (name : Str) (rows : List PrivilegeRow) (g : Grants)
    → each_row add_table name g (complete rows) ≡ ok (with_table g rows)
each_row-table name = each_row-complete add_table with_table name (λ g. refl) table_step

pub each_row-column :
    (name : Str) (rows : List PrivilegeRow) (g : Grants)
    → each_row add_column name g (complete rows) ≡ ok (with_column g rows)
each_row-column name = each_row-complete add_column with_column name (λ g. refl) column_step
