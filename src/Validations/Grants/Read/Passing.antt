-- ===== src/Validations/Grants/Read/Passing.antt =====
-- pkg/validations/grants.go: what a privilege query answers, and which of its rows a reader passes
-- over.
use mathlib.Core.List.{foldr, Perm}
use mathlib.Core.List.Perm
use dbsgomysql.Prelude.{
  All, Bool-cases, List, Option-cases, Str, [], ap, arith, codes, contains, false, inl, inr, length,
  list_eq, nat_eq, none, not, refl, true, ◌+◌, ◌==◌, ◌||◌, ◌∙◌, ◌∷◌, ◌≡◌, ◌≤◌,
}
use dbsgomysql.Golang.Strings.{has_prefix}
use dbsgomysql.Golang.Sql.{Rows, end, row, Query, answered}
use dbsgomysql.Validations.Predicate.{narrow_names}
use dbsgomysql.Validations.Predicate.Laws.{narrow_names-some}
use dbsgomysql.Validations.Predicate.Representable.{IsBasic, narrow_names-IsBasic}
use dbsgomysql.Validations.Grants.Types.{Grants, GrantSources, no_sources, or_sources, has_sources}
use dbsgomysql.Validations.Grants.Read.{
  PrivilegeRow, Where, everything, grantee_in, grantee_in_or_like, Server, source_for, ignored,
  grantee_predicate, grantee_predicate_with_anonymous,
}

-- A result set that is read to its end.
abbrev pub complete : List PrivilegeRow → Rows PrivilegeRow
complete [] = end none
complete (r ∷ rows) = row r (complete rows)

-- The first list is the second with some rows left out; each row with `P` is kept.
pub data Keeps (P : PrivilegeRow → Type 0) : List PrivilegeRow → List PrivilegeRow → Type 0 where
  at_end : Keeps P [] []
  kept :
      {few many : List PrivilegeRow} (r : PrivilegeRow)
      → Keeps P few many
      → Keeps P (r ∷ few) (r ∷ many)
  left_out :
      {few many : List PrivilegeRow} (r : PrivilegeRow)
      → ¬ P r
      → Keeps P few many
      → Keeps P few (r ∷ many)

abbrev pub Named : List Str → PrivilegeRow → Type 0
Named names r = contains r.grantee names ≡ true

abbrev pub NamedOrAnonymous : List Str → PrivilegeRow → Type 0
NamedOrAnonymous names r = (contains r.grantee names || has_prefix (codes "''@") r.grantee) ≡ true

-- Among the rows are, in any order, those of the table with `P`.
abbrev pub Among : (PrivilegeRow → Type 0) → List PrivilegeRow → Query PrivilegeRow → Type 0
Among P rows query =
    (few : List PrivilegeRow) × (left : List PrivilegeRow) × (query ≡ answered (complete few))
    × Perm few left
    × Keeps P left rows

-- What MySQL documents of a statement with a `WHERE` clause: if the names can be converted to the
-- character set of the grantee, and there are at most 65535 parameters with the pattern, it returns
-- the rows of the table for which the condition holds. The order of the rows is not specified, and
-- the comparison may also keep further rows.
pub record Filters (query : Where → Query PrivilegeRow) : Type 0 where
  pub all_rows : List PrivilegeRow
  pub unnarrowed : query everything ≡ answered (complete all_rows)
  pub narrowed :
      (names : List Str)
      → All IsBasic names
      → length names ≤ 65535
      → Among (Named names) all_rows (query (grantee_in names))
  pub narrowed_or_like :
      (names : List Str)
      → All IsBasic names
      → length names + 1 ≤ 65535
      → Among (NamedOrAnonymous names) all_rows (query (grantee_in_or_like names (codes "''@%")))

-- The server that returns every row to every query.
abbrev pub unnarrow : Server → Server
unnarrow server = record server {
  user_privileges = λ _. server.user_privileges everything;
  schema_privileges = λ _. server.schema_privileges everything;
  table_privileges = λ _. server.table_privileges everything;
  column_privileges = λ _. server.column_privileges everything;
}

-- The sources that some rows add up to, by what each row adds.
abbrev pub gathered : (PrivilegeRow → GrantSources) → List PrivilegeRow → GrantSources
gathered part rows = foldr (λ r s. or_sources (part r) s) no_sources rows

GrantSources-set : IsSet GrantSources
GrantSources-set = hlevel

or_sources-swap :
    (a b c : GrantSources) → or_sources a (or_sources b c) ≡ or_sources b (or_sources a c)
or_sources-swap a b c = ground arith

gathered-Keeps :
    (P : PrivilegeRow → Type 0) (part : PrivilegeRow → GrantSources)
    → ((r : PrivilegeRow) → ¬ P r → part r ≡ no_sources)
    → {few many : List PrivilegeRow} → Keeps P few many
    → gathered part few ≡ gathered part many
gathered-Keeps P part skip at_end = refl
gathered-Keeps P part skip (kept r k) = ap (or_sources (part r)) (gathered-Keeps P part skip k)
gathered-Keeps P part skip (left_out r n k) = rw (skip r n) (gathered-Keeps P part skip k)

-- A query answers with rows that add up to what the rows of the table do, whatever `part` is, if it
-- is zero at the rows without `P`.
abbrev pub Suffices : (PrivilegeRow → Type 0) → List PrivilegeRow → Query PrivilegeRow → Type 0
Suffices P rows query =
    (few : List PrivilegeRow) × (query ≡ answered (complete few))
    × ((part : PrivilegeRow → GrantSources)
        → ((r : PrivilegeRow) → ¬ P r → part r ≡ no_sources)
        → gathered part few ≡ gathered part rows)

Among-Suffices :
    (P Q : PrivilegeRow → Type 0) (rows : List PrivilegeRow) (query : Query PrivilegeRow)
    → ((r : PrivilegeRow) → Q r → P r)
    → Among P rows query
    → Suffices Q rows query
Among-Suffices P Q rows query weaker (few, left, answer, same, keeps) = (
  few,
  answer,
  λ part skip.
      Perm.foldr-eq GrantSources-set (λ r s. or_sources (part r) s)
        (λ r q s. or_sources-swap (part r) (part q) s) same no_sources
      ∙ gathered-Keeps P part (λ r n. skip r (λ q. n (weaker r q))) keeps,
)

pub grantee_predicate-Suffices :
    (query : Where → Query PrivilegeRow) (filters : Filters query) (grantees : List Str)
    → Suffices (Named grantees) filters.all_rows (query (grantee_predicate grantees))
unfolding grantee_predicate
grantee_predicate-Suffices query filters grantees = elim (Option-cases (narrow_names grantees 0)) [
  | inl wide ↦
      rw (wide, grantee_predicate) (filters.all_rows, filters.unnarrowed, λ part skip. refl)
  | inr (params, narrow) ↦
      let (_, same, few) = narrow_names-some grantees 0 params narrow in
      rw (narrow, grantee_predicate)
        (Among-Suffices (Named params) (Named grantees) filters.all_rows (query (grantee_in params))
          (λ r h. same r.grantee ∙ h)
          (filters.narrowed params (narrow_names-IsBasic grantees 0 params narrow)
            (omega (arith, few))))
]

pub grantee_predicate_with_anonymous-Suffices :
    (query : Where → Query PrivilegeRow) (filters : Filters query) (grantees : List Str)
    → Suffices
        (NamedOrAnonymous grantees)
        filters.all_rows
        (query (grantee_predicate_with_anonymous grantees))
unfolding grantee_predicate_with_anonymous
grantee_predicate_with_anonymous-Suffices query filters grantees =
    elim (Option-cases (narrow_names grantees 1)) [
      | inl wide ↦
          rw (wide, grantee_predicate_with_anonymous)
            (filters.all_rows, filters.unnarrowed, λ part skip. refl)
      | inr (params, narrow) ↦
          let (_, same, few) = narrow_names-some grantees 1 params narrow in
          rw (narrow, grantee_predicate_with_anonymous)
            (Among-Suffices (NamedOrAnonymous params) (NamedOrAnonymous grantees) filters.all_rows
              (query (grantee_in_or_like params (codes "''@%")))
              (λ r h. ap (λ b. b || has_prefix (codes "''@") r.grantee) (same r.grantee) ∙ h)
              (filters.narrowed_or_like params (narrow_names-IsBasic grantees 1 params narrow) few))
    ]

-- The names are the grantees that the fact recognises.
abbrev pub Covers : List Str → Grants → Type 0
Covers names g =
    (x : Str) → contains x names ≡ (x == g.account_grantee || contains x g.role_grantees)

-- A grantee that no name covers is neither the account nor a role.
unnamed :
    (g : Grants) (names : List Str) (x : Str)
    → Covers names g
    → contains x names ≡ false
    → ((x == g.account_grantee) ≡ false) × (contains x g.role_grantees ≡ false)
unnamed g names x c n = ground (arith, c x)

pub source_for-ignored :
    (g : Grants) (names : List Str) (r : PrivilegeRow)
    → Covers names g
    → ¬ Named names r
    → ignored (source_for g r.grantee) ≡ true
unfolding source_for
source_for-ignored g names r c n = elim (Bool-cases (contains r.grantee names)) [
  | inl named ↦ absurd (n named)
  | inr other ↦ ground (arith, unnamed g names r.grantee c other)
]

anonymous_prefix :
    (s : Str) → has_prefix (codes "''@") s ≡ false → has_prefix (codes "''@'") s ≡ false
unfolding has_prefix
anonymous_prefix [] e = refl
anonymous_prefix (a ∷ []) e = ground (arith, e)
anonymous_prefix (a ∷ b ∷ []) e = ground (arith, e)
anonymous_prefix (a ∷ b ∷ c ∷ s) e = ground (arith, e)

pub source_for-no_sources :
    (g : Grants) (names : List Str) (r : PrivilegeRow)
    → Covers names g
    → ¬ NamedOrAnonymous names r
    → not (has_sources (source_for g r.grantee)) ≡ true
unfolding source_for
source_for-no_sources g names r c n =
    elim (Bool-cases (contains r.grantee names || has_prefix (codes "''@") r.grantee)) [
      | inl named ↦ absurd (n named)
      | inr other ↦ ground (
        arith,
        unnamed g names r.grantee c (ground (arith, other)),
        anonymous_prefix r.grantee (ground (arith, other)),
      )
    ]
