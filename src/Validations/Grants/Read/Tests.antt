-- ===== src/Validations/Grants/Read/Tests.antt =====
-- A server that filters its tables, and a run of `Grants` against it.
use mathlib.Core.List.{reverse, reverse_perm}
use dbsgomysql.Prelude.{
  All, Bool, Bool-cases, List, Str, [], any, arith, codes, contains, false, false≢true,
  if◌then◌else◌, inl, inr, keep, length, list_eq, ltb, nat_eq, none, not, refl, sym, true, ℕ, ◌+◌,
  ◌||◌, ◌∙◌, ◌∷◌, ◌≡◌, ◌≤◌,
}
use dbsgomysql.Golang.Strings.{has_prefix}
use dbsgomysql.Golang.Sql.{answered, rejected, end, Query}
use dbsgomysql.Validations.Predicate.{representable}
use dbsgomysql.Validations.Predicate.Representable.{IsBasic, representable_iff}
use dbsgomysql.Validations.Grants.Types.{pinned}
use dbsgomysql.Validations.Grants.Read.{
  Where, everything, grantee_in, grantee_in_or_like, value, Server, PrivilegeRow, read_grants,
}
use dbsgomysql.Validations.Grants.Read.Narrowing.{Agree, FiltersAll, read_grants-unnarrow}
use dbsgomysql.Validations.Grants.Read.Passing.{
  Among, Filters, Keeps, at_end, complete, kept, left_out, unnarrow,
}

keep-Keeps :
    (p : PrivilegeRow → Bool) (rows : List PrivilegeRow)
    → Keeps (λ r. p r ≡ true) (keep p rows) rows
keep-Keeps p [] = at_end
keep-Keeps p (r ∷ rows) = elim (Bool-cases (p r)) [
  | inl in_rows ↦ rw in_rows (kept r (keep-Keeps p rows))
  | inr out ↦ rw out (left_out r (λ in_rows. false≢true (sym out ∙ in_rows)) (keep-Keeps p rows))
]

-- The rows that pass, the last one first, unless a name cannot be converted or there are too many
-- parameters.
abbrev narrowed_to : (PrivilegeRow → Bool) → List Str → ℕ → List PrivilegeRow → Query PrivilegeRow
narrowed_to p names parameters rows =
    if any (λ name. not (representable name)) names
    then rejected (codes "Error 3988")
    else if ltb 65535 parameters
    then rejected (codes "Error 1390")
    else answered (complete (reverse (keep p rows)))

-- The only pattern that the code sends is `''@%`.
abbrev filtering : List PrivilegeRow → Where → Query PrivilegeRow
filtering rows everything = answered (complete rows)
filtering rows (grantee_in names) =
    narrowed_to (λ r. contains r.grantee names) names (length names) rows
filtering rows (grantee_in_or_like names _) =
    narrowed_to (λ r. contains r.grantee names || has_prefix (codes "''@") r.grantee) names
      (length names + 1) rows

any_basic :
    (names : List Str) → All IsBasic names → any (λ name. not (representable name)) names ≡ false
any_basic [] h = refl
any_basic (n ∷ names) (h, hs) = ground (arith, (representable_iff n).1 h, any_basic names hs)

narrowed_to-Among :
    (p : PrivilegeRow → Bool) (names : List Str) (parameters : ℕ) (rows : List PrivilegeRow)
    → All IsBasic names
    → parameters ≤ 65535
    → Among (λ r. p r ≡ true) rows (narrowed_to p names parameters rows)
narrowed_to-Among p names parameters rows basic few = (
  reverse (keep p rows),
  keep p rows,
  ground (arith, any_basic names basic),
  reverse_perm (keep p rows),
  keep-Keeps p rows,
)

filtering-Filters : (rows : List PrivilegeRow) → Filters (filtering rows)
filtering-Filters rows = record {
  all_rows = rows;
  unnarrowed = refl;
  narrowed = λ names basic few. narrowed_to-Among _ names (length names) rows basic few;
  narrowed_or_like = λ names basic few. narrowed_to-Among _ names (length names + 1) rows basic few;
}

abbrev granted : Str → Str → PrivilegeRow
granted grantee privilege = record {
  grantee = grantee;
  schema = codes "shop";
  table = codes "orders";
  privilege = privilege;
}

abbrev rows_of_three : List PrivilegeRow
rows_of_three =
    granted (codes "'app'@'%'") (codes "SELECT")
    ∷ granted (codes "'other'@'%'") (codes "DELETE")
    ∷ granted (codes "''@'%'") (codes "INSERT")
    ∷ []

abbrev server : Server
server = record {
  affinity = pinned;
  current_user = value (codes "app@%");
  enabled_roles = answered (end none);
  partial_revokes = value 0;
  user_privileges = filtering rows_of_three;
  schema_privileges = filtering rows_of_three;
  table_privileges = filtering rows_of_three;
  column_privileges = filtering [];
}

server-FiltersAll : FiltersAll server
server-FiltersAll = record {
  user_privileges = filtering-Filters rows_of_three;
  schema_privileges = filtering-Filters rows_of_three;
  table_privileges = filtering-Filters rows_of_three;
  column_privileges = filtering-Filters [];
}

read_grants-unnarrow_example : Agree (read_grants server) (read_grants (unnarrow server))
read_grants-unnarrow_example = read_grants-unnarrow server server-FiltersAll
