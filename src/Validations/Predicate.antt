-- ===== src/Validations/Predicate.antt =====
-- pkg/validations/predicate.go: which names can narrow a query, and the parameters that do.
pub mod Laws
pub mod Representable
mod Tests
use dbsgomysql.Prelude.{
  Bool, List, Option, Str, [], any, codes, contains, false, if◌then◌else◌, is_empty, length,
  list_eq, ltb, nat_eq, none, not, some, suc, true, zero, ℕ, ◌++◌, ◌+◌, ◌-◌, ◌||◌, ◌∷◌,
}
use dbsgomysql.Golang.Utf8.{runes, valid_string}

abbrev pub max_statement_parameters : ℕ
max_statement_parameters = 65535

abbrev pub max_point_lookup_tables : ℕ
max_point_lookup_tables = 2048

-- The returns of the loop over the runes of the name.
unfoldable pub representable : Str → Bool
representable name =
    if not (valid_string name)
    then false
    else if any (λ char. ltb 65535 char) (runes name)
    then false
    else true

-- The loop over `names`, with the keys of the map `seen` and the slice `params`.
unfoldable pub distinct_from : List Str → List Str → List Str → List Str
distinct_from seen params [] = params
distinct_from seen params (name ∷ names) =
    let skipped = distinct_from seen params names in
    let taken = distinct_from (name ∷ seen) (params ++ name ∷ []) names in
    if contains name seen then skipped else taken

unfoldable pub narrow_names : List Str → ℕ → Option (List Str)
unfolding representable distinct_from
narrow_names names fixed_args =
    if any (λ name. not (representable name)) names
    then none
    else let params = distinct_from [] [] names in
      if ltb max_statement_parameters (length params + fixed_args) then none else some params

-- strings.TrimSuffix(strings.Repeat("?,", count), ",")
unfoldable pub sql_placeholders : ℕ → Str
sql_placeholders zero = []
sql_placeholders (suc zero) = codes "?"
sql_placeholders (suc (suc count)) = codes "?," ++ sql_placeholders (suc count)

-- The text that the builder holds behind `n` further rounds of its loop.
repeated : ℕ → Str
repeated zero = []
repeated (suc n) = codes "\n\tUNION ALL SELECT ?, ?" ++ repeated n

request_args : Str → List Str → List Str
request_args schema [] = []
request_args schema (table ∷ params) = schema ∷ table ∷ request_args schema params

-- The derived table and its arguments.
unfoldable pub requested_objects : Str → List Str → Option (Str × List Str)
unfolding narrow_names repeated request_args
requested_objects schema tables =
    if not (representable schema) || is_empty tables then none else elim (narrow_names tables 0) [
      | none ↦ none
      | some params ↦
          if ltb max_point_lookup_tables (length params)
          then none
          else some (
            codes "(SELECT ? AS TABLE_SCHEMA, ? AS TABLE_NAME"
                ++ repeated (length params - 1)
                ++ codes ") AS requested",
            request_args schema params,
          )
    ]
