-- ===== src/Validations/Inspector/Laws.antt =====
-- pkg/validations/inspector.go: which arguments pass, and what is reported of the others.
use dbsgomysql.Prelude.{
  All, Bool-cases, List, Option-cases, Str, [], ap, arith, false, inl, inr, is_empty, length,
  list_eq, nat_eq, none, refl, some, true, ℕ, ◌++◌, ◌+◌, ◌↔◌, ◌∙◌, ◌∷◌, ◌≡◌,
}
use dbsgomysql.Validations.Inspector.{
  new_object_error, Inspector, err_empty_table_name, first_empty, validate,
}

abbrev pub Named : Str → Type 0
Named table = is_empty table ≡ false

-- The first table without a name is at index `n`, counted from `index`.
abbrev pub FirstUnnamed : ℕ → ℕ → List Str → Type 0
FirstUnnamed index n tables =
    (before : List Str) × (after : List Str) × (tables ≡ before ++ [] ∷ after)
    × (index + length before ≡ n)
    × All Named before

nameless : (table : Str) → is_empty table ≡ true → table ≡ []
nameless [] e = refl
nameless (c ∷ table) e = ground (arith, e)

first_empty-none :
    (index : ℕ) (tables : List Str) → (first_empty index tables ≡ none) ↔ All Named tables
unfolding first_empty
first_empty-none index [] = (λ _. tt, λ _. refl)
first_empty-none index (table ∷ tables) = ground (arith, first_empty-none (index + 1) tables)

first_empty-some :
    (index n : ℕ) (tables : List Str)
    → first_empty index tables ≡ some n
    → FirstUnnamed index n tables
unfolding first_empty
first_empty-some index n [] e = cc
first_empty-some index n (table ∷ tables) e = elim (Bool-cases (is_empty table)) [
  | inl h ↦ ([], tables, ap (λ t. t ∷ tables) (nameless table h), ground (arith, h, e), tt)
  | inr h ↦
      let (before, after, same, count, named) =
        first_empty-some (index + 1) n tables (ground (arith, h, e)) in
      (table ∷ before, after, ap (λ ts. table ∷ ts) same, omega (arith, count), (h, named))
]

first_empty-from :
    (index : ℕ) (before after : List Str)
    → All Named before
    → first_empty index (before ++ [] ∷ after) ≡ some (index + length before)
unfolding first_empty
first_empty-from index [] after named = ap some (omega arith)
first_empty-from index (table ∷ before) after (h, named) =
    ground (arith, h, first_empty-from (index + 1) before after named)

first_empty-some_iff :
    (n : ℕ) (tables : List Str) → (first_empty 0 tables ≡ some n) ↔ FirstUnnamed 0 n tables
first_empty-some_iff n tables = (
  first_empty-some 0 n tables,
  λ (before, after, same, count, named).
      ap (first_empty 0) same ∙ first_empty-from 0 before after named ∙ ap some count,
)

-- The arguments pass if and only if the querier is not nil, the schema has a name and so has every
-- table.
pub validate-none_iff :
    (i : Inspector) (op : Str) (tables : List Str)
    → (validate (some i) op tables ≡ none)
      ↔ ((i.nil_querier ≡ false) × (is_empty i.schema ≡ false) × All Named tables)
unfolding validate
validate-none_iff i op tables = ground (arith, first_empty-none 0 tables)

-- With a querier and a schema, the error names the first table without a name: it has index `n` if
-- and only if all tables before the one at `n` have names and that one has none.
pub validate-unnamed_iff :
    (i : Inspector) (op : Str) (tables : List Str) (n : ℕ)
    → i.nil_querier ≡ false
    → is_empty i.schema ≡ false
    → (validate (some i) op tables
        ≡ some (new_object_error op i.schema [] (err_empty_table_name n)))
      ↔ FirstUnnamed 0 n tables
unfolding validate
validate-unnamed_iff i op tables n q s = elim (Option-cases (first_empty 0 tables)) [
  | inl h ↦ (
    λ e. (first_empty-some_iff n tables).0 (ground (arith, h, e)),
    λ f. ground (arith, h, (first_empty-some_iff n tables).1 f),
  )
  | inr (m, h) ↦ (
    λ e. (first_empty-some_iff n tables).0 (ground (arith, h, e)),
    λ f. ground (arith, h, (first_empty-some_iff n tables).1 f),
  )
]
