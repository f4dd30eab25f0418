-- ===== src/Validations/ForeignKeys/Select/Groups.antt =====
-- The keys that selectForeignKeys returns, table by table, said without its tests.
use dbsgomysql.Prelude.{
  Bool, Bool-cases, In, List, Str, [], arith, contains, eq_iff, eq_refl, false≢true, inl, inr, keep,
  list_eq, nat_eq, refl, sym, true, ◌&&◌, ◌++◌, ◌==◌, ◌↔◌, ◌∙◌, ◌∷◌, ◌≡◌,
}
use dbsgomysql.Validations.ForeignKeys.Types.{
  ForeignKey, FkSelector, FkSelectorKind, invalid, incoming, outgoing, within,
}
use dbsgomysql.Validations.ForeignKeys.Select.{
  foreign_key_selector_table, sort_keys, select_foreign_keys,
}
use dbsgomysql.Validations.ForeignKeys.Select.Laws.{
  belongs, reference_selection, select_foreign_keys-reference,
}
use dbsgomysql.Validations.ForeignKeys.Select.Order.{IsSorted, sort_keys-IsSorted, sort_keys-Perm}
use mathlib.Core.List.{Perm}

-- A selector of this kind returns the key for a table of the schema.
abbrev pub Wanted : FkSelectorKind → Str → List Str → Str → ForeignKey → Type 0
Wanted incoming schema tables table key = (key.parent_schema ≡ schema) × (key.parent_table ≡ table)
Wanted outgoing schema tables table key = (key.child_schema ≡ schema) × (key.child_table ≡ table)
Wanted within schema tables table key =
    (key.child_schema ≡ schema)
    × (key.parent_schema ≡ schema)
    × (key.child_table ≡ table)
    × In key.parent_table tables
Wanted invalid schema tables table key = ⊥

-- The second list has exactly the members of the first with `P`, in their order.
pub data Picks (P : ForeignKey → Type 0) : List ForeignKey → List ForeignKey → Type 0 where
  no_more : Picks P [] []
  picked :
      {keys few : List ForeignKey} (key : ForeignKey)
      → P key
      → Picks P keys few
      → Picks P (key ∷ keys) (key ∷ few)
  passed :
      {keys few : List ForeignKey} (key : ForeignKey)
      → ¬ P key
      → Picks P keys few
      → Picks P (key ∷ keys) few

-- An answer is made of a group for each table, in the order of the tables: all keys that are wanted
-- for the table, sorted.
abbrev pub Groups : Str → FkSelector → List ForeignKey → List Str → List ForeignKey → Type 0
Groups schema sel keys [] answer = answer ≡ []
Groups schema sel keys (table ∷ tables) answer =
    (few : List ForeignKey) × (group : List ForeignKey) × (rest : List ForeignKey) × (answer
      ≡ group ++ rest)
    × Picks (Wanted sel.kind schema sel.tables table) keys few
    × Perm group few
    × IsSorted group
    × Groups schema sel keys tables rest

contains_iff-In : (x : Str) (xs : List Str) → (contains x xs ≡ true) ↔ In x xs
unfolding contains
contains_iff-In x [] = ground arith
contains_iff-In x (y ∷ xs) = ground (arith, eq_iff x y, eq_iff y x, contains_iff-In x xs)

contains-eq : (x y : Str) (xs : List Str) → contains y xs ≡ true → x ≡ y → contains x xs ≡ true
contains-eq x y xs h e = rw e h

belongs_iff :
    (schema : Str) (sel : FkSelector) (table : Str) (key : ForeignKey)
    → contains table sel.tables ≡ true
    → (belongs schema sel table key ≡ true) ↔ Wanted sel.kind schema sel.tables table key
unfolding foreign_key_selector_table
belongs_iff schema sel table key h =
    elim sel.kind
      as (λ kind.
        (let (requested, found) = foreign_key_selector_table key schema sel.tables kind in
          (found && (requested == table)) ≡ true)
        ↔ Wanted kind schema sel.tables table key) [
          | invalid ↦ ground arith
          | incoming ↦ ground (
            arith,
            eq_iff key.parent_schema schema,
            eq_iff key.parent_table table,
            contains-eq key.parent_table table sel.tables h,
          )
          | outgoing ↦ ground (
            arith,
            eq_iff key.child_schema schema,
            eq_iff key.child_table table,
            contains-eq key.child_table table sel.tables h,
          )
          | within ↦ ground (
            arith,
            eq_iff key.child_schema schema,
            eq_iff key.parent_schema schema,
            eq_iff key.child_table table,
            contains-eq key.child_table table sel.tables h,
            contains_iff-In key.parent_table sel.tables,
          )
        ]

keep-Picks :
    (p : ForeignKey → Bool) (P : ForeignKey → Type 0)
    → ((key : ForeignKey) → (p key ≡ true) ↔ P key)
    → (keys : List ForeignKey) → Picks P keys (keep p keys)
keep-Picks p P h [] = no_more
keep-Picks p P h (key ∷ keys) = elim (Bool-cases (p key)) [
  | inl in_keys ↦ rw in_keys (picked key ((h key).0 in_keys) (keep-Picks p P h keys))
  | inr out ↦ rw out (passed key (λ w. false≢true (sym out ∙ (h key).1 w)) (keep-Picks p P h keys))
]

reference_selection-Groups :
    (schema : Str) (sel : FkSelector) (keys : List ForeignKey) (tables : List Str)
    → ((x : Str) → contains x tables ≡ true → contains x sel.tables ≡ true)
    → Groups schema sel keys tables (reference_selection schema sel keys tables)
reference_selection-Groups schema sel keys [] inside = refl
reference_selection-Groups schema sel keys (table ∷ tables) inside = (
  keep (belongs schema sel table) keys,
  sort_keys (keep (belongs schema sel table) keys),
  reference_selection schema sel keys tables,
  refl,
  keep-Picks (belongs schema sel table) (Wanted sel.kind schema sel.tables table)
      (λ key.
        belongs_iff schema sel table key
          (inside table (unfold contains in ground (arith, eq_refl table))))
      keys,
  sort_keys-Perm (keep (belongs schema sel table) keys),
  sort_keys-IsSorted (keep (belongs schema sel table) keys),
  reference_selection-Groups schema sel keys tables
      (λ x h. inside x (unfold contains in ground (arith, h))),
)

-- A selector's answer is made of a group for each requested table, in the order of the request and
-- repeated where a table is. The group has exactly the given keys of the table: those with the
-- table as parent for an incoming selector, as child for an outgoing one, and as child of a parent
-- among the requested tables for one that stays within the set. It is sorted by child schema,
-- child table and constraint name.
pub select_foreign_keys-Groups :
    (keys : List ForeignKey) (schema : Str) (sel : FkSelector)
    → Groups schema sel keys sel.tables (select_foreign_keys keys schema sel)
select_foreign_keys-Groups keys schema sel =
    rw (select_foreign_keys-reference keys schema sel)
      (reference_selection-Groups schema sel keys sel.tables (λ x h. h))
