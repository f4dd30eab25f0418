-- ===== src/Validations/ForeignKeys/Select.antt =====
-- pkg/validations/foreign_keys.go: the keys that a selector asks for, in its order. sort.Slice is
-- an insertion sort here, so that keys it cannot tell apart keep their order.
pub mod Laws
pub mod Order
pub mod Groups
use dbsgomysql.Prelude.{
  modify, Bool, List, Str, [], contains, false, if◌then◌else◌, list_eq, nat_eq, not, read, ◌&&◌,
  ◌++◌, ◌==◌, ◌||◌, ◌∷◌,
}
use dbsgomysql.Golang.Strings.{str_lt}
use dbsgomysql.Validations.ForeignKeys.Types.{
  ForeignKey, FkSelector, FkSelectorKind, invalid, incoming, outgoing, within,
}

-- The requested table that a key belongs to, and whether it does.
unfoldable pub foreign_key_selector_table :
    ForeignKey → Str → List Str → FkSelectorKind → Str × Bool
foreign_key_selector_table key schema table_set incoming =
    (key.parent_table, (key.parent_schema == schema) && contains key.parent_table table_set)
foreign_key_selector_table key schema table_set outgoing =
    (key.child_table, (key.child_schema == schema) && contains key.child_table table_set)
foreign_key_selector_table key schema table_set within =
    if not (key.child_schema == schema) || not (key.parent_schema == schema) then ([], false) else (
      key.child_table,
      contains key.child_table table_set && contains key.parent_table table_set,
    )
foreign_key_selector_table key schema table_set invalid = ([], false)

-- byRequested: the keys of each requested table, in the order of the input.
unfoldable pub by_requested :
    Str
    → List Str
    → FkSelectorKind
    → List ForeignKey
    → List (Str × List ForeignKey)
    → List (Str × List ForeignKey)
unfolding foreign_key_selector_table
by_requested schema table_set kind [] m = m
by_requested schema table_set kind (key ∷ keys) m =
    let (requested, found) = foreign_key_selector_table key schema table_set kind in
    by_requested schema table_set kind keys
      (if not found then m else modify [] (λ ks. ks ++ key ∷ []) requested m)

-- The order of the facts of one requested table.
unfoldable pub key_before : ForeignKey → ForeignKey → Bool
key_before l r =
    if not (l.child_schema == r.child_schema)
    then str_lt l.child_schema r.child_schema
    else if not (l.child_table == r.child_table)
    then str_lt l.child_table r.child_table
    else str_lt l.constraint_name r.constraint_name

insert_key : ForeignKey → List ForeignKey → List ForeignKey
insert_key k [] = k ∷ []
insert_key k (l ∷ ls) =
    let later = insert_key k ls in if key_before l k then l ∷ later else k ∷ l ∷ ls

unfoldable pub sort_keys : List ForeignKey → List ForeignKey
unfolding insert_key key_before
sort_keys [] = []
sort_keys (k ∷ ks) = insert_key k (sort_keys ks)

-- The loop over sel.tables.
unfoldable pub select_tables : List Str → List (Str × List ForeignKey) → List ForeignKey
unfolding sort_keys
select_tables [] m = []
select_tables (table ∷ tables) m = sort_keys (read [] table m) ++ select_tables tables m

unfoldable pub select_foreign_keys : List ForeignKey → Str → FkSelector → List ForeignKey
unfolding by_requested select_tables
select_foreign_keys keys schema sel =
    select_tables sel.tables (by_requested schema sel.tables sel.kind keys [])
