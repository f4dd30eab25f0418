-- ===== src/Validations/ForeignKeys/Select/Laws.antt =====
-- Which keys are selected.
use dbsgomysql.Prelude.{
  modify, Bool, Bool-cases, List, Str, [], all, ap, append-nil, append_assoc, arith, contains,
  eq_iff, false, if◌then◌else◌, inl, inr, keep, list_eq, nat_eq, not, read, read-modify, refl, sym,
  true, ◌&&◌, ◌++◌, ◌==◌, ◌||◌, ◌∙◌, ◌∷◌, ◌≡◌,
}
use dbsgomysql.Validations.ForeignKeys.Types.{
  ForeignKey, FkSelector, invalid, incoming, outgoing, within,
}
use dbsgomysql.Validations.ForeignKeys.Select.{
  foreign_key_selector_table, by_requested, insert_key, sort_keys, select_tables,
  select_foreign_keys,
}

-- The keys of a requested table: those whose test succeeds with that table.
abbrev pub belongs : Str → FkSelector → Str → ForeignKey → Bool
belongs schema sel table key =
    let (requested, found) = foreign_key_selector_table key schema sel.tables sel.kind in
    found && (requested == table)

-- What one key adds to the table's list.
read-step :
    (m : List (Str × List ForeignKey)) (requested table : Str) (found : Bool) (key : ForeignKey)
    (rest : List ForeignKey)
    → read [] table (if not found then m else modify [] (λ ks. ks ++ key ∷ []) requested m) ++ rest
      ≡ read [] table m ++ (if found && (requested == table) then key ∷ rest else rest)
read-step m requested table false key rest = refl
read-step m requested table true key rest = elim (Bool-cases (requested == table)) [
  | inl same ↦
      let e : requested ≡ table = (eq_iff requested table).0 same in
      rw (read-modify [] (λ ks. ks ++ key ∷ []) requested table m, same, e)
        (append_assoc (read [] table m) (key ∷ []) rest)
  | inr other ↦ rw (read-modify [] (λ ks. ks ++ key ∷ []) requested table m, other) refl
]

by_requested-read :
    (schema : Str) (sel : FkSelector) (keys : List ForeignKey) (m : List (Str × List ForeignKey))
    (table : Str)
    → read [] table (by_requested schema sel.tables sel.kind keys m)
      ≡ read [] table m ++ keep (belongs schema sel table) keys
unfolding by_requested
by_requested-read schema sel [] m table = sym (append-nil (read [] table m))
by_requested-read schema sel (key ∷ keys) m table =
    let (requested, found) = foreign_key_selector_table key schema sel.tables sel.kind in
    by_requested-read schema sel keys _ table
    ∙ read-step m requested table found key (keep (belongs schema sel table) keys)

-- Table after table in the order of the request, the sorted list of the keys of the table.
abbrev pub reference_selection : Str → FkSelector → List ForeignKey → List Str → List ForeignKey
reference_selection schema sel keys [] = []
reference_selection schema sel keys (table ∷ tables) =
    sort_keys (keep (belongs schema sel table) keys) ++ reference_selection schema sel keys tables

select_tables-reference :
    (schema : Str) (sel : FkSelector) (keys : List ForeignKey) (tables : List Str)
    → select_tables tables (by_requested schema sel.tables sel.kind keys [])
      ≡ reference_selection schema sel keys tables
unfolding select_tables read
select_tables-reference schema sel keys [] = refl
select_tables-reference schema sel keys (table ∷ tables) =
    rw (by_requested-read schema sel keys [] table, select_tables-reference schema sel keys tables)
      refl

-- A selector's answer is, table after table in the order of the request and repeated where a table
-- is, the sorted list of the keys that belong to the table.
pub select_foreign_keys-reference :
    (keys : List ForeignKey) (schema : Str) (sel : FkSelector)
    → select_foreign_keys keys schema sel ≡ reference_selection schema sel keys sel.tables
unfolding select_foreign_keys
select_foreign_keys-reference keys schema sel = select_tables-reference schema sel keys sel.tables

module _ (p : ForeignKey → Bool) where
  all-append : (xs ys : List ForeignKey) → all p (xs ++ ys) ≡ (all p xs && all p ys)
  all-append [] ys = refl
  all-append (x ∷ xs) ys = ground (arith, all-append xs ys)

  all-insert_key :
      (k : ForeignKey) (ks : List ForeignKey) → all p (insert_key k ks) ≡ (p k && all p ks)
  unfolding insert_key
  all-insert_key k [] = refl
  all-insert_key k (l ∷ ls) = ground (arith, all-insert_key k ls)

  all-sort_keys : (ks : List ForeignKey) → all p (sort_keys ks) ≡ all p ks
  unfolding sort_keys
  all-sort_keys [] = refl
  all-sort_keys (k ∷ ks) = all-insert_key k (sort_keys ks) ∙ ap (λ b. p k && b) (all-sort_keys ks)

  all-keep :
      (q : ForeignKey → Bool) (ks : List ForeignKey)
      → all p (keep q ks) ≡ all (λ k. not (q k) || p k) ks
  all-keep q [] = refl
  all-keep q (k ∷ ks) = ground (arith, all-keep q ks)

all-and :
    (f g h : ForeignKey → Bool)
    → ((k : ForeignKey) → (f k && g k) ≡ h k)
    → (ks : List ForeignKey) → (all f ks && all g ks) ≡ all h ks
all-and f g h e [] = refl
all-and f g h e (k ∷ ks) = ground (arith, e k, all-and f g h e ks)

all-same :
    (f g : ForeignKey → Bool)
    → ((k : ForeignKey) → f k ≡ g k)
    → (ks : List ForeignKey) → all f ks ≡ all g ks
all-same f g e [] = refl
all-same f g e (k ∷ ks) = ground (arith, e k, all-same f g e ks)

-- The test of a key, and the table it is filed under.
abbrev pub selected : Str → FkSelector → ForeignKey → Bool
selected schema sel key = (foreign_key_selector_table key schema sel.tables sel.kind).1

abbrev filed : Str → FkSelector → ForeignKey → Str
filed schema sel key = (foreign_key_selector_table key schema sel.tables sel.kind).0

selected-filed :
    (schema : Str) (sel : FkSelector) (key : ForeignKey)
    → (selected schema sel key && contains (filed schema sel key) sel.tables)
      ≡ selected schema sel key
unfolding foreign_key_selector_table
selected-filed schema sel key =
    elim sel.kind
      as (λ kind.
        ((foreign_key_selector_table key schema sel.tables kind).1
          && contains (foreign_key_selector_table key schema sel.tables kind).0 sel.tables)
        ≡ (foreign_key_selector_table key schema sel.tables kind).1) [
          | invalid ↦ refl
          | incoming ↦ ground arith
          | outgoing ↦ ground arith
          | within ↦ ground arith
        ]

-- A key that is filed under one of the tables passes.
abbrev passes : (ForeignKey → Bool) → Str → FkSelector → List Str → ForeignKey → Bool
passes p schema sel tables k =
    not (selected schema sel k && contains (filed schema sel k) tables) || p k

all-passes-nil :
    (p : ForeignKey → Bool) (schema : Str) (sel : FkSelector) (keys : List ForeignKey)
    → all (passes p schema sel []) keys ≡ true
unfolding contains
all-passes-nil p schema sel [] = refl
all-passes-nil p schema sel (k ∷ keys) = ground (arith, all-passes-nil p schema sel keys)

passes-cons :
    (p : ForeignKey → Bool) (schema : Str) (sel : FkSelector) (table : Str) (tables : List Str)
    (k : ForeignKey)
    → ((not (belongs schema sel table k) || p k) && passes p schema sel tables k)
      ≡ passes p schema sel (table ∷ tables) k
unfolding contains
passes-cons p schema sel table tables k = ground arith

all-reference :
    (p : ForeignKey → Bool) (schema : Str) (sel : FkSelector) (keys : List ForeignKey)
    (tables : List Str)
    → all p (reference_selection schema sel keys tables) ≡ all (passes p schema sel tables) keys
all-reference p schema sel keys [] = sym (all-passes-nil p schema sel keys)
all-reference p schema sel keys (table ∷ tables) =
    rw
      (
        all-append p (sort_keys (keep (belongs schema sel table) keys))
            (reference_selection schema sel keys tables),
        all-sort_keys p (keep (belongs schema sel table) keys),
        all-keep p (belongs schema sel table) keys,
        all-reference p schema sel keys tables,
      )
      (all-and (λ k. not (belongs schema sel table k) || p k) (passes p schema sel tables)
        (passes p schema sel (table ∷ tables)) (passes-cons p schema sel table tables) keys)

-- The selection has exactly the selected keys: a test passes for all of the selection if and only
-- if it passes for each key that the selector asks for.
pub all-select_foreign_keys :
    (p : ForeignKey → Bool) (keys : List ForeignKey) (schema : Str) (sel : FkSelector)
    → all p (select_foreign_keys keys schema sel)
      ≡ all (λ k. not (selected schema sel k) || p k) keys
all-select_foreign_keys p keys schema sel =
    ap (all p) (select_foreign_keys-reference keys schema sel)
    ∙ all-reference p schema sel keys sel.tables
    ∙ all-same _ _ (λ k. ap (λ b. not b || p k) (selected-filed schema sel k)) keys
