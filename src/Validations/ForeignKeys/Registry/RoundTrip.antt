-- ===== src/Validations/ForeignKeys/Registry/RoundTrip.antt =====
-- The rows that InnoDB keeps of its constraints, and what the reader makes of them.
use dbsgomysql.Prelude.{
  All, List, Option, Str, [], ap, append-nil, append_assoc, arith, eq_refl, false, is_empty, length,
  list_eq, map, nat_eq, none, not, refl, some, sym, true, ℕ, ◌++◌, ◌+◌, ◌==◌, ◌||◌, ◌∙◌, ◌∷◌, ◌≡◌,
}
use dbsgomysql.Golang.Sql.{ok-injective, ok, Rows, end, row}
use dbsgomysql.Validations.ForeignKeys.Types.{ForeignKey}
use dbsgomysql.Validations.ForeignKeys.Registry.{
  slash, InnodbRow, Group, foreign_key, new_group, finish, open_group, add_row, scan_rows,
  scan_innodb_foreign_keys,
}
use dbsgomysql.Validations.ForeignKeys.Registry.Rules.{
  Rule, rule_text, delete_flag, update_flag, decode_innodb_rules-flags,
}
use dbsgomysql.Validations.ForeignKeys.Registry.Names.{Splits, split-join}

-- A constraint as InnoDB knows it; each column with the one that it refers to.
pub record Constraint : Type 0 where
  pub name : Str
  pub child_schema : Str
  pub child_table : Str
  pub parent_schema : Str
  pub parent_table : Str
  pub columns : List (Str × Str)
  pub on_delete : Rule
  pub on_update : Rule

pub record IsValid (c : Constraint) : Type 0 where
  pub name : Splits c.child_schema c.name
  pub child : Splits c.child_schema c.child_table
  pub parent : Splits c.parent_schema c.parent_table
  pub columns : is_empty c.columns ≡ false

abbrev pub children : List (Str × Str) → List Str
children columns = map (λ c. c.0) columns

abbrev pub parents : List (Str × Str) → List Str
parents columns = map (λ c. c.1) columns

-- The fact that the package reports of a constraint.
abbrev pub fact_of : Constraint → ForeignKey
fact_of c = record {
  constraint_name = c.name;
  child_schema = c.child_schema;
  child_table = c.child_table;
  child_columns = children c.columns;
  parent_schema = c.parent_schema;
  parent_table = c.parent_table;
  parent_columns = parents c.columns;
  on_delete = rule_text c.on_delete;
  on_update = rule_text c.on_update;
  indexed = true;
}

abbrev pub id_of : Constraint → Str
id_of c = c.child_schema ++ slash ∷ c.name

abbrev pub row_of : Constraint → ℕ → Str × Str → InnodbRow
row_of c position column = record {
  id = id_of c;
  for_name = c.child_schema ++ slash ∷ c.child_table;
  ref_name = c.parent_schema ++ slash ∷ c.parent_table;
  column_count = length c.columns;
  flags = delete_flag c.on_delete + update_flag c.on_update;
  child_column = column.0;
  parent_column = column.1;
  position = position;
}

-- The rows of a constraint's columns, numbered from a position on, in front of others.
abbrev pub rows_of : Constraint → ℕ → List (Str × Str) → Rows InnodbRow → Rows InnodbRow
rows_of c position [] rows = rows
rows_of c position (column ∷ columns) rows =
    row (row_of c position column) (rows_of c (position + 1) columns rows)

-- The rows of a registry, in the order of the query.
abbrev pub registry : List Constraint → Rows InnodbRow
registry [] = end none
registry (c ∷ cs) = rows_of c 1 c.columns (registry cs)

-- No two neighbours have the same identifier.
abbrev pub Apart : List Constraint → Type 0
Apart [] = Unit
Apart (c ∷ []) = Unit
Apart (c ∷ d ∷ cs) = ((id_of c == id_of d) ≡ false) × Apart (d ∷ cs)

-- The group after some columns of a constraint.
abbrev pub group_of : Constraint → List (Str × Str) → ℕ → Group
group_of c seen next = record {
  id = id_of c;
  for_name = c.child_schema ++ slash ∷ c.child_table;
  ref_name = c.parent_schema ++ slash ∷ c.parent_table;
  column_count = length c.columns;
  flags = delete_flag c.on_delete + update_flag c.on_update;
  child_columns = children seen;
  parent_columns = parents seen;
  next_position = next;
}

length-map : {A B : Type 0} (f : A → B) (xs : List A) → length (map f xs) ≡ length xs
length-map f [] = refl
length-map f (x ∷ xs) = omega (arith, length-map f xs)

counted :
    (columns : List (Str × Str))
    → is_empty columns ≡ false
    → ((length columns == 0) || not (length (children columns) == length columns)) ≡ false
counted [] e = ground (arith, e)
counted (x ∷ xs) e = ground (arith, length-map (λ c. c.0) xs)

foreign_key-group_of :
    (c : Constraint) (n : ℕ) → IsValid c → foreign_key (group_of c c.columns n) ≡ ok (fact_of c)
unfolding foreign_key
foreign_key-group_of c n v =
    rw
      (
        split-join c.child_schema c.name v.name,
        split-join c.child_schema c.child_table v.child,
        split-join c.parent_schema c.parent_table v.parent,
        eq_refl c.child_schema,
        decode_innodb_rules-flags c.on_delete c.on_update,
        counted c.columns v.columns,
      )
      refl

pub map-snoc :
    (f : Str × Str → Str) (seen : List (Str × Str)) (x : Str × Str)
    → map f seen ++ f x ∷ [] ≡ map f (seen ++ x ∷ [])
map-snoc f [] x = refl
map-snoc f (y ∷ seen) x = ap (λ t. f y ∷ t) (map-snoc f seen x)

add_row-group_of :
    (c : Constraint) (seen : List (Str × Str)) (n : ℕ) (x : Str × Str)
    → add_row (group_of c seen n) (row_of c n x) ≡ ok (group_of c (seen ++ x ∷ []) (n + 1))
unfolding add_row
add_row-group_of c seen n x =
    rw
      (
        eq_refl (c.child_schema ++ slash ∷ c.child_table),
        eq_refl (c.parent_schema ++ slash ∷ c.parent_table),
        eq_refl {A = ℕ} (length c.columns),
        eq_refl {A = ℕ} (delete_flag c.on_delete + update_flag c.on_update),
        eq_refl {A = ℕ} n,
        map-snoc (λ y. y.0) seen x,
        map-snoc (λ y. y.1) seen x,
      )
      refl

-- The rows of the current constraint's further columns.
scan-rows_of :
    (c : Constraint) (keys : List ForeignKey) (seen columns : List (Str × Str)) (n : ℕ)
    (rows : Rows InnodbRow)
    → (m : ℕ) × (scan_rows keys (some (group_of c seen n)) (rows_of c n columns rows)
        ≡ scan_rows keys (some (group_of c (seen ++ columns) m)) rows)
unfolding scan_rows open_group
scan-rows_of c keys seen [] n rows =
    (n, ap (λ t. scan_rows keys (some (group_of c t n)) rows) (sym (append-nil seen)))
scan-rows_of c keys seen (x ∷ columns) n rows =
    let later = scan-rows_of c keys (seen ++ x ∷ []) columns (n + 1) rows in
    (
      later.0,
      rw (eq_refl (id_of c), add_row-group_of c seen n x)
          (later.1
            ∙ ap (λ t. scan_rows keys (some (group_of c t later.0)) rows)
                (append_assoc seen (x ∷ []) columns)),
    )

-- The group that is open is not that of the next constraint.
abbrev Fresh : Option Group → List Constraint → Type 0
Fresh none cs = Unit
Fresh (some g) [] = Unit
Fresh (some g) (c ∷ cs) = (g.id == id_of c) ≡ false

open_group-Fresh :
    (keys keys' : List ForeignKey) (current : Option Group) (c : Constraint) (cs : List Constraint)
    (n : ℕ) (x : Str × Str)
    → Fresh current (c ∷ cs)
    → finish keys current ≡ ok keys'
    → open_group keys current (row_of c n x) ≡ ok (keys', group_of c [] 1)
unfolding open_group finish
open_group-Fresh keys keys' none c cs n x f e =
    ap (λ k. ok (k, new_group (row_of c n x))) (ok-injective e)
open_group-Fresh keys keys' (some g) c cs n x f e = rw (f, e) refl

pub not_empty :
    (columns : List (Str × Str))
    → is_empty columns ≡ false
    → (x : Str × Str) × (xs : List (Str × Str)) × (columns ≡ x ∷ xs)
not_empty [] e = ground (arith, e)
not_empty (x ∷ xs) e = (x, xs, refl)

Fresh-next :
    (c : Constraint) (m : ℕ) (cs : List Constraint)
    → Apart (c ∷ cs)
    → Fresh (some (group_of c c.columns m)) cs
Fresh-next c m [] a = tt
Fresh-next c m (d ∷ cs) a = a.0

Apart-tail : (c : Constraint) (cs : List Constraint) → Apart (c ∷ cs) → Apart cs
Apart-tail c [] a = tt
Apart-tail c (d ∷ cs) a = a.1

finish-group_of :
    (keys : List ForeignKey) (c : Constraint) (m : ℕ)
    → IsValid c
    → finish keys (some (group_of c c.columns m)) ≡ ok (keys ++ fact_of c ∷ [])
unfolding finish
finish-group_of keys c m v = rw (foreign_key-group_of c m v) refl

scan-registry :
    (cs : List Constraint) (keys keys' : List ForeignKey) (current : Option Group)
    → All IsValid cs
    → Apart cs
    → Fresh current cs
    → finish keys current ≡ ok keys'
    → scan_rows keys current (registry cs) ≡ ok (keys' ++ map fact_of cs)
unfolding scan_rows
scan-registry [] keys keys' current v a f e = e ∙ ap ok (sym (append-nil keys'))
scan-registry (c ∷ cs) keys keys' current (v, vs) a f e =
    let (x, xs, cut) = not_empty c.columns v.columns in
    let (m, run) = scan-rows_of c keys' (x ∷ []) xs 2 (registry cs) in
    let onward =
      scan-registry cs keys' (keys' ++ fact_of c ∷ []) (some (group_of c c.columns m)) vs
        (Apart-tail c cs a) (Fresh-next c m cs a) (finish-group_of keys' c m v) in
    ap (λ columns. scan_rows keys current (rows_of c 1 columns (registry cs))) cut
    ∙ rw (open_group-Fresh keys keys' current c cs 1 x f e, add_row-group_of c [] 1 x)
        (run
          ∙ ap (λ t. scan_rows keys' (some (group_of c t m)) (registry cs)) (sym cut)
          ∙ onward
          ∙ ap ok (append_assoc keys' (fact_of c ∷ []) (map fact_of cs)))

-- The reader gives back every constraint: it reads the rows of a registry, whose constraints have
-- names that can be split, at least one column and identifiers that differ from the next one, as
-- the facts of these constraints, in order.
pub scan-registry-facts :
    (cs : List Constraint)
    → All IsValid cs
    → Apart cs
    → scan_innodb_foreign_keys (registry cs) ≡ ok (map fact_of cs)
unfolding scan_innodb_foreign_keys finish
scan-registry-facts cs v a = scan-registry cs [] [] none v a tt refl
