-- ===== src/Validations/ForeignKeys/Standard/Agreement.antt =====
-- pkg/validations/foreign_keys.go: the fallback reads the constraints that the registry has.
use dbsgomysql.Prelude.{
  All, List, Option, Str, [], ap, append-nil, append_assoc, eq_refl, false, inl, inr, is_empty,
  length, list_eq, map, nat_eq, none, refl, some, sym, ℕ, ◌++◌, ◌+◌, ◌==◌, ◌∙◌, ◌∷◌, ◌≡◌,
}
use dbsgomysql.Golang.Sql.{Query, Rows, end, row, ok, ok-injective, fail≢ok, Result-cases}
use dbsgomysql.Validations.ForeignKeys.Types.{ForeignKey}
use dbsgomysql.Validations.ForeignKeys.Registry.Rules.{rule_text}
use dbsgomysql.Validations.ForeignKeys.Registry.RoundTrip.{
  Constraint, children, parents, fact_of, map-snoc, not_empty,
}
use dbsgomysql.Validations.ForeignKeys.Standard.{
  StandardRow, StandardGroup, TableIdentity, IndexRow, IndexMap, finished, standard_group,
  add_standard_row, scan_standard, scan_standard_foreign_keys, with_support, read_batches,
  populate_fallback_indexes, batches, batch_size, distinct_children,
}

-- A fact apart from the question whether an index supports it.
abbrev pub unindexed : ForeignKey → ForeignKey
unindexed key = record key { indexed = false }

abbrev pub key_of : Constraint → Str
key_of c = c.child_schema ++ 0 ∷ c.name

abbrev pub standard_row : Constraint → ℕ → Str × Str → StandardRow
standard_row c position column = record {
  child_schema = c.child_schema;
  child_table = c.child_table;
  constraint_name = c.name;
  child_column = column.0;
  parent_schema = c.parent_schema;
  parent_table = c.parent_table;
  parent_column = column.1;
  on_delete = rule_text c.on_delete;
  on_update = rule_text c.on_update;
  position = position;
}

abbrev pub standard_rows_of :
    Constraint → ℕ → List (Str × Str) → Rows StandardRow → Rows StandardRow
standard_rows_of c position [] rows = rows
standard_rows_of c position (column ∷ columns) rows =
    row (standard_row c position column) (standard_rows_of c (position + 1) columns rows)

-- The rows of KEY_COLUMN_USAGE for some constraints, in the order of the query.
abbrev pub usage : List Constraint → Rows StandardRow
usage [] = end none
usage (c ∷ cs) = standard_rows_of c 1 c.columns (usage cs)

-- No two neighbours have the same schema and name.
abbrev pub ApartKeys : List Constraint → Type 0
ApartKeys [] = Unit
ApartKeys (c ∷ []) = Unit
ApartKeys (c ∷ d ∷ cs) = ((key_of c == key_of d) ≡ false) × ApartKeys (d ∷ cs)

abbrev pub Filled : List Constraint → Type 0
Filled cs = All (λ c. is_empty c.columns ≡ false) cs

-- The group after some columns of a constraint.
abbrev after : Constraint → List (Str × Str) → ℕ → StandardGroup
after c seen next = record {
  key = key_of c;
  fact = record (unindexed (fact_of c)) {
    child_columns = children seen;
    parent_columns = parents seen;
  };
  next_position = next;
}

add_standard_row-after :
    (c : Constraint) (seen : List (Str × Str)) (n : ℕ) (x : Str × Str)
    → add_standard_row (after c seen n) (standard_row c n x) ≡ ok (after c (seen ++ x ∷ []) (n + 1))
unfolding add_standard_row
add_standard_row-after c seen n x =
    rw
      (
        eq_refl c.child_schema,
        eq_refl c.child_table,
        eq_refl c.name,
        eq_refl c.parent_schema,
        eq_refl c.parent_table,
        eq_refl (rule_text c.on_delete),
        eq_refl (rule_text c.on_update),
        eq_refl {A = ℕ} n,
        map-snoc (λ y. y.0) seen x,
        map-snoc (λ y. y.1) seen x,
      )
      refl

scan-standard_rows_of :
    (c : Constraint) (keys : List ForeignKey) (seen columns : List (Str × Str)) (n : ℕ)
    (rows : Rows StandardRow)
    → (m : ℕ) × (scan_standard keys (some (after c seen n)) (standard_rows_of c n columns rows)
        ≡ scan_standard keys (some (after c (seen ++ columns) m)) rows)
unfolding scan_standard standard_group
scan-standard_rows_of c keys seen [] n rows =
    (n, ap (λ t. scan_standard keys (some (after c t n)) rows) (sym (append-nil seen)))
scan-standard_rows_of c keys seen (x ∷ columns) n rows =
    let later = scan-standard_rows_of c keys (seen ++ x ∷ []) columns (n + 1) rows in
    (
      later.0,
      rw (eq_refl (key_of c), add_standard_row-after c seen n x)
          (later.1
            ∙ ap (λ t. scan_standard keys (some (after c t later.0)) rows)
                (append_assoc seen (x ∷ []) columns)),
    )

-- The open group is not that of the next constraint.
abbrev Other : Option StandardGroup → List Constraint → Type 0
Other none cs = Unit
Other (some g) [] = Unit
Other (some g) (c ∷ cs) = (g.key == key_of c) ≡ false

standard_group-Other :
    (keys : List ForeignKey) (current : Option StandardGroup) (c : Constraint)
    (cs : List Constraint) (x : Str × Str)
    → Other current (c ∷ cs)
    → standard_group keys current (standard_row c 1 x) ≡ (finished keys current, after c [] 1)
unfolding standard_group
standard_group-Other keys none c cs x o = refl
standard_group-Other keys (some g) c cs x o = rw (o) refl

Other-next :
    (c : Constraint) (m : ℕ) (cs : List Constraint)
    → ApartKeys (c ∷ cs)
    → Other (some (after c c.columns m)) cs
Other-next c m [] a = tt
Other-next c m (d ∷ cs) a = a.0

ApartKeys-tail : (c : Constraint) (cs : List Constraint) → ApartKeys (c ∷ cs) → ApartKeys cs
ApartKeys-tail c [] a = tt
ApartKeys-tail c (d ∷ cs) a = a.1

scan-usage :
    (cs : List Constraint) (keys : List ForeignKey) (current : Option StandardGroup)
    → Filled cs
    → ApartKeys cs
    → Other current cs
    → scan_standard keys current (usage cs)
      ≡ ok (finished keys current ++ map (λ c. unindexed (fact_of c)) cs)
unfolding scan_standard
scan-usage [] keys current f a o = ap ok (sym (append-nil (finished keys current)))
scan-usage (c ∷ cs) keys current (filled, f) a o =
    let (x, xs, cut) = not_empty c.columns filled in
    let (m, run) = scan-standard_rows_of c (finished keys current) (x ∷ []) xs 2 (usage cs) in
    let onward =
      scan-usage cs (finished keys current) (some (after c c.columns m)) f (ApartKeys-tail c cs a)
        (Other-next c m cs a) in
    ap (λ columns. scan_standard keys current (standard_rows_of c 1 columns (usage cs))) cut
    ∙ rw (standard_group-Other keys current c cs x o, add_standard_row-after c [] 1 x)
        (run
          ∙ ap (λ t. scan_standard (finished keys current) (some (after c t m)) (usage cs))
              (sym cut)
          ∙ onward
          ∙ ap ok (
              append_assoc (finished keys current) (unindexed (fact_of c) ∷ [])
                (map (λ c. unindexed (fact_of c)) cs)))

-- The fallback's rows of some constraints are read as these, with no word on their indexes.
pub scan_standard_foreign_keys-usage :
    (cs : List Constraint)
    → Filled cs
    → ApartKeys cs
    → scan_standard_foreign_keys (usage cs) ≡ ok (map (λ c. unindexed (fact_of c)) cs)
unfolding scan_standard_foreign_keys
scan_standard_foreign_keys-usage cs f a = scan-usage cs [] none f a tt

unindexed-with_support :
    (m : IndexMap) (keys : List ForeignKey)
    → map unindexed (map (with_support m) keys) ≡ map unindexed keys
unindexed-with_support m [] = refl
unindexed-with_support m (key ∷ keys) =
    ap (λ ks. unindexed key ∷ ks) (unindexed-with_support m keys)

-- The indexes decide nothing but whether a key is supported.
pub populate_fallback_indexes-unindexed :
    (indexes_of : List TableIdentity → Query IndexRow) (keys ks : List ForeignKey)
    → populate_fallback_indexes indexes_of keys ≡ ok ks
    → map unindexed ks ≡ map unindexed keys
unfolding populate_fallback_indexes
populate_fallback_indexes-unindexed indexes_of [] ks e = ap (map unindexed) (sym (ok-injective e))
populate_fallback_indexes-unindexed indexes_of (key ∷ keys) ks e =
    let pairs = distinct_children (key ∷ keys) [] in
    elim (Result-cases (read_batches indexes_of (batches (length pairs) batch_size pairs) [])) [
      | inl (m, read_all) ↦
          ap (map unindexed) (sym (ok-injective (rw (read_all, populate_fallback_indexes) at e)))
          ∙ unindexed-with_support m (key ∷ keys)
      | inr (x, failed) ↦ elim (fail≢ok (rw (failed, populate_fallback_indexes) at e)) [ ]
    ]
