-- ===== src/Validations/Diff/Tables/Objects.antt =====
-- The differences of two lists of columns and of two lists of indexes.
use dbsgomysql.Prelude.{
  List, [], ap, arith, eq_iff, eq_refl, list_eq, map, nat_eq, refl, true, ◌∷◌, ◌≡◌,
}
use dbsgomysql.Validations.Spec.{ColumnSpec, IndexSpec}
use dbsgomysql.Validations.Spec.Index.Laws.{distinct}
use dbsgomysql.Validations.Diff.Types.{SpecDiff, reported-nil_iff}
use dbsgomysql.Validations.Diff.Matching.Laws.{append≡nil, both-nil, cons≢nil}
use dbsgomysql.Validations.Diff.Matching.Agreement.{Matches, Matches-map, found-Matches, found-own}
use dbsgomysql.Validations.Diff.Columns.{
  diff_columns, diff_matched_columns, diff_column_pair, sort_columns, insert_column,
  column_absent_in_a, column_absent_in_b,
}
use dbsgomysql.Validations.Diff.Indexes.{
  compare_indexes, diff_index_pair, index_absent_in_b, index_absent_in_a,
}
use dbsgomysql.Validations.Diff.Tables.Fields.{
  SameColumn-own, SameIndex-own, SameColumn, diff_column_pair-nil_iff, SameIndex,
  diff_index_pair-nil_iff,
}

map-nil : {A : Type 0} (f : A → SpecDiff) (xs : List A) → map f xs ≡ [] → xs ≡ []
map-nil f [] e = refl
map-nil f (x ∷ xs) e = absurd (cons≢nil e)

insert_column-cons : (c : ColumnSpec) (cs : List ColumnSpec) → insert_column c cs ≡ [] → ⊥
unfolding insert_column
insert_column-cons c [] e = cons≢nil e
insert_column-cons c (d ∷ ds) e = ground (arith, e)

sort_columns-nil : (cs : List ColumnSpec) → sort_columns cs ≡ [] → cs ≡ []
unfolding sort_columns
sort_columns-nil [] e = refl
sort_columns-nil (c ∷ cs) e = absurd (insert_column-cons c (sort_columns cs) e)

-- Columns of one name without differences.
pub SameNamedColumn : ColumnSpec → ColumnSpec → Type 0
SameNamedColumn a b = (a.name ≡ b.name) × SameColumn a b

matched-SameNamedColumn : (a b : ColumnSpec) → diff_matched_columns a b ≡ [] → SameNamedColumn a b
unfolding diff_matched_columns SameNamedColumn
matched-SameNamedColumn a b e =
    let parts = append≡nil _ (diff_column_pair a b) e in
    (
      (eq_iff a.name b.name).0 ((reported-nil_iff _).0 parts.0).0,
      (diff_column_pair-nil_iff a b).0 parts.1,
    )

matched_columns-own : (c : ColumnSpec) → diff_matched_columns c c ≡ []
unfolding diff_matched_columns
matched_columns-own c =
    both-nil ((reported-nil_iff _).1 (eq_refl c.name, tt))
      ((diff_column_pair-nil_iff c c).1 (SameColumn-own c))

-- If the comparison of two lists of columns reports nothing, each column of one list has a column
-- of the other with the same name and the same compared fields.
pub diff_columns-Matches :
    (a b : List ColumnSpec) → diff_columns a b ≡ [] → Matches SameNamedColumn a b
unfolding diff_columns
diff_columns-Matches a b e =
    let parts = append≡nil _ _ e in
    Matches-map matched-SameNamedColumn a b (
      found-Matches (λ c. c.name) column_absent_in_b diff_matched_columns a b _ parts.0
        (sort_columns-nil _ (map-nil _ _ parts.1)))

-- The comparison of a list of columns with itself reports nothing if the names are distinct.
pub diff_columns-own :
    (a : List ColumnSpec) → distinct (map (λ c. c.name) a) ≡ true → diff_columns a a ≡ []
unfolding diff_columns sort_columns
diff_columns-own a d =
    let own =
      found-own (λ c. c.name) column_absent_in_b diff_matched_columns a _ d matched_columns-own in
    both-nil own.0 (ap (λ cs. map column_absent_in_a (sort_columns cs)) own.1)

-- If the comparison of two lists of indexes reports nothing, each index of one list has an index of
-- the other that is the same up to the ASCII case of the columns of its key parts.
pub compare_indexes-Matches :
    (a b : List IndexSpec) → compare_indexes a b ≡ [] → Matches SameIndex a b
unfolding compare_indexes
compare_indexes-Matches a b e =
    let parts = append≡nil _ _ e in
    Matches-map (λ x y. (diff_index_pair-nil_iff x y).0) a b
      (found-Matches (λ i. i.name) index_absent_in_b diff_index_pair a b _ parts.0
        (map-nil _ _ parts.1))

pub compare_indexes-own :
    (a : List IndexSpec) → distinct (map (λ i. i.name) a) ≡ true → compare_indexes a a ≡ []
unfolding compare_indexes
compare_indexes-own a d =
    let own =
      found-own (λ i. i.name) index_absent_in_b diff_index_pair a _ d
        (λ i. (diff_index_pair-nil_iff i i).1 (SameIndex-own i)) in
    both-nil own.0 (ap (map index_absent_in_a) own.1)
