-- ===== src/Validations/Diff/Indexes.antt =====
-- pkg/validations/spec_diff.go: indexes, and the sections that a specification may lack.
use dbsgomysql.Prelude.{
  Bool, List, Str, [], bool_eq, codes, false, if◌then◌else◌, is_empty, list_eq, map, nat_eq, not,
  true, ◌&&◌, ◌++◌, ◌==◌, ◌∷◌,
}
use dbsgomysql.Golang.Strings.{join}
use dbsgomysql.Validations.Spec.{TableSpec, Section, has, section_indexes, IndexSpec, IndexPart}
use dbsgomysql.Validations.Spec.Fold.{ascii_fold_equal}
use dbsgomysql.Validations.Spec.Index.{fold_collisions, new_folded_index}
use dbsgomysql.Validations.Diff.Matching.{match_each, unmatched}
use dbsgomysql.Golang.Strconv.{itoa}
use dbsgomysql.Validations.Diff.Types.{
  SpecDiff, SpecDiffKind, DiffSide, side_unknown, side_a, side_b, side_both,
  index_name_case_mismatch, index_parts_mismatch, index_uniqueness_mismatch, index_type_mismatch,
  index_visibility_mismatch, index_absent, index_unconfirmed, plain, bool_text, check, reported,
}

-- The side that did not capture a section, and whether both did.
unfoldable pub section_agreement : TableSpec → TableSpec → Section → DiffSide × Bool
section_agreement a b section =
    let has_a = has a.captured section in
    let has_b = has b.captured section in
    if has_a && has_b
    then (side_unknown, true)
    else if has_a
    then (side_b, false)
    else if has_b
    then (side_a, false)
    else (side_unknown, false)

abbrev pub is_side_unknown : DiffSide → Bool
is_side_unknown side_unknown = true
is_side_unknown _ = false

-- The differences of a section: nothing if neither side has it, the side that lacks it, or those
-- that the comparison finds.
abbrev pub in_section : DiffSide × Bool → SpecDiffKind → List SpecDiff → List SpecDiff
in_section (side, both) unconfirmed compared =
    if not both
    then (if is_side_unknown side then [] else plain unconfirmed side ∷ [])
    else compared

unfoldable pub parts_equal : List IndexPart → List IndexPart → Bool
parts_equal [] [] = true
parts_equal [] (_ ∷ _) = false
parts_equal (_ ∷ _) [] = false
parts_equal (l ∷ ls) (r ∷ rs) =
    ascii_fold_equal l.column r.column
    && (l.expression == r.expression)
    && (l.sub_part == r.sub_part)
    && (l.descending == r.descending)
    && parts_equal ls rs

abbrev part_text : IndexPart → Str
part_text part =
    (if is_empty part.expression then part.column else codes "(" ++ part.expression ++ codes ")")
    ++ (if part.sub_part == 0 then [] else codes "(" ++ itoa part.sub_part ++ codes ")")
    ++ (if part.descending then codes " DESC" else [])

unfoldable pub parts_text : List IndexPart → Str
parts_text parts = join (codes ", ") (map part_text parts)

abbrev pub index_diff : SpecDiffKind → DiffSide → Str → Str → Str → SpecDiff
index_diff kind side index a b = record (plain kind side) { index = index; a = a; b = b }

-- The body of the loop, for an index with a match.
unfoldable pub diff_index_pair : IndexSpec → IndexSpec → List SpecDiff
diff_index_pair a b = reported (
    check (a.name == b.name) (index_diff index_name_case_mismatch side_both a.name a.name b.name)
    ∷ check (parts_equal a.parts b.parts)
        (index_diff index_parts_mismatch side_both a.name (parts_text a.parts) (parts_text b.parts))
    ∷ check (a.unique == b.unique) (
        index_diff index_uniqueness_mismatch side_both a.name (bool_text a.unique)
          (bool_text b.unique))
    ∷ check (a.type == b.type) (index_diff index_type_mismatch side_both a.name a.type b.type)
    ∷ check (a.visible == b.visible) (
        index_diff index_visibility_mismatch side_both a.name (bool_text a.visible)
          (bool_text b.visible))
    ∷ [])

abbrev pub index_absent_in_b : IndexSpec → SpecDiff
index_absent_in_b i = index_diff index_absent side_b i.name [] []

abbrev pub index_absent_in_a : IndexSpec → SpecDiff
index_absent_in_a i = index_diff index_absent side_a i.name [] []

-- The comparison of two captured lists of indexes.
unfoldable pub compare_indexes : List IndexSpec → List IndexSpec → List SpecDiff
compare_indexes a b =
    let excluded = fold_collisions (λ i. i.name) b (fold_collisions (λ i. i.name) a []) in
    let by_name_b = new_folded_index (λ i. i.name) b excluded in
    let found = match_each (λ i. i.name) index_absent_in_b diff_index_pair b by_name_b a [] in
    found.0 ++ map index_absent_in_a (unmatched 0 b found.1)

unfoldable pub diff_indexes : TableSpec → TableSpec → List SpecDiff
diff_indexes a b =
    in_section (section_agreement a b section_indexes) index_unconfirmed
      (compare_indexes a.indexes b.indexes)
