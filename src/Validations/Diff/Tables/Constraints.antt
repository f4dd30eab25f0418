-- ===== src/Validations/Diff/Tables/Constraints.antt =====
-- What it says of two lists of constraints that no difference is reported.
use dbsgomysql.Prelude.{
  All, Any, Bool-cases, List, Option-cases, Str, [], ap, arith, bool_eq, contains, eq_iff,
  false≢true, inl, inr, list_eq, nat_eq, none, subst, sym, true, ℕ, ◌==◌, ◌∙◌, ◌∷◌, ◌≡◌, ◌⊎◌,
}
use dbsgomysql.Validations.Spec.{
  ConstraintSpec, ConstraintKind, constraint_unknown, constraint_check, constraint_foreign_key,
}
use dbsgomysql.Validations.Spec.Index.{get, FoldedIndex, new_folded_index}
use dbsgomysql.Validations.Spec.Index.Laws.{Leads, entered}
use dbsgomysql.Validations.Diff.Types.{reported-nil_iff}
use dbsgomysql.Validations.Diff.Matching.Laws.{cons≢nil, append≡nil}
use dbsgomysql.Validations.Diff.Matching.Agreement.{All-map, at-Any}
use dbsgomysql.Validations.Diff.Constraints.{
  diff_of_kinds, diff_constraint_pair, positions, pair_with, visit_constraints, absent_constraints,
  compare_constraints,
}
use dbsgomysql.Validations.Diff.Tables.References.{visit-found, positions-enter, run}

-- What two constraints have in common if nothing is reported: the kind, which is not unknown, and
-- the fields that the kind uses.
SameFields : ConstraintKind → ConstraintKind → ConstraintSpec → ConstraintSpec → Type 0
SameFields constraint_check constraint_check a b =
    (a.check_clause ≡ b.check_clause) × (a.enforced ≡ b.enforced)
SameFields constraint_foreign_key constraint_foreign_key a b =
    (a.columns ≡ b.columns)
    × (a.ref_schema ≡ b.ref_schema)
    × (a.ref_table ≡ b.ref_table)
    × (a.ref_columns ≡ b.ref_columns)
    × (a.update_rule ≡ b.update_rule)
    × (a.delete_rule ≡ b.delete_rule)
SameFields _ _ a b = ⊥

pub SameConstraint : ConstraintSpec → ConstraintSpec → Type 0
SameConstraint a b = (a.name ≡ b.name) × SameFields a.kind b.kind a b

kinds-SameFields :
    (j k : ConstraintKind) (a b : ConstraintSpec) → diff_of_kinds j k a b ≡ [] → SameFields j k a b
unfolding SameFields
kinds-SameFields constraint_unknown constraint_unknown a b e = absurd (cons≢nil e)
kinds-SameFields constraint_unknown constraint_check a b e = absurd (cons≢nil e)
kinds-SameFields constraint_unknown constraint_foreign_key a b e = absurd (cons≢nil e)
kinds-SameFields constraint_check constraint_unknown a b e = absurd (cons≢nil e)
kinds-SameFields constraint_check constraint_foreign_key a b e = absurd (cons≢nil e)
kinds-SameFields constraint_foreign_key constraint_unknown a b e = absurd (cons≢nil e)
kinds-SameFields constraint_foreign_key constraint_check a b e = absurd (cons≢nil e)
kinds-SameFields constraint_check constraint_check a b e =
    let same = (reported-nil_iff _).0 e in
    ((eq_iff a.check_clause b.check_clause).0 same.0, (eq_iff a.enforced b.enforced).0 same.1.0)
kinds-SameFields constraint_foreign_key constraint_foreign_key a b e =
    let same = (reported-nil_iff _).0 e in
    ground (
      arith,
      same.0,
      same.1.0,
      same.1.1.0,
      eq_iff a.columns b.columns,
      eq_iff a.ref_schema b.ref_schema,
      eq_iff a.ref_table b.ref_table,
      eq_iff a.ref_columns b.ref_columns,
      eq_iff a.update_rule b.update_rule,
      eq_iff a.delete_rule b.delete_rule,
    )

pair-SameFields :
    (a b : ConstraintSpec) → diff_constraint_pair a b ≡ [] → SameFields a.kind b.kind a b
unfolding diff_constraint_pair
pair-SameFields a b e = kinds-SameFields a.kind b.kind a b e

module _ (b : List ConstraintSpec) (m : List (Str × ℕ)) where
  visit-lost :
      (c : ConstraintSpec) (cs : List ConstraintSpec) (matched : List Str)
      → get c.name m ≡ none
      → (run b m (c ∷ cs) matched).0 ≡ []
      → ⊥
  unfolding visit_constraints
  visit-lost c cs matched g e = ground (arith, g, e)

  -- No difference means that each constraint has a match without differences.
  visit-nil :
      (cs : List ConstraintSpec) (matched : List Str)
      → Leads (λ c. c.name) b m
      → (run b m cs matched).0 ≡ []
      → All (λ c. Any (λ d. SameConstraint c d) b) cs
  unfolding SameConstraint
  visit-nil [] matched l e = tt
  visit-nil (c ∷ cs) matched l e = elim (Option-cases (get c.name m)) [
    | inl lost ↦ absurd (visit-lost c cs matched lost e)
    | inr (i, found) ↦
        let parts =
          append≡nil _ _ (sym (ap (λ r. r.0) (visit-found b m c cs matched i found)) ∙ e) in
        let there = l c.name i found in
        let same = subst (λ o. pair_with c o ≡ []) there.1 parts.0 in
        (
          at-Any _ b i there.0 there.1 (sym there.2, pair-SameFields c there.0 same),
          visit-nil cs (c.name ∷ matched) l parts.1,
        )
  ]

absent-All :
    (cs : List ConstraintSpec) (matched : List Str)
    → absent_constraints cs matched ≡ []
    → All (λ c. contains c.name matched ≡ true) cs
unfolding absent_constraints
absent-All [] matched e = tt
absent-All (c ∷ cs) matched e = elim (Bool-cases (contains c.name matched)) [
  | inl old ↦ (old, absent-All cs matched (ground (arith, old, e)))
  | inr new ↦ ground (arith, new, e)
]

module _ (b : List ConstraintSpec) (m : List (Str × ℕ)) where
  -- A matched name was matched before or is the name of a constraint of side a.
  visit-origin :
      (cs : List ConstraintSpec) (matched : List Str) (n : Str)
      → contains n (run b m cs matched).1 ≡ true
      → contains n matched ≡ true ⊎ Any (λ c. c.name ≡ n) cs
  unfolding visit_constraints contains
  visit-origin [] matched n e = inl e
  visit-origin (c ∷ cs) matched n e = elim (Option-cases (get c.name m)) [
    | inl lost ↦ elim (visit-origin cs matched n (ground (arith, lost, e))) [
      | inl before ↦ inl before
      | inr there ↦ inr (inr there)
    ]
    | inr (i, found) ↦
        elim (visit-origin cs (c.name ∷ matched) n
          (subst (λ r. contains n r.1 ≡ true) (visit-found b m c cs matched i found) e)) [
            | inl before ↦ elim (Bool-cases (n == c.name)) [
              | inl same ↦ inr (inl (sym ((eq_iff n c.name).0 same)))
              | inr other ↦ inl (ground (arith, before, other))
            ]
            | inr there ↦ inr (inr there)
          ]
  ]

-- The second list has no other names.
pub compare_constraints-names :
    (a b : List ConstraintSpec)
    → compare_constraints a b ≡ []
    → All (λ d. Any (λ c. c.name ≡ d.name) a) b
unfolding compare_constraints contains
compare_constraints-names a b e =
    let parts = append≡nil _ _ e in
    All-map
      (λ d old. elim (visit-origin b (positions 0 b []) a [] d.name old) [
        | inl never ↦ absurd (false≢true never)
        | inr there ↦ there
      ])
      b (absent-All b _ parts.1)

-- If the comparison of two lists of constraints reports nothing, each constraint of the first list
-- has a constraint of the second with the same name, a known kind and the same fields.
pub compare_constraints-All :
    (a b : List ConstraintSpec)
    → compare_constraints a b ≡ []
    → All (λ c. Any (λ d. SameConstraint c d) b) a
unfolding compare_constraints new_folded_index
compare_constraints-All a b e =
    let parts = append≡nil _ _ e in
    let index : FoldedIndex = record { exact = []; folded = []; excluded = [] } in
    visit-nil b (positions 0 b []) a []
      (subst (λ m. Leads (λ c. c.name) b m) (sym (positions-enter 0 b index))
        (entered (λ c. c.name) b []).0)
      parts.0
