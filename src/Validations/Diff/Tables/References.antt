-- ===== src/Validations/Diff/Tables/References.antt =====
-- The differences of two lists of constraints.
use dbsgomysql.Prelude.{
  All, Bool, List, Str, [], all, ap, arith, bool_eq, contains, eq_refl, false, false≢true, list_eq,
  map, nat_eq, refl, some, subst, suc, sym, true, zero, ℕ, ◌++◌, ◌∙◌, ◌∷◌, ◌≡◌,
}
use dbsgomysql.Validations.Spec.{
  ConstraintSpec, ConstraintKind, constraint_unknown, constraint_check, constraint_foreign_key,
}
use dbsgomysql.Validations.Spec.Index.{get, at, FoldedIndex, enter, new_folded_index}
use dbsgomysql.Validations.Spec.Index.Laws.{distinct, get-own}
use dbsgomysql.Validations.Diff.Types.{SpecDiff, reported-nil_iff}
use dbsgomysql.Validations.Diff.Matching.Laws.{both-nil}
use dbsgomysql.Validations.Diff.Matching.Agreement.{All-at}
use dbsgomysql.Validations.Diff.Constraints.{
  diff_of_kinds, diff_constraint_pair, positions, pair_with, visit_constraints, absent_constraints,
  compare_constraints,
}

-- A constraint of a kind that the capture recognised.
abbrev pub known : ConstraintKind → Bool
known constraint_unknown = false
known _ = true

kinds-own : (k : ConstraintKind) (c : ConstraintSpec) → known k ≡ true → diff_of_kinds k k c c ≡ []
kinds-own constraint_unknown c e = absurd (false≢true e)
kinds-own constraint_check c e =
    (reported-nil_iff _).1 (eq_refl c.check_clause, (eq_refl c.enforced, tt))
kinds-own constraint_foreign_key c e = (reported-nil_iff _).1 (
  eq_refl c.columns,
  (
    ground (arith, eq_refl c.ref_schema, eq_refl c.ref_table, eq_refl c.ref_columns),
    (ground (arith, eq_refl c.update_rule, eq_refl c.delete_rule), tt),
  ),
)

pair-own : (c : ConstraintSpec) → known c.kind ≡ true → diff_constraint_pair c c ≡ []
unfolding diff_constraint_pair
pair-own c e = kinds-own c.kind c e

pub positions-enter :
    (i : ℕ) (cs : List ConstraintSpec) (index : FoldedIndex)
    → positions i cs index.exact ≡ (enter (λ c. c.name) i cs index).exact
unfolding positions enter
positions-enter i [] index = refl
positions-enter i (c ∷ cs) index = positions-enter (suc i) cs _

module _ (b : List ConstraintSpec) (m : List (Str × ℕ)) where
  abbrev pub run : List ConstraintSpec → List Str → List SpecDiff × List Str
  run = visit_constraints b m

  pub visit-found :
      (c : ConstraintSpec) (cs : List ConstraintSpec) (matched : List Str) (i : ℕ)
      → get c.name m ≡ some i
      → run (c ∷ cs) matched
        ≡ (pair_with c (at b i) ++ (run cs (c.name ∷ matched)).0, (run cs (c.name ∷ matched)).1)
  unfolding visit_constraints
  visit-found c cs matched i g = ground (arith, g)

  -- The constraint stands in `b` where its name leads, and is of a known kind.
  StandsThere : ConstraintSpec → Type 0
  StandsThere c =
      (i : ℕ) × (get c.name m ≡ some i) × (at b i ≡ some c) × (diff_constraint_pair c c ≡ [])

  visit-own :
      (cs : List ConstraintSpec) (matched : List Str) → All StandsThere cs → (run cs matched).0 ≡ []
  unfolding visit_constraints StandsThere
  visit-own [] matched o = refl
  visit-own (c ∷ cs) matched ((i, g, a, d), o) =
      ap (λ r. r.0) (visit-found c cs matched i g)
      ∙ both-nil (ap (pair_with c) a ∙ d) (visit-own cs (c.name ∷ matched) o)

  visit-keeps :
      (cs : List ConstraintSpec) (matched : List Str) (n : Str)
      → All StandsThere cs
      → contains n matched ≡ true
      → contains n (run cs matched).1 ≡ true
  unfolding visit_constraints StandsThere contains
  visit-keeps [] matched n o c = c
  visit-keeps (d ∷ cs) matched n ((i, g, _, _), o) c =
      rw (visit-found d cs matched i g) (visit-keeps cs (d.name ∷ matched) n o (ground (arith, c)))

  visit-marks :
      (cs : List ConstraintSpec) (matched : List Str)
      → All StandsThere cs
      → All (λ c. contains c.name (run cs matched).1 ≡ true) cs
  unfolding StandsThere contains
  visit-marks [] matched o = tt
  visit-marks (c ∷ cs) matched ((i, g, _, _), o) =
      subst (λ r. All (λ d. contains d.name r.1 ≡ true) (c ∷ cs))
        (sym (visit-found c cs matched i g))
        (
          visit-keeps cs (c.name ∷ matched) c.name o (ground (arith, eq_refl c.name)),
          visit-marks cs (c.name ∷ matched) o,
        )

absent-nil :
    (cs : List ConstraintSpec) (matched : List Str)
    → All (λ c. contains c.name matched ≡ true) cs
    → absent_constraints cs matched ≡ []
unfolding absent_constraints
absent-nil [] matched a = refl
absent-nil (c ∷ cs) matched (h, a) = ground (arith, h, absent-nil cs matched a)

all-at :
    (cs : List ConstraintSpec) (i : ℕ) (c : ConstraintSpec)
    → all (λ d. known d.kind) cs ≡ true
    → at cs i ≡ some c
    → known c.kind ≡ true
unfolding at
all-at [] i c k e = ground (arith, e)
all-at (d ∷ cs) zero c k e =
    let d≡c : d ≡ c = ground (arith, e) in subst (λ x. known x.kind ≡ true) d≡c (ground (arith, k))
all-at (d ∷ cs) (suc i) c k e = all-at cs i c (ground (arith, k)) e

-- The comparison of a list of constraints with itself reports nothing if the names are distinct and
-- no kind is unknown.
pub compare_constraints-own :
    (a : List ConstraintSpec)
    → distinct (map (λ c. c.name) a) ≡ true
    → all (λ c. known c.kind) a ≡ true
    → compare_constraints a a ≡ []
unfolding compare_constraints StandsThere new_folded_index
compare_constraints-own a d k =
    let own = All-at (StandsThere a (positions 0 a [])) a (λ i c e. (
      i,
      (ap (get c.name) (positions-enter 0 a (record { exact = []; folded = []; excluded = [] }))
          ∙ get-own (λ x. x.name) a [] i c d e),
      e,
      pair-own c (all-at a i c k e),
    )) in
    both-nil (visit-own a _ a [] own) (absent-nil a _ (visit-marks a _ a [] own))
