-- ===== src/Validations/Diff/Matching.antt =====
-- pkg/validations/spec_diff.go: the loops of diffColumns and diffIndexes, which match objects of two
-- sides by name.
pub mod Laws
pub mod Agreement
use dbsgomysql.Prelude.{
  List, Option, Str, [], contains, if◌then◌else◌, nat_eq, none, some, suc, ℕ, ◌++◌, ◌∷◌,
}
use dbsgomysql.Validations.Spec.Index.{at, FoldedIndex, lookup}
use dbsgomysql.Validations.Diff.Types.{SpecDiff}

module _ {A : Type 0} (name_at : A → Str) (absent_in_b : A → SpecDiff)
    (differ : A → A → List SpecDiff) (b : List A) (index : FoldedIndex) where
  -- The index holds positions of `b` only; another position would panic.
  abbrev pub pair_at : A → Option A → List SpecDiff
  pair_at x none = []
  pair_at x (some y) = differ x y

  -- The differences of the objects on side a, and the positions matched on side b.
  unfoldable pub match_each : List A → List ℕ → List SpecDiff × List ℕ
  match_each [] matched = ([], matched)
  match_each (x ∷ xs) matched = elim (lookup index (name_at x)) [
    | none ↦ let rest = match_each xs matched in (absent_in_b x ∷ rest.0, rest.1)
    | some i ↦ let rest = match_each xs (i ∷ matched) in (pair_at x (at b i) ++ rest.0, rest.1)
  ]

-- The objects of side b that no object matched, from a position on.
unfoldable pub unmatched : {A : Type 0} → ℕ → List A → List ℕ → List A
unmatched i [] matched = []
unmatched i (y ∷ ys) matched =
    let rest = unmatched (suc i) ys matched in if contains i matched then rest else y ∷ rest
