-- ===== src/Validations/Spec/Index.antt =====
-- pkg/validations/spec_diff.go: positions of named objects, found by exact or by folded name.
pub mod Laws
use dbsgomysql.Prelude.{
  Bool, List, Option, Str, [], contains, if◌then◌else◌, list_eq, nat_eq, none, some, suc, zero, ℕ,
  ◌==◌, ◌∷◌,
}
use dbsgomysql.Validations.Spec.Fold.{fold_key}

-- m[k], with the test of presence. The entry assigned last stands first.
unfoldable pub get : Str → List (Str × ℕ) → Option ℕ
get k [] = none
get k ((j, v) ∷ m) = let before = get k m in if j == k then some v else before

-- list[i]
unfoldable pub at {ℓ} : {A : Type ℓ} → List A → ℕ → Option A
at [] i = none
at (x ∷ xs) zero = some x
at (x ∷ xs) (suc i) = at xs i

pub record FoldedIndex : Type 0 where
  pub exact : List (Str × ℕ)
  pub folded : List (Str × ℕ)
  pub excluded : List Str

unfoldable pub is_excluded : FoldedIndex → Str → Bool
is_excluded index key = contains key index.excluded

module _ {A : Type 0} (name_at : A → Str) where
  -- The keys seen and the keys shared by several names.
  collide : List A → List Str → List Str → List Str
  collide [] seen into = into
  collide (x ∷ xs) seen into =
      let key = fold_key (name_at x) in
      collide xs (key ∷ seen) (if contains key seen then key ∷ into else into)

  -- The excluded keys, with those of one more side.
  unfoldable pub fold_collisions : List A → List Str → List Str
  unfolding collide
  fold_collisions xs into = collide xs [] into

  -- The loop of newFoldedIndex, from a position on.
  unfoldable pub enter : ℕ → List A → FoldedIndex → FoldedIndex
  unfolding is_excluded
  enter position [] index = index
  enter position (x ∷ xs) index =
      let key = fold_key (name_at x) in
      enter (suc position) xs (record index {
        exact = (name_at x, position) ∷ index.exact;
        folded = if is_excluded index key then index.folded else (key, position) ∷ index.folded;
      })

  unfoldable pub new_folded_index : List A → List Str → FoldedIndex
  new_folded_index xs excluded =
      enter 0 xs (record { exact = []; folded = []; excluded = excluded })

unfoldable pub lookup : FoldedIndex → Str → Option ℕ
unfolding is_excluded get
lookup index name = elim (get name index.exact) [
  | some position ↦ some position
  | none ↦ let key = fold_key name in if is_excluded index key then none else get key index.folded
]
