-- ===== src/Validations/Spec/Index/Laws.antt =====
-- What a position found in a folded index says of the object that stands there.
use dbsgomysql.Prelude.{
  Bool, Bool-cases, List, Option, Option-cases, Str, [], all, ap, arith, contains, eq_iff, eq_refl,
  false≢true, inl, inr, list_eq, map, nat_eq, none, not, refl, some, subst, suc, true, zero, ℕ,
  ◌&&◌, ◌+◌, ◌==◌, ◌∙◌, ◌∷◌, ◌≡◌, ◌⊎◌,
}
use dbsgomysql.Validations.Spec.Fold.{fold_key}
use dbsgomysql.Validations.Spec.Index.{
  get, at, FoldedIndex, is_excluded, enter, new_folded_index, lookup,
}

-- Each entry of the map leads to an object with that key.
abbrev pub Leads : {A : Type 0} → (A → Str) → List A → List (Str × ℕ) → Type 0
Leads {A} key all m =
    (k : Str) (i : ℕ) → get k m ≡ some i → (x : A) × (at all i ≡ some x) × (key x ≡ k)

-- The names differ pairwise.
unfoldable pub distinct : List Str → Bool
distinct [] = true
distinct (x ∷ xs) = not (contains x xs) && distinct xs

none≢some : {A : Type 0} {a : A} → Path (Option A) none (some a) → ⊥
none≢some e = ground (arith, e)

lookup-exact :
    (index : FoldedIndex) (name : Str) (i : ℕ)
    → get name index.exact ≡ some i
    → lookup index name ≡ some i
unfolding lookup
lookup-exact index name i g = ground (arith, g)

module _ {A : Type 0} where
  Leads-cons :
      (key : A → Str) (all : List A) (m : List (Str × ℕ)) (i : ℕ) (x : A)
      → Leads key all m
      → at all i ≡ some x
      → Leads key all ((key x, i) ∷ m)
  unfolding get
  Leads-cons key all m i x l e k j g = elim (Bool-cases (key x == k)) [
    | inl same ↦
        let i≡j : i ≡ j = ground (arith, same, g) in
        (x, ground (arith, e, i≡j), (eq_iff (key x) k).0 same)
    | inr other ↦ l k j (ground (arith, other, g))
  ]

module _ {A : Type 0} (name_at : A → Str) where
  -- The part of the list from a position on.
  Suffix : List A → ℕ → List A → Type 0
  Suffix all i xs = (j : ℕ) → at all (i + j) ≡ at xs j

  Suffix-suc :
      (all : List A) (i : ℕ) (x : A) (xs : List A) → Suffix all i (x ∷ xs) → Suffix all (suc i) xs
  unfolding Suffix at
  Suffix-suc all i x xs s j =
      let shift : i + suc j ≡ suc i + j = omega arith in
      subst (λ n. at all n ≡ at xs j) shift (s (suc j))

  at-Suffix :
      (all : List A) (i : ℕ) (x : A) (xs : List A) → Suffix all i (x ∷ xs) → at all i ≡ some x
  unfolding Suffix at
  at-Suffix all i x xs s =
      let here : i + 0 ≡ i = omega arith in subst (λ n. at all n ≡ some x) here (s 0)

  enter-Leads :
      (all : List A) (i : ℕ) (xs : List A) (index : FoldedIndex)
      → Suffix all i xs
      → Leads name_at all index.exact
      → Leads (λ x. fold_key (name_at x)) all index.folded
      → Leads name_at all (enter name_at i xs index).exact
        × Leads (λ x. fold_key (name_at x)) all (enter name_at i xs index).folded
  unfolding enter Suffix at
  enter-Leads all i [] index s e f = (e, f)
  enter-Leads all i (x ∷ xs) index s e f =
      enter-Leads all (suc i) xs _ (Suffix-suc all i x xs s)
        (Leads-cons name_at all index.exact i x e (at-Suffix all i x xs s))
        (elim (Bool-cases (is_excluded index (fold_key (name_at x)))) [
          | inl out ↦ rw out f
          | inr in_use ↦ rw in_use (
              Leads-cons (λ y. fold_key (name_at y)) all index.folded i x f
                (at-Suffix all i x xs s))
        ])

  enter-excluded :
      (i : ℕ) (xs : List A) (index : FoldedIndex)
      → (enter name_at i xs index).excluded ≡ index.excluded
  unfolding enter
  enter-excluded i [] index = refl
  enter-excluded i (x ∷ xs) index = enter-excluded (suc i) xs _

  enter-get-step :
      (i : ℕ) (x : A) (xs : List A) (index : FoldedIndex) (name : Str)
      → contains name (map name_at (x ∷ xs)) ≡ true ⊎ ¬ (get name index.exact ≡ none)
      → contains name (map name_at xs) ≡ true ⊎ ¬ (get name ((name_at x, i) ∷ index.exact) ≡ none)
  unfolding contains get
  enter-get-step i x xs index name c =
      ground (arith, eq_iff name (name_at x), eq_iff (name_at x) name, c)

  -- Every name that is entered has an entry.
  enter-get :
      (i : ℕ) (xs : List A) (index : FoldedIndex) (name : Str)
      → contains name (map name_at xs) ≡ true ⊎ ¬ (get name index.exact ≡ none)
      → ¬ (get name (enter name_at i xs index).exact ≡ none)
  unfolding enter contains get
  enter-get i [] index name (inl c) = absurd (false≢true c)
  enter-get i [] index name (inr n) = n
  enter-get i (x ∷ xs) index name c =
      enter-get (suc i) xs _ name (enter-get-step i x xs index name c)

  pub entered :
      (xs : List A) (excluded : List Str)
      → let index = new_folded_index name_at xs excluded in
        Leads name_at xs index.exact × Leads (λ x. fold_key (name_at x)) xs index.folded
  unfolding new_folded_index Suffix get
  entered xs excluded =
      enter-Leads xs 0 xs (record { exact = []; folded = []; excluded = excluded })
        (λ j. let start : 0 + j ≡ j = omega arith in ap (at xs) start)
        (λ k i g. absurd (none≢some g)) (λ k i g. absurd (none≢some g))

  lookup-any :
      (all : List A) (index : FoldedIndex) (name : Str) (i : ℕ)
      → Leads name_at all index.exact
      → Leads (λ x. fold_key (name_at x)) all index.folded
      → lookup index name ≡ some i
      → (x : A) × (at all i ≡ some x) × (fold_key (name_at x) ≡ fold_key name)
  unfolding lookup
  lookup-any all index name i e f l = elim (Option-cases (get name index.exact)) [
    | inl lost ↦ f (fold_key name) i (ground (arith, lost, l))
    | inr (j, found) ↦
        let there = e name j found in
        let j≡i : j ≡ i = ground (arith, found, l) in
        (there.0, subst (λ n. at all n ≡ some there.0) j≡i there.1, ap fold_key there.2)
  ]

  -- A position that a lookup finds holds an object whose name is the same up to ASCII case.
  pub lookup-Leads :
      (xs : List A) (excluded : List Str) (name : Str) (i : ℕ)
      → lookup (new_folded_index name_at xs excluded) name ≡ some i
      → (x : A) × (at xs i ≡ some x) × (fold_key (name_at x) ≡ fold_key name)
  unfolding lookup new_folded_index
  lookup-Leads xs excluded name i l =
      let leads = entered xs excluded in
      lookup-any xs (new_folded_index name_at xs excluded) name i leads.0 leads.1 l

  pub contains-at :
      (xs : List A) (i : ℕ) (x : A)
      → at xs i ≡ some x
      → contains (name_at x) (map name_at xs) ≡ true
  unfolding at contains
  contains-at [] i x a = ground (arith, a)
  contains-at (z ∷ zs) zero x a = ground (arith, a, eq_refl (name_at x))
  contains-at (z ∷ zs) (suc i) x a = ground (arith, contains-at zs i x a)

  -- Distinct names stand at distinct positions.
  distinct-at :
      (xs : List A) (i j : ℕ) (x y : A)
      → distinct (map name_at xs) ≡ true
      → at xs i ≡ some x
      → at xs j ≡ some y
      → name_at x ≡ name_at y
      → i ≡ j
  unfolding distinct at contains
  distinct-at [] i j x y d a b e = ground (arith, a)
  distinct-at (z ∷ zs) zero zero x y d a b e = refl
  distinct-at (z ∷ zs) zero (suc j) x y d a b e =
      let found : contains (name_at y) (map name_at zs) ≡ true = contains-at zs j y b in
      ground (arith, found, a, e, d)
  distinct-at (z ∷ zs) (suc i) zero x y d a b e =
      let found : contains (name_at x) (map name_at zs) ≡ true = contains-at zs i x a in
      ground (arith, found, b, e, d)
  distinct-at (z ∷ zs) (suc i) (suc j) x y d a b e =
      ap suc (distinct-at zs i j x y (ground (arith, d)) a b e)

  pub get-own :
      (xs : List A) (excluded : List Str) (i : ℕ) (x : A)
      → distinct (map name_at xs) ≡ true
      → at xs i ≡ some x
      → get (name_at x) (new_folded_index name_at xs excluded).exact ≡ some i
  unfolding new_folded_index
  get-own xs excluded i x d a =
      elim (Option-cases (get (name_at x) (new_folded_index name_at xs excluded).exact)) [
        | inl lost ↦ absurd (enter-get 0 xs _ (name_at x) (inl (contains-at xs i x a)) lost)
        | inr (j, found) ↦
            let there = (entered xs excluded).0 (name_at x) j found in
            found ∙ ap some (distinct-at xs j i there.0 x d there.1 a there.2)
      ]

  -- The name of an object leads to its own position if the names are distinct.
  pub lookup-own :
      (xs : List A) (excluded : List Str) (i : ℕ) (x : A)
      → distinct (map name_at xs) ≡ true
      → at xs i ≡ some x
      → lookup (new_folded_index name_at xs excluded) (name_at x) ≡ some i
  lookup-own xs excluded i x d a = lookup-exact _ (name_at x) i (get-own xs excluded i x d a)
