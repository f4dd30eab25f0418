-- ===== src/Validations/Diff/Matching/Laws.antt =====
-- What the loops that match two sides report.
use dbsgomysql.Prelude.{
  All, Any, Bool-cases, List, Option-cases, Str, [], ap, arith, contains, eq_iff, eq_refl, inl, inr,
  list_eq, nat_eq, none, refl, some, subst, suc, sym, true, zero, ℕ, ◌++◌, ◌+◌, ◌==◌, ◌∙◌, ◌∷◌, ◌≡◌,
  ◌⊎◌,
}
use dbsgomysql.Validations.Spec.Index.{at, FoldedIndex, lookup}
use dbsgomysql.Validations.Diff.Types.{SpecDiff}
use dbsgomysql.Validations.Diff.Matching.{match_each, unmatched, pair_at}

pub cons≢nil : {A : Type 0} {x : A} {xs : List A} → x ∷ xs ≡ [] → ⊥
cons≢nil e = ground (arith, e)

pub both-nil : {A : Type 0} {xs ys : List A} → xs ≡ [] → ys ≡ [] → xs ++ ys ≡ []
both-nil {ys = ys} e f = ap (λ zs. zs ++ ys) e ∙ f

pub append≡nil : {A : Type 0} (xs ys : List A) → xs ++ ys ≡ [] → (xs ≡ []) × (ys ≡ [])
append≡nil [] ys e = (refl, e)
append≡nil (x ∷ xs) ys e = absurd (cons≢nil e)

pub unmatched-none :
    {A : Type 0} (i : ℕ) (ys : List A) (matched : List ℕ)
    → ((j : ℕ) (y : A) → at ys j ≡ some y → contains (i + j) matched ≡ true)
    → unmatched i ys matched ≡ []
unfolding unmatched at
unmatched-none i [] matched h = refl
unmatched-none i (y ∷ ys) matched h =
    let here : contains i matched ≡ true =
      let start : i + 0 ≡ i = omega arith in
      subst (λ n. contains n matched ≡ true) start (h 0 y refl) in
    let later : unmatched (suc i) ys matched ≡ [] = unmatched-none (suc i) ys matched (λ j z e.
      let shift : i + suc j ≡ suc i + j = omega arith in
      subst (λ n. contains n matched ≡ true) shift (h (suc j) z e)) in
    ground (arith, here, later)

pub unmatched-nil :
    {A : Type 0} (i : ℕ) (ys : List A) (matched : List ℕ)
    → unmatched i ys matched ≡ []
    → (j : ℕ) (y : A) → at ys j ≡ some y
    → contains (i + j) matched ≡ true
unfolding unmatched at
unmatched-nil i [] matched u j y e = ground (arith, e)
unmatched-nil i (z ∷ ys) matched u zero y e =
    let start : i ≡ i + 0 = omega arith in
    subst (λ n. contains n matched ≡ true) start (ground (arith, u))
unmatched-nil i (z ∷ ys) matched u (suc j) y e =
    let shift : suc i + j ≡ i + suc j = omega arith in
    subst (λ n. contains n matched ≡ true) shift
      (unmatched-nil (suc i) ys matched (ground (arith, u)) j y e)

module _ {A : Type 0} (name_at : A → Str) (absent_in_b : A → SpecDiff)
    (differ : A → A → List SpecDiff) (b : List A) (index : FoldedIndex) where
  abbrev pub run : List A → List ℕ → List SpecDiff × List ℕ
  run = match_each name_at absent_in_b differ b index

  run-found :
      (x : A) (xs : List A) (matched : List ℕ) (i : ℕ)
      → lookup index (name_at x) ≡ some i
      → run (x ∷ xs) matched ≡ (
        pair_at name_at absent_in_b differ b index x (at b i) ++ (run xs (i ∷ matched)).0,
        (run xs (i ∷ matched)).1,
      )
  unfolding match_each
  run-found x xs matched i l = ground (arith, l)

  run-lost :
      (x : A) (xs : List A) (matched : List ℕ)
      → lookup index (name_at x) ≡ none
      → run (x ∷ xs) matched ≡ (absent_in_b x ∷ (run xs matched).0, (run xs matched).1)
  unfolding match_each
  run-lost x xs matched l = ground (arith, l)

  -- A matched position stays matched.
  run-keeps :
      (xs : List A) (matched : List ℕ) (k : ℕ)
      → contains k matched ≡ true
      → contains k (run xs matched).1 ≡ true
  unfolding match_each contains
  run-keeps [] matched k c = c
  run-keeps (x ∷ xs) matched k c = elim (Option-cases (lookup index (name_at x))) [
    | inl lost ↦ rw (run-lost x xs matched lost) (run-keeps xs matched k c)
    | inr (i, found) ↦
        rw (run-found x xs matched i found) (run-keeps xs (i ∷ matched) k (ground (arith, c)))
  ]

  -- The position that an object's name leads to becomes matched.
  pub run-marks :
      (xs : List A) (matched : List ℕ) (j : ℕ) (x : A) (k : ℕ)
      → at xs j ≡ some x
      → lookup index (name_at x) ≡ some k
      → contains k (run xs matched).1 ≡ true
  unfolding at contains
  run-marks [] matched j x k e l = ground (arith, e)
  run-marks (z ∷ xs) matched zero x k e l =
      let x≡z : x ≡ z = ground (arith, e) in
      let l2 = subst (λ y. lookup index (name_at y) ≡ some k) x≡z l in
      rw (run-found z xs matched k l2) (run-keeps xs (k ∷ matched) k (ground (arith, eq_refl k)))
  run-marks (z ∷ xs) matched (suc j) x k e l = elim (Option-cases (lookup index (name_at z))) [
    | inl lost ↦ rw (run-lost z xs matched lost) (run-marks xs matched j x k e l)
    | inr (i, found) ↦ rw (run-found z xs matched i found) (run-marks xs (i ∷ matched) j x k e l)
  ]

  -- What one matched object of side a and its match have in common.
  unfoldable pub Paired : A → ℕ → A → Type 0
  Paired x i y = (lookup index (name_at x) ≡ some i) × (at b i ≡ some y) × (differ x y ≡ [])

  unfoldable pub Each : List A → Type 0
  Each xs = All (λ x. (i : ℕ) × (y : A) × Paired x i y) xs

  -- Positions of the index are positions of side b.
  unfoldable pub Inside : Type 0
  Inside = (x : A) (i : ℕ) → lookup index (name_at x) ≡ some i → (y : A) × (at b i ≡ some y)

  -- No difference means that each object has a match without differences.
  pub run-nil : (xs : List A) (matched : List ℕ) → Inside → (run xs matched).0 ≡ [] → Each xs
  unfolding match_each Inside Each Paired
  run-nil [] matched inside e = tt
  run-nil (x ∷ xs) matched inside e = elim (Option-cases (lookup index (name_at x))) [
    | inl lost ↦ absurd (cons≢nil (sym (ap (λ r. r.0) (run-lost x xs matched lost)) ∙ e))
    | inr (i, found) ↦
        let parts = append≡nil _ _ (sym (ap (λ r. r.0) (run-found x xs matched i found)) ∙ e) in
        let match = inside x i found in
        let same =
          subst (λ o. pair_at name_at absent_in_b differ b index x o ≡ []) match.1 parts.0 in
        ((i, match.0, (found, match.1, same)), run-nil xs (i ∷ matched) inside parts.1)
  ]

  -- A matched position was matched before or by an object of side a.
  pub run-origin :
      (xs : List A) (matched : List ℕ) (k : ℕ)
      → contains k (run xs matched).1 ≡ true
      → contains k matched ≡ true ⊎ Any (λ x. lookup index (name_at x) ≡ some k) xs
  unfolding contains match_each
  run-origin [] matched k c = inl c
  run-origin (x ∷ xs) matched k c = elim (Option-cases (lookup index (name_at x))) [
    | inl lost ↦
        elim (run-origin xs matched k
          (subst (λ r. contains k r.1 ≡ true) (run-lost x xs matched lost) c)) [
            | inl before ↦ inl before
            | inr there ↦ inr (inr there)
          ]
    | inr (i, found) ↦
        elim (run-origin xs (i ∷ matched) k
          (subst (λ r. contains k r.1 ≡ true) (run-found x xs matched i found) c)) [
            | inl before ↦ elim (Bool-cases (k == i)) [
              | inl same ↦
                  let i≡k : i ≡ k = sym ((eq_iff k i).0 same) in inr (inl (found ∙ ap some i≡k))
              | inr other ↦ inl (ground (arith, before, other))
            ]
            | inr there ↦ inr (inr there)
          ]
  ]

  -- Matches without differences give no difference.
  pub run-Each : (xs : List A) (matched : List ℕ) → Each xs → (run xs matched).0 ≡ []
  unfolding Each match_each Paired
  run-Each [] matched e = refl
  run-Each (x ∷ xs) matched ((i, y, (l, a, d)), e) =
      ap (λ r. r.0) (run-found x xs matched i l)
      ∙ ap (λ o. pair_at name_at absent_in_b differ b index x o ++ (run xs (i ∷ matched)).0) a
      ∙ ap (λ o. o ++ (run xs (i ∷ matched)).0) d
      ∙ run-Each xs (i ∷ matched) e
