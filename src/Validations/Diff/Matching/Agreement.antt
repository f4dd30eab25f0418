-- ===== src/Validations/Diff/Matching/Agreement.antt =====
-- Two sides without differences agree object by object.
use dbsgomysql.Prelude.{
  All, Any, List, Str, [], ap, arith, contains, false≢true, inl, inr, list_eq, map, nat_eq, refl,
  some, subst, suc, true, zero, ℕ, ◌+◌, ◌∷◌, ◌≡◌,
}
use dbsgomysql.Validations.Spec.Index.{at, new_folded_index, lookup}
use dbsgomysql.Validations.Spec.Index.Laws.{distinct, lookup-Leads, lookup-own}
use dbsgomysql.Validations.Diff.Types.{SpecDiff}
use dbsgomysql.Validations.Diff.Matching.{match_each, unmatched}
use dbsgomysql.Validations.Diff.Matching.Laws.{
  unmatched-none, unmatched-nil, run, Paired, Each, Inside, run-nil, run-origin, run-marks,
  run-Each,
}

-- Each object of one side has a related object on the other side.
unfoldable pub Matches : {A : Type 0} → (A → A → Type 0) → List A → List A → Type 0
Matches R ls rs = All (λ x. Any (λ y. R x y) rs) ls × All (λ y. Any (λ x. R x y) ls) rs

module _ {A : Type 0} where
  pub at-Any : (P : A → Type 0) (ys : List A) (i : ℕ) (y : A) → at ys i ≡ some y → P y → Any P ys
  unfolding at
  at-Any P [] i y e p = ground (arith, e)
  at-Any P (z ∷ ys) zero y e p = let y≡z : y ≡ z = ground (arith, e) in inl (subst P y≡z p)
  at-Any P (z ∷ ys) (suc i) y e p = inr (at-Any P ys i y e p)

  pub All-at :
      (P : A → Type 0) (ys : List A) → ((i : ℕ) (y : A) → at ys i ≡ some y → P y) → All P ys
  unfolding at
  All-at P [] h = tt
  All-at P (y ∷ ys) h = (h 0 y refl, All-at P ys (λ i z e. h (suc i) z e))

  pub All-map : {P Q : A → Type 0} → ((x : A) → P x → Q x) → (xs : List A) → All P xs → All Q xs
  All-map f [] a = tt
  All-map f (x ∷ xs) (p, a) = (f x p, All-map f xs a)

  pub Any-map : {P Q : A → Type 0} → ((x : A) → P x → Q x) → (xs : List A) → Any P xs → Any Q xs
  Any-map f [] a = a
  Any-map f (x ∷ xs) (inl p) = inl (f x p)
  Any-map f (x ∷ xs) (inr a) = inr (Any-map f xs a)

  All-Any : (P Q : A → Type 0) (xs : List A) → All P xs → Any Q xs → Any (λ x. P x × Q x) xs
  All-Any P Q [] a b = b
  All-Any P Q (x ∷ xs) (p, a) (inl q) = inl (p, q)
  All-Any P Q (x ∷ xs) (p, a) (inr b) = inr (All-Any P Q xs a b)

  pub Matches-map :
      {R S : A → A → Type 0}
      → ((x y : A) → R x y → S x y)
      → (ls rs : List A) → Matches R ls rs
      → Matches S ls rs
  unfolding Matches
  Matches-map f ls rs (l, r) =
      (All-map (λ x. Any-map (λ y. f x y) rs) ls l, All-map (λ y. Any-map (λ x. f x y) ls) rs r)

module _ {A : Type 0} (name_at : A → Str) (absent_in_b : A → SpecDiff)
    (differ : A → A → List SpecDiff) (a b : List A) (excluded : List Str) where
  abbrev found : List SpecDiff × List ℕ
  found = match_each name_at absent_in_b differ b (new_folded_index name_at b excluded) a []

  within : Inside name_at absent_in_b differ b (new_folded_index name_at b excluded)
  unfolding Inside
  within x i l = let there = lookup-Leads name_at b excluded (name_at x) i l in (there.0, there.1)

  at_one_position :
      (x y : A) (j : ℕ)
      → ((i : ℕ) × (z : A) × Paired name_at absent_in_b differ b
            (new_folded_index name_at b excluded)
            x
            i
            z)
      → lookup (new_folded_index name_at b excluded) (name_at x) ≡ some (0 + j)
      → at b j ≡ some y
      → differ x y ≡ []
  unfolding Paired
  at_one_position x y j (i, z, (l, at_i, d)) l2 at_j =
      let i≡j : i ≡ j = ground (arith, l, l2) in
      let z≡y : z ≡ y = ground (arith, at_i, at_j, ap (at b) i≡j) in
      subst (λ w. differ x w ≡ []) z≡y d

  pub found-Matches :
      found.0 ≡ [] → unmatched 0 b found.1 ≡ [] → Matches (λ x y. differ x y ≡ []) a b
  unfolding Matches Each Paired Inside contains
  found-Matches e u =
      let each =
        run-nil name_at absent_in_b differ b (new_folded_index name_at b excluded) a [] within e in
      (
        All-map (λ x p. at-Any (λ y. differ x y ≡ []) b p.0 p.1 p.2.1 p.2.2) a each,
        All-at _ b (λ j y at_j.
            elim (run-origin name_at absent_in_b differ b _ a [] (0 + j)
              (unmatched-nil 0 b found.1 u j y at_j)) [
                | inl c ↦ absurd (false≢true c)
                | inr c ↦
                    Any-map (λ x p. at_one_position x y j p.0 p.1 at_j) a (All-Any _ _ a each c)
              ]),
      )

pub found-own :
    {A : Type 0} (name_at : A → Str) (absent_in_b : A → SpecDiff) (differ : A → A → List SpecDiff)
    (b : List A) (excluded : List Str)
    → distinct (map name_at b) ≡ true
    → ((x : A) → differ x x ≡ [])
    → let found =
        match_each name_at absent_in_b differ b (new_folded_index name_at b excluded) b [] in
      (found.0 ≡ []) × (unmatched 0 b found.1 ≡ [])
unfolding Each Paired
found-own name_at absent_in_b differ b excluded d h =
    let own = lookup-own name_at b excluded in
    (
      run-Each name_at absent_in_b differ b _ b []
          (All-at _ b (λ i x e. (i, x, (own i x d e, e, h x)))),
      unmatched-none 0 b _ (λ j x e.
          let start : j ≡ 0 + j = omega arith in
          subst
            (λ n.
              contains n
                (run name_at absent_in_b differ b (new_folded_index name_at b excluded) b []).1
              ≡ true)
            start (run-marks name_at absent_in_b differ b _ b [] j x j e (own j x d e))),
    )
