-- ===== src/Validations/Grants/Like/Rounds.antt =====
-- One round of the loop of `likePatternMatches`, in terms of the elements of the pattern.
use dbsgomysql.Prelude.{
  Bool-cases, List, Option, [], any, arith, false, if◌then◌else◌, inl, inr, length, nat_eq, none,
  refl, some, subst, true, ℕ, ◌<◌, ◌==◌, ◌||◌, ◌↔◌, ◌∷◌, ◌≡◌, ◌≢◌,
}
use dbsgomysql.Validations.Grants.Like.{Round, matched, wildcard, mismatch, round, only_percent}
use dbsgomysql.Validations.Grants.Like.Spec.{
  Element, run, single, elements, Admits, Like, run-zero, run-nil, single_inv, not-single-nil,
}

-- What one round says of the elements of the pattern.
abbrev pub Means : List ℕ → ℕ → List ℕ → Round → Type 0
Means p c name (matched p' name') =
    (t : Option ℕ) × (elements p ≡ single t ∷ elements p')
    × (name' ≡ name)
    × Admits t c
    × (length p' < length p)
Means p c name (wildcard p') = (elements p ≡ run ∷ elements p') × (length p' < length p)
Means p c name mismatch = ¬ Like (elements p) (c ∷ name)

not-admitted :
    (p es : List ℕ) (x c : ℕ) (name : List ℕ)
    → elements p ≡ single (some x) ∷ elements es
    → c ≢ x
    → ¬ Like (elements p) (c ∷ name)
not-admitted p es x c name e n h =
    let (a, _) = single_inv (elements es) (some x) c name (subst (λ l. Like l (c ∷ name)) e h) in
    n a

-- A rune that is neither `%` nor an escape.
plain-Means :
    (x : ℕ) (p : List ℕ) (c : ℕ) (name : List ℕ)
    → elements (x ∷ p) ≡ single (if x == 95 then none else some x) ∷ elements p
    → Means (x ∷ p) c name (if x == 95 || x == c then matched p name else mismatch)
plain-Means x p c name e = elim (Bool-cases (x == 95)) [
  | inl any ↦ rw any (none, rw any at e, refl, tt, omega arith)
  | inr other ↦ elim (Bool-cases (x == c)) [
    | inl same ↦ rw (other, same) (some x, rw other at e, refl, ground arith, omega arith)
    | inr different ↦
        rw (other, different) (not-admitted (x ∷ p) p x c name (rw other at e) (ground arith))
  ]
]

pub round-Means : (p : List ℕ) (c : ℕ) (name : List ℕ) → Means p c name (round p c name)
unfolding round
round-Means [] c name = unfold elements in λ h. ground arith
round-Means (x ∷ []) c name = elim (Bool-cases (x == 37)) [
  | inl star ↦ rw star (unfold elements in rw star, omega arith)
  | inr other ↦ rw other (plain-Means x [] c name (unfold elements in rw other))
]
round-Means (x ∷ y ∷ p) c name = elim (Bool-cases (x == 37)) [
  | inl star ↦ rw star (unfold elements in rw star, omega arith)
  | inr other ↦ elim (Bool-cases (x == 92)) [
    | inl escape ↦
        rw (other, escape)
          (elim (Bool-cases (y == c)) [
            | inl same ↦
                rw same
                  (some y, unfold elements in rw (other, escape), refl, ground arith, omega arith)
            | inr different ↦ rw different (
                not-admitted (x ∷ y ∷ p) p y c name (unfold elements in rw (other, escape))
                  (ground arith))
          ])
    | inr none_such ↦
        rw (other, none_such)
          (plain-Means x (y ∷ p) c name (unfold elements in rw (other, none_such)))
  ]
]

elements-run : (x : ℕ) (p : List ℕ) → (x == 37) ≡ true → elements (x ∷ p) ≡ run ∷ elements p
unfolding elements
elements-run x [] h = rw h
elements-run x (y ∷ p) h = rw h

elements-single :
    (x : ℕ) (p : List ℕ)
    → (x == 37) ≡ false
    → (t : Option ℕ) × (es : List Element) × (elements (x ∷ p) ≡ single t ∷ es)
unfolding elements
elements-single x [] h = rw h (_, _, refl)
elements-single x (y ∷ p) h = elim (Bool-cases (x == 92)) [
  | inl escape ↦ rw (h, escape) (_, _, refl)
  | inr other ↦ rw (h, other) (_, _, refl)
]

pub only_percent_iff : (p : List ℕ) → (only_percent p ≡ true) ↔ Like (elements p) []
unfolding only_percent
only_percent_iff [] = unfold elements in (λ _. refl, λ _. refl)
only_percent_iff (x ∷ p) = elim (Bool-cases (x == 37)) [
  | inl star ↦
      rw (star, elements-run x p star)
        (
          λ h. run-zero (elements p) [] ((only_percent_iff p).0 h),
          λ l. (only_percent_iff p).1 (run-nil (elements p) l),
        )
  | inr other ↦
      let (t, es, e) = elements-single x p other in
      rw (other, e) (λ h. absurd (ground arith), λ l. absurd (not-single-nil es t l))
]
