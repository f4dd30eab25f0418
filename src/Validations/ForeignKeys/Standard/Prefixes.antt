-- ===== src/Validations/ForeignKeys/Standard/Prefixes.antt =====
-- pkg/validations/foreign_keys.go: which columns an index supports.
use dbsgomysql.Prelude.{
  Any, Bool, Bool-cases, List, Str, [], any, ap, arith, eq_iff, eq_refl, false, inl, inr, is_empty,
  length, length-append, list_eq, ltb, nat_beq, nat_eq, not, refl, suc, sym, true, ℕ, ◌&&◌, ◌++◌,
  ◌==◌, ◌↔◌, ◌∙◌, ◌∷◌, ◌≡◌, ◌≤◌,
}
use dbsgomysql.Validations.ForeignKeys.Standard.{starts_with, foreign_key_columns_indexed}

-- The index has the columns as its first ones, in their order.
abbrev pub LeftmostOf : List Str → List Str → Type 0
LeftmostOf columns index = (rest : List Str) × (index ≡ columns ++ rest)

abbrev supports : List Str → List Str → Bool
supports columns index = not (ltb (length index) (length columns)) && starts_with columns index

few-columns : {n : ℕ} → ¬ (suc n ≤ 0)
few-columns l = omega (arith, l)

starts_with-LeftmostOf :
    (columns index : List Str)
    → length columns ≤ length index
    → starts_with columns index ≡ true
    → LeftmostOf columns index
unfolding starts_with
starts_with-LeftmostOf [] index l e = (index, refl)
starts_with-LeftmostOf (c ∷ columns) [] l e = elim (few-columns l) [ ]
starts_with-LeftmostOf (c ∷ columns) (i ∷ index) l e = elim (Bool-cases (i == c)) [
  | inl h ↦
      let (rest, same) =
        starts_with-LeftmostOf columns index (omega (arith, l)) (ground (arith, h, e)) in
      let first : i ≡ c = (eq_iff i c).0 h in
      (rest, ap (λ x. x ∷ index) first ∙ ap (λ x. c ∷ x) same)
  | inr h ↦ ground (arith, h, e)
]

LeftmostOf-starts_with : (columns rest : List Str) → starts_with columns (columns ++ rest) ≡ true
unfolding starts_with
LeftmostOf-starts_with [] rest = refl
LeftmostOf-starts_with (c ∷ columns) rest =
    ground (arith, eq_refl c, LeftmostOf-starts_with columns rest)

supports_iff :
    (columns index : List Str) → (supports columns index ≡ true) ↔ LeftmostOf columns index
supports_iff columns index = (
  λ e. starts_with-LeftmostOf columns index (ground (arith, e)) (ground (arith, e)),
  λ (rest, same).
      ap (supports columns) same
      ∙ ground (arith, length-append columns rest, LeftmostOf-starts_with columns rest),
)

any-supports :
    (columns : List Str) (indexes : List (List Str))
    → (any (supports columns) indexes ≡ true) ↔ Any (LeftmostOf columns) indexes
any-supports columns [] = ground arith
any-supports columns (index ∷ indexes) =
    ground (arith, supports_iff columns index, any-supports columns indexes)

-- A key counts as indexed if and only if it has columns and they are, in their order, the first
-- columns of some index of its table.
pub foreign_key_columns_indexed_iff :
    (columns : List Str) (indexes : List (List Str))
    → (foreign_key_columns_indexed columns indexes ≡ true)
      ↔ ((is_empty columns ≡ false) × Any (LeftmostOf columns) indexes)
unfolding foreign_key_columns_indexed
foreign_key_columns_indexed_iff [] indexes = ground arith
foreign_key_columns_indexed_iff (c ∷ columns) indexes = (
  λ e. (refl, (any-supports (c ∷ columns) indexes).0 (sym (rw (nonzero) refl) ∙ e)),
  λ (_, a). rw (nonzero) ((any-supports (c ∷ columns) indexes).1 a),
)
  where
    nonzero : nat_beq (length (c ∷ columns)) 0 ≡ false
    nonzero = ground arith
