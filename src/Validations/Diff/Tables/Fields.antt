-- ===== src/Validations/Diff/Tables/Fields.antt =====
-- Which fields a comparison of two matched objects reads.
use dbsgomysql.Prelude.{
  Bool, List, Option, Str, [], arith, bool_eq, eq_iff, inr, list_eq, nat_eq, none, refl, some, true,
  ◌==◌, ◌↔◌, ◌∷◌, ◌≡◌, ◌⊎◌,
}
use dbsgomysql.Validations.Spec.{ColumnSpec, IndexSpec, IndexPart}
use dbsgomysql.Validations.Spec.Fold.{fold_key, ascii_fold_equal_iff}
use dbsgomysql.Validations.Diff.Columns.{
  generated_eq, diff_column_pair, same_default, same_text_and,
}
use dbsgomysql.Validations.Diff.Indexes.{diff_index_pair, parts_equal}
use dbsgomysql.Validations.Diff.Types.{reported-nil_iff}

-- Equal default texts; the flags say something of a text, so they count only if there is one.
pub SameDefault : ColumnSpec → ColumnSpec → Type 0
SameDefault a b =
    (a.default ≡ b.default) × (a.default ≡ none ⊎ a.default_is_expression ≡ b.default_is_expression)

pub record SameColumn (a b : ColumnSpec) : Type 0 where
  pub normalized_type : a.normalized_type ≡ b.normalized_type
  pub nullable : a.nullable ≡ b.nullable
  pub charset : a.charset ≡ b.charset
  pub collation : a.collation ≡ b.collation
  pub default : SameDefault a b
  pub ordinal : a.ordinal ≡ b.ordinal
  pub invisible : a.invisible ≡ b.invisible
  pub generated : a.generated ≡ b.generated
  pub generation_expr : a.generation_expr ≡ b.generation_expr
  pub auto_increment : a.auto_increment ≡ b.auto_increment
  pub on_update : a.on_update ≡ b.on_update

default-own : (c : ColumnSpec) → SameDefault c c
unfolding SameDefault
default-own c = (refl, inr refl)

pub SameColumn-own : (c : ColumnSpec) → SameColumn c c
SameColumn-own c = record {
  normalized_type = refl;
  nullable = refl;
  charset = refl;
  collation = refl;
  default = default-own c;
  ordinal = refl;
  invisible = refl;
  generated = refl;
  generation_expr = refl;
  auto_increment = refl;
  on_update = refl;
}

same_text_and_iff :
    (same : Bool) (x y : Option Str)
    → (same_text_and same x y ≡ true) ↔ ((x ≡ y) × (x ≡ none ⊎ same ≡ true))
same_text_and_iff same none none = ground arith
same_text_and_iff same none (some y) = ground arith
same_text_and_iff same (some x) none = ground arith
same_text_and_iff same (some x) (some y) = ground (arith, eq_iff x y)

same_default_iff : (a b : ColumnSpec) → (same_default a b ≡ true) ↔ SameDefault a b
unfolding same_default SameDefault
same_default_iff a b = ground (
  arith,
  same_text_and_iff (a.default_is_expression == b.default_is_expression) a.default b.default,
  eq_iff a.default_is_expression b.default_is_expression,
)

-- The comparison of two columns reports nothing exactly if all the compared fields agree.
pub diff_column_pair-nil_iff : (a b : ColumnSpec) → (diff_column_pair a b ≡ []) ↔ SameColumn a b
unfolding diff_column_pair
diff_column_pair-nil_iff a b = (
  λ e.
      let all_same = (reported-nil_iff _).0 e in
      record {
        normalized_type = (eq_iff a.normalized_type b.normalized_type).0 all_same.0;
        nullable = (eq_iff a.nullable b.nullable).0 all_same.1.0;
        charset = (eq_iff a.charset b.charset).0 all_same.1.1.0;
        collation = (eq_iff a.collation b.collation).0 all_same.1.1.1.0;
        default = (same_default_iff a b).0 all_same.1.1.1.1.0;
        ordinal = (eq_iff a.ordinal b.ordinal).0 all_same.1.1.1.1.1.0;
        invisible = (eq_iff a.invisible b.invisible).0 all_same.1.1.1.1.1.1.0;
        generated = (eq_iff a.generated b.generated).0 all_same.1.1.1.1.1.1.1.0;
        generation_expr = (eq_iff a.generation_expr b.generation_expr).0 all_same.1.1.1.1.1.1.1.1.0;
        auto_increment = (eq_iff a.auto_increment b.auto_increment).0 all_same.1.1.1.1.1.1.1.1.1.0;
        on_update = (eq_iff a.on_update b.on_update).0 all_same.1.1.1.1.1.1.1.1.1.1.0;
      },
  λ s. (reported-nil_iff _).1 (
    (eq_iff a.normalized_type b.normalized_type).1 s.normalized_type,
    (
      (eq_iff a.nullable b.nullable).1 s.nullable,
      (
        (eq_iff a.charset b.charset).1 s.charset,
        (
          (eq_iff a.collation b.collation).1 s.collation,
          (
            (same_default_iff a b).1 s.default,
            (
              (eq_iff a.ordinal b.ordinal).1 s.ordinal,
              (
                (eq_iff a.invisible b.invisible).1 s.invisible,
                (
                  (eq_iff a.generated b.generated).1 s.generated,
                  (
                    (eq_iff a.generation_expr b.generation_expr).1 s.generation_expr,
                    (
                      (eq_iff a.auto_increment b.auto_increment).1 s.auto_increment,
                      ((eq_iff a.on_update b.on_update).1 s.on_update, tt),
                    ),
                  ),
                ),
              ),
            ),
          ),
        ),
      ),
    ),
  ),
)

-- Equal key parts, the column names up to ASCII case.
SamePart : IndexPart → IndexPart → Type 0
SamePart a b =
    (fold_key a.column ≡ fold_key b.column)
    × (a.expression ≡ b.expression)
    × (a.sub_part ≡ b.sub_part)
    × (a.descending ≡ b.descending)

pub SameParts : List IndexPart → List IndexPart → Type 0
SameParts [] [] = Unit
SameParts [] (_ ∷ _) = ⊥
SameParts (_ ∷ _) [] = ⊥
SameParts (a ∷ ls) (b ∷ rs) = SamePart a b × SameParts ls rs

pub record SameIndex (a b : IndexSpec) : Type 0 where
  pub name : a.name ≡ b.name
  pub parts : SameParts a.parts b.parts
  pub unique : a.unique ≡ b.unique
  pub type : a.type ≡ b.type
  pub visible : a.visible ≡ b.visible

SameParts-own : (xs : List IndexPart) → SameParts xs xs
unfolding SameParts SamePart
SameParts-own [] = tt
SameParts-own (x ∷ xs) = ((refl, refl, refl, refl), SameParts-own xs)

pub SameIndex-own : (i : IndexSpec) → SameIndex i i
SameIndex-own i = record {
  name = refl;
  parts = SameParts-own i.parts;
  unique = refl;
  type = refl;
  visible = refl;
}

parts_equal_iff : (xs ys : List IndexPart) → (parts_equal xs ys ≡ true) ↔ SameParts xs ys
unfolding parts_equal SameParts SamePart
parts_equal_iff [] [] = ground arith
parts_equal_iff [] (y ∷ ys) = ground arith
parts_equal_iff (x ∷ xs) [] = ground arith
parts_equal_iff (x ∷ xs) (y ∷ ys) = ground (
  arith,
  ascii_fold_equal_iff x.column y.column,
  eq_iff x.expression y.expression,
  eq_iff x.sub_part y.sub_part,
  eq_iff x.descending y.descending,
  parts_equal_iff xs ys,
)

-- The comparison of two matched indexes reports nothing exactly if they have the same name,
-- uniqueness, type and visibility, and the same key parts up to the ASCII case of their column
-- names.
pub diff_index_pair-nil_iff : (a b : IndexSpec) → (diff_index_pair a b ≡ []) ↔ SameIndex a b
unfolding diff_index_pair
diff_index_pair-nil_iff a b = (
  λ e.
      let all_same = (reported-nil_iff _).0 e in
      record {
        name = (eq_iff a.name b.name).0 all_same.0;
        parts = (parts_equal_iff a.parts b.parts).0 all_same.1.0;
        unique = (eq_iff a.unique b.unique).0 all_same.1.1.0;
        type = (eq_iff a.type b.type).0 all_same.1.1.1.0;
        visible = (eq_iff a.visible b.visible).0 all_same.1.1.1.1.0;
      },
  λ s. (reported-nil_iff _).1 (
    (eq_iff a.name b.name).1 s.name,
    (
      (parts_equal_iff a.parts b.parts).1 s.parts,
      (
        (eq_iff a.unique b.unique).1 s.unique,
        ((eq_iff a.type b.type).1 s.type, ((eq_iff a.visible b.visible).1 s.visible, tt)),
      ),
    ),
  ),
)
