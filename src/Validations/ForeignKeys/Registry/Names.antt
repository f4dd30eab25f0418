-- ===== src/Validations/ForeignKeys/Registry/Names.antt =====
-- The names that InnoDB joins by a slash.
use dbsgomysql.Prelude.{
  Option, Option-cases, Str, [], ap, arith, contains, false, inl, inr, is_empty, list_eq, nat_eq,
  none, some, ℕ, ◌++◌, ◌↔◌, ◌∙◌, ◌∷◌, ◌≡◌,
}
use dbsgomysql.Golang.Sql.{ok}
use dbsgomysql.Golang.Strings.{cut_byte}
use dbsgomysql.Validations.ForeignKeys.Registry.{slash, parts_of, split_innodb_name}

-- A part in front of the slash.
pub record Splits (left right : Str) : Type 0 where
  pub no_slash : contains slash left ≡ false
  pub left_some : is_empty left ≡ false
  pub right_some : is_empty right ≡ false

cut_byte-append :
    (c : ℕ) (left right : Str)
    → contains c left ≡ false
    → cut_byte c (left ++ c ∷ right) ≡ some (left, right)
unfolding cut_byte contains
cut_byte-append c [] right h = ground arith
cut_byte-append c (b ∷ left) right h = ground (arith, cut_byte-append c left right)

cut_byte-some :
    (c : ℕ) (s left right : Str)
    → cut_byte c s ≡ some (left, right)
    → (s ≡ left ++ c ∷ right) × (contains c left ≡ false)
unfolding cut_byte contains
cut_byte-some c [] left right e = ground (arith, e)
cut_byte-some c (b ∷ s) left right e = elim (Option-cases (cut_byte c s)) [
  | inl none_left ↦ ground (arith, none_left, e)
  | inr ((l, r), found) ↦ ground (arith, found, e, cut_byte-some c s l r found)
]

parts_of-eq-ok :
    (value left right : Str) (cut : Option (Str × Str))
    → parts_of value cut ≡ ok (left, right)
    → (cut ≡ some (left, right)) × (is_empty left ≡ false) × (is_empty right ≡ false)
parts_of-eq-ok value left right none e = ground (arith, e)
parts_of-eq-ok value left right (some (l, r)) e = ground (arith, e)

split-forward :
    (value left right : Str)
    → split_innodb_name value ≡ ok (left, right)
    → (value ≡ left ++ slash ∷ right) × Splits left right
unfolding split_innodb_name
split-forward value left right e =
    let parts = parts_of-eq-ok value left right (cut_byte slash value) e in
    let cut = cut_byte-some slash value left right parts.0 in
    (cut.0, record { no_slash = cut.1; left_some = parts.1; right_some = parts.2 })

pub split-join :
    (left right : Str)
    → Splits left right
    → split_innodb_name (left ++ slash ∷ right) ≡ ok (left, right)
unfolding split_innodb_name
split-join left right h =
    rw (cut_byte-append slash left right h.no_slash) (ground (arith, h.left_some, h.right_some))

-- Splitting a name gives exactly the two non-empty parts around its first slash.
pub split_innodb_name_iff :
    (value left right : Str)
    → (split_innodb_name value ≡ ok (left, right))
      ↔ ((value ≡ left ++ slash ∷ right) × Splits left right)
split_innodb_name_iff value left right =
    (split-forward value left right, λ h. ap split_innodb_name h.0 ∙ split-join left right h.1)
