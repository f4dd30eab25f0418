-- ===== src/Validations/ForeignKeys/Select/Order.antt =====
-- The order of the selected keys: by child schema, then child table, then constraint name, each
-- bytewise.
use dbsgomysql.Prelude.{
  Bool-cases, List, Str, [], arith, eq_iff, false≢true, inl, inr, list_eq, nat_eq, subst, sym, true,
  ◌<◌, ◌↔◌, ◌∙◌, ◌∷◌, ◌≡◌, ◌⊎◌,
}
use dbsgomysql.Golang.Strings.{str_lt}
use dbsgomysql.Validations.ForeignKeys.Types.{ForeignKey}
use dbsgomysql.Validations.ForeignKeys.Select.{key_before, insert_key, sort_keys}
use mathlib.Core.List.{Perm}
use mathlib.Core.List.Perm

-- The first string is a proper prefix of the second, or has the smaller byte where they differ first.
abbrev pub Lt : Str → Str → Type 0
Lt s [] = ⊥
Lt [] (d ∷ t) = Unit
Lt (c ∷ s) (d ∷ t) = (c < d) ⊎ ((c ≡ d) × Lt s t)

abbrev pub Earlier : ForeignKey → ForeignKey → Type 0
Earlier k l =
    Lt k.child_schema l.child_schema
    ⊎ ((k.child_schema ≡ l.child_schema)
        × (Lt k.child_table l.child_table
            ⊎ ((k.child_table ≡ l.child_table) × Lt k.constraint_name l.constraint_name)))

-- No key stands directly before an earlier one.
abbrev pub IsSorted : List ForeignKey → Type 0
IsSorted [] = Unit
IsSorted (k ∷ []) = Unit
IsSorted (k ∷ l ∷ ls) = ¬ Earlier l k × IsSorted (l ∷ ls)

Lt-irreflexive : (s : Str) → ¬ Lt s s
Lt-irreflexive [] h = h
Lt-irreflexive (c ∷ s) h = ground (arith, Lt-irreflexive s)

Lt-asymmetric : (s t : Str) → Lt s t → ¬ Lt t s
Lt-asymmetric [] [] h g = h
Lt-asymmetric [] (d ∷ t) h g = g
Lt-asymmetric (c ∷ s) [] h g = h
Lt-asymmetric (c ∷ s) (d ∷ t) h g = ground (arith, Lt-asymmetric s t)

str_lt_iff : (s t : Str) → (str_lt s t ≡ true) ↔ Lt s t
unfolding str_lt
str_lt_iff [] [] = ground arith
str_lt_iff (c ∷ s) [] = ground arith
str_lt_iff [] (d ∷ t) = ground arith
str_lt_iff (c ∷ s) (d ∷ t) = ground (arith, str_lt_iff s t)

-- Equal strings are not one before the other.
Lt_beside : (s t : Str) → s ≡ t → ¬ Lt s t
Lt_beside s t e h = Lt-irreflexive t (subst (λ x. Lt x t) e h)

key_before_iff : (k l : ForeignKey) → (key_before k l ≡ true) ↔ Earlier k l
unfolding key_before
key_before_iff k l = ground (
  arith,
  str_lt_iff k.child_schema l.child_schema,
  str_lt_iff k.child_table l.child_table,
  str_lt_iff k.constraint_name l.constraint_name,
  eq_iff k.child_schema l.child_schema,
  eq_iff k.child_table l.child_table,
  Lt_beside k.child_schema l.child_schema,
  Lt_beside k.child_table l.child_table,
)

Earlier-asymmetric : (k l : ForeignKey) → Earlier k l → ¬ Earlier l k
Earlier-asymmetric k l h g = ground (
  arith,
  Lt-asymmetric k.child_schema l.child_schema,
  Lt-asymmetric k.child_table l.child_table,
  Lt-asymmetric k.constraint_name l.constraint_name,
  Lt_beside k.child_schema l.child_schema,
  Lt_beside k.child_table l.child_table,
  Lt_beside l.child_schema k.child_schema,
  Lt_beside l.child_table k.child_table,
)

-- What may stand behind `m`, if `k` and the keys of `ls` may.
IsSorted-insert_key :
    (m k : ForeignKey) (ls : List ForeignKey)
    → ¬ Earlier k m
    → IsSorted (m ∷ ls)
    → IsSorted (m ∷ insert_key k ls)
unfolding insert_key
IsSorted-insert_key m k [] h s = (h, tt)
IsSorted-insert_key m k (l ∷ ls) h (first, s) = elim (Bool-cases (key_before l k)) [
  | inl later ↦
      rw later (
        first,
        IsSorted-insert_key l k ls (Earlier-asymmetric l k ((key_before_iff l k).0 later)) s,
      )
  | inr sooner ↦ rw sooner (h, ((λ e. false≢true (sym sooner ∙ (key_before_iff l k).1 e)), s))
]

insert_key-IsSorted :
    (k : ForeignKey) (ls : List ForeignKey) → IsSorted ls → IsSorted (insert_key k ls)
unfolding insert_key
insert_key-IsSorted k [] s = tt
insert_key-IsSorted k (l ∷ ls) s = elim (Bool-cases (key_before l k)) [
  | inl later ↦
      rw later
        (IsSorted-insert_key l k ls (Earlier-asymmetric l k ((key_before_iff l k).0 later)) s)
  | inr sooner ↦ rw sooner ((λ e. false≢true (sym sooner ∙ (key_before_iff l k).1 e)), s)
]

pub sort_keys-IsSorted : (ks : List ForeignKey) → IsSorted (sort_keys ks)
unfolding sort_keys
sort_keys-IsSorted [] = tt
sort_keys-IsSorted (k ∷ ks) = insert_key-IsSorted k (sort_keys ks) (sort_keys-IsSorted ks)

insert_key-Perm : (k : ForeignKey) (ls : List ForeignKey) → Perm (insert_key k ls) (k ∷ ls)
unfolding insert_key
insert_key-Perm k [] = Perm.refl (k ∷ [])
insert_key-Perm k (l ∷ ls) = elim (Bool-cases (key_before l k)) [
  | inl later ↦ rw later (Perm.trans (Perm.cons l (insert_key-Perm k ls)) (Perm.swap k l ls))
  | inr sooner ↦ rw sooner (Perm.refl (k ∷ l ∷ ls))
]

pub sort_keys-Perm : (ks : List ForeignKey) → Perm (sort_keys ks) ks
unfolding sort_keys
sort_keys-Perm [] = Perm.refl []
sort_keys-Perm (k ∷ ks) =
    Perm.trans (insert_key-Perm k (sort_keys ks)) (Perm.cons k (sort_keys-Perm ks))
