-- ===== src/Validations/ForeignKeys/Registry/Rules.antt =====
-- The flags of a constraint and the two rules they stand for.
use dbsgomysql.Prelude.{
  List, Str, [], arith, inl, inr, list_eq, nat_eq, ℕ, ◌%◌, ◌*◌, ◌+◌, ◌/◌, ◌↔◌, ◌∷◌, ◌≡◌, ◌⊎◌,
}
use dbsgomysql.Golang.Sql.{ok}
use dbsgomysql.Validations.ForeignKeys.Registry.{
  restrict_rule, cascade_rule, set_null_rule, no_action_rule, decode_innodb_rules,
  decode_foreign_key_rule,
}

pub data Rule : Type 0 where
  restrict : Rule
  cascade : Rule
  set_null : Rule
  no_action : Rule

abbrev pub rule_text : Rule → Str
rule_text restrict = restrict_rule
rule_text cascade = cascade_rule
rule_text set_null = set_null_rule
rule_text no_action = no_action_rule

-- The flag by which InnoDB records the rule of a deletion, and that of an update.
abbrev pub delete_flag : Rule → ℕ
delete_flag restrict = 0
delete_flag cascade = 1
delete_flag set_null = 2
delete_flag no_action = 16

abbrev pub update_flag : Rule → ℕ
update_flag restrict = 0
update_flag cascade = 4
update_flag set_null = 8
update_flag no_action = 32

-- The rules that are recorded are the rules that are decoded.
pub decode_innodb_rules-flags :
    (d u : Rule)
    → decode_innodb_rules (delete_flag d + update_flag u) ≡ ok (rule_text d, rule_text u)
unfolding decode_innodb_rules
decode_innodb_rules-flags restrict u = ground arith
decode_innodb_rules-flags cascade u = ground arith
decode_innodb_rules-flags set_null u = ground arith
decode_innodb_rules-flags no_action u = ground arith

-- What a choice among three flags gives: the bits of the flags, and the rule.
chosen :
    (flags p q r : ℕ) (s t u x : Str)
    → decode_foreign_key_rule flags ((p, s) ∷ (q, t) ∷ (r, u) ∷ []) ≡ ok x
    → let bits = λ (a b c : ℕ). (flags / p % 2 ≡ a) × (flags / q % 2 ≡ b) × (flags / r % 2 ≡ c) in
      (bits 0 0 0 × (x ≡ restrict_rule))
      ⊎ (bits 1 0 0 × (x ≡ s))
      ⊎ (bits 0 1 0 × (x ≡ t))
      ⊎ (bits 0 0 1 × (x ≡ u))
unfolding decode_foreign_key_rule
chosen flags p q r s t u x e = ground arith

abbrev delete_choices : List (ℕ × Str)
delete_choices = (1, cascade_rule) ∷ (2, set_null_rule) ∷ (16, no_action_rule) ∷ []

abbrev update_choices : List (ℕ × Str)
update_choices = (4, cascade_rule) ∷ (8, set_null_rule) ∷ (32, no_action_rule) ∷ []

decode_parts :
    (flags : ℕ) (x y : Str)
    → decode_innodb_rules flags ≡ ok (x, y)
    → (flags / 64 * 64 ≡ 0)
      × (decode_foreign_key_rule flags delete_choices ≡ ok x)
      × (decode_foreign_key_rule flags update_choices ≡ ok y)
unfolding decode_innodb_rules
decode_parts flags x y e = ground arith

deletion :
    (flags : ℕ) (x : Str)
    → decode_foreign_key_rule flags delete_choices ≡ ok x
    → (d : Rule) × (x ≡ rule_text d)
      × (flags % 2 + flags / 2 % 2 * 2 + flags / 16 % 2 * 16 ≡ delete_flag d)
deletion flags x e = elim (chosen flags 1 2 16 cascade_rule set_null_rule no_action_rule x e) [
  | inl (b, t) ↦ (restrict, t, omega (arith, b))
  | inr (inl (b, t)) ↦ (cascade, t, omega (arith, b))
  | inr (inr (inl (b, t))) ↦ (set_null, t, omega (arith, b))
  | inr (inr (inr (b, t))) ↦ (no_action, t, omega (arith, b))
]

updating :
    (flags : ℕ) (x : Str)
    → decode_foreign_key_rule flags update_choices ≡ ok x
    → (u : Rule) × (x ≡ rule_text u)
      × (flags / 4 % 2 * 4 + flags / 8 % 2 * 8 + flags / 32 % 2 * 32 ≡ update_flag u)
updating flags x e = elim (chosen flags 4 8 32 cascade_rule set_null_rule no_action_rule x e) [
  | inl (b, t) ↦ (restrict, t, omega (arith, b))
  | inr (inl (b, t)) ↦ (cascade, t, omega (arith, b))
  | inr (inr (inl (b, t))) ↦ (set_null, t, omega (arith, b))
  | inr (inr (inr (b, t))) ↦ (no_action, t, omega (arith, b))
]

six_bits :
    (flags d u : ℕ)
    → flags / 64 * 64 ≡ 0
    → flags % 2 + flags / 2 % 2 * 2 + flags / 16 % 2 * 16 ≡ d
    → flags / 4 % 2 * 4 + flags / 8 % 2 * 8 + flags / 32 % 2 * 32 ≡ u
    → flags ≡ d + u
six_bits flags d u h p q = omega arith

-- Flags that decode are those of one deletion rule and one update rule.
decode_innodb_rules-eq-ok :
    (flags : ℕ) (x y : Str)
    → decode_innodb_rules flags ≡ ok (x, y)
    → (d : Rule) × (u : Rule) × (flags ≡ delete_flag d + update_flag u)
      × (x ≡ rule_text d)
      × (y ≡ rule_text u)
decode_innodb_rules-eq-ok flags x y e =
    let parts = decode_parts flags x y e in
    let del = deletion flags x parts.1 in
    let upd = updating flags y parts.2 in
    (
      del.0,
      upd.0,
      six_bits flags (delete_flag del.0) (update_flag upd.0) parts.0 del.2 upd.2,
      del.1,
      upd.1,
    )

-- Flags decode exactly if they are the sum of the flag of one deletion rule and the flag of one
-- update rule, and what they decode to are the texts of these two rules.
pub decode_innodb_rules_iff :
    (flags : ℕ) (x y : Str)
    → (decode_innodb_rules flags ≡ ok (x, y)) ↔ (
        (d : Rule) × (u : Rule) × (flags ≡ delete_flag d + update_flag u)
        × (x ≡ rule_text d)
        × (y ≡ rule_text u))
decode_innodb_rules_iff flags x y = (
  decode_innodb_rules-eq-ok flags x y,
  λ (d, u, sum, deleted, updated). rw (sum, deleted, updated) (decode_innodb_rules-flags d u),
)
