-- ===== src/Validations/Grants/Tests.antt =====
-- Runs of the privilege answers, and their theorems at concrete facts. `same_text` stands for
-- strings.EqualFold.
use dbsgomysql.Prelude.{
  All, Bool, Str, [], codes, false, list_beq, list_eq, nat_eq, read, refl, some_entry, true, ◌==◌,
  ◌↔◌, ◌∷◌, ◌≡◌,
}
use dbsgomysql.Golang.Utf8.{decode_rune, runes}
use dbsgomysql.Validations.Grants.Types.{
  pinned, opaque, from_account, present, absent, unconfirmed, select, delete, trigger, Grants,
  table_at, schema_at, global_at, schema_key_beq, table_key_beq,
}
use dbsgomysql.Validations.Grants.Like.{like_pattern_matches}
use dbsgomysql.Validations.Grants.Like.Spec.{elements, Like}
use dbsgomysql.Validations.Grants.Like.Loop.{like_pattern_matches_iff}
use dbsgomysql.Validations.Grants.State.{
  table_privilege, schema_privilege, table_state, resolve, downgrade_for_schema_pattern,
  downgrade_for_column_grant, downgrade_for_table_case_variant, schema_pattern_covers,
  schema_case_variant_matches, table_case_variant_matches, downgrade_for_schema_case_variant,
  broad_visibility,
}
use dbsgomysql.Validations.Grants.State.Resolve.{Established}
use dbsgomysql.Validations.Grants.State.Answers.{
  table_privilege-present, table_privilege-absent, TableAbsent, schema_privilege-present,
  schema_privilege-absent, SchemaAbsent,
}
use dbsgomysql.Validations.Grants.Checks.{
  check_table_privileges, check_trigger_visibility, check_schema_privileges,
  privilege_finding_summary,
}
use dbsgomysql.Validations.Grants.Checks.Laws.{
  reference_findings, check_table_privileges-reference, check_table_privileges-nil_iff,
  TableEstablished, check_trigger_visibility-nil_iff, check_schema_privileges-nil_iff,
  SchemaEstablished,
}
use dbsgomysql.Validations.Catalog.{id_table_privileges}

abbrev same_text : Str → Str → Bool
same_text a b = a == b

-- SELECT on the mysql schema, and DELETE under the pattern `shop_%`.
abbrev account : Grants
account = record {
  populated = true;
  affinity = pinned;
  partial_revokes = false;
  account_grantee = codes "'app'@'%'";
  role_grantees = [];
  global = [];
  schema =
      (record { schema = codes "mysql"; privilege = select }, from_account)
      ∷ (record { schema = codes "shop_%"; privilege = delete }, from_account)
      ∷ [];
  table =
      (record { schema = codes "db"; table = codes "t"; privilege = select }, from_account) ∷ [];
  column = [];
}

likes :
    (like_pattern_matches (codes "shop\\_%b") (codes "shop_aab") ≡ true)
    × (like_pattern_matches (codes "shop\\_%b") (codes "shopxaab") ≡ false)
    × (like_pattern_matches (codes "a%b%c") (codes "aXbYbZc") ≡ true)
    × (like_pattern_matches (codes "_\\") (codes "a\\") ≡ true)
unfolding like_pattern_matches decode_rune runes
likes = (refl, refl, refl, refl)

states :
    (table_privilege same_text account (codes "db") (codes "t") select ≡ present)
    × (table_privilege same_text account (codes "db") (codes "t") delete ≡ absent)
    × (table_privilege same_text account (codes "shop_1") (codes "t") delete ≡ unconfirmed)
    × (table_privilege same_text
          (record account { affinity = opaque })
          (codes "db")
          (codes "t")
          select
        ≡ unconfirmed)
    × (schema_privilege same_text account (codes "mysql") select ≡ present)
unfolding table_privilege table_state resolve broad_visibility downgrade_for_schema_pattern
    downgrade_for_column_grant downgrade_for_table_case_variant downgrade_for_schema_case_variant
    schema_pattern_covers schema_case_variant_matches table_case_variant_matches schema_privilege
    like_pattern_matches decode_rune runes list_beq read some_entry schema_key_beq table_key_beq
states = (refl, refl, refl, refl, refl)

like_pattern_matches_iff_example :
    (like_pattern_matches (codes "a%c") (codes "abc") ≡ true)
    ↔ Like (elements (runes (codes "a%c"))) (runes (codes "abc"))
like_pattern_matches_iff_example = like_pattern_matches_iff (codes "a%c") (codes "abc")

table_privilege-present_example :
    (table_privilege same_text account (codes "db") (codes "t") select ≡ present)
    ↔ Established account select
        (table_at account (codes "db") (codes "t") select
          ∷ schema_at account (codes "db") select
          ∷ [])
        (global_at account select)
table_privilege-present_example =
    table_privilege-present same_text account (codes "db") select (codes "t")

table_privilege-absent_example :
    (table_privilege same_text account (codes "db") (codes "t") delete ≡ absent)
    ↔ TableAbsent same_text account (codes "db") delete (codes "t")
table_privilege-absent_example =
    table_privilege-absent same_text account (codes "db") delete (codes "t")

schema_privilege-present_example :
    (schema_privilege same_text account (codes "mysql") select ≡ present)
    ↔ Established account select
        (schema_at account (codes "mysql") select ∷ [])
        (global_at account select)
schema_privilege-present_example = schema_privilege-present same_text account (codes "mysql") select

schema_privilege-absent_example :
    (schema_privilege same_text account (codes "db") delete ≡ absent)
    ↔ SchemaAbsent same_text account (codes "db") delete
schema_privilege-absent_example = schema_privilege-absent same_text account (codes "db") delete

check_table_privileges-reference_example :
    check_table_privileges same_text account (codes "db") (codes "t" ∷ codes "u" ∷ []) select
    ≡ reference_findings same_text account
        (codes "db")
        id_table_privileges
        (privilege_finding_summary (codes "table"))
        select
        (codes "t" ∷ codes "u" ∷ [])
check_table_privileges-reference_example =
    check_table_privileges-reference same_text account (codes "db") (codes "t" ∷ codes "u" ∷ [])
      select

check_table_privileges-nil_iff_example :
    (check_table_privileges same_text account (codes "db") (codes "t" ∷ []) select ≡ [])
    ↔ All (TableEstablished same_text account (codes "db") select) (codes "t" ∷ [])
check_table_privileges-nil_iff_example =
    check_table_privileges-nil_iff same_text account (codes "db") (codes "t" ∷ []) select

check_trigger_visibility-nil_iff_example :
    (check_trigger_visibility same_text account (codes "db") (codes "t" ∷ []) ≡ [])
    ↔ All (TableEstablished same_text account (codes "db") trigger) (codes "t" ∷ [])
check_trigger_visibility-nil_iff_example =
    check_trigger_visibility-nil_iff same_text account (codes "db") (codes "t" ∷ [])

check_schema_privileges-nil_iff_example :
    (check_schema_privileges same_text account (codes "db") (select ∷ delete ∷ []) ≡ [])
    ↔ All (SchemaEstablished same_text account (codes "db")) (select ∷ delete ∷ [])
check_schema_privileges-nil_iff_example =
    check_schema_privileges-nil_iff same_text account (codes "db") (select ∷ delete ∷ [])
