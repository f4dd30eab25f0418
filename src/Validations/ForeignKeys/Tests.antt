-- ===== src/Validations/ForeignKeys/Tests.antt =====
-- Foreign keys at concrete inputs.
use dbsgomysql.Prelude.{
  All, Any, In, List, Str, [], any, codes, contains, false, false≢true, inl, inr, is_empty, length,
  list_beq, list_eq, map, nat_eq, none, read, refl, some, subst, true, ◌++◌, ◌+◌, ◌==◌, ◌↔◌, ◌∷◌,
  ◌≡◌,
}
use dbsgomysql.Golang.Sql.{answered, rejected, end, ok}
use dbsgomysql.Validations.Inspector.{Inspector, err_empty_table_name, new_object_error, validate}
use dbsgomysql.Golang.Utf8.{valid_string, decode_rune, runes}
use dbsgomysql.Validations.Predicate.{narrow_names, representable}
use dbsgomysql.Validations.ForeignKeys.Standard.Agreement.{unindexed, usage, ApartKeys}
use dbsgomysql.Validations.ForeignKeys.Discover.Agreement.{sources-agree}
use dbsgomysql.Validations.Inspector.Laws.{FirstUnnamed, validate-unnamed_iff}
use dbsgomysql.Validations.ForeignKeys.Types.{ForeignKey, ForeignKeyResult, incoming_to}
use dbsgomysql.Validations.ForeignKeys.Registry.{
  scan_innodb_foreign_keys, slash, split_innodb_name, decode_innodb_rules,
}
use dbsgomysql.Validations.ForeignKeys.Registry.Names.{Splits, split_innodb_name_iff}
use dbsgomysql.Validations.ForeignKeys.Registry.Rules.{
  restrict, cascade, set_null, no_action, Rule, rule_text, delete_flag, update_flag,
  decode_innodb_rules_iff,
}
use dbsgomysql.Validations.ForeignKeys.Registry.RoundTrip.{
  Constraint, IsValid, fact_of, registry, Apart, scan-registry-facts,
}
use dbsgomysql.Validations.ForeignKeys.Standard.{
  populate_fallback_indexes, foreign_key_columns_indexed, distinct_children, batches, batch_size,
  child_of, identity_eq, TableIdentity,
}
use dbsgomysql.Validations.ForeignKeys.Standard.Prefixes.{
  LeftmostOf, foreign_key_columns_indexed_iff,
}
use dbsgomysql.Validations.ForeignKeys.Standard.Batches.{
  joined, Bound, Once, distinct_children-batches,
}
use dbsgomysql.Validations.ForeignKeys.Select.{select_foreign_keys}
use dbsgomysql.Validations.ForeignKeys.Select.Groups.{Groups, select_foreign_keys-Groups}
use mathlib.Core.List.{Perm}
use mathlib.Core.List.Perm
use dbsgomysql.Validations.ForeignKeys.Discover.{
  foreign_keys_standard, foreign_keys_innodb, composed, FkServer, foreign_keys,
}
use dbsgomysql.Validations.ForeignKeys.Checks.{check_fk_closure}
use dbsgomysql.Validations.ForeignKeys.Checks.Closure.{
  Asked, StaysInside, check_fk_closure-registry,
}

abbrev app : Str
app = codes "app"

abbrev customer : Str
customer = codes "customer"

abbrev orders : Str
orders = codes "orders"

-- orders(customer_id) REFERENCES customer(id) ON DELETE CASCADE, and the like from another table.
abbrev orders_key : Constraint
orders_key = record {
  name = codes "orders_1";
  child_schema = app;
  child_table = orders;
  parent_schema = app;
  parent_table = customer;
  columns = (codes "customer_id", codes "id") ∷ (codes "region", codes "region") ∷ [];
  on_delete = cascade;
  on_update = restrict;
}

abbrev audit_key : Constraint
audit_key = record {
  name = codes "audit_1";
  child_schema = app;
  child_table = codes "audit";
  parent_schema = app;
  parent_table = orders;
  columns = (codes "order_id", codes "id") ∷ [];
  on_delete = set_null;
  on_update = cascade;
}

orders_key-IsValid : IsValid orders_key
unfolding contains
orders_key-IsValid = record {
  name = record { no_slash = refl; left_some = refl; right_some = refl };
  child = record { no_slash = refl; left_some = refl; right_some = refl };
  parent = record { no_slash = refl; left_some = refl; right_some = refl };
  columns = refl;
}

audit_key-IsValid : IsValid audit_key
unfolding contains
audit_key-IsValid = record {
  name = record { no_slash = refl; left_some = refl; right_some = refl };
  child = record { no_slash = refl; left_some = refl; right_some = refl };
  parent = record { no_slash = refl; left_some = refl; right_some = refl };
  columns = refl;
}

audit_orders-Apart : Apart (audit_key ∷ orders_key ∷ [])
unfolding list_beq
audit_orders-Apart = (refl, tt)

scan-registry-facts_example :
    scan_innodb_foreign_keys (registry (audit_key ∷ orders_key ∷ []))
    ≡ ok (fact_of audit_key ∷ fact_of orders_key ∷ [])
scan-registry-facts_example =
    scan-registry-facts (audit_key ∷ orders_key ∷ []) (audit_key-IsValid, (orders_key-IsValid, tt))
      audit_orders-Apart

-- The keys in a set of both tables, given in the wrong order.
select_foreign_keys-Groups_example :
    Groups app
      (incoming_to (customer ∷ orders ∷ []))
      (fact_of orders_key ∷ fact_of audit_key ∷ [])
      (customer ∷ orders ∷ [])
      (select_foreign_keys
        (fact_of orders_key ∷ fact_of audit_key ∷ [])
        app
        (incoming_to (customer ∷ orders ∷ [])))
select_foreign_keys-Groups_example =
    select_foreign_keys-Groups (fact_of orders_key ∷ fact_of audit_key ∷ []) app
      (incoming_to (customer ∷ orders ∷ []))

foreign_key_columns_indexed_iff_example :
    (foreign_key_columns_indexed
        (codes "a" ∷ [])
        ((codes "b" ∷ []) ∷ (codes "a" ∷ codes "b" ∷ []) ∷ [])
      ≡ true)
    ↔ ((is_empty (codes "a" ∷ []) ≡ false)
        × Any (LeftmostOf (codes "a" ∷ [])) ((codes "b" ∷ []) ∷ (codes "a" ∷ codes "b" ∷ []) ∷ []))
foreign_key_columns_indexed_iff_example =
    foreign_key_columns_indexed_iff (codes "a" ∷ [])
      ((codes "b" ∷ []) ∷ (codes "a" ∷ codes "b" ∷ []) ∷ [])

abbrev two_keys : List ForeignKey
two_keys = fact_of audit_key ∷ fact_of orders_key ∷ []

distinct_children-batches_example :
    (joined (
        batches (length (distinct_children two_keys [])) batch_size (distinct_children two_keys []))
      ≡ distinct_children two_keys [])
    × All Bound (
        batches (length (distinct_children two_keys [])) batch_size (distinct_children two_keys []))
    × Once (distinct_children two_keys [])
    × ((p : TableIdentity)
        → contains p (distinct_children two_keys []) ≡ any (λ key. p == child_of key) two_keys)
distinct_children-batches_example = distinct_children-batches two_keys

abbrev inspector : Inspector
inspector = record { nil_querier = false; schema = app }

validate-unnamed_iff_example :
    (validate (some inspector) (codes "tables") (orders ∷ [] ∷ [])
      ≡ some (new_object_error (codes "tables") app [] (err_empty_table_name 1)))
    ↔ FirstUnnamed 0 1 (orders ∷ [] ∷ [])
validate-unnamed_iff_example =
    validate-unnamed_iff inspector (codes "tables") (orders ∷ [] ∷ []) 1 refl refl

-- A server whose registry has the two keys, and which knows of no index.
abbrev server : FkServer
server = record {
  innodb = λ _ _. answered (registry (orders_key ∷ []));
  standard = λ _ _ _. rejected (codes "gone");
  indexes = λ _. answered (end none);
}

passed : validate (some inspector) (codes "foreign_keys") (customer ∷ []) ≡ none
unfolding validate
passed = refl

abbrev both : List Constraint
both = audit_key ∷ orders_key ∷ []

audit_left_out : ¬ Asked (narrow_names (composed app (customer ∷ [])) 0) audit_key
unfolding narrow_names contains valid_string decode_rune runes list_beq
audit_left_out a = elim (false≢true a) [ ]

covered :
    (c : Constraint)
    → In c both
    → Asked (narrow_names (composed app (customer ∷ [])) 0) c
    → In c (orders_key ∷ [])
covered c (inl same) a = elim (audit_left_out (subst (Asked _) same a)) [ ]
covered c (inr later) a = later

-- The set {customer} is not closed, and {customer, orders} would be.
check_fk_closure-registry_example :
    (r : ForeignKeyResult) × (foreign_keys (some inspector) server (incoming_to (customer ∷ []))
      ≡ ok r)
    × ((check_fk_closure r app (customer ∷ []) ≡ [])
        ↔ ((c : Constraint) → In c both → StaysInside app (customer ∷ []) c))
check_fk_closure-registry_example =
    check_fk_closure-registry inspector server customer [] both (orders_key ∷ []) passed refl
      (orders_key-IsValid, tt) tt (λ c m. inr m) covered

-- Both sources have the two keys, each in the order of its query; no index supports them.
abbrev by_table : List Constraint
by_table = orders_key ∷ audit_key ∷ []

abbrev agreeing : FkServer
agreeing = record {
  innodb = λ _ _. answered (registry both);
  standard = λ _ _ _. answered (usage by_table);
  indexes = λ _. answered (end none);
}

abbrev unsupported : List ForeignKey
unsupported = unindexed (fact_of orders_key) ∷ unindexed (fact_of audit_key) ∷ []

orders_audit-ApartKeys : ApartKeys by_table
unfolding list_beq
orders_audit-ApartKeys = (refl, tt)

app-representable : representable app ≡ true
unfolding representable valid_string decode_rune runes
app-representable = refl

indexes_read : populate_fallback_indexes agreeing.indexes unsupported ≡ ok unsupported
unfolding populate_fallback_indexes contains list_beq read
indexes_read = refl

sources-agree_example :
    (keys : List ForeignKey) × (foreign_keys_innodb agreeing app (incoming_to (customer ∷ []))
      ≡ ok keys)
    × (foreign_keys_standard agreeing app (incoming_to (customer ∷ [])) ≡ ok unsupported)
    × Perm (map unindexed keys) (map unindexed unsupported)
sources-agree_example =
    sources-agree agreeing app (incoming_to (customer ∷ [])) both by_table unsupported refl refl
      (Perm.swap orders_key audit_key []) (audit_key-IsValid, (orders_key-IsValid, tt))
      audit_orders-Apart orders_audit-ApartKeys app-representable indexes_read

split_innodb_name_iff_example :
    (split_innodb_name (codes "app/orders/x") ≡ ok (app, codes "orders/x"))
    ↔ ((codes "app/orders/x" ≡ app ++ slash ∷ codes "orders/x") × Splits app (codes "orders/x"))
split_innodb_name_iff_example = split_innodb_name_iff (codes "app/orders/x") app (codes "orders/x")

decode_innodb_rules_iff_example :
    (decode_innodb_rules 33 ≡ ok (rule_text cascade, rule_text no_action)) ↔ (
      (d : Rule) × (u : Rule) × (33 ≡ delete_flag d + update_flag u)
      × (rule_text cascade ≡ rule_text d)
      × (rule_text no_action ≡ rule_text u))
decode_innodb_rules_iff_example =
    decode_innodb_rules_iff 33 (rule_text cascade) (rule_text no_action)
