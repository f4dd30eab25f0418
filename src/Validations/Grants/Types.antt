-- ===== src/Validations/Grants/Types.antt =====
-- The data of pkg/validations/grants.go.
use dbsgomysql.Prelude.{
  Bool, Eq, List, Str, arith, codes, eq_iff, eq_refl, false, if◌then◌else◌, leb, list_eq, nat_beq,
  nat_eq, read, true, ℕ, ◌&&◌, ◌+◌, ◌==◌, ◌||◌, ◌↔◌, ◌≡◌,
}

pub data QuerierAffinity : Type 0 where
  opaque pool pinned : QuerierAffinity

-- The bits of `grantSources`.
pub record GrantSources : Type 0 where
  pub account : Bool
  pub role : Bool
  pub anonymous : Bool

abbrev pub no_sources : GrantSources
no_sources = record { account = false; role = false; anonymous = false }

abbrev pub from_account : GrantSources
from_account = record { account = true; role = false; anonymous = false }

abbrev pub from_role : GrantSources
from_role = record { account = false; role = true; anonymous = false }

abbrev pub from_anonymous : GrantSources
from_anonymous = record { account = false; role = false; anonymous = true }

-- a | b
abbrev pub or_sources : GrantSources → GrantSources → GrantSources
or_sources a b = record {
  account = a.account || b.account;
  role = a.role || b.role;
  anonymous = a.anonymous || b.anonymous;
}

-- sources != 0
abbrev pub has_sources : GrantSources → Bool
has_sources s = s.account || s.role || s.anonymous

pub data GrantState : Type 0 where
  unknown present absent unconfirmed : GrantState

abbrev pub is_present : GrantState → Bool
is_present present = true
is_present _ = false

abbrev pub is_absent : GrantState → Bool
is_absent absent = true
is_absent _ = false

abbrev pub is_unconfirmed : GrantState → Bool
is_unconfirmed unconfirmed = true
is_unconfirmed _ = false

-- `undeclared n` is the value `n + 7`, which names no privilege.
pub data Privilege : Type 0 where
  no_privilege select insert update delete create trigger : Privilege
  undeclared : ℕ → Privilege

-- The value of the Go constant.
abbrev pub number : Privilege → ℕ
number no_privilege = 0
number select = 1
number insert = 2
number update = 3
number delete = 4
number create = 5
number trigger = 6
number (undeclared n) = n + 7

number-injective : (p q : Privilege) → number p ≡ number q → p ≡ q
number-injective p q h = ground arith

pub privilege_beq_iff : (p q : Privilege) → (nat_beq (number p) (number q) ≡ true) ↔ (p ≡ q)
privilege_beq_iff p q = (λ h. number-injective p q (ground arith), λ e. rw e (eq_refl (number q)))

instance abbrev pub privilege_eq : Eq Privilege
privilege_eq = record { beq = λ p q. nat_beq (number p) (number q); beq_iff = privilege_beq_iff }

unfoldable pub valid_privilege : Privilege → Bool
valid_privilege p = leb (number select) (number p) && leb (number p) (number trigger)

unfoldable pub privilege_from_string : Str → Privilege × Bool
privilege_from_string value =
    if value == codes "SELECT"
    then (select, true)
    else if value == codes "INSERT"
    then (insert, true)
    else if value == codes "UPDATE"
    then (update, true)
    else if value == codes "DELETE"
    then (delete, true)
    else if value == codes "CREATE"
    then (create, true)
    else if value == codes "TRIGGER"
    then (trigger, true)
    else (no_privilege, false)

pub record SchemaPrivilegeKey : Type 0 where
  pub schema : Str
  pub privilege : Privilege

pub record TablePrivilegeKey : Type 0 where
  pub schema : Str
  pub table : Str
  pub privilege : Privilege

unfoldable pub schema_key_beq : SchemaPrivilegeKey → SchemaPrivilegeKey → Bool
schema_key_beq k j = k.schema == j.schema && k.privilege == j.privilege

unfoldable pub table_key_beq : TablePrivilegeKey → TablePrivilegeKey → Bool
table_key_beq k j = k.schema == j.schema && k.table == j.table && k.privilege == j.privilege

pub schema_key_beq_iff : (k j : SchemaPrivilegeKey) → (schema_key_beq k j ≡ true) ↔ (k ≡ j)
unfolding schema_key_beq
schema_key_beq_iff k j =
    ground (arith, eq_iff k.schema j.schema, privilege_beq_iff k.privilege j.privilege)

pub table_key_beq_iff : (k j : TablePrivilegeKey) → (table_key_beq k j ≡ true) ↔ (k ≡ j)
unfolding table_key_beq
table_key_beq_iff k j = ground (
  arith,
  eq_iff k.schema j.schema,
  eq_iff k.table j.table,
  privilege_beq_iff k.privilege j.privilege,
)

instance abbrev pub schema_key_eq : Eq SchemaPrivilegeKey
schema_key_eq = record { beq = schema_key_beq; beq_iff = schema_key_beq_iff }

instance abbrev pub table_key_eq : Eq TablePrivilegeKey
table_key_eq = record { beq = table_key_beq; beq_iff = table_key_beq_iff }

-- `role_grantees` lists the keys of the set.
pub record Grants : Type 0 where
  pub populated : Bool
  pub affinity : QuerierAffinity
  pub partial_revokes : Bool
  pub account_grantee : Str
  pub role_grantees : List Str
  pub global : List (Privilege × GrantSources)
  pub schema : List (SchemaPrivilegeKey × GrantSources)
  pub table : List (TablePrivilegeKey × GrantSources)
  pub column : List (TablePrivilegeKey × GrantSources)

-- The entries of the maps, with the zero value for a missing key.
abbrev pub global_at : Grants → Privilege → GrantSources
global_at g priv = read no_sources priv g.global

abbrev pub schema_at : Grants → Str → Privilege → GrantSources
schema_at g schema priv = read no_sources (record { schema = schema; privilege = priv }) g.schema

abbrev pub table_at : Grants → Str → Str → Privilege → GrantSources
table_at g schema table priv =
    read no_sources (record { schema = schema; table = table; privilege = priv }) g.table

abbrev pub column_at : Grants → Str → Str → Privilege → GrantSources
column_at g schema table priv =
    read no_sources (record { schema = schema; table = table; privilege = priv }) g.column
