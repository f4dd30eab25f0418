-- ===== src/Validations/ForeignKeys/Checks/Closure.antt =====
-- pkg/validations/checks_foreign_keys.go and foreign_keys.go: closure of a set of tables, from the
-- registry to the findings.
use dbsgomysql.Prelude.{
  All, Bool, Bool-cases, In, List, Option, Option-cases, Str, [], all, ap, arith, contains, eq_iff,
  if◌then◌else◌, inl, inr, list_eq, map, nat_eq, none, not, refl, some, sym, true, ◌++◌, ◌==◌, ◌||◌,
  ◌↔◌, ◌∙◌, ◌∷◌, ◌≡◌,
}
use dbsgomysql.Golang.Sql.{answered, ok}
use dbsgomysql.Validations.Catalog.{id_fk_closure}
use dbsgomysql.Validations.Inspector.{Inspector, validate}
use dbsgomysql.Validations.Predicate.{narrow_names}
use dbsgomysql.Validations.Predicate.Laws.{narrow_names-some}
use dbsgomysql.Validations.ForeignKeys.Types.{
  downgrade_none, FkSelector, ForeignKey, incoming_to, visibility_complete, visibility_unknown,
  visibility_unconfirmed, ForeignKeyResult,
}
use dbsgomysql.Validations.ForeignKeys.Registry.{slash}
use dbsgomysql.Validations.ForeignKeys.Registry.RoundTrip.{
  Constraint, IsValid, fact_of, registry, Apart, scan-registry-facts,
}
use dbsgomysql.Validations.ForeignKeys.Select.{select_foreign_keys, foreign_key_selector_table}
use dbsgomysql.Validations.ForeignKeys.Select.Laws.{selected, all-select_foreign_keys}
use dbsgomysql.Validations.ForeignKeys.Discover.{
  FkServer, parent_side, composed, foreign_keys_innodb, discover, foreign_keys, op_foreign_keys,
}
use dbsgomysql.Validations.ForeignKeys.Checks.{
  unconfirmed_closure, external_child, MetadataVisibility, edge_findings, closed_at, is_complete,
  check_fk_closure,
}

edge_findings-nil_iff :
    (skip : ForeignKey → Bool) (id summary : Str) (keys : List ForeignKey)
    → (edge_findings skip id summary keys ≡ []) ↔ (all skip keys ≡ true)
unfolding edge_findings
edge_findings-nil_iff skip id summary [] = (λ _. refl, λ _. refl)
edge_findings-nil_iff skip id summary (key ∷ keys) =
    ground (arith, edge_findings-nil_iff skip id summary keys)

ends-nil_iff :
    {A : Type 0} (xs : List A) (b : Bool) (y : A)
    → (xs ++ (if b then [] else y ∷ []) ≡ []) ↔ ((xs ≡ []) × (b ≡ true))
ends-nil_iff [] b y = ground arith
ends-nil_iff (x ∷ xs) b y = ground arith

is_complete_iff : (v : MetadataVisibility) → (is_complete v ≡ true) ↔ (v ≡ visibility_complete)
is_complete_iff visibility_unknown = ground arith
is_complete_iff visibility_complete = ground arith
is_complete_iff visibility_unconfirmed = ground arith

-- The check passes a set of tables if and only if discovery was complete and each key of the result
-- is closed.
pub check_fk_closure-nil_iff :
    (result : ForeignKeyResult) (schema table : Str) (tables : List Str)
    → (check_fk_closure result schema (table ∷ tables) ≡ []) ↔ (
        (result.visibility ≡ visibility_complete)
        × (all (closed_at schema (table ∷ tables)) result.keys ≡ true))
unfolding check_fk_closure
check_fk_closure-nil_iff result schema table tables = ground (
  arith,
  is_complete_iff result.visibility,
  edge_findings-nil_iff (closed_at schema (table ∷ tables)) id_fk_closure external_child
      result.keys,
  ends-nil_iff
      (edge_findings (closed_at schema (table ∷ tables)) id_fk_closure external_child result.keys)
      (is_complete result.visibility) (unconfirmed_closure result.visibility (table ∷ tables)),
)

-- What a constraint must satisfy for the set to be closed: if its parent is in the set, so is its
-- child.
abbrev pub StaysInside : Str → List Str → Constraint → Type 0
StaysInside schema tables c =
    c.parent_schema ≡ schema
    → contains c.parent_table tables ≡ true
    → (c.child_schema ≡ schema) × (contains c.child_table tables ≡ true)

-- The constraints that a narrowed query is about.
abbrev pub Asked : Option (List Str) → Constraint → Type 0
Asked none c = Unit
Asked (some names) c = contains (c.parent_schema ++ slash ∷ c.parent_table) names ≡ true

contains-composed :
    (schema table : Str) (tables : List Str)
    → contains table tables ≡ true
    → contains (schema ++ slash ∷ table) (composed schema tables) ≡ true
unfolding contains
contains-composed schema table [] e = e
contains-composed schema table (t ∷ tables) e = elim (Bool-cases (table == t)) [
  | inl h ↦ ground (arith, same_name h)
  | inr h ↦ ground (arith, contains-composed schema table tables (ground (arith, h, e)))
]
  where
    same_name : (table == t) ≡ true → ((schema ++ slash ∷ table) == (schema ++ slash ∷ t)) ≡ true
    same_name h = (eq_iff _ _).1 (ap (λ x. schema ++ slash ∷ x) ((eq_iff table t).0 h))

-- The narrowed query asks about each constraint whose parent is in the set.
Asked-parent :
    (schema : Str) (tables : List Str) (c : Constraint)
    → c.parent_schema ≡ schema
    → contains c.parent_table tables ≡ true
    → Asked (narrow_names (composed schema tables) 0) c
Asked-parent schema tables c s t = elim (Option-cases (narrow_names (composed schema tables) 0)) [
  | inl h ↦ rw (h) tt
  | inr (names, h) ↦
      let same = (narrow_names-some (composed schema tables) 0 names h).1 in
      rw (h) (
        same _
        ∙ ap (λ x. contains (x ++ slash ∷ c.parent_table) (composed schema tables)) s
        ∙ contains-composed schema c.parent_table tables t)
]

all-facts_iff :
    (p : ForeignKey → Bool) (cs : List Constraint)
    → (all p (map fact_of cs) ≡ true) ↔ ((c : Constraint) → In c cs → p (fact_of c) ≡ true)
all-facts_iff p [] = (λ _ c m. elim m [ ], λ _. refl)
all-facts_iff p (c ∷ cs) = (
  λ e d m. elim m [
    | inl same ↦ ap (λ x. p (fact_of x)) same ∙ ground (arith, e)
    | inr later ↦ (all-facts_iff p cs).0 (ground (arith, e)) d later
  ],
  λ f. ground (arith, f c (inl refl), (all-facts_iff p cs).1 (λ d m. f d (inr m))),
)

closed_iff :
    (schema : Str) (tables : List Str) (c : Constraint)
    → ((not (selected schema (incoming_to tables) (fact_of c))
          || closed_at schema tables (fact_of c))
        ≡ true)
      ↔ StaysInside schema tables c
unfolding foreign_key_selector_table
closed_iff schema tables c =
    ground (arith, eq_iff c.parent_schema schema, eq_iff c.child_schema schema)

-- The result that a registry's answer gives.
abbrev pub complete_result : List Constraint → Str → FkSelector → ForeignKeyResult
complete_result ds schema sel = record {
  keys = select_foreign_keys (map fact_of ds) schema sel;
  visibility = visibility_complete;
  downgrade_reason = downgrade_none;
  primary_error = none;
}

-- An inspector that answers from a registry finds what the registry has.
pub foreign_keys-registry :
    (i : Inspector) (server : FkServer) (table : Str) (tables : List Str) (ds : List Constraint)
    → validate (some i) op_foreign_keys (table ∷ tables) ≡ none
    → server.innodb parent_side (narrow_names (composed i.schema (table ∷ tables)) 0)
      ≡ answered (registry ds)
    → All IsValid ds
    → Apart ds
    → foreign_keys (some i) server (incoming_to (table ∷ tables))
      ≡ ok (complete_result ds i.schema (incoming_to (table ∷ tables)))
unfolding foreign_keys discover foreign_keys_innodb
foreign_keys-registry i server table tables ds v answer valid apart =
    rw (v, answer, scan-registry-facts ds valid apart, foreign_keys, discover, foreign_keys_innodb)
      refl

-- Let the registry have the constraints `cs`, and let it answer the query with valid constraints,
-- ordered by identifier, which are some of these, among them each one that the query asks about.
-- Then discovery and the check together decide closure: `ForeignKeys` succeeds, and `CheckFKClosure`
-- reports nothing if and only if each constraint of `cs` whose parent is in the set has its child
-- in the set.
pub check_fk_closure-registry :
    (i : Inspector) (server : FkServer) (table : Str) (tables : List Str) (cs ds : List Constraint)
    → validate (some i) op_foreign_keys (table ∷ tables) ≡ none
    → server.innodb parent_side (narrow_names (composed i.schema (table ∷ tables)) 0)
      ≡ answered (registry ds)
    → All IsValid ds
    → Apart ds
    → ((c : Constraint) → In c ds → In c cs)
    → ((c : Constraint)
        → In c cs
        → Asked (narrow_names (composed i.schema (table ∷ tables)) 0) c
        → In c ds)
    → (r : ForeignKeyResult) × (foreign_keys (some i) server (incoming_to (table ∷ tables)) ≡ ok r)
      × ((check_fk_closure r i.schema (table ∷ tables) ≡ [])
          ↔ ((c : Constraint) → In c cs → StaysInside i.schema (table ∷ tables) c))
check_fk_closure-registry i server table tables cs ds v answer valid apart sound covers =
    let sel = incoming_to (table ∷ tables) in
    let r = complete_result ds i.schema sel in
    let closure = check_fk_closure-nil_iff r i.schema table tables in
    let chosen =
      all-select_foreign_keys (closed_at i.schema (table ∷ tables)) (map fact_of ds) i.schema sel in
    let facts =
      all-facts_iff (λ k. not (selected i.schema sel k) || closed_at i.schema (table ∷ tables) k)
        ds in
    let inside = closed_iff i.schema (table ∷ tables) in
    (
      r,
      foreign_keys-registry i server table tables ds v answer valid apart,
      (
        λ e c m s t.
            (inside c).0
              (facts.0 (sym chosen ∙ (closure.0 e).1) c
                (covers c m (Asked-parent i.schema (table ∷ tables) c s t)))
              s t,
        λ f. closure.1 (refl, chosen ∙ facts.1 (λ c m. (inside c).1 (f c (sound c m)))),
      ),
    )
