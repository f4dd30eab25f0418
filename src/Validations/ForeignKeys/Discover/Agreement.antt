-- ===== src/Validations/ForeignKeys/Discover/Agreement.antt =====
-- pkg/validations/foreign_keys.go: the two sources, where they describe the same constraints.
use dbsgomysql.Prelude.{
  All, Bool, List, Str, [], ap, arith, is_empty, list_eq, map, nat_eq, not, refl, sym, true, ◌&&◌,
  ◌↔◌, ◌∙◌, ◌∷◌, ◌≡◌,
}
use mathlib.Core.Bool.{Bool-set}
use mathlib.Core.List.{foldr, Perm}
use mathlib.Core.List.Perm
use dbsgomysql.Golang.Sql.{answered, ok}
use dbsgomysql.Validations.Predicate.{narrow_names, representable}
use dbsgomysql.Validations.ForeignKeys.Types.{ForeignKey, FkSelector}
use dbsgomysql.Validations.ForeignKeys.Registry.RoundTrip.{
  Constraint, IsValid, fact_of, registry, Apart, scan-registry-facts,
}
use dbsgomysql.Validations.ForeignKeys.Standard.{populate_fallback_indexes}
use dbsgomysql.Validations.ForeignKeys.Standard.Agreement.{
  unindexed, usage, ApartKeys, Filled, scan_standard_foreign_keys-usage,
  populate_fallback_indexes-unindexed,
}
use dbsgomysql.Validations.ForeignKeys.Discover.{
  at_indexes, query_or, FkServer, side, composed, foreign_keys_innodb, foreign_keys_standard,
}

IsValid-Filled : (cs : List Constraint) → All IsValid cs → Filled cs
IsValid-Filled [] v = tt
IsValid-Filled (c ∷ cs) (v, vs) = (v.columns, IsValid-Filled cs vs)

has_columns : Constraint → Bool
has_columns c = not (is_empty c.columns)

abbrev count_in : Constraint → Bool → Bool
count_in c b = has_columns c && b

Filled-foldr : (cs : List Constraint) → (foldr count_in true cs ≡ true) ↔ Filled cs
unfolding has_columns
Filled-foldr [] = (λ _. tt, λ _. refl)
Filled-foldr (c ∷ cs) = ground (arith, Filled-foldr cs)

-- Whether each constraint has a column does not depend on their order.
Filled-Perm : (cs ds : List Constraint) → Perm cs ds → Filled cs → Filled ds
Filled-Perm cs ds p f =
    (Filled-foldr ds).0
      (sym (Perm.foldr-eq Bool-set count_in (λ c d b. ground arith) p true) ∙ (Filled-foldr cs).1 f)

unindexed-twice :
    (cs : List Constraint)
    → map unindexed (map (λ c. unindexed (fact_of c)) cs) ≡ map (λ c. unindexed (fact_of c)) cs
unindexed-twice [] = refl
unindexed-twice (c ∷ cs) = ap (λ ks. unindexed (fact_of c) ∷ ks) (unindexed-twice cs)

unindexed-facts :
    (cs : List Constraint) → map unindexed (map fact_of cs) ≡ map (λ c. unindexed (fact_of c)) cs
unindexed-facts [] = refl
unindexed-facts (c ∷ cs) = ap (λ ks. unindexed (fact_of c) ∷ ks) (unindexed-facts cs)

-- Let the registry answer with the rows of the valid constraints `cs`, and the standard tables with
-- the rows of the same constraints in an order of their own, `ds`. Let neighbours in `cs` differ in
-- identifier and neighbours in `ds` in schema and name, let the schema be representable, and let the
-- indexes of the child tables be read. Then both sources succeed, and up to the question whether an
-- index supports them, their keys are the same, each as often, in some order.
pub sources-agree :
    (server : FkServer) (schema : Str) (sel : FkSelector) (cs ds : List Constraint)
    (ks : List ForeignKey)
    → server.innodb (side sel.kind) (narrow_names (composed schema sel.tables) 0)
      ≡ answered (registry cs)
    → server.standard (side sel.kind) schema (narrow_names sel.tables 1) ≡ answered (usage ds)
    → Perm cs ds
    → All IsValid cs
    → Apart cs
    → ApartKeys ds
    → representable schema ≡ true
    → populate_fallback_indexes server.indexes (map (λ c. unindexed (fact_of c)) ds) ≡ ok ks
    → (keys : List ForeignKey) × (foreign_keys_innodb server schema sel ≡ ok keys)
      × (foreign_keys_standard server schema sel ≡ ok ks)
      × Perm (map unindexed keys) (map unindexed ks)
unfolding foreign_keys_innodb foreign_keys_standard
sources-agree server schema sel cs ds ks primary fallback same valid apart apart_keys r indexed = (
  map fact_of cs,
  rw (primary, scan-registry-facts cs valid apart, foreign_keys_innodb, query_or) refl,
  rw
      (
        r,
        fallback,
        scan_standard_foreign_keys-usage ds (Filled-Perm cs ds same (IsValid-Filled cs valid))
            apart_keys,
        indexed,
        foreign_keys_standard,
        query_or,
        at_indexes,
      )
      refl,
  rw
      (
        unindexed-facts cs,
        populate_fallback_indexes-unindexed server.indexes _ ks indexed ∙ unindexed-twice ds,
      )
      (Perm.map (λ c. unindexed (fact_of c)) same),
)
