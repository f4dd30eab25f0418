-- ===== src/Validations/Grants/State/Answers.antt =====
-- When `Table` and `Schema` answer present, and when they answer absent.
use dbsgomysql.Prelude.{
  Bool, Bool-cases, Every, List, Str, [], arith, eq_iff, false, if◌then◌else◌, inl, inr, list_eq,
  nat_eq, not, some_entry-false, true, ◌&&◌, ◌||◌, ◌↔◌, ◌∷◌, ◌≡◌, ◌≢◌, ◌⊎◌,
}
use dbsgomysql.Golang.Utf8.{runes}
use dbsgomysql.Validations.Grants.Types.{
  GrantSources, has_sources, GrantState, present, absent, unconfirmed, is_absent, Privilege,
  privilege_eq, schema_key_eq, table_key_eq, SchemaPrivilegeKey, TablePrivilegeKey, Grants,
  global_at, schema_at, table_at, column_at,
}
use dbsgomysql.Validations.Grants.Like.Spec.{elements, Like}
use dbsgomysql.Validations.Grants.Like.Loop.{like_pattern_matches_iff}
use dbsgomysql.Validations.Grants.State.{
  table_case_variant, schema_pattern_test, resolve, schema_pattern_covers,
  downgrade_for_schema_pattern, schema_case_variant_matches, downgrade_for_schema_case_variant,
  table_case_variant_matches, table_privilege, schema_privilege,
}
use dbsgomysql.Validations.Grants.State.Memo.{table_doubts, table_privilege-table_answer}
use dbsgomysql.Validations.Grants.State.Resolve.{
  IsUngranted, Established, RuledOut, resolve-present, resolve-absent,
}

-- An entry of the schema map that holds the privilege for another schema name.
abbrev pub Other : Str → Privilege → SchemaPrivilegeKey → GrantSources → Type 0
Other schema priv key sources =
    (key.privilege ≡ priv) × (has_sources sources ≡ true) × (key.schema ≢ schema)

-- No pattern that is granted under another name matches the schema.
abbrev pub NoPattern : Grants → Str → Privilege → Type 0
NoPattern g schema priv =
    Every
      (λ key sources.
        Other schema priv key sources → ¬ Like (elements (runes key.schema)) (runes schema))
      g.schema

module _ (schema : Str) (priv : Privilege) (key : SchemaPrivilegeKey) (sources : GrantSources) where
  schema_pattern_test_iff :
      (schema_pattern_test schema priv key sources ≡ true)
      ↔ (Other schema priv key sources × Like (elements (runes key.schema)) (runes schema))
  unfolding schema_pattern_test
  schema_pattern_test_iff = ground (
    arith,
    eq_iff key.privilege priv,
    eq_iff key.schema schema,
    like_pattern_matches_iff key.schema schema,
  )

  schema_pattern_test-false :
      (schema_pattern_test schema priv key sources ≡ false)
      ↔ (Other schema priv key sources → ¬ Like (elements (runes key.schema)) (runes schema))
  schema_pattern_test-false = (
    λ f o l. ground (arith, schema_pattern_test_iff.1 (o, l)),
    λ h. elim (Bool-cases (schema_pattern_test schema priv key sources)) [
      | inl t ↦ let (o, l) = schema_pattern_test_iff.0 t in absurd (h o l)
      | inr f ↦ f
    ],
  )

schema_pattern_covers-false :
    (g : Grants) (schema : Str) (priv : Privilege)
    → (schema_pattern_covers g schema priv ≡ false) ↔ NoPattern g schema priv
unfolding schema_pattern_covers
schema_pattern_covers-false g schema priv =
    some_entry-false _ _ (schema_pattern_test-false schema priv) g.schema

-- While partial revokes are enabled, stored names are no patterns.
abbrev pub Uncovered : Grants → Str → Privilege → Type 0
Uncovered g schema priv = (g.partial_revokes ≡ true) ⊎ NoPattern g schema priv

-- No name that differs from the schema's in letter case only has the privilege.
abbrev pub NoVariant : (Str → Str → Bool) → Grants → Str → Privilege → Type 0
NoVariant equal_fold g schema priv =
    Every (λ key sources. Other schema priv key sources → equal_fold key.schema schema ≡ false)
      g.schema

-- An entry of a table or column map that holds the privilege for another table.
abbrev pub OtherTable : Str → Str → Privilege → TablePrivilegeKey → GrantSources → Type 0
OtherTable schema table priv key sources =
    (key.privilege ≡ priv)
    × (has_sources sources ≡ true)
    × ((key.schema ≡ schema) → key.table ≢ table)

abbrev pub NoTableVariant :
    (Str → Str → Bool) → Str → Str → Privilege → List (TablePrivilegeKey × GrantSources) → Type 0
NoTableVariant equal_fold schema table priv m =
    Every
      (λ key sources.
        OtherTable schema table priv key sources
        → (equal_fold key.schema schema && equal_fold key.table table) ≡ false)
      m

iff_trans : {A B C : Type 0} → A ↔ B → B ↔ C → A ↔ C
iff_trans f g = (λ a. g.0 (f.0 a), λ c. f.1 (g.1 c))

-- An absent answer that is doubted becomes unconfirmed; no other answer changes.
abbrev weaken : GrantState → Bool → GrantState
weaken state doubts = if is_absent state && doubts then unconfirmed else state

weaken-present : (s : GrantState) (b : Bool) → (weaken s b ≡ present) ↔ (s ≡ present)
weaken-present s b = ground arith

weaken-absent : (s : GrantState) (b : Bool) → (weaken s b ≡ absent) ↔ ((s ≡ absent) × (b ≡ false))
weaken-absent s b = ground arith

module _ (equal_fold : Str → Str → Bool) (g : Grants) (schema : Str) (priv : Privilege) where
  schema_case_variant-false :
      (schema_case_variant_matches equal_fold g schema priv ≡ false)
      ↔ NoVariant equal_fold g schema priv
  unfolding schema_case_variant_matches
  schema_case_variant-false =
      some_entry-false _ _
        (λ key sources. ground (arith, eq_iff key.privilege priv, eq_iff key.schema schema))
        g.schema

  table_case_variant-false :
      (table : Str)
      → (table_case_variant_matches equal_fold g schema table priv ≡ false) ↔ (
          NoTableVariant equal_fold schema table priv g.table
          × NoTableVariant equal_fold schema table priv g.column)
  unfolding table_case_variant_matches
  table_case_variant-false table =
      let each =
        some_entry-false (table_case_variant equal_fold schema table priv)
          (λ key sources.
            OtherTable schema table priv key sources
            → (equal_fold key.schema schema && equal_fold key.table table) ≡ false)
          (λ key sources.
            ground (
              arith,
              eq_iff key.privilege priv,
              eq_iff key.schema schema,
              eq_iff key.table table,
            )) in
      ground (arith, each g.table, each g.column)

  pattern-false :
      ((not g.partial_revokes && schema_pattern_covers g schema priv) ≡ false)
      ↔ Uncovered g schema priv
  pattern-false =
      let h = schema_pattern_covers-false g schema priv in
      (
        λ f. elim (Bool-cases g.partial_revokes) [
          | inl on ↦ inl on
          | inr off ↦ inr (h.0 (ground arith))
        ],
        elim [ inl on ↦ ground arith | inr none_such ↦ ground (arith, h.1 none_such) ],
      )

  abbrev schema_doubts : Bool
  schema_doubts =
      (not g.partial_revokes && schema_pattern_covers g schema priv)
      || schema_case_variant_matches equal_fold g schema priv

  schema_privilege-weaken :
      schema_privilege equal_fold g schema priv
      ≡ weaken (resolve g priv (schema_at g schema priv ∷ []) (global_at g priv)) schema_doubts
  unfolding schema_privilege downgrade_for_schema_pattern downgrade_for_schema_case_variant
  schema_privilege-weaken =
      let state = resolve g priv (schema_at g schema priv ∷ []) (global_at g priv) in ground arith

  -- `Schema` answers present exactly if the privilege is valid, the fact is populated, the session
  -- is no wrapper, and the account itself holds the schema grant or, while partial revokes are
  -- disabled, the global grant.
  pub schema_privilege-present :
      (schema_privilege equal_fold g schema priv ≡ present)
      ↔ Established g priv (schema_at g schema priv ∷ []) (global_at g priv)
  schema_privilege-present =
      let state = resolve g priv (schema_at g schema priv ∷ []) (global_at g priv) in
      rw schema_privilege-weaken (
        iff_trans (weaken-present state schema_doubts)
          (resolve-present g priv (schema_at g schema priv ∷ []) (global_at g priv)))

  -- What must hold for `Schema` to answer absent.
  pub record SchemaAbsent : Type 0 where
    pub ruled_out : RuledOut g priv (schema_at g schema priv ∷ []) (global_at g priv)
    pub uncovered : Uncovered g schema priv
    pub no_variant : NoVariant equal_fold g schema priv

  -- `Schema` answers absent exactly if the privilege is valid, the fact is populated by one pinned,
  -- role-free session that sees the rows of other accounts, no grant of any source stands at the
  -- schema or globally, no pattern matches the schema while patterns count, and no name of a
  -- schema grant differs in letter case only.
  pub schema_privilege-absent : (schema_privilege equal_fold g schema priv ≡ absent) ↔ SchemaAbsent
  schema_privilege-absent =
      let specific = schema_at g schema priv ∷ [] in
      let state = resolve g priv specific (global_at g priv) in
      rw schema_privilege-weaken (
        iff_trans (weaken-absent state schema_doubts) (
          λ (a, d). record {
            ruled_out = (resolve-absent g priv specific (global_at g priv)).0 a;
            uncovered = pattern-false.0 (ground arith);
            no_variant = schema_case_variant-false.0 (ground arith);
          },
          λ k. (
            (resolve-absent g priv specific (global_at g priv)).1 k.ruled_out,
            ground (arith, pattern-false.1 k.uncovered, schema_case_variant-false.1 k.no_variant),
          ),
        ))

  module _ (table : Str) where
    -- `Table` answers present exactly if the privilege is valid, the fact is populated, the session
    -- is no wrapper, and the account itself holds the table grant, the schema grant or, while
    -- partial revokes are disabled, the global grant.
    pub table_privilege-present :
        (table_privilege equal_fold g schema table priv ≡ present)
        ↔ Established g priv
            (table_at g schema table priv ∷ schema_at g schema priv ∷ [])
            (global_at g priv)
    table_privilege-present =
        let specific = table_at g schema table priv ∷ schema_at g schema priv ∷ [] in
        let state = resolve g priv specific (global_at g priv) in
        rw (table_privilege-table_answer equal_fold g schema priv table) (
          iff_trans (weaken-present state (table_doubts equal_fold g schema priv table))
            (resolve-present g priv specific (global_at g priv)))

    -- What must hold for `Table` to answer absent.
    pub record TableAbsent : Type 0 where
      pub ruled_out :
          RuledOut g priv
            (table_at g schema table priv ∷ schema_at g schema priv ∷ [])
            (global_at g priv)
      pub uncovered : Uncovered g schema priv
      pub no_column : IsUngranted (column_at g schema table priv)
      pub no_variant : NoVariant equal_fold g schema priv
      pub no_table_variant : NoTableVariant equal_fold schema table priv g.table
      pub no_column_variant : NoTableVariant equal_fold schema table priv g.column

    -- `Table` answers absent exactly if the privilege is valid, the fact is populated by one pinned,
    -- role-free session that sees the rows of other accounts, no grant of any source stands at the
    -- table, the schema or globally, and nothing weakens the answer: no pattern that matches the
    -- schema while patterns count, no column grant, and no name that differs in letter case only.
    pub table_privilege-absent :
        (table_privilege equal_fold g schema table priv ≡ absent) ↔ TableAbsent
    table_privilege-absent =
        let specific = table_at g schema table priv ∷ schema_at g schema priv ∷ [] in
        let global = global_at g priv in
        let state = resolve g priv specific global in
        rw (table_privilege-table_answer equal_fold g schema priv table) (
          iff_trans (weaken-absent state (table_doubts equal_fold g schema priv table)) (
            λ (a, d).
                let (t, c) = (table_case_variant-false table).0 (ground arith) in
                record {
                  ruled_out = (resolve-absent g priv specific global).0 a;
                  uncovered = pattern-false.0 (ground arith);
                  no_column = ground arith;
                  no_variant = schema_case_variant-false.0 (ground arith);
                  no_table_variant = t;
                  no_column_variant = c;
                },
            λ k. (
              (resolve-absent g priv specific global).1 k.ruled_out,
              ground (
                arith,
                pattern-false.1 k.uncovered,
                k.no_column,
                schema_case_variant-false.1 k.no_variant,
                (table_case_variant-false table).1 (k.no_table_variant, k.no_column_variant),
              ),
            ),
          ))
