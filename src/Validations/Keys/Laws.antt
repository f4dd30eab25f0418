-- ===== src/Validations/Keys/Laws.antt =====
-- What the checks over primary keys report.
use dbsgomysql.Prelude.{
  All, Bool, Bool-cases, List, Str, [], ap, arith, codes, eq_iff, false, false≢true, inl, inr,
  length, list_eq, nat_eq, not, read, refl, some_entry, true, ◌&&◌, ◌==◌, ◌||◌, ◌↔◌, ◌∷◌, ◌≡◌, ◌≢◌,
  ◌≤◌, ◌⊎◌,
}
use dbsgomysql.Validations.Catalog.{Finding, id_pk_matches_expected, id_pk_name_case}
use dbsgomysql.Validations.Spec.Fold.{ascii_fold_equal, fold_key, ascii_fold_equal_iff}
use dbsgomysql.Validations.Keys.{
  is_unknown, is_none, pk_unknown, PkRow, PkInfo, PkRow, new_pk, pk_finding, pk_none, pk_single,
  pk_composite, classify_pk, requested_pks, primary_keys, collect_pks, findings_of,
  check_pk_matches_expected, check_pk_name_case, matches_pk_column, has_case_only_pk_column,
  passed_over,
}

-- The kind is the number of columns.
unfoldable pub Classified : PkInfo → Type 0
Classified pk =
    ((pk.kind ≡ pk_none) × (length pk.columns ≡ 0))
    ⊎ ((pk.kind ≡ pk_single) × (length pk.columns ≡ 1))
    ⊎ ((pk.kind ≡ pk_composite) × (2 ≤ length pk.columns))

module _ (to_lower : Str → Str) (fields : Str → List Str) (equal_fold : Str → Str → Bool) where
  classify_pk-Classified : (pk : PkInfo) → Classified (classify_pk to_lower fields equal_fold pk)
  unfolding classify_pk Classified
  classify_pk-Classified pk =
      elim pk.columns
        as (λ cs.
          Classified (classify_pk to_lower fields equal_fold (record pk { columns = cs }))) [
            | [] ↦ inl (refl, refl)
            | _ ∷ [] ↦ inr (inl (refl, refl))
            | _ ∷ _ ∷ _ ↦ inr (inr (refl, omega arith))
          ]

  requested_pks-Classified :
      (tables : List Str) (by_table : List (Str × PkInfo))
      → All Classified (requested_pks to_lower fields equal_fold tables by_table)
  unfolding requested_pks
  requested_pks-Classified [] by_table = tt
  requested_pks-Classified (t ∷ tables) by_table =
      elim (Bool-cases (some_entry (λ k _. k == t) by_table)) [
        | inl known ↦ rw known (
          classify_pk-Classified (read (new_pk to_lower fields equal_fold t) t by_table),
          requested_pks-Classified tables by_table,
        )
        | inr lost ↦ rw lost (requested_pks-Classified tables by_table)
      ]

  -- Every primary key that is reported has the kind that its number of columns calls for.
  pub primary_keys-Classified :
      (tables : List Str) (rows : List PkRow)
      → All Classified (primary_keys to_lower fields equal_fold tables rows)
  unfolding primary_keys
  primary_keys-Classified tables rows =
      requested_pks-Classified tables (collect_pks to_lower fields equal_fold rows [])

matches_case :
    (columns : List Str) (want : Str)
    → has_case_only_pk_column columns want ≡ true
    → matches_pk_column columns want ≡ true
unfolding has_case_only_pk_column matches_pk_column
matches_case [] want e = absurd (false≢true e)
matches_case (c ∷ columns) want e = ground (arith, matches_case columns want)

findings_of-split :
    (bad other : PkInfo → Bool) (f h : PkInfo → Finding PkInfo) (pk : PkInfo)
    → (bad pk ≡ true → other pk ≡ false)
    → (findings_of bad f (pk ∷ []) ≡ []) ⊎ (findings_of other h (pk ∷ []) ≡ [])
unfolding findings_of
findings_of-split bad other f h pk e = ground (arith, e)

one_of :
    (pk : PkInfo) (want : Str)
    → (not (passed_over want pk) && not (matches_pk_column pk.columns want)) ≡ true
    → (not (passed_over want pk) && has_case_only_pk_column pk.columns want) ≡ false
one_of pk want e = ground (arith, e, matches_case pk.columns want)

-- Of one key, PK_MATCHES_EXPECTED and PK_NAME_CASE are never both reported.
pub matches_or_name_case :
    (pk : PkInfo) (expected : List (Str × Str))
    → (check_pk_matches_expected (pk ∷ []) expected ≡ [])
      ⊎ (check_pk_name_case (pk ∷ []) expected ≡ [])
unfolding check_pk_matches_expected check_pk_name_case
matches_or_name_case pk expected =
    findings_of-split
      (λ k.
        let want = read [] k.table expected in
        not (passed_over want k) && not (matches_pk_column k.columns want))
      (λ k.
        let want = read [] k.table expected in
        not (passed_over want k) && has_case_only_pk_column k.columns want)
      (pk_finding id_pk_matches_expected
        (codes "expected column is not part of the table's primary key"))
      (pk_finding id_pk_name_case
        (codes "expected primary-key column differs from the server's spelling only in ASCII case"))
      pk (one_of pk (read [] pk.table expected))

matches_one_iff :
    (c want : Str) → ((c == want || ascii_fold_equal c want) ≡ true) ↔ (fold_key c ≡ fold_key want)
matches_one_iff c want = elim (Bool-cases (c == want)) [
  | inl same ↦ (λ _. ap fold_key ((eq_iff c want).0 same), λ _. ground (arith, same))
  | inr other ↦ ground (arith, other, ascii_fold_equal_iff c want)
]

matches_pk_column-false_iff :
    (columns : List Str) (want : Str)
    → (matches_pk_column columns want ≡ false) ↔ All (λ c. fold_key c ≢ fold_key want) columns
unfolding matches_pk_column
matches_pk_column-false_iff [] want = (λ _. tt, λ _. refl)
matches_pk_column-false_iff (c ∷ columns) want =
    ground (arith, matches_one_iff c want, matches_pk_column-false_iff columns want)

-- The keys that are left out: no column is expected, or the kind is none or unknown.
passed_over_iff :
    (want : Str) (pk : PkInfo)
    → (passed_over want pk ≡ true) ↔ ((want ≡ []) ⊎ (pk.kind ≡ pk_none) ⊎ (pk.kind ≡ pk_unknown))
passed_over_iff [] pk = (λ _. inl refl, λ _. refl)
passed_over_iff (c ∷ want) pk =
    elim pk.kind
      as (λ kind.
        ((is_none kind || is_unknown kind) ≡ true)
        ↔ (((c ∷ want) ≡ []) ⊎ (kind ≡ pk_none) ⊎ (kind ≡ pk_unknown))) [
          | pk_unknown ↦ (λ _. inr (inr refl), λ _. refl)
          | pk_none ↦ (λ _. inr (inl refl), λ _. refl)
          | pk_single ↦ ground arith
          | pk_composite ↦ ground arith
        ]

-- PK_MATCHES_EXPECTED reports nothing of a key exactly if no column is expected of its table, or its
-- kind is none or unknown, or not every column of the key has a name other than the expected one
-- under ASCII folding.
pub check_pk_matches_expected-nil_iff :
    (pk : PkInfo) (expected : List (Str × Str))
    → (check_pk_matches_expected (pk ∷ []) expected ≡ []) ↔ (
        ((read [] pk.table expected ≡ []) ⊎ (pk.kind ≡ pk_none) ⊎ (pk.kind ≡ pk_unknown))
        ⊎ ¬ All (λ c. fold_key c ≢ fold_key (read [] pk.table expected)) pk.columns)
unfolding check_pk_matches_expected findings_of
check_pk_matches_expected-nil_iff pk expected = ground (
  arith,
  matches_pk_column-false_iff pk.columns (read [] pk.table expected),
  passed_over_iff (read [] pk.table expected) pk,
)
