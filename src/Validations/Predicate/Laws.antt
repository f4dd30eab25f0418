-- ===== src/Validations/Predicate/Laws.antt =====
-- What the narrowing of a query keeps.
use dbsgomysql.Prelude.{
  All, Bool-cases, List, Option-cases, Str, [], any, arith, codes, contains, eq_iff, eq_refl, false,
  if◌then◌else◌, inl, inr, is_empty, length, length-append, list_eq, nat_eq, not, refl, some, suc,
  sym, true, zero, ℕ, ◌*◌, ◌++◌, ◌+◌, ◌-◌, ◌<◌, ◌==◌, ◌||◌, ◌∙◌, ◌∷◌, ◌≡◌, ◌≤◌,
}
use dbsgomysql.Validations.Predicate.{
  representable, distinct_from, narrow_names, requested_objects, repeated, request_args,
  sql_placeholders,
}

-- No name stands twice.
abbrev pub Distinct : List Str → Type 0
Distinct [] = Unit
Distinct (x ∷ xs) = (contains x xs ≡ false) × Distinct xs

abbrev pub SameMembers : List Str → List Str → Type 0
SameMembers xs ys = (x : Str) → contains x xs ≡ contains x ys

pub contains-append :
    (x : Str) (xs ys : List Str) → contains x (xs ++ ys) ≡ (contains x xs || contains x ys)
unfolding contains
contains-append x [] ys = refl
contains-append x (y ∷ xs) ys = ground (arith, contains-append x xs ys)

Distinct-append :
    (xs : List Str) (y : Str) → Distinct xs → contains y xs ≡ false → Distinct (xs ++ y ∷ [])
unfolding contains
Distinct-append [] y d n = (refl, tt)
Distinct-append (x ∷ xs) y (f, d) n =
    ground (arith, contains-append x xs (y ∷ []), eq_iff x y, eq_iff y x, Distinct-append xs y d)

distinct_from-contains :
    (names seen params : List Str) (x : Str)
    → SameMembers seen params
    → contains x (distinct_from seen params names) ≡ (contains x params || contains x names)
unfolding distinct_from contains
distinct_from-contains [] seen params x same = ground arith
distinct_from-contains (n ∷ names) seen params x same = elim (Bool-cases (contains n seen)) [
  | inl old ↦
      rw old (ground (arith, distinct_from-contains names seen params x same, eq_iff x n, same n))
  | inr new ↦ rw new (
      ground (
        arith,
        distinct_from-contains names (n ∷ seen) (params ++ n ∷ []) x
            (λ y. ground (arith, contains-append y params (n ∷ []), same y)),
        contains-append x params (n ∷ []),
      ))
]

distinct_from-Distinct :
    (names seen params : List Str)
    → SameMembers seen params
    → Distinct params
    → Distinct (distinct_from seen params names)
unfolding distinct_from
distinct_from-Distinct [] seen params same d = d
distinct_from-Distinct (n ∷ names) seen params same d = elim (Bool-cases (contains n seen)) [
  | inl old ↦ rw old (distinct_from-Distinct names seen params same d)
  | inr new ↦ rw new (
      distinct_from-Distinct names (n ∷ seen) (params ++ n ∷ [])
        (λ y. unfold contains in ground (arith, contains-append y params (n ∷ []), same y))
        (Distinct-append params n d (sym (same n) ∙ new)))
]

distinct_from-length :
    (names seen params : List Str)
    → length (distinct_from seen params names) ≤ length params + length names
unfolding distinct_from
distinct_from-length [] seen params = omega arith
distinct_from-length (n ∷ names) seen params = ground (
  arith,
  distinct_from-length names seen params,
  distinct_from-length names (n ∷ seen) (params ++ n ∷ []),
  length-append params (n ∷ []),
)

SameMembers-nil : SameMembers [] []
SameMembers-nil x = refl

-- When `narrowNames` succeeds, its parameters are the requested names, each exactly once and no
-- others, and with the fixed arguments they fit into one prepared statement.
pub narrow_names-some :
    (names : List Str) (fixed_args : ℕ) (params : List Str)
    → narrow_names names fixed_args ≡ some params
    → Distinct params × SameMembers params names × (length params + fixed_args ≤ 65535)
unfolding narrow_names
narrow_names-some names fixed_args params h =
    let same : params ≡ distinct_from [] [] names = ground arith in
    rw same (
      distinct_from-Distinct names [] [] SameMembers-nil tt,
      λ x. unfold contains in ground (arith, distinct_from-contains names [] [] x SameMembers-nil),
      ground arith,
    )

any-representable :
    (names : List Str)
    → All (λ name. representable name ≡ true) names
    → any (λ name. not (representable name)) names ≡ false
any-representable [] h = refl
any-representable (n ∷ names) (h, hs) = ground (arith, any-representable names hs)

-- `narrowNames` succeeds whenever each name is representable and the names fit, repeated ones
-- included, with the fixed arguments into one prepared statement.
pub narrow_names-enough :
    (names : List Str) (fixed_args : ℕ)
    → All (λ name. representable name ≡ true) names
    → length names + fixed_args ≤ 65535
    → (params : List Str) × (narrow_names names fixed_args ≡ some params)
unfolding narrow_names
narrow_names-enough names fixed_args h l = (
  distinct_from [] [] names,
  ground (arith, any-representable names h, distinct_from-length names [] []),
)

-- The number of parameter marks in a statement.
abbrev pub marks : Str → ℕ
marks [] = 0
marks (c ∷ s) = (if c == b'?' then 1 else 0) + marks s

marks-append : (s t : Str) → marks (s ++ t) ≡ marks s + marks t
marks-append [] t = omega arith
marks-append (c ∷ s) t = omega (arith, marks-append s t)

pub marks-sql_placeholders : (count : ℕ) → marks (sql_placeholders count) ≡ count
unfolding sql_placeholders
marks-sql_placeholders zero = refl
marks-sql_placeholders (suc zero) = refl
marks-sql_placeholders (suc (suc count)) = omega (arith, marks-sql_placeholders (suc count))

marks-repeated : (n : ℕ) → marks (repeated n) ≡ 2 * n
unfolding repeated
marks-repeated zero = omega arith
marks-repeated (suc n) = omega (arith, marks-repeated n)

length-request_args :
    (schema : Str) (params : List Str) → length (request_args schema params) ≡ 2 * length params
unfolding request_args
length-request_args schema [] = omega arith
length-request_args schema (t ∷ params) = omega (arith, length-request_args schema params)

-- Every pair of arguments is the schema and one name.
abbrev pub Pairs : Str → List Str → List Str → Type 0
Pairs schema [] args = args ≡ []
Pairs schema (t ∷ params) args =
    (rest : List Str) × (args ≡ schema ∷ t ∷ rest) × Pairs schema params rest

Pairs-request_args :
    (schema : Str) (params : List Str) → Pairs schema params (request_args schema params)
unfolding request_args
Pairs-request_args schema [] = refl
Pairs-request_args schema (t ∷ params) = (_, refl, Pairs-request_args schema params)

nonempty :
    (params tables : List Str)
    → SameMembers params tables
    → is_empty tables ≡ false
    → 0 < length params
unfolding contains
nonempty params [] same h = absurd (ground arith)
nonempty [] (t ∷ tables) same h = ground (arith, same t, eq_refl t)
nonempty (p ∷ params) (t ∷ tables) same h = omega arith

abbrev lookup_table : List Str → Str
lookup_table params =
    codes "(SELECT ? AS TABLE_SCHEMA, ? AS TABLE_NAME"
    ++ repeated (length params - 1)
    ++ codes ") AS requested"

marks-lookup_table :
    (params : List Str) → 0 < length params → marks (lookup_table params) ≡ 2 * length params
marks-lookup_table params h = omega (
  arith,
  marks-append (codes "(SELECT ? AS TABLE_SCHEMA, ? AS TABLE_NAME" ++ repeated (length params - 1))
      (codes ") AS requested"),
  marks-append (codes "(SELECT ? AS TABLE_SCHEMA, ? AS TABLE_NAME") (repeated (length params - 1)),
  marks-repeated (length params - 1),
)

-- A derived table of `requestedObjects` has exactly one argument for each of its parameter marks:
-- the schema and a table, for each distinct requested table, of which there are 1 to 2048.
pub requested_objects-some :
    (schema : Str) (tables : List Str) (query : Str) (args : List Str)
    → requested_objects schema tables ≡ some (query, args)
    → (marks query ≡ length args)
      × ((params : List Str) × Distinct params
          × SameMembers params tables
          × Pairs schema params args
          × (0 < length params)
          × (length params ≤ 2048))
unfolding requested_objects
requested_objects-some schema tables query args h = elim (Option-cases (narrow_names tables 0)) [
  | inl failed ↦ absurd (ground arith)
  | inr (params, e) ↦
      let (distinct, same, _) = narrow_names-some tables 0 params e in
      let text : query ≡ lookup_table params = ground arith in
      let given : args ≡ request_args schema params = ground arith in
      let few : length params ≤ 2048 = ground arith in
      let some_table = nonempty params tables same (ground arith) in
      rw (text, given)
        (
          ground (arith, marks-lookup_table params some_table, length-request_args schema params),
          (params, distinct, same, Pairs-request_args schema params, some_table, few),
        )
]
