-- ===== src/Replication/Rows/Laws.antt =====
-- pkg/replication/replica_status.go: a column is read by its name, wherever it stands.
use dbsgomysql.Prelude.{
  Bool-cases, List, Option, Str, [], all, ap, arith, contains, eq_iff, false, false≢true,
  if◌then◌else◌, inl, inr, length, list_eq, nat_eq, none, refl, some, some_entry, suc, sym, true, ℕ,
  ◌++◌, ◌+◌, ◌==◌, ◌∙◌, ◌∷◌, ◌≡◌,
}
use dbsgomysql.Golang.Sql.{Result, ok}
use dbsgomysql.Replication.Decode.{DriverValue, DecodeError}
use dbsgomysql.Replication.Rows.{
  ColumnIndex, ResultSet, index_names, position_of, missing, index_columns, value_at, decode_column,
}

-- The value of a row in the first column of a name.
abbrev pub cell : Str → List Str → List DriverValue → Option DriverValue
cell column [] values = none
cell column (name ∷ names) [] = none
cell column (name ∷ names) (v ∷ values) =
    if name == column then some v else cell column names values

abbrev first_from : ℕ → Str → List Str → Option ℕ
first_from p column [] = none
first_from p column (name ∷ names) =
    if name == column then some p else first_from (p + 1) column names

position_of-append :
    (c n : Str) (p : ℕ) (m : List (Str × ℕ))
    → position_of c m ≡ none
    → position_of c (m ++ (n, p) ∷ []) ≡ (if n == c then some p else none)
unfolding position_of
position_of-append c n p [] e = refl
position_of-append c n p ((k, q) ∷ m) e = elim (Bool-cases (k == c)) [
  | inl same ↦ ground (arith, same, e)
  | inr other ↦ rw (other) (position_of-append c n p m (rw (other) at e))
]

position_of-kept :
    (c n : Str) (p q : ℕ) (m : List (Str × ℕ))
    → position_of c m ≡ some q
    → position_of c (m ++ (n, p) ∷ []) ≡ some q
unfolding position_of
position_of-kept c n p q [] e = ground (arith, e)
position_of-kept c n p q ((k, x) ∷ m) e = elim (Bool-cases (k == c)) [
  | inl same ↦ rw (same) (rw (same) at e)
  | inr other ↦ rw (other) (position_of-kept c n p q m (rw (other) at e))
]

-- A name that the map has is a key that a search finds.
some_entry-position_of :
    (n c : Str) (m : List (Str × ℕ))
    → some_entry (λ k _. k == n) m ≡ true
    → position_of c m ≡ none
    → (n == c) ≡ false
unfolding position_of some_entry
some_entry-position_of n c [] e f = ground (arith, e)
some_entry-position_of n c ((k, q) ∷ m) e f = elim (Bool-cases (k == c)) [
  | inl same ↦ ground (arith, same, f)
  | inr other ↦ elim (Bool-cases (k == n)) [
    | inl it ↦ ap (λ x. x == c) (sym ((eq_iff k n).0 it)) ∙ other
    | inr not_it ↦ some_entry-position_of n c m (rw (not_it) at e) (rw (other) at f)
  ]
]

index_names-found :
    (c : Str) (p q : ℕ) (names : List Str) (m : List (Str × ℕ))
    → position_of c m ≡ some q
    → position_of c (index_names p names m) ≡ some q
unfolding index_names
index_names-found c p q [] m e = e
index_names-found c p q (n ∷ names) m e = elim (Bool-cases (some_entry (λ k _. k == n) m)) [
  | inl seen ↦ rw (seen) (index_names-found c (p + 1) q names m e)
  | inr new ↦
      rw (new)
        (index_names-found c (p + 1) q names (m ++ (n, p) ∷ []) (position_of-kept c n p q m e))
]

index_names-first :
    (c : Str) (p : ℕ) (names : List Str) (m : List (Str × ℕ))
    → position_of c m ≡ none
    → position_of c (index_names p names m) ≡ first_from p c names
unfolding index_names
index_names-first c p [] m e = e
index_names-first c p (n ∷ names) m e = elim (Bool-cases (some_entry (λ k _. k == n) m)) [
  | inl seen ↦
      rw (seen, some_entry-position_of n c m seen e) (index_names-first c (p + 1) names m e)
  | inr new ↦ elim (Bool-cases (n == c)) [
    | inl same ↦
        rw (new, same)
          (index_names-found c (p + 1) p names (m ++ (n, p) ∷ [])
            (position_of-append c n p m e ∙ rw (same) refl))
    | inr other ↦
        rw (new, other)
          (index_names-first c (p + 1) names (m ++ (n, p) ∷ [])
            (position_of-append c n p m e ∙ rw (other) refl))
  ]
]

cell-first_from :
    (c : Str) (p : ℕ) (names : List Str) (values : List DriverValue) (v : DriverValue)
    → cell c names values ≡ some v
    → (q : ℕ) × (first_from p c names ≡ some (p + q)) × (value_at q values ≡ v)
unfolding value_at
cell-first_from c p [] values v e = ground (arith, e)
cell-first_from c p (n ∷ names) [] v e = ground (arith, e)
cell-first_from c p (n ∷ names) (x ∷ values) v e = elim (Bool-cases (n == c)) [
  | inl same ↦ (0, rw (same) (ap some (omega arith)), ground (arith, same, e))
  | inr other ↦
      let (q, found, value) = cell-first_from c (p + 1) names values v (rw (other) at e) in
      (suc q, rw (other) (found ∙ ap some (omega arith)), value)
]

-- The index of a result set with these names.
abbrev pub index_of : List Str → ColumnIndex
index_of names = record { positions = index_names 0 names []; width = length names }

-- The value in the first column of the name is the one that is decoded.
pub decode_column-cell :
    {T : Type 0} (op channel c : Str) (names : List Str) (values : List DriverValue)
    (v : DriverValue) (decode : DriverValue → Result DecodeError T) (t : T)
    → cell c names values ≡ some v
    → decode v ≡ ok t
    → decode_column
        (record { op = op; channel = channel; index = index_of names; values = values })
        c
        decode
      ≡ ok t
unfolding decode_column position_of
decode_column-cell op channel c names values v decode t e d =
    let (q, found, value) = cell-first_from c 0 names values v e in
    let place : position_of c (index_names 0 names []) ≡ some (0 + q) =
      index_names-first c 0 names [] refl ∙ found in
    let here : position_of c (index_names 0 names []) ≡ some q = place ∙ ap some (omega arith) in
    rw (here, value, d, decode_column) refl

first_from-contains :
    (c : Str) (p : ℕ) (names : List Str)
    → contains c names ≡ true
    → (q : ℕ) × (first_from p c names ≡ some q)
unfolding contains
first_from-contains c p [] e = elim (false≢true e) [ ]
first_from-contains c p (n ∷ names) e = elim (Bool-cases (n == c)) [
  | inl same ↦ (p, rw (same) refl)
  | inr other ↦
      let (q, found) =
        first_from-contains c (p + 1) names (ground (arith, other, e, eq_iff n c, eq_iff c n)) in
      (q, rw (other) found)
]

missing-none :
    (promised names : List Str)
    → all (λ c. contains c names) promised ≡ true
    → missing promised (index_names 0 names []) ≡ none
unfolding missing position_of
missing-none [] names e = refl
missing-none (c ∷ promised) names e =
    let (q, found) = first_from-contains c 0 names (ground (arith, e)) in
    let later = missing-none promised names (ground (arith, e)) in
    let here : position_of c (index_names 0 names []) ≡ some q =
      index_names-first c 0 names [] refl ∙ found in
    rw (here, missing) later

-- A result set with every promised name has the index of its names.
pub index_columns-names :
    (op : Str) (result : ResultSet) (promised names : List Str)
    → result.columns ≡ ok names
    → all (λ c. contains c names) promised ≡ true
    → index_columns op result promised ≡ ok (index_of names)
unfolding index_columns
index_columns-names op result promised names e present =
    rw (e, missing-none promised names present, index_columns) refl
