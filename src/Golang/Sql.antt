-- ===== src/Golang/Sql.antt =====
-- database/sql: what a query may yield, and results that carry an error.
use dbsgomysql.Prelude.{Bool, Option, Str, arith, if◌then◌else◌, inl, inr, refl, ◌≡◌, ◌⊎◌}

pub data Result {ℓ} (E : Type 0) (A : Type ℓ) : Type ℓ where
  ok : A → Result E A
  fail : E → Result E A

-- `if err != nil { return …, err }`, in front of what uses the value.
module _ {ℓ κ} {E : Type 0} {A : Type ℓ} {B : Type κ} where
  infixl 5 ◌>>=◌
  abbrev pub ◌>>=◌ : Result E A → (A → Result E B) → Result E B
  fail why >>= next = fail why
  ok value >>= next = next value

-- `if bad { return …, err }`
abbrev pub refuse : {E : Type 0} → Bool → E → Result E (Unit {0})
refuse bad e = if bad then fail e else ok tt

module _ {ℓ} {E : Type 0} {B : Type ℓ} where
  infixl 5 ◌>>◌
  abbrev pub ◌>>◌ : Result E (Unit {0}) → Result E B → Result E B
  check >> next = check >>= λ _. next

module _ {ℓ} {E : Type 0} {A : Type ℓ} where
  pub ok-injective : {s t : A} → Path (Result E A) (ok s) (ok t) → s ≡ t
  ok-injective e = ground (arith, e)

  pub fail≢ok : {x : E} {s : A} → Path (Result E A) (fail x) (ok s) → ⊥
  fail≢ok e = ground (arith, e)

  pub Result-cases : (m : Result E A) → ((a : A) × (m ≡ ok a)) ⊎ ((e : E) × (m ≡ fail e))
  Result-cases (ok a) = inl (a, refl)
  Result-cases (fail e) = inr (e, refl)

-- What `rows` yields: rows that scan, up to one that does not, or to the end with `rows.Err()`.
pub data Rows (A : Type 0) : Type 0 where
  end : Option Str → Rows A
  row : A → Rows A → Rows A
  bad_row : Str → Rows A

-- The result of `QueryContext`: an error, or rows.
pub data Query (A : Type 0) : Type 0 where
  rejected : Str → Query A
  answered : Rows A → Query A
