-- ===== src/Prelude/Maps.antt =====
-- Go maps as association lists. A missing key reads as the zero value of its type.
use mathlib.Core.Path.{◌≡◌, refl}
use mathlib.Core.Bool.{Bool, false, ◌||◌}
use mathlib.Core.Logic.{◌↔◌}
use mathlib.Core.List.{List, [], ◌∷◌}
use native.Mathlib.Omega.{arith}
use dbsgomysql.Prelude.Tests.{Eq, ◌==◌, eq_iff, if◌then◌else◌}

module _ {ℓ κ} {K : Type ℓ} {V : Type κ} ⦃e : Eq K⦄ where
  -- m[k]
  unfoldable pub read : V → K → List (K × V) → V
  read default k [] = default
  read default k ((j, v) ∷ m) = if j == k then v else read default k m

  -- m[k] = f(m[k])
  unfoldable pub modify : V → (V → V) → K → List (K × V) → List (K × V)
  modify default f k [] = (k, f default) ∷ []
  modify default f k ((j, v) ∷ m) = if j == k then (j, f v) ∷ m else (j, v) ∷ modify default f k m

  pub read-modify :
      (default : V) (f : V → V) (k j : K) (m : List (K × V))
      → read default j (modify default f k m)
        ≡ (if k == j then f (read default k m) else read default j m)
  unfolding read modify
  read-modify default f k j [] = refl
  read-modify default f k j ((i, v) ∷ m) =
      ground (arith, eq_iff i k, eq_iff i j, eq_iff k j, read-modify default f k j m)

-- `for key, value := range m`, in search of an entry that passes: the order does not matter.
unfoldable pub some_entry {ℓ κ} : {K : Type ℓ} {V : Type κ} → (K → V → Bool) → List (K × V) → Bool
some_entry p [] = false
some_entry p ((k, v) ∷ m) = p k v || some_entry p m

-- Every entry satisfies `P`.
abbrev pub Every {ℓ κ} : {K : Type ℓ} {V : Type κ} → (K → V → Type 0) → List (K × V) → Type 0
Every P [] = Unit
Every P ((k, v) ∷ m) = P k v × Every P m

-- A search fails exactly if each entry fails.
pub some_entry-false {ℓ κ} :
    {K : Type ℓ} {V : Type κ} (p : K → V → Bool) (P : K → V → Type 0)
    → ((k : K) (v : V) → (p k v ≡ false) ↔ P k v)
    → (m : List (K × V)) → (some_entry p m ≡ false) ↔ Every P m
unfolding some_entry
some_entry-false p P h [] = (λ _. tt, λ _. refl)
some_entry-false p P h ((k, v) ∷ m) = ground (arith, h k v, some_entry-false p P h m)
