-- ===== src/Validations/Predicate/Representable.antt =====
-- pkg/validations/predicate.go: the names that `representable` lets through.
use dbsgomysql.Prelude.{
  All, Bool-cases, List, Str, [], any, arith, contains, false, inl, inr, list_eq, ltb, nat_eq, not,
  refl, some, sym, true, ℕ, ◌++◌, ◌<◌, ◌↔◌, ◌∷◌, ◌≡◌,
}
use dbsgomysql.Golang.Utf8.{runes}
use dbsgomysql.Golang.Utf8.Encoding.{IsScalar, encode_all}
use dbsgomysql.Golang.Utf8.Laws.{runes-encode_all, valid-encode_all, encode_all-runes}
use dbsgomysql.Validations.Predicate.{representable, distinct_from, narrow_names}

-- The encoding of characters of the basic multilingual plane.
abbrev pub IsBasic : Str → Type 0
IsBasic name = (rs : List ℕ) × (name ≡ encode_all rs) × All (λ r. IsScalar r × (r < 65536)) rs

below :
    (rs : List ℕ)
    → any (λ char. ltb 65535 char) rs ≡ false
    → All IsScalar rs
    → All (λ r. IsScalar r × (r < 65536)) rs
below [] e s = tt
below (r ∷ rs) e (h, hs) = ((h, ground arith), below rs (ground (arith, e)) hs)

none_higher :
    (rs : List ℕ)
    → All (λ r. IsScalar r × (r < 65536)) rs
    → All IsScalar rs × (any (λ char. ltb 65535 char) rs ≡ false)
none_higher [] h = (tt, refl)
none_higher (r ∷ rs) (h, hs) = let (s, e) = none_higher rs hs in ((h.0, s), ground (arith, e))

-- `representable` accepts exactly the UTF-8 encodings of characters of the basic multilingual plane.
pub representable_iff : (name : Str) → (representable name ≡ true) ↔ IsBasic name
unfolding representable
representable_iff name = (
  λ e.
      let (s, same) = encode_all-runes name (ground (arith, e)) in
      (runes name, sym same, below (runes name) (ground (arith, e)) s),
  λ (rs, same, h).
      let (s, e) = none_higher rs h in
      rw same (rw (valid-encode_all rs s, runes-encode_all rs s, e) refl),
)

module _ (P : Str → Type 0) where
  All-snoc : (xs : List Str) (y : Str) → All P xs → P y → All P (xs ++ y ∷ [])
  All-snoc [] y h p = (p, tt)
  All-snoc (x ∷ xs) y (h, hs) p = (h, All-snoc xs y hs p)

  distinct_from-All :
      (names seen params : List Str)
      → All P params
      → All P names
      → All P (distinct_from seen params names)
  unfolding distinct_from
  distinct_from-All [] seen params h g = h
  distinct_from-All (n ∷ names) seen params h (g, gs) = elim (Bool-cases (contains n seen)) [
    | inl old ↦ rw old (distinct_from-All names seen params h gs)
    | inr new ↦
        rw new (distinct_from-All names (n ∷ seen) (params ++ n ∷ []) (All-snoc params n h g) gs)
  ]

any-IsBasic :
    (names : List Str) → any (λ name. not (representable name)) names ≡ false → All IsBasic names
any-IsBasic [] e = tt
any-IsBasic (n ∷ names) e =
    ((representable_iff n).0 (ground (arith, e)), any-IsBasic names (ground (arith, e)))

-- The parameters of a narrowed query can be converted.
pub narrow_names-IsBasic :
    (names : List Str) (fixed_args : ℕ) (params : List Str)
    → narrow_names names fixed_args ≡ some params
    → All IsBasic params
unfolding narrow_names
narrow_names-IsBasic names fixed_args params h =
    let same : params ≡ distinct_from [] [] names = ground (arith, h) in
    rw same (distinct_from-All IsBasic names [] [] tt (any-IsBasic names (ground (arith, h))))
