-- ===== src/Validations/ForeignKeys/Standard/Batches.antt =====
-- pkg/validations/foreign_keys.go: the statements that read the indexes of the child tables.
use dbsgomysql.Prelude.{
  All, Bool-cases, List, [], any, ap, arith, contains, drop, eq_iff, false, inl, inr, length,
  list_eq, nat_eq, refl, suc, true, zero, ℕ, ◌*◌, ◌++◌, ◌-◌, ◌<◌, ◌==◌, ◌||◌, ◌∙◌, ◌∷◌, ◌≡◌, ◌≤◌,
}
use dbsgomysql.Validations.ForeignKeys.Types.{ForeignKey}
use dbsgomysql.Validations.ForeignKeys.Standard.{
  TableIdentity, identity_eq, child_of, distinct_children, take, batches, batch_size,
}

abbrev pub joined : List (List TableIdentity) → List TableIdentity
joined [] = []
joined (pairs ∷ rest) = pairs ++ joined rest

take-drop : (n : ℕ) (xs : List TableIdentity) → take n xs ++ drop n xs ≡ xs
take-drop zero xs = refl
take-drop (suc n) [] = refl
take-drop (suc n) (x ∷ xs) = ap (λ ys. x ∷ ys) (take-drop n xs)

length-take : (n : ℕ) (xs : List TableIdentity) → length (take n xs) ≤ n
length-take zero xs = omega arith
length-take (suc n) [] = omega arith
length-take (suc n) (x ∷ xs) = omega (arith, length-take n xs)

length-drop : (n : ℕ) (xs : List TableIdentity) → length (drop n xs) ≡ length xs - n
length-drop zero xs = omega arith
length-drop (suc n) [] = omega arith
length-drop (suc n) (x ∷ xs) = omega (arith, length-drop n xs)

positive : {n : ℕ} → ¬ (suc n ≤ 0)
positive l = omega (arith, l)

-- Each statement is for at least one pair, and for `size` at most.
abbrev pub Sized : ℕ → List TableIdentity → Type 0
Sized size pairs = (0 < length pairs) × (length pairs ≤ size)

-- With a positive size, as much fuel as there are pairs is enough: the batches are the pairs, in
-- their order.
pub joined-batches :
    (fuel size : ℕ) (pairs : List TableIdentity)
    → 0 < size
    → length pairs ≤ fuel
    → joined (batches fuel size pairs) ≡ pairs
unfolding batches
joined-batches zero size [] s f = refl
joined-batches zero size (p ∷ pairs) s f = elim (positive f) [ ]
joined-batches (suc fuel) size [] s f = refl
joined-batches (suc fuel) size (p ∷ pairs) s f =
    ap (λ rest. take size (p ∷ pairs) ++ rest)
      (joined-batches fuel size (drop size (p ∷ pairs)) s
        (omega (arith, s, f, length-drop size (p ∷ pairs))))
    ∙ take-drop size (p ∷ pairs)

batches-Sized :
    (fuel size : ℕ) (pairs : List TableIdentity)
    → 0 < size
    → All (Sized size) (batches fuel size pairs)
unfolding batches
batches-Sized zero size pairs s = tt
batches-Sized (suc fuel) size [] s = tt
batches-Sized (suc fuel) (suc size) (p ∷ pairs) s = (
  (omega arith, length-take (suc size) (p ∷ pairs)),
  batches-Sized fuel (suc size) (drop (suc size) (p ∷ pairs)) s,
)
batches-Sized (suc fuel) zero (p ∷ pairs) s = elim (positive s) [ ]

contains-snoc :
    (p q : TableIdentity) (pairs : List TableIdentity)
    → contains p (pairs ++ q ∷ []) ≡ (contains p pairs || (p == q))
unfolding contains
contains-snoc p q [] = ground arith
contains-snoc p q (x ∷ pairs) = ground (arith, contains-snoc p q pairs)

-- No pair comes twice.
abbrev pub Once : List TableIdentity → Type 0
Once [] = Unit
Once (p ∷ pairs) = (contains p pairs ≡ false) × Once pairs

Once-snoc :
    (q : TableIdentity) (pairs : List TableIdentity)
    → Once pairs
    → contains q pairs ≡ false
    → Once (pairs ++ q ∷ [])
unfolding contains
Once-snoc q [] o f = (refl, tt)
Once-snoc q (p ∷ pairs) (first, o) f = (
  ground (arith, contains-snoc p q pairs, first, f, eq_iff p q, eq_iff q p),
  Once-snoc q pairs o (ground (arith, f)),
)

contains-same :
    (p q : TableIdentity) (pairs : List TableIdentity)
    → (p == q) ≡ true
    → contains p pairs ≡ contains q pairs
contains-same p q pairs e = ap (λ x. contains x pairs) ((eq_iff p q).0 e)

distinct_children-Once :
    (keys : List ForeignKey) (pairs : List TableIdentity)
    → Once pairs
    → Once (distinct_children keys pairs)
unfolding distinct_children
distinct_children-Once [] pairs o = o
distinct_children-Once (key ∷ keys) pairs o = elim (Bool-cases (contains (child_of key) pairs)) [
  | inl h ↦ rw (h) (distinct_children-Once keys pairs o)
  | inr h ↦ rw (h) (
      distinct_children-Once keys (pairs ++ child_of key ∷ []) (Once-snoc (child_of key) pairs o h))
]

contains-distinct_children :
    (p : TableIdentity) (keys : List ForeignKey) (pairs : List TableIdentity)
    → contains p (distinct_children keys pairs)
      ≡ (contains p pairs || any (λ key. p == child_of key) keys)
unfolding distinct_children
contains-distinct_children p [] pairs = ground arith
contains-distinct_children p (key ∷ keys) pairs =
    elim (Bool-cases (contains (child_of key) pairs)) [
      | inl h ↦ rw (h) (
          contains-distinct_children p keys pairs
          ∙ ground (arith, h, contains-same p (child_of key) pairs))
      | inr h ↦ rw (h) (
          contains-distinct_children p keys (pairs ++ child_of key ∷ [])
          ∙ ground (arith, contains-snoc p (child_of key) pairs))
    ]

-- A statement of a batch binds two parameters for each pair.
abbrev pub Bound : List TableIdentity → Type 0
Bound pairs = (0 < length pairs) × (2 * length pairs ≤ 65535)

Sized-Bound : (bs : List (List TableIdentity)) → All (Sized batch_size) bs → All Bound bs
Sized-Bound [] a = tt
Sized-Bound (b ∷ bs) (one, rest) = ((one.0, omega (arith, one.1)), Sized-Bound bs rest)

-- The fuel is enough: the statements that read the indexes, one behind the other, are for all child
-- tables. Each child table is asked for once, every table asked for is the child of a key, and no
-- statement binds more than 65535 parameters or is for no table.
pub distinct_children-batches :
    (keys : List ForeignKey)
    → (joined (batches (length (distinct_children keys [])) batch_size (distinct_children keys []))
        ≡ distinct_children keys [])
      × All Bound
          (batches (length (distinct_children keys [])) batch_size (distinct_children keys []))
      × Once (distinct_children keys [])
      × ((p : TableIdentity)
          → contains p (distinct_children keys []) ≡ any (λ key. p == child_of key) keys)
unfolding contains
distinct_children-batches keys =
    let pairs = distinct_children keys [] in
    (
      joined-batches (length pairs) batch_size pairs (omega arith) (omega arith),
      Sized-Bound (batches (length pairs) batch_size pairs)
          (batches-Sized (length pairs) batch_size pairs (omega arith)),
      distinct_children-Once keys [] tt,
      λ p. contains-distinct_children p keys [],
    )
