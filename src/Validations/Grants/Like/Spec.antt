-- ===== src/Validations/Grants/Like/Spec.antt =====
-- MySQL's wildcard syntax for a schema name: what it means that a name matches a pattern, with no
-- search order in it.
use dbsgomysql.Prelude.{
  List, Option, [], ap, append_assoc, arith, if◌then◌else◌, inl, inr, nat_eq, none, refl, some, ℕ,
  ◌++◌, ◌==◌, ◌∙◌, ◌∷◌, ◌≡◌, ◌⊎◌,
}

-- `%` matches any run of characters; all else stands for one character: any, or a given one.
pub data Element : Type 0 where
  run : Element
  single : Option ℕ → Element

-- A rune of the pattern that is neither `%` nor an escape.
abbrev pub plain : ℕ → Element
plain x = single (if x == 95 then none else some x)

-- `\` takes the rune that follows it literally; at the end of the pattern it stands for itself.
unfoldable pub elements : List ℕ → List Element
elements [] = []
elements (x ∷ []) = (if x == 37 then run else plain x) ∷ []
elements (x ∷ y ∷ p) =
    let onward = elements (y ∷ p) in
    let behind = elements p in
    if x == 37 then run ∷ onward else if x == 92 then single (some y) ∷ behind else plain x ∷ onward

abbrev pub Admits : Option ℕ → ℕ → Type 0
Admits none c = Unit
Admits (some x) c = c ≡ x

-- The name is cut into pieces, one for each element.
abbrev pub Like : List Element → List ℕ → Type 0
Like [] name = name ≡ []
Like (run ∷ es) name = (front rest : List ℕ) × (name ≡ front ++ rest) × Like es rest
Like (single t ∷ es) name =
    (c : ℕ) × (rest : List ℕ) × (name ≡ c ∷ rest) × Admits t c × Like es rest

cons_inv : {a b : ℕ} {s t : List ℕ} → a ∷ s ≡ b ∷ t → (a ≡ b) × (s ≡ t)
cons_inv h = ground arith

module _ (es : List Element) where
  pub run-zero : (s : List ℕ) → Like es s → Like (run ∷ es) s
  run-zero s h = ([], s, refl, h)

  pub run-more : (c : ℕ) (s : List ℕ) → Like (run ∷ es) s → Like (run ∷ es) (c ∷ s)
  run-more c s (front, rest, e, h) = (c ∷ front, rest, ap (λ t. c ∷ t) e, h)

  pub run-cons :
      (c : ℕ) (s : List ℕ) → Like (run ∷ es) (c ∷ s) → Like es (c ∷ s) ⊎ Like (run ∷ es) s
  run-cons c s ([], rest, e, h) = inl (rw e h)
  run-cons c s (d ∷ front, rest, e, h) = inr (front, rest, (cons_inv e).1, h)

  pub run-nil : Like (run ∷ es) [] → Like es []
  run-nil ([], rest, e, h) = rw e h
  run-nil (d ∷ front, rest, e, h) = absurd (ground arith)

  pub run-run : (s : List ℕ) → Like (run ∷ run ∷ es) s → Like (run ∷ es) s
  run-run s (front, rest, e, (front', rest', e', h)) =
      (front ++ front', rest', rw (append_assoc front front' rest', ← e') e, h)

  -- Why falling back to the last `%` loses nothing: one character more goes to the `%`.
  pub run-single :
      (t : Option ℕ) (c : ℕ) (s : List ℕ) → Like (run ∷ single t ∷ es) (c ∷ s) → Like (run ∷ es) s
  run-single t c s ([], _, e, (d, rest, f, _, h)) = ([], rest, (cons_inv (e ∙ f)).1, h)
  run-single t c s (b ∷ front, _, e, (d, rest, f, _, h)) =
      (front ++ d ∷ [], rest, rw (append_assoc front (d ∷ []) rest, ← f) (cons_inv e).1, h)

  pub single_inv :
      (t : Option ℕ) (c : ℕ) (s : List ℕ) → Like (single t ∷ es) (c ∷ s) → Admits t c × Like es s
  single_inv t c s (d, rest, e, a, h) = let (head, tail) = cons_inv e in (rw head a, rw tail h)

  pub not-single-nil : (t : Option ℕ) → ¬ Like (single t ∷ es) []
  not-single-nil t (d, rest, e, a, h) = ground arith
