-- ===== src/Sqlutil/Quoting.antt =====
-- Quoted identifiers against MySQL's rule for reading them: between backticks, where two backticks
-- in a row stand for one.
use dbsgomysql.Prelude.{
  Bool, List, Option, Str, [], ap, append-nil, append_assoc, arith, false, if◌then◌else◌, length,
  nat_eq, none, read, refl, some, suc, true, zero, ℕ, ◌++◌, ◌==◌, ◌∷◌, ◌≡◌, ◌≢◌, ◌≤◌,
}
use mathlib.Core.Option
use dbsgomysql.Golang.Strings.{replace_byte}
use dbsgomysql.Sqlutil.{backtick, full_stop, quote_identifier, quote_qualified}

abbrev prepend : ℕ → Option (Str × Str) → Option (Str × Str)
prepend c none = none
prepend c (some (name, rest)) = some (c ∷ name, rest)

-- Reads behind the opening backtick: the name, and the text behind the closing backtick. The flag
-- says that the byte before was a backtick that may close the name; `none` is a name not closed.
unfoldable pub read_quoted : Bool → Str → Option (Str × Str)
read_quoted false [] = none
read_quoted true [] = some ([], [])
read_quoted false (c ∷ s) =
    let closing = read_quoted true s in
    let onward = prepend c (read_quoted false s) in if c == backtick then closing else onward
read_quoted true (c ∷ s) =
    let doubled = prepend c (read_quoted false s) in
    if c == backtick then doubled else some ([], c ∷ s)

-- After a name: the end, or a full stop and a further reference.
following : (Str → Option (List Str)) → Option (Str × Str) → Option (List Str)
following next none = none
following next (some (name, [])) = some (name ∷ [])
following next (some (name, _ ∷ [])) = none
following next (some (name, d ∷ e ∷ rest)) =
    if d == full_stop then Option.map (λ names. name ∷ names) (next (e ∷ rest)) else none

-- Reads identifiers joined by full stops; each is quoted. The fuel bounds their number.
unfoldable pub read_qualified : ℕ → Str → Option (List Str)
unfolding following
read_qualified fuel [] = some []
read_qualified zero (c ∷ s) = none
read_qualified (suc fuel) (c ∷ s) =
    if c == backtick then following (read_qualified fuel) (read_quoted false s) else none

-- The text does not begin with a backtick.
abbrev pub IsSeparated : Str → Type 0
IsSeparated [] = Unit
IsSeparated (c ∷ s) = c ≢ backtick

read_quoted-closed : (rest : Str) → IsSeparated rest → read_quoted true rest ≡ some ([], rest)
unfolding read_quoted
read_quoted-closed [] h = refl
read_quoted-closed (c ∷ rest) h = ground arith

read_quoted-body :
    (name rest : Str)
    → IsSeparated rest
    → read_quoted false (replace_byte backtick (backtick ∷ backtick ∷ []) name ++ backtick ∷ rest)
      ≡ some (name, rest)
unfolding read_quoted replace_byte
read_quoted-body [] rest h = read_quoted-closed rest h
read_quoted-body (c ∷ name) rest h = ground (arith, read_quoted-body name rest h)

-- A quoted name is read back as the name, whatever its bytes, and the reading stops at the closing
-- backtick, if the text that follows does not begin with a backtick.
read_quoted-quote_identifier :
    (name rest : Str)
    → IsSeparated rest
    → (body : Str) × (quote_identifier name ++ rest ≡ backtick ∷ body)
      × (read_quoted false body ≡ some (name, rest))
unfolding quote_identifier
read_quoted-quote_identifier name rest h =
    let escaped = replace_byte backtick (backtick ∷ backtick ∷ []) name in
    (
      escaped ++ backtick ∷ rest,
      ap (λ t. backtick ∷ t) (append_assoc escaped (backtick ∷ []) rest),
      read_quoted-body name rest h,
    )

-- The text of a reference that has a first part: a backtick, and no end behind it.
read_next :
    (name e : Str) (fuel : ℕ) (d : ℕ) (rest : Str) {names : List Str}
    → e ≡ d ∷ rest
    → read_qualified fuel e ≡ some names
    → read_qualified (suc fuel) (quote_identifier name ++ full_stop ∷ e) ≡ some (name ∷ names)
unfolding read_qualified
read_next name e fuel d rest p h =
    let (body, split, read) = read_quoted-quote_identifier name (full_stop ∷ e) (omega arith) in
    rw split (rw read (ground arith))

read_last :
    (name : Str) (fuel : ℕ) → read_qualified (suc fuel) (quote_identifier name) ≡ some (name ∷ [])
unfolding read_qualified
read_last name fuel =
    let (body, split, read) = read_quoted-quote_identifier name [] tt in
    rw (← append-nil (quote_identifier name)) (rw split (rw read))

quote_qualified-cons :
    (name next : Str) (parts : List Str)
    → quote_qualified (name ∷ next ∷ parts)
      ≡ quote_identifier name ++ full_stop ∷ quote_qualified (next ∷ parts)
unfolding quote_qualified
quote_qualified-cons name next parts = simp (append_assoc)

quote_qualified-head :
    (name : Str) (parts : List Str)
    → (rest : Str) × (quote_qualified (name ∷ parts) ≡ backtick ∷ rest)
unfolding quote_qualified
quote_qualified-head name [] = (_, refl)
quote_qualified-head name (next ∷ parts) = (_, refl)

-- Reading a qualified reference gives back exactly its parts, however many there are and whatever
-- bytes they hold; so two different lists of parts never have one quoted text.
pub read_qualified-quote_qualified :
    (parts : List Str) (fuel : ℕ)
    → length parts ≤ fuel
    → read_qualified fuel (quote_qualified parts) ≡ some parts
read_qualified-quote_qualified [] zero h = unfold read_qualified quote_qualified in refl
read_qualified-quote_qualified [] (suc fuel) h = unfold read_qualified quote_qualified in refl
read_qualified-quote_qualified (name ∷ []) zero h = elim h [ ]
read_qualified-quote_qualified (name ∷ []) (suc fuel) h =
    unfold quote_qualified in read_last name fuel
read_qualified-quote_qualified (name ∷ next ∷ parts) zero h = elim h [ ]
read_qualified-quote_qualified (name ∷ next ∷ parts) (suc fuel) h =
    let (rest, head) = quote_qualified-head next parts in
    rw quote_qualified-cons (
      read_next name _ fuel backtick rest head
        (read_qualified-quote_qualified (next ∷ parts) fuel (omega arith)))
