-- ===== src/Validations/Grants/Like.antt =====
-- `likePatternMatches` of pkg/validations/grants.go. The indices `patternIndex` and `nameIndex` are
-- the suffixes that begin there; `star` and `starNext` are one optional pair of suffixes, where
-- `star` stands for the pattern behind the wildcard.
pub mod Spec
pub mod Rounds
pub mod Loop
use dbsgomysql.Prelude.{
  Bool, List, Option, Str, [], false, if◌then◌else◌, length, nat_eq, none, some, suc, true, zero, ℕ,
  ◌&&◌, ◌*◌, ◌+◌, ◌==◌, ◌||◌, ◌∷◌,
}
use dbsgomysql.Golang.Utf8.{runes}

abbrev pub percent : ℕ
percent = 37

abbrev pub underscore : ℕ
underscore = 95

abbrev pub backslash : ℕ
backslash = 92

-- The runes behind the last wildcard, and the runes of the name from which it was last tried.
abbrev pub Star : Type 0
Star = Option (List ℕ × List ℕ)

-- What one round of the loop does: go on with new suffixes, or fall back to the last wildcard.
pub data Round : Type 0 where
  matched : List ℕ → List ℕ → Round
  wildcard : List ℕ → Round
  mismatch : Round

-- The `switch` on the current rune of the pattern, where the name goes on with `c`.
pub round : List ℕ → ℕ → List ℕ → Round
round [] c name = mismatch
round (current ∷ []) c name =
    if current == percent
    then wildcard []
    else if current == underscore || current == c
    then matched [] name
    else mismatch
round (current ∷ next ∷ pattern) c name =
    if current == percent
    then wildcard (next ∷ pattern)
    else if current == backslash
    then (if next == c then matched pattern name else mismatch)
    else if current == underscore || current == c
    then matched (next ∷ pattern) name
    else mismatch

-- The loop behind the first: what is left of the pattern is wildcards only.
pub only_percent : List ℕ → Bool
only_percent [] = true
only_percent (current ∷ pattern) = current == percent && only_percent pattern

-- The next rounds, from suffixes of the pattern and the name; `none` means out of fuel.
abbrev pub Onward : Type 0
Onward = List ℕ → List ℕ → Star → Option Bool

-- `nameIndex` never passes the end, so `starNext` is a rune of the name: the third case is not met.
fall_back : Onward → Star → Option Bool
fall_back onward none = some false
fall_back onward (some (after, d ∷ tried)) = onward after tried (some (after, tried))
fall_back onward (some (after, [])) = some false

-- The rest of the loop's body; `name` is the name from the current rune on.
next_round : Onward → Round → List ℕ → Star → Option Bool
next_round onward (matched pattern' name') name star = onward pattern' name' star
next_round onward (wildcard pattern') name star = onward pattern' name (some (pattern', name))
next_round onward mismatch name star = fall_back onward star

-- The main loop on fuel.
like_loop : ℕ → Onward
like_loop zero pattern name star = none
like_loop (suc fuel) pattern [] star = some (only_percent pattern)
like_loop (suc fuel) pattern (c ∷ name) star =
    next_round (like_loop fuel) (round pattern c name) (c ∷ name) star

-- More than the number of rounds that the loop makes.
abbrev pub like_fuel : List ℕ → List ℕ → ℕ
like_fuel pattern name = (length name + 1) * (length pattern + 1) + 1

unfoldable pub like_runes : List ℕ → List ℕ → Option Bool
unfolding like_loop next_round fall_back round only_percent
like_runes pattern name = like_loop (like_fuel pattern name) pattern name none

-- The answer of the loop; `Loop` shows that the fuel is never spent.
unfoldable pub like_pattern_matches : Str → Str → Bool
unfolding like_runes
like_pattern_matches pattern name = elim (like_runes (runes pattern) (runes name)) [
  | some answer ↦ answer
  | none ↦ false
]
