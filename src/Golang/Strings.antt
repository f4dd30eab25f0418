-- ===== src/Golang/Strings.antt =====
-- strings: the functions that the modelled code calls on bytes.
pub mod Sorting
use dbsgomysql.Prelude.{
  Bool, List, Option, Str, [], any, false, if◌then◌else◌, ltb, nat_beq, none, some, true, ℕ, ◌&&◌,
  ◌++◌, ◌∷◌,
}

-- strings.ReplaceAll(s, old, new) for an `old` of one byte.
unfoldable pub replace_byte : ℕ → Str → Str → Str
replace_byte old new [] = []
replace_byte old new (c ∷ s) =
    let rest = replace_byte old new s in if nat_beq c old then new ++ rest else c ∷ rest

-- strings.Join
unfoldable pub join : Str → List Str → Str
join sep [] = []
join sep (s ∷ []) = s
join sep (s ∷ t ∷ rest) = s ++ sep ++ join sep (t ∷ rest)

-- strings.IndexByte(s, c) >= 0
unfoldable pub contains_byte : ℕ → Str → Bool
contains_byte c s = any (λ b. nat_beq b c) s

-- The texts before and behind the last byte `c` of `s`, as strings.LastIndexByte cuts it.
unfoldable pub last_index_byte : ℕ → Str → Option (Str × Str)
last_index_byte c [] = none
last_index_byte c (b ∷ s) = elim (last_index_byte c s) [
  | some (front, back) ↦ some (b ∷ front, back)
  | none ↦ if nat_beq b c then some ([], s) else none
]

abbrev pub in_front : ℕ → Option (Str × Str) → Option (Str × Str)
in_front b none = none
in_front b (some (front, back)) = some (b ∷ front, back)

-- The texts before and behind the first byte `c` of `s`, as strings.IndexByte cuts it.
unfoldable pub cut_byte : ℕ → Str → Option (Str × Str)
cut_byte c [] = none
cut_byte c (b ∷ s) =
    let later = in_front b (cut_byte c s) in if nat_beq b c then some ([], s) else later

-- strings.HasPrefix, the prefix first.
unfoldable pub has_prefix : Str → Str → Bool
has_prefix [] s = true
has_prefix (p ∷ prefix) [] = false
has_prefix (p ∷ prefix) (c ∷ s) = nat_beq p c && has_prefix prefix s

-- s < t
unfoldable pub str_lt : Str → Str → Bool
str_lt s [] = false
str_lt [] (d ∷ t) = true
str_lt (c ∷ s) (d ∷ t) =
    let onward = str_lt s t in if ltb c d then true else if nat_beq c d then onward else false

-- sort.Strings, as insertion into a sorted list.
insert_str : Str → List Str → List Str
insert_str s [] = s ∷ []
insert_str s (t ∷ ts) = let later = insert_str s ts in if str_lt t s then t ∷ later else s ∷ t ∷ ts

unfoldable pub sort_strings : List Str → List Str
unfolding insert_str str_lt
sort_strings [] = []
sort_strings (s ∷ ss) = insert_str s (sort_strings ss)
