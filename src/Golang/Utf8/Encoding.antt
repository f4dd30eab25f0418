-- ===== src/Golang/Utf8/Encoding.antt =====
-- The encoding side of UTF-8, by which the decoder is specified.
use dbsgomysql.Prelude.{
  List, Str, [], if◌then◌else◌, ltb, ℕ, ◌%◌, ◌++◌, ◌+◌, ◌/◌, ◌<◌, ◌∷◌, ◌≤◌, ◌⊎◌,
}

-- A Unicode scalar value: a code point that is no surrogate.
abbrev pub IsScalar : ℕ → Type 0
IsScalar r = (r < 55296) ⊎ ((57344 ≤ r) × (r ≤ 1114111))

abbrev pub encode : ℕ → Str
encode r =
    if ltb r 128
    then r ∷ []
    else if ltb r 2048
    then (192 + r / 64) ∷ (128 + r % 64) ∷ []
    else if ltb r 65536
    then (224 + r / 4096) ∷ (128 + r / 64 % 64) ∷ (128 + r % 64) ∷ []
    else (240 + r / 262144) ∷ (128 + r / 4096 % 64) ∷ (128 + r / 64 % 64) ∷ (128 + r % 64) ∷ []

abbrev pub encode_all : List ℕ → Str
encode_all [] = []
encode_all (r ∷ rs) = encode r ++ encode_all rs
