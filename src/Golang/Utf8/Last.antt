-- ===== src/Golang/Utf8/Last.antt =====
-- The last rune of a string that ends in an encoded scalar, as far as ASCII is concerned.
use dbsgomysql.Prelude.{Str, [], arith, suc, zero, ℕ, ◌<◌, ◌∷◌, ◌≡◌, ◌≤◌}
use dbsgomysql.Golang.Utf8.{Decoded, decode_rune, last_start, decode_last_rev}

-- A rune that takes more than one byte is no ASCII character.
abbrev IsWide : Decoded → Type 0
IsWide d = 1 < d.1 → 128 ≤ d.0

decode_rune-IsWide : (b : ℕ) (s : Str) → IsWide (decode_rune (b ∷ s))
unfolding decode_rune
decode_rune-IsWide b [] = ground arith
decode_rune-IsWide b (b1 ∷ []) = ground arith
decode_rune-IsWide b (b1 ∷ b2 ∷ []) = ground arith
decode_rune-IsWide b (b1 ∷ b2 ∷ b3 ∷ s) = ground arith

last_start-ge : (n : ℕ) (c : ℕ) (ending before : Str) → 128 ≤ last_start n (c ∷ ending) before
unfolding last_start
last_start-ge zero c ending before = omega arith
last_start-ge (suc n) c ending [] = omega arith
last_start-ge (suc n) c ending (b ∷ before) =
    ground (arith, decode_rune-IsWide b (c ∷ ending), last_start-ge n b (c ∷ ending) before)

-- The last byte tells whether the last rune is an ASCII character, and which.
pub decode_last_rev-ascii :
    (b : ℕ) (before : Str)
    → (b < 128 → decode_last_rev (b ∷ before) ≡ b) × (128 ≤ b → 128 ≤ decode_last_rev (b ∷ before))
unfolding decode_last_rev
decode_last_rev-ascii b before = ground (arith, last_start-ge 3 b [] before)
