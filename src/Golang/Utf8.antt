-- ===== src/Golang/Utf8.antt =====
-- unicode/utf8: decoding a rune at the front and at the end of a string, validity, and the runes
-- that `range` and `[]rune` go through. An invalid byte decodes to `rune_error`, one byte wide.
pub mod Laws
pub mod Last
pub mod Encoding
use dbsgomysql.Prelude.{
  Bool, List, Str, [], if◌then◌else◌, leb, length, ltb, nat_beq, not, suc, true, zero, ℕ, ◌&&◌, ◌*◌,
  ◌+◌, ◌-◌, ◌∷◌,
}

abbrev pub rune_error : ℕ
rune_error = 65533

-- A decoded rune and its width; the width is 0 for the empty string.
abbrev pub Decoded : Type 0
Decoded = ℕ × ℕ

abbrev invalid : Decoded
invalid = (rune_error, 1)

abbrev pub between : ℕ → ℕ → ℕ → Bool
between lo hi b = leb lo b && leb b hi

-- The payload of a continuation byte.
abbrev payload : ℕ → ℕ
payload b = b - 128

two_bytes : ℕ → Str → Decoded
two_bytes b0 [] = invalid
two_bytes b0 (b1 ∷ s) = if between 128 191 b1 then ((b0 - 192) * 64 + payload b1, 2) else invalid

-- `lo` and `hi` bound the second byte: they exclude overlong forms and surrogates.
three_bytes : ℕ → ℕ → ℕ → Str → Decoded
three_bytes lo hi b0 [] = invalid
three_bytes lo hi b0 (b1 ∷ []) = invalid
three_bytes lo hi b0 (b1 ∷ b2 ∷ s) =
    if between lo hi b1 && between 128 191 b2
    then ((b0 - 224) * 4096 + payload b1 * 64 + payload b2, 3)
    else invalid

four_bytes : ℕ → ℕ → ℕ → Str → Decoded
four_bytes lo hi b0 [] = invalid
four_bytes lo hi b0 (b1 ∷ []) = invalid
four_bytes lo hi b0 (b1 ∷ b2 ∷ []) = invalid
four_bytes lo hi b0 (b1 ∷ b2 ∷ b3 ∷ s) =
    if between lo hi b1 && between 128 191 b2 && between 128 191 b3
    then ((b0 - 240) * 262144 + payload b1 * 4096 + payload b2 * 64 + payload b3, 4)
    else invalid

lead_byte : ℕ → Str → Decoded
lead_byte b0 s =
    if ltb b0 128
    then (b0, 1)
    else if ltb b0 194
    then invalid
    else if ltb b0 224
    then two_bytes b0 s
    else if nat_beq b0 224
    then three_bytes 160 191 b0 s
    else if nat_beq b0 237
    then three_bytes 128 159 b0 s
    else if ltb b0 240
    then three_bytes 128 191 b0 s
    else if nat_beq b0 240
    then four_bytes 144 191 b0 s
    else if ltb b0 244
    then four_bytes 128 191 b0 s
    else if nat_beq b0 244
    then four_bytes 128 143 b0 s
    else invalid

-- DecodeRuneInString
unfoldable pub decode_rune : Str → Decoded
unfolding lead_byte two_bytes three_bytes four_bytes
decode_rune [] = (rune_error, 0)
decode_rune (b ∷ s) = lead_byte b s

abbrev pub is_invalid : Decoded → Bool
is_invalid (r, width) = nat_beq r rune_error && nat_beq width 1

-- The runes that `range` and `[]rune` yield. The number counts the bytes of the current rune that
-- are still to be passed over.
unfoldable pub runes_after : ℕ → Str → List ℕ
runes_after k [] = []
runes_after (suc k) (b ∷ s) = runes_after k s
runes_after zero (b ∷ s) = let (r, width) = decode_rune (b ∷ s) in r ∷ runes_after (width - 1) s

unfoldable pub runes : Str → List ℕ
unfolding runes_after
runes s = runes_after 0 s

unfoldable pub valid_after : ℕ → Str → Bool
valid_after k [] = true
valid_after (suc k) (b ∷ s) = valid_after k s
valid_after zero (b ∷ s) =
    let d = decode_rune (b ∷ s) in not (is_invalid d) && valid_after (d.1 - 1) s

-- ValidString
unfoldable pub valid_string : Str → Bool
unfolding valid_after
valid_string s = valid_after 0 s

-- RuneCountInString
unfoldable pub rune_count : Str → ℕ
unfolding runes
rune_count s = length (runes s)

-- A byte that is not a continuation byte starts a rune.
abbrev rune_start : ℕ → Bool
rune_start b = not (between 128 191 b)

-- The search for the start of the last rune, over the bytes in reverse: `n` more bytes are looked
-- at, and `ending` is what stands behind the current byte. The rune must reach the end.
last_start : ℕ → Str → Str → ℕ
last_start zero ending before = rune_error
last_start (suc n) ending [] = rune_error
last_start (suc n) ending (b ∷ before) =
    let (r, width) = decode_rune (b ∷ ending) in
    let earlier = last_start n (b ∷ ending) before in
    if rune_start b then if nat_beq width (length (b ∷ ending)) then r else rune_error else earlier

-- DecodeLastRuneInString, over the bytes in reverse.
unfoldable pub decode_last_rev : Str → ℕ
unfolding last_start
decode_last_rev [] = rune_error
decode_last_rev (b ∷ before) = if ltb b 128 then b else last_start 3 (b ∷ []) before
