-- ===== src/Golang/Utf8/Laws.antt =====
-- The decoder against the encoding: what is encoded is decoded, and a valid string is the encoding
-- of its runes.
use dbsgomysql.Prelude.{
  All, List, Str, [], ap, arith, drop, false, length, refl, suc, true, zero, ℕ, ◌++◌, ◌-◌, ◌<◌, ◌∙◌,
  ◌∷◌, ◌≡◌, ◌≤◌,
}
use dbsgomysql.Golang.Utf8.Encoding.{IsScalar, encode, encode_all}
use dbsgomysql.Golang.Utf8.{
  Decoded, lead_byte, two_bytes, three_bytes, four_bytes, decode_rune, runes_after, valid_after,
  runes, valid_string, is_invalid,
}

decode-encode :
    (r : ℕ) (s : Str) → IsScalar r → decode_rune (encode r ++ s) ≡ (r, length (encode r))
unfolding decode_rune
decode-encode r s h = ground arith

runes-encode : (r : ℕ) (s : Str) → IsScalar r → runes_after 0 (encode r ++ s) ≡ r ∷ runes_after 0 s
unfolding runes_after
runes-encode r s h = ground (arith, decode-encode r s)

valid-encode : (r : ℕ) (s : Str) → IsScalar r → valid_after 0 (encode r ++ s) ≡ valid_after 0 s
unfolding valid_after
valid-encode r s h = ground (arith, decode-encode r s)

pub runes-encode_all : (rs : List ℕ) → All IsScalar rs → runes (encode_all rs) ≡ rs
unfolding runes
runes-encode_all [] h = refl
runes-encode_all (r ∷ rs) (h, hs) =
    runes-encode r (encode_all rs) h ∙ ap (λ t. r ∷ t) (runes-encode_all rs hs)

pub valid-encode_all : (rs : List ℕ) → All IsScalar rs → valid_string (encode_all rs) ≡ true
unfolding valid_string
valid-encode_all [] h = refl
valid-encode_all (r ∷ rs) (h, hs) = valid-encode r (encode_all rs) h ∙ valid-encode_all rs hs

-- What `d` decoded at the front of `s` is a scalar whose encoding stands there.
abbrev Encodes : Str → Decoded → Type 0
Encodes s d = is_invalid d ≡ false → IsScalar d.0 × (encode d.0 ++ drop d.1 s ≡ s) × (0 < d.1)

two_bytes-Encodes : (b : ℕ) (s : Str) → 194 ≤ b → b < 224 → Encodes (b ∷ s) (two_bytes b s)
unfolding two_bytes
two_bytes-Encodes b [] l u h = ground arith
two_bytes-Encodes b (b1 ∷ s) l u h = ground arith

three_bytes-Encodes :
    (lo hi b : ℕ) (s : Str)
    → 224 ≤ b
    → b < 240
    → 128 ≤ lo
    → hi ≤ 191
    → (b ≡ 224 → 160 ≤ lo)
    → (b ≡ 237 → hi ≤ 159)
    → Encodes (b ∷ s) (three_bytes lo hi b s)
unfolding three_bytes
three_bytes-Encodes lo hi b [] l u hl hh e f h = ground arith
three_bytes-Encodes lo hi b (b1 ∷ []) l u hl hh e f h = ground arith
three_bytes-Encodes lo hi b (b1 ∷ b2 ∷ s) l u hl hh e f h = ground arith

four_bytes-Encodes :
    (lo hi b : ℕ) (s : Str)
    → 240 ≤ b
    → b < 245
    → 128 ≤ lo
    → hi ≤ 191
    → (b ≡ 240 → 144 ≤ lo)
    → (b ≡ 244 → hi ≤ 143)
    → Encodes (b ∷ s) (four_bytes lo hi b s)
unfolding four_bytes
four_bytes-Encodes lo hi b [] l u hl hh e f h = ground arith
four_bytes-Encodes lo hi b (b1 ∷ []) l u hl hh e f h = ground arith
four_bytes-Encodes lo hi b (b1 ∷ b2 ∷ []) l u hl hh e f h = ground arith
four_bytes-Encodes lo hi b (b1 ∷ b2 ∷ b3 ∷ s) l u hl hh e f h = ground arith

lead_byte-Encodes : (b : ℕ) (s : Str) → Encodes (b ∷ s) (lead_byte b s)
unfolding lead_byte
lead_byte-Encodes b s h = ground (
  arith,
  two_bytes-Encodes b s,
  three_bytes-Encodes 160 191 b s,
  three_bytes-Encodes 128 159 b s,
  three_bytes-Encodes 128 191 b s,
  four_bytes-Encodes 144 191 b s,
  four_bytes-Encodes 128 191 b s,
  four_bytes-Encodes 128 143 b s,
)

encode-decode : (b : ℕ) (s : Str) → Encodes (b ∷ s) (decode_rune (b ∷ s))
unfolding decode_rune
encode-decode b s = lead_byte-Encodes b s

drop-pred : (n b : ℕ) (s : Str) → 0 < n → drop n (b ∷ s) ≡ drop (n - 1) s
drop-pred zero b s h = absurd (omega arith)
drop-pred (suc n) b s h = ap (λ m. drop m s) (omega arith)

encode_all-runes_after :
    (k : ℕ) (s : Str)
    → valid_after k s ≡ true
    → All IsScalar (runes_after k s) × (encode_all (runes_after k s) ≡ drop k s)
unfolding runes_after valid_after
encode_all-runes_after zero [] h = (tt, refl)
encode_all-runes_after (suc k) [] h = (tt, refl)
encode_all-runes_after (suc k) (b ∷ s) h = encode_all-runes_after k s h
encode_all-runes_after zero (b ∷ s) h = ground (
  arith,
  encode-decode b s,
  encode_all-runes_after ((decode_rune (b ∷ s)).1 - 1) s,
  drop-pred (decode_rune (b ∷ s)).1 b s,
)

-- A valid string is the encoding of its runes, which are scalars.
pub encode_all-runes :
    (s : Str) → valid_string s ≡ true → All IsScalar (runes s) × (encode_all (runes s) ≡ s)
unfolding valid_string runes
encode_all-runes s h = encode_all-runes_after 0 s h
