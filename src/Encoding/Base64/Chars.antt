-- ===== src/Encoding/Base64/Chars.antt =====
-- The branch-free digits of Base64 against the alphabet of RFC 4648.
use router1_app.Prelude.{
  ℕ, ◌+◌, ◌-◌, ◌<◌, ◌≡◌, refl, ◌⊎◌, Bool, true, ◌&&◌, ◌||◌, arith, ltb, ◌==◌, if◌then◌else◌, ==_iff,
  minus_one,
}
use router1_app.Prelude.Bits.{all_below, all_below-elim}
use router1_app.Encoding.Base64.{encode_char, decode_char}

abbrev pub alphabet_char : ℕ → ℕ
alphabet_char v =
    if ltb v 26
    then v + b'A'
    else if ltb v 52
    then v - 26 + b'a'
    else if ltb v 62
    then v - 52 + b'0'
    else if v == 62
    then b'+'
    else b'/'

encode_table : all_below 64 (λ v. encode_char v == alphabet_char v) ≡ true
unfolding all_below encode_char
encode_table = refl

-- What a decoded character is: -1, or six bits whose character it is.
abbrev is_inverse : ℕ → Bool
is_inverse c =
    decode_char c == minus_one || (ltb (decode_char c) 64 && encode_char (decode_char c) == c)

decode_table : all_below 256 is_inverse ≡ true
unfolding all_below decode_char encode_char
decode_table = refl

decode_encode_table :
    all_below 64 (λ v. decode_char (encode_char v) == v && ltb (encode_char v) 256) ≡ true
unfolding all_below decode_char encode_char
decode_encode_table = refl

-- The character of six bits is that of RFC 4648.
pub encode_char_lem : (v : ℕ) → v < 64 → encode_char v ≡ alphabet_char v
encode_char_lem v h = (==_iff _ _).0 (all_below-elim 64 _ v encode_table h)

pub decode-encode_char : (v : ℕ) → v < 64 → decode_char (encode_char v) ≡ v
decode-encode_char v h = ground (arith, all_below-elim 64 _ v decode_encode_table h)

pub encode_char-lt : (v : ℕ) → v < 64 → encode_char v < 256
encode_char-lt v h = ground (arith, all_below-elim 64 _ v decode_encode_table h)

-- Every byte is a digit of the alphabet, or decodes to -1.
pub decode_char_cases :
    (c : ℕ)
    → c < 256
    → (decode_char c ≡ minus_one) ⊎ ((decode_char c < 64) × (encode_char (decode_char c) ≡ c))
decode_char_cases c h = ground (arith, all_below-elim 256 is_inverse c decode_table h)
