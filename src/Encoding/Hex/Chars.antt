-- ===== src/Encoding/Hex/Chars.antt =====
-- The branch-free hexadecimal digits against their plain definition.
use router1_app.Prelude.{
  ℕ, ◌+◌, ◌<◌, ◌≡◌, refl, Bool, true, false, ◌&&◌, ◌||◌, arith, ltb, leb, ◌==◌, if◌then◌else◌,
}
use router1_app.Prelude.Bits.{all_below, all_below-elim}
use router1_app.Encoding.Hex.{hex_char, hex_digit}

abbrev pub is_hex : ℕ → Bool
is_hex c = (leb b'0' c && leb c b'9') || (leb b'a' c && leb c b'f') || (leb b'A' c && leb c b'F')

abbrev pub lower_hex : ℕ → ℕ
lower_hex c = if leb b'A' c && leb c b'F' then c + 32 else c

encode_table :
    all_below 16
      (λ v. is_hex (hex_char v) && (hex_digit (hex_char v)).val == v && ltb (hex_char v) 256)
    ≡ true
unfolding all_below hex_char hex_digit
encode_table = refl

digit_table :
    all_below 256 (λ c.
      if is_hex c
      then (hex_digit c).flag == 0
        && ltb (hex_digit c).val 16
        && hex_char (hex_digit c).val == lower_hex c
      else (hex_digit c).flag == 255)
    ≡ true
unfolding all_below hex_char hex_digit
digit_table = refl

pub hex_char_lem :
    (v : ℕ)
    → v < 16
    → (is_hex (hex_char v) ≡ true) × ((hex_digit (hex_char v)).val ≡ v) × (hex_char v < 256)
hex_char_lem v h = ground (arith, all_below-elim 16 _ v encode_table h)

-- A hexadecimal digit sets no flag, and its value has the digit for its character, in lower case.
pub hex_digit_lem :
    (c : ℕ)
    → c < 256
    → is_hex c ≡ true
    → ((hex_digit c).flag ≡ 0)
      × ((hex_digit c).val < 16)
      × (hex_char (hex_digit c).val ≡ lower_hex c)
hex_digit_lem c h d = ground (arith, all_below-elim 256 _ c digit_table h)

-- Any other character sets all flags.
pub hex_digit_other : (c : ℕ) → c < 256 → is_hex c ≡ false → (hex_digit c).flag ≡ 255
hex_digit_other c h d = ground (arith, all_below-elim 256 _ c digit_table h)
