-- ===== src/Encoding/Hex.antt =====
-- `key_to_hex` and `key_from_hex` of encoding.c. The operands are unsigned ints, and what is stored
-- into a uint8_t or a char keeps the lowest eight bits.
pub mod Chars
pub mod RoundTrip
use router1_app.Prelude.{
  ℕ, ◌+◌, ◌-◌, ◌*◌, ◌/◌, ◌%◌, ◌^◌, bit_and, bit_or, bit_xor, Bool, false, not, List, [], ◌∷◌, ◌==◌,
  if◌then◌else◌, add32, sub32, sar8, length,
}
use router1_app.Encoding.Flags.{wg_key_len, or8, is_clear}

-- WG_KEY_LEN_HEX.
abbrev pub wg_key_len_hex : ℕ
wg_key_len_hex = wg_key_len * 2 + 1

-- The character of four bits; ~38U is 2 ^ 32 - 39.
unfoldable pub hex_char : ℕ → ℕ
hex_char v = add32 (add32 87 v) (bit_and (sub32 v 10 / 2 ^ 8) (2 ^ 32 - 39)) % 256

-- The loop of `key_to_hex`, over the bytes of the key. The NUL behind it ends the list.
unfoldable pub key_to_hex : List ℕ → List ℕ
unfolding hex_char
key_to_hex [] = []
key_to_hex (b ∷ key) = hex_char (b / 2 ^ 4) ∷ hex_char (bit_and b 0xf) ∷ key_to_hex key

-- What the loop body of `key_from_hex` computes of one character: the flag that it adds to `ret`,
-- and `c_val`. ~32U is 2 ^ 32 - 33.
pub record Nibble : Type 0 where
  pub flag : ℕ
  pub val : ℕ

unfoldable pub hex_digit : ℕ → Nibble
hex_digit c =
    let c_num = bit_xor c 48 % 256 in
    let c_num0 = sub32 c_num 10 / 2 ^ 8 % 256 in
    let c_alpha = sub32 (bit_and c (2 ^ 32 - 33)) 55 % 256 in
    let c_alpha0 = bit_xor (sub32 c_alpha 10) (sub32 c_alpha 16) / 2 ^ 8 % 256 in
    record {
      flag = sar8 (sub32 (bit_or c_num0 c_alpha0) 1) % 256;
      val = bit_or (bit_and c_num0 c_num) (bit_and c_alpha0 c_alpha) % 256;
    }

-- The bytes that the loop has written, and the flags.
pub record HexDecoded : Type 0 where
  pub ret : ℕ
  pub bytes : List ℕ

-- The loop of `key_from_hex`, two characters a round, over the text that is left.
unfoldable pub decode_pairs : List ℕ → ℕ → HexDecoded
decode_pairs (h ∷ l ∷ text) ret =
    let hi = hex_digit h in
    let lo = hex_digit l in
    let c_acc = hi.val * 16 % 256 in
    let later = decode_pairs text (or8 (or8 ret hi.flag) lo.flag) in
    record { ret = later.ret; bytes = bit_or c_acc lo.val ∷ later.bytes }
decode_pairs text ret = record { ret = ret; bytes = [] }

-- The answer, and the key array afterwards.
unfoldable pub key_from_hex : List ℕ → List ℕ → Bool × List ℕ
unfolding decode_pairs hex_digit
key_from_hex key hex =
    if not (length hex == wg_key_len_hex - 1)
    then (false, key)
    else let d = decode_pairs hex 0 in (is_clear d.ret, d.bytes)
