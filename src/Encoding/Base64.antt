-- ===== src/Encoding/Base64.antt =====
-- `key_to_base64` and `key_from_base64` of encoding.c. The loops advance by pointers into the two
-- arrays, `&key[i * 3]` and `&base64[i * 4]`; here a pointer is the part of the array behind it.
pub mod Chars
pub mod Groups
pub mod Shape
pub mod Accepted
pub mod RoundTrip
use router1_app.Prelude.{
  ℕ, zero, suc, ◌+◌, ◌-◌, ◌*◌, ◌/◌, ◌%◌, ◌^◌, bit_and, bit_or, Bool, false, not, ◌||◌, List, [],
  ◌∷◌, ◌++◌, ◌==◌, if◌then◌else◌, add32, sub32, shl32, sar8, minus_one, truthy, length, get_or, set,
}
use router1_app.Encoding.Flags.{wg_key_len, or8, is_clear}

-- WG_KEY_LEN_BASE64.
abbrev pub wg_key_len_base64 : ℕ
wg_key_len_base64 = (wg_key_len + 2) / 3 * 4 + 1

-- The character that stands for six bits: `dest[i]`, without a branch. The sums are ints.
unfoldable pub encode_char : ℕ → ℕ
encode_char v =
    let s = add32 v b'A' in
    let s = add32 s (bit_and (sar8 (sub32 25 v)) 6) in
    let s = sub32 s (bit_and (sar8 (sub32 51 v)) 75) in
    let s = sub32 s (bit_and (sar8 (sub32 61 v)) 15) in
    add32 s (bit_and (sar8 (sub32 62 v)) 3) % 256

unfoldable pub encode_base64 : ℕ → ℕ → ℕ → List ℕ
encode_base64 a b c =
    encode_char (bit_and (a / 2 ^ 2) 63)
    ∷ encode_char (bit_and (bit_or (a * 2 ^ 4) (b / 2 ^ 4)) 63)
    ∷ encode_char (bit_and (bit_or (b * 2 ^ 2) (c / 2 ^ 6)) 63)
    ∷ encode_char (bit_and c 63)
    ∷ []

-- The groups of three bytes, and then the last two bytes. A key shorter than that is out of bounds.
unfoldable pub encode_groups : ℕ → List ℕ → List ℕ
encode_groups zero (a ∷ b ∷ rest) = encode_base64 a b 0
encode_groups (suc n) (a ∷ b ∷ c ∷ rest) = encode_base64 a b c ++ encode_groups n rest
encode_groups n key = []

-- `base64[WG_KEY_LEN_BASE64 - 2] = '='`. The NUL behind it ends the list.
unfoldable pub key_to_base64 : List ℕ → List ℕ
unfolding encode_groups encode_base64 encode_char
key_to_base64 key = set (encode_groups (wg_key_len / 3) key) (wg_key_len_base64 - 2) b'='

-- One of the five summands: the mask is -1 if the character lies between the two bounds.
abbrev pub in_range : ℕ → ℕ → ℕ → ℕ → ℕ
in_range lo hi c value = bit_and (sar8 (bit_and (sub32 (lo - 1) c) (sub32 c (hi + 1)))) value

-- The six bits that a character stands for, or -1.
unfoldable pub decode_char : ℕ → ℕ
decode_char c =
    let s = add32 minus_one (in_range b'A' b'Z' c (sub32 c 64)) in
    let s = add32 s (in_range b'a' b'z' c (sub32 c 70)) in
    let s = add32 s (in_range b'0' b'9' c (add32 c 5)) in
    let s = add32 s (in_range b'+' b'+' c 63) in add32 s (in_range b'/' b'/' c 64)

unfoldable pub decode_base64 : ℕ → ℕ → ℕ → ℕ → ℕ
decode_base64 a b c d =
    let val = bit_or 0 (shl32 (decode_char a) 18) in
    let val = bit_or val (shl32 (decode_char b) 12) in
    let val = bit_or val (shl32 (decode_char c) 6) in bit_or val (shl32 (decode_char d) 0)

-- The bytes that the loops have written, and the error flags.
pub record Decoded : Type 0 where
  pub ret : ℕ
  pub bytes : List ℕ

unfoldable pub decode_groups : ℕ → List ℕ → ℕ → Decoded
decode_groups zero (a ∷ b ∷ c ∷ rest) ret =
    let val = decode_base64 a b c b'A' in
    record {
      ret = or8 ret (bit_or (val / 2 ^ 31) (bit_and val 0xff));
      bytes = bit_and (val / 2 ^ 16) 0xff ∷ bit_and (val / 2 ^ 8) 0xff ∷ [];
    }
decode_groups (suc n) (a ∷ b ∷ c ∷ d ∷ rest) ret =
    let val = decode_base64 a b c d in
    let later = decode_groups n rest (or8 ret (val / 2 ^ 31)) in
    record {
      ret = later.ret;
      bytes =
          bit_and (val / 2 ^ 16) 0xff ∷ bit_and (val / 2 ^ 8) 0xff ∷ bit_and val 0xff ∷ later.bytes;
    }
decode_groups n text ret = record { ret = ret; bytes = [] }

-- The answer, and the key array afterwards: a refusal for the length leaves it as it was, a
-- refusal for a character does not. The `if` reads base64[43] only where the length is 44.
unfoldable pub key_from_base64 : List ℕ → List ℕ → Bool × List ℕ
unfolding decode_groups decode_base64 decode_char
key_from_base64 key base64 =
    if not (length base64 == wg_key_len_base64 - 1)
      || not (get_or base64 (wg_key_len_base64 - 2) 0 == b'=')
    then (false, key)
    else let d = decode_groups (wg_key_len / 3) base64 0 in (is_clear d.ret, d.bytes)
