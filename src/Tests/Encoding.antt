-- ===== src/Tests/Encoding.antt =====
-- The encodings and character tests at concrete inputs.
use router1_app.Prelude.{◌-◌, ◌^◌, ◌≡◌, refl, ◌↔◌, true, ◌&&◌, map, arith, ◌==◌, length, All}
use router1_app.Ctype.{char_is_space, char_is_digit, char_is_alpha}
use router1_app.Ctype.Spec.{is_space, is_digit, is_alpha, char_is_digit-eq, ctype_lem}
use router1_app.Encoding.Flags.{IsKey}
use router1_app.Encoding.Base64.{encode_char, key_to_base64, key_from_base64}
use router1_app.Encoding.Base64.Chars.{alphabet_char, encode_char_lem}
use router1_app.Encoding.Base64.RoundTrip.{
  key_from_base64-key_to_base64, key_to_base64-key_from_base64,
}
use router1_app.Encoding.Hex.{key_to_hex, key_from_hex}
use router1_app.Encoding.Hex.RoundTrip.{
  all_hex, key_from_hex-key_to_hex, key_from_hex_accepts, key_to_hex-key_from_hex,
}
use router1_app.Encoding.Hex.Chars.{lower_hex}
use router1_app.Encoding.Zero.{key_is_zero, key_is_zero_iff}
use router1_app.Containers.{zero_key}
use router1_app.Tests.Setup.{test_key, test_key-IsKey, test_key_base64, test_key_hex}

key_from_base64-key_to_base64_example :
    key_from_base64 zero_key (key_to_base64 test_key) ≡ (true, test_key)
key_from_base64-key_to_base64_example =
    key_from_base64-key_to_base64 zero_key test_key test_key-IsKey

test_key_decoded : key_from_base64 zero_key test_key_base64 ≡ (true, test_key)
unfolding key_from_base64
test_key_decoded = refl

key_to_base64-key_from_base64_example : IsKey test_key × (key_to_base64 test_key ≡ test_key_base64)
key_to_base64-key_from_base64_example =
    key_to_base64-key_from_base64 zero_key test_key_base64 test_key (omega arith) test_key_decoded

key_from_hex-key_to_hex_example : key_from_hex zero_key (key_to_hex test_key) ≡ (true, test_key)
key_from_hex-key_to_hex_example = key_from_hex-key_to_hex zero_key test_key test_key-IsKey

key_from_hex_accepts_example :
    (key_from_hex zero_key test_key_hex).0 ≡ (length test_key_hex == 64 && all_hex test_key_hex)
key_from_hex_accepts_example = key_from_hex_accepts zero_key test_key_hex (omega arith)

test_key_read : (key_from_hex zero_key test_key_hex).0 ≡ true
unfolding key_from_hex
test_key_read = refl

key_to_hex-key_from_hex_example :
    IsKey (key_from_hex zero_key test_key_hex).1
    × (key_to_hex (key_from_hex zero_key test_key_hex).1 ≡ map lower_hex test_key_hex)
key_to_hex-key_from_hex_example =
    key_to_hex-key_from_hex zero_key test_key_hex (omega arith) test_key_read

key_is_zero_iff_example : (key_is_zero test_key ≡ true) ↔ All (λ b. b ≡ 0) test_key
key_is_zero_iff_example = key_is_zero_iff test_key test_key-IsKey.0

ctype_lem_example :
    (char_is_space b'\t' ≡ is_space b'\t')
    × (char_is_alpha b'\t' ≡ is_alpha b'\t')
    × (char_is_digit b'\t' ≡ is_digit b'\t')
ctype_lem_example = ctype_lem b'\t' (omega arith)

minus_one_no_digit : char_is_digit (2 ^ 32 - 1) ≡ is_digit (2 ^ 32 - 1)
minus_one_no_digit = char_is_digit-eq (2 ^ 32 - 1) (omega arith)

last_but_one_char : encode_char 62 ≡ alphabet_char 62
last_but_one_char = encode_char_lem 62 (omega arith)
