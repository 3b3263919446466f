-- ===== src/Encoding/Base64/Groups.antt =====
-- One group of `encode_base64` and `decode_base64`: three bytes as four digits, and back.
use router1_app.Prelude.{
  ℕ, ◌+◌, ◌*◌, ◌/◌, ◌%◌, ◌^◌, ◌<◌, bit_and, bit_or, ◌≡◌, ap, List, [], ◌∷◌, map, arith, shl32, ◌∙◌,
  refl, zero, suc,
}
use Prim.Native.Nat.{max}
use router1_app.Prelude.Bits.{
  bit_or_shift, bit_or-lt, bit_or_disjoint, bit_or_bits, zero-bit_or, bit_and_mask,
}
use router1_app.Encoding.Base64.{encode_char, encode_base64, decode_char, decode_base64}
use router1_app.Encoding.Base64.Chars.{decode_char_cases}

pub byte_mask : (x : ℕ) → bit_and x 0xff ≡ x % 256
byte_mask x = bit_and_mask 8 x

digit_mask : (x : ℕ) → bit_and x 63 ≡ x % 64
digit_mask x = bit_and_mask 6 x

-- The four digits of a group, in plain arithmetic.
abbrev pub digits_of : ℕ → ℕ → ℕ → List ℕ
digits_of a b c = a / 4 ∷ (a % 4 * 16 + b / 16) ∷ (b % 16 * 4 + c / 64) ∷ c % 64 ∷ []

pub encode_base64-digits :
    (a b c : ℕ)
    → a < 256
    → b < 256
    → c < 256
    → encode_base64 a b c ≡ map encode_char (digits_of a b c)
unfolding encode_base64
encode_base64-digits a b c ha hb hc =
    let first : bit_and (a / 2 ^ 2) 63 ≡ a / 4 = omega (arith, digit_mask (a / 4)) in
    let second : bit_and (bit_or (a * 2 ^ 4) (b / 2 ^ 4)) 63 ≡ a % 4 * 16 + b / 16 = omega (
      arith,
      digit_mask (bit_or (a * 2 ^ 4) (b / 2 ^ 4)),
      bit_or_disjoint 4 a (b / 2 ^ 4) (omega arith),
    ) in
    let third : bit_and (bit_or (b * 2 ^ 2) (c / 2 ^ 6)) 63 ≡ b % 16 * 4 + c / 64 = omega (
      arith,
      digit_mask (bit_or (b * 2 ^ 2) (c / 2 ^ 6)),
      bit_or_disjoint 2 b (c / 2 ^ 6) (omega arith),
    ) in
    rw (first, second, third, digit_mask c)

-- `val` as a function of the four decoded digits.
abbrev join_digits : ℕ → ℕ → ℕ → ℕ → ℕ
join_digits p q r s =
    bit_or (bit_or (bit_or (bit_or 0 (shl32 p 18)) (shl32 q 12)) (shl32 r 6)) (shl32 s 0)

join_digits_sum :
    (p q r s : ℕ)
    → p < 64
    → q < 64
    → r < 64
    → s < 64
    → join_digits p q r s ≡ ((p * 64 + q) * 64 + r) * 64 + s
join_digits_sum p q r s hp hq hr hs = omega (
  arith,
  ap (λ (t : ℕ). bit_or (bit_or (bit_or t (shl32 q 12)) (shl32 r 6)) (shl32 s 0)) one,
  ap (λ (t : ℕ). bit_or (bit_or t (shl32 r 6)) (shl32 s 0)) two,
  ap (λ (t : ℕ). bit_or t (shl32 s 0)) three,
  four,
)
  where
    one : bit_or 0 (shl32 p 18) ≡ p * 2 ^ 18
    one = omega (arith, zero-bit_or (shl32 p 18))

    two : bit_or (p * 2 ^ 18) (shl32 q 12) ≡ (p * 64 + q) * 2 ^ 12
    two = omega (arith, bit_or_disjoint 18 p (shl32 q 12) (omega arith))

    three : bit_or ((p * 64 + q) * 2 ^ 12) (shl32 r 6) ≡ ((p * 64 + q) * 64 + r) * 2 ^ 6
    three = omega (arith, bit_or_disjoint 12 (p * 64 + q) (shl32 r 6) (omega arith))

    four : bit_or (((p * 64 + q) * 64 + r) * 2 ^ 6) (shl32 s 0) ≡ ((p * 64 + q) * 64 + r) * 64 + s
    four = omega (arith, bit_or_disjoint 6 ((p * 64 + q) * 64 + r) (shl32 s 0) (omega arith))

-- The sign bit of a shifted digit: set for -1, clear for six bits.
abbrev sign : ℕ → ℕ
sign w = w / 2 ^ 31

sign_or : (a b : ℕ) → a < 2 ^ 32 → b < 2 ^ 32 → sign (bit_or a b) ≡ max (sign a) (sign b)
sign_or a b ha hb = bit_or_shift 31 a b ∙ bit_or_bits (sign a) (sign b) (omega arith) (omega arith)

sign-join_digits :
    (p q r s : ℕ)
    → sign (join_digits p q r s)
      ≡ max
          (max (max (sign (shl32 p 18)) (sign (shl32 q 12))) (sign (shl32 r 6)))
          (sign (shl32 s 0))
sign-join_digits p q r s =
    let w1 : bit_or 0 (shl32 p 18) < 2 ^ 32 = bit_or-lt 32 _ _ (omega arith) (omega arith) in
    let w2 : bit_or (bit_or 0 (shl32 p 18)) (shl32 q 12) < 2 ^ 32 =
      bit_or-lt 32 _ _ w1 (omega arith) in
    let w3 : bit_or (bit_or (bit_or 0 (shl32 p 18)) (shl32 q 12)) (shl32 r 6) < 2 ^ 32 =
      bit_or-lt 32 _ _ w2 (omega arith) in
    omega (
      arith,
      sign_or 0 (shl32 p 18) (omega arith) (omega arith),
      sign_or (bit_or 0 (shl32 p 18)) (shl32 q 12) w1 (omega arith),
      sign_or (bit_or (bit_or 0 (shl32 p 18)) (shl32 q 12)) (shl32 r 6) w2 (omega arith),
      sign_or (bit_or (bit_or (bit_or 0 (shl32 p 18)) (shl32 q 12)) (shl32 r 6)) (shl32 s 0) w3
          (omega arith),
    )

abbrev pub IsDigit : ℕ → Type 0
IsDigit c = decode_char c < 64

-- Four digits: their value, and no sign.
pub decode_base64-digits :
    (a b c d : ℕ)
    → IsDigit a
    → IsDigit b
    → IsDigit c
    → IsDigit d
    → decode_base64 a b c d
      ≡ ((decode_char a * 64 + decode_char b) * 64 + decode_char c) * 64 + decode_char d
unfolding decode_base64
decode_base64-digits a b c d ha hb hc hd =
    join_digits_sum (decode_char a) (decode_char b) (decode_char c) (decode_char d) ha hb hc hd

-- No sign: four digits.
pub decode_base64_sign :
    (a b c d : ℕ)
    → a < 256
    → b < 256
    → c < 256
    → d < 256
    → decode_base64 a b c d / 2 ^ 31 ≡ 0
    → IsDigit a × IsDigit b × IsDigit c × IsDigit d
unfolding decode_base64
decode_base64_sign a b c d ha hb hc hd h = ground (
  arith,
  sign-join_digits (decode_char a) (decode_char b) (decode_char c) (decode_char d),
  decode_char_cases a ha,
  decode_char_cases b hb,
  decode_char_cases c hc,
  decode_char_cases d hd,
)

pub encode-decode_char : (c : ℕ) → c < 256 → IsDigit c → encode_char (decode_char c) ≡ c
encode-decode_char c h d = ground (arith, decode_char_cases c h)

pub decode_base64-lt : (a b c d : ℕ) → decode_base64 a b c d < 2 ^ 32
unfolding decode_base64
decode_base64-lt a b c d =
    bit_or-lt 32 _ _
      (bit_or-lt 32 _ _
        (bit_or-lt 32 _ _ (bit_or-lt 32 _ _ (omega arith) (omega arith)) (omega arith))
        (omega arith))
      (omega arith)

-- The four characters of three bytes, where each digit of the bytes is known.
pub encode_base64_chars :
    (x y z a b c d : ℕ)
    → x < 256
    → y < 256
    → z < 256
    → encode_char (x / 4) ≡ a
    → encode_char (x % 4 * 16 + y / 16) ≡ b
    → encode_char (y % 16 * 4 + z / 64) ≡ c
    → encode_char (z % 64) ≡ d
    → encode_base64 x y z ≡ a ∷ b ∷ c ∷ d ∷ []
encode_base64_chars x y z a b c d hx hy hz ea eb ec ed =
    rw (encode_base64-digits x y z hx hy hz) (rw (ea, eb, ec, ed) refl)

-- Four digits, decoded to three bytes and encoded again, are the same characters.
pub encode-decode_base64 :
    (a b c d : ℕ)
    → (a < 256) × (b < 256) × (c < 256) × (d < 256)
    → IsDigit a × IsDigit b × IsDigit c × IsDigit d
    → encode_base64
        (bit_and (decode_base64 a b c d / 2 ^ 16) 0xff)
        (bit_and (decode_base64 a b c d / 2 ^ 8) 0xff)
        (bit_and (decode_base64 a b c d) 0xff)
      ≡ a ∷ b ∷ c ∷ d ∷ []
encode-decode_base64 a b c d (ha, hb, hc, hd) (ia, ib, ic, id) =
    let v = decode_base64 a b c d in
    let e = decode_base64-digits a b c d ia ib ic id in
    let m2 = byte_mask (v / 2 ^ 16) in
    let m1 = byte_mask (v / 2 ^ 8) in
    let m0 = byte_mask v in
    let x = bit_and (v / 2 ^ 16) 0xff in
    let y = bit_and (v / 2 ^ 8) 0xff in
    let z = bit_and v 0xff in
    let pa : x / 4 ≡ decode_char a = omega (arith, e, m2) in
    let pb : x % 4 * 16 + y / 16 ≡ decode_char b = omega (arith, e, m2, m1) in
    let pc : y % 16 * 4 + z / 64 ≡ decode_char c = omega (arith, e, m1, m0) in
    let pd : z % 64 ≡ decode_char d = omega (arith, e, m0) in
    encode_base64_chars x y z a b c d (omega (arith, m2)) (omega (arith, m1)) (omega (arith, m0))
      (ap encode_char pa ∙ encode-decode_char a ha ia)
      (ap encode_char pb ∙ encode-decode_char b hb ib)
      (ap encode_char pc ∙ encode-decode_char c hc ic)
      (ap encode_char pd ∙ encode-decode_char d hd id)

-- The place of the padding behind n whole groups.
abbrev pub last_place : ℕ → ℕ
last_place zero = 3
last_place (suc n) = suc (suc (suc (suc (last_place n))))
