-- ===== src/Encoding/Base64/RoundTrip.antt =====
-- `key_to_base64` and `key_from_base64` undo one another.
use router1_app.Prelude.{
  ℕ, zero, suc, ◌+◌, ◌*◌, ◌/◌, ◌%◌, ◌^◌, ◌<◌, bit_and, ◌≡◌, refl, List, [], ◌∷◌, arith, length, set,
  All, ap, get_or, true, not, ◌||◌, ◌==◌, ◌∙◌, Bool, false, length-set, get_or-set_self, sym, inl,
  inr, Bool-cases,
}
use router1_app.Encoding.Base64.{
  encode_char, encode_groups, decode_base64, decode_groups, key_to_base64, is_clear,
  key_from_base64, encode_base64,
}
use router1_app.Encoding.Base64.Chars.{decode-encode_char}
use router1_app.Encoding.Flags.{IsByte, IsKey, is_clear-zero}
use router1_app.Encoding.Base64.Accepted.{decode_groups-IsEncoded, decode_groups-ret_lt}
use router1_app.Encoding.Base64.Groups.{
  byte_mask, encode_base64-digits, decode_base64-digits, last_place,
}

abbrev encoded_group : ℕ → ℕ → ℕ → ℕ
encoded_group a b c =
    decode_base64 (encode_char (a / 4)) (encode_char (a % 4 * 16 + b / 16))
      (encode_char (b % 16 * 4 + c / 64)) (encode_char (c % 64))

encoded_group_lem :
    (a b c : ℕ) → a < 256 → b < 256 → c < 256 → encoded_group a b c ≡ (a * 256 + b) * 256 + c
encoded_group_lem a b c ha hb hc =
    let p = decode-encode_char (a / 4) (omega arith) in
    let q = decode-encode_char (a % 4 * 16 + b / 16) (omega arith) in
    let r = decode-encode_char (b % 16 * 4 + c / 64) (omega arith) in
    let s = decode-encode_char (c % 64) (omega arith) in
    omega (
      arith,
      p,
      q,
      r,
      s,
      decode_base64-digits (encode_char (a / 4)) (encode_char (a % 4 * 16 + b / 16))
          (encode_char (b % 16 * 4 + c / 64)) (encode_char (c % 64)) (omega (arith, p))
          (omega (arith, q)) (omega (arith, r)) (omega (arith, s)),
    )

-- `A` closes the last group in place of the padding.
last_char : encode_char (0 % 64) ≡ b'A'
unfolding encode_char
last_char = refl

whole_bytes :
    (v a b c : ℕ)
    → v ≡ (a * 256 + b) * 256 + c
    → a < 256
    → b < 256
    → c < 256
    → (bit_and (v / 2 ^ 16) 0xff ≡ a)
      × (bit_and (v / 2 ^ 8) 0xff ≡ b)
      × (bit_and v 0xff ≡ c)
      × (v / 2 ^ 31 ≡ 0)
whole_bytes v a b c e ha hb hc =
    omega (arith, byte_mask (v / 2 ^ 16), byte_mask (v / 2 ^ 8), byte_mask v)

decode-encode_groups :
    (n x : ℕ) (key : List ℕ)
    → All IsByte key
    → length key ≡ 3 * n + 2
    → decode_groups n (set (encode_groups n key) (last_place n) x) 0
      ≡ record { ret = 0; bytes = key }
unfolding encode_groups decode_groups
decode-encode_groups zero x (a ∷ b ∷ []) (ha, (hb, _)) e =
    let g : decode_base64 (encode_char (a / 4)) (encode_char (a % 4 * 16 + b / 16))
          (encode_char (b % 16 * 4 + 0 / 64)) b'A'
        ≡ (a * 256 + b) * 256 + 0 =
      rw last_char at (encoded_group_lem a b 0 ha hb (omega arith)) in
    let w = whole_bytes _ a b 0 g ha hb (omega arith) in
    rw (encode_base64-digits a b 0 ha hb (omega arith)) (rw (w.0, w.1, w.2, w.3) refl)
decode-encode_groups zero x [] h e = absurd (omega arith)
decode-encode_groups zero x (a ∷ []) h e = absurd (omega arith)
decode-encode_groups zero x (a ∷ b ∷ c ∷ r) h e = absurd (omega arith)
decode-encode_groups (suc n) x (a ∷ b ∷ c ∷ rest) (ha, (hb, (hc, hr))) e =
    let w = whole_bytes _ a b c (encoded_group_lem a b c ha hb hc) ha hb hc in
    let later = decode-encode_groups n x rest hr (omega arith) in
    rw (encode_base64-digits a b c ha hb hc) (rw (w.0, w.1, w.2, w.3, later) refl)
decode-encode_groups (suc n) x [] h e = absurd (omega arith)
decode-encode_groups (suc n) x (a ∷ []) h e = absurd (omega arith)
decode-encode_groups (suc n) x (a ∷ b ∷ []) h e = absurd (omega arith)

length-encode_groups :
    (n : ℕ) (key : List ℕ) → length key ≡ 3 * n + 2 → length (encode_groups n key) ≡ 4 * n + 4
unfolding encode_groups encode_base64
length-encode_groups zero (a ∷ b ∷ []) h = refl
length-encode_groups (suc n) (a ∷ b ∷ c ∷ rest) h =
    omega (arith, length-encode_groups n rest (omega arith))
length-encode_groups zero [] h = absurd (omega arith)
length-encode_groups zero (a ∷ []) h = absurd (omega arith)
length-encode_groups zero (a ∷ b ∷ c ∷ r) h = absurd (omega arith)
length-encode_groups (suc n) [] h = absurd (omega arith)
length-encode_groups (suc n) (a ∷ []) h = absurd (omega arith)
length-encode_groups (suc n) (a ∷ b ∷ []) h = absurd (omega arith)

abbrev test_length : List ℕ → Bool
test_length text = not (length text == 44) || not (get_or text 43 0 == b'=')

test_length-false :
    (text : List ℕ) → length text ≡ 44 → get_or text 43 0 ≡ b'=' → test_length text ≡ false
test_length-false text h k = rw (h, k)

key_to_base64-set : (key : List ℕ) → key_to_base64 key ≡ set (encode_groups 10 key) 43 b'='
unfolding key_to_base64
key_to_base64-set key = refl

key_from_base64_read :
    (old text : List ℕ)
    → test_length text ≡ false
    → key_from_base64 old text
      ≡ (is_clear (decode_groups 10 text 0).ret, (decode_groups 10 text 0).bytes)
unfolding key_from_base64
key_from_base64_read old text h = rw h

key_from_base64_refused :
    (old text : List ℕ) → test_length text ≡ true → key_from_base64 old text ≡ (false, old)
unfolding key_from_base64
key_from_base64_refused old text h = rw h

test_length_parts :
    (text : List ℕ) → test_length text ≡ false → (length text ≡ 44) × (get_or text 43 0 ≡ b'=')
test_length_parts text h = ground arith

-- Decoding the text of a key gives the key.
pub key_from_base64-key_to_base64 :
    (old key : List ℕ) → IsKey key → key_from_base64 old (key_to_base64 key) ≡ (true, key)
key_from_base64-key_to_base64 old key (bytes, len) =
    let body = encode_groups 10 key in
    let size : length body ≡ 44 = length-encode_groups 10 key (omega arith) in
    let fits = length-set body 43 b'=' ∙ size in
    let padded = get_or-set_self body 43 b'=' 0 (omega arith) in
    let passes = test_length-false (set body 43 b'=') fits padded in
    let decoded = decode-encode_groups 10 b'=' key bytes (omega arith) in
    rw (key_to_base64-set key) (key_from_base64_read old (set body 43 b'=') passes ∙ rw decoded)

-- A text of bytes that is accepted is the text of the key that it gives, and that key has 32 bytes.
pub key_to_base64-key_from_base64 :
    (old text key : List ℕ)
    → All IsByte text
    → key_from_base64 old text ≡ (true, key)
    → IsKey key × (key_to_base64 key ≡ text)
key_to_base64-key_from_base64 old text key h e = elim (Bool-cases (test_length text)) [
  | inl wrong ↦ cc (key_from_base64_refused old text wrong)
  | inr right ↦
      let (len, pad) = test_length_parts text right in
      let d = decode_groups 10 text 0 in
      let same : ◌≡◌ {A = Bool × List ℕ} (is_clear d.ret, d.bytes) (true, key) =
        sym (key_from_base64_read old text right) ∙ e in
      let clear =
        is_clear-zero d.ret (decode_groups-ret_lt 10 0 text (omega arith)) (ap (λ t. t.0) same) in
      let whole = decode_groups-IsEncoded 10 text h len pad clear in
      let keys : d.bytes ≡ key = ap (λ t. t.1) same in
      (
        (rw keys at whole.are_bytes, rw keys at whole.count),
        key_to_base64-set key ∙ (rw keys at whole.encodes),
      )
]
