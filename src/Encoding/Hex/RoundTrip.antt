-- ===== src/Encoding/Hex/RoundTrip.antt =====
-- `key_to_hex` and `key_from_hex` undo one another, up to the case of the digits.
use router1_app.Prelude.{
  ℕ, ◌+◌, ◌*◌, ◌/◌, ◌%◌, ◌^◌, ◌<◌, bit_and, bit_or, ◌≡◌, refl, ap, ◌∙◌, true, List, [], ◌∷◌, arith,
  length, All, zero, suc, ◌⊎◌, inl, inr, Bool, false, ◌&&◌, map, Bool-cases, sym, ◌==◌,
}
use router1_app.Prelude.Bits.{bit_or_disjoint, bit_and_mask}
use router1_app.Encoding.Flags.{is_clear, IsByte, IsKey, or8, or8_zero, is_clear-zero}
use router1_app.Encoding.Hex.{hex_char, key_to_hex, hex_digit, decode_pairs, key_from_hex}
use router1_app.Encoding.Hex.Chars.{is_hex, hex_char_lem, hex_digit_lem, lower_hex, hex_digit_other}

low_nibble : (b : ℕ) → bit_and b 0xf ≡ b % 16
low_nibble b = bit_and_mask 4 b

joined : (hi lo : ℕ) → hi < 16 → lo < 16 → bit_or (hi * 16 % 256) lo ≡ hi * 16 + lo
joined hi lo h k = omega (arith, bit_or_disjoint 4 hi lo k, ap (λ (t : ℕ). bit_or t lo) fits)
  where
    fits : hi * 16 % 256 ≡ hi * 2 ^ 4
    fits = omega arith

length-key_to_hex : (key : List ℕ) → length (key_to_hex key) ≡ 2 * length key
unfolding key_to_hex
length-key_to_hex [] = refl
length-key_to_hex (b ∷ key) = omega (arith, length-key_to_hex key)

-- One round of the decoding loop on two hexadecimal digits.
decode_pairs_digits :
    (h l : ℕ) (text : List ℕ)
    → (h < 256) × (l < 256)
    → (is_hex h ≡ true) × (is_hex l ≡ true)
    → decode_pairs (h ∷ l ∷ text) 0 ≡ record {
      ret = (decode_pairs text 0).ret;
      bytes = ((hex_digit h).val * 16 + (hex_digit l).val) ∷ (decode_pairs text 0).bytes;
    }
unfolding decode_pairs
decode_pairs_digits h l text (bh, bl) (dh, dl) =
    let p = hex_digit_lem h bh dh in
    let q = hex_digit_lem l bl dl in
    rw (p.0, q.0) (rw (joined (hex_digit h).val (hex_digit l).val p.1 q.1) refl)

decode_pairs-key_to_hex :
    (key : List ℕ)
    → All IsByte key
    → decode_pairs (key_to_hex key) 0 ≡ record { ret = 0; bytes = key }
unfolding key_to_hex
decode_pairs-key_to_hex [] h = unfold decode_pairs in refl
decode_pairs-key_to_hex (b ∷ key) (hb, hk) =
    let low = low_nibble b in
    let p = hex_char_lem (b / 2 ^ 4) (omega arith) in
    let q = hex_char_lem (bit_and b 0xf) (omega (arith, low)) in
    let whole : (hex_digit (hex_char (b / 2 ^ 4))).val * 16
          + (hex_digit (hex_char (bit_and b 0xf))).val
        ≡ b =
      omega (arith, p.1, q.1, low) in
    decode_pairs_digits _ _ (key_to_hex key) (p.2, q.2) (p.0, q.0)
    ∙ rw (whole, decode_pairs-key_to_hex key hk) refl

key_from_hex_read :
    (old text : List ℕ)
    → length text ≡ 64
    → key_from_hex old text ≡ (is_clear (decode_pairs text 0).ret, (decode_pairs text 0).bytes)
unfolding key_from_hex
key_from_hex_read old text h = rw h

-- Decoding the hexadecimal text of a key gives the key.
pub key_from_hex-key_to_hex :
    (old key : List ℕ) → IsKey key → key_from_hex old (key_to_hex key) ≡ (true, key)
key_from_hex-key_to_hex old key (bytes, len) =
    let size : length (key_to_hex key) ≡ 64 = omega (arith, length-key_to_hex key) in
    key_from_hex_read old (key_to_hex key) size ∙ rw (decode_pairs-key_to_hex key bytes) refl

abbrev pub all_hex : List ℕ → Bool
all_hex [] = true
all_hex (c ∷ cs) = is_hex c && all_hex cs

flag_cases :
    (c : ℕ)
    → c < 256
    → ((is_hex c ≡ true) × ((hex_digit c).flag ≡ 0))
      ⊎ ((is_hex c ≡ false) × ((hex_digit c).flag ≡ 255))
flag_cases c h = elim (Bool-cases (is_hex c)) [
  | inl d ↦ inl (d, (hex_digit_lem c h d).0)
  | inr d ↦ inr (d, hex_digit_other c h d)
]

decode_pairs_clear :
    (k ret : ℕ) (text : List ℕ)
    → length text ≡ 2 * k
    → All IsByte text
    → ret < 256
    → (decode_pairs text ret).ret ≡ 0
    → (ret ≡ 0) × (all_hex text ≡ true)
unfolding decode_pairs
decode_pairs_clear k ret [] len h hr e = (e, refl)
decode_pairs_clear k ret (a ∷ []) len h hr e = absurd (omega arith)
decode_pairs_clear zero ret (a ∷ b ∷ text) len h hr e = absurd (omega arith)
decode_pairs_clear (suc k) ret (a ∷ b ∷ text) len (ha, (hb, ht)) hr e =
    let later = decode_pairs_clear k _ text (omega arith) ht (omega arith) e in
    let fa = flag_cases a ha in
    let fb = flag_cases b hb in
    let x : (hex_digit a).flag < 256 = ground (arith, fa) in
    let y : (hex_digit b).flag < 256 = ground (arith, fb) in
    let (p, q) = or8_zero (or8 ret (hex_digit a).flag) (hex_digit b).flag (omega arith) y later.0 in
    let (r, s) = or8_zero ret (hex_digit a).flag hr x p in ground (arith, fa, fb, later.1)

key_to_hex_byte :
    (byte : ℕ) (bytes : List ℕ) {x y u v : ℕ} {cs : List ℕ}
    → byte / 2 ^ 4 ≡ x
    → bit_and byte 0xf ≡ y
    → hex_char x ≡ u
    → hex_char y ≡ v
    → key_to_hex bytes ≡ cs
    → key_to_hex (byte ∷ bytes) ≡ u ∷ v ∷ cs
unfolding key_to_hex
key_to_hex_byte byte bytes p q r s t = rw (p, q) (rw (r, s, t) refl)

decode_pairs-all_hex :
    (k : ℕ) (text : List ℕ)
    → length text ≡ 2 * k
    → All IsByte text
    → all_hex text ≡ true
    → ((decode_pairs text 0).ret ≡ 0)
      × All IsByte (decode_pairs text 0).bytes
      × (length (decode_pairs text 0).bytes ≡ k)
      × (key_to_hex (decode_pairs text 0).bytes ≡ map lower_hex text)
decode_pairs-all_hex k [] len h e = unfold decode_pairs key_to_hex in (refl, tt, omega arith, refl)
decode_pairs-all_hex k (a ∷ []) len h e = absurd (omega arith)
decode_pairs-all_hex zero (a ∷ b ∷ text) len h e = absurd (omega arith)
decode_pairs-all_hex (suc k) (a ∷ b ∷ text) len (ha, (hb, ht)) e =
    let both : (is_hex a ≡ true) × (is_hex b ≡ true) × (all_hex text ≡ true) = ground arith in
    let p = hex_digit_lem a ha both.0 in
    let q = hex_digit_lem b hb both.1 in
    let later = decode_pairs-all_hex k text (omega arith) ht both.2 in
    let byte = (hex_digit a).val * 16 + (hex_digit b).val in
    let high : byte / 2 ^ 4 ≡ (hex_digit a).val = omega (arith, q.1) in
    let low : bit_and byte 0xf ≡ (hex_digit b).val = omega (arith, q.1, low_nibble byte) in
    rw (decode_pairs_digits a b text (ha, hb) (both.0, both.1)) (
      later.0,
      (omega (arith, p.1, q.1), later.1),
      omega (arith, later.2),
      key_to_hex_byte byte _ high low p.2 q.2 later.3,
    )

decode_pairs-ret_lt : (text : List ℕ) (ret : ℕ) → ret < 256 → (decode_pairs text ret).ret < 256
unfolding decode_pairs
decode_pairs-ret_lt [] ret h = h
decode_pairs-ret_lt (a ∷ []) ret h = h
decode_pairs-ret_lt (a ∷ b ∷ text) ret h = decode_pairs-ret_lt text _ (omega arith)

key_from_hex_refused :
    (old text : List ℕ) → (length text == 64) ≡ false → key_from_hex old text ≡ (false, old)
unfolding key_from_hex
key_from_hex_refused old text h = rw h

-- A text is accepted exactly if it has 64 characters and all are hexadecimal digits.
pub key_from_hex_accepts :
    (old text : List ℕ)
    → All IsByte text
    → (key_from_hex old text).0 ≡ (length text == 64 && all_hex text)
key_from_hex_accepts old text h = elim (Bool-cases (length text == 64)) [
  | inr wrong ↦ rw (key_from_hex_refused old text wrong, wrong)
  | inl right ↦
      let len : length text ≡ 64 = ground arith in
      rw (key_from_hex_read old text len, right) (accepts len)
]
  where
    accepts : length text ≡ 64 → is_clear (decode_pairs text 0).ret ≡ all_hex text
    accepts len = elim (Bool-cases (all_hex text)) [
      | inl good ↦ rw ((decode_pairs-all_hex 32 text len h good).0, good)
      | inr bad ↦ elim (Bool-cases (is_clear (decode_pairs text 0).ret)) [
        | inr refused ↦ rw (refused, bad)
        | inl passed ↦
            let zero_ret = is_clear-zero _ (decode_pairs-ret_lt text 0 (omega arith)) passed in
            cc ((decode_pairs_clear 32 0 text len h (omega arith) zero_ret).1)
      ]
    ]

-- The key of an accepted text has 32 bytes, and its own text is the accepted one in lower case.
pub key_to_hex-key_from_hex :
    (old text : List ℕ)
    → All IsByte text
    → (key_from_hex old text).0 ≡ true
    → IsKey (key_from_hex old text).1 × (key_to_hex (key_from_hex old text).1 ≡ map lower_hex text)
key_to_hex-key_from_hex old text h e =
    let both = sym (key_from_hex_accepts old text h) ∙ e in
    let len : length text ≡ 64 = ground (arith, both) in
    let good : all_hex text ≡ true = ground (arith, both) in
    let d = decode_pairs-all_hex 32 text len h good in
    rw (key_from_hex_read old text len) ((d.1, d.2), d.3)
