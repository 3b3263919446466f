-- ===== src/Encoding/Base64/Accepted.antt =====
-- What the decoding loops have read if they set no flag.
use router1_app.Prelude.{
  ℕ, zero, suc, ◌+◌, ◌*◌, ◌/◌, ◌^◌, ◌<◌, bit_and, ◌≡◌, refl, List, [], ◌∷◌, arith, length, set, All,
  bit_or, ap, get_or,
}
use router1_app.Prelude.Bits.{bit_or-lt, bit_or_eq_zero}
use router1_app.Encoding.Base64.{encode_groups, decode_base64, decode_groups, or8, Decoded}
use router1_app.Encoding.Base64.Groups.{
  byte_mask, decode_base64_sign, decode_base64-lt, encode-decode_base64, last_place,
}
use router1_app.Encoding.Flags.{IsByte, or8_zero}

-- The flags that the last group adds.
abbrev last_flags : ℕ → ℕ
last_flags v = bit_or (v / 2 ^ 31) (bit_and v 0xff)

last_flags-lt : (v : ℕ) → v < 2 ^ 32 → last_flags v < 256
last_flags-lt v h = bit_or-lt 8 _ _ (omega arith) (omega (arith, byte_mask v))

decode_groups-ret :
    (n ret : ℕ) (text : List ℕ) → ret < 256 → (decode_groups n text ret).ret ≡ 0 → ret ≡ 0
unfolding decode_groups
decode_groups-ret zero ret (a ∷ b ∷ c ∷ rest) h e =
    (or8_zero ret _ h (last_flags-lt _ (decode_base64-lt a b c b'A')) e).0
decode_groups-ret (suc n) ret (a ∷ b ∷ c ∷ d ∷ rest) h e =
    let v = decode_base64 a b c d in
    let x : v / 2 ^ 31 < 256 = omega (arith, decode_base64-lt a b c d) in
    (or8_zero ret (v / 2 ^ 31) h x
      (decode_groups-ret n (or8 ret (v / 2 ^ 31)) rest (omega arith) e)).0
decode_groups-ret zero ret [] h e = e
decode_groups-ret zero ret (a ∷ []) h e = e
decode_groups-ret zero ret (a ∷ b ∷ []) h e = e
decode_groups-ret (suc n) ret [] h e = e
decode_groups-ret (suc n) ret (a ∷ []) h e = e
decode_groups-ret (suc n) ret (a ∷ b ∷ []) h e = e
decode_groups-ret (suc n) ret (a ∷ b ∷ c ∷ []) h e = e

-- What the loops have read, if no flag is set: the text is the encoding of a key.
pub record IsEncoded (n : ℕ) (text : List ℕ) (d : Decoded) : Type 0 where
  pub are_bytes : All IsByte d.bytes
  pub count : length d.bytes ≡ 3 * n + 2
  pub encodes : set (encode_groups n d.bytes) (last_place n) b'=' ≡ text

last_group :
    (a b c : ℕ)
    → (a < 256) × (b < 256) × (c < 256)
    → last_flags (decode_base64 a b c b'A') ≡ 0
    → IsEncoded 0 (a ∷ b ∷ c ∷ b'=' ∷ []) (decode_groups 0 (a ∷ b ∷ c ∷ b'=' ∷ []) 0)
unfolding decode_groups encode_groups
last_group a b c (ha, hb, hc) e =
    let v = decode_base64 a b c b'A' in
    let lt = decode_base64-lt a b c b'A' in
    let m0 = byte_mask v in
    let clear = bit_or_eq_zero 8 (v / 2 ^ 31) (bit_and v 0xff) (omega arith) e in
    let four = decode_base64_sign a b c b'A' ha hb hc (omega arith) clear.0 in
    let same = encode-decode_base64 a b c b'A' (ha, hb, hc, omega arith) four in
    record {
      are_bytes =
          (omega (arith, byte_mask (v / 2 ^ 16)), (omega (arith, byte_mask (v / 2 ^ 8)), tt));
      count = refl;
      encodes = ap (λ t. set t 3 b'=') (rw (clear.1) at same);
    }

next_group :
    (n a b c d : ℕ) (rest : List ℕ)
    → (a < 256) × (b < 256) × (c < 256) × (d < 256)
    → decode_base64 a b c d / 2 ^ 31 ≡ 0
    → IsEncoded n rest (decode_groups n rest 0)
    → IsEncoded (suc n) (a ∷ b ∷ c ∷ d ∷ rest) (decode_groups (suc n) (a ∷ b ∷ c ∷ d ∷ rest) 0)
unfolding decode_groups encode_groups
next_group n a b c d rest (ha, hb, hc, hd) e later =
    let v = decode_base64 a b c d in
    let four = decode_base64_sign a b c d ha hb hc hd e in
    let same = encode-decode_base64 a b c d (ha, hb, hc, hd) four in
    rw e record {
      are_bytes = (
        omega (arith, byte_mask (v / 2 ^ 16)),
        (omega (arith, byte_mask (v / 2 ^ 8)), (omega (arith, byte_mask v), later.are_bytes)),
      );
      count = omega (arith, later.count);
      encodes = rw same (ap (λ t. a ∷ b ∷ c ∷ d ∷ t) later.encodes);
    }

pub decode_groups-IsEncoded :
    (n : ℕ) (text : List ℕ)
    → All IsByte text
    → length text ≡ 4 * n + 4
    → get_or text (last_place n) 0 ≡ b'='
    → (decode_groups n text 0).ret ≡ 0
    → IsEncoded n text (decode_groups n text 0)
unfolding decode_groups
decode_groups-IsEncoded zero (a ∷ b ∷ c ∷ d ∷ []) (ha, (hb, (hc, (hd, _)))) len pad e =
    rw pad (last_group a b c (ha, hb, hc) (last_clear a b c e))
  where
    last_clear :
        (a b c : ℕ)
        → (decode_groups 0 (a ∷ b ∷ c ∷ b'=' ∷ []) 0).ret ≡ 0
        → last_flags (decode_base64 a b c b'A') ≡ 0
    last_clear a b c e =
        let v = decode_base64 a b c b'A' in
        (or8_zero 0 (last_flags v) (omega arith) (last_flags-lt v (decode_base64-lt a b c b'A'))
          e).1
decode_groups-IsEncoded (suc n) (a ∷ b ∷ c ∷ d ∷ rest) (ha, (hb, (hc, (hd, hr)))) len pad e =
    next_group n a b c d rest (ha, hb, hc, hd) clear
      (decode_groups-IsEncoded n rest hr (omega arith) pad (rw start at e))
  where
    sign : ℕ
    sign = decode_base64 a b c d / 2 ^ 31

    clear : sign ≡ 0
    clear =
        let x : sign < 256 = omega (arith, decode_base64-lt a b c d) in
        let y = bit_or-lt 8 0 sign (omega arith) x in
        (or8_zero 0 sign (omega arith) x (decode_groups-ret n (or8 0 sign) rest (omega arith) e)).1

    start : or8 0 sign ≡ 0
    start = rw clear
decode_groups-IsEncoded zero [] h len pad e = absurd (omega arith)
decode_groups-IsEncoded zero (a ∷ []) h len pad e = absurd (omega arith)
decode_groups-IsEncoded zero (a ∷ b ∷ []) h len pad e = absurd (omega arith)
decode_groups-IsEncoded zero (a ∷ b ∷ c ∷ []) h len pad e = absurd (omega arith)
decode_groups-IsEncoded zero (a ∷ b ∷ c ∷ d ∷ x ∷ r) h len pad e = absurd (omega arith)
decode_groups-IsEncoded (suc n) [] h len pad e = absurd (omega arith)
decode_groups-IsEncoded (suc n) (a ∷ []) h len pad e = absurd (omega arith)
decode_groups-IsEncoded (suc n) (a ∷ b ∷ []) h len pad e = absurd (omega arith)
decode_groups-IsEncoded (suc n) (a ∷ b ∷ c ∷ []) h len pad e = absurd (omega arith)

pub decode_groups-ret_lt :
    (n ret : ℕ) (text : List ℕ) → ret < 256 → (decode_groups n text ret).ret < 256
unfolding decode_groups
decode_groups-ret_lt zero ret (a ∷ b ∷ c ∷ rest) h = omega arith
decode_groups-ret_lt (suc n) ret (a ∷ b ∷ c ∷ d ∷ rest) h =
    decode_groups-ret_lt n (or8 ret (decode_base64 a b c d / 2 ^ 31)) rest (omega arith)
decode_groups-ret_lt zero ret [] h = h
decode_groups-ret_lt zero ret (a ∷ []) h = h
decode_groups-ret_lt zero ret (a ∷ b ∷ []) h = h
decode_groups-ret_lt (suc n) ret [] h = h
decode_groups-ret_lt (suc n) ret (a ∷ []) h = h
decode_groups-ret_lt (suc n) ret (a ∷ b ∷ []) h = h
decode_groups-ret_lt (suc n) ret (a ∷ b ∷ c ∷ []) h = h
