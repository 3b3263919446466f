-- ===== src/Keys/Laws.antt =====
-- The clamped key, the random bytes, and what genkey hands to pubkey.
use Prim.Native.Nat.{min}
use router1_app.Prelude.{
  take-append, drop-append, ℕ, zero, suc, ◌/◌, ◌%◌, ◌<◌, bit_and, bit_or, ◌≡◌, refl, Bool, true,
  ◌&&◌, [], ◌∷◌, arith, ltb, leb, ◌==◌, Bytes, get_or, set, All, ◌+◌, ◌-◌, ◌≤◌, sym, ap, ◌∙◌, ◌≢◌,
  inl, inr, some, List, ◌++◌, Bool-cases, codes, length, take, drop, length-append, length-set,
  get_or-set_self, length-take, false, ==_iff,
}
use router1_app.Prelude.Bits.{all_below, all_below-elim}
use router1_app.Ctype.{char_is_space}
use router1_app.Encoding.Flags.{IsByte, IsKey}
use router1_app.Encoding.Base64.{key_to_base64, key_from_base64}
use router1_app.Encoding.Base64.RoundTrip.{key_from_base64-key_to_base64}
use router1_app.Containers.{zero_key}
use router1_app.Keys.{
  curve25519_clamp_secret, read_random, get_random_bytes, genkey_main, pubkey_main, Random, puts,
}

abbrev clamp_low : ℕ → Bool
clamp_low b =
    ltb (bit_and b 248) 256
    && bit_and b 248 % 8 == 0
    && bit_and (bit_and b 248) 248 == bit_and b 248

abbrev clamp_high : ℕ → ℕ
clamp_high b = bit_or (bit_and b 127) 64

abbrev is_high : ℕ → Bool
is_high b =
    ltb (clamp_high b) 128 && leb 64 (clamp_high b) && clamp_high (clamp_high b) == clamp_high b

low_table : all_below 256 clamp_low ≡ true
unfolding all_below
low_table = refl

high_table : all_below 256 is_high ≡ true
unfolding all_below
high_table = refl

get_or-IsByte : (key : Bytes) (i : ℕ) → All IsByte key → get_or key i 0 < 256
get_or-IsByte [] i h = omega arith
get_or-IsByte (b ∷ key) zero (h, hs) = h
get_or-IsByte (b ∷ key) (suc i) (h, hs) = get_or-IsByte key i hs

set-IsByte : (key : Bytes) (i v : ℕ) → v < 256 → All IsByte key → All IsByte (set key i v)
set-IsByte [] i v h k = tt
set-IsByte (b ∷ key) zero v h (k, ks) = (h, ks)
set-IsByte (b ∷ key) (suc i) v h (k, ks) = (k, set-IsByte key i v h ks)

-- What RFC 7748 asks of a secret: the three lowest bits and the highest one are clear, and the one
-- below it is set.
pub record IsClamped (key : Bytes) : Type 0 where
  pub key_size : IsKey key
  pub low_bits : get_or key 0 0 % 8 ≡ 0
  pub high_bits : get_or key 31 0 / 64 ≡ 1

-- Clamping a key gives a secret as RFC 7748 asks.
pub curve25519_clamp_secret-IsClamped :
    (key : Bytes) → IsKey key → IsClamped (curve25519_clamp_secret key)
unfolding curve25519_clamp_secret
curve25519_clamp_secret-IsClamped [] (bytes, len) = absurd (omega arith)
curve25519_clamp_secret-IsClamped (b ∷ key) ((h, hs), len) =
    let low = all_below-elim 256 clamp_low b low_table h in
    let high = all_below-elim 256 is_high (get_or key 30 0) high_table (get_or-IsByte key 30 hs) in
    let long : 30 < length key = omega (arith, len) in
    let value = get_or-set_self key 30 (clamp_high (get_or key 30 0)) 0 long in
    record {
      key_size = (
        (ground (arith, low), set-IsByte key 30 _ (ground (arith, high)) hs),
        omega (arith, len, length-set key 30 (clamp_high (get_or key 30 0))),
      );
      low_bits = ground (arith, low);
      high_bits = ground (arith, high, value);
    }

-- All answers have bytes, so that each call of `read` makes progress.
abbrev pub IsProgress : Bytes → Type 0
IsProgress text = text ≢ []

-- Where every call of `read` gives bytes, and there are as many as bytes are wanted, the loop ends
-- with the buffer full.
pub read_random-full :
    (len : ℕ) (out : Bytes) (answers : List Bytes)
    → All IsProgress answers
    → length out ≤ len
    → len ≤ length out + length answers
    → (text : Bytes) × (read_random len out answers ≡ some text) × (length text ≡ len)
unfolding read_random
read_random-full len out [] h fits enough = (out, ground arith, omega arith)
read_random-full len out ([] ∷ more) (h, hs) fits enough = absurd (h refl)
read_random-full len out ((c ∷ text) ∷ more) (h, hs) fits enough =
    elim (Bool-cases (ltb (length out) len)) [
      | inr full ↦ (out, rw full, ground (arith, full))
      | inl short ↦
          let got = take (len - length out) (c ∷ text) in
          let size : length (out ++ got) ≡ length out + min (len - length out) (suc (length text)) =
            length-append out got
            ∙ ap (λ (t : ℕ). length out + t) (length-take (len - length out) (c ∷ text)) in
          let low : length out < len = ground (arith, short) in
          let (r, e, k) =
            read_random-full len (out ++ got) more hs (omega (arith, size, low))
              (omega (arith, size, low, enough)) in
          (r, rw short e, k)
    ]

refused_length :
    (old text : Bytes) → (length text == 44) ≡ false → (key_from_base64 old text).0 ≡ false
unfolding key_from_base64
refused_length old text wrong = rw wrong refl

accepted_length : (old text key : Bytes) → key_from_base64 old text ≡ (true, key) → length text ≡ 44
accepted_length old text key e = elim (Bool-cases (length text == 44)) [
  | inl right ↦ (==_iff (length text) 44).0 right
  | inr wrong ↦ cc (refused_length old text wrong, ap (λ (p : Bool × Bytes). p.0) e)
]

length_base64 : (key : Bytes) → IsKey key → length (key_to_base64 key) ≡ 44
length_base64 key h =
    accepted_length zero_key (key_to_base64 key) key (key_from_base64-key_to_base64 zero_key key h)

reads :
    (generate_public : Bytes → Bytes) (key : Bytes)
    → IsKey key
    → pubkey_main generate_public (codes "pubkey" ∷ []) (puts (key_to_base64 key)).text
      ≡ puts (key_to_base64 (generate_public key))
unfolding pubkey_main char_is_space
reads generate_public key h =
    let text = key_to_base64 key in
    let size = length_base64 key h in
    let front : take 44 (text ++ (b'\n' ∷ [])) ≡ text =
      ap (λ (n : ℕ). take n (text ++ (b'\n' ∷ []))) (sym size) ∙ take-append text (b'\n' ∷ []) in
    let back : drop 44 (text ++ (b'\n' ∷ [])) ≡ b'\n' ∷ [] =
      ap (λ (n : ℕ). drop n (text ++ (b'\n' ∷ []))) (sym size) ∙ drop-append text (b'\n' ∷ []) in
    rw (front, back, size) (rw (key_from_base64-key_to_base64 zero_key key h) refl)

abbrev pub genkey : List Bytes
genkey = codes "genkey" ∷ []

-- What genkey writes, pubkey reads: it writes the public key of the clamped bytes. The 32 random
-- bytes are those that the host gives.
pub pubkey_main-genkey_main :
    (r : Random) (generate_public : Bytes → Bytes) (key : Bytes)
    → get_random_bytes r 32 ≡ some key
    → IsKey key
    → pubkey_main generate_public (codes "pubkey" ∷ []) (genkey_main r genkey).text
      ≡ puts (key_to_base64 (generate_public (curve25519_clamp_secret key)))
unfolding genkey_main
pubkey_main-genkey_main r generate_public key e h =
    rw (e, genkey_main)
      (reads generate_public (curve25519_clamp_secret key)
        (curve25519_clamp_secret-IsClamped key h).key_size)
