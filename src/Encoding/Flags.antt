-- ===== src/Encoding/Flags.antt =====
-- What the codecs of encoding.c share: the length of a key, and the error flags, a uint8_t that every
-- round of a loop may set and that the answer tests without a branch.
use router1_app.Prelude.{
  ℕ, ◌%◌, ◌<◌, bit_and, bit_or, ◌≡◌, refl, Bool, true, not, ◌||◌, List, arith, ◌==◌, sub32, sar8,
  truthy, length, All,
}
use router1_app.Prelude.Bits.{bit_or-lt, all_below, all_below-elim, bit_or_eq_zero}

-- WG_KEY_LEN.
abbrev pub wg_key_len : ℕ
wg_key_len = 32

-- `ret |= x`, where ret is a uint8_t.
abbrev pub or8 : ℕ → ℕ → ℕ
or8 ret x = bit_or ret x % 256

-- `1 & ((ret - 1) >> 8)`.
abbrev pub is_clear : ℕ → Bool
is_clear ret = truthy (bit_and 1 (sar8 (sub32 ret 1)))

abbrev pub IsByte : ℕ → Type 0
IsByte b = b < 256

abbrev pub IsKey : List ℕ → Type 0
IsKey key = All IsByte key × (length key ≡ wg_key_len)

-- The flags after a round are clear only if they were before it and the round set none.
pub or8_zero : (ret x : ℕ) → ret < 256 → x < 256 → or8 ret x ≡ 0 → (ret ≡ 0) × (x ≡ 0)
or8_zero ret x h k e = bit_or_eq_zero 8 ret x h (omega (arith, bit_or-lt 8 ret x h k))

clear_table : all_below 256 (λ r. not (is_clear r) || r == 0) ≡ true
unfolding all_below
clear_table = refl

pub is_clear-zero : (ret : ℕ) → ret < 256 → is_clear ret ≡ true → ret ≡ 0
is_clear-zero ret h e = ground (arith, all_below-elim 256 _ ret clear_table h)
