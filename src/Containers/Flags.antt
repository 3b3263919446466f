-- ===== src/Containers/Flags.antt =====
-- Flag words: a test of one bit after another bit was set or cleared.
use router1_app.Prelude.{
  ℕ, ◌-◌, ◌/◌, ◌%◌, ◌^◌, bit_and, bit_or, ◌≡◌, Bool, ◌||◌, ◌==◌, truthy, zero, suc, ◌*◌, ◌<◌, refl,
  ap, ◌∙◌, arith, if◌then◌else◌,
}
use Prim.Native.Nat.{max}
use native.Mathlib.Nat.{pow-suc, one-le-pow}
use router1_app.Prelude.Bits.{and_digits, or_digits, shift_suc, bit_or_shift, bit_and_mask}

-- `flags & mask` as a condition, and `flags |= mask`.
abbrev pub has : ℕ → ℕ → Bool
has flags mask = truthy (bit_and flags mask)

-- `flags &= ~mask` on a 32-bit word.
abbrev pub clear_flag : ℕ → ℕ → ℕ
clear_flag flags mask = bit_and flags (2 ^ 32 - 1 - mask)

zero-shift : (j : ℕ) → 0 / 2 ^ j ≡ 0
zero-shift zero = refl
zero-shift (suc j) = shift_suc 0 j ∙ zero-shift j

-- The binary digits of a power of two.
abbrev one_at : ℕ → ℕ → ℕ
one_at i j = if i == j then 1 else 0

two_pow_digit : (i j : ℕ) → 2 ^ i / 2 ^ j % 2 ≡ one_at i j
two_pow_digit zero zero = refl
two_pow_digit zero (suc j) = rw (shift_suc 1 j, zero-shift j) (ground arith)
two_pow_digit (suc i) zero = ground (arith, pow-suc 2 i)
two_pow_digit (suc i) (suc j) =
    let half : 2 ^ suc i / 2 ≡ 2 ^ i = omega (arith, pow-suc 2 i) in
    rw (shift_suc (2 ^ suc i) j, half) (two_pow_digit i j ∙ ground arith)

and_two_pow : (i flags : ℕ) → bit_and flags (2 ^ i) ≡ flags / 2 ^ i % 2 * 2 ^ i
and_two_pow zero flags = omega (arith, bit_and_mask 1 flags)
and_two_pow (suc i) flags =
    let half : 2 ^ suc i / 2 ≡ 2 ^ i = omega (arith, pow-suc 2 i) in
    omega (
      arith,
      and_digits flags (2 ^ suc i),
      ap (λ (t : ℕ). bit_and (flags / 2) t) half,
      and_two_pow i (flags / 2),
      pow-suc 2 i,
      ap (λ (t : ℕ). t % 2 * 2 ^ i) (shift_suc flags i),
      ap (λ (t : ℕ). t % 2 * 2 ^ suc i) (shift_suc flags i),
      ap (λ (t : ℕ). flags / 2 / 2 ^ i % 2 * t) (pow-suc 2 i),
    )

-- A test of one bit reads that binary digit.
pub has_digit : (i flags : ℕ) → has flags (2 ^ i) ≡ (flags / 2 ^ i % 2 == 1)
has_digit i flags = rw (and_two_pow i flags) (digit_test (flags / 2 ^ i % 2) (omega arith))
  where
    digit_test : (d : ℕ) → d < 2 → truthy (d * 2 ^ i) ≡ (d == 1)
    digit_test zero h = ground arith
    digit_test (suc zero) h = ground (arith, one-le-pow i 2)
    digit_test (suc (suc d)) h = absurd (omega arith)

or_digit : (j a b : ℕ) → bit_or a b / 2 ^ j % 2 ≡ max (a / 2 ^ j % 2) (b / 2 ^ j % 2)
or_digit j a b = rw (bit_or_shift j a b) (omega (arith, or_digits (a / 2 ^ j) (b / 2 ^ j)))

-- After bit i was set, a test of bit j answers true if it is that bit, and as before if not.
pub has-bit_or :
    (i j flags : ℕ) → has (bit_or flags (2 ^ i)) (2 ^ j) ≡ (i == j || has flags (2 ^ j))
has-bit_or i j flags =
    rw (has_digit j (bit_or flags (2 ^ i)), has_digit j flags)
      (ground (arith, or_digit j flags (2 ^ i), two_pow_digit i j))
