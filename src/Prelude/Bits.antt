-- ===== src/Prelude/Bits.antt =====
-- Bitwise `&`, `|` and `^` of C on words held as numbers: each commutes with a shift to the right,
-- and acts on the lowest digit by `min`, `max` and addition modulo 2. From these two facts: the top
-- bit of a word, and `|` of fields that do not overlap.
use Prim.Native.Nat.{
  ℕ, zero, suc, ◌+◌, ◌*◌, ◌-◌, ◌/◌, ◌%◌, ◌^◌, ◌≤◌, ◌<◌, min, max, bit_and, bit_or, digits,
  bit_and-bitwise, bit_or-bitwise,
}
use mathlib.Core.Bool.{Bool, true, ◌&&◌}
use mathlib.Core.Path.{◌≡◌, refl, ap}
use native.Mathlib.Nat.{div-div-eq-div-mul, pow-suc, one-le-pow, div-add-mod, div-one as div_one}
use native.Mathlib.Omega.{arith}

-- Any two counts of digits that reach `a` give the same result.
same_digits :
    (z : ℕ → ℕ) (f : ℕ → ℕ → ℕ) (n m a b : ℕ) → a ≤ n → a ≤ m → digits z f n a b ≡ digits z f m a b
same_digits z f zero zero a b h k = refl
same_digits z f zero (suc m) (suc a) b h k = absurd (omega arith)
same_digits z f (suc n) zero (suc a) b h k = absurd (omega arith)
same_digits z f zero (suc m) zero b h k = refl
same_digits z f (suc n) zero zero b h k = refl
same_digits z f (suc n) (suc m) zero b h k = refl
same_digits z f (suc n) (suc m) (suc a) b h k =
    ap (λ (t : ℕ). t * 2 + f (suc a % 2) (b % 2))
      (same_digits z f n m (suc a / 2) (b / 2) (omega arith) (omega arith))

pub and_digits : (a b : ℕ) → bit_and a b ≡ bit_and (a / 2) (b / 2) * 2 + min (a % 2) (b % 2)
and_digits zero b = omega (arith, bit_and-bitwise 0 b, bit_and-bitwise 0 (b / 2))
and_digits (suc a) b = omega (
  arith,
  bit_and-bitwise (suc a) b,
  bit_and-bitwise (suc a / 2) (b / 2),
  same_digits (λ y. 0) min a (suc a / 2) (suc a / 2) (b / 2) (omega arith) (omega arith),
)

pub or_digits : (a b : ℕ) → bit_or a b ≡ bit_or (a / 2) (b / 2) * 2 + max (a % 2) (b % 2)
or_digits zero b = omega (arith, bit_or-bitwise 0 b, bit_or-bitwise 0 (b / 2))
or_digits (suc a) b = omega (
  arith,
  bit_or-bitwise (suc a) b,
  bit_or-bitwise (suc a / 2) (b / 2),
  same_digits (λ y. y) max a (suc a / 2) (suc a / 2) (b / 2) (omega arith) (omega arith),
)

two_pow : (q k : ℕ) → q * 2 ^ suc k ≡ 2 * (q * 2 ^ k)
two_pow q k = omega (arith, ap (λ (t : ℕ). q * t) (pow-suc 2 k))

pub shift_suc : (a k : ℕ) → a / 2 ^ suc k ≡ a / 2 / 2 ^ k
shift_suc a k =
    rw (div-div-eq-div-mul a 2 (2 ^ k)) (ap (λ (t : ℕ). a / t) (omega (arith, pow-suc 2 k)))

-- A shift to the right commutes with `&` and with `|`.
pub bit_and_shift : (k a b : ℕ) → bit_and a b / 2 ^ k ≡ bit_and (a / 2 ^ k) (b / 2 ^ k)
bit_and_shift zero a b = simp div_one
bit_and_shift (suc k) a b = simp shift_suc (rw (half_and a b) (bit_and_shift k (a / 2) (b / 2)))
  where
    half_and : (c d : ℕ) → bit_and c d / 2 ≡ bit_and (c / 2) (d / 2)
    half_and c d = omega (arith, and_digits c d)

pub bit_or_shift : (k a b : ℕ) → bit_or a b / 2 ^ k ≡ bit_or (a / 2 ^ k) (b / 2 ^ k)
bit_or_shift zero a b = simp div_one
bit_or_shift (suc k) a b = simp shift_suc (rw (half_or a b) (bit_or_shift k (a / 2) (b / 2)))
  where
    half_or : (c d : ℕ) → bit_or c d / 2 ≡ bit_or (c / 2) (d / 2)
    half_or c d = omega (arith, or_digits c d)

-- `|` of two words of w bits is a word of w bits.
pub bit_or-lt : (k a b : ℕ) → a < 2 ^ k → b < 2 ^ k → bit_or a b < 2 ^ k
bit_or-lt zero zero zero h h' = omega (arith, bit_or-bitwise 0 0)
bit_or-lt zero (suc a) b h h' = absurd (omega arith)
bit_or-lt zero zero (suc b) h h' = absurd (omega arith)
bit_or-lt (suc k) a b h h' = omega (
  arith,
  or_digits a b,
  pow-suc 2 k,
  bit_or-lt k (a / 2) (b / 2) (omega (arith, pow-suc 2 k)) (omega (arith, pow-suc 2 k)),
)

pub bit_or_zero : (a : ℕ) → bit_or a 0 ≡ a
bit_or_zero a = below a a (omega arith)
  where
    below : (n c : ℕ) → c ≤ n → bit_or c 0 ≡ c
    below n zero h = refl
    below zero (suc c) h = absurd (omega arith)
    below (suc n) (suc c) h = omega (arith, or_digits (suc c) 0, below n (suc c / 2) (omega arith))

-- `(q << k) | r` is a sum when `r` fits k bits.
pub bit_or_disjoint : (k q r : ℕ) → r < 2 ^ k → bit_or (q * 2 ^ k) r ≡ q * 2 ^ k + r
bit_or_disjoint zero q zero h = omega (arith, bit_or_zero (q * 1))
bit_or_disjoint zero q (suc r) h = absurd (omega arith)
bit_or_disjoint (suc k) q r h = omega (
  arith,
  two_pow q k,
  or_half,
  ap (λ (t : ℕ). bit_or t (r / 2)) half_q,
  bit_or_disjoint k q (r / 2) (omega (arith, pow-suc 2 k)),
)
  where
    half_q : q * 2 ^ suc k / 2 ≡ q * 2 ^ k
    half_q = omega (arith, two_pow q k)

    or_half :
        bit_or (q * 2 ^ suc k) r
        ≡ bit_or (q * 2 ^ suc k / 2) (r / 2) * 2 + max (q * 2 ^ suc k % 2) (r % 2)
    or_half = or_digits (q * 2 ^ suc k) r

-- Two bits: their `&` is their minimum, and their `|` their maximum.
pub bit_or_bits : (a b : ℕ) → a < 2 → b < 2 → bit_or a b ≡ max a b
bit_or_bits zero zero h k = refl
bit_or_bits zero (suc zero) h k = refl
bit_or_bits (suc zero) zero h k = refl
bit_or_bits (suc zero) (suc zero) h k = refl
bit_or_bits (suc (suc a)) b h k = absurd (omega arith)
bit_or_bits zero (suc (suc b)) h k = absurd (omega arith)
bit_or_bits (suc zero) (suc (suc b)) h k = absurd (omega arith)

pub bit_and_bits : (a b : ℕ) → a < 2 → b < 2 → bit_and a b ≡ min a b
bit_and_bits zero zero h k = refl
bit_and_bits zero (suc zero) h k = refl
bit_and_bits (suc zero) zero h k = refl
bit_and_bits (suc zero) (suc zero) h k = refl
bit_and_bits (suc (suc a)) b h k = absurd (omega arith)
bit_and_bits zero (suc (suc b)) h k = absurd (omega arith)
bit_and_bits (suc zero) (suc (suc b)) h k = absurd (omega arith)

pub bit_and_none : (a : ℕ) → bit_and a 0 ≡ 0
bit_and_none a = below a a (omega arith)
  where
    below : (n c : ℕ) → c ≤ n → bit_and c 0 ≡ 0
    below n zero h = refl
    below zero (suc c) h = absurd (omega arith)
    below (suc n) (suc c) h = omega (arith, and_digits (suc c) 0, below n (suc c / 2) (omega arith))

pub zero-bit_or : (a : ℕ) → bit_or 0 a ≡ a
zero-bit_or a = bit_or-bitwise 0 a

-- A test of all numbers below a bound, by evaluation.
unfoldable pub all_below : ℕ → (ℕ → Bool) → Bool
all_below zero p = true
all_below (suc n) p = p n && all_below n p

pub all_below-elim : (n : ℕ) (p : ℕ → Bool) (x : ℕ) → all_below n p ≡ true → x < n → p x ≡ true
unfolding all_below
all_below-elim zero p x h lt = absurd (omega arith)
all_below-elim (suc n) p x h lt = ground (arith, all_below-elim n p x)

-- A mask of k ones keeps the remainder by 2 ^ k.
pub bit_and_mask : (k a : ℕ) → bit_and a (2 ^ k - 1) ≡ a % 2 ^ k
bit_and_mask zero a = omega (arith, bit_and_none a)
bit_and_mask (suc k) a = omega (
  arith,
  and_digits a (2 ^ suc k - 1),
  ap (λ (t : ℕ). bit_and (a / 2) t) half_mask,
  bit_and_mask k (a / 2),
  ap (λ (t : ℕ). 2 ^ k * t) (shift_suc a k),
  two_pow (a / 2 ^ suc k) k,
  pow-suc 2 k,
  div-add-mod a (2 ^ suc k),
  one-le-pow k 2,
  div-add-mod (a / 2) (2 ^ k),
)
  where
    half_mask : (2 ^ suc k - 1) / 2 ≡ 2 ^ k - 1
    half_mask = omega (arith, pow-suc 2 k)

-- `|` is 0 only of zeros.
pub bit_or_eq_zero : (k a b : ℕ) → a < 2 ^ k → bit_or a b ≡ 0 → (a ≡ 0) × (b ≡ 0)
bit_or_eq_zero zero a b h e = zero_first a (omega arith) e
  where
    zero_first : (c : ℕ) → c ≡ 0 → bit_or c b ≡ 0 → (c ≡ 0) × (b ≡ 0)
    zero_first zero z e = (refl, omega (arith, zero-bit_or b))
    zero_first (suc c) z e = absurd (omega arith)
bit_or_eq_zero (suc k) a b h e =
    let fits : a / 2 < 2 ^ k = omega (arith, pow-suc 2 k) in
    let upper : bit_or (a / 2) (b / 2) ≡ 0 = omega (arith, or_digits a b) in
    omega (arith, or_digits a b, bit_or_eq_zero k (a / 2) (b / 2) fits upper)
