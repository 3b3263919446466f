-- ===== src/Uapi/Print.antt =====
-- What `fprintf` writes for %u and %d, and what is read back.
use router1_app.Prelude.{
  ℕ, zero, suc, ◌+◌, ◌/◌, ◌%◌, ◌^◌, ◌<◌, ◌≡◌, refl, ap, ◌∙◌, ◌≢◌, ◌⊎◌, inl, inr, true, [], ◌∷◌,
  arith, ltb, if◌then◌else◌, Bool-cases, Bytes,
}
use native.Mathlib.Nat.{pow-suc}
use router1_app.Libc.{strtoul}
use router1_app.Libc.Numbers.{all_digits, decimal, strtoul_digits}

-- The digits of a number, in front of `acc`; ten rounds are enough for 32 bits.
unfoldable pub print_digits : ℕ → ℕ → Bytes → Bytes
print_digits zero n acc = acc
print_digits (suc k) n acc =
    let more = print_digits k (n / 10) ((n % 10 + 48) ∷ acc) in
    if ltb n 10 then (n + 48) ∷ acc else more

unfoldable pub print_u : ℕ → Bytes
unfolding print_digits
print_u n = print_digits 10 n []

print_digits-decimal :
    (k n : ℕ) (acc : Bytes)
    → n < 10 ^ k
    → all_digits acc ≡ true
    → (all_digits (print_digits k n acc) ≡ true)
      × (decimal 0 (print_digits k n acc) ≡ decimal n acc)
unfolding print_digits
print_digits-decimal zero zero acc h d = (d, refl)
print_digits-decimal zero (suc n) acc h d = absurd (omega arith)
print_digits-decimal (suc k) n acc h d =
    ground (arith, print_digits-decimal k (n / 10) ((n % 10 + 48) ∷ acc), pow-suc 10 k, again)
  where
    again : decimal (n / 10) ((n % 10 + 48) ∷ acc) ≡ decimal n acc
    again = ap (λ (t : ℕ). decimal t acc) (omega arith)

print_digits-ne_nil : (k n : ℕ) (acc : Bytes) → (k ≢ 0) ⊎ (acc ≢ []) → print_digits k n acc ≢ []
unfolding print_digits
print_digits-ne_nil zero n acc (inl h) = absurd (h refl)
print_digits-ne_nil zero n acc (inr h) = h
print_digits-ne_nil (suc k) n acc h = elim (Bool-cases (ltb n 10)) [
  | inl small ↦ rw small (λ e. cc)
  | inr large ↦ rw large (print_digits-ne_nil k (n / 10) ((n % 10 + 48) ∷ acc) (inr (λ e. cc)))
]

-- A 32-bit number is printed as digits, and strtoul reads it back.
pub strtoul-print_u : (n : ℕ) → n < 2 ^ 32 → strtoul (print_u n) 10 ≡ (n, [])
unfolding print_u
strtoul-print_u n h =
    let d = print_digits-decimal 10 n [] (omega arith) refl in
    strtoul_digits (print_digits 10 n []) d.0 (print_digits-ne_nil 10 n [] (inl (omega arith)))
    ∙ rw d.1 (ground arith)

pub print_u-ne_nil : (n : ℕ) → print_u n ≢ []
unfolding print_u
print_u-ne_nil n = print_digits-ne_nil 10 n [] (inl (omega arith))

pub print_u-all_digits : (n : ℕ) → n < 2 ^ 32 → all_digits (print_u n) ≡ true
unfolding print_u
print_u-all_digits n h = (print_digits-decimal 10 n [] (omega arith) refl).0
