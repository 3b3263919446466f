-- ===== src/Libc/Numbers.antt =====
-- strtoul on a text of decimal digits.
use router1_app.Prelude.{
  ℕ, ◌+◌, ◌-◌, ◌*◌, ◌≡◌, refl, ◌≢◌, Bool, true, false, ◌&&◌, [], ◌∷◌, arith, Bytes, length, ◌==◌,
}
use router1_app.Ctype.Spec.{is_digit}
use router1_app.Libc.{scan_digits, ulong, strtoul, skip_spaces, sign_of}

abbrev pub all_digits : Bytes → Bool
all_digits [] = true
all_digits (c ∷ text) = is_digit c && all_digits text

-- The number that a text of digits denotes.
abbrev pub decimal : ℕ → Bytes → ℕ
decimal acc [] = acc
decimal acc (c ∷ text) = decimal (acc * 10 + (c - 48)) text

scan_digits-decimal :
    (acc n : ℕ) (text : Bytes)
    → all_digits text ≡ true
    → scan_digits 10 acc n text
      ≡ record { number = decimal acc text; count = n + length text; rest = [] }
unfolding scan_digits
scan_digits-decimal acc n [] h = ground arith
scan_digits-decimal acc n (c ∷ text) h =
    ground (arith, scan_digits-decimal (acc * 10 + (c - 48)) (n + 1) text)

sign_of_digit :
    (c : ℕ) (text : Bytes)
    → is_digit c ≡ true
    → sign_of (skip_spaces (c ∷ text)) ≡ (false, c ∷ text)
unfolding skip_spaces
sign_of_digit c text h = ground arith

-- Decimal digits are read to the end, and give their number, or ULONG_MAX where that is too large.
pub strtoul_digits :
    (text : Bytes)
    → all_digits text ≡ true
    → text ≢ []
    → strtoul text 10 ≡ (ulong false (decimal 0 text), [])
unfolding strtoul
strtoul_digits [] h k = absurd (k refl)
strtoul_digits (c ∷ text) h k =
    rw (sign_of_digit c text (ground arith))
      (rw (scan_digits-decimal 0 0 (c ∷ text) h) (rw counted refl))
  where
    counted : (0 + length (c ∷ text) == 0) ≡ false
    counted = ground arith
