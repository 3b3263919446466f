-- ===== src/Config/Values/Numbers.antt =====
-- The numbers of `parse_uint16` and `parse_bool`, as texts of decimal digits.
use router1_app.Prelude.{
  ℕ, ◌%◌, ◌^◌, ◌<◌, ◌≡◌, refl, ◌≢◌, true, false, List, [], ◌∷◌, arith, ltb, ◌==◌, if◌then◌else◌,
  Bytes, ok, exit, length,
}
use router1_app.Libc.Numbers.{all_digits, decimal, strtoul_digits}
use router1_app.Config.Values.{parse_uint16}
use router1_app.Uapi.Print.{print_u, strtoul-print_u, print_u-ne_nil}

length_zero : {A : Type 0} (text : List A) → text ≢ [] → (length text == 0) ≡ false
length_zero [] h = absurd (h refl)
length_zero (c ∷ text) h = ground arith

-- A text of digits whose number fits an unsigned long is accepted if the number modulo 2 ^ 32 has
-- 16 bits, and gives that; otherwise the program exits.
pub parse_uint16-decimal :
    (text : Bytes)
    → all_digits text ≡ true
    → text ≢ []
    → decimal 0 text < 2 ^ 64
    → parse_uint16 text
      ≡ (if ltb (decimal 0 text % 2 ^ 32) (2 ^ 16) then ok (decimal 0 text % 2 ^ 32) else exit)
unfolding parse_uint16
parse_uint16-decimal text h k small =
    rw (length_zero text k, strtoul_digits text h k) (ground arith)

-- A number of 16 bits is read back from its decimal digits.
pub parse_uint16-print_u : (n : ℕ) → n < 2 ^ 16 → parse_uint16 (print_u n) ≡ ok n
unfolding parse_uint16
parse_uint16-print_u n h =
    rw (length_zero (print_u n) (print_u-ne_nil n), strtoul-print_u n (omega arith)) (ground arith)
