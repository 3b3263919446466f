-- ===== src/Ctype.antt =====
-- The character tests of android/tunnel/tools/amneziawg-tools/src/ctype.h. An `int` argument is its
-- 32-bit pattern; a character is passed as the byte that it holds, EOF as -1.
pub mod Spec
use router1_app.Prelude.{ℕ, ◌/◌, ◌%◌, ◌^◌, bit_and, bit_or, Bool, sub32, truthy}

unfoldable pub char_is_space : ℕ → Bool
char_is_space c =
    let d = sub32 c 9 % 256 in truthy (bit_and (0x80001F / 2 ^ bit_and d 31) (1 / 2 ^ (d / 2 ^ 5)))

unfoldable pub char_is_digit : ℕ → Bool
char_is_digit c = truthy (bit_and (sub32 47 c) (sub32 c 58) / 2 ^ 31)

unfoldable pub char_is_alpha : ℕ → Bool
char_is_alpha c = let l = bit_or c 32 in truthy (bit_and (sub32 96 l) (sub32 l 123) / 2 ^ 31)
