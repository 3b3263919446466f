-- ===== src/Ctype/Spec.antt =====
-- The character tests of ctype.h, each against the set of characters that it stands for.
use router1_app.Prelude.{
  ℕ, ◌/◌, ◌^◌, ◌<◌, ◌≡◌, refl, Bool, true, false, ◌&&◌, ◌||◌, arith, leb, ◌==◌, sub32,
}
use router1_app.Prelude.Bits.{all_below, all_below-elim, bit_and_shift, bit_and_bits}
use router1_app.Ctype.{char_is_space, char_is_digit, char_is_alpha}

abbrev same : Bool → Bool → Bool
same true b = b
same false true = false
same false false = true

same→eq : (a b : Bool) → same a b ≡ true → a ≡ b
same→eq a b h = ground arith

-- Space, tab, newline, vertical tab, form feed and carriage return.
abbrev pub is_space : ℕ → Bool
is_space c = c == 32 || (leb 9 c && leb c 13)

abbrev pub is_digit : ℕ → Bool
is_digit c = leb b'0' c && leb c b'9'

abbrev pub is_alpha : ℕ → Bool
is_alpha c = (leb b'A' c && leb c b'Z') || (leb b'a' c && leb c b'z')

space_table : all_below 256 (λ c. same (char_is_space c) (is_space c)) ≡ true
unfolding all_below char_is_space
space_table = refl

alpha_table : all_below 256 (λ c. same (char_is_alpha c) (is_alpha c)) ≡ true
unfolding all_below char_is_alpha
alpha_table = refl

-- On every byte `char_is_space` answers whether the byte is one of the six ASCII space characters.
pub char_is_space-eq : (c : ℕ) → c < 256 → char_is_space c ≡ is_space c
char_is_space-eq c h = same→eq _ _ (all_below-elim 256 _ c space_table h)

-- On every byte `char_is_alpha` answers whether the byte is an ASCII letter.
char_is_alpha-eq : (c : ℕ) → c < 256 → char_is_alpha c ≡ is_alpha c
char_is_alpha-eq c h = same→eq _ _ (all_below-elim 256 _ c alpha_table h)

-- On every 32-bit argument, negative ones included, `char_is_digit` answers whether it is one of
-- the characters 0 to 9.
pub char_is_digit-eq : (c : ℕ) → c < 2 ^ 32 → char_is_digit c ≡ is_digit c
unfolding char_is_digit
char_is_digit-eq c h = ground (
  arith,
  bit_and_shift 31 (sub32 47 c) (sub32 c 58),
  bit_and_bits (sub32 47 c / 2 ^ 31) (sub32 c 58 / 2 ^ 31),
)

-- On every byte `char_is_space` answers whether the byte is one of the six ASCII space characters,
-- `char_is_alpha` whether it is an ASCII letter, and `char_is_digit` whether it is one of 0 to 9.
pub ctype_lem :
    (c : ℕ)
    → c < 256
    → (char_is_space c ≡ is_space c)
      × (char_is_alpha c ≡ is_alpha c)
      × (char_is_digit c ≡ is_digit c)
ctype_lem c h = (char_is_space-eq c h, char_is_alpha-eq c h, char_is_digit-eq c (omega (arith, h)))
