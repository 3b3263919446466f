-- ===== src/Libc.antt =====
-- What the program uses of the C library on strings and numbers, in the C locale, with an unsigned
-- long of 64 bits. A string is the list of its bytes, so `strlen` is `length` and the character at
-- `value[0]` of an empty string is the NUL.
pub mod Numbers
pub mod Split
use router1_app.Prelude.{
  ℕ, zero, suc, ◌+◌, ◌-◌, ◌*◌, ◌%◌, ◌^◌, Bool, true, false, ◌&&◌, Option, none, some, [], ◌∷◌, ltb,
  leb, ◌==◌, if◌then◌else◌, Bytes, get_or, drop,
}
use router1_app.Ctype.Spec.{is_space, is_digit}

-- `value[i]`, up to the NUL.
abbrev pub char_at : Bytes → ℕ → ℕ
char_at text i = get_or text i 0

abbrev pub to_lower : ℕ → ℕ
to_lower c = if leb b'A' c && leb c b'Z' then c + 32 else c

-- `!strncasecmp(a, b, n)`.
unfoldable pub strncasecmp_eq : ℕ → Bytes → Bytes → Bool
strncasecmp_eq zero a b = true
strncasecmp_eq (suc n) [] [] = true
strncasecmp_eq (suc n) [] (y ∷ b) = false
strncasecmp_eq (suc n) (x ∷ a) [] = false
strncasecmp_eq (suc n) (x ∷ a) (y ∷ b) = to_lower x == to_lower y && strncasecmp_eq n a b

-- `!strcasecmp(a, b)` and `!strcmp(a, b)`.
unfoldable pub strcasecmp_eq : Bytes → Bytes → Bool
strcasecmp_eq [] [] = true
strcasecmp_eq [] (y ∷ b) = false
strcasecmp_eq (x ∷ a) [] = false
strcasecmp_eq (x ∷ a) (y ∷ b) = to_lower x == to_lower y && strcasecmp_eq a b

unfoldable pub strcmp_eq : Bytes → Bytes → Bool
strcmp_eq [] [] = true
strcmp_eq [] (y ∷ b) = false
strcmp_eq (x ∷ a) [] = false
strcmp_eq (x ∷ a) (y ∷ b) = x == y && strcmp_eq a b

-- `strchr(text, c)` for c other than the NUL: what stands before the first c, and what behind it.
unfoldable pub split_first : ℕ → Bytes → Option (Bytes × Bytes)
split_first c [] = none
split_first c (x ∷ text) =
    let rest = split_first c text in
    if x == c
    then some ([], text)
    else elim rest [ none ↦ none | some (before, after) ↦ some (x ∷ before, after) ]

-- `strrchr(text, c)`: the same for the last c.
unfoldable pub split_last : ℕ → Bytes → Option (Bytes × Bytes)
split_last c [] = none
split_last c (x ∷ text) = elim (split_last c text) [
  | some (before, after) ↦ some (x ∷ before, after)
  | none ↦ if x == c then some ([], text) else none
]

-- strtoul: white space, a sign, the prefix 0x in base 16, and digits.
unfoldable pub skip_spaces : Bytes → Bytes
skip_spaces [] = []
skip_spaces (c ∷ text) = let rest = skip_spaces text in if is_space c then rest else c ∷ text

abbrev pub digit_value : ℕ → ℕ → Option ℕ
digit_value base c =
    if is_digit c
    then some (c - 48)
    else if base == 16 && leb b'a' (to_lower c) && leb (to_lower c) b'f'
    then some (to_lower c - 87)
    else none

-- What a run of digits comes to, the count of the digits, and the text behind them.
pub record Scanned : Type 0 where
  pub number : ℕ
  pub count : ℕ
  pub rest : Bytes

unfoldable pub scan_digits : ℕ → ℕ → ℕ → Bytes → Scanned
scan_digits base number count [] = record { number = number; count = count; rest = [] }
scan_digits base number count (c ∷ text) = elim (digit_value base c) [
  | some d ↦ scan_digits base (number * base + d) (count + 1) text
  | none ↦ record { number = number; count = count; rest = c ∷ text }
]

abbrev pub ulong_max : ℕ
ulong_max = 2 ^ 64 - 1

-- A minus sign negates modulo 2 ^ 64; a number out of range gives ULONG_MAX with either sign.
abbrev pub ulong : Bool → ℕ → ℕ
ulong negative n =
    if ltb ulong_max n then ulong_max else if negative then (2 ^ 64 - n) % 2 ^ 64 else n

abbrev pub sign_of : Bytes → Bool × Bytes
sign_of [] = (false, [])
sign_of (c ∷ text) =
    if c == b'-' then (true, text) else if c == b'+' then (false, text) else (false, c ∷ text)

abbrev pub is_some : Option ℕ → Bool
is_some none = false
is_some (some d) = true

-- `0x` counts as a prefix only before a digit.
abbrev pub skip_prefix : ℕ → Bytes → Bytes
skip_prefix base text =
    if base == 16
      && char_at text 0 == b'0'
      && to_lower (char_at text 1) == b'x'
      && is_some (digit_value 16 (char_at text 2))
    then drop 2 text
    else text

-- `strtoul(text, &end, base)`: the value, and the text from `end` on. Without digits `end` is `text`.
unfoldable pub strtoul : Bytes → ℕ → ℕ × Bytes
unfolding skip_spaces scan_digits
strtoul text base =
    let signed = sign_of (skip_spaces text) in
    let s = scan_digits base 0 0 (skip_prefix base signed.1) in
    if s.count == 0 then (0, text) else (ulong signed.0 s.number, s.rest)

-- `atoi(text)`, that is `(int) strtol(text, NULL, 10)` with a long of 64 bits, as a bit pattern.
unfoldable pub atoi : Bytes → ℕ
unfolding skip_spaces scan_digits
atoi text =
    let signed = sign_of (skip_spaces text) in
    let n = (scan_digits 10 0 0 signed.1).number in
    let low = if ltb (2 ^ 63) n then 2 ^ 63 else n in
    let high = if ltb n (2 ^ 63) then n else 2 ^ 63 - 1 in
    if signed.0 then (2 ^ 64 - low) % 2 ^ 32 else high % 2 ^ 32
