-- ===== src/Terminal.antt =====
-- android/tunnel/tools/amneziawg-tools/src/terminal.c: text with escape sequences for a terminal, and
-- without them for a file. What `vasprintf` has formatted is a parameter; it has no NUL.
pub mod Laws
use router1_app.Prelude.{
  ℕ, zero, suc, ◌-◌, Bool, true, false, ◌&&◌, Option, none, some, [], ◌∷◌, leb, ◌==◌, if◌then◌else◌,
  Bytes, codes, length,
}
use router1_app.Libc.{strcmp_eq}
use router1_app.Ctype.{char_is_alpha}

-- `color_mode`: the variable WG_COLOR_MODE, then whether the output is a terminal.
unfoldable pub color_mode : Option Bytes → Bool → Bool
unfolding strcmp_eq
color_mode none isatty = isatty
color_mode (some var) isatty =
    if strcmp_eq var (codes "always")
    then true
    else if strcmp_eq var (codes "never")
    then false
    else isatty

abbrev pub escape : ℕ
escape = 0x1b

-- The inner loop: everything up to a letter, and the letter, becomes NUL.
unfoldable pub wipe : Bytes → Bytes
unfolding char_is_alpha
wipe [] = []
wipe (c ∷ text) = let rest = 0 ∷ wipe text in if char_is_alpha c then 0 ∷ text else rest

abbrev pub starts_sequence : ℕ → Bytes → Bool
starts_sequence c [] = false
starts_sequence c (d ∷ text) = c == escape && d == b'['

-- The array behind `str[i]`, with `str[i + 1]` and what follows it wiped.
abbrev pub wiped : Bytes → Bytes
wiped [] = []
wiped (d ∷ text) = 0 ∷ wipe text

-- The outer loop, for so many values of i.
unfoldable pub erase : ℕ → Bytes → Bytes
unfolding wipe
erase zero text = text
erase (suc n) [] = []
erase (suc n) (c ∷ text) =
    if starts_sequence c text then 0 ∷ erase n (wiped text) else c ∷ erase n text

-- The last loop: the runs between the NULs.
unfoldable pub print_runs : Bytes → Bytes
print_runs [] = []
print_runs (c ∷ text) = if c == 0 then print_runs text else c ∷ print_runs text

unfoldable pub filter_ansi : Bool → Bytes → Bytes
unfolding erase print_runs
filter_ansi color text =
    if color
    then text
    else print_runs (if leb 2 (length text) then erase (length text - 2) text else text)
