-- ===== src/Keys.antt =====
-- android/tunnel/tools/amneziawg-tools/src/genkey.c and pubkey.c: the subcommands genkey, genpsk and
-- pubkey, and curve25519_clamp_secret of curve25519.h.
pub mod Laws
use router1_app.Prelude.{
  ℕ, ◌-◌, bit_and, bit_or, Bool, true, not, ◌&&◌, ◌||◌, Option, none, some, List, [], ◌∷◌, ◌++◌,
  ltb, ◌==◌, if◌then◌else◌, Bytes, codes, length, get_or, set, take, drop,
}
use router1_app.Libc.{strcmp_eq}
use router1_app.Ctype.{char_is_space}
use router1_app.Encoding.Flags.{wg_key_len}
use router1_app.Encoding.Base64.{key_to_base64, key_from_base64, wg_key_len_base64}
use router1_app.Containers.{zero_key}

unfoldable pub curve25519_clamp_secret : Bytes → Bytes
curve25519_clamp_secret secret =
    let low = set secret 0 (bit_and (get_or secret 0 0) 248) in
    set low 31 (bit_or (bit_and (get_or low 31 0) 127) 64)

-- The loop over `read`, which may give fewer bytes than were asked for; `out` is filled up to i. An
-- answer is the bytes that a call gives, none at the end of the file and after an error. The loop
-- stops with the answers.
unfoldable pub read_random : ℕ → Bytes → List Bytes → Option Bytes
read_random len out [] = if ltb (length out) len then none else some out
read_random len out ([] ∷ more) = if ltb (length out) len then none else some out
read_random len out ((c ∷ text) ∷ more) =
    let rest = read_random len (out ++ take (len - length out) (c ∷ text)) more in
    if ltb (length out) len then rest else some out

-- What genkey_main takes from the host: whether `getentropy` or `getrandom` answers, and what
-- /dev/urandom gives.
pub record Random : Type 0 where
  pub getrandom : Option Bytes
  pub urandom : Option (List Bytes)

unfoldable pub get_random_bytes : Random → ℕ → Option Bytes
unfolding read_random
get_random_bytes r len = if ltb 256 len then none else elim (r.getrandom) [
  | some text ↦ some text
  | none ↦ elim (r.urandom) [ none ↦ none | some answers ↦ read_random len [] answers ]
]

-- The exit status, and the line that is written.
pub record Printed : Type 0 where
  pub status : ℕ
  pub text : Bytes

abbrev pub refused : Printed
refused = record { status = 1; text = [] }

abbrev pub puts : Bytes → Printed
puts text = record { status = 0; text = text ++ (b'\n' ∷ []) }

unfoldable pub genkey_main : Random → List Bytes → Printed
unfolding strcmp_eq
genkey_main r (cmd ∷ []) = elim (get_random_bytes r wg_key_len) [
  | none ↦ refused
  | some key ↦
      puts (
        key_to_base64 (if strcmp_eq cmd (codes "genkey") then curve25519_clamp_secret key else key))
]
genkey_main r argv = refused

-- The loop over what follows the key: NULs and white space.
unfoldable pub only_blanks : Bytes → Bool
unfolding char_is_space
only_blanks [] = true
only_blanks (c ∷ text) = (c == 0 || char_is_space c) && only_blanks text

-- The standard input is the list of its bytes, and `generate_public` that of curve25519.c.
unfoldable pub pubkey_main : (Bytes → Bytes) → List Bytes → Bytes → Printed
unfolding only_blanks
pubkey_main generate_public (cmd ∷ []) stdin =
    let base64 = take (wg_key_len_base64 - 1) stdin in
    if not (length base64 == wg_key_len_base64 - 1)
    then refused
    else if not (only_blanks (drop (wg_key_len_base64 - 1) stdin))
    then refused
    else let (accepted, key) = key_from_base64 zero_key base64 in
      if accepted then puts (key_to_base64 (generate_public key)) else refused
pubkey_main generate_public argv stdin = refused
