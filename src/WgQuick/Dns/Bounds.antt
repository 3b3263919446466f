-- ===== src/WgQuick/Dns/Bounds.antt =====
-- wg-quick/android.c: the two texts for the shell fit their buffers.
use router1_app.Prelude.{
  ℕ, ◌+◌, ◌*◌, ◌≤◌, inl, inr, List, [], ◌∷◌, ◌++◌, arith, Bool-cases, Bytes, length, take, All,
  length-append, length-take, ◌-◌, codes, if◌then◌else◌,
}
use router1_app.WgQuick.Dns.{names_of, collect, add_arg, Names, no_names, is_address, add_name}
use router1_app.WgQuick.Script.{World, concat}
use router1_app.WgQuick.Net.{is_one_of, strtok_loop, with_token, strtok, is_unsafe, delimiters}

-- The characters of the tokens, and one behind each of them.
unfoldable pub weight : List Bytes → ℕ
weight [] = 0
weight (token ∷ tokens) = length token + 1 + weight tokens

weight-with_token :
    (inside : Bytes) (more : List Bytes)
    → weight (with_token inside more) ≤ length inside + 1 + weight more
unfolding weight
weight-with_token [] more = omega arith
weight-with_token (c ∷ inside) more = omega arith

weight-strtok_loop :
    (delimiters inside text : Bytes)
    → weight (strtok_loop delimiters inside text) ≤ length inside + length text + 1
unfolding strtok_loop weight
weight-strtok_loop delimiters inside [] = omega (arith, weight-with_token inside [])
weight-strtok_loop delimiters inside (c ∷ text) = elim (Bool-cases (is_one_of c delimiters)) [
  | inl e ↦ rw e (
      omega (
        arith,
        weight-with_token inside (strtok_loop delimiters [] text),
        weight-strtok_loop delimiters [] text,
      ))
  | inr e ↦ rw e (
      omega (
        arith,
        length-append inside (c ∷ []),
        weight-strtok_loop delimiters (inside ++ (c ∷ [])) text,
      ))
]

abbrev pub IsToken : Bytes → Type 0
IsToken token = 1 ≤ length token

with_token-IsToken :
    (inside : Bytes) (more : List Bytes) → All IsToken more → All IsToken (with_token inside more)
with_token-IsToken [] more h = h
with_token-IsToken (c ∷ inside) more h = (omega arith, h)

strtok_loop-IsToken :
    (delimiters inside text : Bytes) → All IsToken (strtok_loop delimiters inside text)
unfolding strtok_loop
strtok_loop-IsToken delimiters inside [] = with_token-IsToken inside [] tt
strtok_loop-IsToken delimiters inside (c ∷ text) = elim (Bool-cases (is_one_of c delimiters)) [
  | inl e ↦ rw e (
      with_token-IsToken inside (strtok_loop delimiters [] text)
        (strtok_loop-IsToken delimiters [] text))
  | inr e ↦ rw e (strtok_loop-IsToken delimiters (inside ++ (c ∷ [])) text)
]

-- The length of the two texts.
abbrev texts_length : Names → ℕ
texts_length n = length n.dns_shell_arglist + length n.dns_search_shell_arglist

length-take_le : {A : Type 0} (n : ℕ) (xs : List A) → length (take n xs) ≤ length xs
length-take_le n xs = omega (arith, length-take n xs)

add_arg-length :
    (len : ℕ) (list dns : Bytes) → length (add_arg len list dns) ≤ length list + (length dns + 3)
add_arg-length len list dns =
    let arg = concat (codes "'" ∷ dns ∷ codes "' " ∷ []) in
    let cut = take (len + 2) arg in
    omega (
      arith,
      length-append list (take (len * 4 - 1) cut),
      length-take_le (len * 4 - 1) cut,
      length-take_le (len + 2) arg,
      length-append dns (codes "' "),
    )

add_name-length :
    (w : World) (len : ℕ) (dns : Bytes) (n : Names)
    → texts_length (add_name w len dns n) ≤ texts_length n + (length dns + 3)
unfolding add_name
add_name-length w len dns n = elim (Bool-cases (is_address w dns)) [
  | inl e ↦ rw e (omega (arith, add_arg-length len n.dns_shell_arglist dns))
  | inr e ↦ rw e (omega (arith, add_arg-length len n.dns_search_shell_arglist dns))
]

next-length :
    (w : World) (len : ℕ) (dns : Bytes) (n : Names)
    → texts_length (if is_unsafe dns then n else add_name w len dns n)
      ≤ texts_length n + (length dns + 3)
next-length w len dns n = elim (Bool-cases (is_unsafe dns)) [
  | inl e ↦ rw e (omega arith)
  | inr e ↦ rw e (add_name-length w len dns n)
]

collect-length :
    (w : World) (len : ℕ) (tokens : List Bytes) (n : Names)
    → All IsToken tokens
    → texts_length (collect w len tokens n) ≤ texts_length n + weight tokens * 2
unfolding collect weight
collect-length w len [] n h = omega arith
collect-length w len (dns ∷ more) n (one, h) =
    let next = if is_unsafe dns then n else add_name w len dns n in
    omega (arith, one, collect-length w len more next h, next-length w len dns n)

-- The two texts that a list of name servers gives, with a NUL each, fit buffers of 4 n + 1
-- characters, for a list of n characters.
pub names_of_bounds :
    (w : World) (dnses : Bytes)
    → 1 ≤ length dnses
    → texts_length (names_of w dnses) ≤ length dnses * 4
names_of_bounds w dnses h =
    let tokens = strtok delimiters dnses in
    omega (
      arith,
      h,
      collect-length w (length dnses) tokens no_names (strtok_loop-IsToken delimiters [] dnses),
      weight-strtok_loop delimiters [] dnses,
    )
