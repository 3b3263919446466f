-- ===== src/Uapi/Wire.antt =====
-- What the two functions of ipc-uapi.h share: the host behind them, integers, and the lines of an
-- answer.
use Prim.Native.Nat.{min}
use router1_app.Prelude.{
  ℕ, zero, suc, ◌-◌, ◌^◌, Bool, true, false, ◌&&◌, Option, none, some, List, [], ◌∷◌, ltb, leb,
  ◌==◌, if◌then◌else◌, Bytes, length,
}
use router1_app.Libc.{char_at, split_first, skip_spaces, scan_digits, sign_of}
use router1_app.Ctype.{}
use router1_app.Containers.{Family, SockAddr}
use router1_app.Config.Host.{Gai}

-- An int: `negsuc n` is -(n + 1).
pub data ℤ : Type 0 where
  pos : ℕ → ℤ
  negsuc : ℕ → ℤ

abbrev pub negate : ℕ → ℤ
negate zero = pos 0
negate (suc n) = negsuc n

-- The error numbers of Linux that the two functions name.
abbrev pub einval : ℕ
einval = 22

abbrev pub eproto : ℕ
eproto = 71

abbrev pub enetunreach : ℕ
enetunreach = 101

-- The daemon's socket answers a request with the lines that `getline` gives, each with its newline
-- if it has one; `none` if the socket cannot be opened, with errno. `errno_after` is errno when the
-- answer has been read. The rest turns addresses into text and back, and gives the public key of a
-- private key.
pub record Daemon : Type 0 where
  pub open_errno : Bytes → Option ℕ
  pub answer : Bytes → Bytes → List Bytes
  pub errno_after : ℕ
  pub getnameinfo : SockAddr → Option (Bytes × Bytes)
  pub inet_ntop : Family → Bytes → Option Bytes
  pub inet_pton : Family → Bytes → Option Bytes
  pub getaddrinfo : Bytes → Bytes → Gai
  pub sizeof_sockaddr_in : ℕ
  pub sizeof_sockaddr_in6 : ℕ
  pub generate_public : Bytes → Bytes

abbrev pub newline : Bytes
newline = b'\n' ∷ []

-- The text without its last character, and whether that is a newline.
abbrev pub drop_last : Bytes → Bytes
drop_last [] = []
drop_last (c ∷ []) = []
drop_last (c ∷ d ∷ text) = c ∷ drop_last (d ∷ text)

abbrev pub ends_line : Bytes → Bool
ends_line [] = false
ends_line (c ∷ []) = c == b'\n'
ends_line (c ∷ d ∷ text) = ends_line (d ∷ text)

-- A line of an answer: the empty line at its end, `key=value`, or what breaks the loop.
pub data Line : Type 0 where
  last_line : Line
  entry : Bytes → Bytes → Line
  malformed : Line

abbrev entry_of : Bool → Option (Bytes × Bytes) → Line
entry_of ends none = malformed
entry_of ends (some (key, value)) = if ends then entry key (drop_last value) else malformed

unfoldable pub read_line : Bytes → Line
unfolding split_first
read_line line =
    if length line == 1 && char_at line 0 == b'\n'
    then last_line
    else entry_of (ends_line line) (split_first b'=' line)

-- `strtoll(value, &end, 10)`: the value, limited to 64 bits, and the text from `end` on.
abbrev limit : Bool → ℕ → ℤ
limit true n = negate (min n (2 ^ 63))
limit false n = pos (min n (2 ^ 63 - 1))

unfoldable pub strtoll : Bytes → ℤ × Bytes
unfolding skip_spaces scan_digits
strtoll text =
    let signed = sign_of (skip_spaces text) in
    let s = scan_digits 10 0 0 signed.1 in
    if s.count == 0 then (pos 0, text) else (limit signed.0 s.number, s.rest)

-- `num > INT_MAX || num < INT_MIN`.
abbrev pub out_of_int : ℤ → Bool
out_of_int (pos n) = ltb (2 ^ 31 - 1) n
out_of_int (negsuc n) = leb (2 ^ 31) n
