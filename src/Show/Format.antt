-- ===== src/Show/Format.antt =====
-- The texts of show.c for times, sizes, keys and addresses.
pub mod Laws
use Prim.Native.String.{String}
use router1_app.Prelude.{
  ℕ, zero, suc, ◌+◌, ◌-◌, ◌*◌, ◌/◌, ◌%◌, Bool, true, false, Option, none, some, [], ◌∷◌, ◌++◌, ltb,
  ◌==◌, if◌then◌else◌, Bytes, codes, truthy, ◌^◌, sub64,
}
use router1_app.Libc.{strcmp_eq, split_first}
use router1_app.Encoding.Base64.{key_to_base64}
use router1_app.Containers.{Family, AllowedIp, SockAddr, af_inet, af_inet6}
use router1_app.Uapi.Print.{print_u, print_digits}

-- What getnameinfo gives: a host and a service, or the text of its error.
pub data Name : Type 0 where
  named : Bytes → Bytes → Name
  unnamed : Bytes → Name

-- What show.c takes from its surroundings: the texts of addresses, none where inet_ntop fails, the
-- variable WG_HIDE_KEYS, the time, whether escape sequences are written, and the text of a quotient
-- with two decimal places.
pub record Surroundings : Type 0 where
  pub inet_ntop : Family → Bytes → Option Bytes
  pub getnameinfo : SockAddr → Name
  pub hide_keys : Option Bytes
  pub now : ℕ
  pub color : Bool
  pub two_places : ℕ → ℕ → Bytes

-- `%llu`: twenty digits are enough for 64 bits.
unfoldable pub print_llu : ℕ → Bytes
unfolding print_digits
print_llu n = print_digits 20 n []

-- `%x`: eight digits are enough for 32 bits.
unfoldable pub print_hex : ℕ → ℕ → Bytes → Bytes
print_hex zero n acc = acc
print_hex (suc k) n acc =
    let d = n % 16 in
    let digit = if ltb d 10 then d + 48 else d + 87 in
    let more = print_hex k (n / 16) (digit ∷ acc) in if ltb n 16 then digit ∷ acc else more

unfoldable pub print_x : ℕ → Bytes
unfolding print_hex
print_x n = print_hex 8 n []

-- TERMINAL_RESET and its like.
abbrev pub sequence : String → Bytes
sequence text = 0x1b ∷ codes text

abbrev pub reset : Bytes
reset = sequence "[0m"

abbrev pub bold : Bytes
bold = sequence "[1m"

abbrev pub fg_red : Bytes
fg_red = sequence "[31m"

abbrev pub fg_green : Bytes
fg_green = sequence "[32m"

abbrev pub fg_yellow : Bytes
fg_yellow = sequence "[33m"

abbrev pub fg_cyan : Bytes
fg_cyan = sequence "[36m"

abbrev pub key : Bytes → Bytes
unfolding key_to_base64
key k = key_to_base64 k

unfoldable pub maybe_key : Bytes → Bool → Bytes
maybe_key k have_it = if have_it then key k else codes "(none)"

unfoldable pub masked_key : Surroundings → Bytes → Bytes
unfolding strcmp_eq
masked_key s k = elim s.hide_keys [
  | none ↦ codes "(hidden)"
  | some var ↦ if strcmp_eq var (codes "never") then key k else codes "(hidden)"
]

abbrev pub text_or_empty : Option Bytes → Bytes
text_or_empty none = []
text_or_empty (some text) = text

unfoldable pub ip : Surroundings → AllowedIp → Bytes
ip s a = elim a.family [
  | af_inet ↦ text_or_empty (s.inet_ntop af_inet a.ip)
  | af_inet6 ↦ text_or_empty (s.inet_ntop af_inet6 a.ip)
  | _ ↦ []
]

abbrev pub is_found : Option (Bytes × Bytes) → Bool
is_found none = false
is_found (some parts) = true

abbrev pub is_inet6 : Family → Bool
is_inet6 af_inet6 = true
is_inet6 _ = false

-- The buffers are taken to be large enough, as they are for every text of getnameinfo.
unfoldable pub endpoint : Surroundings → SockAddr → Bytes
unfolding split_first
endpoint s a = elim (s.getnameinfo a) [
  | unnamed text ↦ text
  | named host service ↦
      let colon = is_found (split_first b':' host) in
      if (if is_inet6 a.sa_family then colon else false)
      then codes "[" ++ (host ++ (codes "]:" ++ service))
      else host ++ (codes ":" ++ service)
]

-- The units of pretty_time, from years down to seconds.
pub record Units : Type 0 where
  pub years : ℕ
  pub days : ℕ
  pub hours : ℕ
  pub minutes : ℕ
  pub seconds : ℕ

unfoldable pub units_of : ℕ → Units
units_of left =
    let left1 = left % (365 * 24 * 60 * 60) in
    let left2 = left1 % (24 * 60 * 60) in
    let left3 = left2 % (60 * 60) in
    record {
      years = left / (365 * 24 * 60 * 60);
      days = left1 / (24 * 60 * 60);
      hours = left2 / (60 * 60);
      minutes = left3 / 60;
      seconds = left3 % 60;
    }

-- One unit behind the text so far; a unit of 0 is left out.
abbrev pub comma : Bytes → Bytes
comma [] = []
comma (c ∷ text) = codes ", "

unfoldable pub add_unit : Bytes → ℕ → String → Bytes
unfolding print_llu
add_unit text n unit =
    if truthy n
    then text
      ++ (comma text
          ++ (print_llu n
              ++ (codes " "
                  ++ (fg_cyan ++ (codes unit ++ ((if n == 1 then [] else codes "s") ++ reset))))))
    else text

-- The text, where the buffer of 1024 bytes is not reached.
unfoldable pub pretty_time : ℕ → Bytes
unfolding units_of add_unit
pretty_time left =
    let u = units_of left in
    let text1 = add_unit [] u.years "year" in
    let text2 = add_unit text1 u.days "day" in
    let text3 = add_unit text2 u.hours "hour" in
    let text4 = add_unit text3 u.minutes "minute" in add_unit text4 u.seconds "second"

-- The order of the words of 64 bits as numbers with a sign.
abbrev pub signed : ℕ → ℕ
signed word = (word + 2 ^ 63) % 2 ^ 64

unfoldable pub ago : Surroundings → ℕ → Bytes
unfolding pretty_time
ago s sec =
    if s.now == sec
    then codes "Now"
    else if ltb (signed s.now) (signed sec)
    then codes "("
      ++ (fg_red
          ++ (codes "System clock wound backward; connection problems may ensue."
              ++ (reset ++ codes ")")))
    else pretty_time (sub64 s.now sec) ++ codes " ago"

unfoldable pub every : ℕ → Bytes
unfolding pretty_time
every seconds = codes "every " ++ pretty_time seconds

abbrev pub unit_text : Bytes → String → Bytes
unit_text number unit = number ++ (codes " " ++ (fg_cyan ++ (codes unit ++ reset)))

unfoldable pub bytes : Surroundings → ℕ → Bytes
unfolding print_u
bytes s b =
    let kib : ℕ = 1024 in
    let mib : ℕ = 1024 * 1024 in
    let gib : ℕ = 1024 * 1024 * 1024 in
    let tib : ℕ = 1024 * 1024 * 1024 * 1024 in
    if ltb b kib
    then unit_text (print_u b) "B"
    else if ltb b mib
    then unit_text (s.two_places b kib) "KiB"
    else if ltb b gib
    then unit_text (s.two_places b mib) "MiB"
    else if ltb b tib
    then unit_text (s.two_places b gib) "GiB"
    else unit_text (s.two_places b tib) "TiB"
