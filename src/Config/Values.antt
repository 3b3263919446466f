-- ===== src/Config/Values.antt =====
-- The parsers of single values in config.c. A parser that answers false has its caller free what was
-- built, so `fail` carries no state.
pub mod Laws
pub mod Numbers
use router1_app.Prelude.{
  ℕ, ◌-◌, ◌%◌, ◌^◌, bit_or, Bool, true, false, not, ◌&&◌, ◌||◌, Option, none, some, [], ◌∷◌, ltb,
  leb, ◌==◌, if◌then◌else◌, Bytes, codes, Outcome, ok, fail, exit, length, take, drop,
}
use router1_app.Libc.{char_at, strcasecmp_eq, strtoul}
use router1_app.Ctype.{char_is_space, char_is_digit}
use router1_app.Encoding.Base64.{key_from_base64, wg_key_len_base64}
use router1_app.Containers.{
  max_awg_string_len, Family, zero_key, af_unspec, af_inet, af_inet6, other,
}
use router1_app.Containers.Flags.{}
use router1_app.Containers.DeviceFlag
use router1_app.Containers.PeerFlag
use router1_app.Config.Host.{Resolved, Host, found, error, no_file, contents, KeyFile}

-- A value together with the flags of its structure.
pub record Flagged : Type 0 where
  pub value : ℕ
  pub flags : ℕ

abbrev is_family : Family → ℕ → Host → Bool
is_family af_inet n h = n == h.sizeof_sockaddr_in
is_family af_inet6 n h = n == h.sizeof_sockaddr_in6
is_family af_unspec n h = false
is_family other n h = false

unfoldable pub known_family : Host → Resolved → Bool
known_family h r = is_family r.ai_addr.sa_family r.ai_addrlen h

unfoldable pub parse_port : Host → ℕ → Bytes → Outcome Flagged
unfolding known_family
parse_port h flags value = if length value == 0 then fail else elim (h.getaddrinfo 0 none value) [
  | error e ↦ fail
  | found r ↦
      if known_family h r
      then ok (record { value = r.ai_port; flags = bit_or flags DeviceFlag.has_listen_port })
      else fail
]

-- `*end` is the first character that strtoul has not read, the NUL if there is none.
abbrev pub at_end : Bytes → Bool
at_end [] = true
at_end (c ∷ text) = false

unfoldable pub parse_fwmark : ℕ → Bytes → Outcome Flagged
unfolding strcasecmp_eq char_is_digit
parse_fwmark flags value =
    if strcasecmp_eq value (codes "off")
    then ok (record { value = 0; flags = bit_or flags DeviceFlag.has_fwmark })
    else if not (char_is_digit (char_at value 0))
    then fail
    else let hex = ltb 2 (length value) && char_at value 0 == b'0' && char_at value 1 == b'x' in
      let (ret, end) = strtoul value (if hex then 16 else 10) in
      if not (at_end end) || ltb (2 ^ 32 - 1) ret
      then fail
      else ok (record { value = ret; flags = bit_or flags DeviceFlag.has_fwmark })

-- The answer, and the key afterwards: zeroed if the value is refused.
unfoldable pub parse_key : Bytes → Bytes → Bool × Bytes
parse_key key value =
    let (accepted, written) = key_from_base64 key value in
    if accepted then (true, written) else (false, zero_key)

abbrev pub all_spaces : Bytes → Bool
all_spaces [] = true
all_spaces (c ∷ text) = char_is_space c && all_spaces text

-- An empty file gives the zero key. Otherwise 44 characters, and white space behind them.
unfoldable pub read_keyfile : Bytes → KeyFile → Bool × Bytes
unfolding parse_key
read_keyfile key no_file = (false, key)
read_keyfile key (contents text) =
    if ltb (length text) (wg_key_len_base64 - 1)
    then (if length text == 0 then (true, zero_key) else (false, key))
    else if all_spaces (drop (wg_key_len_base64 - 1) text)
    then parse_key key (take (wg_key_len_base64 - 1) text)
    else (false, key)

unfoldable pub parse_keyfile : Host → Bytes → Bytes → Bool × Bytes
unfolding read_keyfile
parse_keyfile h key path = read_keyfile key (h.open_file path)

unfoldable pub parse_persistent_keepalive : ℕ → Bytes → Outcome Flagged
unfolding strcasecmp_eq char_is_digit
parse_persistent_keepalive flags value =
    if strcasecmp_eq value (codes "off")
    then ok (record { value = 0; flags = bit_or flags PeerFlag.has_persistent_keepalive_interval })
    else if not (char_is_digit (char_at value 0))
    then fail
    else let (ret, end) = strtoul value 10 in
      if not (at_end end) || ltb 65535 ret
      then fail
      else ok (record {
        value = ret % 2 ^ 16;
        flags = bit_or flags PeerFlag.has_persistent_keepalive_interval;
      })

unfoldable pub parse_awg_string : Bytes → Outcome (Option Bytes)
parse_awg_string value =
    if length value == 0
    then ok none
    else if leb max_awg_string_len (length value)
    then fail
    else ok (some value)

-- `ret` is a uint32_t: it keeps the low 32 bits of what strtoul returns.
unfoldable pub parse_uint16 : Bytes → Outcome ℕ
parse_uint16 value =
    if length value == 0
    then fail
    else let (parsed, end) = strtoul value 10 in
      let ret = parsed % 2 ^ 32 in
      if not (at_end end) || ltb 65535 ret then exit else ok (ret % 2 ^ 16)

unfoldable pub parse_bool : Bytes → Outcome Bool
unfolding strcasecmp_eq char_is_digit
parse_bool value =
    if length value == 0
    then fail
    else if strcasecmp_eq value (codes "off")
    then ok false
    else if strcasecmp_eq value (codes "on")
    then ok true
    else if not (char_is_digit (char_at value 0))
    then fail
    else let (parsed, end) = strtoul value 10 in
      let ret = parsed % 2 ^ 32 in if not (at_end end) then exit else ok (not (ret == 0))
