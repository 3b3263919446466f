-- ===== src/Config/Address.antt =====
-- `parse_ip`, `validate_netmask` and `parse_allowedips` of config.c. An address is the list of its
-- bytes in network order; `ntohl(ip[i])` is the number of the four bytes from 4 * i on.
pub mod Netmask
pub mod Laws
use router1_app.Prelude.{
  ℕ, zero, suc, ◌+◌, ◌-◌, ◌*◌, ◌/◌, ◌%◌, ◌^◌, bit_and, bit_or, Bool, true, false, not, ◌||◌, Option,
  none, some, List, [], ◌∷◌, ◌++◌, ltb, leb, ◌==◌, if◌then◌else◌, truthy, Bytes, Outcome, ◌>>=◌,
  ◌>>◌, ok, fail, length, get_or,
}
use router1_app.Libc.{char_at, split_first, strtoul}
use router1_app.Ctype.{char_is_digit}
use router1_app.Containers.{Family, AllowedIp, Peer, af_unspec, af_inet, af_inet6, other}
use router1_app.Containers.Flags.{}
use router1_app.Containers.PeerFlag
use router1_app.Config.Host.{Host}
use router1_app.Config.Values.{at_end}

-- The family and the address that `parse_ip` writes.
pub record ParsedIp : Type 0 where
  pub family : Family
  pub ip : Bytes

abbrev pub from_pton : Family → Option Bytes → Outcome ParsedIp
from_pton family none = fail
from_pton family (some ip) = ok (record { family = family; ip = ip })

abbrev pub has_colon : Option (Bytes × Bytes) → Bool
has_colon none = false
has_colon (some parts) = true

unfoldable pub parse_ip : Host → Bytes → Outcome ParsedIp
unfolding split_first
parse_ip h value =
    if has_colon (split_first b':' value)
    then from_pton af_inet6 (h.inet_pton af_inet6 value)
    else from_pton af_inet (h.inet_pton af_inet value)

unfoldable pub word32 : Bytes → ℕ → ℕ
word32 ip i =
    ((get_or ip (4 * i) 0 * 256 + get_or ip (4 * i + 1) 0) * 256 + get_or ip (4 * i + 2) 0) * 256
    + get_or ip (4 * i + 3) 0

-- The loop from the word i - 1 down to the word 0. `mask >> n` is the word of 32 - n ones.
unfoldable pub netmask_loop : Bytes → ℕ → ℕ → Bool
unfolding word32
netmask_loop ip cidr zero = true
netmask_loop ip cidr (suc i) =
    let rest = netmask_loop ip cidr i in
    if leb (32 * (i + 1)) cidr
    then true
    else let mask = if ltb (32 * i) cidr then (2 ^ 32 - 1) / 2 ^ (cidr - 32 * i) else 2 ^ 32 - 1 in
      if truthy (bit_and (word32 ip i) mask) then false else rest

unfoldable pub validate_netmask : AllowedIp → Bool
unfolding netmask_loop
validate_netmask a = elim (a.family) [
  | af_inet ↦ netmask_loop a.ip a.cidr 1
  | af_inet6 ↦ netmask_loop a.ip a.cidr 4
  | _ ↦ true
]

abbrev pub max_cidr : Family → ℕ
max_cidr af_inet = 32
max_cidr af_inet6 = 128
max_cidr af_unspec = 0
max_cidr other = 0

abbrev pub too_long : Family → ℕ → Bool
too_long af_inet cidr = ltb 32 cidr
too_long af_inet6 cidr = ltb 128 cidr
too_long af_unspec cidr = false
too_long other cidr = false

-- `cidr` of an address of this family, from the text behind the slash if there is one.
unfoldable pub parse_cidr : Family → Option Bytes → Outcome ℕ
unfolding char_is_digit
parse_cidr family none = elim family [ af_inet ↦ ok 32 | af_inet6 ↦ ok 128 | _ ↦ fail ]
parse_cidr family (some mask) =
    if not (char_is_digit (char_at mask 0))
    then fail
    else let (cidr, end) = strtoul mask 10 in
      if not (at_end end) || too_long family cidr then fail else ok (cidr % 256)

-- `ip = strsep(&mask, "/")`.
abbrev pub address_part : Bytes → Option (Bytes × Bytes) → Bytes
address_part entry none = entry
address_part entry (some (ip, mask)) = ip

abbrev pub mask_part : Option (Bytes × Bytes) → Option Bytes
mask_part none = none
mask_part (some (ip, mask)) = some mask

-- One round of the loop. A nonzero host part only prints a warning.
unfoldable pub parse_allowedip : Host → Bytes → Outcome AllowedIp
unfolding split_first parse_ip parse_cidr
parse_allowedip h entry = do
  let parts = split_first b'/' entry
  p ← parse_ip h (address_part entry parts)
  cidr ← parse_cidr p.family (mask_part parts)
  ok (record { family = p.family; ip = p.ip; cidr = cidr })

-- The fields between the commas: one more than there are commas.
unfoldable pub split_commas : Bytes → List Bytes
split_commas [] = [] ∷ []
split_commas (c ∷ text) =
    let rest = split_commas text in
    if c == b','
    then [] ∷ rest
    else elim rest [ [] ↦ (c ∷ []) ∷ [] | entry ∷ more ↦ (c ∷ entry) ∷ more ]

unfoldable pub parse_entries : Host → List Bytes → Outcome (List AllowedIp)
unfolding parse_allowedip
parse_entries h [] = ok []
parse_entries h (entry ∷ more) = do
  a ← parse_allowedip h entry
  rest ← parse_entries h more
  ok (a ∷ rest)

-- The new addresses go behind those of the earlier lines of this peer: `*last_allowedip` is the last
-- of the peer's list.
unfoldable pub parse_allowedips : Host → Bytes → Peer → Outcome Peer
unfolding parse_entries split_commas
parse_allowedips h value peer =
    let peer' = record peer { flags = bit_or peer.flags PeerFlag.replace_allowedips } in
    if length value == 0 then ok peer' else do
      new ← parse_entries h (split_commas value)
      ok (record peer' { allowedips = peer.allowedips ++ new })
