-- ===== src/Config/Address/Laws.antt =====
-- The addresses that `parse_allowedips` adds, and where it adds them.
use router1_app.Prelude.{
  ◌≤◌, ◌≡◌, refl, ◌⊎◌, inl, inr, Option, none, some, List, [], ◌∷◌, arith, ◌==◌, Bool-cases, Bytes,
  Ensures, Ensures-bind, length, All, All-append, ok,
}
use router1_app.Libc.{split_first}
use router1_app.Containers.{Family, Peer, af_unspec, af_inet, af_inet6, other}
use router1_app.Containers.Valid.{address_size, prefix_size, IsAllowedIp, IsPeer}
use router1_app.Config.Host.{Host, IsHost}
use router1_app.Config.Address.{
  ParsedIp, from_pton, has_colon, parse_ip, parse_cidr, parse_allowedip, split_commas,
  parse_entries, parse_allowedips, address_part, mask_part,
}

record IsParsedIp (p : ParsedIp) : Type 0 where
  known : (p.family ≡ af_inet) ⊎ (p.family ≡ af_inet6)
  size : length p.ip ≡ address_size p.family

from_pton-Ensures :
    (family : Family) (answer : Option Bytes)
    → (family ≡ af_inet) ⊎ (family ≡ af_inet6)
    → ((ip : Bytes) → answer ≡ some ip → length ip ≡ address_size family)
    → Ensures IsParsedIp (from_pton family answer)
from_pton-Ensures family none k h = tt
from_pton-Ensures family (some ip) k h = record { known = k; size = h ip refl }

parse_ip-Ensures : (h : Host) (v : Bytes) → IsHost h → Ensures IsParsedIp (parse_ip h v)
unfolding parse_ip
parse_ip-Ensures h v w = elim (Bool-cases (has_colon (split_first b':' v))) [
  | inl six ↦ rw six (from_pton-Ensures af_inet6 _ (inr refl) (w.inet6_size v))
  | inr four ↦ rw four (from_pton-Ensures af_inet _ (inl refl) (w.inet_size v))
]

parse_cidr-Ensures :
    (family : Family) (mask : Option Bytes)
    → (family ≡ af_inet) ⊎ (family ≡ af_inet6)
    → Ensures (λ c. c ≤ prefix_size family) (parse_cidr family mask)
unfolding parse_cidr
parse_cidr-Ensures af_inet none k = omega arith
parse_cidr-Ensures af_inet6 none k = omega arith
parse_cidr-Ensures af_unspec none k = tt
parse_cidr-Ensures other none k = tt
parse_cidr-Ensures af_inet (some mask) k = ground arith
parse_cidr-Ensures af_inet6 (some mask) k = ground arith
parse_cidr-Ensures af_unspec (some mask) k = ground arith
parse_cidr-Ensures other (some mask) k = ground arith

parse_allowedip-Ensures :
    (h : Host) (v : Bytes) → IsHost h → Ensures IsAllowedIp (parse_allowedip h v)
unfolding parse_allowedip
parse_allowedip-Ensures h v w =
    let parts = split_first b'/' v in
    Ensures-bind IsParsedIp IsAllowedIp (parse_ip h (address_part v parts)) _
      (parse_ip-Ensures h (address_part v parts) w)
      (λ p good.
        Ensures-bind (λ c. c ≤ prefix_size p.family) IsAllowedIp
          (parse_cidr p.family (mask_part parts))
          (λ c. ok (record { family = p.family; ip = p.ip; cidr = c }))
          (parse_cidr-Ensures p.family (mask_part parts) good.known)
          (λ c fits. record { known = good.known; size = good.size; prefix = fits }))

parse_entries-Ensures :
    (h : Host) (entries : List Bytes)
    → IsHost h
    → Ensures (All IsAllowedIp) (parse_entries h entries)
unfolding parse_entries
parse_entries-Ensures h [] w = tt
parse_entries-Ensures h (v ∷ more) w =
    Ensures-bind IsAllowedIp (All IsAllowedIp) (parse_allowedip h v) _
      (parse_allowedip-Ensures h v w)
      (λ a good.
        Ensures-bind (All IsAllowedIp) (All IsAllowedIp) (parse_entries h more) _
          (parse_entries-Ensures h more w) (λ rest later. (good, later)))

-- `parse_allowedips` leaves a well-formed peer well-formed: each address that it adds is of IPv4 or
-- IPv6, has the size of its family, and a prefix that fits it. The host is as its manuals say.
pub parse_allowedips-Ensures :
    (h : Host) (v : Bytes) (p : Peer)
    → IsHost h
    → IsPeer p
    → Ensures IsPeer (parse_allowedips h v p)
unfolding parse_allowedips
parse_allowedips-Ensures h v p w good = elim (Bool-cases (length v == 0)) [
  | inl empty ↦ rw empty record {
    public_key_size = good.public_key_size;
    preshared_key_size = good.preshared_key_size;
    interval_range = good.interval_range;
    allowedips_valid = good.allowedips_valid;
  }
  | inr text ↦ rw text (
      Ensures-bind (All IsAllowedIp) IsPeer (parse_entries h (split_commas v)) _
        (parse_entries-Ensures h (split_commas v) w)
        (λ new valid. record {
          public_key_size = good.public_key_size;
          preshared_key_size = good.preshared_key_size;
          interval_range = good.interval_range;
          allowedips_valid = All-append IsAllowedIp p.allowedips new good.allowedips_valid valid;
        }))
]
