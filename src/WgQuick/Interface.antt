-- ===== src/WgQuick/Interface.antt =====
-- wg-quick/android.c: making, starting and deleting the interface.
pub mod Netid
pub mod Steps
pub mod Removal
use Prim.Native.String.{String}
use router1_app.Prelude.{
  ℕ, zero, suc, Bool, true, false, not, ◌&&◌, Option, none, some, List, [], ◌∷◌, ltb, ◌==◌,
  if◌then◌else◌, Bytes, codes, truthy, bit_and, ◌*◌, set,
}
use router1_app.Libc.{char_at, split_first, strtoul}
use router1_app.Uapi.Print.{print_u}
use router1_app.Show.Format.{print_llu, endpoint, ip}
use router1_app.WgQuick.Script.{
  World, Script, Result, hang, pure, gets, ◌>>=◌, ◌>>◌, concat, cmd, popen, cmd_ret, each_line,
  cndc, ending, on_option, returned,
}

unfoldable pub add_if : World → Bytes → Script Unit
unfolding cmd
add_if w iface = do
  on ← gets (λ s. s.is_awg_on)
  cmd w (
      if on
      then concat (codes "amneziawg-go " ∷ iface ∷ [])
      else concat (codes "ip link add " ∷ iface ∷ codes " type amneziawg" ∷ []))

abbrev pub rule_regex : Bytes → Bytes
rule_regex iface = concat (codes "0xc([0-9a-f]+)/0xcffff lookup " ∷ iface ∷ [])

abbrev pub iptables_regex : Bytes → Bytes
iptables_regex iface =
    concat (codes "^-A (.* --comment \"amneziawg rule " ∷ iface ∷ codes "\"[^\n]*)\n*$" ∷ [])

-- One rule of iptables-save: a rule of this interface is deleted.
unfoldable pub delete_rule : World → Bytes → Bytes → Unit {0} → Bytes → Script Unit
unfolding cmd
delete_rule w iface command _ rule =
    on_option (w.regexec (iptables_regex iface) rule) (pure tt)
      (λ found. cmd w (concat (command ∷ codes " -D " ∷ found ∷ [])))

-- The first rule of `ip rule show` that names the interface; the lines behind it are not read.
unfoldable pub find_netid : World → Bytes → List Bytes → ℕ → Script (Option Bytes)
find_netid w iface [] e = ending e none
find_netid w iface (rule ∷ rules) e =
    on_option (w.regexec (rule_regex iface) rule) (find_netid w iface rules e)
      (λ netid. pure (some netid))

-- Behind the deletion of the interface: its rules, and its network.
unfoldable pub delete_rules : World → Bytes → Script Unit
unfolding each_line delete_rule popen find_netid cndc strtoul print_llu
delete_rules w iface = do
  each_line w (codes "iptables-save") (delete_rule w iface (codes "iptables")) tt
  each_line w (codes "ip6tables-save") (delete_rule w iface (codes "ip6tables")) tt
  rules ← popen w (codes "ip rule show")
  found ← find_netid w iface rules.0 rules.1
  on_option found (pure tt)
      (λ netid. cndc w (concat (codes "network destroy " ∷ print_llu (strtoul netid 16).0 ∷ [])))

abbrev pub link_del : Bytes → Bytes
link_del iface = concat (codes "ip link del " ∷ iface ∷ [])

unfoldable pub del_if : World → Bytes → Script Unit
unfolding cmd delete_rules
del_if w iface = do cmd w (link_del iface); delete_rules w iface

-- Whether an endpoint is an address of IPv6, and whether none is known.
pub record Endpoints : Type 0 where
  pub has_ipv6 : Bool
  pub has_all_none : Bool

abbrev pub with_endpoint : Endpoints → Bytes → Endpoints
with_endpoint seen start = record {
  has_ipv6 = if char_at start 0 == b'[' then true else seen.has_ipv6;
  has_all_none = if char_at start 0 == b'(' then seen.has_all_none else false;
}

unfoldable pub note_endpoint : Endpoints → Bytes → Script Endpoints
unfolding split_first
note_endpoint seen endpoint =
    on_option (split_first b'\t' endpoint) (pure seen) (λ parts. pure (with_endpoint seen parts.1))

unfoldable pub should_block_ipv6 : World → Bytes → Script Bool
unfolding each_line note_endpoint
should_block_ipv6 w iface = do
  seen ←
      each_line w (concat (codes "awg show " ∷ iface ∷ codes " endpoints" ∷ [])) note_endpoint
        (record { has_ipv6 = false; has_all_none = true })
  pure (not seen.has_ipv6 && not seen.has_all_none)

abbrev pub port_or_zero : ℕ → ℕ
port_or_zero n = if ltb 65535 n then 0 else n

unfoldable pub determine_listen_port : World → Bytes → Script ℕ
unfolding cmd cmd_ret strtoul
determine_listen_port w iface = do
  cmd w (concat (codes "ip link set up dev " ∷ iface ∷ []))
  value ← cmd_ret w (concat (codes "awg show " ∷ iface ∷ codes " listen-port" ∷ []))
  cmd w (concat (codes "ip link set down dev " ∷ iface ∷ []))
  on_option value (pure 0) (λ text. pure (port_or_zero (strtoul text 10).0))

-- `while (*netid < 4096) *netid = random() & 0xfffe;`, for at most `fuel` rounds.
unfoldable pub draw_netid : World → ℕ → ℕ → Script ℕ
draw_netid w zero netid s = if ltb netid 4096 then (hang, s) else (Result.returned netid, s)
draw_netid w (suc fuel) netid s =
    let rest =
      draw_netid w fuel (bit_and (w.random s.draws) 0xfffe) (record s { draws = suc s.draws }) in
    if ltb netid 4096 then rest else (Result.returned netid, s)

abbrev pub input_rule : String → ℕ → String → Bytes → Bytes
input_rule command listen_port target iface = concat (
    codes command
    ∷ codes " -I INPUT 1 -p udp --dport "
    ∷ print_u listen_port
    ∷ codes " -j "
    ∷ codes target
    ∷ codes " -m comment --comment \"amneziawg rule "
    ∷ iface
    ∷ codes "\""
    ∷ [])

abbrev pub output_rule : String → Bytes → Bytes
output_rule command iface = concat (
    codes command
    ∷ codes " -I OUTPUT 1 -m mark --mark 0x20000 -j ACCEPT -m comment --comment \"amneziawg rule "
    ∷ iface
    ∷ codes "\""
    ∷ [])

unfoldable pub open_port : World → Bytes → ℕ → Script Unit
unfolding cmd should_block_ipv6
open_port w iface listen_port = do
  cmd w (input_rule "iptables" listen_port "ACCEPT" iface)
  blocked ← should_block_ipv6 w iface
  cmd w (input_rule "ip6tables" listen_port (if blocked then "DROP" else "ACCEPT") iface)

-- Gives the number of the network.
unfoldable pub up_if : World → ℕ → Bytes → ℕ → Script ℕ
unfolding draw_netid cmd open_port cndc print_u
up_if w fuel iface listen_port = do
  netid ← draw_netid w fuel 0
  cmd w (concat (codes "awg set " ∷ iface ∷ codes " fwmark 0x20000" ∷ []))
  cmd w (output_rule "iptables" iface)
  cmd w (output_rule "ip6tables" iface)
  if truthy listen_port then open_port w iface listen_port else pure tt
  cmd w (concat (codes "ip link set up dev " ∷ iface ∷ []))
  sdk_version ← gets (λ s. s.sdk_version)
  cndc w (
      concat (
        codes "network create "
        ∷ print_u netid
        ∷ codes (if ltb sdk_version 31 then " vpn 1 1" else " vpn 1")
        ∷ []))
  cndc w (concat (codes "network interface add " ∷ print_u netid ∷ codes " " ∷ iface ∷ []))
  pure netid
