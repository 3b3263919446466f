-- ===== src/Showconf.antt =====
-- android/tunnel/tools/amneziawg-tools/src/showconf.c: a device as a configuration file.
pub mod Lines
pub mod Settings
pub mod Readings
pub mod Reached
pub mod RoundTrip
use Prim.Native.String.{String}
use router1_app.Prelude.{
  ℕ, Bool, true, false, Option, none, some, List, [], ◌∷◌, ◌++◌, if◌then◌else◌, Bytes, codes,
  truthy, ◌/◌,
}
use router1_app.Encoding.Base64.{key_to_base64}
use router1_app.Containers.{AllowedIp, Peer, Device, af_inet, af_inet6}
use router1_app.Containers.Flags.{has}
use router1_app.Containers.DeviceFlag
use router1_app.Containers.PeerFlag
use router1_app.Uapi.Print.{print_u}
use router1_app.Show.Format.{Surroundings, Name, named, unnamed, print_x, endpoint, ip}
use router1_app.Show.Dump.{or_null}
use router1_app.Show.Pretty.{has_endpoint}
use router1_app.Keys.{Printed}

-- A line `label = value`, if there is a value.
abbrev pub setting : Bool → String → Bytes → Bytes
setting present label value =
    if present then codes label ++ (codes " = " ++ (value ++ codes "\n")) else []

-- One setting of the section: whether it is set, its name and its text.
pub record Entry : Type 0 where
  pub present : Bool
  pub label : String
  pub value : Bytes

unfoldable pub settings : List Entry → Bytes
settings [] = []
settings (e ∷ entries) = setting e.present e.label e.value ++ settings entries

abbrev pub entry : Bool → String → Bytes → Entry
entry present label value = record { present = present; label = label; value = value }

-- The settings of the tunnel, those of its junk and of its headers, and those of its packets.
unfoldable pub tunnel_entries : Device → List Entry
unfolding print_u print_x key_to_base64
tunnel_entries d =
    entry (truthy d.listen_port) "ListenPort" (print_u d.listen_port)
    ∷ entry (truthy d.fwmark) "FwMark" (codes "0x" ++ print_x d.fwmark)
    ∷ entry (has d.flags DeviceFlag.has_private_key) "PrivateKey" (key_to_base64 d.private_key)
    ∷ []

unfoldable pub number_entries : Device → List Entry
unfolding print_u
number_entries d =
    entry (has d.flags DeviceFlag.has_jc) "Jc" (print_u d.junk_packet_count)
    ∷ entry (has d.flags DeviceFlag.has_jmin) "Jmin" (print_u d.junk_packet_min_size)
    ∷ entry (has d.flags DeviceFlag.has_jmax) "Jmax" (print_u d.junk_packet_max_size)
    ∷ entry (has d.flags DeviceFlag.has_s1) "S1" (print_u d.init_packet_junk_size)
    ∷ entry (has d.flags DeviceFlag.has_s2) "S2" (print_u d.response_packet_junk_size)
    ∷ entry (has d.flags DeviceFlag.has_s3) "S3" (print_u d.cookie_reply_packet_junk_size)
    ∷ entry (has d.flags DeviceFlag.has_s4) "S4" (print_u d.transport_packet_junk_size)
    ∷ []

unfoldable pub header_entries : Device → List Entry
header_entries d =
    entry (has d.flags DeviceFlag.has_h1) "H1" (or_null d.init_packet_magic_header)
    ∷ entry (has d.flags DeviceFlag.has_h2) "H2" (or_null d.response_packet_magic_header)
    ∷ entry (has d.flags DeviceFlag.has_h3) "H3" (or_null d.underload_packet_magic_header)
    ∷ entry (has d.flags DeviceFlag.has_h4) "H4" (or_null d.transport_packet_magic_header)
    ∷ []

unfoldable pub packet_entries : Device → List Entry
packet_entries d =
    entry (has d.flags DeviceFlag.has_i1) "I1" (or_null d.i1)
    ∷ entry (has d.flags DeviceFlag.has_i2) "I2" (or_null d.i2)
    ∷ entry (has d.flags DeviceFlag.has_i3) "I3" (or_null d.i3)
    ∷ entry (has d.flags DeviceFlag.has_i4) "I4" (or_null d.i4)
    ∷ entry (has d.flags DeviceFlag.has_i5) "I5" (or_null d.i5)
    ∷ []

unfoldable pub interface_section : Device → Bytes
unfolding settings tunnel_entries number_entries header_entries packet_entries
interface_section d =
    codes "[Interface]\n"
    ++ (settings (tunnel_entries d)
        ++ (settings (number_entries d)
            ++ (settings (header_entries d) ++ (settings (packet_entries d) ++ codes "\n"))))

-- The text of an address, if it has one.
abbrev pub ip_text : Surroundings → AllowedIp → Option Bytes
ip_text s a = elim a.family [
  | af_inet ↦ s.inet_ntop af_inet a.ip
  | af_inet6 ↦ s.inet_ntop af_inet6 a.ip
  | _ ↦ none
]

-- The addresses; one without a text is left out, and the comma behind it with it.
unfoldable pub conf_ips : Surroundings → List AllowedIp → Bytes
unfolding print_u
conf_ips s [] = []
conf_ips s (a ∷ ips) =
    let rest = conf_ips s ips in
    elim (ip_text s a) [
      | none ↦ rest
      | some text ↦
          text
          ++ (codes "/"
              ++ (print_u a.cidr ++ ((elim ips [ [] ↦ [] | b ∷ more ↦ codes ", " ]) ++ rest)))
    ]

abbrev pub is_named : Name → Bool
is_named (named host service) = true
is_named (unnamed text) = false

unfoldable pub peer_section : Surroundings → Peer → Bytes
unfolding key_to_base64 conf_ips print_u endpoint
peer_section s p =
    let flag = λ (mask : ℕ). has p.flags mask in
    let on = if p.awg then codes "on" else codes "off" in
    let known = if has_endpoint p then is_named (s.getnameinfo p.endpoint) else false in
    let some_ips = elim p.allowedips as (λ ips. Bool) [ [] ↦ false | a ∷ ips ↦ true ] in
    let alive = p.persistent_keepalive_interval in
    codes "[Peer]\n"
    ++ (setting true "PublicKey" (key_to_base64 p.public_key)
        ++ (setting (flag PeerFlag.has_preshared_key) "PresharedKey" (key_to_base64 p.preshared_key)
            ++ (setting (flag PeerFlag.has_awg) "AdvancedSecurity" on
                ++ (setting some_ips "AllowedIPs" (conf_ips s p.allowedips)
                    ++ (setting known "Endpoint" (endpoint s p.endpoint)
                        ++ setting (truthy alive) "PersistentKeepalive" (print_u alive))))))

unfoldable pub peer_sections : Surroundings → List Peer → Bytes
unfolding peer_section
peer_sections s [] = []
peer_sections s (p ∷ peers) =
    let rest = peer_sections s peers in
    peer_section s p ++ ((elim peers [ [] ↦ [] | q ∷ more ↦ codes "\n" ]) ++ rest)

-- The arguments behind the name of the subcommand. Usage is written on the standard error.
unfoldable pub showconf_main : (Bytes → Option Device) → Surroundings → List Bytes → Printed
unfolding interface_section peer_sections
showconf_main get_device s (iface ∷ []) = elim (get_device iface) [
  | none ↦ record { status = 1; text = [] }
  | some d ↦ record { status = 0; text = interface_section d ++ peer_sections s d.peers }
]
showconf_main get_device s args = record { status = 1; text = [] }
