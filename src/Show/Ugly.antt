-- ===== src/Show/Ugly.antt =====
-- `ugly_print` of show.c: one field of a device.
use router1_app.Prelude.{Bool, Option, none, some, ◌++◌, if◌then◌else◌, Bytes, codes, truthy}
use router1_app.Libc.{strcmp_eq}
use router1_app.Encoding.Base64.{key_to_base64}
use router1_app.Containers.{Peer, Device}
use router1_app.Containers.Flags.{has}
use router1_app.Containers.DeviceFlag
use router1_app.Containers.PeerFlag
use router1_app.Uapi.Print.{print_u}
use router1_app.Show.Format.{Surroundings, print_llu, key, maybe_key}
use router1_app.Show.Dump.{
  with_tab, or_null, name_if, mark_or_off, ips_or_none, endpoint_or_none, each_peer, dump_print,
}

abbrev newline : Bytes
newline = codes "\n"

-- One line of a field of the device.
abbrev pub device_line : Bool → Device → Bytes → Bytes
device_line with_interface d value = name_if with_interface d ++ (value ++ newline)

-- The lines of the peers, each with the key.
abbrev pub keyed_lines : Bool → Device → (Peer → Bytes) → Bytes
unfolding key_to_base64
keyed_lines with_interface d value =
    each_peer (λ p. name_if with_interface d ++ (with_tab (key p.public_key) ++ value p)) d.peers

-- The fields that are a number or a text of the device; a null pointer is written "(null)".
unfoldable pub device_field : Device → Bytes → Option Bytes
unfolding strcmp_eq maybe_key print_u
device_field d param =
    if strcmp_eq param (codes "public-key")
    then some (maybe_key d.public_key (has d.flags DeviceFlag.has_public_key))
    else if strcmp_eq param (codes "private-key")
    then some (maybe_key d.private_key (has d.flags DeviceFlag.has_private_key))
    else if strcmp_eq param (codes "listen-port")
    then some (print_u d.listen_port)
    else if strcmp_eq param (codes "jc")
    then some (print_u d.junk_packet_count)
    else if strcmp_eq param (codes "jmin")
    then some (print_u d.junk_packet_min_size)
    else if strcmp_eq param (codes "jmax")
    then some (print_u d.junk_packet_max_size)
    else if strcmp_eq param (codes "s1")
    then some (print_u d.init_packet_junk_size)
    else if strcmp_eq param (codes "s2")
    then some (print_u d.response_packet_junk_size)
    else if strcmp_eq param (codes "s3")
    then some (print_u d.cookie_reply_packet_junk_size)
    else if strcmp_eq param (codes "s4")
    then some (print_u d.transport_packet_junk_size)
    else if strcmp_eq param (codes "h1")
    then some (or_null d.init_packet_magic_header)
    else if strcmp_eq param (codes "h2")
    then some (or_null d.response_packet_magic_header)
    else if strcmp_eq param (codes "h3")
    then some (or_null d.underload_packet_magic_header)
    else if strcmp_eq param (codes "h4")
    then some (or_null d.transport_packet_magic_header)
    else if strcmp_eq param (codes "i1")
    then some (or_null d.i1)
    else if strcmp_eq param (codes "i2")
    then some (or_null d.i2)
    else if strcmp_eq param (codes "i3")
    then some (or_null d.i3)
    else if strcmp_eq param (codes "i4")
    then some (or_null d.i4)
    else if strcmp_eq param (codes "i5")
    then some (or_null d.i5)
    else none

-- The fields of the peers.
unfoldable pub peer_fields : Surroundings → Bool → Device → Bytes → Option Bytes
unfolding strcmp_eq key_to_base64 endpoint_or_none ips_or_none print_llu print_u maybe_key
    dump_print
peer_fields s with_interface d param =
    if strcmp_eq param (codes "endpoints")
    then some (keyed_lines with_interface d (λ p. endpoint_or_none s p ++ newline))
    else if strcmp_eq param (codes "allowed-ips")
    then some (keyed_lines with_interface d (λ p. ips_or_none s (codes " ") newline p.allowedips))
    else if strcmp_eq param (codes "latest-handshakes")
    then some (keyed_lines with_interface d (λ p. print_llu p.last_handshake_time_sec ++ newline))
    else if strcmp_eq param (codes "transfer")
    then some (
        keyed_lines with_interface d
          (λ p. with_tab (print_llu p.rx_bytes) ++ (print_llu p.tx_bytes ++ newline)))
    else if strcmp_eq param (codes "persistent-keepalive")
    then some (
        keyed_lines with_interface d (λ p.
          if truthy p.persistent_keepalive_interval
          then print_u p.persistent_keepalive_interval ++ newline
          else codes "off" ++ newline))
    else if strcmp_eq param (codes "preshared-keys")
    then some (
        keyed_lines with_interface d
          (λ p. maybe_key p.preshared_key (has p.flags PeerFlag.has_preshared_key) ++ newline))
    else if strcmp_eq param (codes "peers")
    then some (each_peer (λ p. name_if with_interface d ++ (key p.public_key ++ newline)) d.peers)
    else if strcmp_eq param (codes "dump")
    then some (dump_print s with_interface d)
    else none

-- The text; none for a parameter that is not known, after which the call answers false.
unfoldable pub ugly_print : Surroundings → Device → Bytes → Bool → Option Bytes
unfolding strcmp_eq device_field mark_or_off peer_fields
ugly_print s d param with_interface = elim (device_field d param) [
  | some value ↦ some (device_line with_interface d value)
  | none ↦
      if strcmp_eq param (codes "fwmark")
      then some (name_if with_interface d ++ mark_or_off d.fwmark)
      else peer_fields s with_interface d param
]
