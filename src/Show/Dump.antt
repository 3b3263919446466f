-- ===== src/Show/Dump.antt =====
-- `dump_print` of show.c: one line for the device, and one for each peer, with tabs between the fields.
use router1_app.Prelude.{
  ℕ, Bool, Option, none, some, List, [], ◌∷◌, ◌++◌, if◌then◌else◌, Bytes, codes, truthy,
}
use router1_app.Containers.{AllowedIp, Peer, Device}
use router1_app.Containers.Flags.{has}
use router1_app.Containers.DeviceFlag
use router1_app.Containers.PeerFlag
use router1_app.Uapi.Print.{print_u}
use router1_app.Show.Format.{Surroundings, print_llu, print_x, key, maybe_key, ip, endpoint}
use router1_app.Show.Pretty.{has_endpoint}

abbrev pub tab : Bytes
tab = codes "\t"

abbrev pub with_tab : Bytes → Bytes
with_tab text = text ++ tab

-- A null pointer is written "(null)".
abbrev pub or_null : Option Bytes → Bytes
or_null none = codes "(null)"
or_null (some text) = text

abbrev pub name_if : Bool → Device → Bytes
name_if with_interface d = if with_interface then with_tab d.name else []

unfoldable pub mark_or_off : ℕ → Bytes
unfolding print_x
mark_or_off mark = if truthy mark then codes "0x" ++ (print_x mark ++ codes "\n") else codes "off\n"

unfoldable pub dump_device : Bool → Device → Bytes
unfolding maybe_key print_u mark_or_off
dump_device with_interface d =
    let part1 : Bytes =
      name_if with_interface d
      ++ (with_tab (maybe_key d.private_key (has d.flags DeviceFlag.has_private_key))
          ++ (with_tab (maybe_key d.public_key (has d.flags DeviceFlag.has_public_key))
              ++ (with_tab (print_u d.listen_port)
                  ++ (with_tab (print_u d.junk_packet_count)
                      ++ (with_tab (print_u d.junk_packet_min_size)))))) in
    let part2 : Bytes =
      with_tab (print_u d.junk_packet_max_size)
      ++ (with_tab (print_u d.init_packet_junk_size)
          ++ (with_tab (print_u d.response_packet_junk_size)
              ++ (with_tab (print_u d.cookie_reply_packet_junk_size)
                  ++ (with_tab (print_u d.transport_packet_junk_size)
                      ++ (with_tab (or_null d.init_packet_magic_header)))))) in
    let part3 : Bytes =
      with_tab (or_null d.response_packet_magic_header)
      ++ (with_tab (or_null d.underload_packet_magic_header)
          ++ (with_tab (or_null d.transport_packet_magic_header)
              ++ (with_tab (or_null d.i1)
                  ++ (with_tab (or_null d.i2) ++ (with_tab (or_null d.i3)))))) in
    let part4 : Bytes =
      with_tab (or_null d.i4) ++ (with_tab (or_null d.i5) ++ (mark_or_off d.fwmark)) in
    part1 ++ (part2 ++ (part3 ++ (part4)))

-- The addresses, each followed by a comma but the last, which is followed by the character c.
unfoldable pub ips_text : Surroundings → Bytes → Bytes → List AllowedIp → Bytes
unfolding ip print_u
ips_text s between behind [] = []
ips_text s between behind (a ∷ ips) =
    let rest = ips_text s between behind ips in
    ip s a
    ++ (codes "/" ++ (print_u a.cidr ++ ((elim ips [ [] ↦ behind | b ∷ more ↦ between ]) ++ rest)))

unfoldable pub ips_or_none : Surroundings → Bytes → Bytes → List AllowedIp → Bytes
unfolding ips_text
ips_or_none s between behind ips = elim ips [
  | [] ↦ codes "(none)" ++ behind
  | a ∷ own ↦ ips_text s between behind (a ∷ own)
]

unfoldable pub endpoint_or_none : Surroundings → Peer → Bytes
unfolding endpoint
endpoint_or_none s p = if has_endpoint p then endpoint s p.endpoint else codes "(none)"

unfoldable pub interval_or_off : ℕ → Bytes
unfolding print_u
interval_or_off n = if truthy n then print_u n ++ codes "\n" else codes "off\n"

unfoldable pub dump_peer : Surroundings → Bool → Device → Peer → Bytes
unfolding maybe_key endpoint_or_none ips_or_none print_llu interval_or_off
dump_peer s with_interface d p =
    name_if with_interface d
    ++ (with_tab (key p.public_key)
        ++ (with_tab (maybe_key p.preshared_key (has p.flags PeerFlag.has_preshared_key))
            ++ (with_tab (endpoint_or_none s p)
                ++ (ips_or_none s (codes ",") tab p.allowedips
                    ++ (with_tab (print_llu p.last_handshake_time_sec)
                        ++ (with_tab (print_llu p.rx_bytes)
                            ++ (with_tab (print_llu p.tx_bytes)
                                ++ interval_or_off p.persistent_keepalive_interval)))))))

-- `for_each_wgpeer`, with what is written for a peer.
abbrev pub each_peer : (Peer → Bytes) → List Peer → Bytes
each_peer line [] = []
each_peer line (p ∷ peers) = line p ++ each_peer line peers

unfoldable pub dump_print : Surroundings → Bool → Device → Bytes
unfolding dump_device dump_peer
dump_print s with_interface d =
    dump_device with_interface d ++ each_peer (dump_peer s with_interface d) d.peers
