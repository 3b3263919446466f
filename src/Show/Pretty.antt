-- ===== src/Show/Pretty.antt =====
-- `pretty_print` of show.c. Each call of terminal_printf filters its own text.
use Prim.Native.Nat.{Ordering}
use Prim.Native.String.{String}
use router1_app.Prelude.{
  Bool, true, false, ◌||◌, Option, none, some, List, [], ◌∷◌, ◌++◌, if◌then◌else◌, Bytes, codes,
  truthy,
}
use router1_app.Containers.{AllowedIp, Peer, Device, af_inet, af_inet6}
use router1_app.Containers.Flags.{has}
use router1_app.Containers.DeviceFlag
use router1_app.Containers.PeerFlag
use router1_app.Terminal.{filter_ansi}
use router1_app.Uapi.Print.{print_u}
use router1_app.Show.Format.{
  Surroundings, print_x, reset, bold, fg_green, fg_yellow, fg_cyan, key, masked_key, ip, endpoint,
  ago, every, bytes,
}
use router1_app.Show.Sort.{sort_peers}

-- `terminal_printf`.
abbrev pub printf : Surroundings → Bytes → Bytes
unfolding filter_ansi
printf s text = filter_ansi s.color text

-- A line of a label in bold and its value, if there is one.
unfoldable pub field : Surroundings → Bool → String → Bytes → Bytes
unfolding filter_ansi
field s present label value =
    if present
    then printf s
        (codes "  " ++ (bold ++ (codes label ++ (reset ++ (codes ": " ++ (value ++ codes "\n"))))))
    else []

-- A heading, in its colour.
unfoldable pub heading : Surroundings → Bytes → String → Bytes → Bytes
unfolding filter_ansi
heading s colour label value = printf s (
    colour
    ++ (bold
        ++ (codes label
            ++ (reset ++ (codes ": " ++ (colour ++ (value ++ (reset ++ codes "\n"))))))))

abbrev pub is_set : Option Bytes → Bool
is_set none = false
is_set (some text) = true

abbrev pub string : Option Bytes → Bytes
string none = []
string (some text) = text

unfoldable pub pretty_device : Surroundings → Device → Bytes
unfolding filter_ansi field heading masked_key print_u print_x
pretty_device s d =
    let part1 : Bytes =
      printf s reset
      ++ (heading s fg_green "interface" d.name
          ++ (field s (has d.flags DeviceFlag.has_public_key) "public key" (key d.public_key)
              ++ (field s (has d.flags DeviceFlag.has_private_key) "private key"
                    (masked_key s d.private_key)
                  ++ (field s (truthy d.listen_port) "listening port" (print_u d.listen_port)
                      ++ (field s (truthy d.fwmark) "fwmark"
                          (codes "0x" ++ print_x d.fwmark)))))) in
    let part2 : Bytes =
      field s (truthy d.junk_packet_count) "jc" (print_u d.junk_packet_count)
      ++ (field s (truthy d.junk_packet_min_size) "jmin" (print_u d.junk_packet_min_size)
          ++ (field s (truthy d.junk_packet_max_size) "jmax" (print_u d.junk_packet_max_size)
              ++ (field s (truthy d.init_packet_junk_size) "s1" (print_u d.init_packet_junk_size)
                  ++ (field s (truthy d.response_packet_junk_size) "s2"
                        (print_u d.response_packet_junk_size)
                      ++ (field s (truthy d.cookie_reply_packet_junk_size) "s3"
                          (print_u d.cookie_reply_packet_junk_size)))))) in
    let part3 : Bytes =
      field s (truthy d.transport_packet_junk_size) "s4" (print_u d.transport_packet_junk_size)
      ++ (field s (is_set d.init_packet_magic_header) "h1" (string d.init_packet_magic_header)
          ++ (field s (is_set d.response_packet_magic_header) "h2"
                (string d.response_packet_magic_header)
              ++ (field s (is_set d.underload_packet_magic_header) "h3"
                    (string d.underload_packet_magic_header)
                  ++ (field s (is_set d.transport_packet_magic_header) "h4"
                        (string d.transport_packet_magic_header)
                      ++ (field s (is_set d.i1) "i1" (string d.i1)))))) in
    let part4 : Bytes =
      field s (is_set d.i2) "i2" (string d.i2)
      ++ (field s (is_set d.i3) "i3" (string d.i3)
          ++ (field s (is_set d.i4) "i4" (string d.i4)
              ++ (field s (is_set d.i5) "i5" (string d.i5)))) in
    part1 ++ (part2 ++ (part3 ++ (part4)))

unfoldable pub pretty_ips : Surroundings → List AllowedIp → Bytes
unfolding filter_ansi ip print_u
pretty_ips s [] = []
pretty_ips s (a ∷ ips) =
    let rest = pretty_ips s ips in
    printf s (ip s a ++ (fg_cyan ++ (codes "/" ++ (reset ++ (print_u a.cidr ++ separator ips)))))
    ++ rest
  where
    separator : List AllowedIp → Bytes
    separator [] = codes "\n"
    separator (b ∷ more) = codes ", "

-- `family == AF_INET || family == AF_INET6`.
abbrev pub has_endpoint : Peer → Bool
has_endpoint p = elim p.endpoint.sa_family [ af_inet ↦ true | af_inet6 ↦ true | _ ↦ false ]

unfoldable pub pretty_peer : Surroundings → Peer → Bytes
unfolding filter_ansi field heading masked_key endpoint pretty_ips ago bytes every
pretty_peer s p =
    let ips : Bytes = elim p.allowedips [
      | [] ↦ printf s (codes "(none)\n")
      | a ∷ own ↦ pretty_ips s (a ∷ own)
    ] in
    let label = printf s (codes "  " ++ (bold ++ (codes "allowed ips" ++ (reset ++ codes ": ")))) in
    let moved = truthy p.rx_bytes || truthy p.tx_bytes in
    let received = printf s (bytes s p.rx_bytes ++ codes " received, ") in
    let sent = printf s (bytes s p.tx_bytes ++ codes " sent\n") in
    let transfer = printf s (codes "  " ++ (bold ++ (codes "transfer" ++ (reset ++ codes ": ")))) in
    heading s fg_yellow "peer" (key p.public_key)
    ++ (field s (has p.flags PeerFlag.has_preshared_key) "preshared key"
          (masked_key s p.preshared_key)
        ++ (field s (has_endpoint p) "endpoint" (endpoint s p.endpoint)
            ++ (label
                ++ (ips
                    ++ (field s (truthy p.last_handshake_time_sec) "latest handshake"
                          (ago s p.last_handshake_time_sec)
                        ++ ((if moved then transfer ++ (received ++ sent) else [])
                            ++ field s (truthy p.persistent_keepalive_interval)
                                "persistent keepalive" (every p.persistent_keepalive_interval)))))))

-- An empty line stands between two peers.
unfoldable pub pretty_peers : Surroundings → List Peer → Bytes
unfolding filter_ansi pretty_peer
pretty_peers s [] = []
pretty_peers s (p ∷ peers) =
    let rest = pretty_peers s peers in pretty_peer s p ++ (separator peers ++ rest)
  where
    separator : List Peer → Bytes
    separator [] = []
    separator (q ∷ more) = printf s (codes "\n")

unfoldable pub pretty_print :
    ((Peer → Peer → Ordering) → List Peer → List Peer) → Surroundings → Device → Bytes
unfolding filter_ansi pretty_device sort_peers pretty_peers
pretty_print qsort s d =
    let gap : Bytes = elim d.peers [ [] ↦ [] | p ∷ peers ↦ printf s (codes "\n") ] in
    pretty_device s d ++ (gap ++ pretty_peers s (sort_peers qsort d).peers)
