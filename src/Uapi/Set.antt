-- ===== src/Uapi/Set.antt =====
-- `userspace_set_device` of ipc-uapi.h: the request, and the reading of the answer.
pub mod Laws
use Prim.Native.String.{String}
use router1_app.Prelude.{
  ℕ, ◌/◌, Bool, true, false, not, ◌||◌, Option, none, some, List, [], ◌∷◌, ◌++◌, ◌==◌,
  if◌then◌else◌, Bytes, codes,
}
use router1_app.Libc.{char_at, strcmp_eq, split_first}
use router1_app.Ctype.{char_is_digit}
use router1_app.Encoding.Hex.{key_to_hex}
use router1_app.Containers.{Family, AllowedIp, SockAddr, Peer, Device, af_inet, af_inet6}
use router1_app.Containers.Flags.{has}
use router1_app.Containers.DeviceFlag
use router1_app.Containers.PeerFlag
use router1_app.Config.Values.{at_end}
use router1_app.Config.Address.{has_colon}
use router1_app.Uapi.Print.{print_u}
use router1_app.Uapi.Wire.{
  ℤ, negate, einval, eproto, Daemon, newline, read_line, strtoll, out_of_int, last_line, entry,
  malformed,
}

abbrev pub line_of : String → Bytes → Bytes
line_of key value = codes key ++ (value ++ newline)

-- `if (dev->flags & mask) fprintf(...)`.
abbrev pub when : Bool → Bytes → Bytes
when b text = if b then text else []

-- `%s` of a pointer; the C library writes "(null)" for a null pointer.
abbrev pub print_s : Option Bytes → Bytes
print_s none = codes "(null)"
print_s (some text) = text

unfoldable pub device_request : Device → Bytes
unfolding key_to_hex print_u
device_request d =
    let flag = λ (mask : ℕ). has d.flags mask in
    codes "set=1\n"
    ++ (when (flag DeviceFlag.has_private_key) (line_of "private_key=" (key_to_hex d.private_key))
        ++ (when (flag DeviceFlag.has_listen_port) (line_of "listen_port=" (print_u d.listen_port))
            ++ (when (flag DeviceFlag.has_fwmark) (line_of "fwmark=" (print_u d.fwmark))
                ++ (when (flag DeviceFlag.replace_peers) (codes "replace_peers=true\n")
                    ++ (when (flag DeviceFlag.has_jc) (line_of "jc=" (print_u d.junk_packet_count))
                        ++ (when (flag DeviceFlag.has_jmin)
                              (line_of "jmin=" (print_u d.junk_packet_min_size))
                            ++ (when (flag DeviceFlag.has_jmax)
                                  (line_of "jmax=" (print_u d.junk_packet_max_size))
                                ++ (when (flag DeviceFlag.has_s1)
                                      (line_of "s1=" (print_u d.init_packet_junk_size))
                                    ++ (when (flag DeviceFlag.has_s2)
                                          (line_of "s2=" (print_u d.response_packet_junk_size))
                                        ++ (when (flag DeviceFlag.has_s3) (
                                              line_of "s3="
                                                (print_u d.cookie_reply_packet_junk_size))
                                            ++ (when (flag DeviceFlag.has_s4) (
                                                  line_of "s4="
                                                    (print_u d.transport_packet_junk_size))
                                                ++ (when (flag DeviceFlag.has_h1) (
                                                      line_of "h1="
                                                        (print_s d.init_packet_magic_header))
                                                    ++ (when (flag DeviceFlag.has_h2) (
                                                          line_of "h2=" (
                                                            print_s d.response_packet_magic_header))
                                                        ++ (when (flag DeviceFlag.has_h3) (
                                                            line_of "h3=" (
                                                            print_s
                                                            d.underload_packet_magic_header))
                                                            ++ (when (flag DeviceFlag.has_h4) (
                                                            line_of "h4=" (
                                                            print_s
                                                            d.transport_packet_magic_header))
                                                            ++ (when (flag DeviceFlag.has_i1)
                                                            (line_of "i1=" (print_s d.i1))
                                                            ++ (when (flag DeviceFlag.has_i2)
                                                            (line_of "i2=" (print_s d.i2))
                                                            ++ (when (flag DeviceFlag.has_i3)
                                                            (line_of "i3=" (print_s d.i3))
                                                            ++ (when (flag DeviceFlag.has_i4)
                                                            (line_of "i4=" (print_s d.i4))
                                                            ++ when (flag DeviceFlag.has_i5) (
                                                            line_of "i5="
                                                            (print_s d.i5)))))))))))))))))))))

-- The host is bracketed if it is an IPv6 address with a colon.
abbrev endpoint_text : Family → Bytes × Bytes → Bytes
endpoint_text af_inet6 (host, service) =
    if has_colon (split_first b':' host)
    then line_of "endpoint=[" (host ++ (codes "]:" ++ service))
    else line_of "endpoint=" (host ++ (codes ":" ++ service))
endpoint_text _ (host, service) = line_of "endpoint=" (host ++ (codes ":" ++ service))

abbrev named_endpoint : Family → Option (Bytes × Bytes) → Bytes
named_endpoint family none = []
named_endpoint family (some name) = endpoint_text family name

unfoldable pub endpoint_request : Daemon → SockAddr → Bytes
unfolding split_first
endpoint_request n a = elim (a.sa_family) [
  | af_inet ↦ named_endpoint af_inet (n.getnameinfo a)
  | af_inet6 ↦ named_endpoint af_inet6 (n.getnameinfo a)
  | _ ↦ []
]

abbrev allowedip_text : ℕ → Option Bytes → Bytes
allowedip_text cidr none = []
allowedip_text cidr (some ip) = line_of "allowed_ip=" (ip ++ (codes "/" ++ print_u cidr))

-- An address that has no text is left out.
unfoldable pub allowedips_request : Daemon → List AllowedIp → Bytes
unfolding print_u
allowedips_request n [] = []
allowedips_request n (a ∷ more) =
    let rest = allowedips_request n more in
    elim (a.family) [
      | af_inet ↦ allowedip_text a.cidr (n.inet_ntop af_inet a.ip) ++ rest
      | af_inet6 ↦ allowedip_text a.cidr (n.inet_ntop af_inet6 a.ip) ++ rest
      | _ ↦ rest
    ]

-- What is written of a peer, and whether the function goes on.
unfoldable pub peer_request : Daemon → Peer → Bytes × Bool
unfolding key_to_hex endpoint_request allowedips_request
peer_request n p =
    let flag = λ (mask : ℕ). has p.flags mask in
    let start = line_of "public_key=" (key_to_hex p.public_key) in
    if flag PeerFlag.has_awg
    then (start, false)
    else if flag PeerFlag.remove_me
    then (start ++ codes "remove=true\n", true)
    else (
      start
          ++ (when (flag PeerFlag.has_preshared_key)
                (line_of "preshared_key=" (key_to_hex p.preshared_key))
              ++ (endpoint_request n p.endpoint
                  ++ (when (flag PeerFlag.has_persistent_keepalive_interval) (
                        line_of "persistent_keepalive_interval="
                          (print_u p.persistent_keepalive_interval))
                      ++ (when (flag PeerFlag.replace_allowedips)
                            (codes "replace_allowed_ips=true\n")
                          ++ allowedips_request n p.allowedips)))),
      true,
    )

-- All peers, or none of those behind the first one that has WGPEER_HAS_AWG.
unfoldable pub peers_request : Daemon → List Peer → Bytes × Bool
unfolding peer_request
peers_request n [] = ([], true)
peers_request n (p ∷ peers) =
    let (text, goes_on) = peer_request n p in
    let (rest, complete) = peers_request n peers in
    if goes_on then (text ++ rest, complete) else (text, false)

-- The loop over the answer. `set_errno` is what the daemon last reported.
unfoldable pub set_reply : ℕ → ℤ → List Bytes → ℤ
unfolding read_line strcmp_eq char_is_digit strtoll
set_reply errno set_errno [] = if errno == 0 then negate eproto else negate errno
set_reply errno set_errno (line ∷ lines) =
    let broken = if errno == 0 then negate eproto else negate errno in
    elim (read_line line) [
      | last_line ↦ set_errno
      | malformed ↦ broken
      | entry key value ↦
          let (num, end) = strtoll value in
          let reported =
            not (char_at value 0 == b'-' || char_is_digit (char_at value 0))
            || not (at_end end)
            || out_of_int num in
          elim (strcmp_eq key (codes "errno")) [
            | false ↦ set_reply errno set_errno lines
            | true ↦ elim reported [ true ↦ broken | false ↦ set_reply errno num lines ]
          ]
    ]

-- The result, and what was written to the socket.
pub record SetResult : Type 0 where
  pub ret : ℤ
  pub written : Bytes

unfoldable pub userspace_set_device : Daemon → Device → SetResult
unfolding device_request peers_request set_reply
userspace_set_device n d = elim (n.open_errno d.name) [
  | some errno ↦ record { ret = negate errno; written = [] }
  | none ↦
      let (text, complete) = peers_request n d.peers in
      let request = device_request d ++ (text ++ newline) in
      if complete
      then record {
        ret = set_reply n.errno_after (negate eproto) (n.answer d.name request);
        written = request;
      }
      else record { ret = negate einval; written = device_request d ++ text }
]
