-- ===== src/Uapi/Get.antt =====
-- `userspace_get_device` of ipc-uapi.h: the device that the lines of an answer describe. `peer` is the
-- last peer of the device, and null while there is none.
use router1_app.Prelude.{
  ◌-◌, ◌%◌, ◌^◌, Bool, true, false, not, ◌||◌, Option, none, some, List, [], ◌∷◌, ◌++◌, ◌==◌,
  if◌then◌else◌, Bytes, codes, ok, take,
}
use router1_app.Libc.{char_at, strcmp_eq, split_first, strtoul}
use router1_app.Ctype.{char_is_digit}
use router1_app.Encoding.Hex.{key_from_hex}
use router1_app.Encoding.Zero.{key_is_zero}
use router1_app.Containers.{
  Family, AllowedIp, Peer, Device, zero_key, zero_peer, zero_device, af_unspec, af_inet, af_inet6,
}
use router1_app.Containers.PeerFlag
use router1_app.Config.Values.{at_end}
use router1_app.Config.Address.{has_colon, address_part, mask_part, too_long}
use router1_app.Config.Endpoint.{split_endpoint}
use router1_app.Config.Host.{Resolved, Gai, found, error}
use router1_app.Config.Line.{add_peer_flag}
use router1_app.Config.Cmd.{no_peer}
use router1_app.Uapi.Wire.{
  ℤ, negate, eproto, enetunreach, Daemon, read_line, pos, negsuc, last_line, entry, malformed,
}
use router1_app.Uapi.Steps.{Step, bind_step, num, when_key, accepted_key, next, broken, unreachable}
use router1_app.Uapi.Entries.{device_entry}

-- The branch `public_key`: a new peer at the end of the list.
abbrev pub public_key_entry : Bytes → Device → Step Device
public_key_entry value d = bind_step (accepted_key (key_from_hex zero_key value)) (λ k.
    next (record d {
      peers =
          d.peers
          ++ (add_peer_flag (record zero_peer { public_key = k }) PeerFlag.has_public_key ∷ []);
    }))

abbrev known_sockaddr : Daemon → Resolved → Bool
known_sockaddr n r = elim (r.ai_addr.sa_family) [
  | af_inet ↦ r.ai_addrlen == n.sizeof_sockaddr_in
  | af_inet6 ↦ r.ai_addrlen == n.sizeof_sockaddr_in6
  | _ ↦ false
]

abbrev resolved_endpoint : Daemon → Gai → Peer → Step Peer
resolved_endpoint n (error e) p = unreachable
resolved_endpoint n (found r) p =
    if known_sockaddr n r then next (record p { endpoint = r.ai_addr }) else broken

-- The branch `endpoint`; the text is taken apart as by `parse_endpoint`.
unfoldable pub endpoint_entry : Daemon → Bytes → Peer → Step Peer
unfolding split_endpoint
endpoint_entry n value p = elim (split_endpoint value) [
  | ok e ↦ resolved_endpoint n (n.getaddrinfo e.host e.port) p
  | _ ↦ broken
]

abbrev pton : Daemon → Family → Bytes → AllowedIp
pton n family text = elim (n.inet_pton family text) [
  | none ↦ record { family = af_unspec; ip = []; cidr = 0 }
  | some ip ↦ record { family = family; ip = ip; cidr = 0 }
]

abbrev unspec : Family → Bool
unspec af_unspec = true
unspec _ = false

-- The branch `allowed_ip`; `cidr` is a uint8_t, and is tested after it was stored.
unfoldable pub allowedip_entry : Daemon → Bytes → Peer → Step Peer
unfolding split_first char_is_digit
allowedip_entry n value p = elim (mask_part (split_first b'/' value)) [
  | none ↦ broken
  | some mask ↦
      if not (char_is_digit (char_at mask 0))
      then broken
      else let ip = address_part value (split_first b'/' value) in
        let a = if has_colon (split_first b':' ip) then pton n af_inet6 ip else pton n af_inet ip in
        let (parsed, end) = strtoul mask 10 in
        let cidr = parsed % 256 in
        if not (at_end end) || unspec a.family || too_long a.family cidr
        then broken
        else next (record p { allowedips = p.allowedips ++ (record a { cidr = cidr } ∷ []) })
]

-- The branches with `peer`, in their order.
unfoldable pub peer_entry : Daemon → Bytes → Bytes → Peer → Option (Step Peer)
unfolding strcmp_eq endpoint_entry allowedip_entry
peer_entry n key value p =
    when_key (strcmp_eq key (codes "preshared_key"))
      (some (
        bind_step (accepted_key (key_from_hex p.preshared_key value)) (λ k.
          let q = record p { preshared_key = k } in
          next (if key_is_zero k then q else add_peer_flag q PeerFlag.has_preshared_key))))
      (when_key (strcmp_eq key (codes "endpoint")) (some (endpoint_entry n value p)) (
        when_key (strcmp_eq key (codes "persistent_keepalive_interval"))
          (some (
            bind_step (num 0xffff value) (λ v. next (
              add_peer_flag (record p { persistent_keepalive_interval = v })
                PeerFlag.has_persistent_keepalive_interval))))
          (when_key (strcmp_eq key (codes "allowed_ip")) (some (allowedip_entry n value p)) (
            when_key (strcmp_eq key (codes "last_handshake_time_sec"))
              (some (
                bind_step (num (2 ^ 63 - 1) value)
                  (λ v. next (record p { last_handshake_time_sec = v }))))
              (when_key (strcmp_eq key (codes "last_handshake_time_nsec"))
                (some (
                  bind_step (num (2 ^ 63 - 1) value)
                    (λ v. next (record p { last_handshake_time_nsec = v }))))
                (when_key (strcmp_eq key (codes "rx_bytes"))
                  (some
                    (bind_step (num (2 ^ 64 - 1) value) (λ v. next (record p { rx_bytes = v }))))
                  (when_key (strcmp_eq key (codes "tx_bytes"))
                    (some
                      (bind_step (num (2 ^ 64 - 1) value) (λ v. next (record p { tx_bytes = v }))))
                    none)))))))

-- A step on the last peer; the list is not empty where it is used.
abbrev pub step_last : List Peer → (Peer → Step Peer) → Step (List Peer)
step_last [] f = broken
step_last (p ∷ []) f = bind_step (f p) (λ q. next (q ∷ []))
step_last (p ∷ q ∷ peers) f = bind_step (step_last (q ∷ peers) f) (λ rest. next (p ∷ rest))

-- The device and `ret`.
pub record Reading : Type 0 where
  pub device : Device
  pub ret : ℤ

abbrev pub errno_entry : Bytes → Bytes → Reading → Step Reading
errno_entry key value r =
    if strcmp_eq key (codes "errno")
    then bind_step (num 0x7fffffff value) (λ v. next (record r { ret = negate v }))
    else next r

abbrev pub device_or : Reading → Option (Step Device) → Step Reading → Step Reading
device_or r none otherwise = otherwise
device_or r (some s) otherwise = bind_step s (λ d. next (record r { device = d }))

abbrev pub is_peer_key : Option (Step Peer) → Bool
is_peer_key none = false
is_peer_key (some s) = true

abbrev pub or_same : Peer → Option (Step Peer) → Step Peer
or_same p none = next p
or_same p (some s) = s

-- One `key=value` of the answer. Whether a key is a peer's does not depend on the peer. A key in the wrong place is passed over, as an unknown one is.
unfoldable pub read_entry : Daemon → Bytes → Bytes → Reading → Step Reading
unfolding device_entry peer_entry
read_entry n key value r =
    if strcmp_eq key (codes "public_key")
    then bind_step (public_key_entry value r.device) (λ d. next (record r { device = d }))
    else if no_peer r.device.peers
    then device_or r (device_entry n key value r.device) (errno_entry key value r)
    else if is_peer_key (peer_entry n key value zero_peer)
    then bind_step (step_last r.device.peers (λ p. or_same p (peer_entry n key value p)))
        (λ peers. next (record r { device = record (r.device) { peers = peers } }))
    else errno_entry key value r

-- The loop: the device and `ret` where it is left.
unfoldable pub read_entries : Daemon → List Bytes → Reading → Reading
unfolding read_line read_entry
read_entries n [] r = record r { ret = negate eproto }
read_entries n (line ∷ lines) r = elim (read_line line) [
  | last_line ↦ r
  | malformed ↦ record r { ret = negate eproto }
  | entry key value ↦ elim (read_entry n key value r) [
    | next r' ↦ read_entries n lines r'
    | broken ↦ record r { ret = negate eproto }
    | unreachable ↦ record r { ret = pos enetunreach }
  ]
]

-- What the caller gets: `ret`, and the device unless it was freed.
pub record GetResult : Type 0 where
  pub ret : ℤ
  pub out : Option Device

abbrev is_zero : ℤ → Bool
is_zero (pos n) = n == 0
is_zero (negsuc n) = false

unfoldable pub userspace_get_device : Daemon → Bytes → GetResult
unfolding read_entries
userspace_get_device n iface = elim (n.open_errno iface) [
  | some errno ↦ record { ret = negate errno; out = none }
  | none ↦
      let start : Reading = record {
        device = record zero_device { name = take 15 iface };
        ret = negate eproto;
      } in
      let r = read_entries n (n.answer iface (codes "get=1\n\n")) start in
      record { ret = r.ret; out = if is_zero r.ret then some r.device else none }
]
