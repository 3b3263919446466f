-- ===== src/Kernel/Received.antt =====
-- The callbacks `parse_*` of ipc-linux.h for a peer and its addresses. What netlink delivers is a list of
-- attributes with their payloads, and the library's tests and decoders of payloads are a parameter.
-- Allocation is taken to succeed.
pub mod Laws
use router1_app.Prelude.{
  ℕ, bit_or, Bool, true, false, not, ◌&&◌, ◌||◌, List, [], ◌∷◌, ◌++◌, leb, ltb, ◌==◌, if◌then◌else◌,
  Bytes, length, ◌-◌, Option, none, some, Outcome, ◌>>=◌, ok, hang, set, take,
}
use router1_app.Setconf.Main.{ifnamsiz}
use router1_app.Uapi.Print.{print_u}
use router1_app.Kernel.Coalesce.{coalesce_peers}
use router1_app.Encoding.Flags.{wg_key_len}
use router1_app.Encoding.Zero.{key_is_zero}
use router1_app.Containers.{
  Family, af_unspec, af_inet, af_inet6, AllowedIp, SockAddr, Peer, Device, zero_peer, other,
  zero_device,
}
use router1_app.Containers.Flags.{has}
use router1_app.Containers.DeviceFlag
use router1_app.Containers.PeerFlag

-- The attributes of an allowed address, of a peer and of a device, as they are received.
pub data IpAttr : Type 0 where
  family ipaddr cidr_mask : Bytes → IpAttr
  other_ip_attr : IpAttr

pub data PeerAttr : Type 0 where
  public_key preshared_key endpoint persistent_keepalive_interval : Bytes → PeerAttr
  last_handshake_time rx_bytes tx_bytes flags awg : Bytes → PeerAttr
  allowedips : List (List IpAttr) → PeerAttr
  other_peer_attr : PeerAttr

pub data DeviceAttr : Type 0 where
  ifindex ifname private_key device_public_key listen_port fwmark : Bytes → DeviceAttr
  jc jmin jmax s1 s2 s3 s4 h1 h2 h3 h4 i1 i2 i3 i4 i5 : Bytes → DeviceAttr
  peers : List (List PeerAttr) → DeviceAttr
  other_device_attr : DeviceAttr

-- mnl_attr_validate and the decoders of payloads; the fields of the structures that are copied.
pub record Payload : Type 0 where
  pub is_u8 : Bytes → Bool
  pub is_u16 : Bytes → Bool
  pub is_u32 : Bytes → Bool
  pub is_u64 : Bytes → Bool
  pub is_string : Bytes → Bool
  pub is_nul_string : Bytes → Bool
  pub is_flag : Bytes → Bool
  pub number : Bytes → ℕ
  pub get_str : Bytes → Bytes
  pub family_of : ℕ → Family
  pub sockaddr_of : Bytes → SockAddr
  pub sizeof_sockaddr : ℕ
  pub sizeof_sockaddr_in : ℕ
  pub sizeof_sockaddr_in6 : ℕ
  pub sizeof_timespec : ℕ
  pub tv_sec : Bytes → ℕ
  pub tv_nsec : Bytes → ℕ

-- What a callback answers: MNL_CB_OK or MNL_CB_ERROR; none answers MNL_CB_STOP.
pub data Answer : Type 0 where
  cb_ok cb_error : Answer

-- mnl_attr_parse and mnl_attr_parse_nested: the callback on each attribute, up to an error.
abbrev pub each {ℓ κ} : {A : Type ℓ} {S : Type κ} → (A → S → S × Answer) → List A → S → S × Answer
each callback [] s = (s, cb_ok)
each callback (a ∷ attrs) s =
    let (s', answer) = callback a s in
    elim answer [ cb_ok ↦ each callback attrs s' | cb_error ↦ (s', cb_error) ]

-- What `calloc` gives.
abbrev pub zero_ip : AllowedIp
zero_ip = record { family = af_unspec; ip = []; cidr = 0 }

unfoldable pub parse_allowedip : Payload → IpAttr → AllowedIp → AllowedIp × Answer
parse_allowedip l (family b) a =
    (if l.is_u16 b then record a { family = l.family_of (l.number b) } else a, cb_ok)
parse_allowedip l (ipaddr b) a =
    (if length b == 4 || length b == 16 then record a { ip = b } else a, cb_ok)
parse_allowedip l (cidr_mask b) a = (if l.is_u8 b then record a { cidr = l.number b } else a, cb_ok)
parse_allowedip l other_ip_attr a = (a, cb_ok)

-- `(family == AF_INET && cidr <= 32) || (family == AF_INET6 && cidr <= 128)`.
abbrev pub prefix_fits : AllowedIp → Bool
prefix_fits a = elim a.family [
  | af_inet ↦ leb a.cidr 32
  | af_inet6 ↦ leb a.cidr 128
  | af_unspec ↦ false
  | other ↦ false
]

-- The address is appended before it is read. The source tests the answer of the nested reading only
-- for MNL_CB_STOP.
unfoldable pub parse_allowedips : Payload → List IpAttr → Peer → Peer × Answer
unfolding parse_allowedip
parse_allowedips l attrs p =
    let (a, answer) = each (parse_allowedip l) attrs zero_ip in
    (record p { allowedips = p.allowedips ++ (a ∷ []) }, if prefix_fits a then cb_ok else cb_error)

-- The endpoint is copied if its size is that of its family.
abbrev pub is_sockaddr : Payload → Bytes → Bool
is_sockaddr l b = not (ltb (length b) l.sizeof_sockaddr) && elim (l.sockaddr_of b).sa_family [
  | af_inet ↦ length b == l.sizeof_sockaddr_in
  | af_inet6 ↦ length b == l.sizeof_sockaddr_in6
  | af_unspec ↦ false
  | other ↦ false
]

abbrev pub with_flag : ℕ → Peer → Peer
with_flag mask p = record p { flags = bit_or p.flags mask }

-- `flags & WGPEER_F_HAS_AWG`.
abbrev pub awg_bit : ℕ
awg_bit = 8

unfoldable pub parse_peer : Payload → PeerAttr → Peer → Peer × Answer
unfolding parse_allowedips key_is_zero
parse_peer l (public_key b) p = (
  if length b == wg_key_len
      then with_flag PeerFlag.has_public_key (record p { public_key = b })
      else p,
  cb_ok,
)
parse_peer l (preshared_key b) p =
    let p' : Peer = record p { preshared_key = b } in
    (
      if length b == wg_key_len
          then if key_is_zero b then p' else with_flag PeerFlag.has_preshared_key p'
          else p,
      cb_ok,
    )
parse_peer l (endpoint b) p =
    (if is_sockaddr l b then record p { endpoint = l.sockaddr_of b } else p, cb_ok)
parse_peer l (persistent_keepalive_interval b) p =
    (if l.is_u16 b then record p { persistent_keepalive_interval = l.number b } else p, cb_ok)
parse_peer l (last_handshake_time b) p = (
  if length b == l.sizeof_timespec
      then record p { last_handshake_time_sec = l.tv_sec b; last_handshake_time_nsec = l.tv_nsec b }
      else p,
  cb_ok,
)
parse_peer l (rx_bytes b) p = (if l.is_u64 b then record p { rx_bytes = l.number b } else p, cb_ok)
parse_peer l (tx_bytes b) p = (if l.is_u64 b then record p { tx_bytes = l.number b } else p, cb_ok)
parse_peer l (flags b) p = (
  if l.is_u32 b && has (l.number b) awg_bit && not (has p.flags PeerFlag.has_awg)
      then with_flag PeerFlag.has_awg (record p { awg = false })
      else p,
  cb_ok,
)
parse_peer l (awg b) p = (
  if l.is_flag b
      then if has p.flags PeerFlag.has_awg
        then record p { awg = true }
        else with_flag PeerFlag.has_awg (record p { awg = true })
      else p,
  cb_ok,
)
parse_peer l (allowedips nests) p = each (parse_allowedips l) nests p
parse_peer l other_peer_attr p = (p, cb_ok)

-- The peer is appended before it is read; an error within it is not looked at, but for a missing key.
unfoldable pub parse_peers : Payload → List PeerAttr → Device → Device × Answer
unfolding parse_peer
parse_peers l attrs d =
    let (p, answer) = each (parse_peer l) attrs zero_peer in
    (
      record d { peers = d.peers ++ (p ∷ []) },
      if has p.flags PeerFlag.has_public_key then cb_ok else cb_error,
    )
