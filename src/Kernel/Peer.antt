-- ===== src/Kernel/Peer.antt =====
-- The attributes of a peer and of its addresses in `kernel_set_device`, ipc-linux.h. A put that
-- does not fit ends the chain: it is the `goto` of the source.
pub mod Puts
pub mod Laws
use router1_app.Prelude.{
  ℕ, bit_or, Bool, true, false, not, ◌&&◌, Option, none, some, if◌then◌else◌, truthy,
}
use router1_app.Containers.{Family, AllowedIp, Peer, af_inet, af_inet6}
use router1_app.Containers.Flags.{has}
use router1_app.Containers.PeerFlag
use router1_app.Kernel.{Attr, Netlink, Nest, put_check, nest_start_check}

infixl 5 ◌>>=◌
abbrev pub ◌>>=◌ {ℓ κ} : {A : Type ℓ} {B : Type κ} → Option A → (A → Option B) → Option B
none >>= f = none
some a >>= f = f a

-- `family == AF_INET || family == AF_INET6`.
abbrev pub is_ip : Family → Bool
is_ip af_inet = true
is_ip af_inet6 = true
is_ip f = false

-- A conditional put with the test of the room.
abbrev pub put_check_if : Netlink → Bool → Attr → Nest → Option Nest
put_check_if n true a m = put_check n m a
put_check_if n false a m = some m

-- The flags of a peer's attribute: WGPEER_F_REMOVE_ME is 1, WGPEER_F_REPLACE_ALLOWEDIPS 2,
-- WGPEER_F_HAS_AWG 8.
abbrev pub when_flag : Bool → ℕ → ℕ
when_flag b mask = if b then mask else 0

unfoldable pub flags_of : Bool → Peer → ℕ
flags_of resumed p =
    let replace = not resumed && has p.flags PeerFlag.replace_allowedips in
    bit_or (bit_or (when_flag (has p.flags PeerFlag.remove_me) 1) (when_flag replace 2))
      (when_flag (has p.flags PeerFlag.has_awg) 8)

-- The answer of the put of WGPEER_A_AWG is not looked at.
abbrev pub put_awg : Netlink → Bool → Nest → Nest
put_awg n b m = elim (put_check_if n b Attr.awg m) [ none ↦ m | some m' ↦ m' ]

-- What is put for a peer before its addresses. `resumed` is true where the peer was begun in an
-- earlier message.
unfoldable pub put_peer_head : Netlink → Bool → Peer → Nest → Option Nest
unfolding put_check flags_of
put_peer_head n resumed p m0 =
    let first = not resumed in
    let addr = p.endpoint in
    let known = is_ip addr.sa_family in
    let keepalive = p.persistent_keepalive_interval in
    let flags = flags_of resumed p in
    do
      m1 ← put_check n m0 (Attr.public_key p.public_key)
      m2 ←
          put_check_if n (first && has p.flags PeerFlag.has_preshared_key)
            (Attr.preshared_key p.preshared_key) m1
      m3 ← put_check_if n (first && known) (Attr.endpoint addr) m2
      m4 ←
          put_check_if n (first && has p.flags PeerFlag.has_persistent_keepalive_interval)
            (Attr.persistent_keepalive_interval keepalive) m3
      let m5 = put_awg n (has p.flags PeerFlag.has_awg && p.awg) m4
      put_check_if n (truthy flags) (Attr.peer_flags flags) m5

-- One allowed address.
unfoldable pub put_allowedip : Netlink → ℕ → AllowedIp → Option Nest
unfolding put_check nest_start_check
put_allowedip n len a =
    let known = is_ip a.family in
    do
      m0 ← nest_start_check n len
      m1 ← put_check n m0 (Attr.family a.family)
      m2 ← put_check_if n known (Attr.ipaddr a) m1
      put_check n m2 (Attr.cidr_mask a.cidr)
