-- ===== src/Config/Line.antt =====
-- `get_value`, struct config_ctx and `process_line` of config.c. `ctx->last_peer` is always the last
-- peer of the device's list, and null while the list is empty; `ctx->last_allowedip` is the last
-- address of that peer. So both are read off the list, and a use of a null `last_peer` is a fault.
pub mod Laws
pub mod Peers
use router1_app.Prelude.{
  ℕ, bit_or, Bool, true, false, Option, none, some, List, [], ◌∷◌, ◌++◌, leb, if◌then◌else◌, Bytes,
  codes, Outcome, ◌>>=◌, ◌>>◌, ok, fail, fault, length, drop,
}
use router1_app.Libc.{strncasecmp_eq, strcasecmp_eq}
use router1_app.Containers.{Peer, Device, zero_peer}
use router1_app.Containers.DeviceFlag
use router1_app.Containers.PeerFlag
use router1_app.Config.Host.{Host}
use router1_app.Config.Values.{
  parse_port, parse_fwmark, parse_key, parse_persistent_keepalive, parse_awg_string, parse_uint16,
  parse_bool,
}
use router1_app.Config.Endpoint.{parse_endpoint}
use router1_app.Config.Address.{parse_allowedips}

-- The text behind the key, unless nothing is there.
unfoldable pub get_value : Bytes → Bytes → Option Bytes
unfolding strncasecmp_eq
get_value line key =
    if leb (length line) (length key)
    then none
    else if strncasecmp_eq (length key) line key
    then some (drop (length key) line)
    else none

-- struct config_ctx.
pub record Ctx : Type 0 where
  pub device : Device
  pub is_peer_section : Bool
  pub is_device_section : Bool

-- A chain `if (key_match(key)) ... else if ... else`, as the list of its keys and branches.
abbrev pub Branches : Type 0 → Type 0
Branches A = List (Bytes × (Bytes → Outcome A))

unfoldable pub first_key : {A : Type 0} → Bytes → Branches A → Outcome A
unfolding get_value
first_key line [] = fail
first_key line ((key, branch) ∷ more) = elim (get_value line key) [
  | some value ↦ branch value
  | none ↦ first_key line more
]

-- An assignment to the device, or through `ctx->last_peer`.
abbrev pub at_last : List Peer → (Peer → Outcome Peer) → Outcome (List Peer)
at_last [] f = fault
at_last (p ∷ []) f = do q ← f p; ok (q ∷ [])
at_last (p ∷ q ∷ peers) f = do rest ← at_last (q ∷ peers) f; ok (p ∷ rest)

-- The answer of `parse_key` as the control flow of its callers.
abbrev pub key_or_fail : Bool × Bytes → Outcome Bytes
key_or_fail (accepted, key) = if accepted then ok key else fail

abbrev pub add_flag : Device → ℕ → Device
add_flag d flag = record d { flags = bit_or d.flags flag }

-- The branches of `ctx->is_device_section`, in their order.
unfoldable pub device_branches : Host → Device → Branches Device
device_branches h d =
    (
      codes "ListenPort=",
      λ v. do p ← parse_port h d.flags v; ok (record d { listen_port = p.value; flags = p.flags }),
    )
    ∷ (
      codes "FwMark=",
      λ v. do p ← parse_fwmark d.flags v; ok (record d { fwmark = p.value; flags = p.flags }),
    )
    ∷ (
      codes "PrivateKey=",
      λ v. do
        k ← key_or_fail (parse_key d.private_key v)
        ok (add_flag (record d { private_key = k }) DeviceFlag.has_private_key),
    )
    ∷ (
      codes "Jc=",
      λ v. do
        n ← parse_uint16 v
        ok (add_flag (record d { junk_packet_count = n }) DeviceFlag.has_jc),
    )
    ∷ (
      codes "Jmin=",
      λ v. do
        n ← parse_uint16 v
        ok (add_flag (record d { junk_packet_min_size = n }) DeviceFlag.has_jmin),
    )
    ∷ (
      codes "Jmax=",
      λ v. do
        n ← parse_uint16 v
        ok (add_flag (record d { junk_packet_max_size = n }) DeviceFlag.has_jmax),
    )
    ∷ (
      codes "S1=",
      λ v. do
        n ← parse_uint16 v
        ok (add_flag (record d { init_packet_junk_size = n }) DeviceFlag.has_s1),
    )
    ∷ (
      codes "S2=",
      λ v. do
        n ← parse_uint16 v
        ok (add_flag (record d { response_packet_junk_size = n }) DeviceFlag.has_s2),
    )
    ∷ (
      codes "S3=",
      λ v. do
        n ← parse_uint16 v
        ok (add_flag (record d { cookie_reply_packet_junk_size = n }) DeviceFlag.has_s3),
    )
    ∷ (
      codes "S4=",
      λ v. do
        n ← parse_uint16 v
        ok (add_flag (record d { transport_packet_junk_size = n }) DeviceFlag.has_s4),
    )
    ∷ (
      codes "H1=",
      λ v. do
        t ← parse_awg_string v
        ok (add_flag (record d { init_packet_magic_header = t }) DeviceFlag.has_h1),
    )
    ∷ (
      codes "H2=",
      λ v. do
        t ← parse_awg_string v
        ok (add_flag (record d { response_packet_magic_header = t }) DeviceFlag.has_h2),
    )
    ∷ (
      codes "H3=",
      λ v. do
        t ← parse_awg_string v
        ok (add_flag (record d { underload_packet_magic_header = t }) DeviceFlag.has_h3),
    )
    ∷ (
      codes "H4=",
      λ v. do
        t ← parse_awg_string v
        ok (add_flag (record d { transport_packet_magic_header = t }) DeviceFlag.has_h4),
    )
    ∷ (
      codes "I1=",
      λ v. do t ← parse_awg_string v; ok (add_flag (record d { i1 = t }) DeviceFlag.has_i1),
    )
    ∷ (
      codes "I2=",
      λ v. do t ← parse_awg_string v; ok (add_flag (record d { i2 = t }) DeviceFlag.has_i2),
    )
    ∷ (
      codes "I3=",
      λ v. do t ← parse_awg_string v; ok (add_flag (record d { i3 = t }) DeviceFlag.has_i3),
    )
    ∷ (
      codes "I4=",
      λ v. do t ← parse_awg_string v; ok (add_flag (record d { i4 = t }) DeviceFlag.has_i4),
    )
    ∷ (
      codes "I5=",
      λ v. do t ← parse_awg_string v; ok (add_flag (record d { i5 = t }) DeviceFlag.has_i5),
    )
    ∷ []

unfoldable pub device_line : Host → Bytes → Device → Outcome Device
unfolding first_key device_branches
device_line h line d = first_key line (device_branches h d)

abbrev pub add_peer_flag : Peer → ℕ → Peer
add_peer_flag p flag = record p { flags = bit_or p.flags flag }

-- The branches of `ctx->is_peer_section`, on the peer that `ctx->last_peer` points to.
unfoldable pub peer_branches : Host → ℕ → Peer → Branches Peer
peer_branches h fuel p =
    (codes "Endpoint=", λ v. do e ← parse_endpoint h fuel v; ok (record p { endpoint = e }))
    ∷ (
      codes "PublicKey=",
      λ v. do
        k ← key_or_fail (parse_key p.public_key v)
        ok (add_peer_flag (record p { public_key = k }) PeerFlag.has_public_key),
    )
    ∷ (codes "AllowedIPs=", λ v. parse_allowedips h v p)
    ∷ (
      codes "PersistentKeepalive=",
      λ v. do
        n ← parse_persistent_keepalive p.flags v
        ok (record p { persistent_keepalive_interval = n.value; flags = n.flags }),
    )
    ∷ (
      codes "PresharedKey=",
      λ v. do
        k ← key_or_fail (parse_key p.preshared_key v)
        ok (add_peer_flag (record p { preshared_key = k }) PeerFlag.has_preshared_key),
    )
    ∷ (
      codes "AdvancedSecurity=",
      λ v. do b ← parse_bool v; ok (add_peer_flag (record p { awg = b }) PeerFlag.has_awg),
    )
    ∷ []

unfoldable pub peer_line : Host → ℕ → Bytes → Peer → Outcome Peer
unfolding first_key peer_branches
peer_line h fuel line p = first_key line (peer_branches h fuel p)

-- A new section for a peer.
abbrev pub new_peer : Peer
new_peer = record zero_peer { flags = PeerFlag.replace_allowedips }

unfoldable pub process_line : Host → ℕ → Ctx → Bytes → Outcome Ctx
unfolding strcasecmp_eq device_line peer_line get_value
process_line h fuel ctx line =
    if strcasecmp_eq line (codes "[Interface]")
    then ok (record ctx { is_peer_section = false; is_device_section = true })
    else if strcasecmp_eq line (codes "[Peer]")
    then ok (record {
      device = record (ctx.device) { peers = ctx.device.peers ++ (new_peer ∷ []) };
      is_peer_section = true;
      is_device_section = false;
    })
    else if ctx.is_device_section
    then (do d ← device_line h line ctx.device; ok (record ctx { device = d }))
    else if ctx.is_peer_section
    then (do
      peers ← at_last ctx.device.peers (peer_line h fuel line)
      ok (record ctx { device = record (ctx.device) { peers = peers } }))
    else fail
