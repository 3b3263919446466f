-- ===== src/Config/Cmd.antt =====
-- `config_read_cmd` of config.c: the arguments of `wg set`. `peer` is the last peer of the device, and
-- null while there is none.
pub mod Laws
use router1_app.Prelude.{
  ℕ, Bool, true, false, not, ◌&&◌, Option, none, some, List, [], ◌∷◌, ◌++◌, if◌then◌else◌, Bytes,
  codes, Outcome, ◌>>=◌, ◌>>◌, ok, fail,
}
use router1_app.Libc.{strcmp_eq}
use router1_app.Containers.{Peer, Device, zero_key, zero_peer, zero_device}
use router1_app.Containers.DeviceFlag
use router1_app.Containers.PeerFlag
use router1_app.Config.Host.{Host}
use router1_app.Config.Values.{
  parse_port, parse_fwmark, parse_key, parse_keyfile, parse_persistent_keepalive, parse_awg_string,
  parse_uint16, parse_bool,
}
use router1_app.Config.Endpoint.{parse_endpoint}
use router1_app.Config.Address.{parse_allowedips}
use router1_app.Config.Line.{at_last, key_or_fail, add_flag, add_peer_flag, Branches}
use router1_app.Config.Read.{strip_spaces}

abbrev pub no_peer : List Peer → Bool
no_peer [] = true
no_peer (p ∷ peers) = false

-- A chain `if (!strcmp(argv[0], name) && argc >= 2 && ...) ... else goto error`.
unfoldable pub first_arg : {A : Type 0} → Bytes → Bytes → Branches A → Outcome A
unfolding strcmp_eq
first_arg arg v [] = fail
first_arg arg v ((name, branch) ∷ more) = elim (strcmp_eq arg name) [
  | true ↦ branch v
  | false ↦ first_arg arg v more
]

-- The branches with `!peer`, in their order.
unfoldable pub device_args : Host → Device → Branches Device
device_args h d =
    (
      codes "listen-port",
      λ v. do p ← parse_port h d.flags v; ok (record d { listen_port = p.value; flags = p.flags }),
    )
    ∷ (
      codes "fwmark",
      λ v. do p ← parse_fwmark d.flags v; ok (record d { fwmark = p.value; flags = p.flags }),
    )
    ∷ (
      codes "private-key",
      λ v. do
        k ← key_or_fail (parse_keyfile h d.private_key v)
        ok (add_flag (record d { private_key = k }) DeviceFlag.has_private_key),
    )
    ∷ (
      codes "jc",
      λ v. do
        n ← parse_uint16 v
        ok (add_flag (record d { junk_packet_count = n }) DeviceFlag.has_jc),
    )
    ∷ (
      codes "jmin",
      λ v. do
        n ← parse_uint16 v
        ok (add_flag (record d { junk_packet_min_size = n }) DeviceFlag.has_jmin),
    )
    ∷ (
      codes "jmax",
      λ v. do
        n ← parse_uint16 v
        ok (add_flag (record d { junk_packet_max_size = n }) DeviceFlag.has_jmax),
    )
    ∷ (
      codes "s1",
      λ v. do
        n ← parse_uint16 v
        ok (add_flag (record d { init_packet_junk_size = n }) DeviceFlag.has_s1),
    )
    ∷ (
      codes "s2",
      λ v. do
        n ← parse_uint16 v
        ok (add_flag (record d { response_packet_junk_size = n }) DeviceFlag.has_s2),
    )
    ∷ (
      codes "s3",
      λ v. do
        n ← parse_uint16 v
        ok (add_flag (record d { cookie_reply_packet_junk_size = n }) DeviceFlag.has_s3),
    )
    ∷ (
      codes "s4",
      λ v. do
        n ← parse_uint16 v
        ok (add_flag (record d { transport_packet_junk_size = n }) DeviceFlag.has_s4),
    )
    ∷ (
      codes "h1",
      λ v. do
        t ← parse_awg_string v
        ok (add_flag (record d { init_packet_magic_header = t }) DeviceFlag.has_h1),
    )
    ∷ (
      codes "h2",
      λ v. do
        t ← parse_awg_string v
        ok (add_flag (record d { response_packet_magic_header = t }) DeviceFlag.has_h2),
    )
    ∷ (
      codes "h3",
      λ v. do
        t ← parse_awg_string v
        ok (add_flag (record d { underload_packet_magic_header = t }) DeviceFlag.has_h3),
    )
    ∷ (
      codes "h4",
      λ v. do
        t ← parse_awg_string v
        ok (add_flag (record d { transport_packet_magic_header = t }) DeviceFlag.has_h4),
    )
    ∷ (
      codes "i1",
      λ v. do t ← parse_awg_string v; ok (add_flag (record d { i1 = t }) DeviceFlag.has_i1),
    )
    ∷ (
      codes "i2",
      λ v. do t ← parse_awg_string v; ok (add_flag (record d { i2 = t }) DeviceFlag.has_i2),
    )
    ∷ (
      codes "i3",
      λ v. do t ← parse_awg_string v; ok (add_flag (record d { i3 = t }) DeviceFlag.has_i3),
    )
    ∷ (
      codes "i4",
      λ v. do t ← parse_awg_string v; ok (add_flag (record d { i4 = t }) DeviceFlag.has_i4),
    )
    ∷ (
      codes "i5",
      λ v. do t ← parse_awg_string v; ok (add_flag (record d { i5 = t }) DeviceFlag.has_i5),
    )
    ∷ []

-- The branches with `peer`, in their order.
unfoldable pub peer_args : Host → ℕ → Peer → Branches Peer
unfolding strip_spaces
peer_args h fuel p =
    (codes "endpoint", λ v. do e ← parse_endpoint h fuel v; ok (record p { endpoint = e }))
    ∷ (codes "allowed-ips", λ v. parse_allowedips h (strip_spaces v) p)
    ∷ (
      codes "persistent-keepalive",
      λ v. do
        n ← parse_persistent_keepalive p.flags v
        ok (record p { persistent_keepalive_interval = n.value; flags = n.flags }),
    )
    ∷ (
      codes "preshared-key",
      λ v. do
        k ← key_or_fail (parse_keyfile h p.preshared_key v)
        ok (add_peer_flag (record p { preshared_key = k }) PeerFlag.has_preshared_key),
    )
    ∷ (
      codes "advanced-security",
      λ v. do b ← parse_bool v; ok (add_peer_flag (record p { awg = b }) PeerFlag.has_awg),
    )
    ∷ []

-- The branch `peer`.
abbrev pub cmd_new_peer : Bytes → Device → Outcome Device
cmd_new_peer v d = do
  k ← key_or_fail (parse_key zero_key v)
  ok (record d {
    peers =
        d.peers
        ++ (add_peer_flag (record zero_peer { public_key = k }) PeerFlag.has_public_key ∷ []);
  })

-- A branch on an argument and its value; the other branches are `error`.
unfoldable pub pair_arg : Host → ℕ → Bytes → Bytes → Device → Outcome Device
unfolding first_arg device_args peer_args
pair_arg h fuel arg v d =
    if strcmp_eq arg (codes "peer")
    then cmd_new_peer v d
    else if no_peer d.peers
    then first_arg arg v (device_args h d)
    else (do
      peers ← at_last d.peers (λ p. first_arg arg v (peer_args h fuel p))
      ok (record d { peers = peers }))

-- The branch `remove`, which takes no value.
abbrev pub remove_arg : Device → Outcome Device
remove_arg d = do
  peers ← at_last d.peers (λ p. ok (add_peer_flag p PeerFlag.remove_me))
  ok (record d { peers = peers })

abbrev pub is_remove : Bytes → Device → Bool
is_remove arg d = strcmp_eq arg (codes "remove") && not (no_peer d.peers)

unfoldable pub read_args : Host → ℕ → List Bytes → Device → Outcome Device
unfolding pair_arg
read_args h fuel [] d = ok d
read_args h fuel (arg ∷ []) d = if is_remove arg d then remove_arg d else fail
read_args h fuel (arg ∷ v ∷ args) d =
    let removed = (do d' ← remove_arg d; read_args h fuel (v ∷ args) d') in
    let pair = (do d' ← pair_arg h fuel arg v d; read_args h fuel args d') in
    if is_remove arg d then removed else pair

unfoldable pub config_read_cmd : Host → ℕ → List Bytes → Outcome Device
unfolding read_args
config_read_cmd h fuel argv = read_args h fuel argv zero_device
