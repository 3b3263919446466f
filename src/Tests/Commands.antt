-- ===== src/Tests/Commands.antt =====
-- The subcommands and the request to the daemon at concrete inputs.
use router1_app.Prelude.{
  ◌≡◌, refl, Bool, true, false, none, some, [], ◌∷◌, ◌++◌, Bytes, Outcome, Ensures, ok, fail, exit,
  fault, hang, ℕ, Option, codes, All,
}
use router1_app.Containers.{Device, zero_device, zero_peer}
use router1_app.Containers.Valid.{IsDevice, IsPeer, zero_device-IsDevice}
use router1_app.Libc.{strtoul}
use router1_app.Encoding.Base64.{key_from_base64}
use router1_app.Config.Values.{
  parse_fwmark, parse_uint16, parse_awg_string, parse_key, parse_persistent_keepalive,
}
use router1_app.Config.Address.{parse_allowedips}
use router1_app.Config.Host.{error, eai_noname}
use router1_app.Config.Read.Laws.{IsFinished}
use router1_app.Config.Cmd.{config_read_cmd}
use router1_app.Config.Cmd.Laws.{config_read_cmd-Ensures}
use router1_app.Setconf.{sync_conf}
use router1_app.Setconf.Main.{Ipc, Ran, read_file, setconf_main, set_main}
use router1_app.Setconf.Sent.{IsIpc, RanGood, setconf_main-RanGood, set_main-RanGood}
use mathlib.Core.Path.{subst}
use router1_app.Setconf.Files.{read_file-Ensures}
use router1_app.Setconf.Removals.{Extends, sync_conf-Extends}
use router1_app.Uapi.Wire.{Daemon, negate, einval}
use router1_app.Uapi.Set.{device_request, peers_request, userspace_set_device}
use router1_app.Uapi.Set.Laws.{userspace_set_device-awg}
use router1_app.Tests.Setup.{
  test_peer, test_peer-IsPeer, slow_host, slow_host-IsHost, test_file, test_args, test_device,
  test_awg_device, test_key, awg_peer,
}
use router1_app.Encoding.Hex.{key_to_hex}

read_file-Ensures_example : Ensures IsFinished (read_file slow_host 5 false test_file)
read_file-Ensures_example = read_file-Ensures slow_host 5 false test_file slow_host-IsHost

config_read_cmd-Ensures_example : Ensures IsDevice (config_read_cmd slow_host 5 test_args)
config_read_cmd-Ensures_example = config_read_cmd-Ensures slow_host 5 test_args slow_host-IsHost

-- The file and the arguments are accepted.
abbrev accepted : Outcome Device → Bool
accepted (ok d) = true
accepted fail = false
accepted exit = false
accepted fault = false
accepted hang = false

test_file-accepted : accepted (read_file slow_host 5 false test_file) ≡ true
unfolding read_file parse_fwmark strtoul parse_uint16 parse_awg_string parse_key key_from_base64
    parse_allowedips parse_persistent_keepalive
test_file-accepted = refl

test_args-accepted : accepted (config_read_cmd slow_host 5 test_args) ≡ true
unfolding config_read_cmd parse_fwmark parse_uint16 strtoul parse_key key_from_base64
    parse_allowedips parse_persistent_keepalive
test_args-accepted = refl

abbrev IsTestKey : Bytes → Type 0
IsTestKey key = key ≡ test_key

abbrev file_device : Device
file_device = record zero_device { peers = record zero_peer { flags = 4 } ∷ [] }

extended_file :
    Ensures
      (λ (d : Device). Extends IsTestKey file_device.peers d.peers)
      (sync_conf (some test_device) file_device)
extended_file = sync_conf-Extends IsTestKey file_device test_device (refl, tt)

abbrev silent : Daemon
silent = record {
  open_errno = λ name. none;
  answer = λ name request. [];
  errno_after = 0;
  getnameinfo = λ a. none;
  inet_ntop = λ family ip. none;
  inet_pton = λ family text. none;
  getaddrinfo = λ host service. error eai_noname;
  sizeof_sockaddr_in = 16;
  sizeof_sockaddr_in6 = 28;
  generate_public = λ key. key;
}

userspace_set_device-awg_example : userspace_set_device silent test_awg_device ≡ record {
  ret = negate einval;
  written =
      device_request test_awg_device
      ++ ((peers_request silent (test_peer ∷ [])).0
          ++ (codes "public_key=" ++ (key_to_hex awg_peer.public_key ++ codes "\n")));
}
userspace_set_device-awg_example =
    userspace_set_device-awg silent test_awg_device (test_peer ∷ []) [] awg_peer refl refl refl refl

abbrev kernel : Ipc
kernel = record {
  get_device = λ name. some test_device;
  set_device = λ d. true;
  file_lines = λ path. some test_file;
}

test_device-IsDevice : IsDevice test_device
test_device-IsDevice =
    let z = zero_device-IsDevice in
    let peers : All IsPeer (test_peer ∷ []) = (test_peer-IsPeer, tt) in assumption

kernel-IsIpc : IsIpc kernel
kernel-IsIpc name d e = subst IsDevice (device_eq e) test_device-IsDevice
  where
    device_eq : some test_device ≡ some d → test_device ≡ d
    device_eq e' = cc

setconf_main-RanGood_example :
    RanGood
      (setconf_main slow_host kernel 5 (codes "syncconf" ∷ codes "awg0" ∷ codes "awg0.conf" ∷ []))
setconf_main-RanGood_example =
    setconf_main-RanGood slow_host kernel 5
      (codes "syncconf" ∷ codes "awg0" ∷ codes "awg0.conf" ∷ []) slow_host-IsHost kernel-IsIpc

set_main-RanGood_example :
    RanGood (set_main slow_host kernel 5 (codes "set" ∷ codes "awg0" ∷ test_args))
set_main-RanGood_example =
    set_main-RanGood slow_host kernel 5 (codes "set" ∷ codes "awg0" ∷ test_args) slow_host-IsHost

-- The file is sent, with status 0.
status_of : Option Ran → ℕ
status_of none = 2
status_of (some r) = r.status

syncconf_sends :
    status_of
      (setconf_main slow_host kernel 5 (codes "syncconf" ∷ codes "awg0" ∷ codes "awg0.conf" ∷ []))
    ≡ 0
unfolding status_of setconf_main parse_fwmark strtoul parse_uint16 parse_awg_string parse_key
    key_from_base64 parse_allowedips parse_persistent_keepalive
syncconf_sends = refl
