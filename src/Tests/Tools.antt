-- ===== src/Tests/Tools.antt =====
-- The smaller subcommands, the list of interfaces and the texts of show at concrete inputs.
use Prim.Native.Nat.{Ordering}
use router1_app.Prelude.{
  ℕ, ◌≡◌, ◌≤◌, ◌≢◌, refl, true, false, none, some, [], ◌∷◌, ◌++◌, arith, codes, Bytes, Outcome, ok,
  fail, exit, fault, hang, length, bit_or,
}
use router1_app.Encoding.Base64.{key_to_base64}
use router1_app.Containers.{Peer, Device, zero_peer, zero_device}
use router1_app.Containers.Flags.{clear_flag}
use router1_app.Containers.DeviceFlag
use router1_app.Ctype.{char_is_alpha, char_is_space}
use router1_app.Terminal.{filter_ansi}
use router1_app.Terminal.Laws.{plain, sequence, render, shown, filter_ansi-render}
use router1_app.Keys.{
  Random, curve25519_clamp_secret, read_random, get_random_bytes, genkey_main, pubkey_main, puts,
}
use router1_app.Keys.Laws.{
  IsClamped, curve25519_clamp_secret-IsClamped, read_random-full, pubkey_main-genkey_main, genkey,
}
use router1_app.Ipc.{Sockets}
use router1_app.Setconf.{sync_conf}
use router1_app.Setconf.Sorted.{count_key}
use router1_app.Setconf.Sync.{Synced, sync_conf-Synced}
use router1_app.Show.Format.{Surroundings, unnamed, units_of, key}
use router1_app.Show.Format.Laws.{total, IsReduced, units_of_lem}
use router1_app.Show.Sort.{peer_cmp}
use router1_app.Show.Sort.Laws.{flip, peer_cmp-flip}
use router1_app.Show.Main.{Devices}
use router1_app.WgQuick.{kind_of, rest}
use router1_app.Tests.Setup.{test_key, test_key-IsKey, slow_host}
use router1_app.Showconf.{settings, number_entries, header_entries}
use router1_app.Showconf.Lines.{lines_of}
use router1_app.Showconf.RoundTrip.{Fits, read_lines-stored}
use router1_app.Setconf.Main.{read_lines}
use router1_app.Config.Line.{Ctx}

filter_ansi-render_example :
    filter_ansi false
      (render (plain (codes "key: ") ∷ sequence (codes "32") b'm' ∷ plain (codes "x") ∷ []))
    ≡ shown (plain (codes "key: ") ∷ sequence (codes "32") b'm' ∷ plain (codes "x") ∷ [])
unfolding char_is_alpha
filter_ansi-render_example =
    filter_ansi-render (plain (codes "key: ") ∷ sequence (codes "32") b'm' ∷ plain (codes "x") ∷ [])
      (
        ((refl, refl), ((refl, refl), ((refl, refl), ((refl, refl), ((refl, refl), tt))))),
        (((refl, (refl, tt)), refl), (((refl, refl), tt), tt)),
      )

curve25519_clamp_secret-IsClamped_example : IsClamped (curve25519_clamp_secret test_key)
curve25519_clamp_secret-IsClamped_example =
    curve25519_clamp_secret-IsClamped test_key test_key-IsKey

read_random-full_example :
    (text : Bytes) × (read_random 3 [] ((1 ∷ []) ∷ (2 ∷ 3 ∷ 4 ∷ []) ∷ (5 ∷ []) ∷ []) ≡ some text)
    × (length text ≡ 3)
read_random-full_example =
    read_random-full 3 [] ((1 ∷ []) ∷ (2 ∷ 3 ∷ 4 ∷ []) ∷ (5 ∷ []) ∷ [])
      ((λ e. cc), ((λ e. cc), ((λ e. cc), tt))) (omega arith) (omega arith)

abbrev host_random : Random
host_random = record { getrandom = some test_key; urandom = none }

pubkey_main-genkey_main_example :
    pubkey_main (λ key. key) (codes "pubkey" ∷ []) (genkey_main host_random genkey).text
    ≡ puts (key_to_base64 (curve25519_clamp_secret test_key))
unfolding get_random_bytes
pubkey_main-genkey_main_example =
    pubkey_main-genkey_main host_random (λ key. key) test_key refl test_key-IsKey

abbrev test_sockets : Sockets
test_sockets = record { answers = λ name. true; entries = codes "awg0.sock" ∷ codes "other" ∷ [] }

units_of_lem_example : (total (units_of 100000) ≡ 100000) × IsReduced (units_of 100000)
units_of_lem_example = units_of_lem 100000

abbrev seen_at : ℕ → Peer
seen_at n = record zero_peer { last_handshake_time_sec = n }

peer_cmp-flip_example :
    (peer_cmp (seen_at 5) (seen_at 0) ≡ flip (peer_cmp (seen_at 0) (seen_at 5)))
    × (peer_cmp (seen_at 0) (seen_at 5) ≢ Ordering.gt
        → peer_cmp (seen_at 5) (seen_at 7) ≢ Ordering.gt
        → peer_cmp (seen_at 0) (seen_at 7) ≢ Ordering.gt)
peer_cmp-flip_example =
    peer_cmp-flip (seen_at 0) (seen_at 5) (seen_at 7) (omega arith, omega arith)
      (omega arith, omega arith) (omega arith, omega arith)

abbrev test_surroundings : Surroundings
test_surroundings = record {
  inet_ntop = λ family ip. none;
  getnameinfo = λ addr. unnamed [];
  hide_keys = none;
  now = 0;
  color = false;
  two_places = λ b unit. [];
}

abbrev no_sockets : Sockets
no_sockets = record { answers = λ name. true; entries = [] }

abbrev two_names : Bytes
two_names = codes "wg0" ++ (0 ∷ (codes "wg1" ++ (0 ∷ 0 ∷ 0 ∷ [])))

abbrev test_devices : Devices
test_devices = record {
  list_devices = some two_names;
  get_device = λ name. none;
  qsort = λ order peers. peers;
}

buffer_of : Outcome Bytes → Bytes
buffer_of (ok buffer) = buffer
buffer_of fail = []
buffer_of exit = []
buffer_of fault = []
buffer_of hang = []

-- The file has the key of zeros, and another key runs.
abbrev sync_file : Device
sync_file = record zero_device { peers = record zero_peer { flags = 4 } ∷ [] }

abbrev sync_runtime : Device
sync_runtime = record zero_device { peers = record zero_peer { public_key = test_key } ∷ [] }

sync_runtime_once : (key : Bytes) → count_key key sync_runtime.peers ≤ 1
unfolding count_key
sync_runtime_once key = ground arith

sync_conf-Synced_example :
    (d : Device) × (sync_conf (some sync_runtime) sync_file ≡ ok d)
    × (d.flags ≡ clear_flag sync_file.flags DeviceFlag.replace_peers)
    × Synced sync_file.peers sync_runtime.peers d.peers
sync_conf-Synced_example =
    sync_conf-Synced 32 sync_file sync_runtime refl refl (refl, tt) (refl, tt) sync_runtime_once

-- A count of one digit is not seen as a setting of AmneziaWG.
one_digit-rest : kind_of (codes "Jc=4") ≡ rest
unfolding kind_of
one_digit-rest = refl

-- A device with two numbers and one header set.
abbrev awg_device : Device
awg_device = record zero_device {
  flags = bit_or DeviceFlag.has_jc (bit_or DeviceFlag.has_s1 DeviceFlag.has_h1);
  junk_packet_count = 4;
  init_packet_junk_size = 65535;
  init_packet_magic_header = some (codes "5-10");
}

awg_device-Fits : Fits awg_device
unfolding char_is_space
awg_device-Fits = record {
  small_jc = omega arith;
  small_jmin = omega arith;
  small_jmax = omega arith;
  small_s1 = omega arith;
  small_s2 = omega arith;
  small_s3 = omega arith;
  small_s4 = omega arith;
  full_h1 = λ there. (refl, omega arith, omega arith);
  full_h2 = λ there. ground arith;
  full_h3 = λ there. ground arith;
  full_h4 = λ there. ground arith;
}

abbrev awg_ctx : Ctx
awg_ctx = record { device = zero_device; is_peer_section = false; is_device_section = true }

read_lines-stored_example :
    read_lines slow_host 1 awg_ctx (
      lines_of
        (settings (number_entries awg_device) ++ (settings (header_entries awg_device) ++ [])))
    ≡ ok (record awg_ctx { device = awg_device })
unfolding read_lines lines_of
read_lines-stored_example = read_lines-stored slow_host 1 awg_device awg_ctx [] awg_device-Fits refl
