-- ===== src/Kernel/Get.antt =====
-- The reading of the kernel's answer in ipc-linux.h: the callbacks for a device, and
-- `kernel_get_device`. Allocation is taken to succeed.
pub mod Laws
use router1_app.Prelude.{
  ℕ, bit_or, Bool, true, false, not, ◌&&◌, ◌||◌, List, [], ◌∷◌, ◌++◌, leb, ltb, ◌==◌, if◌then◌else◌,
  Bytes, length, ◌-◌, Option, none, some, Outcome, ◌>>=◌, ok, hang, set, take,
}
use router1_app.Setconf.Main.{ifnamsiz}
use router1_app.Uapi.Print.{print_u}
use router1_app.Kernel.Coalesce.{coalesce_peers}
use router1_app.Encoding.Flags.{wg_key_len}
use router1_app.Encoding.Zero.{key_is_zero}
use router1_app.Containers.{
  Family, af_unspec, af_inet, af_inet6, AllowedIp, SockAddr, Peer, Device, zero_peer, other,
  zero_device,
}
use router1_app.Containers.Flags.{has}
use router1_app.Containers.DeviceFlag
use router1_app.Containers.PeerFlag
use router1_app.Kernel.Received.{
  DeviceAttr, Payload, Answer, cb_ok, cb_error, each, parse_peers, PeerAttr, peers, private_key,
  device_public_key, listen_port, fwmark, jc, jmin, jmax, s1, s2, s3, s4, h1, h2, h3, h4, i1, i2,
  i3, i4, i5, ifindex, ifname, other_device_attr, public_key, flags,
}

-- The fields that one attribute sets, with the flag of the field where it has one.
abbrev pub device_flag : ℕ → Device → Device
device_flag mask d = record d { flags = bit_or d.flags mask }

abbrev pub number_if : Bool → Device → Device → Device × Answer
number_if b d' d = (if b then d' else d, cb_ok)

-- GET_MAGIC_HEADER: a number is kept as its decimal digits.
unfoldable pub magic_header : Payload → Bytes → Option Bytes
unfolding print_u
magic_header l b =
    if l.is_u32 b
    then some (print_u (l.number b))
    else if l.is_nul_string b
    then some (l.get_str b)
    else none

abbrev pub text_if : (Bytes → Device) → Option Bytes → Device → Device × Answer
text_if set none d = (d, cb_ok)
text_if set (some text) d = (set text, cb_ok)

-- The text of I1 to I5.
abbrev pub nul_string : Payload → Bytes → Option Bytes
nul_string l b = if l.is_nul_string b then some (l.get_str b) else none

unfoldable pub parse_device : Payload → DeviceAttr → Device → Device × Answer
unfolding parse_peers magic_header
parse_device l (ifindex b) d = number_if (l.is_u32 b) (record d { ifindex = l.number b }) d
parse_device l (ifname b) d =
    number_if (l.is_string b) (record d { name = take (ifnamsiz - 1) (l.get_str b) }) d
parse_device l (private_key b) d =
    number_if (length b == wg_key_len)
      (device_flag DeviceFlag.has_private_key (record d { private_key = b })) d
parse_device l (device_public_key b) d =
    number_if (length b == wg_key_len)
      (device_flag DeviceFlag.has_public_key (record d { public_key = b })) d
parse_device l (listen_port b) d = number_if (l.is_u16 b) (record d { listen_port = l.number b }) d
parse_device l (fwmark b) d = number_if (l.is_u32 b) (record d { fwmark = l.number b }) d
parse_device l (peers nests) d = each (parse_peers l) nests d
parse_device l (jc b) d =
    number_if (l.is_u16 b)
      (device_flag DeviceFlag.has_jc (record d { junk_packet_count = l.number b })) d
parse_device l (jmin b) d =
    number_if (l.is_u16 b)
      (device_flag DeviceFlag.has_jmin (record d { junk_packet_min_size = l.number b })) d
parse_device l (jmax b) d =
    number_if (l.is_u16 b)
      (device_flag DeviceFlag.has_jmax (record d { junk_packet_max_size = l.number b })) d
parse_device l (s1 b) d =
    number_if (l.is_u16 b)
      (device_flag DeviceFlag.has_s1 (record d { init_packet_junk_size = l.number b })) d
parse_device l (s2 b) d =
    number_if (l.is_u16 b)
      (device_flag DeviceFlag.has_s2 (record d { response_packet_junk_size = l.number b })) d
parse_device l (s3 b) d =
    number_if (l.is_u16 b)
      (device_flag DeviceFlag.has_s3 (record d { cookie_reply_packet_junk_size = l.number b })) d
parse_device l (s4 b) d =
    number_if (l.is_u16 b)
      (device_flag DeviceFlag.has_s4 (record d { transport_packet_junk_size = l.number b })) d
parse_device l (h1 b) d =
    text_if
      (λ text. device_flag DeviceFlag.has_h1 (record d { init_packet_magic_header = some text }))
      (magic_header l b) d
parse_device l (h2 b) d =
    text_if
      (λ text.
        device_flag DeviceFlag.has_h2 (record d { response_packet_magic_header = some text }))
      (magic_header l b) d
parse_device l (h3 b) d =
    text_if
      (λ text.
        device_flag DeviceFlag.has_h3 (record d { underload_packet_magic_header = some text }))
      (magic_header l b) d
parse_device l (h4 b) d =
    text_if
      (λ text.
        device_flag DeviceFlag.has_h4 (record d { transport_packet_magic_header = some text }))
      (magic_header l b) d
parse_device l (i1 b) d =
    text_if (λ text. device_flag DeviceFlag.has_i1 (record d { i1 = some text })) (nul_string l b) d
parse_device l (i2 b) d =
    text_if (λ text. device_flag DeviceFlag.has_i2 (record d { i2 = some text })) (nul_string l b) d
parse_device l (i3 b) d =
    text_if (λ text. device_flag DeviceFlag.has_i3 (record d { i3 = some text })) (nul_string l b) d
parse_device l (i4 b) d =
    text_if (λ text. device_flag DeviceFlag.has_i4 (record d { i4 = some text })) (nul_string l b) d
parse_device l (i5 b) d =
    text_if (λ text. device_flag DeviceFlag.has_i5 (record d { i5 = some text })) (nul_string l b) d
parse_device l other_device_attr d = (d, cb_ok)

-- `read_device_cb`, on each message of the answer.
unfoldable pub read_device_cb : Payload → List DeviceAttr → Device → Device × Answer
unfolding parse_device
read_device_cb l attrs d = each (parse_device l) attrs d

-- One attempt: an error of opening the socket; or of the request or its answer, none if there is
-- none, with the messages that came before it.
pub data Attempt : Type 0 where
  unopened : ℕ → Attempt
  answered : List (List DeviceAttr) → Option ℕ → Attempt

-- What the call comes to: the device, or the error.
pub data GetResult : Type 0 where
  got : Device → GetResult
  error : ℕ → GetResult

abbrev pub eintr : ℕ
eintr = 4

abbrev pub einval : ℕ
einval = 22

abbrev pub enametoolong : ℕ
enametoolong = 36

-- An attempt that did not open is the answer of the call. An error of a callback leaves no errno, and
-- so becomes EINVAL.
unfoldable pub get_attempt : Payload → Attempt → Outcome GetResult
unfolding read_device_cb coalesce_peers
get_attempt l (unopened e) = ok (error e)
get_attempt l (answered messages failure) =
    let (d, answer) = each (read_device_cb l) messages zero_device in
    elim answer [
      | cb_error ↦ ok (error einval)
      | cb_ok ↦ elim failure [
        | some e ↦ ok (error e)
        | none ↦ coalesce_peers d.peers >>= λ whole. ok (got (record d { peers = whole }))
      ]
    ]

-- Whether the call tries again: it was interrupted, and not by the opening of the socket.
abbrev pub tries_again : Attempt → GetResult → Bool
tries_again (unopened e) r = false
tries_again (answered messages failure) (got d) = false
tries_again (answered messages failure) (error e) = e == eintr

-- `kernel_get_device`, over the attempts that the model follows.
unfoldable pub get_attempts : Payload → List Attempt → Outcome GetResult
unfolding get_attempt
get_attempts l [] = hang
get_attempts l (a ∷ attempts) =
    let rest = get_attempts l attempts in
    get_attempt l a >>= λ r. if tries_again a r then rest else ok r

unfoldable pub kernel_get_device : Payload → Bytes → List Attempt → Outcome GetResult
unfolding get_attempts
kernel_get_device l iface attempts =
    if leb ifnamsiz (length iface) then ok (error enametoolong) else get_attempts l attempts
