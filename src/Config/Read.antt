-- ===== src/Config/Read.antt =====
-- `config_read_init`, `config_read_line`, `config_read_finish` and `strip_spaces` of config.c.
pub mod Lines
pub mod Laws
use router1_app.Prelude.{
  ℕ, bit_or, Bool, true, false, not, ◌||◌, Option, none, some, List, [], ◌∷◌, ◌==◌, if◌then◌else◌,
  Bytes, codes, Outcome, ok, fail, length,
}
use router1_app.Libc.{strncasecmp_eq, split_first}
use router1_app.Ctype.{char_is_space}
use router1_app.Containers.{Peer, Device, zero_device}
use router1_app.Containers.Flags.{has}
use router1_app.Containers.DeviceFlag
use router1_app.Containers.PeerFlag
use router1_app.Config.Host.{Host}
use router1_app.Config.Line.{Ctx, process_line}
use router1_app.Config.Clean.{clean_special_handshake_line}

-- The characters that are no white space.
unfoldable pub strip_spaces : Bytes → Bytes
unfolding char_is_space
strip_spaces [] = []
strip_spaces (c ∷ text) = if not (char_is_space c) then c ∷ strip_spaces text else strip_spaces text

abbrev pub comment_char : ℕ
comment_char = b'#'

-- `len`: what stands before the comment.
abbrev pub before_comment : Bytes → Option (Bytes × Bytes) → Bytes
before_comment input none = input
before_comment input (some (before, after)) = before

abbrev pub awg_special_handshake_keys : List Bytes
awg_special_handshake_keys = codes "I1" ∷ codes "I2" ∷ codes "I3" ∷ codes "I4" ∷ codes "I5" ∷ []

unfoldable pub is_special : List Bytes → Bytes → Bool
unfolding strncasecmp_eq
is_special [] input = false
is_special (k ∷ keys) input = strncasecmp_eq 2 input k || is_special keys input

-- `line` as it is handed to `process_line`.
unfoldable pub cleaned_line : Bytes → Bytes
unfolding split_first is_special strip_spaces clean_special_handshake_line
cleaned_line input =
    let text = before_comment input (split_first comment_char input) in
    if is_special awg_special_handshake_keys input
    then clean_special_handshake_line input (length text)
    else strip_spaces text

unfoldable pub config_read_line : Host → ℕ → Ctx → Bytes → Outcome Ctx
unfolding cleaned_line process_line
config_read_line h fuel ctx input =
    let line = cleaned_line input in
    if length line == 0 then ok ctx else process_line h fuel ctx line

unfoldable pub config_read_init : Bool → Ctx
config_read_init append =
    let flags =
      if append
      then 0
      else bit_or 0 (
          bit_or (bit_or DeviceFlag.replace_peers DeviceFlag.has_private_key)
            DeviceFlag.has_fwmark) in
    record {
      device = record zero_device { flags = flags };
      is_peer_section = false;
      is_device_section = false;
    }

unfoldable pub all_have_key : List Peer → Bool
all_have_key [] = true
all_have_key (p ∷ peers) =
    if not (has p.flags PeerFlag.has_public_key) then false else all_have_key peers

-- The device, unless a peer is missing a public key.
unfoldable pub config_read_finish : Ctx → Outcome Device
unfolding all_have_key
config_read_finish ctx = if all_have_key ctx.device.peers then ok ctx.device else fail
