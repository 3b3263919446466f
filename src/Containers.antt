-- ===== src/Containers.antt =====
-- The structures of android/tunnel/tools/amneziawg-tools/src/containers.h. A linked list is the list
-- of its nodes in order, a null pointer `none`, a byte array the list of its bytes. Flags are the
-- bits of a 32-bit word, as in the source.
pub mod PeerFlag
pub mod DeviceFlag
pub mod Flags
pub mod Valid
use router1_app.Prelude.{ℕ, ◌*◌, ◌^◌, Bool, List, Bytes, false, Option, none, [], replicate}
use router1_app.Encoding.Flags.{wg_key_len}

-- MAX_AWG_STRING_LEN.
abbrev pub max_awg_string_len : ℕ
max_awg_string_len = 5 * 1024

-- The address families that the program tells apart; `other` is any further one.
pub data Family : Type 0 where
  af_unspec af_inet af_inet6 other : Family

-- struct wgallowedip. The union holds the bytes of the address in network order.
pub record AllowedIp : Type 0 where
  pub family : Family
  pub ip : Bytes
  pub cidr : ℕ

-- The union `endpoint`: a socket address, zeroed where none was set.
pub record SockAddr : Type 0 where
  pub sa_family : Family
  pub sa_data : Bytes

-- struct wgpeer. A time is the word of 64 bits that stands for an int64_t.
pub record Peer : Type 0 where
  pub flags : ℕ
  pub public_key : Bytes
  pub preshared_key : Bytes
  pub endpoint : SockAddr
  pub last_handshake_time_sec : ℕ
  pub last_handshake_time_nsec : ℕ
  pub rx_bytes : ℕ
  pub tx_bytes : ℕ
  pub persistent_keepalive_interval : ℕ
  pub awg : Bool
  pub allowedips : List AllowedIp

-- struct wgdevice.
pub record Device : Type 0 where
  pub name : Bytes
  pub ifindex : ℕ
  pub flags : ℕ
  pub public_key : Bytes
  pub private_key : Bytes
  pub fwmark : ℕ
  pub listen_port : ℕ
  pub peers : List Peer
  pub junk_packet_count : ℕ
  pub junk_packet_min_size : ℕ
  pub junk_packet_max_size : ℕ
  pub init_packet_junk_size : ℕ
  pub response_packet_junk_size : ℕ
  pub cookie_reply_packet_junk_size : ℕ
  pub transport_packet_junk_size : ℕ
  pub init_packet_magic_header : Option Bytes
  pub response_packet_magic_header : Option Bytes
  pub underload_packet_magic_header : Option Bytes
  pub transport_packet_magic_header : Option Bytes
  pub i1 : Option Bytes
  pub i2 : Option Bytes
  pub i3 : Option Bytes
  pub i4 : Option Bytes
  pub i5 : Option Bytes

-- What `calloc` gives: all bytes zero.
abbrev pub zero_key : Bytes
zero_key = replicate wg_key_len 0

abbrev pub zero_peer : Peer
zero_peer = record {
  flags = 0;
  public_key = zero_key;
  preshared_key = zero_key;
  endpoint = record { sa_family = af_unspec; sa_data = [] };
  last_handshake_time_sec = 0;
  last_handshake_time_nsec = 0;
  rx_bytes = 0;
  tx_bytes = 0;
  persistent_keepalive_interval = 0;
  awg = false;
  allowedips = [];
}

abbrev pub zero_device : Device
zero_device = record {
  name = [];
  ifindex = 0;
  flags = 0;
  public_key = zero_key;
  private_key = zero_key;
  fwmark = 0;
  listen_port = 0;
  peers = [];
  junk_packet_count = 0;
  junk_packet_min_size = 0;
  junk_packet_max_size = 0;
  init_packet_junk_size = 0;
  response_packet_junk_size = 0;
  cookie_reply_packet_junk_size = 0;
  transport_packet_junk_size = 0;
  init_packet_magic_header = none;
  response_packet_magic_header = none;
  underload_packet_magic_header = none;
  transport_packet_magic_header = none;
  i1 = none;
  i2 = none;
  i3 = none;
  i4 = none;
  i5 = none;
}
