-- ===== src/Containers/Valid.antt =====
-- What every device that the program builds satisfies: numbers fit their fields, keys have 32 bytes,
-- strings fit MAX_AWG_STRING_LEN, and an address has a known family and a prefix that fits it.
use router1_app.Prelude.{ℕ, ◌^◌, ◌≤◌, ◌<◌, ◌≡◌, ◌⊎◌, Option, none, some, arith, Bytes, length, All}
use router1_app.Encoding.Flags.{IsKey}
use router1_app.Containers.{
  max_awg_string_len, Family, AllowedIp, Peer, Device, zero_key, zero_peer, zero_device, af_unspec,
  af_inet, af_inet6, other,
}

abbrev pub address_size : Family → ℕ
address_size af_inet = 4
address_size af_inet6 = 16
address_size af_unspec = 0
address_size other = 0

abbrev pub prefix_size : Family → ℕ
prefix_size af_inet = 32
prefix_size af_inet6 = 128
prefix_size af_unspec = 0
prefix_size other = 0

pub record IsAllowedIp (a : AllowedIp) : Type 0 where
  pub known : (a.family ≡ af_inet) ⊎ (a.family ≡ af_inet6)
  pub size : length a.ip ≡ address_size a.family
  pub prefix : a.cidr ≤ prefix_size a.family

pub record IsPeer (p : Peer) : Type 0 where
  pub public_key_size : IsKey p.public_key
  pub preshared_key_size : IsKey p.preshared_key
  pub interval_range : p.persistent_keepalive_interval < 2 ^ 16
  pub allowedips_valid : All IsAllowedIp p.allowedips

-- A string that is set is shorter than MAX_AWG_STRING_LEN and not empty.
abbrev pub IsAwgString : Option Bytes → Type 0
IsAwgString none = Unit
IsAwgString (some text) = (0 < length text) × (length text < max_awg_string_len)

pub record IsDevice (d : Device) : Type 0 where
  pub private_key_size : IsKey d.private_key
  pub fwmark_range : d.fwmark < 2 ^ 32
  pub port_range : d.listen_port < 2 ^ 16
  pub jc_range : d.junk_packet_count < 2 ^ 16
  pub jmin_range : d.junk_packet_min_size < 2 ^ 16
  pub jmax_range : d.junk_packet_max_size < 2 ^ 16
  pub s1_range : d.init_packet_junk_size < 2 ^ 16
  pub s2_range : d.response_packet_junk_size < 2 ^ 16
  pub s3_range : d.cookie_reply_packet_junk_size < 2 ^ 16
  pub s4_range : d.transport_packet_junk_size < 2 ^ 16
  pub h1_size : IsAwgString d.init_packet_magic_header
  pub h2_size : IsAwgString d.response_packet_magic_header
  pub h3_size : IsAwgString d.underload_packet_magic_header
  pub h4_size : IsAwgString d.transport_packet_magic_header
  pub i1_size : IsAwgString d.i1
  pub i2_size : IsAwgString d.i2
  pub i3_size : IsAwgString d.i3
  pub i4_size : IsAwgString d.i4
  pub i5_size : IsAwgString d.i5
  pub peers_valid : All IsPeer d.peers

pub zero_key-IsKey : IsKey zero_key
zero_key-IsKey = omega arith

pub zero_peer-IsPeer : IsPeer zero_peer
zero_peer-IsPeer = record {
  public_key_size = zero_key-IsKey;
  preshared_key_size = zero_key-IsKey;
  interval_range = omega arith;
  allowedips_valid = tt;
}

pub zero_device-IsDevice : IsDevice zero_device
zero_device-IsDevice = record {
  private_key_size = zero_key-IsKey;
  fwmark_range = omega arith;
  port_range = omega arith;
  jc_range = omega arith;
  jmin_range = omega arith;
  jmax_range = omega arith;
  s1_range = omega arith;
  s2_range = omega arith;
  s3_range = omega arith;
  s4_range = omega arith;
  h1_size = tt;
  h2_size = tt;
  h3_size = tt;
  h4_size = tt;
  i1_size = tt;
  i2_size = tt;
  i3_size = tt;
  i4_size = tt;
  i5_size = tt;
  peers_valid = tt;
}
