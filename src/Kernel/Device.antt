-- ===== src/Kernel/Device.antt =====
-- The attributes of a device in the first message of `kernel_set_device`, ipc-linux.h.
use router1_app.Prelude.{
  ℕ, ◌%◌, ◌^◌, Bool, true, false, Option, none, some, leb, if◌then◌else◌, Bytes, Outcome, ◌>>=◌, ok,
  fault,
}
use router1_app.Libc.{strtoul}
use router1_app.Containers.{Device}
use router1_app.Containers.Flags.{has}
use router1_app.Containers.DeviceFlag
use router1_app.Kernel.{Attr, Netlink, Nest, put}

-- A conditional put.
abbrev pub put_if : Netlink → Bool → Attr → Nest → Outcome Nest
put_if n true a m = put n m a
put_if n false a m = ok m

-- A text behind a pointer: `mnl_attr_put_strz` reads through it.
abbrev pub put_strz_if : Netlink → Bool → (Bytes → Attr) → Option Bytes → Nest → Outcome Nest
put_strz_if n b attr none m = if b then fault else ok m
put_strz_if n b attr (some text) m = put_if n b (attr text) m

-- put_magic_header_attr under its flag; strtoul reads through the pointer too.
unfoldable pub put_magic_header_attr :
    Netlink → Bool → (Bytes → Attr) → (ℕ → Attr) → Option Bytes → Nest → Outcome Nest
unfolding strtoul
put_magic_header_attr n b text_attr number_attr none m = if b then fault else ok m
put_magic_header_attr n b text_attr number_attr (some text) m =
    let (value, end) = strtoul text 10 in
    if leb 2 n.version
    then put_if n b (text_attr text) m
    else put_if n b (number_attr (value % 2 ^ 32)) m

-- The block under `if (!peer)`.
unfoldable pub put_device : Netlink → Device → Nest → Outcome Nest
unfolding put_magic_header_attr
put_device n d m0 =
    let flag = λ (mask : ℕ). has d.flags mask in
    let replace = flag DeviceFlag.replace_peers in
    do
      m1 ← put_if n (flag DeviceFlag.has_private_key) (Attr.private_key d.private_key) m0
      m2 ← put_if n (flag DeviceFlag.has_listen_port) (Attr.listen_port d.listen_port) m1
      m3 ← put_if n (flag DeviceFlag.has_jc) (Attr.jc d.junk_packet_count) m2
      m4 ← put_if n (flag DeviceFlag.has_jmin) (Attr.jmin d.junk_packet_min_size) m3
      m5 ← put_if n (flag DeviceFlag.has_jmax) (Attr.jmax d.junk_packet_max_size) m4
      m6 ← put_if n (flag DeviceFlag.has_s1) (Attr.s1 d.init_packet_junk_size) m5
      m7 ← put_if n (flag DeviceFlag.has_s2) (Attr.s2 d.response_packet_junk_size) m6
      m8 ← put_if n (flag DeviceFlag.has_s3) (Attr.s3 d.cookie_reply_packet_junk_size) m7
      m9 ← put_if n (flag DeviceFlag.has_s4) (Attr.s4 d.transport_packet_junk_size) m8
      m10 ←
          put_magic_header_attr n (flag DeviceFlag.has_h1) Attr.h1_text Attr.h1
            d.init_packet_magic_header m9
      m11 ←
          put_magic_header_attr n (flag DeviceFlag.has_h2) Attr.h2_text Attr.h2
            d.response_packet_magic_header m10
      m12 ←
          put_magic_header_attr n (flag DeviceFlag.has_h3) Attr.h3_text Attr.h3
            d.underload_packet_magic_header m11
      m13 ←
          put_magic_header_attr n (flag DeviceFlag.has_h4) Attr.h4_text Attr.h4
            d.transport_packet_magic_header m12
      m14 ← put_strz_if n (flag DeviceFlag.has_i1) Attr.i1 d.i1 m13
      m15 ← put_strz_if n (flag DeviceFlag.has_i2) Attr.i2 d.i2 m14
      m16 ← put_strz_if n (flag DeviceFlag.has_i3) Attr.i3 d.i3 m15
      m17 ← put_strz_if n (flag DeviceFlag.has_i4) Attr.i4 d.i4 m16
      m18 ← put_strz_if n (flag DeviceFlag.has_i5) Attr.i5 d.i5 m17
      m19 ← put_if n (flag DeviceFlag.has_fwmark) (Attr.fwmark d.fwmark) m18
      put_if n replace (Attr.device_flags 1) m19
