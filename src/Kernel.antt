-- ===== src/Kernel.antt =====
-- android/tunnel/tools/amneziawg-tools/src/ipc-linux.h: the messages to and from the kernel. The
-- netlink library is a parameter: the sizes that it counts, and what the kernel answers. A message is
-- the list of the attributes that were put into it, with its length as the library counts it.
pub mod Device
pub mod Peer
pub mod Set
pub mod Coalesce
pub mod Received
pub mod Get
use router1_app.Prelude.{
  ℕ, suc, ◌+◌, ◌≤◌, Bool, Option, none, some, List, [], ◌∷◌, ◌++◌, leb, if◌then◌else◌, Bytes,
  Outcome, ok, fault, length,
}
use router1_app.Containers.{Family, AllowedIp, SockAddr, af_inet, af_inet6}

-- The attributes of the program, each with its payload.
pub data Attr : Type 0 where
  ifname : Bytes → Attr
  private_key : Bytes → Attr
  listen_port : ℕ → Attr
  jc : ℕ → Attr
  jmin : ℕ → Attr
  jmax : ℕ → Attr
  s1 : ℕ → Attr
  s2 : ℕ → Attr
  s3 : ℕ → Attr
  s4 : ℕ → Attr
  h1_text : Bytes → Attr
  h1 : ℕ → Attr
  h2_text : Bytes → Attr
  h2 : ℕ → Attr
  h3_text : Bytes → Attr
  h3 : ℕ → Attr
  h4_text : Bytes → Attr
  h4 : ℕ → Attr
  i1 : Bytes → Attr
  i2 : Bytes → Attr
  i3 : Bytes → Attr
  i4 : Bytes → Attr
  i5 : Bytes → Attr
  fwmark : ℕ → Attr
  device_flags : ℕ → Attr
  public_key : Bytes → Attr
  preshared_key : Bytes → Attr
  endpoint : SockAddr → Attr
  persistent_keepalive_interval : ℕ → Attr
  awg : Attr
  peer_flags : ℕ → Attr
  family : Family → Attr
  ipaddr : AllowedIp → Attr
  cidr_mask : ℕ → Attr

-- sizeof(struct sockaddr_in) and sizeof(struct sockaddr_in6), and those of their addresses.
abbrev pub sockaddr_len : Family → ℕ
sockaddr_len af_inet = 16
sockaddr_len f = 28

abbrev pub addr_len : Family → ℕ
addr_len af_inet = 4
addr_len f = 16

-- The length of the payload; a text is put with its NUL.
abbrev pub payload_len : Attr → ℕ
payload_len (ifname text) = length text + 1
payload_len (private_key key) = 32
payload_len (listen_port n) = 2
payload_len (jc n) = 2
payload_len (jmin n) = 2
payload_len (jmax n) = 2
payload_len (s1 n) = 2
payload_len (s2 n) = 2
payload_len (s3 n) = 2
payload_len (s4 n) = 2
payload_len (h1_text text) = length text + 1
payload_len (h1 n) = 4
payload_len (h2_text text) = length text + 1
payload_len (h2 n) = 4
payload_len (h3_text text) = length text + 1
payload_len (h3 n) = 4
payload_len (h4_text text) = length text + 1
payload_len (h4 n) = 4
payload_len (i1 text) = length text + 1
payload_len (i2 text) = length text + 1
payload_len (i3 text) = length text + 1
payload_len (i4 text) = length text + 1
payload_len (i5 text) = length text + 1
payload_len (fwmark n) = 4
payload_len (device_flags n) = 4
payload_len (public_key key) = 32
payload_len (preshared_key key) = 32
payload_len (endpoint addr) = sockaddr_len addr.sa_family
payload_len (persistent_keepalive_interval n) = 2
payload_len awg = 0
payload_len (peer_flags n) = 4
payload_len (family f) = 2
payload_len (ipaddr a) = addr_len a.family
payload_len (cidr_mask n) = 1

-- One peer of a message: its own attributes, and those of its allowed addresses.
pub record Part : Type 0 where
  pub attrs : List Attr
  pub allowedips : List (List Attr)

-- One message: the attributes of the device, and its peers.
pub record Message : Type 0 where
  pub device : List Attr
  pub parts : List Part

-- The library and the kernel: the version of the protocol; SOCKET_BUFFER_SIZE; the length of a
-- message as mnlg_msg_prepare leaves it; the length of an attribute with so long a payload, its header
-- and padding included; the error of mnlg_socket_open, if any; and the error in the answer to a
-- message, if any, after the messages sent before it.
pub record Netlink : Type 0 where
  pub version : ℕ
  pub capacity : ℕ
  pub header_len : ℕ
  pub attr_len : ℕ → ℕ
  pub open_error : Option ℕ
  pub error : List Message → Message → Option ℕ

-- The attributes put so far at one level, and the length of the whole message.
pub record Nest : Type 0 where
  pub attrs : List Attr
  pub len : ℕ

-- mnl_attr_put, which tests nothing: a write behind the buffer is a fault.
unfoldable pub put : Netlink → Nest → Attr → Outcome Nest
put n m a =
    let len = m.len + n.attr_len (payload_len a) in
    if leb len n.capacity then ok (record { attrs = m.attrs ++ (a ∷ []); len = len }) else fault

-- mnl_attr_put_check, where the answer `false` is `none`.
unfoldable pub put_check : Netlink → Nest → Attr → Option Nest
put_check n m a =
    let len = m.len + n.attr_len (payload_len a) in
    if leb len n.capacity then some (record { attrs = m.attrs ++ (a ∷ []); len = len }) else none

-- mnl_attr_nest_start and mnl_attr_nest_start_check on a message of so many bytes.
unfoldable pub nest_start : Netlink → ℕ → Outcome Nest
nest_start n len =
    let len' = len + n.attr_len 0 in
    if leb len' n.capacity then ok (record { attrs = []; len = len' }) else fault

unfoldable pub nest_start_check : Netlink → ℕ → Option Nest
nest_start_check n len =
    let len' = len + n.attr_len 0 in
    if leb len' n.capacity then some (record { attrs = []; len = len' }) else none
