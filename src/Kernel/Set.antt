-- ===== src/Kernel/Set.antt =====
-- `kernel_set_device` of ipc-linux.h: the device as a sequence of messages that fit the buffer.
pub mod Peers
pub mod Messages
pub mod Send
use router1_app.Prelude.{
  ℕ, zero, suc, Bool, true, false, Option, none, some, List, [], ◌∷◌, ◌++◌, if◌then◌else◌, Outcome,
  ◌>>=◌, ok, hang,
}
use router1_app.Containers.{AllowedIp, Peer, Device}
use router1_app.Kernel.{Attr, Part, Message, Netlink, Nest, put, nest_start, nest_start_check}
use router1_app.Kernel.Device.{put_device}
use router1_app.Kernel.Peer.{put_peer_head, put_allowedip}

-- The loop over the addresses: those put, those left where one does not fit, and the length.
pub record Filled : Type 0 where
  pub put_ips : List (List Attr)
  pub left : List AllowedIp
  pub len : ℕ

unfoldable pub fill_ips : Netlink → ℕ → List AllowedIp → Filled
unfolding put_allowedip
fill_ips n len [] = record { put_ips = []; left = []; len = len }
fill_ips n len (a ∷ ips) = elim (put_allowedip n len a) [
  | none ↦ record { put_ips = []; left = a ∷ ips; len = len }
  | some m ↦
      let r = fill_ips n m.len ips in
      record { put_ips = m.attrs ∷ r.put_ips; left = r.left; len = r.len }
]

-- The body of the loop over the peers: `toobig_peers`; `toobig_allowedips`, with the addresses that
-- are left; or the next peer, with the position in the addresses and the length.
pub data PeerResult : Type 0 where
  too_big : PeerResult
  too_big_ips : Part → List AllowedIp → PeerResult
  next : Part → Option (List AllowedIp) → ℕ → PeerResult

abbrev pub is_resumed : Option (List AllowedIp) → Bool
is_resumed none = false
is_resumed (some ips) = true

abbrev pub ips_from : Option (List AllowedIp) → Peer → List AllowedIp
ips_from none p = p.allowedips
ips_from (some ips) p = ips

-- The addresses after the head, which leaves `m`.
unfoldable pub put_ips :
    Netlink → Nest → Option (List AllowedIp) → List AllowedIp → List AllowedIp → PeerResult
unfolding nest_start_check fill_ips
put_ips n m position ips [] = next (record { attrs = m.attrs; allowedips = [] }) position m.len
put_ips n m position ips (a ∷ own) = elim (nest_start_check n m.len) [
  | none ↦ too_big_ips (record { attrs = m.attrs; allowedips = [] }) ips
  | some k ↦
      let r = fill_ips n k.len ips in
      let part : Part = record { attrs = m.attrs; allowedips = r.put_ips } in
      elim r.left [ [] ↦ next part none r.len | b ∷ left ↦ too_big_ips part (b ∷ left) ]
]

unfoldable pub put_peer : Netlink → ℕ → Option (List AllowedIp) → Peer → PeerResult
unfolding nest_start_check put_peer_head put_ips
put_peer n len position p = elim (nest_start_check n len) [
  | none ↦ too_big
  | some m0 ↦ elim (put_peer_head n (is_resumed position) p m0) [
    | none ↦ too_big
    | some m ↦ put_ips n m position (ips_from position p) p.allowedips
  ]
]

-- The loop over the peers: what it puts, and where the next message resumes.
pub record Packed : Type 0 where
  pub parts : List Part
  pub rest : List Peer
  pub position : Option (List AllowedIp)

unfoldable pub fill_peers : Netlink → ℕ → Option (List AllowedIp) → List Peer → Packed
unfolding put_peer
fill_peers n len position [] = record { parts = []; rest = []; position = position }
fill_peers n len position (p ∷ peers) = elim (put_peer n len position p) [
  | too_big ↦ record { parts = []; rest = p ∷ peers; position = position }
  | too_big_ips part left ↦ record { parts = part ∷ []; rest = p ∷ peers; position = some left }
  | next part position' len' ↦
      let r = fill_peers n len' position' peers in
      record { parts = part ∷ r.parts; rest = r.rest; position = r.position }
]

-- The attributes up to the peers, from the label `again` on; `first` is true where no peer is begun.
unfoldable pub start_message : Netlink → Device → Bool → Outcome Nest
unfolding put put_device
start_message n d first = do
  m ← put n (record { attrs = []; len = n.header_len }) (Attr.ifname d.name)
  if first then put_device n d m else ok m

-- One message from there on, over the peers that are left.
unfoldable pub fill_message : Netlink → Nest → Option (List AllowedIp) → List Peer → Outcome Packed
unfolding nest_start fill_peers
fill_message n m position [] = ok (record { parts = []; rest = []; position = position })
fill_message n m position (p ∷ peers) = do
  k ← nest_start n m.len
  ok (fill_peers n k.len position (p ∷ peers))

-- The messages sent, and the error that the call returns, if any.
pub record Sent : Type 0 where
  pub messages : List Message
  pub error : Option ℕ

-- The loop from `again` to `goto again`, over so many messages at most.
unfoldable pub send_messages :
    ℕ → Netlink → Device → Bool → Option (List AllowedIp) → List Peer → List Message → Outcome Sent
unfolding start_message fill_message
send_messages zero n d first position peers sent = hang
send_messages (suc fuel) n d first position peers sent = do
  m ← start_message n d first
  packed ← fill_message n m position peers
  let message : Message = record { device = m.attrs; parts = packed.parts }
  let sent' : List Message = sent ++ (message ∷ [])
  elim (n.error sent message) [
    | some e ↦ ok (record { messages = sent'; error = some e })
    | none ↦ elim packed.rest [
      | [] ↦ ok (record { messages = sent'; error = none })
      | q ∷ rest ↦ send_messages fuel n d false packed.position (q ∷ rest) sent'
    ]
  ]

unfoldable pub kernel_set_device : ℕ → Netlink → Device → Outcome Sent
unfolding send_messages
kernel_set_device fuel n d = elim n.open_error [
  | some e ↦ ok (record { messages = []; error = some e })
  | none ↦ send_messages fuel n d true none d.peers []
]
