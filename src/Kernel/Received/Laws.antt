-- ===== src/Kernel/Received/Laws.antt =====
-- What the callbacks keep of a peer, wherever the reading stops.
use router1_app.Prelude.{
  ◌≡◌, refl, Bool, true, false, List, [], ◌∷◌, arith, length, ◌==◌, if◌then◌else◌,
}
use router1_app.Containers.{Peer}
use router1_app.Encoding.Zero.{key_is_zero}
use router1_app.Containers.Flags.{has}
use router1_app.Containers.PeerFlag
use router1_app.Kernel.Received.{
  public_key, preshared_key, endpoint, persistent_keepalive_interval, last_handshake_time, rx_bytes,
  tx_bytes, flags, awg, allowedips, other_peer_attr, is_sockaddr, IpAttr, PeerAttr, Payload, Answer,
  cb_ok, cb_error, each, parse_allowedips, parse_peer, is_sockaddr, public_key, preshared_key,
  endpoint, persistent_keepalive_interval, last_handshake_time, rx_bytes, tx_bytes, flags, awg,
  allowedips, other_peer_attr,
}

-- A property of the state that a callback keeps where it answers MNL_CB_OK.
abbrev pub WhenOk {ℓ} : {S : Type ℓ} → (S → Type 0) → S × Answer → Type 0
WhenOk P (s, cb_ok) = P s
WhenOk P (s, cb_error) = Unit

pub each-WhenOk :
    {A S : Type 0} (P : S → Type 0) (callback : A → S → S × Answer)
    → ((a : A) (s : S) → P s → WhenOk P (callback a s))
    → (attrs : List A) (s : S) → P s
    → WhenOk P (each callback attrs s)
each-WhenOk P callback keeps [] s h = h
each-WhenOk {S = S} P callback keeps (a ∷ attrs) s h =
    onward (callback a s) (keeps a s h) (each-WhenOk P callback keeps attrs)
  where
    onward :
        (r : S × Answer)
        → WhenOk P r
        → ((s : S) → P s → WhenOk P (each callback attrs s))
        → WhenOk P (elim r.1 [ cb_ok ↦ each callback attrs r.0 | cb_error ↦ (r.0, cb_error) ])
    onward (s, cb_ok) h others = others s h
    onward (s, cb_error) h others = tt

-- The key of a peer has 32 bytes, whatever else is read and wherever the reading stops.
abbrev pub Sized : Peer → Type 0
Sized p = length p.public_key ≡ 32

pub each-first :
    {A S : Type 0} (P : S → Type 0) (callback : A → S → S × Answer)
    → ((a : A) (s : S) → P s → P (callback a s).0)
    → (attrs : List A) (s : S) → P s
    → P (each callback attrs s).0
each-first P callback keeps [] s h = h
each-first {S = S} P callback keeps (a ∷ attrs) s h =
    onward (callback a s) (keeps a s h) (each-first P callback keeps attrs)
  where
    onward :
        (r : S × Answer)
        → P r.0
        → ((s : S) → P s → P (each callback attrs s).0)
        → (let t : S × Answer = elim r.1 [
          | cb_ok ↦ each callback attrs r.0
          | cb_error ↦ (r.0, cb_error)
        ] in
            P t.0)
    onward (s, cb_ok) h others = others s h
    onward (s, cb_error) h others = h

parse_allowedips-Sized :
    (l : Payload) (attrs : List IpAttr) (p : Peer) → Sized p → Sized (parse_allowedips l attrs p).0
unfolding parse_allowedips
parse_allowedips-Sized l attrs p h = h

if_both :
    (P : Peer → Type 0) (b : Bool) (p q : Peer) → (b ≡ true → P p) → P q → P (if b then p else q)
if_both P true p q h k = h refl
if_both P false p q h k = k

pub parse_peer-Sized :
    (l : Payload) (a : PeerAttr) (p : Peer) → Sized p → Sized (parse_peer l a p).0
unfolding parse_peer
parse_peer-Sized l (public_key b) p h = if_both Sized (length b == 32) _ _ (λ e. ground arith) h
parse_peer-Sized l (preshared_key b) p h =
    if_both Sized (length b == 32) _ _ (λ e. if_both Sized (key_is_zero b) _ _ (λ z. h) h) h
parse_peer-Sized l (endpoint b) p h = if_both Sized (is_sockaddr l b) _ _ (λ e. h) h
parse_peer-Sized l (persistent_keepalive_interval b) p h = if_both Sized (l.is_u16 b) _ _ (λ e. h) h
parse_peer-Sized l (last_handshake_time b) p h =
    if_both Sized (length b == l.sizeof_timespec) _ _ (λ e. h) h
parse_peer-Sized l (rx_bytes b) p h = if_both Sized (l.is_u64 b) _ _ (λ e. h) h
parse_peer-Sized l (tx_bytes b) p h = if_both Sized (l.is_u64 b) _ _ (λ e. h) h
parse_peer-Sized l (flags b) p h = if_both Sized _ _ _ (λ e. h) h
parse_peer-Sized l (awg b) p h =
    if_both Sized (l.is_flag b) _ _
      (λ e. if_both Sized (has p.flags PeerFlag.has_awg) _ _ (λ z. h) h) h
parse_peer-Sized l (allowedips nests) p h =
    each-first Sized (parse_allowedips l) (parse_allowedips-Sized l) nests p h
parse_peer-Sized l other_peer_attr p h = h
