-- ===== src/Uapi/Set/Laws.antt =====
-- What `userspace_set_device` does with a peer that has WGPEER_HAS_AWG.
use mathlib.Core.List.{append_assoc}
use router1_app.Encoding.Hex.{key_to_hex}
use router1_app.Prelude.{
  ap, sym, ◌∙◌, codes, Bytes, ◌≡◌, refl, Bool, true, false, not, ◌||◌, none, List, [], ◌∷◌, ◌++◌,
  arith,
}
use router1_app.Containers.{Peer, Device}
use router1_app.Containers.Flags.{has}
use router1_app.Containers.PeerFlag
use router1_app.Uapi.Wire.{negate, einval, newline, Daemon}
use router1_app.Uapi.Set.{device_request, peer_request, peers_request, userspace_set_device}

-- Some peer has the flag.
abbrev pub any_awg : List Peer → Bool
any_awg [] = false
any_awg (p ∷ peers) = has p.flags PeerFlag.has_awg || any_awg peers

peer_request-goes_on :
    (n : Daemon) (p : Peer) → (peer_request n p).1 ≡ not (has p.flags PeerFlag.has_awg)
unfolding peer_request
peer_request-goes_on n p = ground arith

peer_request-stops :
    (n : Daemon) (p : Peer)
    → has p.flags PeerFlag.has_awg ≡ true
    → peer_request n p ≡ (codes "public_key=" ++ (key_to_hex p.public_key ++ newline), false)
unfolding peer_request
peer_request-stops n p h = rw h refl

pair-eq : (x : Bytes × Bool) (b : Bool) → x.1 ≡ b → x ≡ (x.0, b)
pair-eq x b h = ap (λ (c : Bool). (x.0, c)) h

peers_request-stops :
    (n : Daemon) (before after : List Peer) (p : Peer)
    → any_awg before ≡ false
    → has p.flags PeerFlag.has_awg ≡ true
    → peers_request n (before ++ p ∷ after) ≡ (
      (peers_request n before).0 ++ (codes "public_key=" ++ (key_to_hex p.public_key ++ newline)),
      false,
    )
unfolding peers_request
peers_request-stops n [] after p none_before h = rw (peer_request-stops n p h) refl
peers_request-stops n (q ∷ before) after p none_before h =
    let goes_on : (peer_request n q).1 ≡ true =
      peer_request-goes_on n q ∙ ground (arith, none_before) in
    let rest = peers_request-stops n before after p (ground (arith, none_before)) h in
    let line = codes "public_key=" ++ (key_to_hex p.public_key ++ newline) in
    rw (pair-eq (peer_request n q) true goes_on, rest)
      (ap (λ (t : Bytes). (t, false))
        (sym (append_assoc (peer_request n q).0 (peers_request n before).0 line)))

-- Where the socket opens, a device whose first peer with WGPEER_HAS_AWG is p is refused with EINVAL.
-- What is written ends behind the line with the public key of p: the settings of the device and the
-- peers in front of p stand before it, and nothing behind it, no empty line that ends a request.
pub userspace_set_device-awg :
    (n : Daemon) (d : Device) (before after : List Peer) (p : Peer)
    → n.open_errno d.name ≡ none
    → d.peers ≡ before ++ p ∷ after
    → any_awg before ≡ false
    → has p.flags PeerFlag.has_awg ≡ true
    → userspace_set_device n d ≡ record {
      ret = negate einval;
      written =
          device_request d
          ++ ((peers_request n before).0
              ++ (codes "public_key=" ++ (key_to_hex p.public_key ++ codes "\n")));
    }
unfolding userspace_set_device
userspace_set_device-awg n d before after p opens peers none_before h =
    rw (opens, userspace_set_device, peers, peers_request-stops n before after p none_before h) refl
