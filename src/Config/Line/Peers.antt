-- ===== src/Config/Line/Peers.antt =====
-- What a line leaves of the peers, and of the state that `process_line` works on.
use router1_app.Prelude.{
  All-append, ℕ, ◌^◌, ◌≡◌, true, List, [], ◌∷◌, ◌++◌, Bytes, Outcome, ◌>>=◌, Ensures, Ensures-bind,
  ok, All, refl, false, codes, Ensures-if,
}
use router1_app.Encoding.Flags.{IsKey}
use router1_app.Containers.{Peer, Device}
use router1_app.Libc.{strcasecmp_eq}
use router1_app.Containers.Valid.{IsPeer, IsDevice, zero_peer-IsPeer}
use router1_app.Config.Host.{Host, IsHost}
use router1_app.Config.Values.{parse_persistent_keepalive, parse_key, parse_bool}
use router1_app.Config.Values.Laws.{
  Below, parse_persistent_keepalive-Ensures, parse_bool-Ensures, parse_key-IsKey,
}
use router1_app.Config.Endpoint.{parse_endpoint}
use router1_app.Config.Endpoint.Laws.{parse_endpoint-Ensures}
use router1_app.Config.Address.Laws.{parse_allowedips-Ensures}
use router1_app.Config.Line.{
  device_branches, device_line, Ctx, peer_branches, peer_line, device_line, at_last, key_or_fail,
  process_line, new_peer, device_branches,
}
use router1_app.Config.Line.Laws.{
  EnsureAll, first_key-Ensures, key_or_fail-Ensures, device_branches-Ensures,
}

module _ (h : Host) (w : IsHost h) (fuel : ℕ) (p : Peer) (good : IsPeer p) where
  peer_branches-Ensures : EnsureAll IsPeer (peer_branches h fuel p)
  unfolding peer_branches
  peer_branches-Ensures = (
    λ v.
        Ensures-bind (λ e. Unit) IsPeer (parse_endpoint h fuel v) _
          (parse_endpoint-Ensures h fuel v) (λ e u. assumption),
    (
      λ v.
          Ensures-bind IsKey IsPeer (key_or_fail (parse_key p.public_key v)) _
            (key_or_fail-Ensures _ (parse_key-IsKey p.public_key v good.public_key_size))
            (λ k r. assumption),
      (
        λ v. parse_allowedips-Ensures h v p w good,
        (
          λ v.
              Ensures-bind (Below (2 ^ 16)) IsPeer (parse_persistent_keepalive p.flags v) _
                (parse_persistent_keepalive-Ensures p.flags v) (λ n r. assumption),
          (
            λ v.
                Ensures-bind IsKey IsPeer (key_or_fail (parse_key p.preshared_key v)) _
                  (key_or_fail-Ensures _
                    (parse_key-IsKey p.preshared_key v good.preshared_key_size))
                  (λ k r. assumption),
            (
              λ v.
                  Ensures-bind (λ b. Unit) IsPeer (parse_bool v) _ (parse_bool-Ensures v)
                    (λ b u. assumption),
              tt,
            ),
          ),
        ),
      ),
    ),
  )

  peer_line-Ensures : (line : Bytes) → Ensures IsPeer (peer_line h fuel line p)
  unfolding peer_line
  peer_line-Ensures line =
      first_key-Ensures IsPeer line (peer_branches h fuel p) peer_branches-Ensures

-- A change of the last peer keeps the others, and faults only where there is none.
abbrev pub HasPeers : List Peer → Type 0
HasPeers [] = ⊥
HasPeers (p ∷ peers) = Unit

-- All peers satisfy P, and there is one.
abbrev pub SomeAll : (Peer → Type 0) → List Peer → Type 0
SomeAll P peers = All P peers × HasPeers peers

pub at_last-Ensures :
    (P : Peer → Type 0) (peers : List Peer) (f : Peer → Outcome Peer)
    → HasPeers peers
    → All P peers
    → ((p : Peer) → P p → Ensures P (f p))
    → Ensures (SomeAll P) (at_last peers f)
at_last-Ensures P [] f some_peer hs k = absurd some_peer
at_last-Ensures P (p ∷ []) f some_peer (h, hs) k =
    Ensures-bind P (SomeAll P) (f p) _ (k p h) (λ q r. ((r, tt), tt))
at_last-Ensures P (p ∷ q ∷ peers) f some_peer (h, hs) k =
    Ensures-bind (SomeAll P) (SomeAll P) (at_last (q ∷ peers) f) _
      (at_last-Ensures P (q ∷ peers) f tt hs k) (λ rest r. ((h, r.0), tt))

HasPeers-snoc : (peers : List Peer) (p : Peer) → HasPeers (peers ++ (p ∷ []))
HasPeers-snoc [] p = tt
HasPeers-snoc (q ∷ peers) p = tt

-- The device is well-formed, the sections exclude each other, and in the section of a peer there is
-- a peer.
pub record IsCtx (ctx : Ctx) : Type 0 where
  pub device_valid : IsDevice ctx.device
  pub one_section : ctx.is_device_section ≡ true → ctx.is_peer_section ≡ false
  pub has_last_peer : ctx.is_peer_section ≡ true → HasPeers ctx.device.peers

new_peer-IsPeer : IsPeer new_peer
new_peer-IsPeer =
    let zero = zero_peer-IsPeer in
    record {
      public_key_size = zero.public_key_size;
      preshared_key_size = zero.preshared_key_size;
      interval_range = zero.interval_range;
      allowedips_valid = tt;
    }

device_line-Ensures :
    (h : Host) (w : IsHost h) (line : Bytes) (d : Device)
    → IsDevice d
    → Ensures IsDevice (device_line h line d)
unfolding device_line
device_line-Ensures h w line d good =
    first_key-Ensures IsDevice line (device_branches h d) (device_branches-Ensures h w d good)

module _ (h : Host) (w : IsHost h) (fuel : ℕ) (line : Bytes) (ctx : Ctx) (good : IsCtx ctx) where
  peers_part :
      ctx.is_peer_section ≡ true
      → Ensures IsCtx (
          at_last ctx.device.peers (peer_line h fuel line) >>= λ peers.
          ok (record ctx { device = record (ctx.device) { peers = peers } }))
  peers_part here =
      Ensures-bind (SomeAll IsPeer) IsCtx (at_last ctx.device.peers (peer_line h fuel line)) _
        (at_last-Ensures IsPeer ctx.device.peers (peer_line h fuel line) (good.has_last_peer here)
          good.device_valid.peers_valid (λ p g. peer_line-Ensures h w fuel p g line))
        (λ peers r.
          let (valid, some_peer) = r in
          let d = good.device_valid in
          record {
            device_valid = assumption;
            one_section = good.one_section;
            has_last_peer = λ e. some_peer;
          })

  device_part :
      ctx.is_device_section ≡ true
      → Ensures IsCtx (device_line h line ctx.device >>= λ d. ok (record ctx { device = d }))
  device_part here =
      Ensures-bind IsDevice IsCtx (device_line h line ctx.device) _
        (device_line-Ensures h w line ctx.device good.device_valid)
        (λ d g.
          let outside = good.one_section here in
          record { device_valid = g; one_section = good.one_section; has_last_peer = λ e. cc })

  peer_added : IsCtx (record {
    device = record (ctx.device) { peers = ctx.device.peers ++ (new_peer ∷ []) };
    is_peer_section = true;
    is_device_section = false;
  })
  peer_added =
      let more =
        All-append IsPeer ctx.device.peers (new_peer ∷ []) good.device_valid.peers_valid
          (new_peer-IsPeer, tt) in
      let d = good.device_valid in
      record {
        device_valid = assumption;
        one_section = λ e. cc;
        has_last_peer = λ e. HasPeers-snoc ctx.device.peers new_peer;
      }

  -- From a well-formed state, a line leaves a well-formed state if it is accepted, and it reads through
  -- no null pointer. The host is as its manuals say.
  pub process_line-Ensures : Ensures IsCtx (process_line h fuel ctx line)
  unfolding process_line
  process_line-Ensures =
      Ensures-if IsCtx (strcasecmp_eq line (codes "[Interface]")) _ _
        (λ e. record {
          device_valid = good.device_valid;
          one_section = λ f. refl;
          has_last_peer = λ f. cc;
        })
        (λ n.
          Ensures-if IsCtx (strcasecmp_eq line (codes "[Peer]")) _ _ (λ e. peer_added)
            (λ n'.
              Ensures-if IsCtx ctx.is_device_section _ _ device_part
                (λ n''. Ensures-if IsCtx ctx.is_peer_section _ _ peers_part (λ e. tt))))
