-- ===== src/Config/Cmd/Laws.antt =====
-- Every list of arguments that `config_read_cmd` accepts gives a well-formed device, and `peer` is
-- never null where it is used.
use router1_app.Prelude.{
  ℕ, ◌^◌, ◌≡◌, inl, inr, true, false, List, [], ◌∷◌, arith, Bool-cases, Bytes, codes, Outcome,
  ◌>>=◌, Ensures, Ensures-bind, Ensures-if, ok, All, All-append,
}
use router1_app.Encoding.Flags.{IsKey}
use router1_app.Libc.{strcmp_eq}
use router1_app.Containers.{Device, Peer, zero_key, zero_peer, zero_device}
use router1_app.Containers.Valid.{
  IsDevice, IsPeer, zero_key-IsKey, zero_peer-IsPeer, zero_device-IsDevice,
}
use router1_app.Containers.PeerFlag
use router1_app.Config.Host.{Host, IsHost}
use router1_app.Config.Values.{
  parse_port, parse_fwmark, parse_key, parse_keyfile, parse_persistent_keepalive, parse_bool,
}
use router1_app.Config.Values.Laws.{
  Below, parse_port-Ensures, parse_fwmark-Ensures, parse_key-IsKey, parse_keyfile-IsKey,
  parse_persistent_keepalive-Ensures, parse_bool-Ensures,
}
use router1_app.Config.Endpoint.{parse_endpoint}
use router1_app.Config.Endpoint.Laws.{parse_endpoint-Ensures}
use router1_app.Config.Address.Laws.{parse_allowedips-Ensures}
use router1_app.Config.Read.{strip_spaces}
use router1_app.Config.Line.{at_last, key_or_fail, add_peer_flag, Branches}
use router1_app.Config.Line.Laws.{EnsureAll, key_or_fail-Ensures, with_uint16, with_awg_string}
use router1_app.Config.Line.Peers.{HasPeers, SomeAll, at_last-Ensures}
use router1_app.Config.Cmd.{
  first_arg, device_args, peer_args, cmd_new_peer, pair_arg, remove_arg, is_remove, no_peer,
  read_args, config_read_cmd,
}

first_arg-Ensures :
    {A : Type 0} (P : A → Type 0) (arg v : Bytes) (branches : Branches A)
    → EnsureAll P branches
    → Ensures P (first_arg arg v branches)
unfolding first_arg
first_arg-Ensures P arg v [] h = tt
first_arg-Ensures P arg v ((name, branch) ∷ more) (h, hs) = elim (Bool-cases (strcmp_eq arg name)) [
  | inl same ↦ rw (same, first_arg) (h v)
  | inr differs ↦ rw (differs, first_arg) (first_arg-Ensures P arg v more hs)
]

module _ (h : Host) (w : IsHost h) (d : Device) (good : IsDevice d) where
  device_args-Ensures : EnsureAll IsDevice (device_args h d)
  unfolding device_args
  device_args-Ensures = (
    λ v.
        Ensures-bind (Below (2 ^ 16)) IsDevice (parse_port h d.flags v) _
          (parse_port-Ensures h d.flags v w) (λ p r. assumption),
    (
      λ v.
          Ensures-bind (Below (2 ^ 32)) IsDevice (parse_fwmark d.flags v) _
            (parse_fwmark-Ensures d.flags v) (λ p r. assumption),
      (
        λ v.
            Ensures-bind IsKey IsDevice (key_or_fail (parse_keyfile h d.private_key v)) _
              (key_or_fail-Ensures _ (parse_keyfile-IsKey h d.private_key v good.private_key_size))
              (λ k r. assumption),
        (
          λ v. with_uint16 v _ (λ n r. assumption),
          (
            λ v. with_uint16 v _ (λ n r. assumption),
            (
              λ v. with_uint16 v _ (λ n r. assumption),
              (
                λ v. with_uint16 v _ (λ n r. assumption),
                (
                  λ v. with_uint16 v _ (λ n r. assumption),
                  (
                    λ v. with_uint16 v _ (λ n r. assumption),
                    (
                      λ v. with_uint16 v _ (λ n r. assumption),
                      (
                        λ v. with_awg_string v _ (λ t r. assumption),
                        (
                          λ v. with_awg_string v _ (λ t r. assumption),
                          (
                            λ v. with_awg_string v _ (λ t r. assumption),
                            (
                              λ v. with_awg_string v _ (λ t r. assumption),
                              (
                                λ v. with_awg_string v _ (λ t r. assumption),
                                (
                                  λ v. with_awg_string v _ (λ t r. assumption),
                                  (
                                    λ v. with_awg_string v _ (λ t r. assumption),
                                    (
                                      λ v. with_awg_string v _ (λ t r. assumption),
                                      (λ v. with_awg_string v _ (λ t r. assumption), tt),
                                    ),
                                  ),
                                ),
                              ),
                            ),
                          ),
                        ),
                      ),
                    ),
                  ),
                ),
              ),
            ),
          ),
        ),
      ),
    ),
  )

module _ (h : Host) (w : IsHost h) (fuel : ℕ) (p : Peer) (good : IsPeer p) where
  peer_args-Ensures : EnsureAll IsPeer (peer_args h fuel p)
  unfolding peer_args
  peer_args-Ensures = (
    λ v.
        Ensures-bind (λ e. Unit) IsPeer (parse_endpoint h fuel v) _
          (parse_endpoint-Ensures h fuel v) (λ e u. assumption),
    (
      λ v. parse_allowedips-Ensures h (strip_spaces v) p w good,
      (
        λ v.
            Ensures-bind (Below (2 ^ 16)) IsPeer (parse_persistent_keepalive p.flags v) _
              (parse_persistent_keepalive-Ensures p.flags v) (λ n r. assumption),
        (
          λ v.
              Ensures-bind IsKey IsPeer (key_or_fail (parse_keyfile h p.preshared_key v)) _
                (key_or_fail-Ensures _
                  (parse_keyfile-IsKey h p.preshared_key v good.preshared_key_size))
                (λ k r. assumption),
          (
            λ v.
                Ensures-bind (λ b. Unit) IsPeer (parse_bool v) _ (parse_bool-Ensures v)
                  (λ b u. assumption),
            tt,
          ),
        ),
      ),
    ),
  )

  first_arg-peer_args-Ensures :
      (arg v : Bytes) → Ensures IsPeer (first_arg arg v (peer_args h fuel p))
  first_arg-peer_args-Ensures arg v =
      first_arg-Ensures IsPeer arg v (peer_args h fuel p) peer_args-Ensures

with_peers :
    (d : Device) (peers : List Peer)
    → IsDevice d
    → All IsPeer peers
    → IsDevice (record d { peers = peers })
with_peers d peers good valid = assumption

HasPeers-no_peer : (peers : List Peer) → no_peer peers ≡ false → HasPeers peers
HasPeers-no_peer [] e = cc
HasPeers-no_peer (p ∷ peers) e = tt

module _ (h : Host) (w : IsHost h) (fuel : ℕ) (d : Device) (good : IsDevice d) where
  at_last_peer :
      (f : Peer → Outcome Peer)
      → no_peer d.peers ≡ false
      → ((p : Peer) → IsPeer p → Ensures IsPeer (f p))
      → Ensures IsDevice (at_last d.peers f >>= λ peers. ok (record d { peers = peers }))
  at_last_peer f some_peer k =
      Ensures-bind (SomeAll IsPeer) IsDevice (at_last d.peers f) _
        (at_last-Ensures IsPeer d.peers f (HasPeers-no_peer d.peers some_peer) good.peers_valid k)
        (λ peers r. with_peers d peers good r.0)

  cmd_new_peer-Ensures : (v : Bytes) → Ensures IsDevice (cmd_new_peer v d)
  cmd_new_peer-Ensures v =
      Ensures-bind IsKey IsDevice (key_or_fail (parse_key zero_key v)) _
        (key_or_fail-Ensures _ (parse_key-IsKey zero_key v zero_key-IsKey))
        (λ k r.
          let z = zero_peer-IsPeer in
          let new_good : IsPeer
              (add_peer_flag (record zero_peer { public_key = k }) PeerFlag.has_public_key) =
            assumption in
          with_peers d _ good (All-append IsPeer d.peers _ good.peers_valid (new_good, tt)))

  pair_arg-Ensures : (arg v : Bytes) → Ensures IsDevice (pair_arg h fuel arg v d)
  unfolding pair_arg
  pair_arg-Ensures arg v =
      Ensures-if IsDevice (strcmp_eq arg (codes "peer")) _ _ (λ e. cmd_new_peer-Ensures v)
        (λ e.
          Ensures-if IsDevice (no_peer d.peers) _ _
            (λ f.
              first_arg-Ensures IsDevice arg v (device_args h d) (device_args-Ensures h w d good))
            (λ f.
              at_last_peer (λ p. first_arg arg v (peer_args h fuel p)) f
                (λ p g. first_arg-peer_args-Ensures h w fuel p g arg v)))

  remove_arg-Ensures : no_peer d.peers ≡ false → Ensures IsDevice (remove_arg d)
  remove_arg-Ensures some_peer = at_last_peer _ some_peer (λ p g. assumption)

is_remove-peer : (arg : Bytes) (d : Device) → is_remove arg d ≡ true → no_peer d.peers ≡ false
is_remove-peer arg d e = ground arith

read_args-Ensures :
    (h : Host) (w : IsHost h) (fuel : ℕ) (args : List Bytes) (d : Device)
    → IsDevice d
    → Ensures IsDevice (read_args h fuel args d)
unfolding read_args
read_args-Ensures h w fuel [] d good = good
read_args-Ensures h w fuel (arg ∷ []) d good =
    Ensures-if IsDevice (is_remove arg d) _ _
      (λ e. remove_arg-Ensures h w fuel d good (is_remove-peer arg d e)) (λ e. tt)
read_args-Ensures h w fuel (arg ∷ v ∷ args) d good =
    let next = read_args-Ensures h w fuel (v ∷ args) in
    let later = read_args-Ensures h w fuel args in
    Ensures-if IsDevice (is_remove arg d) _ _
      (λ e.
        Ensures-bind IsDevice IsDevice (remove_arg d) _
          (remove_arg-Ensures h w fuel d good (is_remove-peer arg d e)) next)
      (λ e.
        Ensures-bind IsDevice IsDevice (pair_arg h fuel arg v d) _
          (pair_arg-Ensures h w fuel d good arg v) later)

-- Whatever the arguments of `wg set` are, their reading goes through no null pointer, and a device
-- that they give is well-formed. The host is as its manuals say.
pub config_read_cmd-Ensures :
    (h : Host) (fuel : ℕ) (argv : List Bytes)
    → IsHost h
    → Ensures IsDevice (config_read_cmd h fuel argv)
unfolding config_read_cmd
config_read_cmd-Ensures h fuel argv w =
    read_args-Ensures h w fuel argv zero_device zero_device-IsDevice
