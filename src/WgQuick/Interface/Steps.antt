-- ===== src/WgQuick/Interface/Steps.antt =====
-- wg-quick/android.c: making, starting and deleting the interface keep what was done before.
use router1_app.Prelude.{Bool-cases, inl, inr, ℕ, zero, suc, Bytes, ltb, bit_and}
use router1_app.WgQuick.Script.{World, State}
use router1_app.WgQuick.Script.Keeps.{Follows, Follows-refl, Keeps, commands}
use router1_app.WgQuick.Interface.{
  add_if, note_endpoint, should_block_ipv6, determine_listen_port, draw_netid, open_port, up_if,
}

module _ (w : World) (iface : Bytes) where
  pub add_if-Keeps : Keeps (add_if w iface)
  unfolding add_if
  add_if-Keeps = search commands

  should_block_ipv6-Keeps : Keeps (should_block_ipv6 w iface)
  unfolding should_block_ipv6 note_endpoint
  should_block_ipv6-Keeps = search commands

  pub determine_listen_port-Keeps : Keeps (determine_listen_port w iface)
  unfolding determine_listen_port
  determine_listen_port-Keeps = search commands

  open_port-Keeps : (port : ℕ) → Keeps (open_port w iface port)
  unfolding open_port
  open_port-Keeps port = search (commands, should_block_ipv6-Keeps)

draw_netid-Follows :
    (w : World) (fuel netid : ℕ) (s : State) → Follows s (draw_netid w fuel netid s).1
unfolding draw_netid
draw_netid-Follows w zero netid s = elim (Bool-cases (ltb netid 4096)) [
  | inl e ↦ rw e (Follows-refl s)
  | inr e ↦ rw e (Follows-refl s)
]
draw_netid-Follows w (suc fuel) netid s = elim (Bool-cases (ltb netid 4096)) [
  | inl e ↦
      let next = bit_and (w.random s.draws) 0xfffe in
      let f = draw_netid-Follows w fuel next (record s { draws = suc s.draws }) in
      rw e (record {
        news = f.news;
        done = f.done;
        cleanup_iface = f.cleanup_iface;
        is_exiting = f.is_exiting;
      })
  | inr e ↦ rw e (Follows-refl s)
]

draw_netid-Keeps : (w : World) (fuel netid : ℕ) → Keeps (draw_netid w fuel netid)
draw_netid-Keeps w fuel netid = record { at = draw_netid-Follows w fuel netid }

module _ (w : World) where
  pub up_if-Keeps : (fuel : ℕ) (iface : Bytes) (port : ℕ) → Keeps (up_if w fuel iface port)
  unfolding up_if
  up_if-Keeps fuel iface port = search (commands, draw_netid-Keeps, open_port-Keeps) depth 14
