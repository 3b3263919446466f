-- ===== src/WgQuick/Interface/Netid.antt =====
-- wg-quick/android.c: the number of the network.
use router1_app.Prelude.Bits.{bit_and_shift, bit_and_none}
use router1_app.Prelude.{
  ℕ, zero, suc, ◌+◌, ◌≤◌, ◌<◌, bit_and, ◌≡◌, arith, ◌/◌, ◌^◌, refl, sym, ◌∙◌, inl, inr, true, ltb,
  Bool-cases,
}
use router1_app.WgQuick.Script.{returned, State, World, Result}
use router1_app.WgQuick.Interface.{draw_netid}
use mathlib.Core.Path.{subst}

-- A draw of random that the loop takes.
abbrev pub IsUsable : World → ℕ → Type 0
IsUsable w i = 4096 ≤ bit_and (w.random i) 0xfffe

draw_netid_taken :
    (w : World) (fuel netid : ℕ) (s : State)
    → 4096 ≤ netid
    → draw_netid w fuel netid s ≡ (returned netid, s)
unfolding draw_netid
draw_netid_taken w zero netid s h = ground (arith, h)
draw_netid_taken w (suc fuel) netid s h = ground (arith, h)

draw_range : (n : ℕ) → bit_and n 0xfffe < 65536
draw_range n =
    let high : bit_and n 0xfffe / 2 ^ 16 ≡ 0 =
      bit_and_shift 16 n 0xfffe ∙ bit_and_none (n / 2 ^ 16) in
    omega (arith, high)

draw_netid_next :
    (w : World) (fuel netid : ℕ) (s : State)
    → netid < 4096
    → draw_netid w (suc fuel) netid s
      ≡ draw_netid w fuel (bit_and (w.random s.draws) 0xfffe) (record s { draws = suc s.draws })
unfolding draw_netid
draw_netid_next w fuel netid s h =
    let small : ltb netid 4096 ≡ true = ground (arith, h) in rw small refl

-- The loop ends with a draw that is a number of a network, after the draws that are too small.
pub record Drawn (w : World) (r : Result ℕ × State) : Type 0 where
  pub draw : ℕ
  pub final : State
  pub result : r ≡ (returned (bit_and (w.random draw) 0xfffe), final)
  pub least : 4096 ≤ bit_and (w.random draw) 0xfffe
  pub most : bit_and (w.random draw) 0xfffe < 65536

taken-Drawn :
    (w : World) (fuel netid : ℕ) (s : State)
    → netid < 4096
    → IsUsable w s.draws
    → Drawn w (draw_netid w (suc fuel) netid s)
taken-Drawn w fuel netid s low usable = record {
  draw = s.draws;
  final = record s { draws = suc s.draws };
  result =
      draw_netid_next w fuel netid s low
      ∙ draw_netid_taken w fuel (bit_and (w.random s.draws) 0xfffe)
          (record s { draws = suc s.draws }) usable;
  least = usable;
  most = draw_range (w.random s.draws);
}

-- Where one of the next `fuel` draws of random, masked, is 4096 or more, the loop for the number of
-- the network ends, and with a masked draw between 4096 and 65535.
pub draw_netid-Drawn :
    (w : World) (k fuel netid : ℕ) (s : State)
    → k < fuel
    → netid < 4096
    → IsUsable w (s.draws + k)
    → Drawn w (draw_netid w fuel netid s)
draw_netid-Drawn w k zero netid s h low usable = absurd (omega (arith, h))
draw_netid-Drawn w zero (suc fuel) netid s h low usable =
    taken-Drawn w fuel netid s low (subst (IsUsable w) (omega arith) usable)
draw_netid-Drawn w (suc k) (suc fuel) netid s h low usable =
    let next = bit_and (w.random s.draws) 0xfffe in
    elim (Bool-cases (ltb next 4096)) [
      | inl e ↦
          let t : State = record s { draws = suc s.draws } in
          subst (Drawn w) (sym (draw_netid_next w fuel netid s low)) (
            draw_netid-Drawn w k fuel next t (omega (arith, h)) (ground (arith, e))
              (subst (IsUsable w) (omega arith) usable))
      | inr e ↦ taken-Drawn w fuel netid s low (ground (arith, e))
    ]
