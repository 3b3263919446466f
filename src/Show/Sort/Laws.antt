-- ===== src/Show/Sort/Laws.antt =====
-- What qsort needs of peer_cmp.
use Prim.Native.Nat.{Ordering, compare}
use router1_app.Prelude.{ℕ, ◌≡◌, arith, ◌≢◌, ◌<◌, ◌^◌, truthy, not, ◌==◌, leb, ltb}
use router1_app.Containers.{Peer}
use router1_app.Show.Sort.{peer_cmp, diff}

-- The later handshake first; never is the time 0.
abbrev pub later_first : ℕ → ℕ → ℕ → ℕ → Ordering
later_first a_sec a_nsec b_sec b_nsec = elim (compare b_sec a_sec) [
  | Ordering.lt ↦ Ordering.lt
  | Ordering.gt ↦ Ordering.gt
  | Ordering.eq ↦ compare b_nsec a_nsec
]

abbrev pub order_of : Peer → Peer → Ordering
order_of a b =
    later_first a.last_handshake_time_sec a.last_handshake_time_nsec b.last_handshake_time_sec
      b.last_handshake_time_nsec

-- A time that is not negative as a number of 64 bits with a sign.
abbrev pub IsTime : Peer → Type 0
IsTime p = (p.last_handshake_time_sec < 2 ^ 63) × (p.last_handshake_time_nsec < 2 ^ 63)

negative-diff : (a b : ℕ) → a < 2 ^ 63 → b < 2 ^ 63 → leb (2 ^ 63) (diff a b) ≡ ltb a b
negative-diff a b h k = ground (arith, h, k)

truthy-diff : (a b : ℕ) → a < 2 ^ 63 → b < 2 ^ 63 → truthy (diff a b) ≡ not (a == b)
truthy-diff a b h k = ground (arith, h, k)

-- On such times peer_cmp compares the last handshakes, seconds before nanoseconds, the later one
-- first; its two tests for peers without a handshake agree with that.
pub peer_cmp_lem : (a b : Peer) → IsTime a → IsTime b → peer_cmp a b ≡ order_of a b
unfolding peer_cmp
peer_cmp_lem a b (h, k) (h', k') =
    let sec = a.last_handshake_time_sec in
    let nsec = a.last_handshake_time_nsec in
    let sec' = b.last_handshake_time_sec in
    let nsec' = b.last_handshake_time_nsec in
    rw
      (
        truthy-diff sec sec' h h',
        negative-diff sec sec' h h',
        truthy-diff nsec nsec' k k',
        negative-diff nsec nsec' k k',
      )
      (ground arith)

abbrev pub flip : Ordering → Ordering
flip Ordering.lt = Ordering.gt
flip Ordering.eq = Ordering.eq
flip Ordering.gt = Ordering.lt

order-flip : (a b c d : ℕ) → later_first c d a b ≡ flip (later_first a b c d)
order-flip a b c d = ground arith

order_trans :
    (a b c d e f : ℕ)
    → (later_first a b c d ≡ Ordering.gt → ⊥)
    → (later_first c d e f ≡ Ordering.gt → ⊥)
    → later_first a b e f ≡ Ordering.gt
    → ⊥
order_trans a b c d e f h k g = ground (arith, h, k, g)

-- Where no time is negative as a number of 64 bits with a sign, peer_cmp is an order in the sense that
-- qsort asks for: with its arguments exchanged it gives the opposite answer, and where a is not after b
-- and b is not after c, a is not after c. The differences, which wrap around, are those of the times.
pub peer_cmp-flip :
    (a b c : Peer)
    → IsTime a
    → IsTime b
    → IsTime c
    → (peer_cmp b a ≡ flip (peer_cmp a b))
      × (peer_cmp a b ≢ Ordering.gt → peer_cmp b c ≢ Ordering.gt → peer_cmp a c ≢ Ordering.gt)
peer_cmp-flip a b c h k l =
    rw (peer_cmp_lem a b h k, peer_cmp_lem b a k h, peer_cmp_lem b c k l, peer_cmp_lem a c h l)
      (order-flip _ _ _ _, order_trans _ _ _ _ _ _)
