-- ===== src/Show/Sort.antt =====
-- The order in which show.c lists the peers.
pub mod Laws
use Prim.Native.Nat.{Ordering}
use router1_app.Prelude.{Bool, not, ◌&&◌, List, [], ◌∷◌, if◌then◌else◌, truthy, ℕ, ◌^◌, leb, sub64}
use router1_app.Containers.{Peer, Device}

-- `!tv_sec && !tv_nsec`.
abbrev pub never : Peer → Bool
never p = not (truthy p.last_handshake_time_sec) && not (truthy p.last_handshake_time_nsec)

-- `diff` for two numbers of 64 bits: the words wrap around, and a word from 2 ^ 63 on is negative.
abbrev pub diff : ℕ → ℕ → ℕ
diff a b = sub64 a b

abbrev pub sign_answer : ℕ → Ordering
sign_answer d =
    if leb (2 ^ 63) d then Ordering.gt else if truthy d then Ordering.lt else Ordering.eq

-- The sign of the answer. The times are words of 64 bits, and so is time_t.
unfoldable pub peer_cmp : Peer → Peer → Ordering
peer_cmp a b =
    let seconds = diff a.last_handshake_time_sec b.last_handshake_time_sec in
    let nanoseconds = diff a.last_handshake_time_nsec b.last_handshake_time_nsec in
    if never a && not (never b)
    then Ordering.gt
    else if never b && not (never a)
    then Ordering.lt
    else if truthy seconds
    then sign_answer seconds
    else sign_answer nanoseconds

-- `sort_peers`, with the `qsort` of the C library, and allocation that succeeds.
unfoldable pub sort_peers : ((Peer → Peer → Ordering) → List Peer → List Peer) → Device → Device
unfolding peer_cmp
sort_peers qsort d = elim d.peers [
  | [] ↦ d
  | p ∷ peers ↦ record d { peers = qsort peer_cmp (p ∷ peers) }
]
