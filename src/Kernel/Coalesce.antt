-- ===== src/Kernel/Coalesce.antt =====
-- `coalesce_peers` of ipc-linux.h: parts of one peer that follow one another become one peer.
pub mod Laws
pub mod Keys
use router1_app.Prelude.{
  ℕ, Bool, true, false, Option, List, [], ◌∷◌, ◌++◌, if◌then◌else◌, Bytes, Outcome, ◌>>=◌, ok,
  fault,
}
use router1_app.Containers.{AllowedIp, Peer}
use router1_app.Setconf.{memcmp, is_eq}

abbrev pub no_ips : List AllowedIp → Bool
no_ips [] = true
no_ips (a ∷ ips) = false

abbrev pub with_ips : Peer → List AllowedIp → Peer
with_ips p ips = record p { allowedips = ips }

-- The step on two parts of one peer; `dangling` is true where `last_allowedip` of the first is null.
-- Where the first has addresses, the step writes through that pointer.
unfoldable pub join : Peer → Bool → List AllowedIp → Outcome Peer
join p dangling ips = elim p.allowedips [
  | [] ↦ ok (with_ips p ips)
  | a ∷ own ↦ if dangling then fault else ok (with_ips p (a ∷ own ++ ips))
]

-- The loop, at the peer p with the peers behind it.
unfoldable pub coalesce : Peer → Bool → List Peer → Outcome (List Peer)
unfolding join memcmp
coalesce p dangling [] = ok (p ∷ [])
coalesce p dangling (q ∷ peers) = elim (is_eq (memcmp p.public_key q.public_key)) [
  | false ↦ coalesce q (no_ips q.allowedips) peers >>= λ rest. ok (p ∷ rest)
  | true ↦ join p dangling q.allowedips >>= λ p'. coalesce p' (no_ips q.allowedips) peers
]

unfoldable pub coalesce_peers : List Peer → Outcome (List Peer)
unfolding coalesce
coalesce_peers [] = ok []
coalesce_peers (p ∷ peers) = coalesce p (no_ips p.allowedips) peers
