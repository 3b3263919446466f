-- ===== src/Kernel/Coalesce/Keys.antt =====
-- Joined parts keep the key of the first.
use router1_app.Prelude.{
  ◌≡◌, Bool, true, false, List, [], ◌∷◌, All, length, if◌then◌else◌, ◌++◌, Outcome, ◌>>=◌, ok, fail,
  exit, fault, hang,
}
use router1_app.Containers.{Peer, AllowedIp}
use router1_app.Containers.Flags.{has}
use router1_app.Containers.PeerFlag
use router1_app.Setconf.{memcmp, is_eq}
use router1_app.Kernel.Coalesce.{no_ips, with_ips, join, coalesce, coalesce_peers}

-- A peer that has a public key, of 32 bytes.
abbrev pub HasKey : Peer → Type 0
HasKey p = (has p.flags PeerFlag.has_public_key ≡ true) × (length p.public_key ≡ 32)

-- A property of what a call returns, if it returns a value.
abbrev pub IfOk {ℓ} : {A : Type ℓ} → (A → Type 0) → Outcome A → Type 0
IfOk P (ok a) = P a
IfOk P m = Unit

pub IfOk-bind :
    {A B : Type 0} (P : A → Type 0) (Q : B → Type 0) (m : Outcome A) (f : A → Outcome B)
    → IfOk P m
    → ((a : A) → P a → IfOk Q (f a))
    → IfOk Q (m >>= f)
IfOk-bind P Q (ok a) f h k = k a h
IfOk-bind P Q fail f h k = tt
IfOk-bind P Q exit f h k = tt
IfOk-bind P Q fault f h k = tt
IfOk-bind P Q hang f h k = tt

join-HasKey :
    (p : Peer) (dangling : Bool) (ips : List AllowedIp)
    → HasKey p
    → IfOk HasKey (join p dangling ips)
unfolding join
join-HasKey p dangling ips h = by_ips p.allowedips dangling
  where
    by_ips :
        (own : List AllowedIp) (dangling : Bool)
        → IfOk HasKey (elim own [
          | [] ↦ ok (with_ips p ips)
          | a ∷ own ↦ if dangling then fault else ok (with_ips p (a ∷ own ++ ips))
        ])
    by_ips [] dangling = h
    by_ips (a ∷ own) true = tt
    by_ips (a ∷ own) false = h

coalesce-HasKey :
    (p : Peer) (dangling : Bool) (more : List Peer)
    → HasKey p
    → All HasKey more
    → IfOk (All HasKey) (coalesce p dangling more)
unfolding coalesce
coalesce-HasKey p dangling [] h hs = (h, tt)
coalesce-HasKey p dangling (q ∷ more) h (k, hs) =
    by_key (is_eq (memcmp p.public_key q.public_key)) _ _
      (IfOk-bind (All HasKey) (All HasKey) (coalesce q (no_ips q.allowedips) more) _
        (coalesce-HasKey q (no_ips q.allowedips) more k hs) (λ rest found. (h, found)))
      (IfOk-bind HasKey (All HasKey) (join p dangling q.allowedips) _
        (join-HasKey p dangling q.allowedips h)
        (λ p' h'. coalesce-HasKey p' (no_ips q.allowedips) more h' hs))
  where
    by_key :
        (same : Bool) (m n : Outcome (List Peer))
        → IfOk (All HasKey) m
        → IfOk (All HasKey) n
        → IfOk (All HasKey) (elim same [ false ↦ m | true ↦ n ])
    by_key true m n a b = b
    by_key false m n a b = a

pub coalesce_peers-HasKey : (ps : List Peer) → All HasKey ps → IfOk (All HasKey) (coalesce_peers ps)
unfolding coalesce_peers
coalesce_peers-HasKey [] h = tt
coalesce_peers-HasKey (p ∷ ps) (h, hs) = coalesce-HasKey p (no_ips p.allowedips) ps h hs
