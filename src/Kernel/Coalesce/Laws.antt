-- ===== src/Kernel/Coalesce/Laws.antt =====
-- What `coalesce_peers` makes of peers that came in several parts.
use mathlib.Core.List.{append-nil, append_assoc}
use mathlib.Core.Path.{sym}
use router1_app.Prelude.{
  ℕ, ◌≡◌, refl, ap, ◌∙◌, ◌<◌, Bool, true, false, List, [], ◌∷◌, ◌++◌, map, All, arith, length, ok,
  ◌⊎◌, inl, inr, if◌then◌else◌, fault,
}
use router1_app.Containers.{AllowedIp, Peer}
use router1_app.Setconf.{memcmp, is_eq}
use router1_app.Setconf.Order.{memcmp-key_eq, key_eq_refl}
use router1_app.Kernel.Coalesce.{no_ips, with_ips, join, coalesce, coalesce_peers}

-- The parts of one peer.
pub record Group : Type 0 where
  pub head : Peer
  pub more : List Peer

abbrev pub parts_of : List Group → List Peer
parts_of [] = []
parts_of (g ∷ groups) = g.head ∷ (g.more ++ parts_of groups)

abbrev pub all_ips : List Peer → List AllowedIp
all_ips [] = []
all_ips (q ∷ more) = q.allowedips ++ all_ips more

-- The peer with the addresses of all its parts.
abbrev pub joined : Group → Peer
joined g = record g.head { allowedips = g.head.allowedips ++ all_ips g.more }

-- Each further part has the key of the first, and an address.
abbrev pub IsGroup : Group → Type 0
IsGroup g =
    All (λ (q : Peer). (q.public_key ≡ g.head.public_key) × (0 < length q.allowedips)) g.more

abbrev Differs : Peer → List Group → Type 0
Differs p [] = Unit
Differs p (g ∷ groups) = is_eq (memcmp p.public_key g.head.public_key) ≡ false

-- Peers that follow one another have different keys.
abbrev pub AreSeparate : List Group → Type 0
AreSeparate [] = Unit
AreSeparate (g ∷ groups) = Differs g.head groups × AreSeparate groups

same_key : (a b : List ℕ) → b ≡ a → is_eq (memcmp a b) ≡ true
same_key a b e = rw e (memcmp-key_eq a a refl ∙ key_eq_refl a)

-- The last pointer is null only where there is no address.
join_lem :
    (p : Peer) (dangling : Bool) (ips : List AllowedIp)
    → (dangling ≡ false) ⊎ (p.allowedips ≡ [])
    → join p dangling ips ≡ ok (with_ips p (p.allowedips ++ ips))
unfolding join
join_lem p dangling ips valid = by_ips p.allowedips refl valid
  where
    by_ips :
        (own : List AllowedIp)
        → own ≡ p.allowedips
        → (dangling ≡ false) ⊎ (own ≡ [])
        → elim own [
          | [] ↦ ok (with_ips p ips)
          | a ∷ own ↦ if dangling then fault else ok (with_ips p (a ∷ own ++ ips))
        ]
          ≡ ok (with_ips p (own ++ ips))
    by_ips [] e valid = refl
    by_ips (a ∷ own) e (inl fine) = rw fine refl
    by_ips (a ∷ own) e (inr nothing) = absurd (omega (arith, ap length nothing))

coalesce-joined :
    (p : Peer) (dangling : Bool) (more : List Peer) (groups : List Group)
    → (dangling ≡ false) ⊎ (p.allowedips ≡ [])
    → IsGroup (record { head = p; more = more })
    → Differs p groups
    → coalesce_peers (parts_of groups) ≡ ok (map joined groups)
    → coalesce p dangling (more ++ parts_of groups)
      ≡ ok (joined (record { head = p; more = more }) ∷ map joined groups)
unfolding coalesce coalesce_peers
coalesce-joined p dangling [] [] valid parts differs rest =
    ap (λ (t : List AllowedIp). ok (with_ips p t ∷ [])) (sym (append-nil p.allowedips))
coalesce-joined p dangling [] (g ∷ groups) valid parts differs rest =
    rw (coalesce, differs, rest)
      (ap (λ (t : List AllowedIp). ok (with_ips p t ∷ map joined (g ∷ groups)))
        (sym (append-nil p.allowedips)))
coalesce-joined p dangling (q ∷ more) groups valid ((same, filled), parts) differs rest =
    let p' = with_ips p (p.allowedips ++ q.allowedips) in
    let later : no_ips q.allowedips ≡ false = has_ips q.allowedips filled in
    rw (coalesce, same_key p.public_key q.public_key same, join_lem p dangling q.allowedips valid)
      (coalesce-joined p' (no_ips q.allowedips) more groups (inl later) parts differs rest
        ∙ ap (λ (t : List AllowedIp). ok (with_ips p t ∷ map joined groups))
            (append_assoc p.allowedips q.allowedips (all_ips more)))
  where
    has_ips : (ips : List AllowedIp) → 0 < length ips → no_ips ips ≡ false
    has_ips [] h = absurd (omega (arith, h))
    has_ips (a ∷ ips) h = refl

-- The peers of the kernel, of which each came in one or more parts that follow one another and
-- have its key, come out whole and in order, each with the addresses of all its parts in order and
-- with the other fields of its first part: if peers that follow one another have different keys, and
-- no further part is without an address. So no part makes the loop write through a null pointer.
pub coalesce_peers-joined :
    (groups : List Group)
    → All IsGroup groups
    → AreSeparate groups
    → coalesce_peers (parts_of groups) ≡ ok (map joined groups)
unfolding coalesce_peers
coalesce_peers-joined [] parts separate = refl
coalesce_peers-joined (g ∷ groups) (part, parts) (differs, separate) =
    coalesce-joined g.head (no_ips g.head.allowedips) g.more groups (ends g.head.allowedips) part
      differs (coalesce_peers-joined groups parts separate)
  where
    ends : (ips : List AllowedIp) → (no_ips ips ≡ false) ⊎ (ips ≡ [])
    ends [] = inr refl
    ends (a ∷ ips) = inl refl
