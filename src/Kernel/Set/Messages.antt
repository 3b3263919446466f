-- ===== src/Kernel/Set/Messages.antt =====
-- The messages of `kernel_set_device` together: a kernel to which a peer may be described in several
-- parts ends as it would with every peer whole, and the messages come to an end.
use mathlib.Core.Path.{sym, subst}
use mathlib.Core.List.{append_assoc}
use router1_app.Prelude.{
  ℕ, ◌+◌, ◌<◌, ◌≡◌, refl, ap, ◌∙◌, true, false, Option, none, some, List, [], ◌∷◌, ◌++◌, map,
  length, ◌≤◌, arith, length-append,
}
use router1_app.Containers.{AllowedIp, Peer}
use router1_app.Kernel.{Part, Message, Netlink}
use router1_app.Kernel.Set.{
  is_resumed, ips_from, PeerResult, put_peer, Packed, fill_peers, too_big, too_big_ips, next,
}
use router1_app.Kernel.Set.Peers.{
  IsPosition, part_of, worst, PeerGood, put_peer-PeerGood, resumed_part, part_of-resumed_part,
}

-- A peer in one part.
abbrev pub whole : Peer → Part
whole p = part_of false p p.allowedips

-- What the kernel does with the parts of a peer, one after another, and with messages.
module _ {K : Type 0} (apply : K → Part → K) where
  abbrev pub apply_parts : K → List Part → K
  apply_parts k [] = k
  apply_parts k (part ∷ parts) = apply_parts (apply k part) parts

  abbrev pub apply_messages : K → List Message → K
  apply_messages k [] = k
  apply_messages k (m ∷ messages) = apply_messages (apply_parts k m.parts) messages

  -- The state in which the rest of the peers leads to the target, from a position in the first.
  abbrev pub Remaining : K → Option (List AllowedIp) → List Peer → K → Type 0
  Remaining k none peers target = target ≡ apply_parts k (map whole peers)
  Remaining k (some left) [] target = ⊥
  Remaining k (some left) (p ∷ peers) target =
      (k0 : K) × (done : List AllowedIp) × (k ≡ apply k0 (part_of false p done))
      × (done ++ left ≡ p.allowedips)
      × (0 < length left)
      × (0 < length p.allowedips)
      × (target ≡ apply_parts (apply k0 (whole p)) (map whole peers))

  Remaining-IsPosition :
      (k : K) (position : Option (List AllowedIp)) (p : Peer) (peers : List Peer) (target : K)
      → Remaining k position (p ∷ peers) target
      → IsPosition position p.allowedips
  Remaining-IsPosition k none p peers target h = tt
  Remaining-IsPosition k (some ips) p peers target (k0, done, same, split, some_left, owned, ends) =
      (some_left, owned)

-- The messages that are at most left: one for each peer, and one for each address.
abbrev pub weight : Option (List AllowedIp) → List Peer → ℕ
weight none [] = 0
weight none (p ∷ peers) = 1 + length p.allowedips + weight none peers
weight (some left) [] = 0
weight (some left) (p ∷ peers) = length left + weight none peers

-- The law of the kernel: a resumed part adds its addresses to those of the part before.
module _ {K : Type 0} (apply : K → Part → K)
    (merges : (k : K) (p : Peer) (xs ys : List AllowedIp)
      → apply (apply k (part_of false p xs)) (resumed_part p ys)
        ≡ apply k (part_of false p (xs ++ ys))) where
  resume-Remaining :
      (k : K) (position : Option (List AllowedIp)) (p : Peer) (peers : List Peer) (target : K)
      (done left : List AllowedIp)
      → Remaining apply k position (p ∷ peers) target
      → done ++ left ≡ ips_from position p
      → 0 < length left
      → 0 < length p.allowedips
      → Remaining apply
          (apply k (part_of (is_resumed position) p done))
          (some left)
          (p ∷ peers)
          target
  resume-Remaining k none p peers target done left h split some_left owned =
      (k, done, refl, split, some_left, owned, h)
  resume-Remaining k (some ips) p peers target done left (k0, before, same, split0, l0, o0, ends)
        split some_left owned =
      (
        k0,
        before ++ done,
        ap (λ (t : K). apply t (part_of true p done)) same
            ∙ (ap (apply (apply k0 (part_of false p before))) (part_of-resumed_part p done)
                ∙ merges k0 p before done),
        append_assoc before done left ∙ ap (λ (t : List AllowedIp). before ++ t) split ∙ split0,
        some_left,
        owned,
        ends,
      )

  finish-Remaining :
      (k : K) (position : Option (List AllowedIp)) (p : Peer) (peers : List Peer) (target : K)
      → Remaining apply k position (p ∷ peers) target
      → Remaining apply
          (apply k (part_of (is_resumed position) p (ips_from position p)))
          none
          peers
          target
  finish-Remaining k none p peers target h = h
  finish-Remaining k (some ips) p peers target (k0, before, same, split0, l0, o0, ends) =
      let merged : apply k (part_of true p ips) ≡ apply k0 (whole p) =
        ap (λ (t : K). apply t (part_of true p ips)) same
        ∙ ap (apply (apply k0 (part_of false p before))) (part_of-resumed_part p ips)
        ∙ merges k0 p before ips
        ∙ ap (λ (t : List AllowedIp). apply k0 (part_of false p t)) split0 in
      ends ∙ ap (λ (t : K). apply_parts apply t (map whole peers)) (sym merged)

  module _ (n : Netlink) (mono : (i j : ℕ) → i ≤ j → n.attr_len i ≤ n.attr_len j) where
    pub record PackedGood (len : ℕ) (k : K) (position : Option (List AllowedIp)) (peers : List Peer)
        (target : K) (r : Packed) : Type 0 where
      pub remains : Remaining apply (apply_parts apply k r.parts) r.position r.rest target
      pub lighter : weight r.position r.rest ≤ weight position peers
      pub progress :
          0 < length peers
          → len + worst n ≤ n.capacity
          → weight r.position r.rest < weight position peers

    weight_left :
        (position : Option (List AllowedIp)) (p : Peer) (peers : List Peer)
        (done left : List AllowedIp)
        → done ++ left ≡ ips_from position p
        → length left + length done + weight none peers ≤ weight position (p ∷ peers)
    weight_left none p peers done left split =
        omega (arith, ap length split, length-append done left)
    weight_left (some ips) p peers done left split =
        omega (arith, ap length split, length-append done left)

    weight_next :
        (position : Option (List AllowedIp)) (p : Peer) (peers : List Peer)
        → IsPosition position p.allowedips
        → weight none peers < weight position (p ∷ peers)
    weight_next none p peers valid = omega arith
    weight_next (some ips) p peers (some_left, owned) = omega (arith, some_left)

    pub fill_peers-PackedGood :
        (len : ℕ) (k : K) (position : Option (List AllowedIp)) (peers : List Peer) (target : K)
        → Remaining apply k position peers target
        → PackedGood len k position peers target (fill_peers n len position peers)
    unfolding fill_peers
    fill_peers-PackedGood len k position [] target h = record {
      remains = h;
      lighter = omega arith;
      progress = λ many room. absurd (omega (arith, many));
    }
    fill_peers-PackedGood len k position (p ∷ peers) target h =
        onward (λ k' len'. fill_peers-PackedGood len' k' none peers target)
          (put_peer n len position p) (put_peer-PeerGood n mono len position p valid)
      where
        valid : IsPosition position p.allowedips
        valid = Remaining-IsPosition apply k position p peers target h

        onward :
            ((k' : K) (len' : ℕ)
              → Remaining apply k' none peers target
              → PackedGood len' k' none peers target (fill_peers n len' none peers))
            → (r : PeerResult) → PeerGood n len position p r
            → PackedGood len k position (p ∷ peers) target (elim r [
              | too_big ↦ record { parts = []; rest = p ∷ peers; position = position }
              | too_big_ips part left ↦ record {
                parts = part ∷ [];
                rest = p ∷ peers;
                position = some left;
              }
              | next part position' len' ↦
                  let r = fill_peers n len' position' peers in
                  record { parts = part ∷ r.parts; rest = r.rest; position = r.position }
            ])
        onward others too_big big = record {
          remains = h;
          lighter = omega arith;
          progress = λ many room. absurd (omega (arith, big, room));
        }
        onward others (too_big_ips part left) (done, same, split, some_left, owned, some_done) =
            let heavy = weight_left position p peers done left split in
            record {
              remains =
                  subst (λ (t : Part). Remaining apply (apply k t) (some left) (p ∷ peers) target)
                    (sym same)
                    (resume-Remaining k position p peers target done left h split some_left owned);
              lighter = omega (arith, heavy);
              progress = λ many room. omega (arith, heavy, some_done room);
            }
        onward others (next part position' len') (at_start, same) =
            let finished : Remaining apply (apply k part) none peers target =
              subst (λ (t : Part). Remaining apply (apply k t) none peers target) (sym same)
                (finish-Remaining k position p peers target h) in
            let r = others (apply k part) len' finished in
            let less = weight_next position p peers valid in
            rw at_start record {
              remains = r.remains;
              lighter = omega (arith, r.lighter, less);
              progress = λ many room. omega (arith, r.lighter, less);
            }
