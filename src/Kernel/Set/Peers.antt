-- ===== src/Kernel/Set/Peers.antt =====
-- The loops over the addresses and over the peers of one message: what is put is what is no longer
-- left, and where there is room for a peer and an address, something is put.
use router1_app.Containers.PeerFlag
use mathlib.Core.List.{append-nil}
use router1_app.Prelude.{
  ℕ, ◌+◌, ◌<◌, ◌≤◌, ◌≡◌, refl, ap, Bool, Option, none, some, List, [], ◌∷◌, ◌++◌, map, arith,
  length, sym, inl, inr, ◌∙◌, bit_or, true, false, ◌&&◌, if◌then◌else◌, Bool-cases, truthy,
}
use router1_app.Containers.{AllowedIp, Peer}
use router1_app.Kernel.{Part, Netlink, Nest, Attr}
use router1_app.Kernel.Peer.{put_allowedip, put_peer_head, flags_of}
use router1_app.Kernel.Peer.Puts.{
  head_attrs, ip_attrs, nest_at, put_allowedip-PutsTo, worst_ip, PutsTo, worst_head,
  nest_start_check-cases, opt,
}
use router1_app.Kernel.Peer.Laws.{ip_attrs_bound, put_peer_head-PutsTo, head_attrs_bound}
use router1_app.Kernel.Set.{
  Filled, fill_ips, PeerResult, is_resumed, ips_from, put_ips, too_big, too_big_ips, next, put_peer,
}
use router1_app.Containers.Flags.{has}

-- A position from which a peer can be resumed: some address is left, and so the peer has one.
abbrev pub IsPosition : Option (List AllowedIp) → List AllowedIp → Type 0
IsPosition none own = Unit
IsPosition (some ips) own = (0 < length ips) × (0 < length own)

-- A peer that stands in one message.
abbrev pub part_of : Bool → Peer → List AllowedIp → Part
part_of resumed p ips = record { attrs = head_attrs resumed p; allowedips = map ip_attrs ips }

-- What a later message says of a peer that an earlier one began: its key, whether it is removed and
-- whether it is of AmneziaWG, and more addresses; not that its addresses be replaced.
abbrev resumed_flags : Peer → ℕ
resumed_flags p =
    bit_or (if has p.flags PeerFlag.remove_me then 1 else 0)
      (if has p.flags PeerFlag.has_awg then 8 else 0)

abbrev pub resumed_part : Peer → List AllowedIp → Part
resumed_part p ips =
    let awg = has p.flags PeerFlag.has_awg && p.awg in
    let flags = resumed_flags p in
    record {
      attrs =
          (Attr.public_key p.public_key ∷ [])
          ++ ((if awg then Attr.awg ∷ [] else [])
              ++ (if truthy flags then Attr.peer_flags flags ∷ [] else []));
      allowedips = map ip_attrs ips;
    }

flags_of-resumed_flags : (p : Peer) → flags_of true p ≡ resumed_flags p
unfolding flags_of
flags_of-resumed_flags p = elim (Bool-cases (has p.flags PeerFlag.remove_me)) [
  | inl e ↦ rw e refl
  | inr e ↦ rw e refl
]

opt-if : (b : Bool) (a : Attr) → opt b a ≡ (if b then a ∷ [] else [])
opt-if true a = refl
opt-if false a = refl

pub part_of-resumed_part :
    (p : Peer) (ips : List AllowedIp) → part_of true p ips ≡ resumed_part p ips
part_of-resumed_part p ips =
    rw
      (
        flags_of-resumed_flags p,
        opt-if (has p.flags PeerFlag.has_awg && p.awg) Attr.awg,
        opt-if (truthy (resumed_flags p)) (Attr.peer_flags (resumed_flags p)),
      )
      refl

module _ (n : Netlink) where
  -- Room for a peer with an address.
  abbrev pub worst : ℕ
  worst = worst_head n + n.attr_len 0 + worst_ip n

  abbrev pub PeerGood : ℕ → Option (List AllowedIp) → Peer → PeerResult → Type 0
  PeerGood len position p too_big = n.capacity < len + worst
  PeerGood len position p (too_big_ips part left) =
      (done : List AllowedIp) × (part ≡ part_of (is_resumed position) p done)
      × (done ++ left ≡ ips_from position p)
      × (0 < length left)
      × (0 < length p.allowedips)
      × (len + worst ≤ n.capacity → 0 < length done)
  PeerGood len position p (next part position' len') =
      (position' ≡ none) × (part ≡ part_of (is_resumed position) p (ips_from position p))

module _ (n : Netlink) (mono : (i j : ℕ) → i ≤ j → n.attr_len i ≤ n.attr_len j) where
  record FilledUp (len : ℕ) (ips : List AllowedIp) (r : Filled) : Type 0 where
    done : List AllowedIp
    puts : r.put_ips ≡ map ip_attrs done
    whole : done ++ r.left ≡ ips
    progress : 0 < length ips → len + worst_ip n ≤ n.capacity → 0 < length done

  fill_ips-FilledUp : (len : ℕ) (ips : List AllowedIp) → FilledUp len ips (fill_ips n len ips)
  unfolding fill_ips
  fill_ips-FilledUp len [] = record {
    done = [];
    puts = refl;
    whole = refl;
    progress = λ some room. some;
  }
  fill_ips-FilledUp len (a ∷ ips) =
      onward (λ len'. fill_ips-FilledUp len' ips) (put_allowedip n len a)
        (put_allowedip-PutsTo n len a)
    where
      onward :
          ((len' : ℕ) → FilledUp len' ips (fill_ips n len' ips))
          → (o : Option Nest) → PutsTo n (nest_at n len) (ip_attrs a) o
          → FilledUp len (a ∷ ips) (elim o [
            | none ↦ record { put_ips = []; left = a ∷ ips; len = len }
            | some m ↦
                let r = fill_ips n m.len ips in
                record { put_ips = m.attrs ∷ r.put_ips; left = r.left; len = r.len }
          ])
      onward others none big = record {
        done = [];
        puts = refl;
        whole = refl;
        progress = λ some room. absurd (omega (arith, big, room, ip_attrs_bound n mono a));
      }
      onward others (some m) (same, grown) =
          let r = others m.len in
          record {
            done = a ∷ r.done;
            puts = cc;
            whole = ap (λ (t : List AllowedIp). a ∷ t) r.whole;
            progress = λ some room. omega arith;
          }

  put_ips-PeerGood :
      (len : ℕ) (m : Nest) (position : Option (List AllowedIp)) (p : Peer) (own : List AllowedIp)
      → own ≡ p.allowedips
      → IsPosition position own
      → m.attrs ≡ head_attrs (is_resumed position) p
      → m.len ≤ len + worst_head n
      → PeerGood n len position p (put_ips n m position (ips_from position p) own)
  unfolding put_ips
  put_ips-PeerGood len m none p [] e valid head small = (refl, rw (head, sym e) refl)
  put_ips-PeerGood len m (some ips) p [] e (some_left, some_own) head small =
      absurd (omega (arith, some_own))
  put_ips-PeerGood len m position p (a ∷ own) e valid head small =
      let resumed = is_resumed position in
      let ips = ips_from position p in
      let owned : 0 < length p.allowedips = omega (arith, ap length e) in
      let many : 0 < length ips = ips_some position valid in
      elim (nest_start_check-cases n m.len) [
        | inl (full, big) ↦
            rw (full, put_ips, PeerGood)
              (
                [],
                rw head refl,
                refl,
                many,
                owned,
                λ room. absurd (omega (arith, big, room, small)),
              )
        | inr opened ↦
            let r = fill_ips-FilledUp (m.len + n.attr_len 0) ips in
            let filled = fill_ips n (m.len + n.attr_len 0) ips in
            rw (opened, put_ips) (by_left filled r many owned filled.left refl)
      ]
    where
      ips_some :
          (position : Option (List AllowedIp))
          → IsPosition position (a ∷ own)
          → 0 < length (ips_from position p)
      ips_some none valid = omega (arith, ap length e)
      ips_some (some ips) (some_left, some_own) = some_left

      part_from : Filled → Part
      part_from r = record { attrs = m.attrs; allowedips = r.put_ips }

      by_left :
          (r : Filled)
          → FilledUp (m.len + n.attr_len 0) (ips_from position p) r
          → 0 < length (ips_from position p)
          → 0 < length p.allowedips
          → (left : List AllowedIp) → left ≡ r.left
          → PeerGood n len position p (elim left [
            | [] ↦ next (part_from r) none r.len
            | b ∷ left ↦ too_big_ips (part_from r) (b ∷ left)
          ])
      by_left r filled many owned [] none_left =
          let all : filled.done ≡ ips_from position p =
            sym (append-nil filled.done)
            ∙ ap (λ (t : List AllowedIp). filled.done ++ t) none_left
            ∙ filled.whole in
          (refl, rw (head, filled.puts, all) refl)
      by_left r filled many owned (b ∷ left) some_left = (
        filled.done,
        rw (head, filled.puts) refl,
        ap (λ (t : List AllowedIp). filled.done ++ t) some_left ∙ filled.whole,
        omega arith,
        owned,
        λ room. filled.progress many (omega (arith, room, small)),
      )

  pub put_peer-PeerGood :
      (len : ℕ) (position : Option (List AllowedIp)) (p : Peer)
      → IsPosition position p.allowedips
      → PeerGood n len position p (put_peer n len position p)
  unfolding put_peer
  put_peer-PeerGood len position p valid = elim (nest_start_check-cases n len) [
    | inl (full, big) ↦ rw (full, put_peer, PeerGood) (omega (arith, big))
    | inr opened ↦
        let resumed = is_resumed position in
        let m0 = nest_at n len in
        rw (opened, put_peer)
          (by_head (put_peer_head n resumed p m0) (put_peer_head-PutsTo n mono resumed p m0))
  ]
    where
      by_head :
          (o : Option Nest)
          → PutsTo n (nest_at n len) (head_attrs (is_resumed position) p) o
          → PeerGood n len position p (elim o [
            | none ↦ too_big
            | some m ↦ put_ips n m position (ips_from position p) p.allowedips
          ])
      by_head none big = omega (arith, big, head_attrs_bound n mono (is_resumed position) p)
      by_head (some m) (same, grown) =
          put_ips-PeerGood len m position p p.allowedips refl valid same
            (omega (arith, grown, head_attrs_bound n mono (is_resumed position) p))
