-- ===== src/Kernel/Set/Send.antt =====
-- The loop of `kernel_set_device` over its messages.
use mathlib.Core.Path.{sym, subst}
use mathlib.Core.List.{append_assoc, append-nil}
use router1_app.Prelude.{
  ℕ, zero, suc, ◌+◌, ◌<◌, ◌≤◌, ◌≡◌, refl, ap, ◌∙◌, true, false, Option, none, some, List, [], ◌∷◌,
  ◌++◌, map, arith, length, All, ok, Outcome, leb,
}
use router1_app.Containers.{AllowedIp, Peer, Device}
use router1_app.Kernel.{Attr, Part, Message, Netlink, Nest, nest_start, put}
use router1_app.Kernel.Set.{
  Packed, fill_peers, start_message, fill_message, Sent, send_messages, kernel_set_device,
}
use router1_app.Kernel.Set.Peers.{part_of, worst, resumed_part}
use router1_app.Kernel.Set.Messages.{
  whole, apply_parts, apply_messages, Remaining, weight, fill_peers-PackedGood,
}

module _ {K : Type 0} (apply : K → Part → K)
    (merges : (k : K) (p : Peer) (xs ys : List AllowedIp)
      → apply (apply k (part_of false p xs)) (resumed_part p ys)
        ≡ apply k (part_of false p (xs ++ ys)))
    (n : Netlink) (mono : (i j : ℕ) → i ≤ j → n.attr_len i ≤ n.attr_len j) where
  weight_positive :
      (k : K) (position : Option (List AllowedIp)) (q : Peer) (rest : List Peer) (target : K)
      → Remaining apply k position (q ∷ rest) target
      → 0 < weight position (q ∷ rest)
  weight_positive k none q rest target h = omega arith
  weight_positive k (some left) q rest target (k0, done, same, split, some_left, owned, ends) =
      omega (arith, some_left)

  -- One message: it does not add to what is left, and takes from it where there is room.
  record Step (m : Nest) (k : K) (position : Option (List AllowedIp)) (peers : List Peer)
      (target : K) (r : Outcome Packed) : Type 0 where
    packed : Packed
    returns : r ≡ ok packed
    remains : Remaining apply (apply_parts apply k packed.parts) packed.position packed.rest target
    lighter : weight packed.position packed.rest ≤ weight position peers
    progress :
        m.len + n.attr_len 0 + worst n ≤ n.capacity
        → 0 < weight packed.position packed.rest
        → weight packed.position packed.rest < weight position peers

  fill_message-Step :
      (m : Nest) (k : K) (position : Option (List AllowedIp)) (peers : List Peer) (target : K)
      → Remaining apply k position peers target
      → m.len + n.attr_len 0 ≤ n.capacity
      → Step m k position peers target (fill_message n m position peers)
  unfolding fill_message nest_start
  fill_message-Step m k none [] target h fits = record {
    packed = record { parts = []; rest = []; position = none };
    returns = refl;
    remains = h;
    lighter = omega arith;
    progress = λ room some. some;
  }
  fill_message-Step m k (some left) [] target h fits = absurd h
  fill_message-Step m k position (p ∷ peers) target h fits =
      let len = m.len + n.attr_len 0 in
      let inside : leb len n.capacity ≡ true = ground (arith, fits) in
      let r = fill_peers n len position (p ∷ peers) in
      let good = fill_peers-PackedGood apply merges n mono len k position (p ∷ peers) target h in
      record {
        packed = r;
        returns = rw inside refl;
        remains = good.remains;
        lighter = good.lighter;
        progress = λ room some. good.progress (omega arith) room;
      }

  -- The kernel answers no message with an error, and a later message has room for a peer.
  module _ (accepts : (sent : List Message) (m : Message) → n.error sent m ≡ none) (d : Device)
      (room : n.header_len + n.attr_len (length d.name + 1) + n.attr_len 0 + worst n
        ≤ n.capacity) where
    record SentGood (k target : K) (sent : List Message) (o : Outcome Sent) : Type 0 where
      messages : List Message
      returns : o ≡ ok (record { messages = sent ++ messages; error = none })
      applied : apply_messages apply k messages ≡ target
      bare : All (λ (m : Message). m.device ≡ Attr.ifname d.name ∷ []) messages

    abbrev later : Nest
    later = record {
      attrs = Attr.ifname d.name ∷ [];
      len = n.header_len + n.attr_len (length d.name + 1);
    }

    start_message-later : start_message n d false ≡ ok later
    unfolding start_message put
    start_message-later =
        let inside : leb (n.header_len + n.attr_len (length d.name + 1)) n.capacity ≡ true =
          ground (arith, room) in
        rw inside refl

    -- What follows an accepted message.
    next_message-SentGood :
        (fuel : ℕ)
        → ((position : Option (List AllowedIp)) (peers : List Peer) (sent : List Message)
              (k target : K)
            → Remaining apply k position peers target
            → weight position peers < fuel
            → SentGood k target sent (send_messages fuel n d false position peers sent))
        → (position : Option (List AllowedIp)) (rest : List Peer) (sent : List Message)
          (k target : K)
        → Remaining apply k position rest target
        → (0 < weight position rest → weight position rest < fuel)
        → SentGood k target sent (elim rest [
          | [] ↦ ok (record { messages = sent; error = none })
          | q ∷ more ↦ send_messages fuel n d false position (q ∷ more) sent
        ])
    next_message-SentGood fuel others none [] sent k target h enough = record {
      messages = [];
      returns =
          ap (λ (t : List Message). ok (record { messages = t; error = none }))
            (sym (append-nil sent));
      applied = sym h;
      bare = tt;
    }
    next_message-SentGood fuel others (some left) [] sent k target h enough = absurd h
    next_message-SentGood fuel others position (q ∷ more) sent k target h enough =
        others position (q ∷ more) sent k target h
          (enough (weight_positive k position q more target h))

    send_later-SentGood :
        (fuel : ℕ) (position : Option (List AllowedIp)) (peers : List Peer) (sent : List Message)
        (k target : K)
        → Remaining apply k position peers target
        → weight position peers < fuel
        → SentGood k target sent (send_messages fuel n d false position peers sent)
    unfolding send_messages
    send_later-SentGood zero position peers sent k target h enough = absurd (omega (arith, enough))
    send_later-SentGood (suc fuel) position peers sent k target h enough =
        let step = fill_message-Step later k position peers target h (omega (arith, room)) in
        let r = step.packed in
        let message : Message = record { device = later.attrs; parts = r.parts } in
        let good =
          next_message-SentGood fuel (send_later-SentGood fuel) r.position r.rest
            (sent ++ (message ∷ [])) (apply_parts apply k r.parts) target step.remains
            (λ some. omega (arith, step.progress (omega (arith, room)) some, enough)) in
        record {
          messages = message ∷ good.messages;
          returns =
              rw (start_message-later, step.returns, accepts sent message)
                (good.returns
                  ∙ ap (λ (t : List Message). ok (record { messages = t; error = none }))
                      (append_assoc sent (message ∷ []) good.messages));
          applied = good.applied;
          bare = (refl, good.bare);
        }

    -- The result of the whole call.
    pub record AllSent (m : Nest) (k : K) (o : Outcome Sent) : Type 0 where
      pub first : Message
      pub messages : List Message
      pub returns : o ≡ ok (record { messages = first ∷ messages; error = none })
      pub applied :
          apply_messages apply k (first ∷ messages) ≡ apply_parts apply k (map whole d.peers)
      pub device : first.device ≡ m.attrs
      pub bare : All (λ (m : Message). m.device ≡ Attr.ifname d.name ∷ []) messages

    send_first-AllSent :
        (fuel : ℕ) (k : K) (m : Nest)
        → start_message n d true ≡ ok m
        → m.len + n.attr_len 0 ≤ n.capacity
        → weight none d.peers + 1 < fuel
        → AllSent m k (send_messages fuel n d true none d.peers [])
    unfolding send_messages
    send_first-AllSent zero k m started fits enough = absurd (omega (arith, enough))
    send_first-AllSent (suc fuel) k m started fits enough =
        let target = apply_parts apply k (map whole d.peers) in
        let step = fill_message-Step m k none d.peers target refl fits in
        let r = step.packed in
        let message : Message = record { device = m.attrs; parts = r.parts } in
        let good =
          next_message-SentGood fuel (send_later-SentGood fuel) r.position r.rest (message ∷ [])
            (apply_parts apply k r.parts) target step.remains
            (λ some. omega (arith, step.lighter, enough)) in
        record {
          first = message;
          messages = good.messages;
          returns = rw (started, step.returns, accepts [] message) good.returns;
          applied = good.applied;
          device = refl;
          bare = good.bare;
        }

    kernel_set_device-open :
        (fuel : ℕ)
        → n.open_error ≡ none
        → kernel_set_device fuel n d ≡ send_messages fuel n d true none d.peers []
    unfolding kernel_set_device
    kernel_set_device-open fuel opened =
        ap
          (λ (o : Option ℕ). elim o as (λ o. Outcome Sent) [
            | some e ↦ ok (record { messages = []; error = some e })
            | none ↦ send_messages fuel n d true none d.peers []
          ])
          opened

    -- A kernel that answers no message with an error, and to which a resumed part of a peer, with its
    -- key and no flag to replace addresses, adds its addresses to those before, is brought by the messages to the state to which one message with
    -- every peer whole would bring it, only the first message describes the device, and
    -- kernel_set_device returns without an error: if the netlink library counts no longer payload as
    -- shorter, the buffer has room for a peer with an address behind the name of the device, and for
    -- the attributes of the device, and the loop may take two turns more than there are peers and
    -- addresses.
    pub kernel_set_device-AllSent :
        (fuel : ℕ) (k : K) (m : Nest)
        → n.open_error ≡ none
        → start_message n d true ≡ ok m
        → m.len + n.attr_len 0 ≤ n.capacity
        → weight none d.peers + 1 < fuel
        → AllSent m k (kernel_set_device fuel n d)
    kernel_set_device-AllSent fuel k m opened started fits enough =
        subst (AllSent m k) (sym (kernel_set_device-open fuel opened))
          (send_first-AllSent fuel k m started fits enough)
