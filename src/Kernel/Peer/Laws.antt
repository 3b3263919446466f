-- ===== src/Kernel/Peer/Laws.antt =====
-- What `put_peer_head` puts, and how long that is.
use router1_app.Prelude.{
  ℕ, ◌+◌, ◌≡◌, refl, Bool, true, false, not, ◌&&◌, Option, none, some, List, [], ◌∷◌, ◌++◌, arith,
  leb, truthy, ◌≤◌, bit_or, ◌≢◌,
}
use router1_app.Containers.{AllowedIp, Peer, Family, af_unspec, af_inet, af_inet6, other}
use router1_app.Containers.Flags.{has}
use router1_app.Containers.PeerFlag
use router1_app.Kernel.{Attr, Netlink, Nest, payload_len, put_check, sockaddr_len, addr_len}
use router1_app.Kernel.Peer.{
  ◌>>=◌, is_ip, put_check_if, flags_of, put_awg, when_flag, put_peer_head,
}
use router1_app.Kernel.Peer.Puts.{
  opt, head_attrs, ip_attrs, sizes, worst_head, worst_ip, PutsTo, sizes-append, put_check_if-PutsTo,
  put_check-PutsTo, bind-PutsTo, then_put, then_put_if,
}

module _ (n : Netlink) (mono : (i j : ℕ) → i ≤ j → n.attr_len i ≤ n.attr_len j) where
  late-PutsTo :
      (m : Nest) (flags : ℕ)
      → PutsTo n m (Attr.awg ∷ []) none
      → PutsTo n m (Attr.awg ∷ Attr.peer_flags flags ∷ []) (put_check n m (Attr.peer_flags flags))
  unfolding put_check
  late-PutsTo m flags big =
      let more = mono 0 4 (omega arith) in
      let bigger : leb (m.len + n.attr_len 4) n.capacity ≡ false = ground (arith, big, more) in
      rw (bigger, PutsTo) (omega (arith, big, more))

  -- A missing put of WGPEER_A_AWG is noticed by that of the flags.
  put_awg-PutsTo :
      (b c : Bool) (m : Nest) (flags : ℕ)
      → (b ≡ true → c ≡ true)
      → PutsTo n m
          (opt b Attr.awg ++ opt c (Attr.peer_flags flags))
          (put_check_if n c (Attr.peer_flags flags) (put_awg n b m))
  put_awg-PutsTo false c m flags h = put_check_if-PutsTo n c m (Attr.peer_flags flags)
  put_awg-PutsTo true false m flags h = absurd (false_true (h refl))
    where
      false_true : false ≢ true
      false_true e = cc
  put_awg-PutsTo true true m flags h =
      onward (put_check n m Attr.awg) (put_check-PutsTo n m Attr.awg)
    where
      xs : List Attr
      xs = Attr.awg ∷ Attr.peer_flags flags ∷ []

      onward :
          (o : Option Nest)
          → PutsTo n m (Attr.awg ∷ []) o
          → PutsTo n m xs (put_check n (elim o [ none ↦ m | some m' ↦ m' ]) (Attr.peer_flags flags))
      onward none big = late-PutsTo m flags big
      onward (some m') h =
          bind-PutsTo n m (Attr.awg ∷ []) (Attr.peer_flags flags ∷ []) (some m')
            (λ k. put_check n k (Attr.peer_flags flags)) h
            (λ k. put_check-PutsTo n k (Attr.peer_flags flags))

  flags_of-awg :
      (resumed : Bool) (p : Peer)
      → (has p.flags PeerFlag.has_awg && p.awg) ≡ true
      → truthy (flags_of resumed p) ≡ true
  unfolding flags_of
  flags_of-awg resumed p h =
      by_bits (has p.flags PeerFlag.remove_me)
        (not resumed && has p.flags PeerFlag.replace_allowedips) (has p.flags PeerFlag.has_awg) h
    where
      by_bits :
          (a b c : Bool)
          → (c && p.awg) ≡ true
          → truthy (bit_or (bit_or (when_flag a 1) (when_flag b 2)) (when_flag c 8)) ≡ true
      by_bits true true true h = refl
      by_bits true false true h = refl
      by_bits false true true h = refl
      by_bits false false true h = refl
      by_bits a b false h = absurd (false_true h)
        where
          false_true : false ≢ true
          false_true e = cc

  pub put_peer_head-PutsTo :
      (resumed : Bool) (p : Peer) (m0 : Nest)
      → PutsTo n m0 (head_attrs resumed p) (put_peer_head n resumed p m0)
  unfolding put_peer_head
  put_peer_head-PutsTo resumed p m0 =
      let first = not resumed in
      let psk = first && has p.flags PeerFlag.has_preshared_key in
      let known = first && is_ip p.endpoint.sa_family in
      let alive = first && has p.flags PeerFlag.has_persistent_keepalive_interval in
      let keepalive = Attr.persistent_keepalive_interval p.persistent_keepalive_interval in
      let flags = flags_of resumed p in
      let awg = has p.flags PeerFlag.has_awg && p.awg in
      let c = truthy flags in
      let t4 : List Attr = opt awg Attr.awg ++ opt c (Attr.peer_flags flags) in
      let t3 : List Attr = opt alive keepalive ++ t4 in
      let t2 : List Attr = opt known (Attr.endpoint p.endpoint) ++ t3 in
      let t1 : List Attr = opt psk (Attr.preshared_key p.preshared_key) ++ t2 in
      let f4 : Nest → Option Nest =
        λ m. put_check_if n c (Attr.peer_flags flags) (put_awg n awg m) in
      let f3 : Nest → Option Nest = λ m. put_check_if n alive keepalive m >>= f4 in
      let f2 : Nest → Option Nest = λ m. put_check_if n known (Attr.endpoint p.endpoint) m >>= f3 in
      let f1 : Nest → Option Nest =
        λ m. put_check_if n psk (Attr.preshared_key p.preshared_key) m >>= f2 in
      then_put n (Attr.public_key p.public_key) m0 t1 f1 (λ m1.
        then_put_if n psk (Attr.preshared_key p.preshared_key) m1 t2 f2 (λ m2.
          then_put_if n known (Attr.endpoint p.endpoint) m2 t3 f3 (λ m3.
            then_put_if n alive keepalive m3 t4 f4
              (λ m4. put_awg-PutsTo awg c m4 flags (flags_of-awg resumed p)))))

  opt_bound : (b : Bool) (a : Attr) (k : ℕ) → payload_len a ≤ k → sizes n (opt b a) ≤ n.attr_len k
  opt_bound true a k h = omega (arith, mono (payload_len a) k h)
  opt_bound false a k h = omega arith

  sockaddr_bound : (f : Family) → sockaddr_len f ≤ 28
  sockaddr_bound af_inet = omega arith
  sockaddr_bound af_inet6 = omega arith
  sockaddr_bound af_unspec = omega arith
  sockaddr_bound other = omega arith

  addr_bound : (f : Family) → addr_len f ≤ 16
  addr_bound af_inet = omega arith
  addr_bound af_inet6 = omega arith
  addr_bound af_unspec = omega arith
  addr_bound other = omega arith

  pub head_attrs_bound :
      (resumed : Bool) (p : Peer) → n.attr_len 0 + sizes n (head_attrs resumed p) ≤ worst_head n
  head_attrs_bound resumed p =
      let first = not resumed in
      let psk =
        opt (first && has p.flags PeerFlag.has_preshared_key)
          (Attr.preshared_key p.preshared_key) in
      let addr = opt (first && is_ip p.endpoint.sa_family) (Attr.endpoint p.endpoint) in
      let alive =
        opt (first && has p.flags PeerFlag.has_persistent_keepalive_interval)
          (Attr.persistent_keepalive_interval p.persistent_keepalive_interval) in
      let flags = flags_of resumed p in
      let advanced = opt (has p.flags PeerFlag.has_awg && p.awg) Attr.awg in
      let marked = opt (truthy flags) (Attr.peer_flags flags) in
      omega (
        arith,
        sizes-append n psk (addr ++ (alive ++ (advanced ++ marked))),
        sizes-append n addr (alive ++ (advanced ++ marked)),
        sizes-append n alive (advanced ++ marked),
        sizes-append n advanced marked,
        opt_bound (first && has p.flags PeerFlag.has_preshared_key)
            (Attr.preshared_key p.preshared_key) 32 (omega arith),
        opt_bound (first && is_ip p.endpoint.sa_family) (Attr.endpoint p.endpoint) 28
            (sockaddr_bound p.endpoint.sa_family),
        opt_bound (first && has p.flags PeerFlag.has_persistent_keepalive_interval)
            (Attr.persistent_keepalive_interval p.persistent_keepalive_interval) 2 (omega arith),
        opt_bound (has p.flags PeerFlag.has_awg && p.awg) Attr.awg 0 (omega arith),
        opt_bound (truthy flags) (Attr.peer_flags flags) 4 (omega arith),
      )

  pub ip_attrs_bound : (a : AllowedIp) → n.attr_len 0 + sizes n (ip_attrs a) ≤ worst_ip n
  ip_attrs_bound a = omega (
    arith,
    sizes-append n (opt (is_ip a.family) (Attr.ipaddr a)) (Attr.cidr_mask a.cidr ∷ []),
    opt_bound (is_ip a.family) (Attr.ipaddr a) 16 (addr_bound a.family),
  )
