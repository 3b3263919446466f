-- ===== src/Kernel/Peer/Puts.antt =====
-- The checked puts of `kernel_set_device`: the attributes that a chain puts, or that they do not fit.
use mathlib.Core.Path.{sym}
use mathlib.Core.List.{append_assoc, append-nil}
use router1_app.Prelude.{
  ℕ, ◌+◌, ◌<◌, ◌≡◌, refl, Bool, true, false, not, ◌&&◌, Option, none, some, List, [], ◌∷◌, ◌++◌,
  arith, leb, Bool-cases, inl, inr, truthy, ◌⊎◌,
}
use router1_app.Containers.{AllowedIp, Peer}
use router1_app.Containers.Flags.{has}
use router1_app.Containers.PeerFlag
use router1_app.Kernel.{Attr, Netlink, Nest, payload_len, put_check, nest_start_check}
use router1_app.Kernel.Peer.{◌>>=◌, is_ip, put_check_if, flags_of, put_allowedip}

-- The attribute, if the test is true.
abbrev pub opt : Bool → Attr → List Attr
opt true a = a ∷ []
opt false a = []

-- The attributes of a peer before its addresses, and those of an address.
abbrev pub head_attrs : Bool → Peer → List Attr
head_attrs resumed p =
    let first = not resumed in
    let flags = flags_of resumed p in
    (Attr.public_key p.public_key ∷ [])
    ++ (opt (first && has p.flags PeerFlag.has_preshared_key) (Attr.preshared_key p.preshared_key)
        ++ (opt (first && is_ip p.endpoint.sa_family) (Attr.endpoint p.endpoint)
            ++ (opt (first && has p.flags PeerFlag.has_persistent_keepalive_interval)
                  (Attr.persistent_keepalive_interval p.persistent_keepalive_interval)
                ++ (opt (has p.flags PeerFlag.has_awg && p.awg) Attr.awg
                    ++ opt (truthy flags) (Attr.peer_flags flags)))))

abbrev pub ip_attrs : AllowedIp → List Attr
ip_attrs a =
    (Attr.family a.family ∷ [])
    ++ (opt (is_ip a.family) (Attr.ipaddr a) ++ (Attr.cidr_mask a.cidr ∷ []))

module _ (n : Netlink) where
  abbrev pub size : Attr → ℕ
  size a = n.attr_len (payload_len a)

  abbrev pub sizes : List Attr → ℕ
  sizes [] = 0
  sizes (a ∷ xs) = size a + sizes xs

  -- The most that the attributes of a peer and those of an address take, with their own headers.
  abbrev pub worst_head : ℕ
  worst_head =
      n.attr_len 0
      + n.attr_len 32
      + n.attr_len 32
      + n.attr_len 28
      + n.attr_len 2
      + n.attr_len 0
      + n.attr_len 4

  abbrev pub worst_ip : ℕ
  worst_ip = n.attr_len 0 + n.attr_len 2 + n.attr_len 16 + n.attr_len 1

  pub sizes-append : (xs ys : List Attr) → sizes (xs ++ ys) ≡ sizes xs + sizes ys
  sizes-append [] ys = omega arith
  sizes-append (x ∷ xs) ys = omega (arith, sizes-append xs ys)

  -- Either all attributes were put behind those of m, or they do not fit behind it.
  abbrev pub PutsTo : Nest → List Attr → Option Nest → Type 0
  PutsTo m xs none = n.capacity < m.len + sizes xs
  PutsTo m xs (some m') = (m'.attrs ≡ m.attrs ++ xs) × (m'.len ≡ m.len + sizes xs)

  pub put_check-PutsTo : (m : Nest) (a : Attr) → PutsTo m (a ∷ []) (put_check n m a)
  unfolding put_check
  put_check-PutsTo m a = elim (Bool-cases (leb (m.len + size a) n.capacity)) [
    | inl fits ↦ rw (fits, PutsTo) (refl, omega arith)
    | inr big ↦ rw (big, PutsTo) (ground (arith, big))
  ]

  pub put_check_if-PutsTo :
      (b : Bool) (m : Nest) (a : Attr) → PutsTo m (opt b a) (put_check_if n b a m)
  put_check_if-PutsTo true m a = put_check-PutsTo m a
  put_check_if-PutsTo false m a = (sym (append-nil m.attrs), omega arith)

  pub bind-PutsTo :
      (m : Nest) (xs ys : List Attr) (o : Option Nest) (f : Nest → Option Nest)
      → PutsTo m xs o
      → ((m' : Nest) → PutsTo m' ys (f m'))
      → PutsTo m (xs ++ ys) (o >>= f)
  bind-PutsTo m xs ys none f h k = omega (arith, h, sizes-append xs ys)
  bind-PutsTo m xs ys (some m') f (same, size) k = onward (f m') (k m')
    where
      onward : (r : Option Nest) → PutsTo m' ys r → PutsTo m (xs ++ ys) r
      onward none big = omega (arith, big, size, sizes-append xs ys)
      onward (some m'') (same', size') = (
        rw (same', same, append_assoc m.attrs xs ys) refl,
        omega (arith, size, size', sizes-append xs ys),
      )

  pub then_put :
      (a : Attr) (m : Nest) (ys : List Attr) (f : Nest → Option Nest)
      → ((m' : Nest) → PutsTo m' ys (f m'))
      → PutsTo m ((a ∷ []) ++ ys) (put_check n m a >>= f)
  then_put a m ys f = bind-PutsTo m (a ∷ []) ys (put_check n m a) f (put_check-PutsTo m a)

  pub then_put_if :
      (b : Bool) (a : Attr) (m : Nest) (ys : List Attr) (f : Nest → Option Nest)
      → ((m' : Nest) → PutsTo m' ys (f m'))
      → PutsTo m (opt b a ++ ys) (put_check_if n b a m >>= f)
  then_put_if b a m ys f =
      bind-PutsTo m (opt b a) ys (put_check_if n b a m) f (put_check_if-PutsTo b m a)

  -- An empty nest behind so many bytes.
  abbrev pub nest_at : ℕ → Nest
  nest_at len = record { attrs = []; len = len + n.attr_len 0 }

  pub nest_start_check-cases :
      (len : ℕ)
      → ((nest_start_check n len ≡ none) × (n.capacity < len + n.attr_len 0))
        ⊎ (nest_start_check n len ≡ some (nest_at len))
  unfolding nest_start_check
  nest_start_check-cases len = elim (Bool-cases (leb (len + n.attr_len 0) n.capacity)) [
    | inl fits ↦ inr (rw fits refl)
    | inr big ↦ inl (rw big refl, ground (arith, big))
  ]

  pub put_allowedip-PutsTo :
      (len : ℕ) (a : AllowedIp) → PutsTo (nest_at len) (ip_attrs a) (put_allowedip n len a)
  unfolding put_allowedip nest_start_check
  put_allowedip-PutsTo len a = elim (Bool-cases (leb (len + n.attr_len 0) n.capacity)) [
    | inr big ↦ rw (big, PutsTo) (ground (arith, big))
    | inl fits ↦ rw fits (
        bind-PutsTo m0 (Attr.family a.family ∷ []) _ (put_check n m0 (Attr.family a.family)) _
          (put_check-PutsTo m0 (Attr.family a.family))
          (λ m1.
            bind-PutsTo m1 (opt known (Attr.ipaddr a)) _ (put_check_if n known (Attr.ipaddr a) m1) _
              (put_check_if-PutsTo known m1 (Attr.ipaddr a))
              (λ m2. put_check-PutsTo m2 (Attr.cidr_mask a.cidr))))
  ]
    where
      known : Bool
      known = is_ip a.family

      m0 : Nest
      m0 = nest_at len
