-- ===== src/Kernel/Get/Laws.antt =====
-- What a device that `kernel_get_device` returns satisfies, whatever the kernel answers.
use mathlib.Core.Path.{subst}
use router1_app.Prelude.{
  leb, Bool-cases, inl, inr, ◌≡◌, refl, ◌<◌, Bool, true, false, List, [], ◌∷◌, All, arith, length,
  ◌==◌, if◌then◌else◌, Option, none, some, ◌++◌, Bytes, set, length-take, All-append, ℕ, Outcome,
  ◌>>=◌, ok,
}
use router1_app.Containers.{Peer, Device, zero_peer, zero_device}
use router1_app.Containers.Flags.{has}
use router1_app.Containers.PeerFlag
use router1_app.Kernel.Coalesce.{coalesce_peers}
use router1_app.Kernel.Coalesce.Keys.{HasKey, IfOk, IfOk-bind, coalesce_peers-HasKey}
use router1_app.Kernel.Received.{
  PeerAttr, Payload, Answer, cb_ok, cb_error, each, parse_peer, DeviceAttr, parse_peers, ifindex,
  ifname, private_key, device_public_key, listen_port, fwmark, jc, jmin, jmax, s1, s2, s3, s4, h1,
  h2, h3, h4, i1, i2, i3, i4, i5, peers, other_device_attr,
}
use router1_app.Kernel.Received.Laws.{WhenOk, each-WhenOk, each-first, Sized, parse_peer-Sized}
use router1_app.Kernel.Get.{
  number_if, magic_header, text_if, nul_string, parse_device, read_device_cb, Attempt, GetResult,
  get_attempt, tries_again, get_attempts, kernel_get_device, unopened, answered, got, error,
}

-- Every peer has a key, the keys of the device have 32 bytes, and its name fits IFNAMSIZ.
abbrev pub IsRead : Device → Type 0
IsRead d =
    All HasKey d.peers
    × (length d.private_key ≡ 32)
    × (length d.public_key ≡ 32)
    × (length d.name < 16)

parse_peers-IsRead :
    (l : Payload) (attrs : List PeerAttr) (d : Device)
    → IsRead d
    → WhenOk IsRead (parse_peers l attrs d)
unfolding parse_peers
parse_peers-IsRead l attrs d (keyed, key, public, name) =
    onward (each (parse_peer l) attrs zero_peer).0
      (each-first Sized (parse_peer l) (parse_peer-Sized l) attrs zero_peer refl)
  where
    onward :
        (p : Peer)
        → Sized p
        → WhenOk IsRead (
          record d { peers = d.peers ++ (p ∷ []) },
          if has p.flags PeerFlag.has_public_key then cb_ok else cb_error,
        )
    onward p sized = elim (Bool-cases (has p.flags PeerFlag.has_public_key)) [
      | inl present ↦
          rw present
            (All-append HasKey d.peers (p ∷ []) keyed ((present, sized), tt), key, public, name)
      | inr missing ↦ rw missing tt
    ]

number_if-IsRead :
    (b : Bool) (d' d : Device)
    → (b ≡ true → IsRead d')
    → IsRead d
    → WhenOk IsRead (number_if b d' d)
number_if-IsRead true d' d h k = h refl
number_if-IsRead false d' d h k = k

text_if-IsRead :
    (set : Bytes → Device) (o : Option Bytes) (d : Device)
    → ((text : Bytes) → IsRead (set text))
    → IsRead d
    → WhenOk IsRead (text_if set o d)
text_if-IsRead set none d h k = k
text_if-IsRead set (some text) d h k = h text

parse_device-IsRead :
    (l : Payload) (a : DeviceAttr) (d : Device) → IsRead d → WhenOk IsRead (parse_device l a d)
unfolding parse_device
parse_device-IsRead l (ifindex b) d h = number_if-IsRead (l.is_u32 b) _ d (λ e. h) h
parse_device-IsRead l (ifname b) d (keyed, key, public, name) =
    number_if-IsRead (l.is_string b) _ d
      (λ e. (keyed, key, public, omega (arith, length-take 15 (l.get_str b))))
      (keyed, key, public, name)
parse_device-IsRead l (private_key b) d (keyed, key, public, name) =
    number_if-IsRead (length b == 32) _ d (λ e. (keyed, ground arith, public, name))
      (keyed, key, public, name)
parse_device-IsRead l (device_public_key b) d (keyed, key, public, name) =
    number_if-IsRead (length b == 32) _ d (λ e. (keyed, key, ground arith, name))
      (keyed, key, public, name)
parse_device-IsRead l (listen_port b) d h = number_if-IsRead (l.is_u16 b) _ d (λ e. h) h
parse_device-IsRead l (fwmark b) d h = number_if-IsRead (l.is_u32 b) _ d (λ e. h) h
parse_device-IsRead l (peers nests) d h =
    each-WhenOk IsRead (parse_peers l) (parse_peers-IsRead l) nests d h
parse_device-IsRead l (jc b) d h = number_if-IsRead (l.is_u16 b) _ d (λ e. h) h
parse_device-IsRead l (jmin b) d h = number_if-IsRead (l.is_u16 b) _ d (λ e. h) h
parse_device-IsRead l (jmax b) d h = number_if-IsRead (l.is_u16 b) _ d (λ e. h) h
parse_device-IsRead l (s1 b) d h = number_if-IsRead (l.is_u16 b) _ d (λ e. h) h
parse_device-IsRead l (s2 b) d h = number_if-IsRead (l.is_u16 b) _ d (λ e. h) h
parse_device-IsRead l (s3 b) d h = number_if-IsRead (l.is_u16 b) _ d (λ e. h) h
parse_device-IsRead l (s4 b) d h = number_if-IsRead (l.is_u16 b) _ d (λ e. h) h
parse_device-IsRead l (h1 b) d h = text_if-IsRead _ (magic_header l b) d (λ text. h) h
parse_device-IsRead l (h2 b) d h = text_if-IsRead _ (magic_header l b) d (λ text. h) h
parse_device-IsRead l (h3 b) d h = text_if-IsRead _ (magic_header l b) d (λ text. h) h
parse_device-IsRead l (h4 b) d h = text_if-IsRead _ (magic_header l b) d (λ text. h) h
parse_device-IsRead l (i1 b) d h = text_if-IsRead _ (nul_string l b) d (λ text. h) h
parse_device-IsRead l (i2 b) d h = text_if-IsRead _ (nul_string l b) d (λ text. h) h
parse_device-IsRead l (i3 b) d h = text_if-IsRead _ (nul_string l b) d (λ text. h) h
parse_device-IsRead l (i4 b) d h = text_if-IsRead _ (nul_string l b) d (λ text. h) h
parse_device-IsRead l (i5 b) d h = text_if-IsRead _ (nul_string l b) d (λ text. h) h
parse_device-IsRead l other_device_attr d h = h

abbrev Got : GetResult → Type 0
Got (got d) = IsRead d
Got (error e) = Unit

get_attempt-Got : (l : Payload) (a : Attempt) → IfOk Got (get_attempt l a)
unfolding get_attempt read_device_cb
get_attempt-Got l (unopened e) = tt
get_attempt-Got l (answered messages failure) =
    by_answer (each (read_device_cb l) messages zero_device)
      (each-WhenOk IsRead (read_device_cb l)
        (λ attrs d h. each-WhenOk IsRead (parse_device l) (parse_device-IsRead l) attrs d h)
        messages zero_device (tt, refl, refl, omega arith))
      failure
  where
    by_answer :
        (r : Device × Answer)
        → WhenOk IsRead r
        → (failure : Option ℕ)
        → IfOk Got (elim r.1 [
          | cb_error ↦ ok (error 22)
          | cb_ok ↦ elim failure [
            | some e ↦ ok (error e)
            | none ↦ coalesce_peers r.0.peers >>= λ whole. ok (got (record r.0 { peers = whole }))
          ]
        ])
    by_answer (d, cb_error) h failure = tt
    by_answer (d, cb_ok) h (some e) = tt
    by_answer (d, cb_ok) (keyed, key, public, name) none =
        IfOk-bind (All HasKey) Got (coalesce_peers d.peers) _ (coalesce_peers-HasKey d.peers keyed)
          (λ whole found. (found, key, public, name))

get_attempts-Got : (l : Payload) (attempts : List Attempt) → IfOk Got (get_attempts l attempts)
unfolding get_attempts
get_attempts-Got l [] = tt
get_attempts-Got l (a ∷ attempts) =
    IfOk-bind Got Got (get_attempt l a) _ (get_attempt-Got l a)
      (λ r h. by_test (tries_again a r) (get_attempts l attempts) r (get_attempts-Got l attempts) h)
  where
    by_test :
        (again : Bool) (m : Outcome GetResult) (r : GetResult)
        → IfOk Got m
        → Got r
        → IfOk Got (if again then m else ok r)
    by_test true m r h k = h
    by_test false m r h k = k

kernel_get_device-Got :
    (l : Payload) (iface : Bytes) (attempts : List Attempt)
    → IfOk Got (kernel_get_device l iface attempts)
unfolding kernel_get_device
kernel_get_device-Got l iface attempts =
    by_name (leb 16 (length iface)) (get_attempts l attempts) (get_attempts-Got l attempts)
  where
    by_name :
        (long : Bool) (m : Outcome GetResult)
        → IfOk Got m
        → IfOk Got (if long then ok (error 36) else m)
    by_name true m h = tt
    by_name false m h = h

-- In a device that kernel_get_device returns every peer has a public key of 32 bytes, under its flag,
-- also where several parts became one peer; the keys of the device have 32 bytes, and its name is
-- shorter than IFNAMSIZ: whatever attributes the kernel sends.
pub kernel_get_device-IsRead :
    (l : Payload) (iface : Bytes) (attempts : List Attempt) (d : Device)
    → kernel_get_device l iface attempts ≡ ok (got d)
    → IsRead d
kernel_get_device-IsRead l iface attempts d e =
    subst (IfOk Got) e (kernel_get_device-Got l iface attempts)
