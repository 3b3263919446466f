-- ===== src/Tests/Kernel.antt =====
-- The messages to and from the kernel at concrete inputs.
use mathlib.Core.List.{append_assoc}
use router1_app.Prelude.{
  ◌^◌, ◌==◌, if◌then◌else◌, ℕ, ◌≡◌, ◌≤◌, ◌+◌, ◌*◌, ◌/◌, refl, ap, ◌∙◌, true, false, none, some,
  List, [], ◌∷◌, ◌++◌, map, arith, length, take, codes, Outcome, ok, fail, exit, fault, hang,
  replicate, ◌^◌, Bytes,
}
use router1_app.Containers.{
  Family, AllowedIp, Peer, Device, zero_peer, zero_device, af_inet, af_unspec, af_inet6,
}
use router1_app.Kernel.{Attr, Part, Netlink, Nest, family, ipaddr, cidr_mask}
use router1_app.Kernel.Peer.Puts.{ip_attrs}
use router1_app.Kernel.Set.{Sent, start_message, kernel_set_device}
use router1_app.Kernel.Set.Peers.{part_of, resumed_part}
use router1_app.Kernel.Set.Send.{AllSent, kernel_set_device-AllSent}
use router1_app.Kernel.Coalesce.{coalesce_peers}
use router1_app.Kernel.Coalesce.Laws.{Group, parts_of, joined, coalesce_peers-joined}
use router1_app.Setconf.{memcmp}
use router1_app.Kernel.Received.{Payload, PeerAttr, DeviceAttr, family, ipaddr, cidr_mask}
use router1_app.Kernel.Get.{Attempt, answered, got, kernel_get_device}
use router1_app.Kernel.Get.Laws.{IsRead, kernel_get_device-IsRead}
use router1_app.Tests.Setup.{test_key, address}

-- A kernel that keeps each address with the key it came under.
abbrev Kept : Type 0
Kept = List (List Attr × List Attr)

abbrev under : List Attr → List (List Attr) → Kept
under h [] = []
under h (a ∷ ips) = (h, a) ∷ under h ips

abbrev keep : Kept → Part → Kept
keep k part = k ++ under (take 1 part.attrs) part.allowedips

under_append :
    (h : List Attr) (xs ys : List AllowedIp)
    → under h (map ip_attrs xs) ++ under h (map ip_attrs ys) ≡ under h (map ip_attrs (xs ++ ys))
under_append h [] ys = refl
under_append h (x ∷ xs) ys = ap (λ (t : Kept). (h, ip_attrs x) ∷ t) (under_append h xs ys)

keep_merges :
    (k : Kept) (p : Peer) (xs ys : List AllowedIp)
    → keep (keep k (part_of false p xs)) (resumed_part p ys) ≡ keep k (part_of false p (xs ++ ys))
keep_merges k p xs ys =
    append_assoc k (under h (map ip_attrs xs)) (under h (map ip_attrs ys))
    ∙ ap (λ (t : Kept). k ++ t) (under_append h xs ys)
  where
    h : List Attr
    h = Attr.public_key p.public_key ∷ []

-- A library that pads to four bytes, with a buffer for little more than one peer.
abbrev small : Netlink
small = record {
  version = 2;
  capacity = 212;
  header_len = 20;
  attr_len = λ n. 4 + (n + 3) / 4 * 4;
  open_error = none;
  error = λ sent m. none;
}

small_mono : (i j : ℕ) → i ≤ j → small.attr_len i ≤ small.attr_len j
small_mono i j h = omega (arith, h)

abbrev test_ip : ℕ → AllowedIp
test_ip n = record { family = af_inet; ip = 10 ∷ 0 ∷ 0 ∷ n ∷ []; cidr = 32 }

abbrev two_peers : Device
two_peers = record zero_device {
  name = codes "wg0";
  peers =
      record zero_peer {
        public_key = test_key;
        allowedips = test_ip 1 ∷ test_ip 2 ∷ test_ip 3 ∷ test_ip 4 ∷ test_ip 5 ∷ [];
      }
      ∷ record zero_peer { allowedips = test_ip 6 ∷ [] }
      ∷ [];
}

abbrev started : Nest
started = record { attrs = Attr.ifname (codes "wg0") ∷ []; len = 28 }

two_peers-started : start_message small two_peers true ≡ ok started
unfolding start_message
two_peers-started = refl

kernel_set_device-AllSent_example :
    AllSent keep keep_merges small small_mono
      (λ sent m. refl)
      two_peers
      (omega arith)
      started
      []
      (kernel_set_device 20 small two_peers)
kernel_set_device-AllSent_example =
    kernel_set_device-AllSent keep keep_merges small small_mono (λ sent m. refl) two_peers
      (omega arith) 20 [] started refl two_peers-started (omega arith) (omega arith)

-- The two peers take more than one message.
abbrev count_messages : Outcome Sent → ℕ
count_messages (ok sent) = length sent.messages
count_messages fail = 0
count_messages exit = 0
count_messages fault = 0
count_messages hang = 0

two_peers-split : count_messages (kernel_set_device 20 small two_peers) ≡ 2
unfolding kernel_set_device
two_peers-split = refl

-- Two texts of 5000 bytes for I1 and I2, which the configuration reader accepts, do not fit a buffer
-- of 8192 bytes, and the puts without a test write behind it.
abbrev usual : Netlink
usual = record small { capacity = 8192 }

abbrev long_texts : Device
long_texts = record two_peers {
  flags = 2 ^ 16 + 2 ^ 17;
  i1 = some (replicate 5000 b'a');
  i2 = some (replicate 5000 b'b');
}

long_texts-fault : kernel_set_device 20 usual long_texts ≡ fault
unfolding kernel_set_device
long_texts-fault = refl

-- A peer that came in three parts, and another one.
abbrev test_groups : List Group
test_groups =
    record {
      head = record zero_peer { public_key = test_key; allowedips = test_ip 1 ∷ [] };
      more =
          record zero_peer { public_key = test_key; allowedips = test_ip 2 ∷ [] }
          ∷ record zero_peer { public_key = test_key; allowedips = test_ip 3 ∷ [] }
          ∷ [];
    }
    ∷ record { head = zero_peer; more = [] }
    ∷ []

coalesce_peers-joined_example : coalesce_peers (parts_of test_groups) ≡ ok (map joined test_groups)
unfolding memcmp
coalesce_peers-joined_example =
    coalesce_peers-joined test_groups ((((refl, omega arith), ((refl, omega arith), tt))), (tt, tt))
      (refl, (tt, tt))

-- Payloads of one byte for numbers.
abbrev first_byte : Bytes → ℕ
first_byte [] = 0
first_byte (b ∷ payload) = b

abbrev family_of : ℕ → Family
family_of n = if n == 2 then af_inet else if n == 10 then af_inet6 else af_unspec

abbrev payloads : Payload
payloads = record {
  is_u8 = λ b. true;
  is_u16 = λ b. true;
  is_u32 = λ b. true;
  is_u64 = λ b. true;
  is_string = λ b. true;
  is_nul_string = λ b. true;
  is_flag = λ b. true;
  number = first_byte;
  get_str = λ b. b;
  family_of = family_of;
  sockaddr_of = λ b. record { sa_family = af_inet; sa_data = b };
  sizeof_sockaddr = 16;
  sizeof_sockaddr_in = 16;
  sizeof_sockaddr_in6 = 28;
  sizeof_timespec = 16;
  tv_sec = first_byte;
  tv_nsec = first_byte;
}

abbrev ip_attempt : ℕ → ℕ → Attempt
ip_attempt bits address =
    answered
      ((DeviceAttr.peers (
            (PeerAttr.public_key test_key
              ∷ PeerAttr.allowedips (
                  (family (2 ∷ [])
                    ∷ ipaddr (10 ∷ 0 ∷ 0 ∷ address ∷ [])
                    ∷ cidr_mask (bits ∷ [])
                    ∷ [])
                  ∷ [])
              ∷ [])
            ∷ [])
          ∷ [])
        ∷ [])
      none

abbrev read_device : ℕ → Device
read_device bits = record zero_device {
  peers =
      record zero_peer {
        flags = 4;
        public_key = test_key;
        allowedips = record { family = af_inet; ip = 10 ∷ 0 ∷ 0 ∷ 1 ∷ []; cidr = bits } ∷ [];
      }
      ∷ [];
}

-- The second attempt is read, where the first was interrupted.
test_attempts-read :
    kernel_get_device payloads (codes "wg0") (answered [] (some 4) ∷ ip_attempt 24 1 ∷ [])
    ≡ ok (got (read_device 24))
unfolding kernel_get_device
test_attempts-read = refl

kernel_get_device-IsRead_example : IsRead (read_device 24)
kernel_get_device-IsRead_example =
    kernel_get_device-IsRead payloads (codes "wg0") (answered [] (some 4) ∷ ip_attempt 24 1 ∷ [])
      (read_device 24) test_attempts-read

-- A prefix that does not fit its family is an error of the inner callback, which the outer one does
-- not pass on: the device is returned with it.
bad_prefix-read :
    kernel_get_device payloads (codes "wg0") (ip_attempt 200 1 ∷ []) ≡ ok (got (read_device 200))
unfolding kernel_get_device
bad_prefix-read = refl
