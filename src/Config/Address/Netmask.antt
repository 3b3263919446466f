-- ===== src/Config/Address/Netmask.antt =====
-- What `validate_netmask` tests: the bits of the address behind the prefix.
use native.Mathlib.Nat.{
  mul-add-mod_self_left, mod-eq_of_lt, div-add-mod, mul_assoc, mul_left_comm, mul_right_comm,
  mod-lt, pow-suc, one-le-pow,
}
use router1_app.Prelude.{
  ℕ, zero, suc, ◌+◌, ◌-◌, ◌*◌, ◌/◌, ◌%◌, ◌^◌, ◌<◌, bit_and, ◌≡◌, refl, true, not, arith, ◌==◌,
  truthy, Bytes, ◌≤◌, ap, ◌∙◌, Bool, get_or, inl, inr, ltb, leb, Bool-cases,
}
use router1_app.Prelude.Bits.{all_below, all_below-elim, bit_and_mask}
use mathlib.Core.Path.{subst}
use router1_app.Containers.{Family, AllowedIp}
use router1_app.Containers.Valid.{IsAllowedIp, prefix_size}
use router1_app.Config.Address.{word32, netmask_loop, validate_netmask}

-- The number of the first n words of an address.
unfoldable pub number_of : Bytes → ℕ → ℕ
unfolding word32
number_of ip zero = 0
number_of ip (suc i) = number_of ip i * 2 ^ 32 + word32 ip i

abbrev mask_table : ℕ → Bool
mask_table k = (2 ^ 32 - 1) / 2 ^ k == 2 ^ (32 - k) - 1

mask_table_lem : all_below 33 mask_table ≡ true
unfolding all_below
mask_table_lem = refl

mask_eq : (k : ℕ) → k < 33 → (2 ^ 32 - 1) / 2 ^ k ≡ 2 ^ (32 - k) - 1
mask_eq k h = ground (arith, all_below-elim 33 mask_table k mask_table_lem h)

-- The test of one word.
word_test :
    (w k : ℕ) → k < 33 → truthy (bit_and w ((2 ^ 32 - 1) / 2 ^ k)) ≡ not (w % 2 ^ (32 - k) == 0)
word_test w k h = rw (mask_eq k h, bit_and_mask (32 - k) w) (ground arith)

pow_eq : {a b : ℕ} → a ≡ b → 2 ^ a ≡ 2 ^ b
pow_eq e = ap (λ (t : ℕ). 2 ^ t) e

pow_add : (a b : ℕ) → 2 ^ (a + b) ≡ 2 ^ a * 2 ^ b
pow_add zero b = pow_eq {a = zero + b} {b = b} (omega arith) ∙ omega arith
pow_add (suc a) b =
    pow_eq {a = suc a + b} {b = suc (a + b)} (omega arith)
    ∙ omega (
      arith,
      pow-suc 2 (a + b),
      pow_add a b,
      pow-suc 2 a,
      ap (λ (t : ℕ). t * 2 ^ b) (pow-suc 2 a),
      mul_right_comm (2 ^ a) 2 (2 ^ b),
    )

low_word : (n w k : ℕ) → k < 33 → (n * 2 ^ 32 + w) % 2 ^ (32 - k) ≡ w % 2 ^ (32 - k)
low_word n w k h =
    let split : 2 ^ 32 ≡ 2 ^ (32 - k) * 2 ^ k =
      pow_eq {a = 32} {b = 32 - k + k} (omega arith) ∙ pow_add (32 - k) k in
    let swap : n * (2 ^ (32 - k) * 2 ^ k) ≡ 2 ^ (32 - k) * (n * 2 ^ k) =
      mul_left_comm n (2 ^ (32 - k)) (2 ^ k) in
    ap (λ (t : ℕ). (n * t + w) % 2 ^ (32 - k)) split
    ∙ ap (λ (t : ℕ). (t + w) % 2 ^ (32 - k)) swap
    ∙ mul-add-mod_self_left (2 ^ (32 - k)) (n * 2 ^ k) w

two_words : (n w m : ℕ) → w < 2 ^ 32 → 0 < m → (n * 2 ^ 32 + w) % (2 ^ 32 * m) ≡ n % m * 2 ^ 32 + w
two_words n w m h k =
    let r = n % m in
    let below : r < m = mod-lt n k in
    let split : n * 2 ^ 32 + w ≡ 2 ^ 32 * m * (n / m) + (r * 2 ^ 32 + w) =
      omega (arith, div-add-mod n m, mul_assoc (2 ^ 32) m (n / m)) in
    ap (λ (t : ℕ). t % (2 ^ 32 * m)) split
    ∙ mul-add-mod_self_left (2 ^ 32 * m) (n / m) (r * 2 ^ 32 + w)
    ∙ mod-eq_of_lt (omega arith)

module _ (ip : Bytes) (bytes : (i : ℕ) → get_or ip i 0 < 256) where
  word32-lt : (i : ℕ) → word32 ip i < 2 ^ 32
  unfolding word32
  word32-lt i =
      omega (arith, bytes (4 * i), bytes (4 * i + 1), bytes (4 * i + 2), bytes (4 * i + 3))

  netmask_loop-whole : (cidr n : ℕ) → 32 * n ≤ cidr → netmask_loop ip cidr n ≡ true
  unfolding netmask_loop
  netmask_loop-whole cidr zero h = refl
  netmask_loop-whole cidr (suc n) h = ground (arith, h)

  netmask_loop-number :
      (cidr n : ℕ)
      → cidr ≤ 32 * n
      → netmask_loop ip cidr n ≡ (number_of ip n % 2 ^ (32 * n - cidr) == 0)
  unfolding netmask_loop number_of
  netmask_loop-number cidr zero h = ground arith
  netmask_loop-number cidr (suc n) h = elim (Bool-cases (leb (32 * (n + 1)) cidr)) [
    | inl whole ↦
        let e : 32 * suc n - cidr ≡ 0 = ground (arith, whole) in rw (whole, e) (ground arith)
    | inr partial ↦ elim (Bool-cases (ltb (32 * n) cidr)) [
      | inl inside ↦
          let k = cidr - 32 * n in
          let k_lt : k < 33 = ground (arith, partial, inside, h) in
          let e : 32 * suc n - cidr ≡ 32 - k = ground (arith, inside, h) in
          let rest = netmask_loop-whole cidr n (ground (arith, inside)) in
          rw (partial, inside, e, rest)
            (rw (low_word (number_of ip n) (word32 ip n) k k_lt, word_test (word32 ip n) k k_lt)
              (ground arith))
      | inr outside ↦
          let m = 32 * n - cidr in
          let e : 2 ^ (32 * suc n - cidr) ≡ 2 ^ 32 * 2 ^ m =
            pow_eq {a = 32 * suc n - cidr} {b = 32 + m} (ground (arith, outside)) ∙ pow_add 32 m in
          let m_pos : 0 < 2 ^ m = one-le-pow m 2 (omega arith) in
          let w_lt = word32-lt n in
          rw (partial, outside, e)
            (ground (
              arith,
              two_words (number_of ip n) (word32 ip n) (2 ^ m) w_lt m_pos,
              bit_and_mask 32 (word32 ip n),
              netmask_loop-number cidr n (ground (arith, outside)),
            ))
    ]
  ]

-- A well-formed address of IPv4 or IPv6, whose elements are bytes, passes exactly if its number is a
-- multiple of 2 ^ (width - prefix), that is, if all bits behind the prefix are zero.
pub validate_netmask_lem :
    (a : AllowedIp)
    → IsAllowedIp a
    → ((i : ℕ) → get_or a.ip i 0 < 256)
    → validate_netmask a
      ≡ (number_of a.ip (prefix_size a.family / 32) % 2 ^ (prefix_size a.family - a.cidr) == 0)
unfolding validate_netmask
validate_netmask_lem a good bytes = elim good.known [
  | inl four ↦
      let fits : a.cidr ≤ 32 * 1 =
        subst (λ (f : Family). a.cidr ≤ prefix_size f) four good.prefix in
      rw (four, validate_netmask) (netmask_loop-number a.ip bytes a.cidr 1 fits)
  | inr six ↦
      let fits : a.cidr ≤ 32 * 4 = subst (λ (f : Family). a.cidr ≤ prefix_size f) six good.prefix in
      rw (six, validate_netmask) (netmask_loop-number a.ip bytes a.cidr 4 fits)
]
