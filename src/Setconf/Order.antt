-- ===== src/Setconf/Order.antt =====
-- The order of `memcmp` and of `pubkey_cmp` on keys of one length.
use Prim.Native.Nat.{Ordering}
use router1_app.Prelude.{
  ℕ, ◌≡◌, refl, Bool, true, false, not, ◌&&◌, [], ◌∷◌, ◌++◌, arith, ◌==◌, if◌then◌else◌, Bytes,
  length, ◌+◌, ◌∙◌, length-append,
}
use router1_app.Setconf.{PubkeyOrigin, memcmp, pubkey_cmp, is_gt, is_eq}

-- Whether two keys have the same bytes.
unfoldable pub key_eq : Bytes → Bytes → Bool
key_eq [] [] = true
key_eq [] (y ∷ b) = false
key_eq (x ∷ a) [] = false
key_eq (x ∷ a) (y ∷ b) = x == y && key_eq a b

pub key_eq-eq : (a b : Bytes) → key_eq a b ≡ true → a ≡ b
unfolding key_eq
key_eq-eq [] [] h = refl
key_eq-eq [] (y ∷ b) h = cc
key_eq-eq (x ∷ a) [] h = cc
key_eq-eq (x ∷ a) (y ∷ b) h = ground (arith, key_eq-eq a b)

pub key_eq_refl : (a : Bytes) → key_eq a a ≡ true
unfolding key_eq
key_eq_refl [] = refl
key_eq_refl (x ∷ a) = ground (arith, key_eq_refl a)

-- On keys of one length `memcmp` gives 0 exactly for the same bytes.
pub memcmp-key_eq : (a b : Bytes) → length a ≡ length b → is_eq (memcmp a b) ≡ key_eq a b
unfolding memcmp key_eq
memcmp-key_eq [] [] h = refl
memcmp-key_eq [] (y ∷ b) h = absurd (omega arith)
memcmp-key_eq (x ∷ a) [] h = absurd (omega arith)
memcmp-key_eq (x ∷ a) (y ∷ b) h = ground (arith, memcmp-key_eq a b)

abbrev flip : Ordering → Ordering
flip Ordering.lt = Ordering.gt
flip Ordering.eq = Ordering.eq
flip Ordering.gt = Ordering.lt

memcmp-flip : (a b : Bytes) → memcmp b a ≡ flip (memcmp a b)
unfolding memcmp
memcmp-flip [] [] = refl
memcmp-flip [] (y ∷ b) = refl
memcmp-flip (x ∷ a) [] = refl
memcmp-flip (x ∷ a) (y ∷ b) = ground (arith, memcmp-flip a b)

-- Not after.
abbrev pub bytes_le : Bytes → Bytes → Bool
bytes_le a b = not (is_gt (memcmp a b))

memcmp_trans :
    (a b c : Bytes)
    → length a ≡ length b
    → length b ≡ length c
    → bytes_le a b ≡ true
    → bytes_le b c ≡ true
    → (bytes_le a c ≡ true) × (memcmp a c ≡ Ordering.eq → memcmp a b ≡ Ordering.eq)
unfolding memcmp
memcmp_trans [] b c h k p q = (refl, λ e. refl)
memcmp_trans (x ∷ a) [] c h k p q = absurd (omega arith)
memcmp_trans (x ∷ a) (y ∷ b) [] h k p q = absurd (omega arith)
memcmp_trans (x ∷ a) (y ∷ b) (z ∷ c) h k p q = ground (arith, memcmp_trans a b c)

-- The key with its origin as a last byte.
abbrev image : PubkeyOrigin → Bytes
image a = a.pubkey ++ ((if a.from_file then 1 else 0) ∷ [])

memcmp-snoc :
    (a b : Bytes) (x y : ℕ)
    → length a ≡ length b
    → memcmp (a ++ (x ∷ [])) (b ++ (y ∷ [])) ≡ elim (memcmp a b) [
      | Ordering.eq ↦ memcmp (x ∷ []) (y ∷ [])
      | Ordering.lt ↦ Ordering.lt
      | Ordering.gt ↦ Ordering.gt
    ]
unfolding memcmp
memcmp-snoc [] [] x y h = refl
memcmp-snoc [] (v ∷ b) x y h = absurd (omega arith)
memcmp-snoc (u ∷ a) [] x y h = absurd (omega arith)
memcmp-snoc (u ∷ a) (v ∷ b) x y h = ground (arith, memcmp-snoc a b x y)

pubkey_cmp-image :
    (a b : PubkeyOrigin)
    → length a.pubkey ≡ length b.pubkey
    → pubkey_cmp a b ≡ memcmp (image a) (image b)
unfolding pubkey_cmp memcmp
pubkey_cmp-image a b h = ground (
  arith,
  memcmp-snoc a.pubkey b.pubkey (if a.from_file then 1 else 0) (if b.from_file then 1 else 0),
)

abbrev pub origin_le : PubkeyOrigin → PubkeyOrigin → Bool
origin_le a b = not (is_gt (pubkey_cmp a b))

pub origin_le_total : (a b : PubkeyOrigin) → origin_le a b ≡ false → origin_le b a ≡ true
unfolding pubkey_cmp
origin_le_total a b h = ground (arith, memcmp-flip a.pubkey b.pubkey)

length-image : (a : PubkeyOrigin) → length (image a) ≡ length a.pubkey + 1
length-image a = length-append a.pubkey _

pub origin_le_trans :
    (a b c : PubkeyOrigin)
    → length a.pubkey ≡ length b.pubkey
    → length b.pubkey ≡ length c.pubkey
    → origin_le a b ≡ true
    → origin_le b c ≡ true
    → origin_le a c ≡ true
origin_le_trans a b c h k p q =
    let first = rw (pubkey_cmp-image a b h) at p in
    let second = rw (pubkey_cmp-image b c k) at q in
    rw (pubkey_cmp-image a c (h ∙ k))
      (memcmp_trans (image a) (image b) (image c) (omega (arith, length-image a, length-image b, h))
        (omega (arith, length-image b, length-image c, k)) first second).0

-- Between two origins of one key there are only origins of that key.
pub origin_le-between :
    (a b c : PubkeyOrigin)
    → length a.pubkey ≡ length b.pubkey
    → length b.pubkey ≡ length c.pubkey
    → origin_le a b ≡ true
    → origin_le b c ≡ true
    → key_eq a.pubkey c.pubkey ≡ true
    → key_eq a.pubkey b.pubkey ≡ true
unfolding pubkey_cmp
origin_le-between a b c h k p q same =
    let outer = memcmp-key_eq a.pubkey c.pubkey (h ∙ k) in
    let inner = memcmp-key_eq a.pubkey b.pubkey h in
    ground (arith, outer, inner, memcmp_trans a.pubkey b.pubkey c.pubkey)

-- Of one key, the origins in the file stand last.
pub origin_le-same :
    (a b : PubkeyOrigin)
    → length a.pubkey ≡ length b.pubkey
    → origin_le a b ≡ true
    → key_eq a.pubkey b.pubkey ≡ true
    → a.from_file ≡ true
    → b.from_file ≡ true
unfolding pubkey_cmp
origin_le-same a b h p same file =
    let inner = memcmp-key_eq a.pubkey b.pubkey h in ground (arith, inner)

pub key_eq_comm : (a b : Bytes) → key_eq a b ≡ key_eq b a
unfolding key_eq
key_eq_comm [] [] = refl
key_eq_comm [] (y ∷ b) = refl
key_eq_comm (x ∷ a) [] = refl
key_eq_comm (x ∷ a) (y ∷ b) = ground (arith, key_eq_comm a b)
