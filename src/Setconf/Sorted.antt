-- ===== src/Setconf/Sorted.antt =====
-- `qsort` by pubkey_cmp gives a sorted list with the same keys as often.
use router1_app.Prelude.{
  ℕ, ◌+◌, ◌≡◌, refl, inl, inr, Bool, true, false, not, ◌&&◌, List, [], ◌∷◌, ◌++◌, arith,
  if◌then◌else◌, Bool-cases, Bytes, length, All,
}
use router1_app.Containers.{Peer}
use router1_app.Setconf.{PubkeyOrigin, is_gt, pubkey_cmp, insert, qsort, origins}
use router1_app.Setconf.Order.{key_eq, origin_le, origin_le_total, origin_le_trans}

-- All keys have n bytes.
abbrev pub SizedKey : ℕ → PubkeyOrigin → Type 0
SizedKey n a = length a.pubkey ≡ n

abbrev pub NotBefore : PubkeyOrigin → PubkeyOrigin → Type 0
NotBefore a b = origin_le a b ≡ true

abbrev pub IsSorted : List PubkeyOrigin → Type 0
IsSorted [] = Unit
IsSorted (a ∷ l) = All (NotBefore a) l × IsSorted l

module _ {κ} (P : PubkeyOrigin → Type κ) where
  pub All-insert : (a : PubkeyOrigin) (l : List PubkeyOrigin) → P a → All P l → All P (insert a l)
  unfolding insert
  All-insert a [] h hs = (h, tt)
  All-insert a (b ∷ l) h (k, hs) = elim (Bool-cases (is_gt (pubkey_cmp a b))) [
    | inl later ↦ rw (later, insert) (k, All-insert a l h hs)
    | inr first ↦ rw (first, insert) (h, (k, hs))
  ]

  pub All-qsort : (l : List PubkeyOrigin) → All P l → All P (qsort l)
  unfolding qsort
  All-qsort [] h = tt
  All-qsort (a ∷ l) (h, hs) = All-insert a (qsort l) h (All-qsort l hs)

module _ (n : ℕ) where
  All-NotBefore :
      (a b : PubkeyOrigin) (l : List PubkeyOrigin)
      → SizedKey n a
      → SizedKey n b
      → All (SizedKey n) l
      → NotBefore a b
      → All (NotBefore b) l
      → All (NotBefore a) l
  All-NotBefore a b [] h k s p q = tt
  All-NotBefore a b (c ∷ l) h k (s, ss) p (q, qs) = (
    origin_le_trans a b c (omega (arith, h, k)) (omega (arith, k, s)) p q,
    All-NotBefore a b l h k ss p qs,
  )

  insert-IsSorted :
      (a : PubkeyOrigin) (l : List PubkeyOrigin)
      → SizedKey n a
      → All (SizedKey n) l
      → IsSorted l
      → IsSorted (insert a l)
  unfolding insert
  insert-IsSorted a [] h s sorted = (tt, tt)
  insert-IsSorted a (b ∷ l) h (s, ss) (below, sorted) = elim (Bool-cases (is_gt (pubkey_cmp a b))) [
    | inl later ↦
        let first : NotBefore b a = origin_le_total a b (rw later) in
        rw (later, insert)
          (All-insert (NotBefore b) a l first below, insert-IsSorted a l h ss sorted)
    | inr first ↦
        let here : NotBefore a b = rw first in
        rw (first, insert) ((here, All-NotBefore a b l h s ss here below), (below, sorted))
  ]

  pub qsort-IsSorted : (l : List PubkeyOrigin) → All (SizedKey n) l → IsSorted (qsort l)
  unfolding qsort
  qsort-IsSorted [] s = tt
  qsort-IsSorted (a ∷ l) (h, s) =
      insert-IsSorted a (qsort l) h (All-qsort (SizedKey n) l s) (qsort-IsSorted l s)

abbrev same_origin : Bool → Bool → Bool
same_origin true from = from
same_origin false from = not from

-- How often a key stands in the list with an origin.
unfoldable pub occurs : Bool → Bytes → List PubkeyOrigin → ℕ
unfolding key_eq
occurs from key [] = 0
occurs from key (a ∷ l) =
    (if same_origin from a.from_file && key_eq a.pubkey key then 1 else 0) + occurs from key l

occurs-insert :
    (from : Bool) (key : Bytes) (a : PubkeyOrigin) (l : List PubkeyOrigin)
    → occurs from key (insert a l) ≡ occurs from key (a ∷ l)
unfolding insert occurs
occurs-insert from key a [] = refl
occurs-insert from key a (b ∷ l) = ground (arith, occurs-insert from key a l)

pub occurs-qsort :
    (from : Bool) (key : Bytes) (l : List PubkeyOrigin)
    → occurs from key (qsort l) ≡ occurs from key l
unfolding qsort occurs
occurs-qsort from key [] = refl
occurs-qsort from key (a ∷ l) =
    ground (arith, occurs-insert from key a (qsort l), occurs-qsort from key l)

-- How often a key stands in a list of peers.
unfoldable pub count_key : Bytes → List Peer → ℕ
unfolding key_eq
count_key key [] = 0
count_key key (p ∷ peers) = (if key_eq p.public_key key then 1 else 0) + count_key key peers

occurs-append :
    (from : Bool) (key : Bytes) (l m : List PubkeyOrigin)
    → occurs from key (l ++ m) ≡ occurs from key l + occurs from key m
unfolding occurs
occurs-append from key [] m = omega arith
occurs-append from key (a ∷ l) m = omega (arith, occurs-append from key l m)

occurs-origins :
    (from file : Bool) (key : Bytes) (peers : List Peer)
    → occurs from key (origins file peers)
      ≡ (if same_origin from file then count_key key peers else 0)
unfolding occurs origins count_key
occurs-origins from file key [] = ground arith
occurs-origins from file key (p ∷ peers) = ground (arith, occurs-origins from file key peers)

pub occurs-file :
    (key : Bytes) (file runtime : List Peer)
    → occurs true key (origins true file ++ origins false runtime) ≡ count_key key file
occurs-file key file runtime = omega (
  arith,
  occurs-append true key (origins true file) (origins false runtime),
  occurs-origins true true key file,
  occurs-origins true false key runtime,
)

pub occurs-runtime :
    (key : Bytes) (file runtime : List Peer)
    → occurs false key (origins true file ++ origins false runtime) ≡ count_key key runtime
occurs-runtime key file runtime = omega (
  arith,
  occurs-append false key (origins true file) (origins false runtime),
  occurs-origins false true key file,
  occurs-origins false false key runtime,
)
