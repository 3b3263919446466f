-- ===== src/Setconf/Gone.antt =====
-- What the look of `sync_conf` at the next origin tells of a sorted list.
use router1_app.Containers.PeerFlag
use router1_app.Prelude.{ℕ, ◌≡◌, refl, Bool, true, false, List, [], ◌∷◌, arith, ◌==◌, All}
use router1_app.Containers.{Peer, zero_peer}
use router1_app.Setconf.{PubkeyOrigin, is_gone}
use router1_app.Setconf.Order.{
  key_eq, key_eq_comm, memcmp-key_eq, origin_le-between, origin_le-same,
}
use router1_app.Setconf.Sorted.{SizedKey, NotBefore, IsSorted, occurs}

-- Behind an origin in the file, no runtime origin has its key.
pub none_after :
    (n : ℕ) (a : PubkeyOrigin) (l : List PubkeyOrigin)
    → SizedKey n a
    → All (SizedKey n) l
    → All (NotBefore a) l
    → a.from_file ≡ true
    → occurs false a.pubkey l ≡ 0
unfolding occurs
none_after n a [] h s below file = refl
none_after n a (c ∷ l) h (s, ss) (p, below) file = ground (
  arith,
  none_after n a l h ss below file,
  key_eq_comm c.pubkey a.pubkey,
  origin_le-same a c (omega (arith, h, s)) p,
)

-- Behind an origin of another key, none has the key of one before it.
none_behind :
    (n : ℕ) (from : Bool) (a b : PubkeyOrigin) (l : List PubkeyOrigin)
    → SizedKey n a
    → SizedKey n b
    → All (SizedKey n) l
    → NotBefore a b
    → All (NotBefore b) l
    → key_eq a.pubkey b.pubkey ≡ false
    → occurs from a.pubkey l ≡ 0
unfolding occurs
none_behind n from a b [] h k s p below apart = refl
none_behind n from a b (c ∷ l) h k (s, ss) p (q, below) apart = ground (
  arith,
  none_behind n from a b l h k ss p below apart,
  key_eq_comm c.pubkey a.pubkey,
  origin_le-between a b c (omega (arith, h, k)) (omega (arith, k, s)) p q,
)

-- The look at the next origin tells whether the key is in the file.
pub is_gone-occurs :
    (n : ℕ) (a : PubkeyOrigin) (l : List PubkeyOrigin)
    → SizedKey n a
    → All (SizedKey n) l
    → All (NotBefore a) l
    → IsSorted l
    → occurs false a.pubkey l ≡ 0
    → is_gone a.pubkey l ≡ (occurs true a.pubkey l == 0)
unfolding is_gone occurs
is_gone-occurs n a [] h s below sorted once = refl
is_gone-occurs n a (b ∷ l) h (s, ss) (p, below) (q, sorted) once =
    let same = memcmp-key_eq a.pubkey b.pubkey (omega (arith, h, s)) in
    ground (arith, same, key_eq_comm b.pubkey a.pubkey, none_behind n true a b l h s ss p q)

abbrev pub IsMarked : Peer → Type 0
IsMarked p = p ≡ record zero_peer { flags = PeerFlag.remove_me; public_key = p.public_key }
