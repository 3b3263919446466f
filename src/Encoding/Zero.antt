-- ===== src/Encoding/Zero.antt =====
-- `key_is_zero` of encoding.c.
use router1_app.Prelude.{ℕ, ◌<◌, ◌≡◌, refl, ◌↔◌, Bool, true, List, [], ◌∷◌, arith, All}
use router1_app.Prelude.Bits.{}
use router1_app.Encoding.Flags.{or8, is_clear, IsByte, or8_zero, is_clear-zero}

-- `acc |= key[i]` over the bytes of the key.
unfoldable pub or_bytes : List ℕ → ℕ → ℕ
or_bytes [] acc = acc
or_bytes (b ∷ key) acc = or_bytes key (or8 acc b)

unfoldable pub key_is_zero : List ℕ → Bool
unfolding or_bytes
key_is_zero key = is_clear (or_bytes key 0)

abbrev IsZero : ℕ → Type 0
IsZero b = b ≡ 0

or_bytes-IsZero :
    (key : List ℕ) (acc : ℕ)
    → All IsByte key
    → acc < 256
    → or_bytes key acc ≡ 0
    → (acc ≡ 0) × All IsZero key
unfolding or_bytes
or_bytes-IsZero [] acc h k e = (e, tt)
or_bytes-IsZero (b ∷ key) acc (hb, hk) k e =
    let (now, later) = or_bytes-IsZero key (or8 acc b) hk (omega arith) e in
    let (p, q) = or8_zero acc b k hb now in (p, (q, later))

or_bytes-lt : (key : List ℕ) (acc : ℕ) → acc < 256 → or_bytes key acc < 256
unfolding or_bytes
or_bytes-lt [] acc k = k
or_bytes-lt (b ∷ key) acc k = or_bytes-lt key (or8 acc b) (omega arith)

or_bytes-zeros : (key : List ℕ) → All IsZero key → or_bytes key 0 ≡ 0
unfolding or_bytes
or_bytes-zeros [] h = refl
or_bytes-zeros (b ∷ key) (hb, hk) = rw hb (or_bytes-zeros key hk)

-- `key_is_zero` answers true exactly if all bytes of the key are 0.
pub key_is_zero_iff :
    (key : List ℕ) → All IsByte key → (key_is_zero key ≡ true) ↔ All (λ b. b ≡ 0) key
unfolding key_is_zero
key_is_zero_iff key h = (
  λ e.
      (or_bytes-IsZero key 0 h (omega arith)
        (is_clear-zero _ (or_bytes-lt key 0 (omega arith)) e)).1,
  λ z. rw (or_bytes-zeros key z) refl,
)
