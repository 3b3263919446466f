-- ===== src/Encoding/Base64/Shape.antt =====
-- Whatever the text, a key that is decoded from 44 characters has 32 bytes.
use router1_app.Prelude.{
  ℕ, zero, suc, ◌+◌, ◌*◌, ◌/◌, ◌^◌, ◌≡◌, inl, inr, List, [], ◌∷◌, arith, ◌==◌, Bool-cases, length,
  get_or, All,
}
use router1_app.Encoding.Flags.{or8, IsByte, IsKey}
use router1_app.Encoding.Base64.{decode_base64, decode_groups, key_from_base64}
use router1_app.Encoding.Base64.Groups.{byte_mask}

decode_groups-bytes :
    (n ret : ℕ) (text : List ℕ)
    → length text ≡ 4 * n + 4
    → All IsByte (decode_groups n text ret).bytes
      × (length (decode_groups n text ret).bytes ≡ 3 * n + 2)
unfolding decode_groups
decode_groups-bytes zero ret (a ∷ b ∷ c ∷ d ∷ rest) h =
    let v = decode_base64 a b c b'A' in omega (arith, byte_mask (v / 2 ^ 16), byte_mask (v / 2 ^ 8))
decode_groups-bytes (suc n) ret (a ∷ b ∷ c ∷ d ∷ rest) h =
    let v = decode_base64 a b c d in
    let later = decode_groups-bytes n (or8 ret (v / 2 ^ 31)) rest (omega arith) in
    (
      (
        omega (arith, byte_mask (v / 2 ^ 16)),
        (omega (arith, byte_mask (v / 2 ^ 8)), (omega (arith, byte_mask v), later.0)),
      ),
      omega (arith, later.1),
    )
decode_groups-bytes zero ret [] h = absurd (omega arith)
decode_groups-bytes zero ret (a ∷ []) h = absurd (omega arith)
decode_groups-bytes zero ret (a ∷ b ∷ []) h = absurd (omega arith)
decode_groups-bytes zero ret (a ∷ b ∷ c ∷ []) h = absurd (omega arith)
decode_groups-bytes (suc n) ret [] h = absurd (omega arith)
decode_groups-bytes (suc n) ret (a ∷ []) h = absurd (omega arith)
decode_groups-bytes (suc n) ret (a ∷ b ∷ []) h = absurd (omega arith)
decode_groups-bytes (suc n) ret (a ∷ b ∷ c ∷ []) h = absurd (omega arith)

-- The key array stays a key, whatever the answer.
pub key_from_base64-IsKey : (old text : List ℕ) → IsKey old → IsKey (key_from_base64 old text).1
unfolding key_from_base64
key_from_base64-IsKey old text h = elim (Bool-cases (length text == 44)) [
  | inr wrong ↦ rw wrong h
  | inl right ↦ elim (Bool-cases (get_or text 43 0 == b'=')) [
    | inr wrong ↦ rw (right, wrong) h
    | inl pad ↦ rw (right, pad) (decode_groups-bytes 10 0 text (ground (arith, right)))
  ]
]
