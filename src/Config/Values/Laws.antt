-- ===== src/Config/Values/Laws.antt =====
-- The parsers of single values: what they accept, and the ranges of what they give.
use router1_app.Prelude.{
  ℕ, ◌^◌, ◌<◌, arith, Bytes, Ensures, ◌≡◌, refl, ◌⊎◌, inl, inr, none, Bool-cases, ltb, ◌==◌, length,
  take, drop,
}
use router1_app.Encoding.Flags.{IsKey}
use router1_app.Encoding.Base64.Shape.{key_from_base64-IsKey}
use router1_app.Encoding.Base64.{key_from_base64}
use router1_app.Containers.Valid.{IsAwgString, zero_key-IsKey}
use router1_app.Config.Host.{
  Host, IsHost, GaiError, Resolved, Gai, KeyFile, found, error, no_file, contents,
}
use router1_app.Config.Values.{
  Flagged, parse_port, parse_fwmark, parse_persistent_keepalive, parse_awg_string, parse_uint16,
  parse_bool, parse_key, parse_keyfile, all_spaces, read_keyfile,
}

pub Gai-cases : (g : Gai) → ((r : Resolved) × (g ≡ found r)) ⊎ ((e : GaiError) × (g ≡ error e))
Gai-cases (found r) = inl (r, refl)
Gai-cases (error e) = inr (e, refl)

abbrev pub Below : ℕ → Flagged → Type 0
Below n f = f.value < n

pub parse_port-Ensures :
    (h : Host) (flags : ℕ) (v : Bytes) → IsHost h → Ensures (Below (2 ^ 16)) (parse_port h flags v)
unfolding parse_port
parse_port-Ensures h flags v w = elim (Gai-cases (h.getaddrinfo 0 none v)) [
  | inl (r, e) ↦ ground (arith, e, w.port_range 0 none v r)
  | inr (x, e) ↦ ground (arith, e)
]

pub parse_fwmark-Ensures : (flags : ℕ) (v : Bytes) → Ensures (Below (2 ^ 32)) (parse_fwmark flags v)
unfolding parse_fwmark
parse_fwmark-Ensures flags v = ground arith

pub parse_persistent_keepalive-Ensures :
    (flags : ℕ) (v : Bytes) → Ensures (Below (2 ^ 16)) (parse_persistent_keepalive flags v)
unfolding parse_persistent_keepalive
parse_persistent_keepalive-Ensures flags v = ground arith

pub parse_uint16-Ensures : (v : Bytes) → Ensures (λ n. n < 2 ^ 16) (parse_uint16 v)
unfolding parse_uint16
parse_uint16-Ensures v = ground arith

pub parse_awg_string-Ensures : (v : Bytes) → Ensures IsAwgString (parse_awg_string v)
unfolding parse_awg_string
parse_awg_string-Ensures v = ground arith

pub parse_bool-Ensures : (v : Bytes) → Ensures (λ b. Unit) (parse_bool v)
unfolding parse_bool
parse_bool-Ensures v = ground arith

-- The key array stays a key, also where the value is refused.
pub parse_key-IsKey : (old v : Bytes) → IsKey old → IsKey (parse_key old v).1
unfolding parse_key
parse_key-IsKey old v h = elim (Bool-cases (key_from_base64 old v).0) [
  | inl accepted ↦ rw accepted (key_from_base64-IsKey old v h)
  | inr refused ↦ rw refused zero_key-IsKey
]

read_keyfile-IsKey : (f : KeyFile) (old : Bytes) → IsKey old → IsKey (read_keyfile old f).1
unfolding read_keyfile
read_keyfile-IsKey no_file old k = k
read_keyfile-IsKey (contents text) old k = elim (Bool-cases (ltb (length text) 44)) [
  | inl short ↦ elim (Bool-cases (length text == 0)) [
    | inl empty ↦ rw (short, empty) zero_key-IsKey
    | inr cut ↦ rw (short, cut) k
  ]
  | inr whole ↦ elim (Bool-cases (all_spaces (drop 44 text))) [
    | inl blank ↦ rw (whole, blank) (parse_key-IsKey old (take 44 text) k)
    | inr trailing ↦ rw (whole, trailing) k
  ]
]

pub parse_keyfile-IsKey :
    (h : Host) (old path : Bytes) → IsKey old → IsKey (parse_keyfile h old path).1
unfolding parse_keyfile
parse_keyfile-IsKey h old path = read_keyfile-IsKey (h.open_file path) old
