-- ===== src/WgQuick/Settings.antt =====
-- wg-quick/android.c: the settings that parse_options takes, told apart by name and value.
pub mod Kinds
use Prim.Native.String.{String}
use router1_app.Prelude.{
  ℕ, zero, suc, ◌≤◌, ◌≡◌, refl, ap, ◌∙◌, sym, inl, inr, Bool, true, false, not, ◌&&◌, ◌||◌, Option,
  none, some, List, [], ◌∷◌, ◌++◌, ltb, arith, ◌==◌, if◌then◌else◌, Bool-cases, Option-cases, Bytes,
  codes, length, drop, ◌<◌,
}
use router1_app.Ctype.Spec.{is_space}
use router1_app.Libc.{split_first, strcasecmp_eq, strncasecmp_eq, to_lower}
use router1_app.WgQuick.{
  clean_line, Kind, address, dns, excluded, included, mtu, awg, rest, starts, is_awg_line, kind_of,
}

-- A text without its white space.
abbrev pub solid : Bytes → Bytes
solid [] = []
solid (c ∷ text) = if is_space c then solid text else c ∷ solid text

pub clean_line-solid : (line : Bytes) → clean_line line ≡ solid line
unfolding clean_line
clean_line-solid [] = refl
clean_line-solid (c ∷ line) = rw (clean_line-solid line) refl

-- The value of a text `name=value` whose name is the key, up to the case of its letters.
abbrev pub valued : Bytes → Option (Bytes × Bytes) → Option Bytes
valued key none = none
valued key (some (name, value)) = if strcasecmp_eq name key then some value else none

abbrev pub value_of : Bytes → Bytes → Option Bytes
value_of key text = valued key (split_first b'=' text)

-- A value that is not empty.
abbrev pub filled : Option Bytes → Option Bytes
filled none = none
filled (some []) = none
filled (some (c ∷ value)) = some (c ∷ value)

-- No letter of the key is the equals sign.
abbrev pub is_key_name : Bytes → Bool
is_key_name [] = true
is_key_name (c ∷ key) = not (to_lower c == b'=') && is_key_name key

abbrev pub cut : Bool → ℕ → Bytes → Option Bytes
cut found n text = if found then some (drop n text) else none

lower_sign : (c : ℕ) → (to_lower c == b'=') ≡ (c == b'=')
lower_sign c = ground arith

pub value_of-cut :
    (key text : Bytes)
    → is_key_name key ≡ true
    → value_of key text
      ≡ cut (strncasecmp_eq (suc (length key)) text (key ++ codes "=")) (suc (length key)) text
unfolding split_first strcasecmp_eq strncasecmp_eq
value_of-cut [] [] h = refl
value_of-cut [] (x ∷ text) h = elim (Bool-cases (x == b'=')) [
  | inl e ↦ rw (lower_sign x, e) refl
  | inr e ↦
      rw (lower_sign x, e)
        (elim (Option-cases (split_first b'=' text)) [
          | inl none_there ↦ rw none_there refl
          | inr (parts, there) ↦ rw there refl
        ])
]
value_of-cut (k ∷ key) [] h = refl
value_of-cut (k ∷ key) (x ∷ text) h = elim (Bool-cases (x == b'=')) [
  | inl e ↦
      let other : (to_lower x == to_lower k) ≡ false = ground (arith, lower_sign x, e, h) in
      rw (other, e) refl
  | inr e ↦
      let later = value_of-cut key text (ground (arith, h)) in
      elim (Bool-cases (to_lower x == to_lower k)) [
        | inl same ↦ elim (Option-cases (split_first b'=' text)) [
          | inl none_there ↦
              let step : valued key none ≡ value_of key text = ap (valued key) (sym none_there) in
              rw (e, none_there, same) (step ∙ later)
          | inr (parts, there) ↦
              let step : valued key (some parts) ≡ value_of key text =
                ap (valued key) (sym there) in
              rw (e, there, same) (step ∙ later)
        ]
        | inr differs ↦ elim (Option-cases (split_first b'=' text)) [
          | inl none_there ↦ rw (e, none_there, differs) refl
          | inr (parts, there) ↦ rw (e, there, differs) refl
        ]
      ]
]

pub filled-cut :
    (found : Bool) (n : ℕ) (text : Bytes)
    → filled (cut found n text) ≡ cut (found && ltb n (length text)) n text
filled-cut false n text = refl
filled-cut true zero [] = refl
filled-cut true zero (c ∷ text) = ground arith
filled-cut true (suc n) [] = ground arith
filled-cut true (suc n) (c ∷ text) = filled-cut true n text ∙ ground arith

pub strncasecmp_eq-length :
    (n : ℕ) (a b : Bytes) → strncasecmp_eq n a b ≡ true → n ≤ length b → n ≤ length a
unfolding strncasecmp_eq
strncasecmp_eq-length zero a b h k = omega arith
strncasecmp_eq-length (suc n) [] [] h k = k
strncasecmp_eq-length (suc n) [] (y ∷ b) h k = cc
strncasecmp_eq-length (suc n) (x ∷ a) [] h k = cc
strncasecmp_eq-length (suc n) (x ∷ a) (y ∷ b) h k =
    let later = strncasecmp_eq-length n a b (ground (arith, h)) (omega (arith, k)) in
    omega (arith, later)

abbrev pub is_some : Option Bytes → Bool
is_some none = false
is_some (some value) = true

-- A setting of the function's own, in a line without its white space: an address, a name server or an
-- MTU that is not empty, or a list of applications.
abbrev pub is_own : Bytes → Bool
is_own text =
    is_some (filled (value_of (codes "Address") text))
    || is_some (filled (value_of (codes "DNS") text))
    || is_some (value_of (codes "ExcludedApplications") text)
    || is_some (value_of (codes "IncludedApplications") text)
    || is_some (filled (value_of (codes "MTU") text))
