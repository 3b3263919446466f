-- ===== src/Showconf/Settings.antt =====
-- The settings that showconf writes in the section [Interface], each read back by config_read_line.
use router1_app.Prelude.{
  ℕ, ◌+◌, ◌^◌, ◌≤◌, ◌<◌, ◌≡◌, refl, sym, ap, ◌∙◌, Bool, true, false, ◌||◌, ◌∷◌, ◌++◌, arith, ◌==◌,
  Bytes, codes, Outcome, ◌>>=◌, ok, length, take, drop, length-append, ◌≢◌, not, ◌&&◌, [], inl, inr,
  Option, some, leb, Bool-cases, ==_iff,
}
use router1_app.Libc.{strcasecmp_eq}
use router1_app.Config.Line.{device_line, first_key, process_line, device_branches, Ctx}
use router1_app.Config.Host.{Host}
use router1_app.Config.Read.{
  awg_special_handshake_keys, cleaned_line, is_special, config_read_line, comment_char,
}
use router1_app.Containers.{Device, max_awg_string_len}
use router1_app.Libc.Numbers.{all_digits}
use router1_app.Uapi.Print.{print_u, print_u-ne_nil, print_u-all_digits}
use router1_app.Showconf.Lines.{first_key-skips, cleaned_line-plain, conf_line, misses, is_plain}
use router1_app.Config.Values.{parse_uint16, parse_awg_string}
use router1_app.Ctype.{char_is_space}
use mathlib.Core.List.{append_assoc}
use router1_app.Ctype.Spec.{is_digit, char_is_space-eq}
use router1_app.Config.Values.Numbers.{parse_uint16-print_u}
use router1_app.Libc.Split.{lacks}

abbrev pub assigned : Ctx → Outcome Device → Outcome Ctx
assigned ctx m = m >>= λ d. ok (record ctx { device = d })

-- A line that is no head of a section.
abbrev is_head : Bytes → Bool
is_head line = strcasecmp_eq line (codes "[Interface]") || strcasecmp_eq line (codes "[Peer]")

process_line-device_line :
    (h : Host) (fuel : ℕ) (ctx : Ctx) (line : Bytes)
    → ctx.is_device_section ≡ true
    → strcasecmp_eq line (codes "[Interface]") ≡ false
    → strcasecmp_eq line (codes "[Peer]") ≡ false
    → process_line h fuel ctx line ≡ assigned ctx (device_line h line ctx.device)
unfolding process_line
process_line-device_line h fuel ctx line section a b = rw (a, b, section) refl

-- What a label has to satisfy for its line to reach its branch, whatever the value is.
pub record Reaches (h : Host) (d : Device) (label : Bytes) (branch : Bytes → Outcome Device)
    (value : Bytes) : Type 0 where
  pub place : ℕ
  pub branches :
      device_branches h d
      ≡ take place (device_branches h d)
        ++ ((label ++ codes "=", branch) ∷ drop (place + 1) (device_branches h d))
  pub missed : misses ((label ++ codes "=") ++ value) (take place (device_branches h d)) ≡ true
  pub ordinary : is_special awg_special_handshake_keys (conf_line label value) ≡ false
  pub plain : is_plain label ≡ true
  pub no_interface : strcasecmp_eq ((label ++ codes "=") ++ value) (codes "[Interface]") ≡ false
  pub no_peer : strcasecmp_eq ((label ++ codes "=") ++ value) (codes "[Peer]") ≡ false

config_read_line-branch :
    (h : Host) (fuel : ℕ) (ctx : Ctx) (label value : Bytes) (branch : Bytes → Outcome Device)
    → ctx.is_device_section ≡ true
    → Reaches h ctx.device label branch value
    → is_plain value ≡ true
    → 1 ≤ length value
    → config_read_line h fuel ctx (conf_line label value) ≡ assigned ctx (branch value)
unfolding config_read_line device_line
config_read_line-branch h fuel ctx label value branch section r plain some_text =
    let key = label ++ codes "=" in
    let cleaned : cleaned_line (conf_line label value) ≡ key ++ value =
      cleaned_line-plain label value r.ordinary r.plain plain
      ∙ sym (append_assoc label (codes "=") value) in
    let filled : (length (key ++ value) == 0) ≡ false =
      ground (arith, some_text, length-append key value) in
    let reached : device_line h (key ++ value) ctx.device ≡ branch value =
      ap (first_key (key ++ value)) r.branches
      ∙ first_key-skips key value branch (take r.place (device_branches h ctx.device))
          (drop (r.place + 1) (device_branches h ctx.device)) r.missed some_text in
    rw (cleaned, filled)
      (process_line-device_line h fuel ctx (key ++ value) section r.no_interface r.no_peer
        ∙ ap (assigned ctx) reached)

-- A branch that stores a number.
abbrev pub stores_number : (ℕ → Device) → Bytes → Outcome Device
stores_number store v = parse_uint16 v >>= λ n. ok (store n)

plain_digit :
    (c : ℕ) → is_digit c ≡ true → (not (char_is_space c) && not (c == comment_char)) ≡ true
plain_digit c h = rw (char_is_space-eq c (ground (arith, h))) (ground (arith, h))

some_text : (text : Bytes) → text ≢ [] → 1 ≤ length text
some_text [] h = absurd (h refl)
some_text (c ∷ text) h = omega arith

pub digits-plain : (text : Bytes) → all_digits text ≡ true → is_plain text ≡ true
digits-plain [] h = refl
digits-plain (c ∷ text) h =
    rw (plain_digit c (ground (arith, h))) (digits-plain text (ground (arith, h)))

pub config_read_line-number :
    (h : Host) (fuel : ℕ) (ctx : Ctx) (label : Bytes) (store : ℕ → Device) (n : ℕ)
    → ctx.is_device_section ≡ true
    → n < 2 ^ 16
    → Reaches h ctx.device label (stores_number store) (print_u n)
    → config_read_line h fuel ctx (conf_line label (print_u n))
      ≡ ok (record ctx { device = store n })
config_read_line-number h fuel ctx label store n section small r =
    config_read_line-branch h fuel ctx label (print_u n) (stores_number store) section r
      (digits-plain (print_u n) (print_u-all_digits n (omega (arith, small))))
      (some_text (print_u n) (print_u-ne_nil n))
    ∙ ap (assigned ctx)
        (ap (λ (m : Outcome ℕ). m >>= λ k. ok (store k)) (parse_uint16-print_u n small))

-- A branch that stores a text.
abbrev pub stores_text : (Option Bytes → Device) → Bytes → Outcome Device
stores_text store v = parse_awg_string v >>= λ t. ok (store t)

-- A text that a line can carry: no blank, no comment, and a length that the reader accepts.
abbrev pub IsHeader : Bytes → Type 0
IsHeader text = (is_plain text ≡ true) × (1 ≤ length text) × (length text < max_awg_string_len)

parse_awg_string-some :
    (text : Bytes)
    → 1 ≤ length text
    → length text < max_awg_string_len
    → parse_awg_string text ≡ ok (some text)
unfolding parse_awg_string
parse_awg_string-some text h k =
    let filled : (length text == 0) ≡ false = ground (arith, h) in
    let fits : leb max_awg_string_len (length text) ≡ false = ground (arith, k) in
    rw (filled, fits) refl

pub config_read_line-text :
    (h : Host) (fuel : ℕ) (ctx : Ctx) (label : Bytes) (store : Option Bytes → Device) (text : Bytes)
    → ctx.is_device_section ≡ true
    → IsHeader text
    → Reaches h ctx.device label (stores_text store) text
    → config_read_line h fuel ctx (conf_line label text)
      ≡ ok (record ctx { device = store (some text) })
config_read_line-text h fuel ctx label store text section (plain, filled, fits) r =
    config_read_line-branch h fuel ctx label text (stores_text store) section r plain filled
    ∙ ap (assigned ctx) (
        ap (λ (m : Outcome (Option Bytes)). m >>= λ t. ok (store t))
          (parse_awg_string-some text filled fits))

space_end : char_is_space b'\n' ≡ true
unfolding char_is_space
space_end = refl

pub no_end : (c : ℕ) → not (char_is_space c) ≡ true → (c == b'\n') ≡ false
no_end c h = elim (Bool-cases (c == b'\n')) [
  | inl e ↦
      let same : c ≡ b'\n' = (==_iff _ _).0 e in
      let blank = ap (λ (x : ℕ). not (char_is_space x)) same in let spaced = ap not space_end in cc
  | inr e ↦ e
]

pub lacks_end-plain : (text : Bytes) → is_plain text ≡ true → lacks b'\n' text ≡ true
lacks_end-plain [] h = refl
lacks_end-plain (c ∷ text) h =
    let other : (c == b'\n') ≡ false = no_end c (ground (arith, h)) in
    rw (other, lacks_end-plain text (ground (arith, h))) refl
