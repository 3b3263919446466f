-- ===== src/Showconf/Lines.antt =====
-- Lines that showconf writes, and what config_read_line makes of them.
use router1_app.Prelude.{
  ◌≤◌, ◌≡◌, refl, ap, ◌∙◌, inl, inr, Bool, true, false, not, ◌&&◌, none, some, List, [], ◌∷◌, ◌++◌,
  arith, leb, ◌==◌, if◌then◌else◌, Bool-cases, Bytes, codes, Outcome, length, length-append,
  drop-append,
}
use router1_app.Config.Line.{Branches, get_value, first_key}
use router1_app.Libc.Split.{split_first-lacks, lacks}
use router1_app.Ctype.{char_is_space}
use router1_app.Config.Read.{
  awg_special_handshake_keys, is_special, comment_char, cleaned_line, strip_spaces,
}
use router1_app.Libc.{strncasecmp_eq}
use mathlib.Core.List.{append-nil}

-- `getline` on a whole text: the lines with their line ends.
unfoldable pub lines_of : Bytes → List Bytes
lines_of [] = []
lines_of (c ∷ text) =
    let later = lines_of text in
    if c == b'\n'
    then (c ∷ []) ∷ later
    else elim later [ [] ↦ (c ∷ []) ∷ [] | line ∷ more ↦ (c ∷ line) ∷ more ]

pub lines_of-line :
    (line rest : Bytes)
    → lacks b'\n' line ≡ true
    → lines_of (line ++ b'\n' ∷ rest) ≡ (line ++ b'\n' ∷ []) ∷ lines_of rest
unfolding lines_of
lines_of-line [] rest h = refl
lines_of-line (c ∷ line) rest h =
    let other : (c == b'\n') ≡ false = ground (arith, h) in
    rw (other, lines_of-line line rest (ground (arith, h))) refl

-- No blank and no comment.
abbrev pub is_plain : Bytes → Bool
is_plain [] = true
is_plain (c ∷ text) = not (char_is_space c) && not (c == comment_char) && is_plain text

strip_spaces-plain :
    (text rest : Bytes)
    → is_plain text ≡ true
    → strip_spaces (text ++ rest) ≡ text ++ strip_spaces rest
unfolding strip_spaces
strip_spaces-plain [] rest h = refl
strip_spaces-plain (c ∷ text) rest h = ground (arith, strip_spaces-plain text rest)

lacks-plain :
    (text rest : Bytes)
    → is_plain text ≡ true
    → lacks comment_char (text ++ rest) ≡ lacks comment_char rest
lacks-plain [] rest h = refl
lacks-plain (c ∷ text) rest h = ground (arith, lacks-plain text rest)

abbrev pub conf_line : Bytes → Bytes → Bytes
conf_line label value = label ++ (codes " = " ++ (value ++ codes "\n"))

end_stripped : strip_spaces (codes "\n") ≡ []
unfolding strip_spaces char_is_space
end_stripped = refl

sign_stripped : (rest : Bytes) → strip_spaces (codes " = " ++ rest) ≡ b'=' ∷ strip_spaces rest
unfolding strip_spaces char_is_space
sign_stripped rest = refl

pub cleaned_line-plain :
    (label value : Bytes)
    → is_special awg_special_handshake_keys (conf_line label value) ≡ false
    → is_plain label ≡ true
    → is_plain value ≡ true
    → cleaned_line (conf_line label value) ≡ label ++ (b'=' ∷ value)
unfolding cleaned_line
cleaned_line-plain label value ordinary l v =
    let none_there : lacks comment_char (conf_line label value) ≡ true =
      lacks-plain label (codes " = " ++ (value ++ codes "\n")) l
      ∙ lacks-plain value (codes "\n") v in
    let stripped : strip_spaces (conf_line label value) ≡ label ++ (b'=' ∷ value) =
      strip_spaces-plain label (codes " = " ++ (value ++ codes "\n")) l
      ∙ ap (λ (t : Bytes). label ++ t)
          (sign_stripped (value ++ codes "\n")
            ∙ ap (λ (t : Bytes). b'=' ∷ t)
                (strip_spaces-plain value (codes "\n") v
                  ∙ (ap (λ (t : Bytes). value ++ t) end_stripped ∙ append-nil value))) in
    rw (split_first-lacks comment_char (conf_line label value) none_there, ordinary) stripped

-- A key stands at the front of a line.
strncasecmp_eq-front : (key value : Bytes) → strncasecmp_eq (length key) (key ++ value) key ≡ true
unfolding strncasecmp_eq
strncasecmp_eq-front [] value = refl
strncasecmp_eq-front (c ∷ key) value = ground (arith, strncasecmp_eq-front key value)

get_value-hit : (key value : Bytes) → 1 ≤ length value → get_value (key ++ value) key ≡ some value
unfolding get_value
get_value-hit key value h =
    let longer : leb (length (key ++ value)) (length key) ≡ false =
      ground (arith, h, length-append key value) in
    rw (longer, strncasecmp_eq-front key value) (ap some (drop-append key value))

get_value-miss :
    (line key : Bytes) → strncasecmp_eq (length key) line key ≡ false → get_value line key ≡ none
unfolding get_value
get_value-miss line key h = elim (Bool-cases (leb (length line) (length key))) [
  | inl e ↦ rw e refl
  | inr e ↦ rw (e, h) refl
]

-- No key of the branches stands at the front of the line.
abbrev pub misses : {A : Type 0} → Bytes → Branches A → Bool
misses line [] = true
misses line ((key, branch) ∷ more) = not (strncasecmp_eq (length key) line key) && misses line more

pub first_key-skips :
    {A : Type 0} (key value : Bytes) (branch : Bytes → Outcome A) (before after : Branches A)
    → misses (key ++ value) before ≡ true
    → 1 ≤ length value
    → first_key (key ++ value) (before ++ ((key, branch) ∷ after)) ≡ branch value
unfolding first_key
first_key-skips key value branch [] after h k = rw (get_value-hit key value k, first_key) refl
first_key-skips key value branch ((other_key, skipped) ∷ before) after h k =
    let missed : strncasecmp_eq (length other_key) (key ++ value) other_key ≡ false =
      ground (arith, h) in
    rw (get_value-miss (key ++ value) other_key missed, first_key)
      (first_key-skips key value branch before after (ground (arith, h)) k)
