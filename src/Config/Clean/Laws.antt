-- ===== src/Config/Clean/Laws.antt =====
-- What `clean_special_handshake_line` keeps of `key = value`.
use router1_app.Prelude.{
  ℕ, zero, suc, ◌+◌, ◌≤◌, ◌<◌, ◌≡◌, refl, ap, Bool, true, false, ◌&&◌, [], ◌∷◌, ◌++◌, arith, Bytes,
  length, take, sym, ◌∙◌, not, if◌then◌else◌,
}
use router1_app.Libc.{char_at}
use router1_app.Libc.Split.{lacks}
use router1_app.Ctype.{char_is_space}
use router1_app.Config.Read.{strip_spaces}
use router1_app.Config.Clean.{value_end, clean_loop, clean_special_handshake_line}

-- A text of blanks.
abbrev pub are_spaces : Bytes → Bool
are_spaces [] = true
are_spaces (c ∷ text) = char_is_space c && are_spaces text

-- The index i of what stands behind a text.
abbrev behind : Bytes → ℕ → ℕ
behind [] i = i
behind (c ∷ a) i = suc (behind a i)

behind-suc : (a : Bytes) (i : ℕ) → behind a (suc i) ≡ suc (behind a i)
behind-suc [] i = refl
behind-suc (c ∷ a) i = ap suc (behind-suc a i)

behind-length : (a : Bytes) (i : ℕ) → behind a i ≡ length a + i
behind-length [] i = omega arith
behind-length (c ∷ a) i = omega (arith, behind-length a i)

char_at-behind : (a text : Bytes) (i : ℕ) → char_at (a ++ text) (behind a i) ≡ char_at text i
char_at-behind [] text i = refl
char_at-behind (c ∷ a) text i = char_at-behind a text i

char_at-are_spaces :
    (blanks rest : Bytes) (i : ℕ)
    → are_spaces blanks ≡ true
    → i < length blanks
    → char_is_space (char_at (blanks ++ rest) i) ≡ true
char_at-are_spaces [] rest i h lt = absurd (omega arith)
char_at-are_spaces (c ∷ blanks) rest zero h lt = ground arith
char_at-are_spaces (c ∷ blanks) rest (suc i) h lt =
    char_at-are_spaces blanks rest i (ground arith) (omega arith)

take-behind : (a : Bytes) (c : ℕ) (text : Bytes) → take (behind a 1) (a ++ c ∷ text) ≡ a ++ c ∷ []
take-behind [] c text = refl
take-behind (x ∷ a) c text = ap (λ (t : Bytes). x ∷ t) (take-behind a c text)

value_end_step :
    (input : Bytes) (i : ℕ)
    → value_end input (suc i)
      ≡ (if not (char_is_space (char_at input i)) then suc i else value_end input i)
unfolding value_end
value_end_step input i = refl

-- The first pass stops behind the last character that is no blank.
value_end_lem :
    (a : Bytes) (c : ℕ) (blanks rest : Bytes) (k : ℕ)
    → char_is_space c ≡ false
    → are_spaces blanks ≡ true
    → k ≤ length blanks
    → value_end (a ++ c ∷ (blanks ++ rest)) (behind a (suc k)) ≡ behind a 1
value_end_lem a c blanks rest zero n h lt =
    let input = a ++ c ∷ (blanks ++ rest) in
    let here : char_at input (behind a 0) ≡ c = char_at-behind a (c ∷ (blanks ++ rest)) 0 in
    ap (λ (t : ℕ). value_end input t) (behind-suc a 0)
    ∙ value_end_step input (behind a 0)
    ∙ rw (here, n) (sym (behind-suc a 0))
value_end_lem a c blanks rest (suc k) n h lt =
    let input = a ++ c ∷ (blanks ++ rest) in
    let here : char_is_space (char_at input (behind a (suc k))) ≡ true =
      ap char_is_space (char_at-behind a (c ∷ (blanks ++ rest)) (suc k))
      ∙ char_at-are_spaces blanks rest k h (omega arith) in
    ap (λ (t : ℕ). value_end input t) (behind-suc a (suc k))
    ∙ value_end_step input (behind a (suc k))
    ∙ rw here (value_end_lem a c blanks rest k n h (omega arith))

clean_loop_value : (text : Bytes) → clean_loop true true text ≡ text
unfolding clean_loop
clean_loop_value [] = refl
clean_loop_value (c ∷ text) = ap (λ (t : Bytes). c ∷ t) (clean_loop_value text)

clean_loop_blanks :
    (blanks : Bytes) (v : ℕ) (value : Bytes)
    → are_spaces blanks ≡ true
    → char_is_space v ≡ false
    → clean_loop true false (blanks ++ v ∷ value) ≡ v ∷ value
unfolding clean_loop
clean_loop_blanks [] v value h n = rw n (ap (λ (t : Bytes). v ∷ t) (clean_loop_value value))
clean_loop_blanks (c ∷ blanks) v value h n = ground (arith, clean_loop_blanks blanks v value)

clean_loop_key :
    (key : Bytes) (value : Bytes)
    → lacks b'=' key ≡ true
    → clean_loop false false (key ++ b'=' ∷ value)
      ≡ strip_spaces key ++ b'=' ∷ clean_loop true false value
unfolding clean_loop strip_spaces
clean_loop_key [] value h = refl
clean_loop_key (c ∷ key) value h = ground (arith, clean_loop_key key value)

-- A line `key = value` loses the blanks within the key, around the equals sign and behind the value,
-- and what follows; the blanks within the value stay. `text` is all but the last character of what is
-- kept of the line, c that character and v the first one of the value, neither a blank.
pub clean_special_handshake_line_lem :
    (key before value text after rest : Bytes) (v c : ℕ)
    → text ++ c ∷ [] ≡ key ++ b'=' ∷ (before ++ v ∷ value)
    → lacks b'=' key ≡ true
    → are_spaces before ≡ true
    → char_is_space v ≡ false
    → char_is_space c ≡ false
    → are_spaces after ≡ true
    → clean_special_handshake_line (text ++ c ∷ (after ++ rest)) (length text + suc (length after))
      ≡ strip_spaces key ++ b'=' ∷ v ∷ value
unfolding clean_special_handshake_line
clean_special_handshake_line_lem key before value text after rest v c split k b first last a =
    let input = text ++ c ∷ (after ++ rest) in
    let stop : value_end input (length text + suc (length after)) ≡ behind text 1 =
      ap (λ (t : ℕ). value_end input t) (sym (behind-length text (suc (length after))))
      ∙ value_end_lem text c after rest (length after) last a (omega arith) in
    let kept : take (value_end input (length text + suc (length after))) input
        ≡ key ++ b'=' ∷ (before ++ v ∷ value) =
      ap (λ (t : ℕ). take t input) stop ∙ take-behind text c (after ++ rest) ∙ split in
    ap (λ (t : Bytes). clean_loop false false t) kept
    ∙ clean_loop_key key (before ++ v ∷ value) k
    ∙ ap (λ (t : Bytes). strip_spaces key ++ b'=' ∷ t) (clean_loop_blanks before v value b first)
