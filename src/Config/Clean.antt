-- ===== src/Config/Clean.antt =====
-- `clean_special_handshake_line` of config.c, which keeps the blanks inside a value.
pub mod Laws
use router1_app.Prelude.{
  ℕ, zero, suc, Bool, true, false, not, [], ◌∷◌, ◌==◌, if◌then◌else◌, Bytes, take,
}
use router1_app.Libc.{char_at}
use router1_app.Ctype.{char_is_space}

-- The first pass, from the index i down: the end of the text without trailing white space.
unfoldable pub value_end : Bytes → ℕ → ℕ
unfolding char_is_space
value_end input zero = 0
value_end input (suc i) =
    let rest = value_end input i in if not (char_is_space (char_at input i)) then suc i else rest

-- The second pass, over what is left of the input; the flags are `found_equals` and
-- `found_value_start`.
unfoldable pub clean_loop : Bool → Bool → Bytes → Bytes
unfolding char_is_space
clean_loop equals start [] = []
clean_loop false start (c ∷ input) =
    let value = c ∷ clean_loop true start input in
    let kept = c ∷ clean_loop false start input in
    let dropped = clean_loop false start input in
    if c == b'=' then value else if not (char_is_space c) then kept else dropped
clean_loop true false (c ∷ input) =
    let kept = c ∷ clean_loop true true input in
    let dropped = clean_loop true false input in if not (char_is_space c) then kept else dropped
clean_loop true true (c ∷ input) = c ∷ clean_loop true true input

-- What is written to `line`, up to its NUL; `cleaned_len` is its length.
unfoldable pub clean_special_handshake_line : Bytes → ℕ → Bytes
unfolding value_end clean_loop
clean_special_handshake_line input len = clean_loop false false (take (value_end input len) input)
