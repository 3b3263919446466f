-- ===== src/Config/Read/Lines.antt =====
-- What `config_read_line` makes of a line: the comment, blank lines, and the state that it leaves.
use router1_app.Prelude.{
  ℕ, ◌≡◌, refl, ◌∙◌, Bool, true, false, [], ◌∷◌, ◌++◌, arith, ◌==◌, Bytes, Ensures, Ensures-if, ok,
  length,
}
use router1_app.Libc.Split.{lacks, split_first-append}
use router1_app.Config.Host.{Host, IsHost}
use router1_app.Config.Line.{Ctx}
use router1_app.Config.Line.Peers.{IsCtx, process_line-Ensures}
use router1_app.Containers.Valid.{zero_device-IsDevice}
use router1_app.Config.Clean.Laws.{are_spaces}
use router1_app.Config.Read.{
  strip_spaces, comment_char, is_special, awg_special_handshake_keys, cleaned_line,
  config_read_line, config_read_init,
}

strip_spaces-are_spaces : (text : Bytes) → are_spaces text ≡ true → strip_spaces text ≡ []
unfolding strip_spaces
strip_spaces-are_spaces [] h = refl
strip_spaces-are_spaces (c ∷ text) h = ground (arith, strip_spaces-are_spaces text)

-- What stands behind the comment character does not matter, outside the lines I1 to I5.
pub cleaned_line-comment :
    (text comment : Bytes)
    → lacks comment_char text ≡ true
    → is_special awg_special_handshake_keys (text ++ comment_char ∷ comment) ≡ false
    → cleaned_line (text ++ comment_char ∷ comment) ≡ strip_spaces text
unfolding cleaned_line
cleaned_line-comment text comment h ordinary =
    rw (split_first-append comment_char text comment h, ordinary) refl

-- A line of blanks and a comment leaves the state as it is.
pub config_read_line-comment :
    (h : Host) (fuel : ℕ) (ctx : Ctx) (text comment : Bytes)
    → lacks comment_char text ≡ true
    → are_spaces text ≡ true
    → is_special awg_special_handshake_keys (text ++ comment_char ∷ comment) ≡ false
    → config_read_line h fuel ctx (text ++ comment_char ∷ comment) ≡ ok ctx
unfolding config_read_line
config_read_line-comment h fuel ctx text comment plain blank ordinary =
    let cleaned : cleaned_line (text ++ comment_char ∷ comment) ≡ [] =
      cleaned_line-comment text comment plain ordinary ∙ strip_spaces-are_spaces text blank in
    rw cleaned refl

-- Every line leaves the state well-formed, and reads through no null pointer.
pub config_read_line-Ensures :
    (h : Host) (fuel : ℕ) (ctx : Ctx) (input : Bytes)
    → IsHost h
    → IsCtx ctx
    → Ensures IsCtx (config_read_line h fuel ctx input)
unfolding config_read_line
config_read_line-Ensures h fuel ctx input w good =
    Ensures-if IsCtx (length (cleaned_line input) == 0) _ _ (λ empty. good)
      (λ some_text. process_line-Ensures h w fuel (cleaned_line input) ctx good)

pub config_read_init-IsCtx : (append : Bool) → IsCtx (config_read_init append)
unfolding config_read_init
config_read_init-IsCtx append =
    let z = zero_device-IsDevice in
    record { device_valid = assumption; one_section = λ e. refl; has_last_peer = λ e. cc }
