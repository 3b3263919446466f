-- ===== src/Uapi/Steps.antt =====
-- How a line of an answer ends a round of the loop of `userspace_get_device` in ipc-uapi.h, and its
-- macro NUM.
use router1_app.Prelude.{ℕ, Bool, not, ◌||◌, ltb, if◌then◌else◌, Bytes}
use router1_app.Libc.{char_at, strtoul}
use router1_app.Ctype.{char_is_digit}
use router1_app.Config.Values.{at_end}

-- What a line comes to: the loop goes on, it is left by `break`, or by `goto err` with ENETUNREACH.
pub data Step {ℓ} (A : Type ℓ) : Type ℓ where
  next : A → Step A
  broken : Step A
  unreachable : Step A

abbrev pub bind_step {ℓ κ} : {A : Type ℓ} {B : Type κ} → Step A → (A → Step B) → Step B
bind_step (next a) f = f a
bind_step broken f = broken
bind_step unreachable f = unreachable

-- The macro NUM: a number of digits that is at most `max`.
unfoldable pub num : ℕ → Bytes → Step ℕ
unfolding char_is_digit
num max value =
    if not (char_is_digit (char_at value 0))
    then broken
    else let (n, end) = strtoul value 10 in if not (at_end end) || ltb max n then broken else next n

abbrev pub when_key {ℓ} : {A : Type ℓ} → Bool → A → A → A
when_key b then_branch otherwise = if b then then_branch else otherwise

abbrev pub accepted_key : Bool × Bytes → Step Bytes
accepted_key (accepted, key) = if accepted then next key else broken
