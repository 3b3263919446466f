-- ===== src/WgQuick/Script.antt =====
-- android/tunnel/tools/amneziawg-tools/src/wg-quick/android.c: how the program runs commands and
-- ends. What it asks of its surroundings is kept in a list, the newest first, and an answer may depend
-- on all that was asked before. The lines that it prints for its user are left out.
pub mod Keeps
pub mod Only
use router1_app.Prelude.{
  ℕ, Bool, not, ◌&&◌, Option, none, some, List, [], ◌∷◌, ◌++◌, ltb, leb, ◌==◌, if◌then◌else◌, Bytes,
  codes, truthy,
}
use router1_app.Libc.{atoi}

-- The calls of the Android binder on one transaction.
pub data Call : Type 0 where
  prepare_transaction : Call
  write_int32 : ℕ → Call
  write_string_array : List Bytes → ℕ → Call
  write_string : Bytes → ℕ → Call
  set_data_position : ℕ → Call
  transact : ℕ → Call
  read_status_header : Call

-- `system(cmd)`, `popen(cmd, "r")`, `popen(cmd, "w")` with the text written, and a binder call.
pub data Event : Type 0 where
  ran : Bytes → Event
  asked : Bytes → Event
  fed : Bytes → Bytes → Event
  called : Call → Event

-- How a child ends; what a pipe gives, up to its end or an error of the last read (0 for none); and
-- what comes of a text written into a pipe.
pub data Ended : Type 0 where
  not_started : Ended
  exited : ℕ → Ended
  killed : Ended

pub data Piped : Type 0 where
  refused : ℕ → Piped
  output : List Bytes → ℕ → Piped

pub data Fed : Type 0 where
  unopened : ℕ → Fed
  unwritten : ℕ → Fed
  closed : Ended → Fed

-- AStatus, and a file or the error of fopen.
pub record AStatus : Type 0 where
  pub is_ok : Bool
  pub exception_code : ℕ
  pub status : ℕ

pub data Opened : Type 0 where
  no_file : ℕ → Opened
  contents : List Bytes → Opened

-- The surroundings. `regexec` gives the text of the first group of a match; `behind` are the texts
-- that stand in the memory behind the lists of applications.
pub record World : Type 0 where
  pub regexec : Bytes → Bytes → Option Bytes
  pub run : List Event → Bytes → Ended
  pub pipe : List Event → Bytes → Piped
  pub feed : List Event → Bytes → Bytes → Fed
  pub random : ℕ → ℕ
  pub fopen : Bytes → Opened
  pub qsort : (ℕ → ℕ → ℕ) → List ℕ → List ℕ
  pub behind : List Bytes
  pub binder_available : Bool
  pub has_service : Bool
  pub class_defined : Bool
  pub class_associated : Bool
  pub call : List Event → Call → ℕ
  pub data_position : List Event → ℕ
  pub status_out : List Event → AStatus
  pub package_name : Bytes
  pub calling_package : Option Bytes
  pub uid : ℕ
  pub execvp : List Bytes → Option ℕ
  pub sdk : Option Bytes

-- The variables of the file and what was asked so far; `draws` counts the calls of random.
pub record State : Type 0 where
  pub done : List Event
  pub draws : ℕ
  pub is_exiting : Bool
  pub cleanup_iface : Option Bytes
  pub is_awg_on : Bool
  pub sdk_version : ℕ

-- A value, an exit, a process replaced by execvp, an access out of bounds, or a loop that is not at
-- its end within the rounds that the model follows.
pub data Result (A : Type 0) : Type 0 where
  returned : A → Result A
  exits : ℕ → Result A
  replaced : Result A
  fault : Result A
  hang : Result A

abbrev pub Script : Type 0 → Type 0
Script A = State → Result A × State

unfoldable pub pure : {A : Type 0} → A → Script A
pure a s = (returned a, s)

unfoldable pub exit : {A : Type 0} → ℕ → Script A
exit n s = (exits n, s)

unfoldable pub out_of_bounds : {A : Type 0} → Script A
out_of_bounds s = (fault, s)

abbrev pub onward : {A B : Type 0} → Result A × State → (A → Script B) → Result B × State
onward (returned a, s) f = f a s
onward (exits n, s) f = (exits n, s)
onward (replaced, s) f = (replaced, s)
onward (fault, s) f = (fault, s)
onward (hang, s) f = (hang, s)

infixl 5 ◌>>=◌ ◌>>◌
unfoldable pub ◌>>=◌ : {A B : Type 0} → Script A → (A → Script B) → Script B
◌>>=◌ m f s = onward (m s) f

abbrev pub ◌>>◌ : {A B : Type 0} → Script A → Script B → Script B
m >> k = m >>= λ _. k

unfoldable pub gets : {A : Type 0} → (State → A) → Script A
gets f s = (returned (f s), s)

unfoldable pub modify : (State → State) → Script Unit
modify f s = (returned tt, f s)

abbrev pub note : Event → Script Unit
note e = modify (λ s. record s { done = e ∷ s.done })

abbrev pub concat : List Bytes → Bytes
concat [] = []
concat (x ∷ xs) = x ++ concat xs

abbrev pub status : Ended → ℕ
status not_started = 3
status (exited n) = n
status killed = 5

unfoldable pub cmd : World → Bytes → Script Unit
cmd w line = do
  ended ← gets (λ s. w.run s.done line)
  note (ran line)
  exiting ← gets (λ s. s.is_exiting)
  if truthy (status ended) && not exiting then exit (status ended) else pure tt

-- The whole output of a command, as the loops over `cmd_ret` read it.
unfoldable pub whole_output : Piped → Script (List Bytes × ℕ)
whole_output (refused e) = exit e
whole_output (output lines e) = pure (lines, e)

unfoldable pub popen : World → Bytes → Script (List Bytes × ℕ)
unfolding whole_output
popen w line = do piped ← gets (λ s. w.pipe s.done line); note (asked line); whole_output piped

unfoldable pub on_option : {A B : Type 0} → Option A → Script B → (A → Script B) → Script B
on_option none n f = n
on_option (some a) n f = f a

unfoldable pub opened_lines : Opened → Script (List Bytes)
opened_lines (no_file e) = exit e
opened_lines (contents lines) = pure lines

-- The end of the output, or the error of getline.
abbrev pub ending : {A : Type 0} → ℕ → A → Script A
ending e a = if e == 0 then pure a else exit e

-- The first line.
unfoldable pub first_line : List Bytes × ℕ → Script (Option Bytes)
first_line ([], e) = ending e none
first_line (first ∷ more, e) = pure (some first)

unfoldable pub cmd_ret : World → Bytes → Script (Option Bytes)
unfolding popen first_line
cmd_ret w line = do piped ← popen w line; first_line piped

-- A loop over all lines.
unfoldable pub fold_lines : {A : Type 0} → (A → Bytes → Script A) → A → List Bytes → ℕ → Script A
fold_lines f a [] e = ending e a
fold_lines f a (line ∷ lines) e = f a line >>= λ b. fold_lines f b lines e

unfoldable pub each_line : World → Bytes → {A : Type 0} → (A → Bytes → Script A) → A → Script A
unfolding popen fold_lines
each_line w line f a = popen w line >>= λ piped. fold_lines f a piped.0 piped.1

unfoldable pub cndc : World → Bytes → Script Unit
unfolding cmd_ret atoi
cndc w line = do
  ret ← cmd_ret w (codes "ndc " ++ line)
  on_option ret (exit 38) (λ answer.
      let error_code = atoi answer in
      if leb 400 error_code && ltb error_code 600 then exit 64 else pure tt)
