-- ===== src/WgQuick/Script/Keeps.antt =====
-- wg-quick/android.c: what every step of the program leaves as it is.
use mathlib.Core.List.{append_assoc}
use router1_app.Prelude.{
  ℕ, ◌≡◌, refl, sym, ap, ◌∙◌, Bool, true, false, Option, none, some, List, [], ◌∷◌, ◌++◌,
  if◌then◌else◌, Bytes, ◌==◌,
}
use router1_app.WgQuick.Script.{
  World, State, Opened, no_file, contents, opened_lines, Script, Result, Event, Piped, refused,
  output, returned, exits, replaced, fault, hang, pure, exit, out_of_bounds, gets, modify, note,
  onward, ◌>>=◌, cmd, popen, ending, cmd_ret, fold_lines, each_line, cndc, whole_output, first_line,
  on_option,
}

-- Of two states of a run, the later one: what was done stays done, and the name for the clean-up
-- and the mark of the exit are the same.
pub record Follows (s t : State) : Type 0 where
  pub news : List Event
  pub done : t.done ≡ news ++ s.done
  pub cleanup_iface : t.cleanup_iface ≡ s.cleanup_iface
  pub is_exiting : t.is_exiting ≡ s.is_exiting

pub Follows-refl : (s : State) → Follows s s
Follows-refl s = record { news = []; done = refl; cleanup_iface = refl; is_exiting = refl }

pub Follows-trans : (s t u : State) → Follows s t → Follows t u → Follows s u
Follows-trans s t u h k = record {
  news = k.news ++ h.news;
  done =
      k.done
      ∙ (ap (λ (l : List Event). k.news ++ l) h.done ∙ sym (append_assoc k.news h.news s.done));
  cleanup_iface = k.cleanup_iface ∙ h.cleanup_iface;
  is_exiting = k.is_exiting ∙ h.is_exiting;
}

pub record Keeps {A : Type 0} (m : Script A) : Type 0 where
  pub at : (s : State) → Follows s (m s).1

module _ {A : Type 0} where
  pub Keeps-pure : (a : A) → Keeps (pure a)
  unfolding pure
  Keeps-pure a = record { at = Follows-refl }

  pub Keeps-exit : (n : ℕ) → Keeps (exit {A = A} n)
  unfolding exit
  Keeps-exit n = record { at = Follows-refl }

  pub Keeps-out_of_bounds : Keeps (out_of_bounds {A = A})
  unfolding out_of_bounds
  Keeps-out_of_bounds = record { at = Follows-refl }

  pub Keeps-gets : (f : State → A) → Keeps (gets f)
  unfolding gets
  Keeps-gets f = record { at = Follows-refl }

  pub Keeps-if : (b : Bool) (m n : Script A) → Keeps m → Keeps n → Keeps (if b then m else n)
  Keeps-if true m n h k = h
  Keeps-if false m n h k = k

  pub Keeps-ending : (e : ℕ) (a : A) → Keeps (ending e a)
  Keeps-ending e a = Keeps-if (e == 0) (pure a) (exit e) (Keeps-pure a) (Keeps-exit e)

pub Keeps-note : (e : Event) → Keeps (note e)
unfolding modify
Keeps-note e = record {
  at = λ s. record { news = e ∷ []; done = refl; cleanup_iface = refl; is_exiting = refl };
}

module _ {A B : Type 0} where
  Follows-onward :
      (s : State) (x : Result A × State) (f : A → Script B)
      → Follows s x.1
      → ((a : A) → Keeps (f a))
      → Follows s (onward x f).1
  Follows-onward s (returned a, t) f h k = Follows-trans s t (f a t).1 h ((k a).at t)
  Follows-onward s (exits n, t) f h k = h
  Follows-onward s (replaced, t) f h k = h
  Follows-onward s (fault, t) f h k = h
  Follows-onward s (hang, t) f h k = h

  pub Keeps-bind :
      (m : Script A) (f : A → Script B) → Keeps m → ((a : A) → Keeps (f a)) → Keeps (m >>= f)
  unfolding ◌>>=◌
  Keeps-bind m f h k = record { at = λ s. Follows-onward s (m s) f (h.at s) k }

  pub Keeps-option :
      (o : Option A) (n : Script B) (f : A → Script B)
      → Keeps n
      → ((a : A) → Keeps (f a))
      → Keeps (on_option o n f)
  unfolding on_option
  Keeps-option none n f h k = h
  Keeps-option (some a) n f h k = k a

pub opened_lines-Keeps : (file : Opened) → Keeps (opened_lines file)
unfolding opened_lines
opened_lines-Keeps (no_file e) = Keeps-exit e
opened_lines-Keeps (contents lines) = Keeps-pure lines

pub ruleset keeps_rules = (
  Keeps-pure, Keeps-exit, Keeps-out_of_bounds, Keeps-gets, Keeps-if, Keeps-note, Keeps-bind,
  Keeps-option, Keeps-ending, opened_lines-Keeps,
)

pub cmd-Keeps : (w : World) (line : Bytes) → Keeps (cmd w line)
unfolding cmd
cmd-Keeps w line = search keeps_rules

whole_output-Keeps : (p : Piped) → Keeps (whole_output p)
unfolding whole_output
whole_output-Keeps (refused e) = Keeps-exit e
whole_output-Keeps (output lines e) = Keeps-pure (lines, e)

pub popen-Keeps : (w : World) (line : Bytes) → Keeps (popen w line)
unfolding popen
popen-Keeps w line = search (keeps_rules, whole_output-Keeps)

first_line-Keeps : (piped : List Bytes × ℕ) → Keeps (first_line piped)
unfolding first_line
first_line-Keeps ([], e) = Keeps-ending e none
first_line-Keeps (first ∷ more, e) = Keeps-pure (some first)

pub cmd_ret-Keeps : (w : World) (line : Bytes) → Keeps (cmd_ret w line)
unfolding cmd_ret
cmd_ret-Keeps w line = search (keeps_rules, popen-Keeps, first_line-Keeps)

pub fold_lines-Keeps :
    {A : Type 0} (f : A → Bytes → Script A) (a : A) (lines : List Bytes) (e : ℕ)
    → ((a : A) (line : Bytes) → Keeps (f a line))
    → Keeps (fold_lines f a lines e)
unfolding fold_lines
fold_lines-Keeps f a [] e h = Keeps-ending e a
fold_lines-Keeps f a (line ∷ lines) e h =
    Keeps-bind (f a line) (λ b. fold_lines f b lines e) (h a line)
      (λ b. fold_lines-Keeps f b lines e h)

pub each_line-Keeps :
    (w : World) (line : Bytes) {A : Type 0} (f : A → Bytes → Script A) (a : A)
    → ((a : A) (line : Bytes) → Keeps (f a line))
    → Keeps (each_line w line f a)
unfolding each_line
each_line-Keeps w line f a h =
    Keeps-bind (popen w line) (λ piped. fold_lines f a piped.0 piped.1) (popen-Keeps w line)
      (λ piped. fold_lines-Keeps f a piped.0 piped.1 h)

pub cndc-Keeps : (w : World) (line : Bytes) → Keeps (cndc w line)
unfolding cndc
cndc-Keeps w line = search (keeps_rules, cmd_ret-Keeps)

-- With the commands.
pub ruleset commands =
    (keeps_rules, cmd-Keeps, popen-Keeps, cmd_ret-Keeps, each_line-Keeps, cndc-Keeps)
