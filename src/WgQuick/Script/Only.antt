-- ===== src/WgQuick/Script/Only.antt =====
-- wg-quick/android.c: which commands a step of the program may run.
use mathlib.Core.List.{append_assoc}
use router1_app.Prelude.{
  ℕ, ◌≡◌, refl, sym, ap, ◌∙◌, Bool, true, false, Option, none, some, List, [], ◌∷◌, ◌++◌,
  if◌then◌else◌, Bytes, codes, ◌==◌, All, All-append,
}
use router1_app.WgQuick.Script.{
  World, State, Script, Result, Event, ran, asked, Piped, refused, output, returned, exits,
  replaced, fault, hang, pure, exit, gets, modify, note, onward, ◌>>=◌, cmd, popen, ending, cmd_ret,
  fold_lines, each_line, cndc, whole_output, first_line, on_option,
}

-- What is new in the second state is of the one kind.
pub record Adds (P : Event → Type 0) (s t : State) : Type 0 where
  pub news : List Event
  pub done : t.done ≡ news ++ s.done
  pub only : All P news

pub record Only (P : Event → Type 0) {A : Type 0} (m : Script A) : Type 0 where
  pub at : (s : State) → Adds P s (m s).1

module _ (P : Event → Type 0) where
  Adds-refl : (s : State) → Adds P s s
  Adds-refl s = record { news = []; done = refl; only = tt }

  Adds-trans : (s t u : State) → Adds P s t → Adds P t u → Adds P s u
  Adds-trans s t u h k = record {
    news = k.news ++ h.news;
    done =
        k.done
        ∙ (ap (λ (l : List Event). k.news ++ l) h.done ∙ sym (append_assoc k.news h.news s.done));
    only = All-append P k.news h.news k.only h.only;
  }

  Only-note : (e : Event) → P e → Only P (note e)
  unfolding modify
  Only-note e p = record { at = λ s. record { news = e ∷ []; done = refl; only = (p, tt) } }

  module _ {A : Type 0} where
    pub Only-pure : (a : A) → Only P (pure a)
    unfolding pure
    Only-pure a = record { at = Adds-refl }

    pub Only-exit : (n : ℕ) → Only P (exit {A = A} n)
    unfolding exit
    Only-exit n = record { at = Adds-refl }

    Only-gets : (f : State → A) → Only P (gets f)
    unfolding gets
    Only-gets f = record { at = Adds-refl }

    pub Only-if : (b : Bool) (m n : Script A) → Only P m → Only P n → Only P (if b then m else n)
    Only-if true m n h k = h
    Only-if false m n h k = k

    pub Only-ending : (e : ℕ) (a : A) → Only P (ending e a)
    Only-ending e a = Only-if (e == 0) (pure a) (exit e) (Only-pure a) (Only-exit e)

  module _ {A B : Type 0} where
    Adds-onward :
        (s : State) (x : Result A × State) (f : A → Script B)
        → Adds P s x.1
        → ((a : A) → Only P (f a))
        → Adds P s (onward x f).1
    Adds-onward s (returned a, t) f h k = Adds-trans s t (f a t).1 h ((k a).at t)
    Adds-onward s (exits n, t) f h k = h
    Adds-onward s (replaced, t) f h k = h
    Adds-onward s (fault, t) f h k = h
    Adds-onward s (hang, t) f h k = h

    pub Only-bind :
        (m : Script A) (f : A → Script B) → Only P m → ((a : A) → Only P (f a)) → Only P (m >>= f)
    unfolding ◌>>=◌
    Only-bind m f h k = record { at = λ s. Adds-onward s (m s) f (h.at s) k }

    pub Only-option :
        (o : Option A) (n : Script B) (f : A → Script B)
        → Only P n
        → ((a : A) → Only P (f a))
        → Only P (on_option o n f)
    unfolding on_option
    Only-option none n f h k = h
    Only-option (some a) n f h k = k a

  whole_output-Only : (p : Piped) → Only P (whole_output p)
  unfolding whole_output
  whole_output-Only (refused e) = Only-exit e
  whole_output-Only (output lines e) = Only-pure (lines, e)

  first_line-Only : (piped : List Bytes × ℕ) → Only P (first_line piped)
  unfolding first_line
  first_line-Only ([], e) = Only-ending e none
  first_line-Only (first ∷ more, e) = Only-pure (some first)

  fold_lines-Only :
      {A : Type 0} (f : A → Bytes → Script A) (a : A) (lines : List Bytes) (e : ℕ)
      → ((a : A) (line : Bytes) → Only P (f a line))
      → Only P (fold_lines f a lines e)
  unfolding fold_lines
  fold_lines-Only f a [] e h = Only-ending e a
  fold_lines-Only f a (line ∷ lines) e h =
      Only-bind (f a line) (λ b. fold_lines f b lines e) (h a line)
        (λ b. fold_lines-Only f b lines e h)

  pub cmd-Only : (w : World) (line : Bytes) → P (ran line) → Only P (cmd w line)
  unfolding cmd
  cmd-Only w line p = search (p, Only-pure, Only-exit, Only-gets, Only-if, Only-bind, Only-note)

  pub popen-Only : (w : World) (line : Bytes) → P (asked line) → Only P (popen w line)
  unfolding popen
  popen-Only w line p = search (p, Only-gets, Only-bind, Only-note, whole_output-Only)

  pub cmd_ret-Only : (w : World) (line : Bytes) → P (asked line) → Only P (cmd_ret w line)
  unfolding cmd_ret
  cmd_ret-Only w line p = search (p, Only-bind, popen-Only, first_line-Only)

  pub each_line-Only :
      (w : World) (line : Bytes) {A : Type 0} (f : A → Bytes → Script A) (a : A)
      → P (asked line)
      → ((a : A) (line : Bytes) → Only P (f a line))
      → Only P (each_line w line f a)
  unfolding each_line
  each_line-Only w line f a p h =
      Only-bind (popen w line) (λ piped. fold_lines f a piped.0 piped.1) (popen-Only w line p)
        (λ piped. fold_lines-Only f a piped.0 piped.1 h)

  pub cndc-Only :
      (w : World) (line : Bytes) → P (asked (codes "ndc " ++ line)) → Only P (cndc w line)
  unfolding cndc
  cndc-Only w line p =
      search (p, Only-pure, Only-exit, Only-if, Only-option, Only-bind, cmd_ret-Only)
