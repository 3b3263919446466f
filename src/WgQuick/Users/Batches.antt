-- ===== src/WgQuick/Users/Batches.antt =====
-- wg-quick/android.c: the ranges of set_users in commands of at most eighteen.
use mathlib.Core.List.{append-nil, append_assoc}
use router1_app.Prelude.{
  ℕ, ◌+◌, ◌≤◌, ◌<◌, ◌≡◌, refl, ap, ◌∙◌, List, [], ◌∷◌, ◌++◌, ◌==◌, if◌then◌else◌, inl, inr,
  Bool-cases, arith, Bytes, codes, length, All, length-append, ◌%◌, sym, Option, none, some, true,
  false,
}
use router1_app.WgQuick.Laws.{joined, behind}
use router1_app.WgQuick.Script.{
  World, Script, pure, ◌>>◌, cndc, State, Result, onward, ◌>>=◌, on_option, returned, exits,
  replaced, fault, hang,
}
use router1_app.WgQuick.Users.{users_add, Batch, finish_users, add_range}
use router1_app.WgQuick.{concat_and_free}

-- Commands one behind the other.
abbrev pub each_command : World → List Bytes → Script Unit
each_command w [] = pure tt
each_command w (command ∷ commands) = cndc w command >> each_command w commands

abbrev pub flatten : {A : Type 0} → List (List A) → List A
flatten [] = []
flatten (xs ∷ xss) = xs ++ flatten xss

-- The texts in runs of eighteen, behind those of an open run.
unfoldable pub runs : List Bytes → List Bytes → List (List Bytes)
runs [] [] = []
runs (a ∷ acc) [] = (a ∷ acc) ∷ []
runs acc (x ∷ xs) =
    let next = runs [] xs in
    let same = runs (acc ++ (x ∷ [])) xs in
    if length acc == 17 then (acc ++ (x ∷ [])) ∷ next else same

abbrev pub users_commands : ℕ → List (List Bytes) → List Bytes
users_commands netid [] = []
users_commands netid (xs ∷ xss) = users_add netid (joined (codes " ") xs) ∷ users_commands netid xss

pub flatten-runs : (acc xs : List Bytes) → flatten (runs acc xs) ≡ acc ++ xs
unfolding runs
flatten-runs [] [] = refl
flatten-runs (a ∷ acc) [] = refl
flatten-runs acc (x ∷ xs) = elim (Bool-cases (length acc == 17)) [
  | inl e ↦ rw e (
      ap (λ (l : List Bytes). (acc ++ (x ∷ [])) ++ l) (flatten-runs [] xs)
      ∙ append_assoc acc (x ∷ []) xs)
  | inr e ↦ rw e (flatten-runs (acc ++ (x ∷ [])) xs ∙ append_assoc acc (x ∷ []) xs)
]

abbrev pub IsRun : List Bytes → Type 0
IsRun xs = (1 ≤ length xs) × (length xs ≤ 18)

pub runs-IsRun : (acc xs : List Bytes) → length acc < 18 → All IsRun (runs acc xs)
unfolding runs
runs-IsRun [] [] h = tt
runs-IsRun (a ∷ acc) [] h = ((omega arith, omega (arith, h)), tt)
runs-IsRun acc (x ∷ xs) h =
    let longer : length (acc ++ (x ∷ [])) ≡ length acc + 1 = length-append acc (x ∷ []) in
    elim (Bool-cases (length acc == 17)) [
      | inl e ↦
          rw e ((ground (arith, longer), ground (arith, longer)), runs-IsRun [] xs (omega arith))
      | inr e ↦ rw e (runs-IsRun (acc ++ (x ∷ [])) xs (ground (arith, longer, h)))
    ]

-- The texts of the open run, as `ranges` holds them.
abbrev pub open_text : List Bytes → Option Bytes
open_text [] = none
open_text (x ∷ xs) = some (joined (codes " ") (x ∷ xs))

behind-append :
    (sep : Bytes) (xs : List Bytes) (x : Bytes)
    → behind sep (xs ++ (x ∷ [])) ≡ behind sep xs ++ (sep ++ x)
behind-append sep [] x = ap (λ (t : Bytes). sep ++ t) (append-nil x)
behind-append sep (y ∷ xs) x =
    ap (λ (t : Bytes). sep ++ (y ++ t)) (behind-append sep xs x)
    ∙ sym (
        append_assoc sep (y ++ behind sep xs) (sep ++ x)
        ∙ ap (λ (t : Bytes). sep ++ t) (append_assoc y (behind sep xs) (sep ++ x)))

pub concat_and_free-open_text :
    (acc : List Bytes) (x : Bytes)
    → concat_and_free (open_text acc) (codes " ") x ≡ open_text (acc ++ (x ∷ []))
concat_and_free-open_text [] x = ap some (sym (append-nil x))
concat_and_free-open_text (a ∷ acc) x = ap some (
    append_assoc a (behind (codes " ") acc) (codes " " ++ x)
    ∙ ap (λ (t : Bytes). a ++ t) (sym (behind-append (codes " ") acc x)))

onward_unit : (x : Result Unit × State) → onward x (λ _. λ s. (returned tt, s)) ≡ x
onward_unit (returned u, s) = refl
onward_unit (exits n, s) = refl
onward_unit (replaced, s) = refl
onward_unit (fault, s) = refl
onward_unit (hang, s) = refl

onward_after :
    (x : Result Unit × State) (b : Batch) (k : Batch → Script Unit) (g : Script Unit)
    → ((t : State) → k b t ≡ g t)
    → onward (onward x (λ _. λ t. (returned b, t))) k ≡ onward x (λ _. g)
onward_after (returned u, s) b k g h = h s
onward_after (exits n, s) b k g h = refl
onward_after (replaced, s) b k g h = refl
onward_after (fault, s) b k g h = refl
onward_after (hang, s) b k g h = refl

open_text-some :
    (acc : List Bytes) (x : Bytes)
    → open_text (acc ++ (x ∷ [])) ≡ some (joined (codes " ") (acc ++ (x ∷ [])))
open_text-some [] x = refl
open_text-some (a ∷ acc) x = refl

-- The open run and what `Batch` holds of it.
pub record Holds (acc : List Bytes) (b : Batch) : Type 0 where
  pub args : b.args % 18 ≡ length acc
  pub ranges : b.ranges ≡ open_text acc

module _ (w : World) (netid : ℕ) where
  -- The commands of the texts that come behind those of the open run.
  abbrev pub sends : List Bytes → List Bytes → Script Unit
  sends acc xs = each_command w (users_commands netid (runs acc xs))

  pub finish_users-sends :
      (acc : List Bytes) (b : Batch) (s : State)
      → b.ranges ≡ open_text acc
      → finish_users w netid b s ≡ sends acc [] s
  unfolding finish_users on_option ◌>>=◌ pure runs
  finish_users-sends [] b s h = rw h refl
  finish_users-sends (a ∷ acc) b s h =
      rw h (sym (onward_unit (cndc w (users_add netid (joined (codes " ") (a ∷ acc))) s)))

  finish_users-some :
      (acc : List Bytes) (b : Batch) (s : State)
      → b.ranges ≡ some (joined (codes " ") acc)
      → finish_users w netid b s ≡ cndc w (users_add netid (joined (codes " ") acc)) s
  unfolding finish_users on_option
  finish_users-some acc b s h = rw h refl

  runs_single : (acc : List Bytes) (x : Bytes) → runs acc (x ∷ []) ≡ (acc ++ (x ∷ [])) ∷ []
  unfolding runs
  runs_single [] x = refl
  runs_single (a ∷ acc) x = elim (Bool-cases (length (a ∷ acc) == 17)) [
    | inl e ↦ rw e refl
    | inr e ↦ rw e refl
  ]

  pub finish_users-last :
      (acc : List Bytes) (x : Bytes) (b : Batch) (s : State)
      → b.ranges ≡ open_text (acc ++ (x ∷ []))
      → finish_users w netid b s ≡ sends acc (x ∷ []) s
  unfolding ◌>>=◌ pure
  finish_users-last acc x b s h =
      finish_users-some (acc ++ (x ∷ [])) b s (h ∙ open_text-some acc x)
      ∙ rw (runs_single acc x)
          (sym (onward_unit (cndc w (users_add netid (joined (codes " ") (acc ++ (x ∷ [])))) s)))

  -- One text more, and then the rest.
  pub add_range-sends :
      (acc : List Bytes) (x : Bytes) (xs : List Bytes) (b : Batch) (k : Batch → Script Unit)
      → Holds acc b
      → ((acc : List Bytes) (b : Batch) (s : State) → Holds acc b → k b s ≡ sends acc xs s)
      → (s : State) → (add_range w netid x b >>= k) s ≡ sends acc (x ∷ xs) s
  unfolding add_range ◌>>=◌ pure runs
  add_range-sends acc x xs b k h next s =
      let more : Batch = record {
        args = b.args + 1;
        ranges = concat_and_free b.ranges (codes " ") x;
      } in
      let held : more.ranges ≡ open_text (acc ++ (x ∷ [])) =
        ap (λ (t : Option Bytes). concat_and_free t (codes " ") x) h.ranges
        ∙ concat_and_free-open_text acc x in
      elim (Bool-cases ((b.args + 1) % 18 == 0)) [
        | inl e ↦
            let full : (length acc == 17) ≡ true = ground (arith, h.args) in
            rw (e, full)
              (onward_after (finish_users w netid more s)
                  (record { args = b.args + 1; ranges = none }) k (sends [] xs)
                  (λ t. next [] _ t (record { args = ground (arith, h.args); ranges = refl }))
                ∙ ap (λ (y : Result Unit × State). onward y (λ _. sends [] xs))
                    (finish_users-some (acc ++ (x ∷ [])) more s (held ∙ open_text-some acc x)))
        | inr e ↦
            let room : (length acc == 17) ≡ false = ground (arith, h.args) in
            let longer = length-append acc (x ∷ []) in
            rw (e, room)
              (next (acc ++ (x ∷ [])) more s
                (record { args = ground (arith, h.args, longer); ranges = held }))
      ]
