-- ===== src/WgQuick/Users/Laws.antt =====
-- wg-quick/android.c: set_users as a whole.
use router1_app.Prelude.{
  ℕ, ◌-◌, ◌^◌, ◌≤◌, ◌<◌, ◌≡◌, inl, inr, true, Option, none, some, List, [], ◌∷◌, arith, ltb, leb,
  ◌==◌, Bool-cases, Option-cases, Bytes, codes, replicate, All, All-append, zero, suc, ◌+◌, refl,
  ◌++◌, length, sym, ap, ◌∙◌, Bool, not,
}
use router1_app.WgQuick.Users.Selected.{
  Strays, found-some, found-none, matches, found, read_packages-found,
}
use router1_app.WgQuick.Users.Gaps.{
  Ascends, listed, IsUid, gaps, range_texts, uid_texts, excluded_loop-sends, included_loop-sends,
  covers, covers-gaps,
}
use router1_app.WgQuick.Users.{
  is_token, read_package, compare_uid, package_uid, tokens, commas, get_uid_list, or_whole,
  with_uid, no_batch, set_users,
}
use router1_app.WgQuick.Script.{
  contents, World, State, returned, pure, ◌>>=◌, on_option, opened_lines, Script,
}
use mathlib.Core.Path.{subst}
use router1_app.WgQuick.Users.Slots.{package_names, Distinct, length-found, words-tokens}
use router1_app.Libc.{split_first}
use router1_app.WgQuick.Users.Batches.{
  runs-IsRun, users_commands, each_command, flatten-runs, runs, IsRun, sends, flatten, Holds,
}

-- What the C library documents of qsort: it keeps the elements, and where the comparison is
-- negative exactly for a smaller first element, they come out in order.
pub record IsQsort (qsort : (ℕ → ℕ → ℕ) → List ℕ → List ℕ) : Type 0 where
  pub same : (cmp : ℕ → ℕ → ℕ) (l : List ℕ) (v : ℕ) → listed (qsort cmp l) v ≡ listed l v
  pub ordered :
      (cmp : ℕ → ℕ → ℕ) (l : List ℕ)
      → ((a b : ℕ) → listed l a ≡ true → listed l b ≡ true → leb (2 ^ 31) (cmp a b) ≡ ltb a b)
      → Ascends 0 (qsort cmp l)

abbrev pub IsSmall : Option (Bytes × ℕ) → Type 0
IsSmall none = Unit
IsSmall (some parts) = parts.1 < 2 ^ 31

abbrev pub IsSmallLine : Bytes → Type 0
IsSmallLine line = IsSmall (read_package line)

-- The list of packages can be read, names no package twice, and has uids below 2 ^ 31; what the loop
-- reads in the memory behind a list of applications, which is nothing if the list ends in a comma,
-- names none of its packages; and qsort sorts.
pub record Readable (w : World) (lines : List Bytes) (selected : Bytes) : Type 0 where
  pub strays : List Bytes
  pub reads : Strays selected w.behind strays
  pub unknown : found strays lines ≡ []
  pub opened : w.fopen (codes "/data/system/packages.list") ≡ contents lines
  pub distinct : Distinct (package_names lines)
  pub small : All IsSmallLine lines
  pub sorts : IsQsort w.qsort

-- A user of the loops whose comparison by subtraction is that of the numbers.
abbrev pub IsAppUid : ℕ → Type 0
IsAppUid uid = (1 ≤ uid) × (uid < 2 ^ 31)

package_uid_positive : (text : Bytes) (n : ℕ) → package_uid text ≡ some n → 1 ≤ n
package_uid_positive text n h = ground (arith, h)

with_uid_positive :
    (name text : Bytes) (parts : Bytes × ℕ)
    → with_uid name (package_uid text) ≡ some parts
    → 1 ≤ parts.1
with_uid_positive name text parts h = elim (Option-cases (package_uid text)) [
  | inl e ↦ let step : with_uid name (package_uid text) ≡ none = ap (with_uid name) e in cc
  | inr (n, e) ↦
      let step : with_uid name (package_uid text) ≡ some (name, n) = ap (with_uid name) e in
      let same : (name, n) ≡ parts = cc in
      subst (λ (p : Bytes × ℕ). 1 ≤ p.1) same (package_uid_positive text n e)
]

read_package_positive :
    (line : Bytes) (parts : Bytes × ℕ) → read_package line ≡ some parts → 1 ≤ parts.1
unfolding read_package
read_package_positive line parts h = elim (Option-cases (split_first b' ' line)) [
  | inl e ↦ let step : read_package line ≡ none = rw (e, read_package) refl in cc
  | inr (ends, e) ↦
      let text = or_whole ends.1 (split_first b' ' ends.1) in
      let step : read_package line ≡ with_uid ends.0 (package_uid text) =
        rw (e, read_package) refl in
      with_uid_positive ends.0 text parts (sym step ∙ h)
]

matches-IsAppUid :
    (texts : List Bytes) (name : Bytes) (uid : ℕ)
    → IsAppUid uid
    → All IsAppUid (matches texts name uid)
unfolding matches
matches-IsAppUid [] name uid h = tt
matches-IsAppUid (text ∷ texts) name uid h = elim (Bool-cases (is_token name text)) [
  | inl e ↦ rw e (h, matches-IsAppUid texts name uid h)
  | inr e ↦ rw e (matches-IsAppUid texts name uid h)
]

found-IsAppUid :
    (texts lines : List Bytes) → All IsSmallLine lines → All IsAppUid (found texts lines)
unfolding found
found-IsAppUid texts [] h = tt
found-IsAppUid texts (line ∷ lines) (small, h) = elim (Option-cases (read_package line)) [
  | inl e ↦ rw (found-none texts line lines e) (found-IsAppUid texts lines h)
  | inr (parts, e) ↦ rw (found-some texts line lines parts e) (
      All-append IsAppUid (matches texts parts.0 parts.1) (found texts lines)
        (matches-IsAppUid texts parts.0 parts.1
          (read_package_positive line parts e, subst IsSmall e small))
        (found-IsAppUid texts lines h))
]

module _ (P : ℕ → Type 0) where
  All-listed : (l : List ℕ) (v : ℕ) → All P l → listed l v ≡ true → P v
  unfolding listed
  All-listed [] v h e = cc
  All-listed (x ∷ l) v (p, h) e = elim (Bool-cases (x == v)) [
    | inl same ↦ subst P (ground (arith, same)) p
    | inr other ↦ All-listed l v h (ground (arith, other, e))
  ]

  listed-All : (l : List ℕ) → ((v : ℕ) → listed l v ≡ true → P v) → All P l
  unfolding listed
  listed-All [] h = tt
  listed-All (x ∷ l) h = (h x (ground arith), listed-All l (λ v e. h v (ground (arith, e))))

compare_uid_sign : (a b : ℕ) → a < 2 ^ 31 → b < 2 ^ 31 → leb (2 ^ 31) (compare_uid a b) ≡ ltb a b
compare_uid_sign a b h k = ground (arith, h, k)

replicate_positive : (n : ℕ) → 1 ≤ n → (zeros : List ℕ) × (replicate {A = ℕ} n 0 ≡ 0 ∷ zeros)
replicate_positive zero h = absurd (omega (arith, h))
replicate_positive (suc n) h = (replicate n 0, refl)

get_uid_list_run :
    (w : World) (lines : List Bytes) (c : ℕ) (text : Bytes) (s : State)
    → Readable w lines (c ∷ text)
    → get_uid_list w (some (c ∷ text)) s ≡ (
      returned (
          w.qsort compare_uid (found (tokens (c ∷ text)) lines)
          ++ replicate (2 + commas text - length (found (tokens (c ∷ text)) lines)) 0),
      s,
    )
unfolding get_uid_list on_option ◌>>=◌ pure opened_lines
get_uid_list_run w lines c text s h =
    let fits = length-found (tokens (c ∷ text)) lines h.distinct in
    let few = words-tokens c text in
    rw h.opened (
      rw
        (read_packages-found (2 + commas text) c text w.behind h.strays lines [] s h.reads h.unknown
          (omega (arith, fits, few)))
        refl)

-- The list of a selection, with its end.
get_uid_list-found :
    (w : World) (lines : List Bytes) (c : ℕ) (text : Bytes) (s : State)
    → Readable w lines (c ∷ text)
    → (zeros : List ℕ) × (get_uid_list w (some (c ∷ text)) s
        ≡ (returned (w.qsort compare_uid (found (tokens (c ∷ text)) lines) ++ (0 ∷ zeros)), s))
get_uid_list-found w lines c text s h =
    let all = found (tokens (c ∷ text)) lines in
    let fits = length-found (tokens (c ∷ text)) lines h.distinct in
    let few = words-tokens c text in
    let end = replicate_positive (2 + commas text - length all) (omega (arith, fits, few)) in
    (
      end.0,
      get_uid_list_run w lines c text s h
          ∙ ap (λ (l : List ℕ). (returned (w.qsort compare_uid all ++ l), s)) end.1,
    )

-- The sorted list of the uids of a selection.
abbrev selected_uids : World → List Bytes → Bytes → List ℕ
selected_uids w lines selected = w.qsort compare_uid (found (tokens selected) lines)

module _ (w : World) (lines : List Bytes) (selected : Bytes) (h : Readable w lines selected) where
  each-IsAppUid : (v : ℕ) → listed (found (tokens selected) lines) v ≡ true → IsAppUid v
  each-IsAppUid v =
      All-listed IsAppUid (found (tokens selected) lines) v
        (found-IsAppUid (tokens selected) lines h.small)

  selected_uids-IsUid : All IsUid (selected_uids w lines selected)
  selected_uids-IsUid = listed-All IsUid (selected_uids w lines selected) (λ v e.
      let app = each-IsAppUid v (sym (h.sorts.same compare_uid _ v) ∙ e) in
      (app.0, omega (arith, app.1)))

  selected_uids-Ascends : Ascends 0 (selected_uids w lines selected)
  selected_uids-Ascends =
      h.sorts.ordered compare_uid (found (tokens selected) lines)
        (λ a b ha hb. compare_uid_sign a b (each-IsAppUid a ha).1 (each-IsAppUid b hb).1)

-- The commands that set_users runs give each range of the list, in runs of at most eighteen.
pub record Given (w : World) (netid : ℕ) (texts : List Bytes) (m : Script Unit) : Type 0 where
  pub batches : List (List Bytes)
  pub whole : flatten batches ≡ texts
  pub sized : All IsRun batches
  pub run : (s : State) → m s ≡ each_command w (users_commands netid batches) s

no_batch-Holds : Holds [] no_batch
no_batch-Holds = record { args = refl; ranges = refl }

sends-Given :
    (w : World) (netid : ℕ) (texts : List Bytes) (m : Script Unit)
    → ((s : State) → m s ≡ sends w netid [] texts s)
    → Given w netid texts m
sends-Given w netid texts m h = record {
  batches = runs [] texts;
  whole = flatten-runs [] texts;
  sized = runs-IsRun [] texts (omega arith);
  run = h;
}

-- The users of a selection of packages.
abbrev pub is_selected : List Bytes → Bytes → ℕ → Bool
is_selected lines selected v = listed (found (tokens selected) lines) v

-- With a list of excluded applications, set_users runs commands that give ranges, at most eighteen
-- in each; and below 99999 these ranges hold exactly the users that no package of the list has. The
-- list of packages can be read, names no package twice and has users below 2 ^ 31; what the code reads
-- behind a list that does not end in a comma names none of its packages; and qsort sorts.
pub set_users_excluded :
    (w : World) (netid : ℕ) (lines : List Bytes) (c : ℕ) (text : Bytes)
    → Readable w lines (c ∷ text)
    → (ranges : List (ℕ × ℕ)) × Given w netid
        (range_texts ranges)
        (set_users w netid (some (c ∷ text)) none)
      × ((v : ℕ) → v < 99999 → covers ranges v ≡ not (is_selected lines (c ∷ text) v))
unfolding set_users ◌>>=◌
set_users_excluded w netid lines c text h =
    let uids = selected_uids w lines (c ∷ text) in
    let valid = selected_uids-IsUid w lines (c ∷ text) h in
    (
      gaps 0 uids,
      sends-Given w netid (range_texts (gaps 0 uids)) (set_users w netid (some (c ∷ text)) none)
          (λ s.
            let list = get_uid_list-found w lines c text s h in
            rw list.1
              (excluded_loop-sends w netid uids list.0 0 [] no_batch s valid no_batch-Holds)),
      λ v small.
          covers-gaps 0 0 uids v (omega arith) valid (selected_uids-Ascends w lines (c ∷ text) h)
            small (omega arith)
          ∙ ap not (h.sorts.same compare_uid (found (tokens (c ∷ text)) lines) v),
    )

-- With a list of included applications, set_users runs commands that name users, at most eighteen in
-- each, and these are exactly the users of the packages of the list. The list of packages can be read,
-- names no package twice and has users below 2 ^ 31; what the code reads behind a list that does not
-- end in a comma names none of its packages; and qsort sorts.
pub set_users_included :
    (w : World) (netid : ℕ) (lines : List Bytes) (c : ℕ) (text : Bytes)
    → Readable w lines (c ∷ text)
    → (uids : List ℕ) × Given w netid (uid_texts uids) (set_users w netid none (some (c ∷ text)))
      × ((v : ℕ) → listed uids v ≡ is_selected lines (c ∷ text) v)
unfolding set_users ◌>>=◌
set_users_included w netid lines c text h =
    let uids = selected_uids w lines (c ∷ text) in
    let valid = selected_uids-IsUid w lines (c ∷ text) h in
    (
      uids,
      sends-Given w netid (uid_texts uids) (set_users w netid none (some (c ∷ text))) (λ s.
          let list = get_uid_list-found w lines c text s h in
          rw list.1 (included_loop-sends w netid uids list.0 [] no_batch s valid no_batch-Holds)),
      λ v. h.sorts.same compare_uid (found (tokens (c ∷ text)) lines) v,
    )
