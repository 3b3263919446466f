-- ===== src/WgQuick/Users.antt =====
-- wg-quick/android.c: the users whose traffic the tunnel takes.
pub mod Batches
pub mod Gaps
pub mod Selected
pub mod Slots
pub mod Laws
use router1_app.Prelude.{
  ℕ, suc, ◌%◌, ◌^◌, Bool, not, ◌&&◌, ◌||◌, Option, none, some, List, [], ◌∷◌, ◌++◌, ltb, ◌==◌,
  if◌then◌else◌, Bytes, length, sub32, ◌+◌, ◌-◌, false, codes, replicate,
}
use router1_app.Libc.{split_first, strtoul, strcmp_eq}
use router1_app.Uapi.Print.{print_u}
use router1_app.WgQuick.{concat_and_free}
use router1_app.WgQuick.Script.{
  Script, pure, ◌>>=◌, ◌>>◌, World, exit, concat, cndc, opened_lines, out_of_bounds, on_option,
}

abbrev pub compare_uid : ℕ → ℕ → ℕ
compare_uid a b = sub32 a b

abbrev pub or_whole : Bytes → Option (Bytes × Bytes) → Bytes
or_whole text none = text
or_whole text (some parts) = parts.0

-- A line of the package list: the name of the package and its user.
abbrev pub package_uid : Bytes → Option ℕ
package_uid package_uid_str =
    let read = strtoul package_uid_str 10 in
    let number = read.0 % 2 ^ 32 in
    if number == 0 || length package_uid_str == 0 || not (length read.1 == 0)
    then none
    else some number

abbrev pub with_uid : Bytes → Option ℕ → Option (Bytes × ℕ)
with_uid package_name none = none
with_uid package_name (some uid) = some (package_name, uid)

unfoldable pub read_package : Bytes → Option (Bytes × ℕ)
unfolding split_first strtoul
read_package line = elim (split_first b' ' line) [
  | none ↦ none
  | some (package_name, more) ↦
      with_uid package_name (package_uid (or_whole more (split_first b' ' more)))
]

abbrev pub add_char : ℕ → List Bytes → List Bytes
add_char c [] = (c ∷ []) ∷ []
add_char c (token ∷ more) = (c ∷ token) ∷ more

-- The parts of a text between the commas.
unfoldable pub tokens : Bytes → List Bytes
tokens [] = [] ∷ []
tokens (c ∷ text) = let later = tokens text in if c == b',' then [] ∷ later else add_char c later

unfoldable pub commas : Bytes → ℕ
commas [] = 0
commas (c ∷ text) = let later = commas text in if c == b',' then suc later else later

-- `token_len && strlen(package_name) == token_len && !strncmp(start, package_name, token_len)`.
abbrev pub is_token : Bytes → Bytes → Bool
is_token package_name token = not (length token == 0) && strcmp_eq package_name token

-- `uid_list[i++] = package_uid` for each token that is the name; the list has `slots` places, of
-- which those behind the uids so far are still 0.
unfoldable pub add_uid : ℕ → Bytes → ℕ → List Bytes → List ℕ → Script (List ℕ)
unfolding strcmp_eq
add_uid slots name uid [] uids = pure uids
add_uid slots name uid (token ∷ more) uids =
    let later = add_uid slots name uid more (uids ++ (uid ∷ [])) in
    let others = add_uid slots name uid more uids in
    if is_token name token
    then (if ltb (length uids) slots then later else out_of_bounds)
    else others

abbrev pub ends_in_comma : Bytes → Bool
ends_in_comma [] = false
ends_in_comma (c ∷ []) = c == b','
ends_in_comma (c ∷ d ∷ text) = ends_in_comma (d ∷ text)

-- `for (start = selected_applications; comma = strchrnul(start, ','), *start; start = comma + 1)`.
-- Behind a last token that no comma follows, the loop goes on behind the NUL, with the texts that
-- stand there.
unfoldable pub read_tokens : ℕ → Bytes → ℕ → Bytes → List Bytes → List ℕ → Script (List ℕ)
unfolding add_uid tokens
read_tokens slots name uid [] behind uids = pure uids
read_tokens slots name uid (c ∷ text) [] uids = do
  more ← add_uid slots name uid (tokens (c ∷ text)) uids
  if ends_in_comma (c ∷ text) then pure more else out_of_bounds
read_tokens slots name uid (c ∷ text) (next ∷ behind) uids = do
  more ← add_uid slots name uid (tokens (c ∷ text)) uids
  let further = read_tokens slots name uid next behind more
  if ends_in_comma (c ∷ text) then pure more else further

-- The loop over the lines of the package list.
unfoldable pub read_packages : ℕ → Bytes → List Bytes → List Bytes → List ℕ → Script (List ℕ)
unfolding read_package read_tokens
read_packages slots selected behind [] uids = pure uids
read_packages slots selected behind (line ∷ lines) uids =
    on_option (read_package line) (read_packages slots selected behind lines uids) (λ parts.
      read_tokens slots parts.0 parts.1 selected behind uids
      >>= read_packages slots selected behind lines)

-- The places for the uids: the first loop counts the commas from the second character on.
abbrev pub slots_of : Bytes → List Bytes → Option ℕ
slots_of (c ∷ text) behind = some (2 + commas text)
slots_of [] (next ∷ behind) = some (2 + commas next)
slots_of [] [] = none

-- The list, zeros behind the uids included.
unfoldable pub get_uid_list : World → Option Bytes → Script (List ℕ)
unfolding read_packages commas
get_uid_list w none = pure (0 ∷ [])
get_uid_list w (some selected) = on_option (slots_of selected w.behind) out_of_bounds (λ slots. do
  lines ← opened_lines (w.fopen (codes "/data/system/packages.list"))
  uids ← read_packages slots selected w.behind lines []
  pure (w.qsort compare_uid uids ++ replicate (slots - length uids) 0))

-- `ranges`, and the count of the arguments so far.
pub record Batch : Type 0 where
  pub args : ℕ
  pub ranges : Option Bytes

abbrev pub users_add : ℕ → Bytes → Bytes
users_add netid ranges =
    concat (codes "network users add " ∷ print_u netid ∷ codes " " ∷ ranges ∷ [])

-- The command, if there is a range.
unfoldable pub finish_users : World → ℕ → Batch → Script Unit
unfolding cndc
finish_users w netid b = on_option (b.ranges) (pure tt) (λ text. cndc w (users_add netid text))

-- One more range; with the eighteenth the command is run.
unfoldable pub add_range : World → ℕ → Bytes → Batch → Script Batch
unfolding finish_users
add_range w netid range b =
    let args = b.args + 1 in
    let ranges = concat_and_free b.ranges (codes " ") range in
    if args % 18 == 0
    then (finish_users w netid (record { args = args; ranges = ranges })
        >> pure (record { args = args; ranges = none }))
    else pure (record { args = args; ranges = ranges })

abbrev pub range_text : ℕ → ℕ → Bytes
range_text start last =
    if start == last then print_u start else concat (print_u start ∷ codes "-" ∷ print_u last ∷ [])

-- What lies behind the last uid.
unfoldable pub with_last : ℕ → Batch → Batch
unfolding print_u
with_last start b =
    if ltb start 99999
    then record b {
      ranges = concat_and_free b.ranges (codes " ") (concat (print_u start ∷ codes "-99999" ∷ []));
    }
    else b

-- The first loop: what lies between the uids, which a 0 ends; the numbers are those of 32 bits.
unfoldable pub excluded_loop : World → ℕ → List ℕ → ℕ → Batch → Script Unit
unfolding add_range print_u finish_users with_last
excluded_loop w netid [] start b = out_of_bounds
excluded_loop w netid (uid ∷ uids) start b =
    let next = (uid + 1) % 2 ^ 32 in
    if uid == 0
    then finish_users w netid (with_last start b)
    else if ltb (uid - 1) start
    then excluded_loop w netid uids next b
    else (add_range w netid (range_text start (uid - 1)) b >>= excluded_loop w netid uids next)

unfoldable pub included_loop : World → ℕ → List ℕ → Batch → Script Unit
unfolding add_range print_u finish_users
included_loop w netid [] b = out_of_bounds
included_loop w netid (uid ∷ uids) b =
    if uid == 0
    then finish_users w netid b
    else (add_range w netid (print_u uid) b >>= included_loop w netid uids)

abbrev pub no_batch : Batch
no_batch = record { args = 0; ranges = none }

unfoldable pub set_users : World → ℕ → Option Bytes → Option Bytes → Script Unit
unfolding get_uid_list excluded_loop included_loop
set_users w netid (some excluded_applications) (some included_applications) = exit 17
set_users w netid none (some included_applications) = do
  uids ← get_uid_list w (some included_applications)
  included_loop w netid uids no_batch
set_users w netid excluded_applications none = do
  uids ← get_uid_list w excluded_applications
  excluded_loop w netid uids 0 no_batch
