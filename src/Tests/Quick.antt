-- ===== src/Tests/Quick.antt =====
-- wg-quick for Android in a small world.
use router1_app.WgQuick.Sections.{Section, lines_of}
use router1_app.WgQuick.Sections.Laws.{Parted, parse_options-Parted}
use router1_app.WgQuick.{parse_options, no_options}
use router1_app.Prelude.{
  ℕ, ◌+◌, ◌*◌, ◌≤◌, ◌<◌, ◌≡◌, refl, ap, ◌∙◌, inl, inr, Bool, true, false, not, ◌||◌, none, some,
  List, [], ◌∷◌, arith, ltb, ◌==◌, if◌then◌else◌, Bool-cases, Bytes, codes, length,
}
use router1_app.WgQuick.Interface.Netid.{draw_netid-Drawn, Drawn}
use router1_app.WgQuick.Cleanup.{cmd_up-Undone, Ends}
use router1_app.WgQuick.Script.{
  contents, output, closed, exited, asked, Piped, World, Event, State, Result,
}
use router1_app.WgQuick.Users.Selected.{Strays, at_comma, at_end, onward_to, found, matches}
use router1_app.WgQuick.Users.{tokens}
use router1_app.WgQuick.Users.Laws.{
  set_users_included, set_users_excluded, is_selected, Given, Readable,
}
use router1_app.WgQuick.Users.Gaps.{covers, range_texts, uid_texts, Ascends, listed}
use router1_app.WgQuick.Dns.{names_of}
use router1_app.WgQuick.Interface.{draw_netid}
use router1_app.WgQuick.Dns.Bounds.{names_of_bounds}
use router1_app.WgQuick.Users.{set_users, read_package}
use router1_app.WgQuick.Main.{cmd_up, at_exit, link_show, start}
use router1_app.Libc.{strcmp_eq, split_first, skip_spaces, scan_digits, strtoul}
use router1_app.WgQuick.{no_options, Options}
use router1_app.WgQuick.Users.Slots.{repeats, package_names}

-- A sort by insertion.
unfoldable insert_uid : ℕ → List ℕ → List ℕ
insert_uid a [] = a ∷ []
insert_uid a (b ∷ l) = let later = b ∷ insert_uid a l in if ltb b a then later else a ∷ b ∷ l

unfoldable sort_uids : (ℕ → ℕ → ℕ) → List ℕ → List ℕ
unfolding insert_uid
sort_uids cmp [] = []
sort_uids cmp (a ∷ l) = insert_uid a (sort_uids cmp l)

listed-insert_uid :
    (a : ℕ) (l : List ℕ) (v : ℕ) → listed (insert_uid a l) v ≡ (a == v || listed l v)
unfolding insert_uid listed
listed-insert_uid a [] v = refl
listed-insert_uid a (b ∷ l) v = ground (arith, listed-insert_uid a l v)

listed-sort_uids : (cmp : ℕ → ℕ → ℕ) (l : List ℕ) (v : ℕ) → listed (sort_uids cmp l) v ≡ listed l v
unfolding sort_uids listed
listed-sort_uids cmp [] v = refl
listed-sort_uids cmp (a ∷ l) v =
    listed-insert_uid a (sort_uids cmp l) v
    ∙ ap (λ (t : Bool). a == v || t) (listed-sort_uids cmp l v)

insert_uid-Ascends :
    (low a : ℕ) (l : List ℕ) → low ≤ a → Ascends low l → Ascends low (insert_uid a l)
unfolding insert_uid
insert_uid-Ascends low a [] h k = (h, tt)
insert_uid-Ascends low a (b ∷ l) h (k, ks) = elim (Bool-cases (ltb b a)) [
  | inl e ↦ rw e (k, insert_uid-Ascends b a l (ground (arith, e)) ks)
  | inr e ↦ rw e (h, (ground (arith, e), ks))
]

sort_uids-Ascends : (cmp : ℕ → ℕ → ℕ) (l : List ℕ) → Ascends 0 (sort_uids cmp l)
unfolding sort_uids
sort_uids-Ascends cmp [] = tt
sort_uids-Ascends cmp (a ∷ l) =
    insert_uid-Ascends 0 a (sort_uids cmp l) (omega arith) (sort_uids-Ascends cmp l)

abbrev package_list : List Bytes
package_list = codes "org.example.mail 10101 0 /data" ∷ codes "org.example.maps 10042 0 /data" ∷ []

-- ndc answers 200 but to the creation of a network, and the interface is new.
abbrev pipe : List Event → Bytes → Piped
pipe done line =
    if strcmp_eq line (codes "ip link show dev awg0 2>/dev/null")
    then output [] 0
    else output (codes "400 failed" ∷ []) 0

abbrev quick_world : World
quick_world = record {
  regexec = λ pattern text. none;
  run = λ done line. exited 0;
  pipe = pipe;
  feed = λ done line text. closed (exited 0);
  random = λ i. i * 3000;
  fopen = λ path. contents package_list;
  qsort = sort_uids;
  behind = codes "junk" ∷ [] ∷ [];
  binder_available = false;
  has_service = false;
  class_defined = false;
  class_associated = false;
  call = λ done c. 0;
  data_position = λ done. 0;
  status_out = λ done. record { is_ok = true; exception_code = 0; status = 0 };
  package_name = codes "org.example.vpn";
  calling_package = none;
  uid = 0;
  execvp = λ argv. none;
  sdk = none;
}

-- A list that ends in a comma, and one that does not.
abbrev closed_list : Bytes
closed_list = codes "org.example.maps,org.example.mail,"

abbrev open_list : Bytes
open_list = codes "org.example.mail"

quick_world-Readable :
    (selected : Bytes) (strays : List Bytes)
    → Strays selected quick_world.behind strays
    → found strays package_list ≡ []
    → Readable quick_world package_list selected
unfolding package_names repeats strcmp_eq read_package split_first strtoul skip_spaces scan_digits
quick_world-Readable selected strays reads unknown = record {
  strays = strays;
  reads = reads;
  unknown = unknown;
  opened = refl;
  distinct = (refl, (refl, tt));
  small = (omega arith, (omega arith, tt));
  sorts = record { same = listed-sort_uids; ordered = λ cmp l h. sort_uids-Ascends cmp l };
}

junk_unknown : found (codes "junk" ∷ []) package_list ≡ []
unfolding found matches strcmp_eq read_package split_first strtoul skip_spaces scan_digits
junk_unknown = refl

none_unknown : found [] package_list ≡ []
unfolding found matches read_package split_first strtoul skip_spaces scan_digits
none_unknown = refl

junk_behind : Strays open_list quick_world.behind (codes "junk" ∷ [])
unfolding tokens
junk_behind = onward_to _ b'j' (codes "unk") _ [] refl (at_end _ _ refl)

set_users_excluded_example :
    (ranges : List (ℕ × ℕ)) × Given quick_world 5000
      (range_texts ranges)
      (set_users quick_world 5000 (some closed_list) none)
    × ((v : ℕ) → v < 99999 → covers ranges v ≡ not (is_selected package_list closed_list v))
set_users_excluded_example =
    set_users_excluded quick_world 5000 package_list b'o'
      (codes "rg.example.maps,org.example.mail,")
      (quick_world-Readable closed_list [] (at_comma _ _ refl) none_unknown)

set_users_included_example :
    (uids : List ℕ) × Given quick_world 5000
      (uid_texts uids)
      (set_users quick_world 5000 none (some open_list))
    × ((v : ℕ) → listed uids v ≡ is_selected package_list open_list v)
set_users_included_example =
    set_users_included quick_world 5000 package_list b'o' (codes "rg.example.mail")
      (quick_world-Readable open_list (codes "junk" ∷ []) junk_behind junk_unknown)

abbrev quick_options : Options
quick_options = record no_options {
  config = some (codes "[Interface]\n");
  addrs = some (codes "10.0.0.2/32");
  dnses = some (codes "1.1.1.1");
}

-- The network cannot be created, so the interface is deleted in the end.
abbrev failed_up : Result ℕ × State
failed_up = at_exit quick_world (cmd_up quick_world 8 (codes "awg0") quick_options start)

cmd_up-Undone_example : Ends (codes "awg0") (asked (link_show (codes "awg0")) ∷ []) failed_up
cmd_up-Undone_example = cmd_up-Undone quick_world 8 (codes "awg0") quick_options start refl

draw_netid-Drawn_example : Drawn quick_world (draw_netid quick_world 8 0 start)
draw_netid-Drawn_example =
    draw_netid-Drawn quick_world 2 8 0 start (omega arith) (omega arith) (omega arith)

names_of_bounds_example :
    length (names_of quick_world (codes "1.1.1.1, lan")).dns_shell_arglist
      + length (names_of quick_world (codes "1.1.1.1, lan")).dns_search_shell_arglist
    ≤ 48
names_of_bounds_example = names_of_bounds quick_world (codes "1.1.1.1, lan") (omega arith)

abbrev quick_sections : List Section
quick_sections =
    record {
      head = codes "[Interface]\n";
      body =
          codes "Address = 10.0.0.2/32\n"
          ∷ codes "dns = 1.1.1.1\n"
          ∷ codes "Jmin = 40\n"
          ∷ codes "Address = fd00::2/128\n"
          ∷ [];
    }
    ∷ record { head = codes "[Peer]\n"; body = codes "DNS = 9.9.9.9\n" ∷ [] }
    ∷ []

parse_options-Parted_example :
    Parted
      (codes "# a tunnel\n" ∷ [])
      quick_sections
      (parse_options (λ text. 0) false (codes "# a tunnel\n" ∷ lines_of quick_sections) no_options)
parse_options-Parted_example =
    parse_options-Parted (λ text. 0) (codes "# a tunnel\n" ∷ []) quick_sections (refl, tt)
      ((refl, (refl, (refl, (refl, (refl, tt))))), ((refl, (refl, tt)), tt))
      (
        omega arith,
        (
          omega arith,
          (
            omega arith,
            (omega arith, (omega arith, (omega arith, (omega arith, (omega arith, tt))))),
          ),
        ),
      )

quick_file-taken :
    (parse_options (λ text. 0) false (lines_of quick_sections) no_options).addrs
    ≡ some (codes "10.0.0.2/32,fd00::2/128")
unfolding parse_options
quick_file-taken = refl
