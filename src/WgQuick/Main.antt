-- ===== src/WgQuick/Main.antt =====
-- wg-quick/android.c: the commands `up` and `down`, their clean-up at the exit, and `main`.
use router1_app.Prelude.{
  ℕ, Bool, true, false, ◌||◌, Option, none, some, List, [], ◌∷◌, ◌++◌, ◌==◌, if◌then◌else◌, Bytes,
  codes, truthy,
}
use router1_app.Libc.{strcmp_eq, atoi}
use router1_app.WgQuick.{Options, no_options, parse_options}
use router1_app.WgQuick.Script.{
  World, State, Script, Result, Ended, pure, exit, gets, modify, note, out_of_bounds, ◌>>=◌, ◌>>◌,
  concat, cmd, cmd_ret, no_file, contents, Fed, opened_lines, unopened, unwritten, closed,
  not_started, exited, killed, fed, exits, returned, replaced, fault, hang, on_option,
}
use router1_app.WgQuick.Interface.{add_if, del_if, determine_listen_port, up_if}
use router1_app.WgQuick.Users.{set_users}
use router1_app.WgQuick.Net.{set_addr, set_mtu, set_routes, strtok, strtok_loop}
use router1_app.WgQuick.Dns.{set_dnses}

-- A text that the source takes through a pointer that may be null.
unfoldable pub text_at : Option Bytes → Script Bytes
text_at none = out_of_bounds
text_at (some text) = pure text

abbrev pub close_status : Ended → ℕ
close_status not_started = 5
close_status (exited n) = n
close_status killed = 5

unfoldable pub written : Fed → Script Unit
written (unopened e) = exit e
written (unwritten e) = exit e
written (closed ended) = if truthy (close_status ended) then exit (close_status ended) else pure tt

unfoldable pub set_config : World → Bytes → Bytes → Script Unit
unfolding written
set_config w iface config = do
  let command = concat (codes "awg setconf " ∷ iface ∷ codes " /proc/self/fd/0" ∷ [])
  outcome ← gets (λ s. w.feed s.done command config)
  note (fed command config)
  written outcome

unfoldable pub broadcast_change : World → Script Unit
unfolding strcmp_eq cmd
broadcast_change w =
    let command =
      cmd w
        (codes "am broadcast -a org.amnezia.awg.action.REFRESH_TUNNEL_STATES " ++ w.package_name) in
    on_option (w.calling_package) command
      (λ pkg. if strcmp_eq pkg w.package_name then pure tt else command)

-- The handler that cmd_up registers; without a name it does nothing.
unfoldable pub cmd_up_cleanup : World → Script Unit
unfolding del_if
cmd_up_cleanup w = do
  modify (λ s. record s { is_exiting = true })
  iface ← gets (λ s. s.cleanup_iface)
  on_option iface (pure tt) (λ name. del_if w name)

-- The steps between the two changes of cleanup_iface.
unfoldable pub bring_up : World → ℕ → Bytes → Options → Script Unit
unfolding add_if set_config determine_listen_port up_if set_addr set_dnses set_routes set_mtu
    set_users broadcast_change text_at
bring_up w fuel iface o = do
  add_if w iface
  config ← text_at o.config
  set_config w iface config
  listen_port ← determine_listen_port w iface
  netid ← up_if w fuel iface listen_port
  addrs ← text_at o.addrs
  set_addr w iface addrs
  dnses ← text_at o.dnses
  set_dnses w netid dnses
  set_routes w iface netid
  set_mtu w iface o.mtu
  set_users w netid o.excluded_applications o.included_applications
  broadcast_change w

-- Behind the question for the interface; the answer is a line if there is one.
unfoldable pub begin_up : World → ℕ → Bytes → Options → Option Bytes → Script ℕ
unfolding bring_up
begin_up w fuel iface o (some line) = exit 17
begin_up w fuel iface o none = do
  modify (λ s. record s { cleanup_iface = some iface })
  bring_up w fuel iface o
  modify (λ s. record s { cleanup_iface = none })
  exit 0

abbrev pub link_show : Bytes → Bytes
link_show iface = concat (codes "ip link show dev " ∷ iface ∷ codes " 2>/dev/null" ∷ [])

unfoldable pub cmd_up : World → ℕ → Bytes → Options → Script ℕ
unfolding cmd_ret begin_up
cmd_up w fuel iface o = do present ← cmd_ret w (link_show iface); begin_up w fuel iface o present

unfoldable pub is_among : Bytes → List Bytes → Bool
unfolding strcmp_eq
is_among iface [] = false
is_among iface (eiface ∷ more) = strcmp_eq iface eiface || is_among iface more

abbrev pub is_listed : Bytes → Option Bytes → Bool
is_listed iface none = false
is_listed iface (some line) = is_among iface (strtok (codes " \n") line)

unfoldable pub cmd_down : World → Bytes → Script ℕ
unfolding cmd_ret is_among strtok_loop del_if broadcast_change
cmd_down w iface = do
  ifaces ← cmd_ret w (codes "awg show interfaces")
  let there = is_listed iface ifaces
  if there then (del_if w iface >> (broadcast_change w >> exit 0)) else exit 124

abbrev pub search_paths : World → Bytes
search_paths w =
    concat (codes "/data/misc/amneziawg /data/data/" ∷ w.package_name ∷ codes "/files" ∷ [])

-- A file with its name.
unfoldable pub find_file : World → Bytes → List Bytes → ℕ → Script (Bytes × List Bytes)
find_file w arg [] e = exit e
find_file w arg (path ∷ paths) e =
    let filename = concat (path ∷ codes "/" ∷ arg ∷ codes ".conf" ∷ []) in
    elim (w.fopen filename) [
      | contents lines ↦ pure (filename, lines)
      | no_file error ↦ find_file w arg paths error
    ]

unfoldable pub open_config : World → Bytes → Script (Bytes × List Bytes)
unfolding find_file strtok_loop
open_config w arg =
    on_option (w.regexec (codes "^[a-zA-Z0-9_=+.-]{1,15}$") arg)
      (do lines ← opened_lines (w.fopen arg); pure (arg, lines))
      (λ found. find_file w arg (strtok (codes " ") (search_paths w)) 0)

-- The whole of parse_options: the name of the interface, and what the loop reads.
unfoldable pub read_options : World → Bytes → Script (Bytes × Options)
unfolding open_config parse_options atoi
read_options w arg = do
  opened ← open_config w arg
  on_option (w.regexec (codes "/?([a-zA-Z0-9_=+.-]{1,15})\\.conf$") opened.0) (exit 22) (λ iface. do
    let o = parse_options atoi false opened.1 no_options
    modify (λ s. record s { is_awg_on = o.is_awg_on })
    pure (iface, o))

unfoldable pub auto_su : World → List Bytes → Script Unit
auto_su w argv s =
    if w.uid == 0
    then (returned tt, s)
    else elim (w.execvp (codes "su" ∷ codes "-p" ∷ codes "-c" ∷ argv)) [
      | none ↦ (replaced, s)
      | some e ↦ (exits e, s)
    ]

abbrev pub wants_help : Bytes → Bool
wants_help arg =
    strcmp_eq arg (codes "help") || strcmp_eq arg (codes "--help") || strcmp_eq arg (codes "-h")

abbrev pub sdk_of : World → ℕ
sdk_of w = elim w.sdk [ none ↦ 0 | some prop ↦ atoi prop ]

-- The status; `argv` holds the name of the program too. The usage is written out by it.
unfoldable pub main : World → ℕ → List Bytes → Script ℕ
unfolding auto_su read_options cmd_up cmd_down strcmp_eq atoi
main w fuel (program ∷ command ∷ []) = do
  modify (λ s. record s { sdk_version = sdk_of w })
  pure (if wants_help command then 0 else 1)
main w fuel (program ∷ command ∷ arg ∷ []) =
    let argv = program ∷ command ∷ arg ∷ [] in
    modify (λ s. record s { sdk_version = sdk_of w })
    >> (if strcmp_eq command (codes "up")
        then (auto_su w argv >> (read_options w arg >>= λ read. cmd_up w fuel read.0 read.1))
        else if strcmp_eq command (codes "down")
        then (auto_su w argv >> (read_options w arg >>= λ read. cmd_down w read.0))
        else pure 1)
main w fuel argv = pure 1

-- The end of the process. An exit of the handler takes the place of the first one.
abbrev pub after_exit : ℕ → Result Unit × State → Result ℕ × State
after_exit n (returned _, s) = (returned n, record s { cleanup_iface = none })
after_exit n (exits m, s) = (returned m, s)
after_exit n (replaced, s) = (replaced, s)
after_exit n (fault, s) = (fault, s)
after_exit n (hang, s) = (hang, s)

unfoldable pub at_exit : World → Result ℕ × State → Result ℕ × State
unfolding cmd_up_cleanup
at_exit w (returned n, s) = after_exit n (cmd_up_cleanup w s)
at_exit w (exits n, s) = after_exit n (cmd_up_cleanup w s)
at_exit w (replaced, s) = (replaced, s)
at_exit w (fault, s) = (fault, s)
at_exit w (hang, s) = (hang, s)

-- The state in which the program starts, and the whole run.
abbrev pub start : State
start = record {
  done = [];
  draws = 0;
  is_exiting = false;
  cleanup_iface = none;
  is_awg_on = false;
  sdk_version = 0;
}

unfoldable pub process : World → ℕ → List Bytes → Result ℕ × State
unfolding main at_exit
process w fuel argv = at_exit w (main w fuel argv start)
