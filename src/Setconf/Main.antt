-- ===== src/Setconf/Main.antt =====
-- `setconf_main` of setconf.c and `set_main` of android/tunnel/tools/amneziawg-tools/src/set.c.
use router1_app.Prelude.{
  ℕ, ◌-◌, Bool, Option, none, some, List, [], ◌∷◌, if◌then◌else◌, Bytes, codes, Outcome, ◌>>=◌, ok,
  fail, exit, fault, hang, take,
}
use router1_app.Libc.{strcmp_eq}
use router1_app.Containers.{Device}
use router1_app.Config.Host.{Host}
use router1_app.Config.Line.{Ctx}
use router1_app.Config.Read.{config_read_line, config_read_init, config_read_finish}
use router1_app.Config.Cmd.{config_read_cmd}
use router1_app.Setconf.{sync_conf}

-- The kernel or the user space daemon, behind `ipc_get_device` and `ipc_set_device`, and the
-- configuration files, as the lines that `getline` gives.
pub record Ipc : Type 0 where
  pub get_device : Bytes → Option Device
  pub set_device : Device → Bool
  pub file_lines : Bytes → Option (List Bytes)

-- What the subcommand comes to: the exit status, and the device that was handed to
-- `ipc_set_device`, if it came to that.
pub record Ran : Type 0 where
  pub status : ℕ
  pub sent : Option Device

abbrev pub stopped : Ran
stopped = record { status = 1; sent = none }

-- IFNAMSIZ.
abbrev pub ifnamsiz : ℕ
ifnamsiz = 16

abbrev pub apply_device : Ipc → Device → Ran
apply_device i d = record { status = if i.set_device d then 0 else 1; sent = some d }

-- The loop over the lines of the file.
unfoldable pub read_lines : Host → ℕ → Ctx → List Bytes → Outcome Ctx
unfolding config_read_line
read_lines h fuel ctx [] = ok ctx
read_lines h fuel ctx (line ∷ lines) = do
  ctx' ← config_read_line h fuel ctx line
  read_lines h fuel ctx' lines

abbrev pub named : Bytes → Device → Device
named iface d = record d { name = take (ifnamsiz - 1) iface }

-- The device that the file stands for.
unfoldable pub read_file : Host → ℕ → Bool → List Bytes → Outcome Device
unfolding read_lines config_read_init config_read_finish
read_file h fuel append lines = do
  ctx ← read_lines h fuel (config_read_init append) lines
  config_read_finish ctx

-- An `exit(1)` within a parser ends with status 1 too. A parser that never returns has no status.
abbrev pub finish_with : Outcome Device → (Device → Ran) → Option Ran
finish_with (ok d) f = some (f d)
finish_with fail f = some stopped
finish_with exit f = some stopped
finish_with fault f = none
finish_with hang f = none

unfoldable pub setconf_main : Host → Ipc → ℕ → List Bytes → Option Ran
unfolding strcmp_eq read_file sync_conf
setconf_main h i fuel (cmd ∷ iface ∷ path ∷ []) = elim (i.file_lines path) [
  | none ↦ some stopped
  | some lines ↦
      finish_with
        (do
          d ← read_file h fuel (strcmp_eq cmd (codes "addconf")) lines
          let n = named iface d
          if strcmp_eq cmd (codes "syncconf") then sync_conf (i.get_device n.name) n else ok n)
        (apply_device i)
]
setconf_main h i fuel argv = some stopped

unfoldable pub set_main : Host → Ipc → ℕ → List Bytes → Option Ran
unfolding config_read_cmd
set_main h i fuel (cmd ∷ iface ∷ arg ∷ args) =
    finish_with (do d ← config_read_cmd h fuel (arg ∷ args); ok (named iface d)) (apply_device i)
set_main h i fuel argv = some stopped
