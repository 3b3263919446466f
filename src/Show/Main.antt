-- ===== src/Show/Main.antt =====
-- `show_main` of show.c. Messages on the standard error are left out.
pub mod Laws
use Prim.Native.Nat.{Ordering}
use router1_app.Prelude.{
  ℕ, Bool, true, false, ◌||◌, Option, none, some, List, [], ◌∷◌, ◌++◌, if◌then◌else◌, Bytes, codes,
  length,
}
use router1_app.Libc.{strcmp_eq}
use router1_app.Containers.{Peer, Device}
use router1_app.Ipc.{interfaces}
use router1_app.Show.Format.{Surroundings}
use router1_app.Show.Pretty.{pretty_print}
use router1_app.Show.Ugly.{ugly_print}

-- What show_main calls: the list of interfaces as ipc_list_devices returns it, and the devices, none
-- where ipc_get_device answers a negative number. A positive answer, which leaves no device, is not
-- modelled.
pub record Devices : Type 0 where
  pub list_devices : Option Bytes
  pub get_device : Bytes → Option Device
  pub qsort : (Peer → Peer → Ordering) → List Peer → List Peer

-- The exit status and the text on the standard output.
pub record Shown : Type 0 where
  pub status : ℕ
  pub text : Bytes

abbrev pub refused : Shown
refused = record { status = 1; text = [] }

-- The loop over all interfaces, with the status and the text so far.
unfoldable pub show_all : Devices → Surroundings → Option Bytes → List Bytes → ℕ → Bytes → Shown
unfolding pretty_print ugly_print
show_all i s param [] status text = record { status = status; text = text }
show_all i s param (name ∷ names) status text = elim (i.get_device name) [
  | none ↦ show_all i s param names status text
  | some d ↦ elim param [
    | some param' ↦ elim (ugly_print s d param' true) [
      | none ↦ record { status = 1; text = text }
      | some shown ↦ show_all i s param names 0 (text ++ shown)
    ]
    | none ↦
        let gap : Bytes = elim names [ [] ↦ [] | next ∷ more ↦ codes "\n" ] in
        show_all i s param names 0 (text ++ (pretty_print i.qsort s d ++ gap))
  ]
]

-- The names, with blanks between them and a line end behind the last.
unfoldable pub name_line : List Bytes → Bytes
name_line [] = []
name_line (name ∷ names) =
    let rest = name_line names in
    name ++ ((elim names [ [] ↦ codes "\n" | next ∷ more ↦ codes " " ]) ++ rest)

abbrev pub is_help : Bytes → Bool
unfolding strcmp_eq
is_help arg =
    strcmp_eq arg (codes "-h") || strcmp_eq arg (codes "--help") || strcmp_eq arg (codes "help")

abbrev pub names_in : Bytes → List Bytes
unfolding interfaces
names_in buffer = interfaces (length buffer) buffer

-- `!!*interfaces`, and the loop.
unfoldable pub show_every : Devices → Surroundings → Option Bytes → Shown
unfolding show_all interfaces
show_every i s param = elim i.list_devices [
  | none ↦ refused
  | some buffer ↦ elim (names_in buffer) [
    | [] ↦ record { status = 0; text = [] }
    | name ∷ names ↦ show_all i s param (name ∷ names) 1 []
  ]
]

unfoldable pub show_one : Devices → Surroundings → Bytes → Option Bytes → Shown
unfolding pretty_print ugly_print
show_one i s iface param = elim (i.get_device iface) [
  | none ↦ refused
  | some d ↦ elim param [
    | none ↦ record { status = 0; text = pretty_print i.qsort s d }
    | some param' ↦ elim (ugly_print s d param' false) [
      | none ↦ refused
      | some shown ↦ record { status = 0; text = shown }
    ]
  ]
]

-- The arguments behind the name of the subcommand. Usage is written on the standard error.
unfoldable pub show_main : Devices → Surroundings → List Bytes → Shown
unfolding strcmp_eq show_every show_one name_line interfaces
show_main i s [] = show_every i s none
show_main i s (first ∷ []) =
    if strcmp_eq first (codes "all")
    then show_every i s none
    else if strcmp_eq first (codes "interfaces")
    then elim i.list_devices [
      | none ↦ refused
      | some buffer ↦ record { status = 0; text = name_line (names_in buffer) }
    ]
    else if is_help first
    then record { status = 0; text = [] }
    else show_one i s first none
show_main i s (first ∷ second ∷ []) =
    if strcmp_eq first (codes "all")
    then show_every i s (some second)
    else if strcmp_eq first (codes "interfaces")
    then refused
    else show_one i s first (some second)
show_main i s (first ∷ second ∷ third ∷ more) = refused
