-- ===== src/Wg.antt =====
-- android/tunnel/tools/amneziawg-tools/src/wg.c: the choice of the subcommand.
use router1_app.Prelude.{Bool, ◌||◌, List, [], ◌∷◌, if◌then◌else◌, Bytes, codes}
use router1_app.Libc.{strcmp_eq}

-- The functions of the table.
pub data Handler : Type 0 where
  show_main showconf_main set_main setconf_main genkey_main pubkey_main : Handler

-- `subcommands`, without the descriptions.
abbrev pub subcommands : List (Bytes × Handler)
subcommands =
    (codes "show", show_main)
    ∷ (codes "showconf", showconf_main)
    ∷ (codes "set", set_main)
    ∷ (codes "setconf", setconf_main)
    ∷ (codes "addconf", setconf_main)
    ∷ (codes "syncconf", setconf_main)
    ∷ (codes "genkey", genkey_main)
    ∷ (codes "genpsk", genkey_main)
    ∷ (codes "pubkey", pubkey_main)
    ∷ []

-- What `main` does: the version or the usage on the standard output, a handler with its arguments, its
-- name first, or the refusal of an unknown name.
pub data Action : Type 0 where
  print_version print_usage unknown : Action
  call : Handler → List Bytes → Action

unfoldable pub find_subcommand : List (Bytes × Handler) → Bytes → List Bytes → Action
unfolding strcmp_eq
find_subcommand [] name args = unknown
find_subcommand ((subcommand, handler) ∷ table) name args =
    let rest = find_subcommand table name args in
    if strcmp_eq name subcommand then call handler (name ∷ args) else rest

unfoldable pub named_action : List Bytes → Action
unfolding find_subcommand
named_action [] = call show_main (codes "show" ∷ [])
named_action (name ∷ args) = find_subcommand subcommands name args

abbrev pub asks_version : Bytes → Bool
unfolding strcmp_eq
asks_version arg =
    strcmp_eq arg (codes "-v")
    || strcmp_eq arg (codes "--version")
    || strcmp_eq arg (codes "version")

abbrev pub asks_help : Bytes → Bool
unfolding strcmp_eq
asks_help arg =
    strcmp_eq arg (codes "-h") || strcmp_eq arg (codes "--help") || strcmp_eq arg (codes "help")

-- The arguments behind the name of the program.
unfoldable pub main : List Bytes → Action
unfolding strcmp_eq named_action
main (arg ∷ []) =
    if asks_version arg
    then print_version
    else if asks_help arg
    then print_usage
    else named_action (arg ∷ [])
main args = named_action args
