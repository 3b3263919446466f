-- ===== src/Ipc/Names.antt =====
-- The list of interfaces as a buffer, and the names that are read from it.
use router1_app.Prelude.{
  ℕ, ◌≡◌, [], ◌∷◌, ◌++◌, if◌then◌else◌, Bytes, length, false, ◌==◌, ◌<◌, List, All, none, some,
}
use router1_app.Ipc.{interfaces, Sockets, userspace_has_wireguard_interface, interface_name}

-- A name is a text without a NUL that is not empty.
abbrev pub IsText : Bytes → Type 0
IsText text = All (λ (c : ℕ). (c == 0) ≡ false) text

abbrev pub IsName : Bytes → Type 0
IsName name = ((length name == 0) ≡ false) × IsText name

-- The names, each ended by a NUL.
abbrev ended_names : List Bytes → Bytes
ended_names [] = []
ended_names (name ∷ names) = name ++ (0 ∷ ended_names names)

-- The names of the entries that end in the suffix and whose sockets answer.
abbrev pub offered : Sockets → List Bytes → List Bytes
offered s [] = []
offered s (entry ∷ entries) =
    let rest = offered s entries in
    elim (interface_name entry) [
      | none ↦ rest
      | some iface ↦ if userspace_has_wireguard_interface s iface then iface ∷ rest else rest
    ]

-- The buffer is longer than the list of its names, and any larger number of turns reads them.
abbrev pub Lists : List Bytes → Bytes → Type 0
Lists names buffer =
    (length names < length buffer) × ((n : ℕ) → length names < n → interfaces n buffer ≡ names)
