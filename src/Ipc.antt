-- ===== src/Ipc.antt =====
-- android/tunnel/tools/amneziawg-tools/src/ipc.c and ipc-uapi-unix.h: the list of the interfaces, and
-- the choice between the kernel and the daemon in user space.
pub mod Buffer
pub mod Names
use router1_app.Prelude.{
  ℕ, zero, suc, ◌+◌, ◌-◌, ◌*◌, Bool, true, false, Option, none, some, List, [], ◌∷◌, ◌++◌, ltb, leb,
  ◌==◌, if◌then◌else◌, Bytes, codes, Outcome, ◌>>=◌, ◌>>◌, ok, fail, fault, length, take, drop,
  replicate,
}
use router1_app.Libc.{strcmp_eq, split_first}
use router1_app.Containers.{Device}

-- struct string_list. `buffer` is the allocated array of `cap` bytes, of which `len` are used. Sizes
-- are taken not to reach 2 ^ 64.
pub record StringList : Type 0 where
  pub buffer : Bytes
  pub len : ℕ
  pub cap : ℕ

abbrev pub empty_list : StringList
empty_list = record { buffer = []; len = 0; cap = 0 }

-- `memcpy(buffer + i, src, ...)`: a write outside of the array is a fault.
unfoldable pub write : Bytes → ℕ → Bytes → Outcome Bytes
write buffer i src =
    if leb (i + length src) (length buffer)
    then ok (take i buffer ++ (src ++ drop (i + length src) buffer))
    else fault

-- The part under `if (len >= list->cap - list->len)`; `realloc` keeps the bytes, and what it adds is
-- taken as zeros.
unfoldable pub grow : StringList → ℕ → StringList
grow l size =
    let needed = l.len + size + 1 in
    let new_cap = if ltb (l.cap * 2) needed then needed else l.cap * 2 in
    if leb (l.cap - l.len) size
    then record { buffer = l.buffer ++ replicate (new_cap - l.cap) 0; len = l.len; cap = new_cap }
    else l

unfoldable pub string_list_add : StringList → Bytes → Outcome StringList
unfolding write grow
string_list_add l str =
    let size = length str + 1 in
    if size == 1 then ok l else do
      let g = grow l size
      b ← write g.buffer g.len (str ++ (0 ∷ []))
      b' ← write b (g.len + size) (0 ∷ [])
      ok (record { buffer = b'; len = g.len + size; cap = g.cap })

-- What ipc-uapi-unix.h takes from the system: whether the socket of an interface answers, and the
-- entries of the directory of the sockets, which can be read, or is missing and so has none.
pub record Sockets : Type 0 where
  pub answers : Bytes → Bool
  pub entries : List Bytes

unfoldable pub userspace_has_wireguard_interface : Sockets → Bytes → Bool
unfolding split_first
userspace_has_wireguard_interface s iface = elim (split_first b'/' iface) [
  | some parts ↦ false
  | none ↦ s.answers iface
]

-- SOCK_SUFFIX.
abbrev pub sock_suffix : Bytes
sock_suffix = codes ".sock"

-- The name of an entry without the suffix, if it has it behind a name.
unfoldable pub interface_name : Bytes → Option Bytes
unfolding strcmp_eq
interface_name name =
    let front = length name - length sock_suffix in
    if leb (length name) (length sock_suffix)
    then none
    else if strcmp_eq (drop front name) sock_suffix
    then some (take front name)
    else none

-- The loop over the entries.
unfoldable pub add_interfaces : Sockets → List Bytes → StringList → Outcome StringList
unfolding interface_name userspace_has_wireguard_interface string_list_add
add_interfaces s [] l = ok l
add_interfaces s (name ∷ more) l = elim (interface_name name) [
  | none ↦ add_interfaces s more l
  | some iface ↦ elim (userspace_has_wireguard_interface s iface) [
    | false ↦ add_interfaces s more l
    | true ↦ string_list_add l iface >>= add_interfaces s more
  ]
]

unfoldable pub userspace_get_wireguard_interfaces : Sockets → StringList → Outcome StringList
unfolding add_interfaces
userspace_get_wireguard_interfaces s l = add_interfaces s s.entries l

-- The names that the kernel reports, each added by `read_devices_cb`.
unfoldable pub add_names : List Bytes → StringList → Outcome StringList
unfolding string_list_add
add_names [] l = ok l
add_names (name ∷ more) l = string_list_add l name >>= add_names more

-- The buffer that ipc_list_devices returns, or a single NUL.
unfoldable pub ipc_list_devices : Sockets → Option (List Bytes) → Outcome Bytes
unfolding add_names userspace_get_wireguard_interfaces
ipc_list_devices s none = fail
ipc_list_devices s (some kernel) = do
  l ← add_names kernel empty_list
  l' ← userspace_get_wireguard_interfaces s l
  ok (if l'.cap == 0 then 0 ∷ [] else l'.buffer)

-- The text up to its NUL, and what stands behind it.
abbrev pub cstring : Bytes → Bytes × Bytes
cstring [] = ([], [])
cstring (c ∷ text) =
    let (front, rest) = cstring text in if c == 0 then ([], text) else (c ∷ front, rest)

-- The loop `for (len = 0; (len = strlen(interface)); interface += len + 1)` of show.c, over at most
-- so many names.
unfoldable pub interfaces : ℕ → Bytes → List Bytes
interfaces zero buffer = []
interfaces (suc n) buffer =
    let (name, rest) = cstring buffer in
    let more = name ∷ interfaces n rest in if length name == 0 then [] else more

-- The choice between the daemon and the kernel.
unfoldable pub ipc_get_device {ℓ} : {A : Type ℓ} → Sockets → (Bytes → A) → (Bytes → A) → Bytes → A
unfolding userspace_has_wireguard_interface
ipc_get_device s userspace kernel iface =
    if userspace_has_wireguard_interface s iface then userspace iface else kernel iface

unfoldable pub ipc_set_device {ℓ} :
    {A : Type ℓ} → Sockets → (Device → A) → (Device → A) → Device → A
unfolding userspace_has_wireguard_interface
ipc_set_device s userspace kernel d =
    if userspace_has_wireguard_interface s d.name then userspace d else kernel d
