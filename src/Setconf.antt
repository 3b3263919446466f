-- ===== src/Setconf.antt =====
-- android/tunnel/tools/amneziawg-tools/src/setconf.c: `sync_conf`, and the subcommands setconf,
-- addconf and syncconf. An allocation is taken to succeed.
pub mod Removals
pub mod Main
pub mod Files
pub mod Sent
pub mod Order
pub mod Sorted
pub mod Gone
pub mod Sync
use Prim.Native.Nat.{compare, Ordering}
use router1_app.Prelude.{
  Bool, true, false, not, ◌||◌, Option, none, some, List, [], ◌∷◌, ◌++◌, if◌then◌else◌, Bytes,
  Outcome, ok, fail,
}
use router1_app.Containers.{Peer, Device, zero_peer}
use router1_app.Containers.Flags.{clear_flag}
use router1_app.Containers.DeviceFlag
use router1_app.Containers.PeerFlag

-- struct pubkey_origin; the pointer stands for the key that it points to.
pub record PubkeyOrigin : Type 0 where
  pub pubkey : Bytes
  pub from_file : Bool

-- The sign of `memcmp` on two keys: that of the first bytes that differ.
unfoldable pub memcmp : Bytes → Bytes → Ordering
memcmp [] b = Ordering.eq
memcmp (x ∷ a) [] = Ordering.eq
memcmp (x ∷ a) (y ∷ b) = elim (compare x y) [
  | Ordering.lt ↦ Ordering.lt
  | Ordering.eq ↦ memcmp a b
  | Ordering.gt ↦ Ordering.gt
]

-- The sign of `a->from_file - b->from_file`.
abbrev pub compare_origin : Bool → Bool → Ordering
compare_origin true true = Ordering.eq
compare_origin true false = Ordering.gt
compare_origin false true = Ordering.lt
compare_origin false false = Ordering.eq

unfoldable pub pubkey_cmp : PubkeyOrigin → PubkeyOrigin → Ordering
unfolding memcmp
pubkey_cmp a b = elim (memcmp a.pubkey b.pubkey) [
  | Ordering.eq ↦ compare_origin a.from_file b.from_file
  | Ordering.lt ↦ Ordering.lt
  | Ordering.gt ↦ Ordering.gt
]

abbrev pub is_gt : Ordering → Bool
is_gt Ordering.gt = true
is_gt Ordering.eq = false
is_gt Ordering.lt = false

-- `qsort` by pubkey_cmp. Elements that compare equal have the same key and origin, so every sort
-- gives this list.
unfoldable pub insert : PubkeyOrigin → List PubkeyOrigin → List PubkeyOrigin
unfolding pubkey_cmp
insert a [] = a ∷ []
insert a (b ∷ l) = let later = b ∷ insert a l in if is_gt (pubkey_cmp a b) then later else a ∷ b ∷ l

unfoldable pub qsort : List PubkeyOrigin → List PubkeyOrigin
unfolding insert
qsort [] = []
qsort (a ∷ l) = insert a (qsort l)

-- The first loops: the keys of a list of peers with their origin.
unfoldable pub origins : Bool → List Peer → List PubkeyOrigin
origins from_file [] = []
origins from_file (p ∷ peers) =
    record { pubkey = p.public_key; from_file = from_file } ∷ origins from_file peers

abbrev pub is_eq : Ordering → Bool
is_eq Ordering.eq = true
is_eq Ordering.gt = false
is_eq Ordering.lt = false

-- `i == peer_count - 1 || !pubkeys[i + 1].from_file || memcmp(...)`.
unfoldable pub is_gone : Bytes → List PubkeyOrigin → Bool
unfolding memcmp
is_gone key [] = true
is_gone key (b ∷ l) = not b.from_file || not (is_eq (memcmp key b.pubkey))

abbrev pub removal : Bytes → Peer
removal key = record zero_peer { flags = PeerFlag.remove_me; public_key = key }

-- The loop over the sorted keys; each removal goes in front of the file's peers.
unfoldable pub sync_loop : List PubkeyOrigin → List Peer → List Peer
unfolding is_gone
sync_loop [] peers = peers
sync_loop (a ∷ l) peers =
    sync_loop l (
      if a.from_file then peers else if is_gone a.pubkey l then removal a.pubkey ∷ peers else peers)

abbrev pub is_empty : List Peer → Bool
is_empty [] = true
is_empty (p ∷ peers) = false

-- `runtime` is the answer of `ipc_get_device`, `none` if it failed.
unfoldable pub sync_conf : Option Device → Device → Outcome Device
unfolding origins qsort sync_loop
sync_conf runtime file = if is_empty file.peers then ok file else elim runtime [
  | none ↦ fail
  | some r ↦
      if is_empty r.peers
      then ok file
      else ok (record file {
        flags = clear_flag file.flags DeviceFlag.replace_peers;
        peers = sync_loop (qsort (origins true file.peers ++ origins false r.peers)) file.peers;
      })
]
