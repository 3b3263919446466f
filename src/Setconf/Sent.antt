-- ===== src/Setconf/Sent.antt =====
-- What the subcommands setconf, addconf, syncconf and set hand to `ipc_set_device`.
use mathlib.Core.Path.{subst}
use router1_app.Prelude.{
  ℕ, ◌≡◌, refl, sym, Bool, true, false, some, List, [], ◌∷◌, if◌then◌else◌, Bytes, Outcome, Ensures,
  Ensures-if, ok, fail, exit, fault, hang, All, All-append, ◌<◌, ◌≢◌, Option, none, arith,
  Ensures-bind, Ensures-imp, length, length-take, inl, inr, Option-cases, codes,
}
use router1_app.Libc.{strcmp_eq}
use router1_app.Encoding.Flags.{IsKey}
use router1_app.Containers.{Peer, Device}
use router1_app.Containers.Valid.{IsPeer, IsDevice, zero_peer-IsPeer}
use router1_app.Config.Host.{Host, IsHost}
use router1_app.Config.Cmd.{config_read_cmd}
use router1_app.Config.Cmd.Laws.{config_read_cmd-Ensures}
use router1_app.Config.Read.Laws.{IsFinished}
use router1_app.Setconf.{removal, sync_conf, is_empty}
use router1_app.Setconf.Removals.{Extends, IsRemoval, KeyOf, sync_conf-Extends}
use router1_app.Setconf.Main.{
  Ipc, Ran, ifnamsiz, apply_device, named, read_file, finish_with, setconf_main, set_main,
}
use router1_app.Setconf.Files.{read_file-Ensures}

-- The running interface has well-formed peers.
abbrev pub IsIpc : Ipc → Type 0
IsIpc i = (name : Bytes) (d : Device) → i.get_device name ≡ some d → IsDevice d

removal-IsPeer : (key : Bytes) → IsKey key → IsPeer (removal key)
removal-IsPeer key h = let z = zero_peer-IsPeer in assumption

removals-IsPeer : (added : List Peer) → All (IsRemoval IsKey) added → All IsPeer added
removals-IsPeer [] h = tt
removals-IsPeer (p ∷ added) ((k, e), hs) =
    (subst IsPeer (sym e) (removal-IsPeer p.public_key k), removals-IsPeer added hs)

extended-IsPeer :
    (file peers : List Peer) → All IsPeer file → Extends IsKey file peers → All IsPeer peers
extended-IsPeer file peers h x =
    subst (All IsPeer) (sym x.ends)
      (All-append IsPeer x.added file (removals-IsPeer x.added x.removals) h)

keys-IsKey : (peers : List Peer) → All IsPeer peers → All (KeyOf IsKey) peers
keys-IsKey [] h = tt
keys-IsKey (p ∷ peers) (h, hs) = (h.public_key_size, keys-IsKey peers hs)

-- `sync_conf` changes the flags and the peers.
abbrev Same : Device → Device → Type 0
Same file d =
    (flags : ℕ) (peers : List Peer)
    → record d { flags = flags; peers = peers } ≡ record file { flags = flags; peers = peers }

synced_if :
    (b : Bool) (file : Device) (flags : ℕ) (peers : List Peer)
    → Ensures (Same file) (if b then ok file else ok (record file { flags = flags; peers = peers }))
synced_if true file flags peers = λ f p. refl
synced_if false file flags peers = λ f p. refl

sync_conf-Same : (file runtime : Device) → Ensures (Same file) (sync_conf (some runtime) file)
unfolding sync_conf
sync_conf-Same file runtime =
    Ensures-if (Same file) (is_empty file.peers) _ _ (λ e. λ f p. refl)
      (λ n. synced_if (is_empty runtime.peers) file _ _)

Same-IsDevice : (file d : Device) → IsDevice file → Same file d → All IsPeer d.peers → IsDevice d
Same-IsDevice file d good same valid =
    let moved : IsDevice (record file { flags = d.flags; peers = d.peers }) = assumption in
    subst IsDevice (sym (same d.flags d.peers)) moved

both :
    {A : Type 0} (P Q : A → Type 0) (m : Outcome A)
    → Ensures P m
    → Ensures Q m
    → Ensures (λ a. P a × Q a) m
both P Q (ok a) h k = (h, k)
both P Q fail h k = tt
both P Q exit h k = tt
both P Q fault h k = h
both P Q hang h k = tt

-- A well-formed device with a name that fits IFNAMSIZ.
abbrev pub IsSendable : Device → Type 0
IsSendable d = IsDevice d × (length d.name < ifnamsiz)

sent_name : (file d : Device) → Same file d → length file.name < ifnamsiz → length d.name < ifnamsiz
sent_name file d same h =
    subst (λ (e : Device). length e.name < ifnamsiz) (sym (same d.flags d.peers)) h

sync_conf-IsSendable :
    (file : Device) (runtime : Option Device)
    → IsSendable file
    → ((d : Device) → runtime ≡ some d → IsDevice d)
    → Ensures IsSendable (sync_conf runtime file)
unfolding sync_conf
sync_conf-IsSendable file none good h =
    Ensures-if IsSendable (is_empty file.peers) _ _ (λ e. good) (λ e. tt)
sync_conf-IsSendable file (some runtime) (good, short) h =
    Ensures-imp _ IsSendable (sync_conf (some runtime) file)
      (both (Same file) (λ d. Extends IsKey file.peers d.peers) _ (sync_conf-Same file runtime)
        (sync_conf-Extends IsKey file runtime
          (keys-IsKey runtime.peers (h runtime refl).peers_valid)))
      (λ d r. (
        Same-IsDevice file d good r.0 (extended-IsPeer file.peers d.peers good.peers_valid r.1),
        sent_name file d r.0 short,
      ))

-- What is handed over is a well-formed device, and without that the status is not 0.
abbrev pub SentGood : Option Device → ℕ → Type 0
SentGood none status = status ≢ 0
SentGood (some d) status = IsSendable d

abbrev pub RanGood : Option Ran → Type 0
RanGood none = Unit
RanGood (some r) = SentGood r.sent r.status

finish_with-RanGood :
    (i : Ipc) (m : Outcome Device) → Ensures IsSendable m → RanGood (finish_with m (apply_device i))
finish_with-RanGood i (ok d) h = h
finish_with-RanGood i fail h = λ e. omega arith
finish_with-RanGood i exit h = λ e. omega arith
finish_with-RanGood i fault h = tt
finish_with-RanGood i hang h = tt

named-IsDevice : (iface : Bytes) (d : Device) → IsDevice d → IsDevice (named iface d)
named-IsDevice iface d good = assumption

named-length : (iface : Bytes) (d : Device) → length (named iface d).name < ifnamsiz
named-length iface d = omega (arith, length-take 15 iface)

-- Where setconf, addconf or syncconf returns, it has handed over a well-formed device whose name fits
-- IFNAMSIZ, or none, and then its status is not 0. The peers of the running interface are taken to be
-- well-formed.
pub setconf_main-RanGood :
    (h : Host) (i : Ipc) (fuel : ℕ) (argv : List Bytes)
    → IsHost h
    → IsIpc i
    → RanGood (setconf_main h i fuel argv)
unfolding setconf_main
setconf_main-RanGood h i fuel [] w g = λ e. omega arith
setconf_main-RanGood h i fuel (cmd ∷ []) w g = λ e. omega arith
setconf_main-RanGood h i fuel (cmd ∷ iface ∷ []) w g = λ e. omega arith
setconf_main-RanGood h i fuel (cmd ∷ iface ∷ path ∷ []) w g =
    elim (Option-cases (i.file_lines path)) [
      | inl missing ↦ rw (missing, setconf_main) (λ e. omega arith)
      | inr (lines, present) ↦
          rw (present, setconf_main)
            (finish_with-RanGood i _ (
              Ensures-bind IsFinished IsSendable
                (read_file h fuel (strcmp_eq cmd (codes "addconf")) lines) _
                (read_file-Ensures h fuel (strcmp_eq cmd (codes "addconf")) lines w)
                (λ d r.
                  let n = named iface d in
                  let good : IsSendable n = (named-IsDevice iface d r.0, named-length iface d) in
                  Ensures-if IsSendable (strcmp_eq cmd (codes "syncconf")) _ _
                    (λ e. sync_conf-IsSendable n (i.get_device n.name) good (g n.name))
                    (λ e. good))))
    ]
setconf_main-RanGood h i fuel (cmd ∷ iface ∷ path ∷ more ∷ argv) w g = λ e. omega arith

-- Where `wg set` returns, it has handed over a well-formed device whose name fits IFNAMSIZ, or none,
-- and then its status is not 0.
pub set_main-RanGood :
    (h : Host) (i : Ipc) (fuel : ℕ) (argv : List Bytes)
    → IsHost h
    → RanGood (set_main h i fuel argv)
unfolding set_main
set_main-RanGood h i fuel [] w = λ e. omega arith
set_main-RanGood h i fuel (cmd ∷ []) w = λ e. omega arith
set_main-RanGood h i fuel (cmd ∷ iface ∷ []) w = λ e. omega arith
set_main-RanGood h i fuel (cmd ∷ iface ∷ arg ∷ args) w = finish_with-RanGood i _ (
    Ensures-bind IsDevice IsSendable (config_read_cmd h fuel (arg ∷ args)) _
      (config_read_cmd-Ensures h fuel (arg ∷ args) w)
      (λ d good. (named-IsDevice iface d good, named-length iface d)))
