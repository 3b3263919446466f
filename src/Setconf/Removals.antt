-- ===== src/Setconf/Removals.antt =====
-- What `sync_conf` adds to the peers of the file.
use router1_app.Prelude.{
  ◌≡◌, refl, ap, inl, inr, true, false, List, [], ◌∷◌, ◌++◌, Bool-cases, Bytes, All, Bool, some,
  if◌then◌else◌, Ensures, Ensures-if, ok, All-append,
}
use router1_app.Containers.{Peer, Device}
use router1_app.Setconf.Sorted.{All-qsort}
use router1_app.Setconf.{
  PubkeyOrigin, qsort, origins, sync_loop, is_gone, removal, is_empty, sync_conf,
}

-- Each key that is not from the file satisfies P.
abbrev pub RuntimeKey : (Bytes → Type 0) → PubkeyOrigin → Type 0
RuntimeKey P a = a.from_file ≡ false → P a.pubkey

module _ (P : Bytes → Type 0) where
  abbrev pub KeyOf : Peer → Type 0
  KeyOf p = P p.public_key

  origins_file : (peers : List Peer) → All (RuntimeKey P) (origins true peers)
  unfolding origins
  origins_file [] = tt
  origins_file (p ∷ peers) = (λ e. cc, origins_file peers)

  origins_runtime : (peers : List Peer) → All KeyOf peers → All (RuntimeKey P) (origins false peers)
  unfolding origins
  origins_runtime [] h = tt
  origins_runtime (p ∷ peers) (h, hs) = (λ e. h, origins_runtime peers hs)

  -- A removal of a key that satisfies P.
  abbrev pub IsRemoval : Peer → Type 0
  IsRemoval p = P p.public_key × (p ≡ removal p.public_key)

  -- The peers end with those of the file, and all in front of them are removals.
  pub record Extends (file peers : List Peer) : Type 0 where
    pub added : List Peer
    pub ends : peers ≡ added ++ file
    pub removals : All IsRemoval added

  sync_loop-Extends :
      (l : List PubkeyOrigin) (file peers : List Peer)
      → All (RuntimeKey P) l
      → Extends file peers
      → Extends file (sync_loop l peers)
  unfolding sync_loop
  sync_loop-Extends [] file peers h x = x
  sync_loop-Extends (a ∷ l) file peers (h, hs) x = elim (Bool-cases (a.from_file)) [
    | inl in_file ↦ rw (in_file, sync_loop) (sync_loop-Extends l file peers hs x)
    | inr here ↦ elim (Bool-cases (is_gone a.pubkey l)) [
      | inl gone ↦
          rw (here, gone, sync_loop)
            (sync_loop-Extends l file (removal a.pubkey ∷ peers) hs record {
              added = removal a.pubkey ∷ x.added;
              ends = ap (λ (t : List Peer). removal a.pubkey ∷ t) x.ends;
              removals = ((h here, refl), x.removals);
            })
      | inr kept ↦ rw (here, kept, sync_loop) (sync_loop-Extends l file peers hs x)
    ]
  ]

  Extends-if :
      (b : Bool) (d e : Device) (file : List Peer)
      → Extends file d.peers
      → Extends file e.peers
      → Ensures (λ (r : Device). Extends file r.peers) (if b then ok d else ok e)
  Extends-if true d e file x y = x
  Extends-if false d e file x y = y

  -- Where the keys of the running interface satisfy P, a `sync_conf` that succeeds keeps the file's peers in their
  -- order, and what it puts in front of them are removals of keys that satisfy P.
  pub sync_conf-Extends :
      (file runtime : Device)
      → All KeyOf runtime.peers
      → Ensures (λ (d : Device). Extends file.peers d.peers) (sync_conf (some runtime) file)
  unfolding sync_conf
  sync_conf-Extends file runtime h =
      let unchanged : Extends file.peers file.peers = record {
        added = [];
        ends = refl;
        removals = tt;
      } in
      Ensures-if (λ (d : Device). Extends file.peers d.peers) (is_empty file.peers) _ _
        (λ e. unchanged)
        (λ n. Extends-if (is_empty runtime.peers) file _ file.peers unchanged (
          sync_loop-Extends (qsort (origins true file.peers ++ origins false runtime.peers))
            file.peers file.peers
            (All-qsort (RuntimeKey P) (origins true file.peers ++ origins false runtime.peers) (
              All-append (RuntimeKey P) (origins true file.peers) (origins false runtime.peers)
                (origins_file file.peers) (origins_runtime runtime.peers h)))
            unchanged))
