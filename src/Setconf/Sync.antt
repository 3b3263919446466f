-- ===== src/Setconf/Sync.antt =====
-- `sync_conf` against what it is for: the peers that run and are not in the file are removed, each
-- once, and no other.
use mathlib.Core.Path.{subst}
use mathlib.Core.List.{append_assoc}
use router1_app.Prelude.{
  ℕ, ◌≡◌, refl, Bool, true, false, List, [], ◌∷◌, arith, ◌==◌, All, ◌+◌, ◌≤◌, sym, ap, ◌∙◌, inl,
  inr, ◌&&◌, ◌++◌, if◌then◌else◌, Bool-cases, Bytes, some, ok, length, All-append,
}
use router1_app.Containers.{Peer, Device}
use router1_app.Containers.Flags.{clear_flag}
use router1_app.Containers.DeviceFlag
use router1_app.Setconf.{
  PubkeyOrigin, is_gone, removal, origins, sync_loop, is_empty, sync_conf, qsort,
}
use router1_app.Setconf.Order.{key_eq, key_eq-eq}
use router1_app.Setconf.Sorted.{
  SizedKey, NotBefore, IsSorted, occurs, count_key, All-qsort, qsort-IsSorted, occurs-qsort,
  occurs-file, occurs-runtime,
}
use router1_app.Setconf.Gone.{none_after, is_gone-occurs, IsMarked}

-- What `sync_conf` hands over, for the peers of the file and those that run.
pub record Synced (file runtime peers : List Peer) : Type 0 where
  pub added : List Peer
  pub ends : peers ≡ added ++ file
  pub marked : All IsMarked added
  pub exact :
      (key : Bytes)
      → count_key key added ≡ (if count_key key file == 0 then count_key key runtime else 0)

-- The same for the loop over sorted origins.
record Looped (l : List PubkeyOrigin) (before after : List Peer) : Type 0 where
  added : List Peer
  ends : after ≡ added ++ before
  marked : All IsMarked added
  exact :
      (key : Bytes)
      → count_key key added ≡ (if occurs true key l == 0 then occurs false key l else 0)

count_key-append :
    (key : Bytes) (p q : List Peer) → count_key key (p ++ q) ≡ count_key key p + count_key key q
unfolding count_key
count_key-append key [] q = omega arith
count_key-append key (a ∷ p) q = omega (arith, count_key-append key p q)

count_key-removal :
    (key k : Bytes) → count_key key (removal k ∷ []) ≡ (if key_eq k key then 1 else 0)
unfolding count_key
count_key-removal key k = omega arith

abbrev Once : List PubkeyOrigin → Type 0
Once l = (key : Bytes) → occurs false key l ≤ 1

Once-tail : (a : PubkeyOrigin) (l : List PubkeyOrigin) → Once (a ∷ l) → Once l
unfolding occurs
Once-tail a l once key = omega (arith, once key)

module _ (n : ℕ) (a : PubkeyOrigin) (l : List PubkeyOrigin) (h : SizedKey n a)
    (s : All (SizedKey n) l) (below : All (NotBefore a) l) (sorted : IsSorted l) where
  -- An origin in the file changes no answer.
  exact_file :
      (key : Bytes)
      → a.from_file ≡ true
      → (if occurs true key l == 0 then occurs false key l else 0)
        ≡ (if occurs true key (a ∷ l) == 0 then occurs false key (a ∷ l) else 0)
  unfolding occurs
  exact_file key file = elim (Bool-cases (key_eq a.pubkey key)) [
    | inl same ↦
        let e = key_eq-eq a.pubkey key same in
        let none_left : occurs false key l ≡ 0 =
          subst (λ (k : Bytes). occurs false k l ≡ 0) e (none_after n a l h s below file) in
        ground (arith, none_left, same, file)
    | inr apart ↦ ground (arith, apart)
  ]

  -- An origin that runs is answered by `is_gone`.
  exact_runtime :
      (key : Bytes)
      → a.from_file ≡ false
      → Once (a ∷ l)
      → (if occurs true key l == 0 then occurs false key l else 0)
          + (if is_gone a.pubkey l && key_eq a.pubkey key then 1 else 0)
        ≡ (if occurs true key (a ∷ l) == 0 then occurs false key (a ∷ l) else 0)
  unfolding occurs
  exact_runtime key file once = elim (Bool-cases (key_eq a.pubkey key)) [
    | inl same ↦
        let e = key_eq-eq a.pubkey key same in
        let none_left : occurs false key l ≡ 0 = ground (arith, once key, same, file) in
        let here : occurs false a.pubkey l ≡ 0 =
          subst (λ (k : Bytes). occurs false k l ≡ 0) (sym e) none_left in
        let gone : is_gone a.pubkey l ≡ (occurs true key l == 0) =
          is_gone-occurs n a l h s below sorted here ∙ ap (λ (k : Bytes). occurs true k l == 0) e in
        ground (arith, none_left, gone, same, file)
    | inr apart ↦ ground (arith, apart)
  ]

sync_loop-Looped :
    (n : ℕ) (l : List PubkeyOrigin) (peers : List Peer)
    → All (SizedKey n) l
    → IsSorted l
    → Once l
    → Looped l peers (sync_loop l peers)
unfolding sync_loop
sync_loop-Looped n [] peers s sorted once = record {
  added = [];
  ends = refl;
  marked = tt;
  exact = λ key. unfold count_key occurs in refl;
}
sync_loop-Looped n (a ∷ l) peers (h, s) (below, sorted) once =
    let rest = λ (q : List Peer). sync_loop-Looped n l q s sorted (Once-tail a l once) in
    let p = removal a.pubkey in
    let again = if is_gone a.pubkey l then p ∷ peers else peers in
    elim (Bool-cases (a.from_file)) [
      | inl file ↦
          let r = rest peers in
          let step : (if a.from_file then peers else again) ≡ peers = rw file in
          subst (λ (q : List Peer). Looped (a ∷ l) peers (sync_loop l q)) (sym step)
            (record {
              added = r.added;
              ends = r.ends;
              marked = r.marked;
              exact = λ key. r.exact key ∙ exact_file n a l h s below sorted key file;
            })
      | inr runs ↦ elim (Bool-cases (is_gone a.pubkey l)) [
        | inr stays ↦
            let r = rest peers in
            let step : (if a.from_file then peers else again) ≡ peers = rw (runs, stays) in
            subst (λ (q : List Peer). Looped (a ∷ l) peers (sync_loop l q)) (sym step)
              (record {
                added = r.added;
                ends = r.ends;
                marked = r.marked;
                exact = λ key.
                    ground (
                      arith,
                      r.exact key,
                      stays,
                      exact_runtime n a l h s below sorted key runs once,
                    );
              })
        | inl gone ↦
            let r = rest (p ∷ peers) in
            let step : (if a.from_file then peers else again) ≡ p ∷ peers = rw (runs, gone) in
            subst (λ (q : List Peer). Looped (a ∷ l) peers (sync_loop l q)) (sym step)
              (record {
                added = r.added ++ (p ∷ []);
                ends = r.ends ∙ sym (append_assoc r.added (p ∷ []) peers);
                marked = All-append IsMarked r.added (p ∷ []) r.marked (refl, tt);
                exact = λ key. ground (
                  arith,
                  r.exact key,
                  count_key-append key r.added (p ∷ []),
                  count_key-removal key a.pubkey,
                  gone,
                  exact_runtime n a l h s below sorted key runs once,
                );
              })
      ]
    ]

-- All peers have keys of n bytes.
abbrev pub SizedPeer : ℕ → Peer → Type 0
SizedPeer n p = length p.public_key ≡ n

origins-Sized :
    (n : ℕ) (file : Bool) (peers : List Peer)
    → All (SizedPeer n) peers
    → All (SizedKey n) (origins file peers)
unfolding origins
origins-Sized n file [] h = tt
origins-Sized n file (p ∷ peers) (h, hs) = (h, origins-Sized n file peers hs)

-- For a file and a running interface that both have peers, whose keys have one length, and where no
-- key runs twice: `sync_conf` keeps the peers of the file in their order, and puts removals in front
-- of them. A key is removed exactly as often as it runs if the file does not have it, and never if
-- the file has it. The flag that replaces all peers is cleared.
pub sync_conf-Synced :
    (n : ℕ) (file runtime : Device)
    → is_empty file.peers ≡ false
    → is_empty runtime.peers ≡ false
    → All (SizedPeer n) file.peers
    → All (SizedPeer n) runtime.peers
    → ((key : Bytes) → count_key key runtime.peers ≤ 1)
    → (d : Device) × (sync_conf (some runtime) file ≡ ok d)
      × (d.flags ≡ clear_flag file.flags DeviceFlag.replace_peers)
      × Synced file.peers runtime.peers d.peers
unfolding sync_conf
sync_conf-Synced n file runtime some_file some_runtime hf hr once =
    let all = origins true file.peers ++ origins false runtime.peers in
    let sized : All (SizedKey n) all =
      All-append (SizedKey n) (origins true file.peers) (origins false runtime.peers)
        (origins-Sized n true file.peers hf) (origins-Sized n false runtime.peers hr) in
    let once_sorted : Once (qsort all) = λ key.
      omega (
        arith,
        once key,
        occurs-qsort false key all,
        occurs-runtime key file.peers runtime.peers,
      ) in
    let r =
      sync_loop-Looped n (qsort all) file.peers (All-qsort (SizedKey n) all sized)
        (qsort-IsSorted n all sized) once_sorted in
    (
      record file {
        flags = clear_flag file.flags DeviceFlag.replace_peers;
        peers = sync_loop (qsort all) file.peers;
      },
      rw (some_file, some_runtime) refl,
      refl,
      record {
        added = r.added;
        ends = r.ends;
        marked = r.marked;
        exact = λ key. omega (
          arith,
          r.exact key,
          ap (λ (t : ℕ). if t == 0 then occurs false key (qsort all) else 0)
              (occurs-qsort true key all ∙ occurs-file key file.peers runtime.peers),
          ap (λ (t : ℕ). if count_key key file.peers == 0 then t else 0)
              (occurs-qsort false key all ∙ occurs-runtime key file.peers runtime.peers),
        );
      },
    )
