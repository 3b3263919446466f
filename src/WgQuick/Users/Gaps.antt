-- ===== src/WgQuick/Users/Gaps.antt =====
-- wg-quick/android.c: the ranges of set_users leave out exactly the users of the list.
use router1_app.Prelude.{
  ℕ, ◌+◌, ◌-◌, ◌%◌, ◌^◌, ◌≤◌, ◌<◌, ◌≡◌, inl, inr, Bool, false, not, ◌&&◌, ◌||◌, List, [], ◌∷◌, ◌++◌,
  arith, ltb, leb, ◌==◌, if◌then◌else◌, Bool-cases, Bytes, codes, All, refl, true, ap, ◌∙◌, Option,
}
use router1_app.WgQuick.Script.{State, World, concat}
use router1_app.Uapi.Print.{print_u}
use router1_app.WgQuick.Users.{
  finish_users, range_text, Batch, excluded_loop, included_loop, with_last,
}
use router1_app.WgQuick.Users.Batches.{
  finish_users-sends, sends, Holds, add_range-sends, concat_and_free-open_text, finish_users-last,
}
use router1_app.WgQuick.{concat_and_free}

-- A user that the loops can have in their list.
abbrev pub IsUid : ℕ → Type 0
IsUid uid = (1 ≤ uid) × (uid < 2 ^ 32 - 1)

-- The first and the last user of each range, from `start` on.
unfoldable pub gaps : ℕ → List ℕ → List (ℕ × ℕ)
gaps start [] = if ltb start 99999 then (start, 99999) ∷ [] else []
gaps start (uid ∷ uids) =
    let later = gaps (uid + 1) uids in
    if ltb (uid - 1) start then later else (start, uid - 1) ∷ later

abbrev pub range_texts : List (ℕ × ℕ) → List Bytes
range_texts [] = []
range_texts ((start, last) ∷ ranges) = range_text start last ∷ range_texts ranges

abbrev pub uid_texts : List ℕ → List Bytes
uid_texts [] = []
uid_texts (uid ∷ uids) = print_u uid ∷ uid_texts uids

print_99999 : print_u 99999 ≡ codes "99999"
unfolding print_u
print_99999 = refl

last_text :
    (start : ℕ)
    → ltb start 99999 ≡ true
    → range_text start 99999 ≡ concat (print_u start ∷ codes "-99999" ∷ [])
last_text start h =
    let apart : (start == 99999) ≡ false = ground (arith, h) in
    let digits : print_u 99999 ≡ codes "99999" = print_99999 in rw (apart, digits) refl

module _ (w : World) (netid : ℕ) where
  with_last-sends :
      (start : ℕ) (acc : List Bytes) (b : Batch) (s : State)
      → Holds acc b
      → finish_users w netid (with_last start b) s
        ≡ sends w netid acc (range_texts (gaps start [])) s
  unfolding with_last gaps
  with_last-sends start acc b s h = elim (Bool-cases (ltb start 99999)) [
    | inl e ↦
        let text = concat (print_u start ∷ codes "-99999" ∷ []) in
        let same : range_text start 99999 ≡ text = last_text start e in
        rw (e, same)
          (finish_users-last w netid acc text
            (record b { ranges = concat_and_free b.ranges (codes " ") text }) s
            (ap (λ (t : Option Bytes). concat_and_free t (codes " ") text) h.ranges
              ∙ concat_and_free-open_text acc text))
    | inr e ↦ rw e (finish_users-sends w netid acc b s h.ranges)
  ]

  pub excluded_loop-sends :
      (uids zeros : List ℕ) (start : ℕ) (acc : List Bytes) (b : Batch) (s : State)
      → All IsUid uids
      → Holds acc b
      → excluded_loop w netid (uids ++ (0 ∷ zeros)) start b s
        ≡ sends w netid acc (range_texts (gaps start uids)) s
  unfolding excluded_loop gaps
  excluded_loop-sends [] zeros start acc b s h holds = with_last-sends start acc b s holds
  excluded_loop-sends (uid ∷ uids) zeros start acc b s (ok, h) holds =
      let nonzero : (uid == 0) ≡ false = ground (arith, ok.0) in
      let next : (uid + 1) % 2 ^ 32 ≡ uid + 1 = ground (arith, ok.1) in
      rw (nonzero, next)
        (elim (Bool-cases (ltb (uid - 1) start)) [
          | inl e ↦ rw e (excluded_loop-sends uids zeros (uid + 1) acc b s h holds)
          | inr e ↦ rw e (
              add_range-sends w netid acc (range_text start (uid - 1))
                (range_texts (gaps (uid + 1) uids)) b
                (excluded_loop w netid (uids ++ (0 ∷ zeros)) (uid + 1)) holds
                (λ acc' b' s' holds'. excluded_loop-sends uids zeros (uid + 1) acc' b' s' h holds')
                s)
        ])

  pub included_loop-sends :
      (uids zeros : List ℕ) (acc : List Bytes) (b : Batch) (s : State)
      → All IsUid uids
      → Holds acc b
      → included_loop w netid (uids ++ (0 ∷ zeros)) b s ≡ sends w netid acc (uid_texts uids) s
  unfolding included_loop
  included_loop-sends [] zeros acc b s h holds = finish_users-sends w netid acc b s holds.ranges
  included_loop-sends (uid ∷ uids) zeros acc b s (ok, h) holds =
      let nonzero : (uid == 0) ≡ false = ground (arith, ok.0) in
      rw nonzero (
        add_range-sends w netid acc (print_u uid) (uid_texts uids) b
          (included_loop w netid (uids ++ (0 ∷ zeros))) holds
          (λ acc' b' s' holds'. included_loop-sends uids zeros acc' b' s' h holds') s)

-- A user stands in one of the ranges; a user stands in the list.
unfoldable pub covers : List (ℕ × ℕ) → ℕ → Bool
covers [] v = false
covers ((start, last) ∷ ranges) v = (leb start v && leb v last) || covers ranges v

unfoldable pub listed : List ℕ → ℕ → Bool
listed [] v = false
listed (uid ∷ uids) v = uid == v || listed uids v

-- Ascending, from a lower bound on.
abbrev pub Ascends : ℕ → List ℕ → Type 0
Ascends low [] = Unit
Ascends low (uid ∷ uids) = (low ≤ uid) × Ascends uid uids

covers-gaps_below :
    (low start : ℕ) (uids : List ℕ) (v : ℕ)
    → v < start
    → start ≤ low + 1
    → Ascends low uids
    → covers (gaps start uids) v ≡ false
unfolding covers gaps
covers-gaps_below low start [] v h near a = ground arith
covers-gaps_below low start (uid ∷ uids) v h near (le, a) =
    let later =
      covers-gaps_below uid (uid + 1) uids v (omega (arith, h, near, le)) (omega arith) a in
    elim (Bool-cases (ltb (uid - 1) start)) [
      | inl e ↦ rw e later
      | inr e ↦ rw (e, later) (ground (arith, h))
    ]

listed_below :
    (low : ℕ) (uids : List ℕ) (v : ℕ) → v < low → Ascends low uids → listed uids v ≡ false
unfolding listed
listed_below low [] v h a = refl
listed_below low (uid ∷ uids) v h (le, a) =
    rw (listed_below uid uids v (omega (arith, h, le)) a) (ground (arith, h, le))

pub covers-gaps :
    (low start : ℕ) (uids : List ℕ) (v : ℕ)
    → start ≤ low + 1
    → All IsUid uids
    → Ascends low uids
    → v < 99999
    → start ≤ v
    → covers (gaps start uids) v ≡ not (listed uids v)
unfolding covers gaps listed
covers-gaps low start [] v near h a small from = ground (arith, small, from)
covers-gaps low start (uid ∷ uids) v near (ok, h) (le, a) small from =
    elim (Bool-cases (leb (uid + 1) v)) [
      | inl above ↦
          let later =
            covers-gaps uid (uid + 1) uids v (omega arith) h a small (ground (arith, above)) in
          let other : (uid == v) ≡ false = ground (arith, above) in
          let past : leb v (uid - 1) ≡ false = ground (arith, above) in
          elim (Bool-cases (ltb (uid - 1) start)) [
            | inl e ↦ rw (e, other) later
            | inr e ↦ rw (e, other, past) (ground (arith, later))
          ]
      | inr not_above ↦
          let below =
            covers-gaps_below uid (uid + 1) uids v (ground (arith, not_above)) (omega arith) a in
          elim (Bool-cases (uid == v)) [
            | inl same ↦
                let past : leb v (uid - 1) ≡ false = ground (arith, same, ok.0) in
                elim (Bool-cases (ltb (uid - 1) start)) [
                  | inl e ↦ rw (e, same) below
                  | inr e ↦ rw (e, same, past, below) (ground arith)
                ]
            | inr other ↦
                let absent = listed_below uid uids v (ground (arith, not_above, other)) a in
                let inside : leb v (uid - 1) ≡ true = ground (arith, not_above, other) in
                let reached : leb start v ≡ true = ground (arith, from) in
                let apart : ltb (uid - 1) start ≡ false = ground (arith, not_above, other, from) in
                rw (apart, other, absent, inside, reached) refl
          ]
    ]
