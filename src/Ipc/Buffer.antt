-- ===== src/Ipc/Buffer.antt =====
-- The buffer of `string_list_add`: no write leaves it, and a NUL ends what is in use.
use mathlib.Core.List.{append_assoc}
use router1_app.Prelude.{
  ℕ, zero, suc, ◌+◌, ◌-◌, ◌*◌, ◌≤◌, ◌≡◌, refl, ap, ◌∙◌, ◌⊎◌, inl, inr, true, [], ◌∷◌, ◌++◌, arith,
  ltb, leb, if◌then◌else◌, Bool-cases, Bytes, ok, length, drop, replicate, length-append,
  take-append, drop-append_add, false, ◌==◌, length-drop,
}
use router1_app.Ipc.{StringList, write, grow, string_list_add}

-- A write within the array behind its first part.
write_lem :
    (used src tail : Bytes)
    → length src ≤ length tail
    → write (used ++ tail) (length used) src ≡ ok (used ++ (src ++ drop (length src) tail))
unfolding write
write_lem used src tail fits =
    let inside : leb (length used + length src) (length (used ++ tail)) ≡ true =
      ground (arith, length-append used tail) in
    let behind : drop (length used + length src) (used ++ tail) ≡ drop (length src) tail =
      drop-append_add used (length src) tail in
    rw (inside, take-append used tail, behind) refl

-- The bytes in use are followed by a NUL, unless nothing is allocated.
pub record Holds (used : Bytes) (l : StringList) : Type 0 where
  pub tail : Bytes
  pub whole : l.buffer ≡ used ++ tail
  pub used_length : l.len ≡ length used
  pub cap_length : l.cap ≡ length used + length tail
  pub ended : ((used ≡ []) × (tail ≡ [])) ⊎ ((junk : Bytes) × (tail ≡ 0 ∷ junk))

-- After `grow` there is room for the text and a NUL.
record Room (used : Bytes) (size : ℕ) (l : StringList) : Type 0 where
  tail : Bytes
  whole : l.buffer ≡ used ++ tail
  used_length : l.len ≡ length used
  cap_length : l.cap ≡ length used + length tail
  fits : size + 1 ≤ length tail

length-replicate : (n v : ℕ) → length (replicate n v) ≡ n
length-replicate zero v = refl
length-replicate (suc n) v = ap suc (length-replicate n v)

grow-Room : (used : Bytes) (l : StringList) (size : ℕ) → Holds used l → Room used size (grow l size)
unfolding grow
grow-Room used l size h = elim (Bool-cases (leb (l.cap - l.len) size)) [
  | inr enough ↦ rw enough record {
    tail = h.tail;
    whole = h.whole;
    used_length = h.used_length;
    cap_length = h.cap_length;
    fits = ground (arith, enough, h.used_length, h.cap_length);
  }
  | inl short ↦
      let needed = l.len + size + 1 in
      let new_cap = if ltb (l.cap * 2) needed then needed else l.cap * 2 in
      let more : Bytes = replicate (new_cap - l.cap) 0 in
      let bound : (needed ≤ new_cap) × (l.cap ≤ new_cap) =
        ground (arith, h.used_length, h.cap_length) in
      let size_more = length-replicate (new_cap - l.cap) 0 in
      rw short record {
        tail = h.tail ++ more;
        whole = ap (λ (t : Bytes). t ++ more) h.whole ∙ append_assoc used h.tail more;
        used_length = h.used_length;
        cap_length = omega (arith, length-append h.tail more, size_more, bound, h.cap_length);
        fits =
            omega (arith, length-append h.tail more, size_more, bound, h.used_length, h.cap_length);
      }
]

-- The second write puts the NUL behind the text.
pub string_list_add-Holds :
    (used str : Bytes) (l : StringList)
    → Holds used l
    → (length str == 0) ≡ false
    → (l' : StringList) × (string_list_add l str ≡ ok l') × Holds (used ++ (str ++ (0 ∷ []))) l'
unfolding string_list_add
string_list_add-Holds used str l h nonempty =
    let size = length str + 1 in
    let src : Bytes = str ++ (0 ∷ []) in
    let g = grow l size in
    let r = grow-Room used l size h in
    let size_src : length src ≡ size = length-append str (0 ∷ []) in
    let rest : Bytes = drop size r.tail in
    let size_rest : length rest ≡ length r.tail - size = length-drop size r.tail in
    let room : length src ≤ length r.tail = omega (arith, size_src, r.fits) in
    let first : write g.buffer g.len src ≡ ok ((used ++ src) ++ rest) =
      rw
        (
          r.whole,
          r.used_length,
          write_lem used src r.tail room,
          size_src,
          append_assoc used src rest,
        )
        refl in
    let used' : Bytes = used ++ src in
    let size_used : length used' ≡ length used + size =
      omega (arith, length-append used src, size_src) in
    let place : g.len + size ≡ length used' = omega (arith, size_used, r.used_length) in
    let room' : 1 ≤ length rest = omega (arith, size_rest, r.fits) in
    let second : write (used' ++ rest) (g.len + size) (0 ∷ []) ≡ ok (used' ++ (0 ∷ drop 1 rest)) =
      rw (place, write_lem used' (0 ∷ []) rest room') refl in
    let nonzero : (size == 1) ≡ false = ground (arith, nonempty) in
    let l' : StringList = record {
      buffer = used' ++ (0 ∷ drop 1 rest);
      len = g.len + size;
      cap = g.cap;
    } in
    (
      l',
      rw (nonzero, first, second) refl,
      record {
        tail = 0 ∷ drop 1 rest;
        whole = refl;
        used_length = place;
        cap_length = omega (arith, r.cap_length, size_used, size_rest, length-drop 1 rest, r.fits);
        ended = inr (drop 1 rest, refl);
      },
    )
