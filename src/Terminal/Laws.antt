-- ===== src/Terminal/Laws.antt =====
-- The filter on what the program prints: plain text and the sequences of terminal.h.
use router1_app.Prelude.{
  ℕ, zero, suc, ◌-◌, ◌≡◌, ap, true, false, List, [], ◌∷◌, ◌++◌, arith, ◌==◌, Bytes, length,
  replicate, All, ◌+◌, ◌≤◌, refl, ◌∙◌, inl, inr, leb, Bool-cases, length-append,
}
use router1_app.Ctype.{char_is_alpha}
use router1_app.Terminal.{escape, wipe, erase, print_runs, filter_ansi, starts_sequence}

-- Plain text, or a sequence of its parameters and its letter.
pub data Piece : Type 0 where
  plain : Bytes → Piece
  sequence : Bytes → ℕ → Piece

abbrev pub render : List Piece → Bytes
render [] = []
render (plain text ∷ pieces) = text ++ render pieces
render (sequence params letter ∷ pieces) = escape ∷ b'[' ∷ (params ++ letter ∷ render pieces)

abbrev pub shown : List Piece → Bytes
shown [] = []
shown (plain text ∷ pieces) = text ++ shown pieces
shown (sequence params letter ∷ pieces) = shown pieces

abbrev IsPlain : ℕ → Type 0
IsPlain c = ((c == 0) ≡ false) × ((c == escape) ≡ false)

abbrev IsParam : ℕ → Type 0
IsParam c = char_is_alpha c ≡ false

abbrev pub IsPiece : Piece → Type 0
IsPiece (plain text) = All IsPlain text
IsPiece (sequence params letter) = All IsParam params × (char_is_alpha letter ≡ true)

rounds : {m n : ℕ} (rest : Bytes) → m ≡ n → print_runs (erase m rest) ≡ print_runs (erase n rest)
rounds rest e = ap (λ (t : ℕ). print_runs (erase t rest)) e

no_sequence : (c : ℕ) (text : Bytes) → (c == escape) ≡ false → starts_sequence c text ≡ false
no_sequence c [] h = refl
no_sequence c (d ∷ text) h = rw h

erase-plain :
    (n : ℕ) (text rest : Bytes)
    → All IsPlain text
    → print_runs (erase n (text ++ rest)) ≡ text ++ print_runs (erase (n - length text) rest)
unfolding erase print_runs
erase-plain n [] rest h = rounds {m = n} {n = n - 0} rest (omega arith)
erase-plain zero (c ∷ text) rest ((h, k), hs) = rw h (
    ap (λ (t : Bytes). c ∷ t)
      (erase-plain zero text rest hs
        ∙ ap (λ (t : Bytes). text ++ t)
            (rounds {m = 0 - length text} {n = 0 - suc (length text)} rest (omega arith))))
erase-plain (suc n) (c ∷ text) rest ((h, k), hs) = rw (no_sequence c (text ++ rest) k) (
    rw h (
      ap (λ (t : Bytes). c ∷ t)
        (erase-plain n text rest hs
          ∙ ap (λ (t : Bytes). text ++ t)
              (rounds {m = n - length text} {n = suc n - suc (length text)} rest (omega arith)))))

erase-replicate :
    (n k : ℕ) (rest : Bytes)
    → print_runs (erase n (replicate k 0 ++ rest)) ≡ print_runs (erase (n - k) rest)
unfolding erase print_runs
erase-replicate n zero rest = rounds {m = n} {n = n - 0} rest (omega arith)
erase-replicate zero (suc k) rest =
    erase-replicate zero k rest ∙ rounds {m = 0 - k} {n = 0 - suc k} rest (omega arith)
erase-replicate (suc n) (suc k) rest =
    rw (no_sequence 0 (replicate k 0 ++ rest) refl)
      (erase-replicate n k rest ∙ rounds {m = n - k} {n = suc n - suc k} rest (omega arith))

wipe_lem :
    (params : Bytes) (letter : ℕ) (rest : Bytes)
    → All IsParam params
    → char_is_alpha letter ≡ true
    → wipe (params ++ letter ∷ rest) ≡ replicate (length params) 0 ++ 0 ∷ rest
unfolding wipe
wipe_lem [] letter rest h k = rw k
wipe_lem (c ∷ params) letter rest (h, hs) k = rw (h, wipe_lem params letter rest hs k)

-- A sequence is erased whole where the loop still runs at its start.
erase-sequence :
    (n : ℕ) (params : Bytes) (letter : ℕ) (rest : Bytes)
    → All IsParam params
    → char_is_alpha letter ≡ true
    → print_runs (erase (suc n) (escape ∷ b'[' ∷ (params ++ letter ∷ rest)))
      ≡ print_runs (erase (n - (length params + 2)) rest)
unfolding erase print_runs
erase-sequence n params letter rest h k =
    ap (λ (t : Bytes). print_runs (erase n (0 ∷ t))) (wipe_lem params letter rest h k)
    ∙ erase-replicate n (suc (length params)) (0 ∷ rest)
    ∙ erase-replicate (n - suc (length params)) 1 rest
    ∙ rounds {m = n - suc (length params) - 1} {n = n - (length params + 2)} rest (omega arith)

erase-render :
    (n : ℕ) (pieces : List Piece)
    → All IsPiece pieces
    → length (render pieces) ≤ n + 2
    → print_runs (erase n (render pieces)) ≡ shown pieces
unfolding erase print_runs
erase-render zero [] h fits = refl
erase-render (suc n) [] h fits = refl
erase-render n (plain text ∷ pieces) (h, hs) fits =
    erase-plain n text (render pieces) h
    ∙ ap (λ (t : Bytes). text ++ t)
        (erase-render (n - length text) pieces hs
          (omega (arith, length-append text (render pieces))))
erase-render zero (sequence params letter ∷ pieces) ((h, k), hs) fits =
    absurd (omega (arith, length-append params (letter ∷ render pieces)))
erase-render (suc n) (sequence params letter ∷ pieces) ((h, k), hs) fits =
    erase-sequence n params letter (render pieces) h k
    ∙ erase-render (n - (length params + 2)) pieces hs
        (omega (arith, length-append params (letter ∷ render pieces)))

-- Without colours, a text of plain parts and whole sequences is shown without its sequences.
pub filter_ansi-render :
    (pieces : List Piece) → All IsPiece pieces → filter_ansi false (render pieces) ≡ shown pieces
unfolding filter_ansi
filter_ansi-render pieces h = elim (Bool-cases (leb 2 (length (render pieces)))) [
  | inl long ↦ rw long (erase-render (length (render pieces) - 2) pieces h (ground (arith, long)))
  | inr short ↦ rw short (erase-render 0 pieces h (ground (arith, short)))
]
