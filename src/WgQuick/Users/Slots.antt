-- ===== src/WgQuick/Users/Slots.antt =====
-- wg-quick/android.c: the uids fit the places that get_uid_list counts.
use router1_app.Prelude.{
  ℕ, ◌+◌, ◌≤◌, ◌≡◌, refl, inl, inr, Bool, true, false, ◌||◌, none, some, List, [], ◌∷◌, arith, ◌==◌,
  if◌then◌else◌, Bool-cases, Bytes, length, Option-cases, length-append,
}
use router1_app.WgQuick.Users.{read_package, is_token, tokens, commas, add_char}
use router1_app.Libc.{strcmp_eq}
use router1_app.WgQuick.Users.Selected.{found, matches, found-none, found-some}
use mathlib.Core.Path.{subst}

-- The texts that are not empty, and the lines whose package a text names.
unfoldable pub words : List Bytes → ℕ
words [] = 0
words (text ∷ texts) = let later = words texts in if length text == 0 then later else later + 1

unfoldable pub hits : Bytes → List Bytes → ℕ
hits text [] = 0
hits text (name ∷ names) =
    let later = hits text names in if is_token name text then later + 1 else later

-- The names of the packages of a list.
unfoldable pub package_names : List Bytes → List Bytes
package_names [] = []
package_names (line ∷ lines) = elim (read_package line) [
  | none ↦ package_names lines
  | some parts ↦ parts.0 ∷ package_names lines
]

-- No name is listed twice.
unfoldable pub repeats : Bytes → List Bytes → Bool
unfolding strcmp_eq
repeats name [] = false
repeats name (other ∷ names) = strcmp_eq other name || repeats name names

abbrev pub Distinct : List Bytes → Type 0
Distinct [] = Unit
Distinct (name ∷ names) = (repeats name names ≡ false) × Distinct names

strcmp_eq-eq : (a b : Bytes) → strcmp_eq a b ≡ true → a ≡ b
unfolding strcmp_eq
strcmp_eq-eq [] [] h = refl
strcmp_eq-eq [] (y ∷ b) h = cc
strcmp_eq-eq (x ∷ a) [] h = cc
strcmp_eq-eq (x ∷ a) (y ∷ b) h = ground (arith, strcmp_eq-eq a b)

hits_absent : (text : Bytes) (names : List Bytes) → repeats text names ≡ false → hits text names ≡ 0
unfolding hits repeats
hits_absent text [] h = refl
hits_absent text (name ∷ names) h = ground (arith, hits_absent text names)

hits-Distinct : (text : Bytes) (names : List Bytes) → Distinct names → hits text names ≤ 1
unfolding hits
hits-Distinct text [] h = omega arith
hits-Distinct text (name ∷ names) (once, h) = elim (Bool-cases (is_token name text)) [
  | inl e ↦
      let same : name ≡ text = strcmp_eq-eq name text (ground (arith, e)) in
      let absent =
        hits_absent text names (subst (λ (t : Bytes). repeats t names ≡ false) same once) in
      rw e (omega (arith, absent))
  | inr e ↦ rw e (hits-Distinct text names h)
]

hits_empty : (text : Bytes) (names : List Bytes) → (length text == 0) ≡ true → hits text names ≡ 0
unfolding hits
hits_empty text [] h = refl
hits_empty text (name ∷ names) h = ground (arith, hits_empty text names h)

-- The uids by the texts in place of the lines.
length-matches_cons :
    (text : Bytes) (texts : List Bytes) (name : Bytes) (uid : ℕ)
    → length (matches (text ∷ texts) name uid)
      ≡ (if is_token name text then 1 else 0) + length (matches texts name uid)
unfolding matches
length-matches_cons text texts name uid = elim (Bool-cases (is_token name text)) [
  | inl e ↦ rw e (omega arith)
  | inr e ↦ rw e (omega arith)
]

names_none :
    (line : Bytes) (lines : List Bytes)
    → read_package line ≡ none
    → package_names (line ∷ lines) ≡ package_names lines
unfolding package_names
names_none line lines e = rw (e, package_names) refl

names_some :
    (line : Bytes) (lines : List Bytes) (parts : Bytes × ℕ)
    → read_package line ≡ some parts
    → package_names (line ∷ lines) ≡ parts.0 ∷ package_names lines
unfolding package_names
names_some line lines parts e = rw (e, package_names) refl

hits_cons :
    (text name : Bytes) (names : List Bytes)
    → hits text (name ∷ names) ≡ (if is_token name text then 1 else 0) + hits text names
unfolding hits
hits_cons text name names = elim (Bool-cases (is_token name text)) [
  | inl e ↦ rw e (omega arith)
  | inr e ↦ rw e (omega arith)
]

-- The uids by the texts in place of the lines.
length-found_cons :
    (text : Bytes) (texts lines : List Bytes)
    → length (found (text ∷ texts) lines)
      ≡ hits text (package_names lines) + length (found texts lines)
unfolding found package_names hits
length-found_cons text texts [] = refl
length-found_cons text texts (line ∷ lines) = elim (Option-cases (read_package line)) [
  | inl e ↦
      rw
        (
          found-none (text ∷ texts) line lines e,
          found-none texts line lines e,
          names_none line lines e,
        )
        (length-found_cons text texts lines)
  | inr (parts, e) ↦
      rw
        (
          found-some (text ∷ texts) line lines parts e,
          found-some texts line lines parts e,
          names_some line lines parts e,
        )
        (omega (
          arith,
          length-found_cons text texts lines,
          hits_cons text parts.0 (package_names lines),
          length-matches_cons text texts parts.0 parts.1,
          length-append (matches (text ∷ texts) parts.0 parts.1) (found (text ∷ texts) lines),
          length-append (matches texts parts.0 parts.1) (found texts lines),
        ))
]

length-found_nil : (lines : List Bytes) → length (found [] lines) ≡ 0
unfolding found matches
length-found_nil [] = refl
length-found_nil (line ∷ lines) = elim (Option-cases (read_package line)) [
  | inl e ↦ rw (found-none [] line lines e) (length-found_nil lines)
  | inr (parts, e) ↦ rw (found-some [] line lines parts e) (length-found_nil lines)
]

pub length-found :
    (texts lines : List Bytes)
    → Distinct (package_names lines)
    → length (found texts lines) ≤ words texts
unfolding words
length-found [] lines h = omega (arith, length-found_nil lines)
length-found (text ∷ texts) lines h = elim (Bool-cases (length text == 0)) [
  | inl e ↦
      rw (e, length-found_cons text texts lines)
        (omega (arith, hits_empty text (package_names lines) e, length-found texts lines h))
  | inr e ↦
      rw (e, length-found_cons text texts lines)
        (omega (arith, hits-Distinct text (package_names lines) h, length-found texts lines h))
]

words-length : (texts : List Bytes) → words texts ≤ length texts
unfolding words
words-length [] = omega arith
words-length (text ∷ texts) = ground (arith, words-length texts)

length-add_char :
    (c : ℕ) (texts : List Bytes) → 1 ≤ length texts → length (add_char c texts) ≡ length texts
length-add_char c [] h = absurd (omega (arith, h))
length-add_char c (text ∷ texts) h = refl

length-tokens : (text : Bytes) → length (tokens text) ≡ commas text + 1
unfolding tokens commas
length-tokens [] = refl
length-tokens (c ∷ text) =
    let later = length-tokens text in
    let longer = length-add_char c (tokens text) (omega (arith, later)) in
    elim (Bool-cases (c == b',')) [
      | inl e ↦ rw e (omega (arith, later))
      | inr e ↦ rw e (omega (arith, later, longer))
    ]

pub words-tokens : (c : ℕ) (text : Bytes) → words (tokens (c ∷ text)) ≤ commas text + 1
unfolding tokens words
words-tokens c text =
    let later = length-tokens text in
    let longer = length-add_char c (tokens text) (omega (arith, later)) in
    elim (Bool-cases (c == b',')) [
      | inl e ↦ rw e (omega (arith, later, words-length (tokens text)))
      | inr e ↦ rw e (omega (arith, later, longer, words-length (add_char c (tokens text))))
    ]
