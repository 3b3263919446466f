-- ===== src/Libc/Split.antt =====
-- Splitting a text at the first or the last of a character.
use router1_app.Prelude.{
  ℕ, ◌≡◌, refl, Bool, true, not, ◌&&◌, none, some, [], ◌∷◌, ◌++◌, arith, ◌==◌, Bytes,
}
use router1_app.Libc.{split_first, split_last}

-- The character does not occur.
abbrev pub lacks : ℕ → Bytes → Bool
lacks c [] = true
lacks c (x ∷ text) = not (x == c) && lacks c text

pub split_first-lacks : (c : ℕ) (text : Bytes) → lacks c text ≡ true → split_first c text ≡ none
unfolding split_first
split_first-lacks c [] h = refl
split_first-lacks c (x ∷ text) h = ground (arith, split_first-lacks c text)

pub split_first-append :
    (c : ℕ) (before after : Bytes)
    → lacks c before ≡ true
    → split_first c (before ++ c ∷ after) ≡ some (before, after)
unfolding split_first
split_first-append c [] after h = ground arith
split_first-append c (x ∷ before) after h = ground (arith, split_first-append c before after)

pub split_last-lacks : (c : ℕ) (text : Bytes) → lacks c text ≡ true → split_last c text ≡ none
unfolding split_last
split_last-lacks c [] h = refl
split_last-lacks c (x ∷ text) h = ground (arith, split_last-lacks c text)

pub split_last-append :
    (c : ℕ) (before after : Bytes)
    → lacks c after ≡ true
    → split_last c (before ++ c ∷ after) ≡ some (before, after)
unfolding split_last
split_last-append c [] after h = ground (arith, split_last-lacks c after)
split_last-append c (x ∷ before) after h = ground (arith, split_last-append c before after)
