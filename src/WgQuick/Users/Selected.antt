-- ===== src/WgQuick/Users/Selected.antt =====
-- wg-quick/android.c: the users of the selected packages, as get_uid_list finds them.
use router1_app.Prelude.{
  ℕ, ◌+◌, ◌≤◌, ◌≡◌, refl, sym, ap, inl, inr, none, some, List, [], ◌∷◌, ◌++◌, if◌then◌else◌,
  Bool-cases, Option-cases, Bytes, length, ◌∙◌, true, false, arith, ltb, length-append,
}
use router1_app.WgQuick.Users.{
  ends_in_comma, tokens, add_uid, read_tokens, is_token, read_packages, read_package,
}
use router1_app.WgQuick.Script.{returned, State, on_option, ◌>>=◌, pure, Result}
use mathlib.Core.List.{append_assoc, append-nil}
use mathlib.Core.Path.{subst}

-- The uid once for each token that is the name; and the uids of all lines.
unfoldable pub matches : List Bytes → Bytes → ℕ → List ℕ
matches [] name uid = []
matches (token ∷ texts) name uid =
    let later = matches texts name uid in if is_token name token then uid ∷ later else later

unfoldable pub found : List Bytes → List Bytes → List ℕ
unfolding matches
found texts [] = []
found texts (line ∷ lines) = elim (read_package line) [
  | none ↦ found texts lines
  | some parts ↦ matches texts parts.0 parts.1 ++ found texts lines
]

matches_yes :
    (texts : List Bytes) (token name : Bytes) (uid : ℕ)
    → is_token name token ≡ true
    → matches (token ∷ texts) name uid ≡ uid ∷ matches texts name uid
unfolding matches
matches_yes texts token name uid e = rw e refl

matches_no :
    (texts : List Bytes) (token name : Bytes) (uid : ℕ)
    → is_token name token ≡ false
    → matches (token ∷ texts) name uid ≡ matches texts name uid
unfolding matches
matches_no texts token name uid e = rw e refl

pub found-none :
    (texts : List Bytes) (line : Bytes) (lines : List Bytes)
    → read_package line ≡ none
    → found texts (line ∷ lines) ≡ found texts lines
unfolding found
found-none texts line lines e = rw (e, found) refl

pub found-some :
    (texts : List Bytes) (line : Bytes) (lines : List Bytes) (parts : Bytes × ℕ)
    → read_package line ≡ some parts
    → found texts (line ∷ lines) ≡ matches texts parts.0 parts.1 ++ found texts lines
unfolding found
found-some texts line lines parts e = rw (e, found) refl

matches_nil : (name : Bytes) (uid : ℕ) → matches [] name uid ≡ []
unfolding matches
matches_nil name uid = refl

found_nil : (texts : List Bytes) → found texts [] ≡ []
unfolding found
found_nil texts = refl

abbrev gives : List ℕ → State → Result (List ℕ) × State
gives uids s = (returned uids, s)

add_uid-matches :
    (slots : ℕ) (name : Bytes) (uid : ℕ) (texts : List Bytes) (uids : List ℕ) (s : State)
    → length uids + length (matches texts name uid) ≤ slots
    → add_uid slots name uid texts uids s ≡ (returned (uids ++ matches texts name uid), s)
unfolding add_uid pure
add_uid-matches slots name uid [] uids s h =
    rw (matches_nil name uid) (ap (λ (l : List ℕ). gives l s) (sym (append-nil uids)))
add_uid-matches slots name uid (token ∷ texts) uids s h = elim (Bool-cases (is_token name token)) [
  | inl e ↦
      let yes = matches_yes texts token name uid e in
      let h' = subst (λ (l : List ℕ). length uids + length l ≤ slots) yes h in
      let longer = length-append uids (uid ∷ []) in
      let free : ltb (length uids) slots ≡ true = ground (arith, h') in
      rw (yes, e, free)
        (add_uid-matches slots name uid texts (uids ++ (uid ∷ [])) s (omega (arith, longer, h'))
          ∙ ap (λ (l : List ℕ). gives l s) (append_assoc uids (uid ∷ []) (matches texts name uid)))
  | inr e ↦
      let no = matches_no texts token name uid e in
      let h' = subst (λ (l : List ℕ). length uids + length l ≤ slots) no h in
      rw (no, e) (add_uid-matches slots name uid texts uids s h')
]

-- The texts that the loop over a list of applications reads in the memory behind the list: none if
-- the list ends in a comma, else those up to a text that is empty or that a text with a comma at its
-- end comes before.
pub data Strays : Bytes → List Bytes → List Bytes → Type 0 where
  at_comma :
      (text : Bytes) (behind : List Bytes) → ends_in_comma text ≡ true → Strays text behind []
  at_end :
      (text : Bytes) (behind : List Bytes)
      → ends_in_comma text ≡ false
      → Strays text ([] ∷ behind) []
  onward_to :
      (text : Bytes) (c : ℕ) (next : Bytes) (behind strays : List Bytes)
      → ends_in_comma text ≡ false
      → Strays (c ∷ next) behind strays
      → Strays text ((c ∷ next) ∷ behind) (tokens (c ∷ next) ++ strays)

matches-append :
    (a b : List Bytes) (name : Bytes) (uid : ℕ)
    → matches (a ++ b) name uid ≡ matches a name uid ++ matches b name uid
unfolding matches
matches-append [] b name uid = refl
matches-append (token ∷ a) b name uid = elim (Bool-cases (is_token name token)) [
  | inl e ↦ rw e (ap (λ (l : List ℕ). uid ∷ l) (matches-append a b name uid))
  | inr e ↦ rw e (matches-append a b name uid)
]

both_nil : (a b : List ℕ) → a ++ b ≡ [] → (a ≡ []) × (b ≡ [])
both_nil [] b h = (refl, h)
both_nil (x ∷ a) b h = cc

read_tokens-matches :
    (slots : ℕ) (name : Bytes) (uid : ℕ) (c : ℕ) (text : Bytes) (behind strays : List Bytes)
    (uids : List ℕ) (s : State)
    → Strays (c ∷ text) behind strays
    → matches strays name uid ≡ []
    → length uids + length (matches (tokens (c ∷ text)) name uid) ≤ slots
    → read_tokens slots name uid (c ∷ text) behind uids s
      ≡ (returned (uids ++ matches (tokens (c ∷ text)) name uid), s)
unfolding read_tokens ◌>>=◌ pure
read_tokens-matches slots name uid c text _ _ uids s (at_comma _ [] e) unknown h =
    rw (add_uid-matches slots name uid (tokens (c ∷ text)) uids s h, e) refl
read_tokens-matches slots name uid c text _ _ uids s (at_comma _ (next ∷ behind) e) unknown h =
    rw (add_uid-matches slots name uid (tokens (c ∷ text)) uids s h, e) refl
read_tokens-matches slots name uid c text _ _ uids s (at_end _ behind e) unknown h =
    rw (add_uid-matches slots name uid (tokens (c ∷ text)) uids s h, e) refl
read_tokens-matches slots name uid c text _ _ uids s (onward_to _ d next behind strays e more)
      unknown h =
    let nils =
      both_nil (matches (tokens (d ∷ next)) name uid) (matches strays name uid)
        (sym (matches-append (tokens (d ∷ next)) strays name uid) ∙ unknown) in
    let mine = uids ++ matches (tokens (c ∷ text)) name uid in
    let room : length mine + length (matches (tokens (d ∷ next)) name uid) ≤ slots =
      subst (λ (l : List ℕ). length mine + length l ≤ slots) (sym nils.0)
        (omega (arith, h, length-append uids (matches (tokens (c ∷ text)) name uid))) in
    rw (add_uid-matches slots name uid (tokens (c ∷ text)) uids s h, e)
      (read_tokens-matches slots name uid d next behind strays mine s more nils.1 room
        ∙ ap (λ (l : List ℕ). gives (mine ++ l) s) nils.0
        ∙ ap (λ (l : List ℕ). gives l s) (append-nil mine))

pub read_packages-found :
    (slots : ℕ) (c : ℕ) (text : Bytes) (behind strays lines : List Bytes) (uids : List ℕ)
    (s : State)
    → Strays (c ∷ text) behind strays
    → found strays lines ≡ []
    → length uids + length (found (tokens (c ∷ text)) lines) ≤ slots
    → read_packages slots (c ∷ text) behind lines uids s
      ≡ (returned (uids ++ found (tokens (c ∷ text)) lines), s)
unfolding read_packages pure on_option ◌>>=◌
read_packages-found slots c text behind strays [] uids s reads unknown h =
    rw (found_nil (tokens (c ∷ text))) (ap (λ (l : List ℕ). gives l s) (sym (append-nil uids)))
read_packages-found slots c text behind strays (line ∷ lines) uids s reads unknown h =
    let all = tokens (c ∷ text) in
    elim (Option-cases (read_package line)) [
      | inl e ↦
          let none_here = found-none all line lines e in
          let h' = subst (λ (l : List ℕ). length uids + length l ≤ slots) none_here h in
          rw (none_here, e)
            (read_packages-found slots c text behind strays lines uids s reads
              (sym (found-none strays line lines e) ∙ unknown) h')
      | inr (parts, e) ↦
          let here = found-some all line lines parts e in
          let mine = matches all parts.0 parts.1 in
          let h' = subst (λ (l : List ℕ). length uids + length l ≤ slots) here h in
          let both = length-append mine (found all lines) in
          let more = length-append uids mine in
          let nils =
            both_nil (matches strays parts.0 parts.1) (found strays lines)
              (sym (found-some strays line lines parts e) ∙ unknown) in
          rw (here, e)
            (rw
              (read_tokens-matches slots parts.0 parts.1 c text behind strays uids s reads nils.0
                (omega (arith, h', both)))
              (read_packages-found slots c text behind strays lines (uids ++ mine) s reads nils.1
                  (omega (arith, h', both, more))
                ∙ ap (λ (l : List ℕ). gives l s) (append_assoc uids mine (found all lines))))
    ]
