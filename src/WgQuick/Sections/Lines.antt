-- ===== src/WgQuick/Sections/Lines.antt =====
-- wg-quick/android.c: what parse_options makes of one line.
use mathlib.Core.Path.{subst}
use router1_app.Prelude.{
  ℕ, ◌≡◌, refl, ap, ◌∙◌, sym, inl, inr, Bool, true, false, Option, List, [], ◌∷◌, arith, ◌==◌,
  if◌then◌else◌, Bool-cases, Bytes, codes, ==_iff,
}
use router1_app.Libc.{strcasecmp_eq, strncasecmp_eq, to_lower}
use router1_app.WgQuick.{
  Kind, address, dns, excluded, included, mtu, awg, rest, in_section, line_kind, kind_of,
  is_awg_line,
}
use router1_app.WgQuick.Laws.{Sorted, sorted, kept, addresses, names}
use router1_app.WgQuick.Settings.{solid, clean_line-solid, value_of, filled, is_own}
use router1_app.WgQuick.Settings.Kinds.{
  own_kind, address_value, dns_value, kind_of-own_kind, kind_of-address_value, kind_of-dns_value,
}
use router1_app.WgQuick.Sections.{opens, IsPlainLine, prepend}

lower_bracket : (c : ℕ) → (c == b'[') ≡ false → (to_lower c == b'[') ≡ false
lower_bracket c h = ground (arith, h)

in_section-plain :
    (before : Bool) (text : Bytes) → opens text ≡ false → in_section before text ≡ before
unfolding in_section strcasecmp_eq
in_section-plain before [] h = refl
in_section-plain before (c ∷ text) h = rw (lower_bracket c h, h) refl

pub in_section-head :
    (before : Bool) (text : Bytes)
    → opens text ≡ true
    → in_section before text ≡ strcasecmp_eq text (codes "[Interface]")
unfolding in_section
in_section-head before [] h = cc
in_section-head before (c ∷ text) h =
    elim (Bool-cases (strcasecmp_eq (c ∷ text) (codes "[Interface]"))) [
      | inl e ↦ rw e refl
      | inr e ↦ rw (e, h) refl
    ]

kind_of-head : (text : Bytes) → opens text ≡ true → kind_of text ≡ rest
unfolding kind_of is_awg_line strncasecmp_eq
kind_of-head [] h = cc
kind_of-head (c ∷ text) h =
    let same : b'[' ≡ c = sym ((==_iff c b'[').0 h) in
    subst (λ (x : ℕ). kind_of (x ∷ text) ≡ rest) same refl

pub line_kind-head :
    (section : Bool) (text : Bytes) → opens text ≡ true → line_kind section text ≡ rest
line_kind-head true text h = kind_of-head text h
line_kind-head false text h = refl

abbrev pub sort : Kind → Bytes → Bytes → Sorted
sort kind clean line = record { kind = kind; clean = clean; line = line }

pub sorted_line :
    (before section : Bool) (line : Bytes) (lines : List Bytes)
    → in_section before (solid line) ≡ section
    → sorted before (line ∷ lines)
      ≡ sort (line_kind section (solid line)) (solid line) line ∷ sorted section lines
sorted_line before section line lines h =
    ap
      (λ (text : Bytes).
        sort (line_kind (in_section before text) text) text line
        ∷ sorted (in_section before text) lines)
      (clean_line-solid line)
    ∙ ap (λ (b : Bool). sort (line_kind b (solid line)) (solid line) line ∷ sorted b lines) h

-- What a sorted line adds.
kept_line :
    (kind : Kind) (clean line : Bytes) (ls : List Sorted)
    → kept (sort kind clean line ∷ ls) ≡ (if own_kind kind then kept ls else line ∷ kept ls)
kept_line address clean line ls = refl
kept_line dns clean line ls = refl
kept_line excluded clean line ls = refl
kept_line included clean line ls = refl
kept_line mtu clean line ls = refl
kept_line awg clean line ls = refl
kept_line rest clean line ls = refl

addresses_line :
    (kind : Kind) (clean line : Bytes) (ls : List Sorted)
    → addresses (sort kind clean line ∷ ls) ≡ prepend (address_value kind clean) (addresses ls)
addresses_line address clean line ls = refl
addresses_line dns clean line ls = refl
addresses_line excluded clean line ls = refl
addresses_line included clean line ls = refl
addresses_line mtu clean line ls = refl
addresses_line awg clean line ls = refl
addresses_line rest clean line ls = refl

names_line :
    (kind : Kind) (clean line : Bytes) (ls : List Sorted)
    → names (sort kind clean line ∷ ls) ≡ prepend (dns_value kind clean) (names ls)
names_line address clean line ls = refl
names_line dns clean line ls = refl
names_line excluded clean line ls = refl
names_line included clean line ls = refl
names_line mtu clean line ls = refl
names_line awg clean line ls = refl
names_line rest clean line ls = refl

-- The three lists that the sorted lines give.
pub record Gives (ls : List Sorted) (lines addrs dnses : List Bytes) : Type 0 where
  pub lines_eq : kept ls ≡ lines
  pub addrs_eq : addresses ls ≡ addrs
  pub dnses_eq : names ls ≡ dnses

pub Gives-outside :
    (line : Bytes) (lines : List Bytes) (l a d : List Bytes)
    → IsPlainLine line
    → Gives (sorted false lines) l a d
    → Gives (sorted false (line ∷ lines)) (line ∷ l) a d
Gives-outside line lines l a d h g =
    let split = sorted_line false false line lines (in_section-plain false (solid line) h) in
    record {
      lines_eq = ap kept split ∙ ap (λ (t : List Bytes). line ∷ t) g.lines_eq;
      addrs_eq = ap addresses split ∙ g.addrs_eq;
      dnses_eq = ap names split ∙ g.dnses_eq;
    }

pub Gives-inside :
    (line : Bytes) (lines : List Bytes) (l a d : List Bytes)
    → IsPlainLine line
    → Gives (sorted true lines) l a d
    → Gives
        (sorted true (line ∷ lines))
        (if is_own (solid line) then l else line ∷ l)
        (prepend (filled (value_of (codes "Address") (solid line))) a)
        (prepend (filled (value_of (codes "DNS") (solid line))) d)
Gives-inside line lines l a d h g =
    let text = solid line in
    let split = sorted_line true true line lines (in_section-plain true text h) in
    let ls = sorted true lines in
    record {
      lines_eq =
          ap kept split
          ∙ (kept_line (kind_of text) text line ls
              ∙ (ap (λ (b : Bool). if b then kept ls else line ∷ kept ls) (kind_of-own_kind text)
                  ∙ ap (λ (t : List Bytes). if is_own text then t else line ∷ t) g.lines_eq));
      addrs_eq =
          ap addresses split
          ∙ (addresses_line (kind_of text) text line ls
              ∙ (ap (λ (o : Option Bytes). prepend o (addresses ls)) (kind_of-address_value text)
                  ∙ ap (prepend (filled (value_of (codes "Address") text))) g.addrs_eq));
      dnses_eq =
          ap names split
          ∙ (names_line (kind_of text) text line ls
              ∙ (ap (λ (o : Option Bytes). prepend o (names ls)) (kind_of-dns_value text)
                  ∙ ap (prepend (filled (value_of (codes "DNS") text))) g.dnses_eq));
    }
