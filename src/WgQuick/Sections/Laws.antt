-- ===== src/WgQuick/Sections/Laws.antt =====
-- wg-quick/android.c: what parse_options makes of a file, section by section.
use router1_app.Prelude.{
  ℕ, ◌≡◌, refl, ap, ◌∙◌, sym, Bool, true, false, Option, none, some, List, [], ◌∷◌, ◌++◌,
  if◌then◌else◌, Bytes, codes, All,
}
use router1_app.Libc.{atoi}
use router1_app.WgQuick.{Options, no_options, Kind, comma, parse_options}
use router1_app.WgQuick.Laws.{
  Sorted, sorted, kept, addresses, names, joined, IsShort, parse_options-Split,
}
use router1_app.WgQuick.Settings.{solid, value_of, filled, is_own}
use router1_app.WgQuick.Sections.{
  opens, is_interface, IsPlainLine, Section, IsSection, lines_of, others, prepend, values, left,
  all_values,
}
use router1_app.WgQuick.Sections.Lines.{
  Gives, Gives-outside, Gives-inside, sort, sorted_line, line_kind-head, in_section-head,
}

others_append :
    (own : Bool) (line : Bytes) (ls l : List Bytes)
    → (if own then ls else line ∷ ls) ++ l ≡ (if own then ls ++ l else line ∷ (ls ++ l))
others_append true line ls l = refl
others_append false line ls l = refl

prepend_append : (o : Option Bytes) (ls l : List Bytes) → prepend o ls ++ l ≡ prepend o (ls ++ l)
prepend_append none ls l = refl
prepend_append (some value) ls l = refl

Gives-eq :
    (ls : List Sorted) (l l' a a' d d' : List Bytes)
    → l ≡ l'
    → a ≡ a'
    → d ≡ d'
    → Gives ls l a d
    → Gives ls l' a' d'
Gives-eq ls l l' a a' d d' h i j g = record {
  lines_eq = g.lines_eq ∙ h;
  addrs_eq = g.addrs_eq ∙ i;
  dnses_eq = g.dnses_eq ∙ j;
}

outside-body :
    (body more : List Bytes) (l a d : List Bytes)
    → All IsPlainLine body
    → Gives (sorted false more) l a d
    → Gives (sorted false (body ++ more)) (body ++ l) a d
outside-body [] more l a d h g = g
outside-body (line ∷ body) more l a d (h, hs) g =
    Gives-outside line (body ++ more) (body ++ l) a d h (outside-body body more l a d hs g)

inside-body :
    (body more : List Bytes) (l a d : List Bytes)
    → All IsPlainLine body
    → Gives (sorted true more) l a d
    → Gives
        (sorted true (body ++ more))
        (others body ++ l)
        (values (codes "Address") body ++ a)
        (values (codes "DNS") body ++ d)
inside-body [] more l a d h g = g
inside-body (line ∷ body) more l a d (h, hs) g =
    let addrs = values (codes "Address") body in
    let dnses = values (codes "DNS") body in
    let text = solid line in
    Gives-eq (sorted true (line ∷ (body ++ more))) _ _ _ _ _ _
      (sym (others_append (is_own text) line (others body) l))
      (sym (prepend_append (filled (value_of (codes "Address") text)) addrs a))
      (sym (prepend_append (filled (value_of (codes "DNS") text)) dnses d))
      (Gives-inside line (body ++ more) (others body ++ l) (addrs ++ a) (dnses ++ d) h
        (inside-body body more l a d hs g))

body-Gives :
    (section : Bool) (body more : List Bytes) (l a d : List Bytes)
    → All IsPlainLine body
    → Gives (sorted section more) l a d
    → Gives
        (sorted section (body ++ more))
        ((if section then others body else body) ++ l)
        ((if section then values (codes "Address") body else []) ++ a)
        ((if section then values (codes "DNS") body else []) ++ d)
body-Gives true = inside-body
body-Gives false = outside-body

head-Gives :
    (before section : Bool) (head : Bytes) (lines : List Bytes) (l a d : List Bytes)
    → opens (solid head) ≡ true
    → is_interface head ≡ section
    → Gives (sorted section lines) l a d
    → Gives (sorted before (head ∷ lines)) (head ∷ l) a d
head-Gives before section head lines l a d h i g =
    let split =
      sorted_line before section head lines (in_section-head before (solid head) h ∙ i)
      ∙ ap (λ (k : Kind). sort k (solid head) head ∷ sorted section lines)
          (line_kind-head section (solid head) h) in
    record {
      lines_eq = ap kept split ∙ ap (λ (t : List Bytes). head ∷ t) g.lines_eq;
      addrs_eq = ap addresses split ∙ g.addrs_eq;
      dnses_eq = ap names split ∙ g.dnses_eq;
    }

sections-Gives :
    (before : Bool) (sections : List Section)
    → All IsSection sections
    → Gives
        (sorted before (lines_of sections))
        (left sections)
        (all_values (codes "Address") sections)
        (all_values (codes "DNS") sections)
sections-Gives before [] h = record { lines_eq = refl; addrs_eq = refl; dnses_eq = refl }
sections-Gives before (s ∷ sections) ((opening, plain), h) =
    let section = is_interface s.head in
    head-Gives before section s.head (s.body ++ lines_of sections) _ _ _ opening refl (
      body-Gives section s.body (lines_of sections) _ _ _ plain (sections-Gives section sections h))

-- What parse_options gives for a file of sections behind some lines.
pub record Parted (before : List Bytes) (sections : List Section) (o : Options) : Type 0 where
  pub config : o.config ≡ some (joined [] (before ++ left sections))
  pub addrs : o.addrs ≡ some (joined comma (all_values (codes "Address") sections))
  pub dnses : o.dnses ≡ some (joined comma (all_values (codes "DNS") sections))

-- A file is some lines without a head, and sections: each a head, a line that begins with a bracket,
-- and lines without a head. Where no line has more than 65536 bytes, parse_options hands on for
-- `wg setconf` all lines, whole and in order, but in the sections whose head is [Interface] those that
-- set a filled Address, DNS or MTU, or a list of applications; and it gives the values of Address and
-- of DNS in these sections, in order and with commas between them. White space and the case of the
-- letters of heads and names do not matter, and the values lose their white space.
pub parse_options-Parted :
    (atoi : Bytes → ℕ) (before : List Bytes) (sections : List Section)
    → All IsPlainLine before
    → All IsSection sections
    → All IsShort (before ++ lines_of sections)
    → Parted before sections (parse_options atoi false (before ++ lines_of sections) no_options)
parse_options-Parted atoi before sections plain parted short =
    let g =
      outside-body before (lines_of sections) _ _ _ plain (sections-Gives false sections parted) in
    let (config, addrs, dnses) = parse_options-Split atoi (before ++ lines_of sections) short in
    record {
      config = config ∙ ap (λ (l : List Bytes). some (joined [] l)) g.lines_eq;
      addrs = addrs ∙ ap (λ (l : List Bytes). some (joined comma l)) g.addrs_eq;
      dnses = dnses ∙ ap (λ (l : List Bytes). some (joined comma l)) g.dnses_eq;
    }
