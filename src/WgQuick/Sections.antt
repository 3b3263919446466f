-- ===== src/WgQuick/Sections.antt =====
-- wg-quick/android.c: a configuration file as sections of lines.
pub mod Lines
pub mod Laws
use mathlib.Core.Path.{subst}
use router1_app.Prelude.{
  ℕ, ◌≡◌, refl, ap, ◌∙◌, sym, inl, inr, Bool, true, false, Option, none, some, List, [], ◌∷◌, ◌++◌,
  arith, ◌==◌, if◌then◌else◌, Bool-cases, Bytes, codes, drop, All, ==_iff,
}
use router1_app.Libc.{strcasecmp_eq, strncasecmp_eq, to_lower, char_at}
use router1_app.WgQuick.{
  Options, no_options, Kind, address, dns, excluded, included, mtu, awg, rest, in_section, comma,
  line_kind, kind_of, is_awg_line, parse_options,
}
use router1_app.WgQuick.Laws.{
  Sorted, sorted, kept, addresses, names, joined, IsShort, parse_options-Split,
}
use router1_app.WgQuick.Settings.{solid, clean_line-solid, value_of, filled, is_own}
use router1_app.WgQuick.Settings.Kinds.{
  own_kind, address_value, dns_value, kind_of-own_kind, kind_of-address_value, kind_of-dns_value,
}

-- A line, without its white space, that opens a section; and one that opens the section [Interface].
abbrev pub opens : Bytes → Bool
opens [] = false
opens (c ∷ text) = c == b'['

abbrev pub is_interface : Bytes → Bool
is_interface head = strcasecmp_eq (solid head) (codes "[Interface]")

abbrev pub IsPlainLine : Bytes → Type 0
IsPlainLine line = opens (solid line) ≡ false

-- A section: the line that opens it, and the lines up to the next section.
pub record Section : Type 0 where
  pub head : Bytes
  pub body : List Bytes

abbrev pub IsSection : Section → Type 0
IsSection s = (opens (solid s.head) ≡ true) × All IsPlainLine s.body

abbrev pub lines_of : List Section → List Bytes
lines_of [] = []
lines_of (s ∷ sections) = s.head ∷ (s.body ++ lines_of sections)

-- The lines that are no setting of wg-quick, and the values of a setting that are not empty.
abbrev pub others : List Bytes → List Bytes
others [] = []
others (line ∷ body) = if is_own (solid line) then others body else line ∷ others body

abbrev pub prepend : Option Bytes → List Bytes → List Bytes
prepend none values = values
prepend (some value) values = value ∷ values

abbrev pub values : Bytes → List Bytes → List Bytes
values key [] = []
values key (line ∷ body) = prepend (filled (value_of key (solid line))) (values key body)

-- The same of all sections: only [Interface] has such settings.
abbrev pub left : List Section → List Bytes
left [] = []
left (s ∷ sections) =
    s.head ∷ ((if is_interface s.head then others s.body else s.body) ++ left sections)

abbrev pub all_values : Bytes → List Section → List Bytes
all_values key [] = []
all_values key (s ∷ sections) =
    (if is_interface s.head then values key s.body else []) ++ all_values key sections
