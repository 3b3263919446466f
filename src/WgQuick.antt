-- ===== src/WgQuick.antt =====
-- android/tunnel/tools/amneziawg-tools/src/wg-quick/android.c: the loop of `parse_options`, which takes
-- its own settings out of a configuration file and leaves the rest for `wg setconf`. The file is the
-- list of its lines, each with its line end; `atoi` is a parameter.
pub mod Laws
pub mod Settings
pub mod Sections
pub mod Script
pub mod Interface
pub mod Users
pub mod Net
pub mod Binder
pub mod Dns
pub mod Main
pub mod Steps
pub mod Cleanup
use Prim.Native.String.{String}
use router1_app.Prelude.{
  ℕ, ◌+◌, ◌^◌, Bool, true, false, ◌&&◌, ◌||◌, Option, none, some, List, [], ◌∷◌, ◌++◌, ltb, ◌==◌,
  if◌then◌else◌, Bytes, codes, length, drop,
}
use router1_app.Ctype.Spec.{is_space}
use router1_app.Libc.{char_at, strcasecmp_eq, strncasecmp_eq, atoi}

-- What parse_options fills: the text for setconf and the settings, and the variable is_awg_on.
pub record Options : Type 0 where
  pub config : Option Bytes
  pub addrs : Option Bytes
  pub dnses : Option Bytes
  pub excluded_applications : Option Bytes
  pub included_applications : Option Bytes
  pub mtu : ℕ
  pub is_awg_on : Bool

abbrev pub no_options : Options
no_options = record {
  config = none;
  addrs = none;
  dnses = none;
  excluded_applications = none;
  included_applications = none;
  mtu = 0;
  is_awg_on = false;
}

abbrev pub concat_and_free : Option Bytes → Bytes → Bytes → Option Bytes
concat_and_free none delim new_line = some new_line
concat_and_free (some orig) delim new_line = some (orig ++ (delim ++ new_line))

-- The line without its white space.
unfoldable pub clean_line : Bytes → Bytes
clean_line [] = []
clean_line (c ∷ line) = let rest = clean_line line in if is_space c then rest else c ∷ rest

-- What a line of the section [Interface] is to the function; `awg` and `rest` stay in the text.
pub data Kind : Type 0 where
  address dns excluded included mtu awg rest : Kind

-- `!strncasecmp(clean, key, n) && j > least`.
abbrev pub starts : Bytes → String → ℕ → ℕ → Bool
starts clean key n least = strncasecmp_eq n clean (codes key) && ltb least (length clean)

unfoldable pub is_awg_line : Bytes → Bool
unfolding strncasecmp_eq
is_awg_line clean =
    starts clean "Jc=" 3 4
    || starts clean "Jmin=" 5 4
    || starts clean "Jmax=" 5 4
    || starts clean "S1=" 3 4
    || starts clean "S2=" 3 4
    || starts clean "S3=" 3 4
    || starts clean "S4=" 3 4
    || starts clean "H1=" 3 4
    || starts clean "H2=" 3 4
    || starts clean "H3=" 3 4
    || starts clean "H4=" 3 4
    || starts clean "I1=" 3 4
    || starts clean "I2=" 3 2
    || starts clean "I3=" 3 2
    || starts clean "I4=" 3 2
    || starts clean "I5=" 3 2

unfoldable pub kind_of : Bytes → Kind
unfolding strncasecmp_eq is_awg_line
kind_of clean =
    if starts clean "Address=" 8 8
    then address
    else if starts clean "DNS=" 4 4
    then dns
    else if starts clean "ExcludedApplications=" 21 4
    then excluded
    else if starts clean "IncludedApplications=" 21 4
    then included
    else if starts clean "MTU=" 4 4
    then mtu
    else if is_awg_line clean
    then awg
    else rest

-- Whether the line stands in, or opens, a section [Interface].
unfoldable pub in_section : Bool → Bytes → Bool
unfolding strcasecmp_eq
in_section before clean =
    if strcasecmp_eq clean (codes "[Interface]")
    then true
    else if char_at clean 0 == b'['
    then false
    else before

abbrev pub keep_line : Bytes → Options → Options
keep_line line o = record o { config = concat_and_free o.config [] line }

abbrev pub comma : Bytes
comma = codes ","

unfoldable pub take_line : (Bytes → ℕ) → Kind → Bytes → Bytes → Options → Options
take_line atoi address clean line o = record o {
  addrs = concat_and_free o.addrs comma (drop 8 clean);
}
take_line atoi dns clean line o = record o { dnses = concat_and_free o.dnses comma (drop 4 clean) }
take_line atoi excluded clean line o = record o {
  excluded_applications = concat_and_free o.excluded_applications comma (drop 21 clean);
}
take_line atoi included clean line o = record o {
  included_applications = concat_and_free o.included_applications comma (drop 21 clean);
}
take_line atoi mtu clean line o = record o { mtu = atoi (drop 4 clean) }
take_line atoi awg clean line o = keep_line line (record o { is_awg_on = true })
take_line atoi rest clean line o = keep_line line o

abbrev pub line_kind : Bool → Bytes → Kind
line_kind section clean = if section then kind_of clean else rest

abbrev pub or_empty : Option Bytes → Option Bytes
or_empty none = some []
or_empty (some text) = some text

-- What stands behind the loop; the lists of applications may stay null.
abbrev pub with_defaults : Options → Options
with_defaults o = record o {
  config = or_empty o.config;
  addrs = or_empty o.addrs;
  dnses = or_empty o.dnses;
}

-- The loop. A line of more than 65536 bytes makes the function return at once.
unfoldable pub parse_options : (Bytes → ℕ) → Bool → List Bytes → Options → Options
unfolding clean_line in_section take_line kind_of
parse_options atoi before [] o = with_defaults o
parse_options atoi before (line ∷ lines) o =
    let clean = clean_line line in
    let section = in_section before clean in
    let more =
      parse_options atoi section lines (take_line atoi (line_kind section clean) clean line o) in
    if ltb (2 ^ 16) (length line) then o else more
