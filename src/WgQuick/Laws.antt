-- ===== src/WgQuick/Laws.antt =====
-- What parse_options makes of a file, setting by setting.
use mathlib.Core.Path.{sym}
use mathlib.Core.List.{append_assoc, append-nil}
use router1_app.Prelude.{
  ℕ, ◌≡◌, ◌≤◌, refl, ap, ◌∙◌, Bool, false, Option, none, some, List, [], ◌∷◌, ◌++◌, ltb, arith,
  Bytes, length, drop, All,
}
use router1_app.WgQuick.{
  Options, no_options, concat_and_free, clean_line, Kind, address, dns, excluded, included, mtu,
  awg, rest, in_section, comma, take_line, line_kind, or_empty, parse_options,
}

-- A line with its kind and its text without white space.
pub record Sorted : Type 0 where
  pub kind : Kind
  pub clean : Bytes
  pub line : Bytes

-- Each line is sorted once, by the section that it stands in.
abbrev pub sorted : Bool → List Bytes → List Sorted
sorted before [] = []
sorted before (line ∷ lines) =
    let clean = clean_line line in
    let section = in_section before clean in
    record { kind = line_kind section clean; clean = clean; line = line } ∷ sorted section lines

-- The lines of `wg setconf`, the values of a setting, and the last MTU.
abbrev pub kept : List Sorted → List Bytes
kept [] = []
kept (l ∷ ls) = elim l.kind [ awg ↦ l.line ∷ kept ls | rest ↦ l.line ∷ kept ls | _ ↦ kept ls ]

abbrev pub addresses : List Sorted → List Bytes
addresses [] = []
addresses (l ∷ ls) = elim l.kind [ address ↦ drop 8 l.clean ∷ addresses ls | _ ↦ addresses ls ]

abbrev pub names : List Sorted → List Bytes
names [] = []
names (l ∷ ls) = elim l.kind [ dns ↦ drop 4 l.clean ∷ names ls | _ ↦ names ls ]

-- The texts with a separator between them, behind what there is.
abbrev pub behind : Bytes → List Bytes → Bytes
behind sep [] = []
behind sep (x ∷ xs) = sep ++ (x ++ behind sep xs)

abbrev pub joined : Bytes → List Bytes → Bytes
joined sep [] = []
joined sep (x ∷ xs) = x ++ behind sep xs

abbrev gathered : Bytes → Option Bytes → List Bytes → Bytes
gathered sep none xs = joined sep xs
gathered sep (some text) xs = text ++ behind sep xs

gathered_next :
    (sep : Bytes) (o : Option Bytes) (x : Bytes) (xs : List Bytes)
    → gathered sep (concat_and_free o sep x) xs ≡ gathered sep o (x ∷ xs)
gathered_next sep none x xs = refl
gathered_next sep (some text) x xs =
    append_assoc text (sep ++ x) (behind sep xs)
    ∙ ap (λ (t : Bytes). text ++ t) (append_assoc sep x (behind sep xs))

gathered_end : (sep : Bytes) (o : Option Bytes) → or_empty o ≡ some (gathered sep o [])
gathered_end sep none = refl
gathered_end sep (some text) = ap some (sym (append-nil text))

-- The three texts, from what there is and the lines that are left.
pub record Split (o : Options) (ls : List Sorted) (r : Options) : Type 0 where
  pub config : r.config ≡ some (gathered [] o.config (kept ls))
  pub addrs : r.addrs ≡ some (gathered comma o.addrs (addresses ls))
  pub dnses : r.dnses ≡ some (gathered comma o.dnses (names ls))

take_line-Split :
    (atoi : Bytes → ℕ) (kind : Kind) (clean line : Bytes) (o : Options) (ls : List Sorted)
    (r : Options)
    → Split (take_line atoi kind clean line o) ls r
    → Split o (record { kind = kind; clean = clean; line = line } ∷ ls) r
unfolding take_line
take_line-Split atoi address clean line o ls r h = record {
  config = h.config;
  addrs = h.addrs ∙ ap some (gathered_next comma o.addrs (drop 8 clean) (addresses ls));
  dnses = h.dnses;
}
take_line-Split atoi dns clean line o ls r h = record {
  config = h.config;
  addrs = h.addrs;
  dnses = h.dnses ∙ ap some (gathered_next comma o.dnses (drop 4 clean) (names ls));
}
take_line-Split atoi excluded clean line o ls r h = record {
  config = h.config;
  addrs = h.addrs;
  dnses = h.dnses;
}
take_line-Split atoi included clean line o ls r h = record {
  config = h.config;
  addrs = h.addrs;
  dnses = h.dnses;
}
take_line-Split atoi mtu clean line o ls r h = record {
  config = h.config;
  addrs = h.addrs;
  dnses = h.dnses;
}
take_line-Split atoi awg clean line o ls r h = record {
  config = h.config ∙ ap some (gathered_next [] o.config line (kept ls));
  addrs = h.addrs;
  dnses = h.dnses;
}
take_line-Split atoi rest clean line o ls r h = record {
  config = h.config ∙ ap some (gathered_next [] o.config line (kept ls));
  addrs = h.addrs;
  dnses = h.dnses;
}

abbrev pub IsShort : Bytes → Type 0
IsShort line = length line ≤ 65536

sorted-Split :
    (atoi : Bytes → ℕ) (before : Bool) (lines : List Bytes) (o : Options)
    → All IsShort lines
    → Split o (sorted before lines) (parse_options atoi before lines o)
unfolding parse_options
sorted-Split atoi before [] o h = record {
  config = gathered_end [] o.config;
  addrs = gathered_end comma o.addrs;
  dnses = gathered_end comma o.dnses;
}
sorted-Split atoi before (line ∷ lines) o (short, shorts) =
    let clean = clean_line line in
    let section = in_section before clean in
    let kind = line_kind section clean in
    let o' = take_line atoi kind clean line o in
    let fits : ltb 65536 (length line) ≡ false = ground (arith, short) in
    rw fits (
      take_line-Split atoi kind clean line o (sorted section lines)
        (parse_options atoi section lines o') (sorted-Split atoi section lines o' shorts))

-- Where no line has more than 65536 bytes, parse_options hands on for `wg setconf` all lines of the
-- file, whole and in order, but those of its own settings in the section [Interface]; and it gives
-- the values of the addresses and of the name servers, in order and with commas between them.
pub parse_options-Split :
    (atoi : Bytes → ℕ) (lines : List Bytes)
    → All IsShort lines
    → ((parse_options atoi false lines no_options).config
        ≡ some (joined [] (kept (sorted false lines))))
      × ((parse_options atoi false lines no_options).addrs
          ≡ some (joined comma (addresses (sorted false lines))))
      × ((parse_options atoi false lines no_options).dnses
          ≡ some (joined comma (names (sorted false lines))))
parse_options-Split atoi lines h =
    let s = sorted-Split atoi false lines no_options h in (s.config, s.addrs, s.dnses)
