-- ===== src/Showconf/Readings.antt =====
-- A list of settings, each with what its line does to the device, read line by line.
use router1_app.Prelude.{
  ℕ, ◌≡◌, refl, sym, ap, ◌∙◌, true, ◌∷◌, ◌++◌, Bytes, codes, Outcome, ◌>>=◌, ok, List, [], inl, inr,
  if◌then◌else◌, Bool-cases,
}
use router1_app.Config.Line.{Ctx}
use router1_app.Config.Host.{Host}
use router1_app.Config.Read.{config_read_line}
use router1_app.Containers.{Device}
use router1_app.Showconf.Lines.{conf_line, lines_of, lines_of-line}
use mathlib.Core.List.{append-nil, append_assoc}
use router1_app.Showconf.{settings, Entry}
use router1_app.Libc.Split.{lacks}
use router1_app.Setconf.Main.{read_lines}

-- An entry with what its line does to the device.
abbrev pub LineEffect : Type 0
LineEffect = Entry × (Device → Device)

pub record Reads (h : Host) (fuel : ℕ) (r : LineEffect) : Type 0 where
  pub one_line : lacks b'\n' (codes r.0.label ++ (codes " = " ++ r.0.value)) ≡ true
  pub line :
      (ctx : Ctx)
      → ctx.is_device_section ≡ true
      → config_read_line h fuel ctx (conf_line (codes r.0.label) r.0.value)
        ≡ ok (record ctx { device = r.1 ctx.device })

abbrev pub AllRead : Host → ℕ → List LineEffect → Type 0
AllRead h fuel [] = Unit
AllRead h fuel (r ∷ readings) = (r.0.present ≡ true → Reads h fuel r) × AllRead h fuel readings

abbrev pub entries_of : List LineEffect → List Entry
entries_of [] = []
entries_of (r ∷ readings) = r.0 ∷ entries_of readings

-- What all lines do to the device.
abbrev pub stored : List LineEffect → Device → Device
stored [] t = t
stored (r ∷ readings) t = stored readings (if r.0.present then r.1 t else t)

line_end :
    (label value rest : Bytes)
    → conf_line label value ++ rest ≡ (label ++ (codes " = " ++ value)) ++ (b'\n' ∷ rest)
line_end label value rest = simp append_assoc

read_lines-entry :
    (h : Host) (fuel : ℕ) (e : Entry) (f : Device → Device) (ctx : Ctx) (rest : Bytes)
    → Reads h fuel (e, f)
    → ctx.is_device_section ≡ true
    → read_lines h fuel ctx (lines_of (conf_line (codes e.label) e.value ++ rest))
      ≡ read_lines h fuel (record ctx { device = f ctx.device }) (lines_of rest)
unfolding read_lines
read_lines-entry h fuel e f ctx rest r section =
    let text = codes e.label ++ (codes " = " ++ e.value) in
    let split : lines_of (conf_line (codes e.label) e.value ++ rest)
        ≡ conf_line (codes e.label) e.value ∷ lines_of rest =
      ap lines_of (line_end (codes e.label) e.value rest)
      ∙ (lines_of-line text rest r.one_line
          ∙ ap (λ (l : Bytes). l ∷ lines_of rest)
              (sym (line_end (codes e.label) e.value [])
                ∙ append-nil (conf_line (codes e.label) e.value))) in
    ap (read_lines h fuel ctx) split
    ∙ ap (λ (m : Outcome Ctx). m >>= λ c. read_lines h fuel c (lines_of rest)) (r.line ctx section)

pub read_lines-settings :
    (h : Host) (fuel : ℕ) (readings : List LineEffect) (ctx : Ctx) (rest : Bytes)
    → AllRead h fuel readings
    → ctx.is_device_section ≡ true
    → read_lines h fuel ctx (lines_of (settings (entries_of readings) ++ rest))
      ≡ read_lines h fuel (record ctx { device = stored readings ctx.device }) (lines_of rest)
unfolding settings
read_lines-settings h fuel [] ctx rest all section = refl
read_lines-settings h fuel ((e, f) ∷ readings) ctx rest (r, all) section =
    let later = settings (entries_of readings) in
    elim (Bool-cases e.present) [
      | inl here ↦ rw here (
          ap (λ (t : Bytes). read_lines h fuel ctx (lines_of t))
            (append_assoc (conf_line (codes e.label) e.value) later rest)
          ∙ (read_lines-entry h fuel e f ctx (later ++ rest) (r here) section
              ∙ read_lines-settings h fuel readings (record ctx { device = f ctx.device }) rest all
                  section))
      | inr absent ↦ rw absent (read_lines-settings h fuel readings ctx rest all section)
    ]
