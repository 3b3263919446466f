-- ===== src/Showconf/RoundTrip.antt =====
-- The settings Jc to H4 that showconf writes: the reader stores what the device had.
use router1_app.Containers.DeviceFlag
use router1_app.Showconf.{number_entries, settings, entry, header_entries}
use router1_app.Prelude.{
  Option, Bytes, ℕ, ◌^◌, ◌<◌, ◌≡◌, refl, ◌∙◌, Bool, true, false, none, some, List, [], ◌∷◌, ◌++◌,
  arith, ◌==◌, codes,
}
use router1_app.Config.Host.{Host}
use Prim.Native.String.{String}
use router1_app.Containers.{Device, zero_device}
use router1_app.Showconf.Lines.{lines_of, is_plain}
use router1_app.Containers.Flags.{has}
use router1_app.Showconf.Settings.{
  config_read_line-number, digits-plain, config_read_line-text, lacks_end-plain, no_end,
  stores_text, stores_number, Reaches, IsHeader,
}
use router1_app.Showconf.Readings.{read_lines-settings, stored, Reads, AllRead, LineEffect}
use router1_app.Config.Line.{Ctx, add_flag}
use router1_app.Libc.Split.{lacks}
use router1_app.Setconf.Main.{read_lines}
use router1_app.Uapi.Print.{print_u-all_digits, print_u}
use router1_app.Show.Dump.{or_null}
use router1_app.Showconf.Reached.{
  Reaches-s4, Reaches-s3, Reaches-s2, Reaches-s1, Reaches-h4, Reaches-h3, Reaches-jmax, Reaches-h2,
  Reaches-jmin, Reaches-h1, Reaches-jc,
}

abbrev pub number_reading : String → ℕ → Bool → (Device → ℕ → Device) → LineEffect
number_reading label n present store = (entry present label (print_u n), λ t. store t n)

abbrev pub header_reading :
    String → Option Bytes → Bool → (Device → Option Bytes → Device) → LineEffect
header_reading label o present store = (entry present label (or_null o), λ t. store t o)

lacks_end-append :
    (text rest : Bytes) → is_plain text ≡ true → lacks b'\n' (text ++ rest) ≡ lacks b'\n' rest
lacks_end-append [] rest h = refl
lacks_end-append (c ∷ text) rest h =
    let other : (c == b'\n') ≡ false = no_end c (ground (arith, h)) in
    rw (other, lacks_end-append text rest (ground (arith, h))) refl

one_line-plain :
    (label value : Bytes)
    → is_plain label ≡ true
    → is_plain value ≡ true
    → lacks b'\n' (label ++ (codes " = " ++ value)) ≡ true
one_line-plain label value l v =
    lacks_end-append label (codes " = " ++ value) l ∙ lacks_end-plain value v

Reads-number :
    (h : Host) (fuel n : ℕ) (label : String) (present : Bool) (store : Device → ℕ → Device)
    → n < 2 ^ 16
    → ((t : Device) → Reaches h t (codes label) (stores_number (store t)) (print_u n))
    → Reads h fuel (number_reading label n present store)
Reads-number h fuel n label present store small r = record {
  one_line =
      one_line-plain (codes label) (print_u n) ((r zero_device).plain)
        (digits-plain (print_u n) (print_u-all_digits n (omega (arith, small))));
  line = λ ctx section.
      config_read_line-number h fuel ctx (codes label) (store ctx.device) n section small
        (r ctx.device);
}

-- A header that is there, as a text that a line can carry.
abbrev pub HasHeader : Option Bytes → Type 0
HasHeader none = ⊥
HasHeader (some text) = IsHeader text

Reads-header :
    (h : Host) (fuel : ℕ) (o : Option Bytes) (label : String) (present : Bool)
    (store : Device → Option Bytes → Device)
    → HasHeader o
    → ((t : Device) → Reaches h t (codes label) (stores_text (store t)) (or_null o))
    → Reads h fuel (header_reading label o present store)
Reads-header h fuel none label present store has r = absurd has
Reads-header h fuel (some text) label present store (plain, filled, fits) r = record {
  one_line = one_line-plain (codes label) text ((r zero_device).plain) plain;
  line = λ ctx section.
      config_read_line-text h fuel ctx (codes label) (store ctx.device) text section
        (plain, filled, fits) (r ctx.device);
}

-- What each line of the numbers, and of the headers, does to the device that is read.
abbrev pub number_readings : Device → List LineEffect
number_readings d =
    number_reading "Jc" d.junk_packet_count (has d.flags DeviceFlag.has_jc)
      (λ t n. add_flag (record t { junk_packet_count = n }) DeviceFlag.has_jc)
    ∷ number_reading "Jmin" d.junk_packet_min_size (has d.flags DeviceFlag.has_jmin)
        (λ t n. add_flag (record t { junk_packet_min_size = n }) DeviceFlag.has_jmin)
    ∷ number_reading "Jmax" d.junk_packet_max_size (has d.flags DeviceFlag.has_jmax)
        (λ t n. add_flag (record t { junk_packet_max_size = n }) DeviceFlag.has_jmax)
    ∷ number_reading "S1" d.init_packet_junk_size (has d.flags DeviceFlag.has_s1)
        (λ t n. add_flag (record t { init_packet_junk_size = n }) DeviceFlag.has_s1)
    ∷ number_reading "S2" d.response_packet_junk_size (has d.flags DeviceFlag.has_s2)
        (λ t n. add_flag (record t { response_packet_junk_size = n }) DeviceFlag.has_s2)
    ∷ number_reading "S3" d.cookie_reply_packet_junk_size (has d.flags DeviceFlag.has_s3)
        (λ t n. add_flag (record t { cookie_reply_packet_junk_size = n }) DeviceFlag.has_s3)
    ∷ number_reading "S4" d.transport_packet_junk_size (has d.flags DeviceFlag.has_s4)
        (λ t n. add_flag (record t { transport_packet_junk_size = n }) DeviceFlag.has_s4)
    ∷ []

abbrev pub header_readings : Device → List LineEffect
header_readings d =
    header_reading "H1" d.init_packet_magic_header (has d.flags DeviceFlag.has_h1)
      (λ t o. add_flag (record t { init_packet_magic_header = o }) DeviceFlag.has_h1)
    ∷ header_reading "H2" d.response_packet_magic_header (has d.flags DeviceFlag.has_h2)
        (λ t o. add_flag (record t { response_packet_magic_header = o }) DeviceFlag.has_h2)
    ∷ header_reading "H3" d.underload_packet_magic_header (has d.flags DeviceFlag.has_h3)
        (λ t o. add_flag (record t { underload_packet_magic_header = o }) DeviceFlag.has_h3)
    ∷ header_reading "H4" d.transport_packet_magic_header (has d.flags DeviceFlag.has_h4)
        (λ t o. add_flag (record t { transport_packet_magic_header = o }) DeviceFlag.has_h4)
    ∷ []

-- The numbers are 16-bit integers, and each header that is set is a text.
pub record Fits (d : Device) : Type 0 where
  pub small_jc : d.junk_packet_count < 2 ^ 16
  pub small_jmin : d.junk_packet_min_size < 2 ^ 16
  pub small_jmax : d.junk_packet_max_size < 2 ^ 16
  pub small_s1 : d.init_packet_junk_size < 2 ^ 16
  pub small_s2 : d.response_packet_junk_size < 2 ^ 16
  pub small_s3 : d.cookie_reply_packet_junk_size < 2 ^ 16
  pub small_s4 : d.transport_packet_junk_size < 2 ^ 16
  pub full_h1 : has d.flags DeviceFlag.has_h1 ≡ true → HasHeader d.init_packet_magic_header
  pub full_h2 : has d.flags DeviceFlag.has_h2 ≡ true → HasHeader d.response_packet_magic_header
  pub full_h3 : has d.flags DeviceFlag.has_h3 ≡ true → HasHeader d.underload_packet_magic_header
  pub full_h4 : has d.flags DeviceFlag.has_h4 ≡ true → HasHeader d.transport_packet_magic_header

AllRead-numbers : (h : Host) (fuel : ℕ) (d : Device) → Fits d → AllRead h fuel (number_readings d)
AllRead-numbers h fuel d fits = (
  λ there.
      Reads-number h fuel d.junk_packet_count "Jc" _ _ fits.small_jc
        (Reaches-jc h (print_u d.junk_packet_count)),
  (
    λ there.
        Reads-number h fuel d.junk_packet_min_size "Jmin" _ _ fits.small_jmin
          (Reaches-jmin h (print_u d.junk_packet_min_size)),
    (
      λ there.
          Reads-number h fuel d.junk_packet_max_size "Jmax" _ _ fits.small_jmax
            (Reaches-jmax h (print_u d.junk_packet_max_size)),
      (
        λ there.
            Reads-number h fuel d.init_packet_junk_size "S1" _ _ fits.small_s1
              (Reaches-s1 h (print_u d.init_packet_junk_size)),
        (
          λ there.
              Reads-number h fuel d.response_packet_junk_size "S2" _ _ fits.small_s2
                (Reaches-s2 h (print_u d.response_packet_junk_size)),
          (
            λ there.
                Reads-number h fuel d.cookie_reply_packet_junk_size "S3" _ _ fits.small_s3
                  (Reaches-s3 h (print_u d.cookie_reply_packet_junk_size)),
            (
              λ there.
                  Reads-number h fuel d.transport_packet_junk_size "S4" _ _ fits.small_s4
                    (Reaches-s4 h (print_u d.transport_packet_junk_size)),
              tt,
            ),
          ),
        ),
      ),
    ),
  ),
)

AllRead-headers : (h : Host) (fuel : ℕ) (d : Device) → Fits d → AllRead h fuel (header_readings d)
AllRead-headers h fuel d fits = (
  λ there.
      Reads-header h fuel d.init_packet_magic_header "H1" _ _ (fits.full_h1 there)
        (Reaches-h1 h (or_null d.init_packet_magic_header)),
  (
    λ there.
        Reads-header h fuel d.response_packet_magic_header "H2" _ _ (fits.full_h2 there)
          (Reaches-h2 h (or_null d.response_packet_magic_header)),
    (
      λ there.
          Reads-header h fuel d.underload_packet_magic_header "H3" _ _ (fits.full_h3 there)
            (Reaches-h3 h (or_null d.underload_packet_magic_header)),
      (
        λ there.
            Reads-header h fuel d.transport_packet_magic_header "H4" _ _ (fits.full_h4 there)
              (Reaches-h4 h (or_null d.transport_packet_magic_header)),
        tt,
      ),
    ),
  ),
)

-- In the section [Interface], the lines that showconf writes for the settings Jc to H4 of a device
-- whose numbers have 16 bits, and whose set headers are texts of a length that the reader accepts
-- without blank and comment character, are read back: each setting whose flag the device has is stored
-- with its value and its flag, and nothing else is changed.
pub read_lines-stored :
    (h : Host) (fuel : ℕ) (d : Device) (ctx : Ctx) (rest : Bytes)
    → Fits d
    → ctx.is_device_section ≡ true
    → read_lines h fuel ctx
        (lines_of (settings (number_entries d) ++ (settings (header_entries d) ++ rest)))
      ≡ read_lines h fuel
          (record ctx {
            device = stored (header_readings d) (stored (number_readings d) ctx.device);
          })
          (lines_of rest)
unfolding number_entries header_entries
read_lines-stored h fuel d ctx rest fits section =
    read_lines-settings h fuel (number_readings d) ctx (settings (header_entries d) ++ rest)
      (AllRead-numbers h fuel d fits) section
    ∙ read_lines-settings h fuel (header_readings d)
        (record ctx { device = stored (number_readings d) ctx.device }) rest
        (AllRead-headers h fuel d fits) section
