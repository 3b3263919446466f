-- ===== src/WgQuick/Settings/Kinds.antt =====
-- wg-quick/android.c: the tests of parse_options for its settings, by name and value.
use Prim.Native.String.{String}
use router1_app.Prelude.{
  ℕ, ◌≤◌, ◌≡◌, refl, ap, ◌∙◌, sym, inl, inr, Bool, true, false, ◌||◌, Option, none, some, [], ◌∷◌,
  arith, if◌then◌else◌, Bool-cases, Bytes, codes, length, drop,
}
use router1_app.Libc.{strncasecmp_eq}
use router1_app.WgQuick.{
  Kind, address, dns, excluded, included, mtu, awg, rest, starts, is_awg_line, kind_of,
}
use router1_app.WgQuick.Settings.{
  value_of, filled, cut, value_of-cut, filled-cut, strncasecmp_eq-length, is_some, is_own,
}

starts-value_of :
    (text : Bytes)
    → (filled (value_of (codes "Address") text) ≡ cut (starts text "Address=" 8 8) 8 text)
      × (filled (value_of (codes "DNS") text) ≡ cut (starts text "DNS=" 4 4) 4 text)
      × (filled (value_of (codes "MTU") text) ≡ cut (starts text "MTU=" 4 4) 4 text)
starts-value_of text = (
  ap filled (value_of-cut (codes "Address") text refl) ∙ filled-cut _ 8 text,
  ap filled (value_of-cut (codes "DNS") text refl) ∙ filled-cut _ 4 text,
  ap filled (value_of-cut (codes "MTU") text refl) ∙ filled-cut _ 4 text,
)

starts_long :
    (text : Bytes) (key : String)
    → 21 ≤ length (codes key)
    → strncasecmp_eq 21 text (codes key) ≡ starts text key 21 4
starts_long text key h = elim (Bool-cases (strncasecmp_eq 21 text (codes key))) [
  | inl e ↦ rw e (ground (arith, strncasecmp_eq-length 21 text (codes key) e h))
  | inr e ↦ rw e refl
]

starts-applications :
    (text : Bytes)
    → (value_of (codes "ExcludedApplications") text
        ≡ cut (starts text "ExcludedApplications=" 21 4) 21 text)
      × (value_of (codes "IncludedApplications") text
          ≡ cut (starts text "IncludedApplications=" 21 4) 21 text)
starts-applications text = (
  value_of-cut (codes "ExcludedApplications") text refl
      ∙ ap (λ (b : Bool). cut b 21 text) (starts_long text "ExcludedApplications=" (omega arith)),
  value_of-cut (codes "IncludedApplications") text refl
      ∙ ap (λ (b : Bool). cut b 21 text) (starts_long text "IncludedApplications=" (omega arith)),
)

abbrev pub own_kind : Kind → Bool
own_kind awg = false
own_kind rest = false
own_kind _ = true

abbrev pub address_value : Kind → Bytes → Option Bytes
address_value address text = some (drop 8 text)
address_value _ text = none

abbrev pub dns_value : Kind → Bytes → Option Bytes
dns_value dns text = some (drop 4 text)
dns_value _ text = none

is_some-cut : (b : Bool) (n : ℕ) (text : Bytes) → is_some (cut b n text) ≡ b
is_some-cut true n text = refl
is_some-cut false n text = refl

-- The tests in their order.
abbrev chain : Bool → Bool → Bool → Bool → Bool → Bool → Kind
chain a d e i m g =
    if a
    then address
    else if d
    then dns
    else if e
    then excluded
    else if i
    then included
    else if m
    then mtu
    else if g
    then awg
    else rest

chain-own_kind : (a d e i m g : Bool) → own_kind (chain a d e i m g) ≡ a || d || e || i || m
chain-own_kind true d e i m g = refl
chain-own_kind false true e i m g = refl
chain-own_kind false false true i m g = refl
chain-own_kind false false false true m g = refl
chain-own_kind false false false false true g = refl
chain-own_kind false false false false false true = refl
chain-own_kind false false false false false false = refl

chain-address_value :
    (a d e i m g : Bool) (text : Bytes) → address_value (chain a d e i m g) text ≡ cut a 8 text
chain-address_value true d e i m g text = refl
chain-address_value false true e i m g text = refl
chain-address_value false false true i m g text = refl
chain-address_value false false false true m g text = refl
chain-address_value false false false false true g text = refl
chain-address_value false false false false false true text = refl
chain-address_value false false false false false false text = refl

chain-dns_value :
    (a d e i m g : Bool) (text : Bytes)
    → (d ≡ true → a ≡ false)
    → dns_value (chain a d e i m g) text ≡ cut d 4 text
chain-dns_value true true e i m g text h = absurd (ground (arith, h refl))
chain-dns_value true false e i m g text h = refl
chain-dns_value false true e i m g text h = refl
chain-dns_value false false true i m g text h = refl
chain-dns_value false false false true m g text h = refl
chain-dns_value false false false false true g text h = refl
chain-dns_value false false false false false true text h = refl
chain-dns_value false false false false false false text h = refl

-- No text begins with both names.
starts_apart : (text : Bytes) → starts text "DNS=" 4 4 ≡ true → starts text "Address=" 8 8 ≡ false
unfolding strncasecmp_eq
starts_apart [] h = refl
starts_apart (c ∷ text) h = ground (arith, h)

pub kind_of-own_kind : (text : Bytes) → own_kind (kind_of text) ≡ is_own text
unfolding kind_of
kind_of-own_kind text =
    let s = starts-value_of text in
    let l = starts-applications text in
    rw (s.0, s.1, s.2, l.0, l.1)
      (rw
        (
          is_some-cut _ 8 text,
          is_some-cut (starts text "DNS=" 4 4) 4 text,
          is_some-cut (starts text "ExcludedApplications=" 21 4) 21 text,
          is_some-cut (starts text "IncludedApplications=" 21 4) 21 text,
          is_some-cut (starts text "MTU=" 4 4) 4 text,
        )
        (chain-own_kind _ _ _ _ _ (is_awg_line text)))

pub kind_of-address_value :
    (text : Bytes) → address_value (kind_of text) text ≡ filled (value_of (codes "Address") text)
unfolding kind_of
kind_of-address_value text =
    chain-address_value (starts text "Address=" 8 8) (starts text "DNS=" 4 4)
      (starts text "ExcludedApplications=" 21 4) (starts text "IncludedApplications=" 21 4)
      (starts text "MTU=" 4 4) (is_awg_line text) text
    ∙ sym ((starts-value_of text).0)

pub kind_of-dns_value :
    (text : Bytes) → dns_value (kind_of text) text ≡ filled (value_of (codes "DNS") text)
unfolding kind_of
kind_of-dns_value text =
    chain-dns_value (starts text "Address=" 8 8) (starts text "DNS=" 4 4)
      (starts text "ExcludedApplications=" 21 4) (starts text "IncludedApplications=" 21 4)
      (starts text "MTU=" 4 4) (is_awg_line text) text (starts_apart text)
    ∙ sym ((starts-value_of text).1)
