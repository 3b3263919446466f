-- ===== src/Config/Line/Laws.antt =====
-- Every line that `process_line` accepts keeps the device well-formed, and `ctx->last_peer` is never
-- null where it is used.
use router1_app.Prelude.{
  ◌^◌, Bool, true, false, Option, Bytes, ◌>>=◌, Ensures, Ensures-bind, ok, inl, inr, [], ◌∷◌,
  Option-cases, ℕ, ◌<◌,
}
use router1_app.Encoding.Flags.{IsKey}
use router1_app.Containers.{Device}
use router1_app.Containers.Valid.{IsDevice, IsAwgString}
use router1_app.Config.Host.{Host, IsHost}
use router1_app.Config.Values.{parse_port, parse_fwmark, parse_key, parse_awg_string, parse_uint16}
use router1_app.Config.Values.Laws.{
  Below, parse_port-Ensures, parse_fwmark-Ensures, parse_uint16-Ensures, parse_awg_string-Ensures,
  parse_key-IsKey,
}
use router1_app.Config.Line.{key_or_fail, get_value, Branches, first_key, device_branches}

-- What all branches ensure, the chain ensures.
abbrev pub EnsureAll : {A : Type 0} → (A → Type 0) → Branches A → Type 0
EnsureAll P [] = Unit
EnsureAll P ((key, branch) ∷ more) = ((v : Bytes) → Ensures P (branch v)) × EnsureAll P more

pub first_key-Ensures :
    {A : Type 0} (P : A → Type 0) (line : Bytes) (branches : Branches A)
    → EnsureAll P branches
    → Ensures P (first_key line branches)
unfolding first_key
first_key-Ensures P line [] h = tt
first_key-Ensures P line ((key, branch) ∷ more) (h, hs) = elim (Option-cases (get_value line key)) [
  | inl absent ↦ rw (absent, first_key) (first_key-Ensures P line more hs)
  | inr (v, present) ↦ rw (present, first_key) (h v)
]

pub key_or_fail-Ensures :
    (answer : Bool × Bytes) → IsKey answer.1 → Ensures IsKey (key_or_fail answer)
key_or_fail-Ensures (true, key) h = h
key_or_fail-Ensures (false, key) h = tt

pub with_uint16 :
    (v : Bytes) (f : ℕ → Device)
    → ((n : ℕ) → n < 2 ^ 16 → IsDevice (f n))
    → Ensures IsDevice (parse_uint16 v >>= λ n. ok (f n))
with_uint16 v f k =
    Ensures-bind (λ n. n < 2 ^ 16) IsDevice (parse_uint16 v) (λ n. ok (f n))
      (parse_uint16-Ensures v) k

pub with_awg_string :
    (v : Bytes) (f : Option Bytes → Device)
    → ((t : Option Bytes) → IsAwgString t → IsDevice (f t))
    → Ensures IsDevice (parse_awg_string v >>= λ t. ok (f t))
with_awg_string v f k =
    Ensures-bind IsAwgString IsDevice (parse_awg_string v) (λ t. ok (f t))
      (parse_awg_string-Ensures v) k

module _ (h : Host) (w : IsHost h) (d : Device) (good : IsDevice d) where
  pub device_branches-Ensures : EnsureAll IsDevice (device_branches h d)
  unfolding device_branches
  device_branches-Ensures = (
    λ v.
        Ensures-bind (Below (2 ^ 16)) IsDevice (parse_port h d.flags v) _
          (parse_port-Ensures h d.flags v w) (λ p r. assumption),
    (
      λ v.
          Ensures-bind (Below (2 ^ 32)) IsDevice (parse_fwmark d.flags v) _
            (parse_fwmark-Ensures d.flags v) (λ p r. assumption),
      (
        λ v.
            Ensures-bind IsKey IsDevice (key_or_fail (parse_key d.private_key v)) _
              (key_or_fail-Ensures _ (parse_key-IsKey d.private_key v good.private_key_size))
              (λ k r. assumption),
        (
          λ v. with_uint16 v _ (λ n r. assumption),
          (
            λ v. with_uint16 v _ (λ n r. assumption),
            (
              λ v. with_uint16 v _ (λ n r. assumption),
              (
                λ v. with_uint16 v _ (λ n r. assumption),
                (
                  λ v. with_uint16 v _ (λ n r. assumption),
                  (
                    λ v. with_uint16 v _ (λ n r. assumption),
                    (
                      λ v. with_uint16 v _ (λ n r. assumption),
                      (
                        λ v. with_awg_string v _ (λ t r. assumption),
                        (
                          λ v. with_awg_string v _ (λ t r. assumption),
                          (
                            λ v. with_awg_string v _ (λ t r. assumption),
                            (
                              λ v. with_awg_string v _ (λ t r. assumption),
                              (
                                λ v. with_awg_string v _ (λ t r. assumption),
                                (
                                  λ v. with_awg_string v _ (λ t r. assumption),
                                  (
                                    λ v. with_awg_string v _ (λ t r. assumption),
                                    (
                                      λ v. with_awg_string v _ (λ t r. assumption),
                                      (λ v. with_awg_string v _ (λ t r. assumption), tt),
                                    ),
                                  ),
                                ),
                              ),
                            ),
                          ),
                        ),
                      ),
                    ),
                  ),
                ),
              ),
            ),
          ),
        ),
      ),
    ),
  )
