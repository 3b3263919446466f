-- ===== src/Prelude/Results.antt =====
-- What a call of a parser comes to: a value, the answer `false` (its caller then frees what was
-- built), an `exit(1)` inside the call, a use of a null pointer or a write behind a buffer, or a call
-- that has not returned within the answers of the host that the model follows.
use router1_app.Prelude.Tests.{if◌then◌else◌}
use mathlib.Core.Path.{◌≡◌, refl, subst}
use mathlib.Core.Logic.{◌≢◌}
use mathlib.Core.Bool.{Bool, true, false}

pub data Outcome {ℓ} (A : Type ℓ) : Type ℓ where
  ok : A → Outcome A
  fail : Outcome A
  exit : Outcome A
  fault : Outcome A
  hang : Outcome A

infixl 5 ◌>>=◌ ◌>>◌
abbrev pub ◌>>=◌ {ℓ κ} : {A : Type ℓ} {B : Type κ} → Outcome A → (A → Outcome B) → Outcome B
ok a >>= f = f a
fail >>= f = fail
exit >>= f = exit
fault >>= f = fault
hang >>= f = hang

abbrev pub ◌>>◌ {ℓ} : {B : Type ℓ} → Outcome (Unit {0}) → Outcome B → Outcome B
m >> k = m >>= λ _. k

-- `if (!b) return false;`
abbrev pub require : Bool → Outcome (Unit {0})
require true = ok tt
require false = fail

-- Every value that the call may return satisfies P, and the call is no fault.
abbrev pub Ensures {ℓ} : {A : Type ℓ} → (A → Type 0) → Outcome A → Type 0
Ensures P (ok a) = P a
Ensures P fail = Unit
Ensures P exit = Unit
Ensures P fault = ⊥
Ensures P hang = Unit

module _ {ℓ κ} {A : Type ℓ} {B : Type κ} where
  pub Ensures-bind :
      (P : A → Type 0) (Q : B → Type 0) (m : Outcome A) (f : A → Outcome B)
      → Ensures P m
      → ((a : A) → P a → Ensures Q (f a))
      → Ensures Q (m >>= f)
  Ensures-bind P Q (ok a) f h k = k a h
  Ensures-bind P Q fail f h k = tt
  Ensures-bind P Q exit f h k = tt
  Ensures-bind P Q fault f h k = absurd h
  Ensures-bind P Q hang f h k = tt

module _ {ℓ} {A : Type ℓ} (P : A → Type 0) where
  pub Ensures-ok : (m : Outcome A) {a : A} → Ensures P m → m ≡ ok a → P a
  Ensures-ok (ok x) h e = subst P (cc) h
  Ensures-ok fail h e = cc
  Ensures-ok exit h e = cc
  Ensures-ok fault h e = cc
  Ensures-ok hang h e = cc

  pub Ensures-ne-fault : (m : Outcome A) → Ensures P m → m ≢ fault
  Ensures-ne-fault (ok x) h e = cc
  Ensures-ne-fault fail h e = cc
  Ensures-ne-fault exit h e = cc
  Ensures-ne-fault fault h e = h
  Ensures-ne-fault hang h e = cc

  pub Ensures-if :
      (b : Bool) (m n : Outcome A)
      → (b ≡ true → Ensures P m)
      → (b ≡ false → Ensures P n)
      → Ensures P (if b then m else n)
  Ensures-if true m n h k = h refl
  Ensures-if false m n h k = k refl

module _ {ℓ} {A : Type ℓ} (P Q : A → Type 0) where
  pub Ensures-imp : (m : Outcome A) → Ensures P m → ((a : A) → P a → Q a) → Ensures Q m
  Ensures-imp (ok a) h k = k a h
  Ensures-imp fail h k = tt
  Ensures-imp exit h k = tt
  Ensures-imp fault h k = h
  Ensures-imp hang h k = tt
