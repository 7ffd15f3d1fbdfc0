-- ===== src/Base/Outcome.antt =====
-- What a call comes to: a value, or one of the ways in which the loader stops for good:
-- `assert` (source/include/assert.h), `internal_error` and `boot_error` (source/error.c), or an access
-- that C leaves undefined, or a loop that does not end.
use mathlib.Core.Path.{◌≡◌, ap}
use mathlib.Core.Bool.{Bool, true, false}

pub data Fault : Type 0 where
  assertion internal_error boot_error undefined endless : Fault

pub data Outcome {ℓ} (A : Type ℓ) : Type ℓ where
  done : A → Outcome A
  stop : Fault → Outcome A

infixl 5 ◌>>=◌ ◌>>◌
abbrev pub ◌>>=◌ {ℓ κ} : {A : Type ℓ} {B : Type κ} → Outcome A → (A → Outcome B) → Outcome B
done a >>= f = f a
stop e >>= f = stop e

abbrev pub ◌>>◌ {ℓ} : {B : Type ℓ} → Outcome (Unit {0}) → Outcome B → Outcome B
m >> k = m >>= λ _. k

abbrev pub assert : Bool → Outcome (Unit {0})
assert true = done tt
assert false = stop assertion

-- A call in two parts whose first part comes to a value.
pub bind_done {ℓ κ μ} :
    {A : Type ℓ} {B : Type κ} {C : Type μ} (m : Outcome A) (f : A → Outcome B) (g : B → Outcome C)
    (b : B)
    → (m >>= f) ≡ done b
    → (m >>= λ a. f a >>= g) ≡ g b
bind_done (done a) f g b e = ap (λ o. o >>= g) e
bind_done (stop x) f g b e = ap (λ o. o >>= g) e
